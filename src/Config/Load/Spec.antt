-- ===== src/Config/Load/Spec.antt =====
-- What `LoadConfig` promises of the settings that it returns, written without its code.
use nas_conn_plus.Base.{
  ℤ, pos, ◌≤ℤ◌, int_eq, Str, codes, ◌≡◌, ◌≢◌, ◌⊎◌, List, [], ◌++◌, map, some, Bool, true, All,
  distinct,
}
use nas_conn_plus.Config.{Config, HttpsPort}

abbrev pub IsPort : ℤ → Type 0
IsPort p = (pos 1 ≤ℤ p) × (p ≤ℤ pos 65535)

abbrev pub IsRule : HttpsPort → Type 0
IsRule r = IsPort r.http × IsPort r.https × (r.http ≢ r.https)

-- `p` stands somewhere in `s`.
abbrev pub Within : Str → Str → Type 0
Within p s = (before : Str) × (after : Str) × (s ≡ before ++ (p ++ after))

abbrev pub IsMode : Str → Type 0
IsMode m = (m ≡ codes "auto") ⊎ (m ≡ codes "whitelist")

abbrev pub targets : List HttpsPort → List ℤ
targets = map λ r. r.https

-- What a decoded file must satisfy.
pub record IsAcceptable (c : Config) : Type 0 where
  pub rules : All IsRule c.https
  pub one_rule_each : distinct (targets c.https) ≡ true
  pub relay_exclude : All IsPort c.relay.exclude
  pub https_exclude : All IsPort c.https_exclude
  pub relay_allow : All IsPort c.relay.allow
  pub https_allow : All IsPort c.https_allow
  pub acme_domain : c.acme.enabled ≡ true → c.acme.domain ≢ []
  pub socket_path : ¬ Within (codes "..") c.socket_path
  pub cert_config_path : ¬ Within (codes "..") c.cert_config_path
  pub self_dir : ¬ Within (codes "..") c.self_dir
  pub cache_dir : ¬ Within (codes "..") c.acme.cache_dir
  pub relay_mode : (c.relay.mode ≡ []) ⊎ IsMode c.relay.mode
  pub https_mode : (c.https_mode ≡ []) ⊎ IsMode c.https_mode

-- The ranges that the comments of the source promise.
pub record IsBounded (c : Config) : Type 0 where
  pub poll : (pos 1 ≤ℤ c.poll_seconds) × (c.poll_seconds ≤ℤ pos 3600)
  pub grace : (pos 1 ≤ℤ c.grace_polls) × (c.grace_polls ≤ℤ pos 120)
  pub idle : (pos 60 ≤ℤ c.idle_seconds) × (c.idle_seconds ≤ℤ pos 86400)
  pub offset : (pos 1 ≤ℤ c.https_offset) × (c.https_offset ≤ℤ pos 100)
  pub conns : (pos 1 ≤ℤ c.max_conns_per_listener) × (c.max_conns_per_listener ≤ℤ pos 4096)
  pub hsts : c.hsts.enabled ≡ true → pos 1 ≤ℤ c.hsts.max_age
  pub cert_host : c.cert_host ≢ []
  pub self_dir : c.self_dir ≢ []
  pub cache_dir : c.acme.cache_dir ≢ []
  pub fallback : (b : Bool) × (c.fallback_self ≡ some b)
  pub auto_trust : (b : Bool) × (c.auto_trust_local_ca ≡ some b)
  pub https_auto : (b : Bool) × (c.https_auto ≡ some b)
  pub zero_copy : (b : Bool) × (c.relay.zero_copy ≡ some b)
