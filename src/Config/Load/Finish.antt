-- ===== src/Config/Load/Finish.antt =====
-- What comes out of `LoadConfig` for a decoded file.
use nas_conn_plus.Base.{
  ℤ, int_eq, eqb_ℤ_iff, Str, codes, contains, ◌≡◌, refl, ◌↔◌, ◌⊎◌, inl, inr, List, [], ◌∷◌, Bool,
  true, false, All, mem, ok, >>-eq-ok, arith,
}
use nas_conn_plus.Config.{Config, default_exclude_ports, union_ports}
use nas_conn_plus.Config.Sets.{mem-union_ports}
use nas_conn_plus.Config.Load.{or_text, deny_list, set_defaults, validate, seal, finish}
use nas_conn_plus.Config.Load.Spec.{IsPort, IsMode, Within, IsAcceptable, IsBounded}
use nas_conn_plus.Config.Load.Bounds.{set_defaults-IsBounded}
use nas_conn_plus.Config.Load.Accepts.{validate_iff, contains_iff}

All-IsPort-mem : (ps : List ℤ) → All IsPort ps → (q : ℤ) → mem q ps ≡ true → IsPort q
unfolding mem
All-IsPort-mem [] h q m = cc
All-IsPort-mem (p ∷ ps) h q m = ground (arith, eqb_ℤ_iff q p, All-IsPort-mem ps h.1 q)

mem-All-IsPort : (ps : List ℤ) → ((q : ℤ) → mem q ps ≡ true → IsPort q) → All IsPort ps
unfolding mem
mem-All-IsPort [] h = tt
mem-All-IsPort (p ∷ ps) h =
    (h p (ground (arith, eqb_ℤ_iff p p)), mem-All-IsPort ps (λ q m. h q (ground arith)))

default_exclude_ports-IsPort : All IsPort default_exclude_ports
unfolding default_exclude_ports
default_exclude_ports-IsPort = omega arith

deny_list-IsPort :
    (override : Bool) (ps : List ℤ) → All IsPort (deny_list override ps) ↔ All IsPort ps
unfolding deny_list
deny_list-IsPort true ps = (λ h. h, λ h. h)
deny_list-IsPort false ps = (
  λ h. mem-All-IsPort ps λ q m.
      All-IsPort-mem (union_ports default_exclude_ports ps) h q
        (ground (arith, mem-union_ports q default_exclude_ports ps)),
  λ h. mem-All-IsPort (union_ports default_exclude_ports ps) λ q m. ground (
    arith,
    mem-union_ports q default_exclude_ports ps,
    All-IsPort-mem ps h q,
    All-IsPort-mem default_exclude_ports default_exclude_ports-IsPort q,
  ),
)

-- A default text without ".." hides none.
or_text-Within :
    (d s : Str)
    → contains (codes "..") d ≡ false
    → (¬ Within (codes "..") (or_text d s)) ↔ (¬ Within (codes "..") s)
unfolding or_text contains
or_text-Within d [] h =
    (λ _. (contains_iff (codes "..") []).0 refl, λ _. (contains_iff (codes "..") d).0 h)
or_text-Within d (c ∷ s) h = (λ k. k, λ k. k)

self_dir-Within :
    (s : Str)
    → (¬ Within (codes "..") (or_text (codes "/etc/nasconnplus/tls") s)) ↔ (¬ Within (codes "..") s)
unfolding contains
self_dir-Within s = or_text-Within (codes "/etc/nasconnplus/tls") s refl

cache_dir-Within :
    (s : Str)
    → (¬ Within (codes "..") (or_text (codes "/etc/nasconnplus/acme_cache") s))
      ↔ (¬ Within (codes "..") s)
unfolding contains
cache_dir-Within s = or_text-Within (codes "/etc/nasconnplus/acme_cache") s refl

-- The defaults neither mend nor break a file.
set_defaults-IsAcceptable : (c : Config) → IsAcceptable (set_defaults c) ↔ IsAcceptable c
unfolding set_defaults
set_defaults-IsAcceptable c = (
  λ h. record {
    rules = h.rules;
    one_rule_each = h.one_rule_each;
    relay_exclude =
        (deny_list-IsPort c.override_default_excludes c.relay.exclude).0 h.relay_exclude;
    https_exclude =
        (deny_list-IsPort c.override_default_excludes c.https_exclude).0 h.https_exclude;
    relay_allow = h.relay_allow;
    https_allow = h.https_allow;
    acme_domain = h.acme_domain;
    socket_path = h.socket_path;
    cert_config_path = h.cert_config_path;
    self_dir = (self_dir-Within c.self_dir).0 h.self_dir;
    cache_dir = (cache_dir-Within c.acme.cache_dir).0 h.cache_dir;
    relay_mode = h.relay_mode;
    https_mode = h.https_mode;
  },
  λ h. record {
    rules = h.rules;
    one_rule_each = h.one_rule_each;
    relay_exclude =
        (deny_list-IsPort c.override_default_excludes c.relay.exclude).1 h.relay_exclude;
    https_exclude =
        (deny_list-IsPort c.override_default_excludes c.https_exclude).1 h.https_exclude;
    relay_allow = h.relay_allow;
    https_allow = h.https_allow;
    acme_domain = h.acme_domain;
    socket_path = h.socket_path;
    cert_config_path = h.cert_config_path;
    self_dir = (self_dir-Within c.self_dir).1 h.self_dir;
    cache_dir = (cache_dir-Within c.acme.cache_dir).1 h.cache_dir;
    relay_mode = h.relay_mode;
    https_mode = h.https_mode;
  },
)

pub finish-eq-ok :
    (raw c : Config)
    → finish raw ≡ ok c
    → (validate (set_defaults raw) ≡ ok tt) × (seal (set_defaults raw) ≡ c)
unfolding finish
finish-eq-ok raw c h =
    let (v, e) = >>-eq-ok (validate (set_defaults raw)) (ok (seal (set_defaults raw))) h in (v, cc)

finish-acceptable : (raw : Config) → IsAcceptable raw → finish raw ≡ ok (seal (set_defaults raw))
unfolding finish
finish-acceptable raw h =
    rw ((validate_iff (set_defaults raw)).1 ((set_defaults-IsAcceptable raw).1 h))

-- `LoadConfig` accepts a decoded file exactly when its rules are port pairs with distinct targets, its
-- lists hold ports, ACME has a domain, no path has "..", and the modes are known or empty.
pub finish_accepts : (raw : Config) → ((c : Config) × (finish raw ≡ ok c)) ↔ IsAcceptable raw
finish_accepts raw = (
  λ (c, h). (set_defaults-IsAcceptable raw).0 ((validate_iff _).0 (finish-eq-ok raw c h).0),
  λ h. (seal (set_defaults raw), finish-acceptable raw h),
)

seal-IsBounded : (c : Config) → IsBounded c → IsBounded (seal c)
unfolding seal
seal-IsBounded c b = record {
  poll = b.poll;
  grace = b.grace;
  idle = b.idle;
  offset = b.offset;
  conns = b.conns;
  hsts = b.hsts;
  cert_host = b.cert_host;
  self_dir = b.self_dir;
  cache_dir = b.cache_dir;
  fallback = b.fallback;
  auto_trust = b.auto_trust;
  https_auto = b.https_auto;
  zero_copy = b.zero_copy;
}

or_text-IsMode : (m : Str) → (m ≡ []) ⊎ IsMode m → IsMode (or_text (codes "auto") m)
unfolding or_text
or_text-IsMode [] h = inl refl
or_text-IsMode (c ∷ s) (inl e) = cc
or_text-IsMode (c ∷ s) (inr h) = h

seal-IsMode :
    (c : Config) → IsAcceptable c → IsMode (seal c).relay.mode × IsMode (seal c).https_mode
unfolding seal
seal-IsMode c h =
    (or_text-IsMode c.relay.mode h.relay_mode, or_text-IsMode c.https_mode h.https_mode)

-- Every accepted file leaves settings within their bounds, each of the two modes "auto" or
-- "whitelist".
pub finish-IsBounded :
    (raw c : Config) → finish raw ≡ ok c → IsBounded c × IsMode c.relay.mode × IsMode c.https_mode
finish-IsBounded raw c h =
    let (v, e) = finish-eq-ok raw c h in
    let (relay, https) = seal-IsMode (set_defaults raw) ((validate_iff _).0 v) in
    rw (← e) (seal-IsBounded (set_defaults raw) (set_defaults-IsBounded raw), relay, https)
