-- ===== src/Config/Load.antt =====
-- config.go: `LoadConfig` from the decoded JSON on: defaults, bounds, the deny list, validation.
pub mod Spec
pub mod Bounds
pub mod Finish
pub mod Ports
pub mod Accepts
use nas_conn_plus.Base.{
  ℤ, pos, negsuc, leb_ℤ, ltb_ℤ, eqb_ℤ, int_eq, Str, codes, str_beq, contains, is_empty, List, [],
  ◌∷◌, Option, none, some, Bool, true, false, not, ◌&&◌, ◌||◌, if◌then◌else◌, Map, get, put, Result,
  ok, err, ◌>>◌, reject,
}
use nas_conn_plus.Config.{Config, HttpsPort, default_exclude_ports, union_ports, build_set}
use nas_conn_plus.Config.Paths.{dotdot}

pub data LoadError : Type 0 where
  invalid_path traversal : Str → LoadError
  read_failed mkdir_failed write_failed : Str → LoadError
  parse_failed : Str → LoadError
  bad_mapping : HttpsPort → LoadError
  duplicate_https : ℤ → Str → Str → LoadError
  bad_relay_exclude bad_https_exclude bad_relay_allow bad_https_allow : ℤ → LoadError
  acme_without_domain : LoadError
  path_traversal : Str → LoadError
  bad_relay_mode bad_https_mode : Str → LoadError

-- `if x <= 0 { x = d }`.
or_default : ℤ → ℤ → ℤ
or_default d x = if leb_ℤ x (pos 0) then d else x

-- `if x > hi { x = hi }`.
at_most : ℤ → ℤ → ℤ
at_most hi x = if ltb_ℤ hi x then hi else x

-- `if x < lo { x = lo } else if x > hi { x = hi }`.
clamp : ℤ → ℤ → ℤ → ℤ
unfolding at_most
clamp lo hi x = if ltb_ℤ x lo then lo else at_most hi x

or_text : Str → Str → Str
or_text d s = if is_empty s then d else s

or_true : Option Bool → Option Bool
or_true none = some true
or_true (some b) = some b

hsts_age : Bool → ℤ → ℤ
hsts_age enabled age = if enabled && leb_ℤ age (pos 0) then pos 31536000 else age

deny_list : Bool → List ℤ → List ℤ
deny_list override exclude = if override then exclude else union_ports default_exclude_ports exclude

-- The assignments from the parse to the validation.
unfoldable pub set_defaults : Config → Config
unfolding or_default at_most clamp or_text or_true hsts_age deny_list
set_defaults c = record c {
  poll_seconds = clamp (pos 1) (pos 3600) (or_default (pos 5) c.poll_seconds);
  grace_polls = at_most (pos 120) (or_default (pos 2) c.grace_polls);
  cert_host = or_text (codes "nas.local") c.cert_host;
  self_dir = or_text (codes "/etc/nasconnplus/tls") c.self_dir;
  acme = record (c.acme) {
    cache_dir = or_text (codes "/etc/nasconnplus/acme_cache") c.acme.cache_dir;
  };
  idle_seconds = clamp (pos 60) (pos 86400) (or_default (pos 900) c.idle_seconds);
  fallback_self = or_true c.fallback_self;
  auto_trust_local_ca = or_true c.auto_trust_local_ca;
  https_auto = or_true c.https_auto;
  relay = record (c.relay) {
    zero_copy = or_true c.relay.zero_copy;
    exclude = deny_list c.override_default_excludes c.relay.exclude;
  };
  https_offset = clamp (pos 1) (pos 100) (or_default (pos 1) c.https_offset);
  max_conns_per_listener = at_most (pos 4096) (or_default (pos 2048) c.max_conns_per_listener);
  hsts = record (c.hsts) { max_age = hsts_age c.hsts.enabled c.hsts.max_age };
  https_exclude = deny_list c.override_default_excludes c.https_exclude;
}

-- `p <= 0 || p > 65535`.
unfoldable pub bad_port : ℤ → Bool
bad_port p = leb_ℤ p (pos 0) || ltb_ℤ (pos 65535) p

bad_rule : HttpsPort → Bool
unfolding bad_port
bad_rule p = bad_port p.http || (bad_port p.https || eqb_ℤ p.http p.https)

unfoldable pub check_rules : Map ℤ Str → List HttpsPort → Result LoadError (Unit {0})
unfolding bad_rule get put
check_rules seen [] = ok tt
check_rules seen (p ∷ ps) = reject (bad_rule p) (bad_mapping p) >> (elim (get p.https seen) [
  | some n ↦ err (duplicate_https p.https n p.name)
  | none ↦ check_rules (put p.https p.name seen) ps
])

unfoldable pub check_ports : (ℤ → LoadError) → List ℤ → Result LoadError (Unit {0})
unfolding bad_port
check_ports fault [] = ok tt
check_ports fault (p ∷ ps) = reject (bad_port p) (fault p) >> check_ports fault ps

unfoldable pub check_paths : List Str → Result LoadError (Unit {0})
unfolding contains
check_paths [] = ok tt
check_paths (p ∷ ps) = reject (contains dotdot p) (path_traversal p) >> check_paths ps

abbrev auto : Str
auto = codes "auto"

unfoldable pub bad_mode : Str → Bool
unfolding str_beq
bad_mode m = not (is_empty m) && (not (str_beq m auto) && not (str_beq m (codes "whitelist")))

unfoldable pub validate : Config → Result LoadError (Unit {0})
validate c =
    check_rules [] c.https
    >> check_ports bad_relay_exclude c.relay.exclude
    >> check_ports bad_https_exclude c.https_exclude
    >> check_ports bad_relay_allow c.relay.allow
    >> check_ports bad_https_allow c.https_allow
    >> reject (c.acme.enabled && is_empty c.acme.domain) acme_without_domain
    >> check_paths (c.socket_path ∷ c.cert_config_path ∷ c.self_dir ∷ c.acme.cache_dir ∷ [])
    >> reject (bad_mode c.relay.mode) (bad_relay_mode c.relay.mode)
    >> reject (bad_mode c.https_mode) (bad_https_mode c.https_mode)

-- An empty mode becomes "auto", and the sets are built.
unfoldable pub seal : Config → Config
unfolding or_text
seal c = record c {
  relay = record (c.relay) { mode = or_text auto c.relay.mode };
  https_mode = or_text auto c.https_mode;
  relay_exclude_set = some (build_set c.relay.exclude);
  https_exclude_set = some (build_set c.https_exclude);
  relay_allow_set = some (build_set c.relay.allow);
  https_allow_set = some (build_set c.https_allow);
}

-- What `LoadConfig` makes of a decoded file.
unfoldable pub finish : Config → Result LoadError Config
finish raw = let c = set_defaults raw in validate c >> ok (seal c)
