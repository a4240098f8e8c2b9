-- ===== src/Config/Load/Accepts.antt =====
-- `validate` accepts exactly the acceptable settings.
use nas_conn_plus.Base.{
  ℤ, int_eq, eqb_ℤ_iff, Str, codes, str_beq_iff, contains, ◌≡◌, ◌≢◌, refl, ◌↔◌, ◌⊎◌, inl, inr, List,
  [], ◌∷◌, none, Bool, true, false, ◌&&◌, is_empty, All, mem, distinct, Map, get, put, get-put, ok,
  reject, arith, Bool-cases,
}
use nas_conn_plus.Base.Text.Search.{contains-append, contains-split}
use nas_conn_plus.Config.{Config, HttpsPort}
use nas_conn_plus.Config.Load.{
  LoadError, acme_without_domain, bad_relay_exclude, bad_https_exclude, bad_relay_allow,
  bad_https_allow, bad_port, bad_rule, check_rules, check_ports, check_paths, bad_mode, validate,
}
use nas_conn_plus.Config.Load.Spec.{IsPort, IsRule, Within, IsMode, targets, IsAcceptable}

pub bad_port_iff : (p : ℤ) → (bad_port p ≡ false) ↔ IsPort p
unfolding bad_port
bad_port_iff p = ground arith

check_ports_iff :
    (fault : ℤ → LoadError) (ps : List ℤ) → (check_ports fault ps ≡ ok tt) ↔ All IsPort ps
unfolding check_ports
check_ports_iff fault [] = (λ _. tt, λ _. refl)
check_ports_iff fault (p ∷ ps) = ground (arith, bad_port_iff p, check_ports_iff fault ps)

bad_rule_iff : (r : HttpsPort) → (bad_rule r ≡ false) ↔ IsRule r
unfolding bad_rule
bad_rule_iff r = ground (arith, bad_port_iff r.http, bad_port_iff r.https, eqb_ℤ_iff r.http r.https)

-- No rule's target has been seen.
abbrev Fresh : Map ℤ Str → List HttpsPort → Type 0
Fresh seen = All λ r. get r.https seen ≡ none

Fresh-put :
    (k : ℤ) (n : Str) (seen : Map ℤ Str) (rs : List HttpsPort)
    → get k seen ≡ none
    → Fresh (put k n seen) rs ↔ (Fresh seen rs × (mem k (targets rs) ≡ false))
unfolding mem
Fresh-put k n seen [] h = ground arith
Fresh-put k n seen (r ∷ rs) h =
    ground (arith, get-put k r.https n seen, Fresh-put k n seen rs h, eqb_ℤ_iff k r.https)

Fresh-nil : (rs : List HttpsPort) → Fresh [] rs
unfolding get
Fresh-nil [] = tt
Fresh-nil (r ∷ rs) = (refl, Fresh-nil rs)

check_rules_iff :
    (seen : Map ℤ Str) (rs : List HttpsPort)
    → (check_rules seen rs ≡ ok tt)
      ↔ (All IsRule rs × (distinct (targets rs) ≡ true) × Fresh seen rs)
unfolding check_rules distinct
check_rules_iff seen [] = ground arith
check_rules_iff seen (r ∷ rs) = ground (
  arith,
  bad_rule_iff r,
  Fresh-put r.https r.name seen rs,
  check_rules_iff (put r.https r.name seen) rs,
)

contains-Within : (p s : Str) → Within p s → contains p s ≡ true
contains-Within p s (b, rest, e) = rw e (contains-append b p rest)

pub contains_iff : (p s : Str) → (contains p s ≡ false) ↔ (¬ Within p s)
contains_iff p s = (
  λ h w. cc (contains-Within p s w),
  λ h. elim (Bool-cases (contains p s)) [
    | inl found ↦ absurd (h (contains-split p s found))
    | inr e ↦ e
  ],
)

abbrev dotdot : Str
dotdot = codes ".."

check_paths_iff :
    (ps : List Str) → (check_paths ps ≡ ok tt) ↔ All (λ s. contains dotdot s ≡ false) ps
unfolding check_paths
check_paths_iff [] = (λ _. tt, λ _. refl)
check_paths_iff (p ∷ ps) = ground (arith, check_paths_iff ps)

bad_mode_iff : (m : Str) → (bad_mode m ≡ false) ↔ ((m ≡ []) ⊎ IsMode m)
unfolding bad_mode
bad_mode_iff [] = ground arith
bad_mode_iff (c ∷ s) =
    ground (arith, str_beq_iff (c ∷ s) (codes "auto"), str_beq_iff (c ∷ s) (codes "whitelist"))

acme_iff :
    (enabled : Bool) (domain : Str)
    → ((reject (enabled && is_empty domain) acme_without_domain) ≡ ok tt)
      ↔ (enabled ≡ true → domain ≢ [])
acme_iff false domain = ground arith
acme_iff true [] = (λ e. cc, λ h. absurd (h refl refl))
acme_iff true (c ∷ s) = (λ e _ k. cc, λ _. refl)

reject_iff : (b : Bool) (e : LoadError) → (reject b e ≡ ok tt) ↔ (b ≡ false)
reject_iff b e = ground arith

pub validate_iff : (c : Config) → (validate c ≡ ok tt) ↔ IsAcceptable c
unfolding validate
validate_iff c = ground (
  arith,
  check_rules_iff [] c.https,
  Fresh-nil c.https,
  check_ports_iff bad_relay_exclude c.relay.exclude,
  check_ports_iff bad_https_exclude c.https_exclude,
  check_ports_iff bad_relay_allow c.relay.allow,
  check_ports_iff bad_https_allow c.https_allow,
  acme_iff c.acme.enabled c.acme.domain,
  check_paths_iff (c.socket_path ∷ c.cert_config_path ∷ c.self_dir ∷ c.acme.cache_dir ∷ []),
  contains_iff dotdot c.socket_path,
  contains_iff dotdot c.cert_config_path,
  contains_iff dotdot c.self_dir,
  contains_iff dotdot c.acme.cache_dir,
  bad_mode_iff c.relay.mode,
  bad_mode_iff c.https_mode,
)
