-- ===== src/Config/Load/Ports.antt =====
-- Which ports the settings that come out of `LoadConfig` exclude and allow.
use nas_conn_plus.Base.{
  ℤ, int_eq, Str, codes, str_beq, str_beq_iff, ◌≡◌, ◌≢◌, refl, ◌∙◌, ◌↔◌, ◌⊎◌, List, [], ◌∷◌, some,
  Bool, true, false, ◌||◌, ◌&&◌, not, mem, if◌then◌else◌, ok, arith,
}
use nas_conn_plus.Config.{Config, default_exclude_ports, build_set}
use nas_conn_plus.Config.Sets.{mem-union_ports, mem-build_set}
use nas_conn_plus.Config.Policy.{is_excluded, is_relay_allowed, is_https_allowed, is_nil, whitelist}
use nas_conn_plus.Config.Load.{or_text, deny_list, set_defaults, seal, finish}
use nas_conn_plus.Config.Load.Finish.{finish-eq-ok}

mem-deny_list :
    (p : ℤ) (override : Bool) (ps : List ℤ)
    → mem p (deny_list override ps) ≡ (mem p ps || (not override && mem p default_exclude_ports))
unfolding deny_list
mem-deny_list p true ps = ground arith
mem-deny_list p false ps = ground (arith, mem-union_ports p default_exclude_ports ps)

pub seal-is_excluded :
    (c : Config) (p : ℤ)
    → is_excluded (some (seal c)) p ≡ (mem p c.relay.exclude || mem p c.https_exclude)
unfolding is_excluded seal
seal-is_excluded c p = rw (mem-build_set p c.relay.exclude, mem-build_set p c.https_exclude)

set_defaults-exclude :
    (c : Config) (p : ℤ)
    → (mem p (set_defaults c).relay.exclude || mem p (set_defaults c).https_exclude) ≡ (
        (mem p c.relay.exclude || mem p c.https_exclude)
        || (not c.override_default_excludes && mem p default_exclude_ports))
unfolding set_defaults
set_defaults-exclude c p = ground (
  arith,
  mem-deny_list p c.override_default_excludes c.relay.exclude,
  mem-deny_list p c.override_default_excludes c.https_exclude,
)

-- After a successful load a port is excluded exactly when the file excludes it from relays or from
-- upgrades, or it is on the built-in list and the file does not override that list.
pub finish-is_excluded :
    (raw c : Config) (p : ℤ)
    → finish raw ≡ ok c
    → is_excluded (some c) p ≡ (
        (mem p raw.relay.exclude || mem p raw.https_exclude)
        || (not raw.override_default_excludes && mem p default_exclude_ports))
finish-is_excluded raw c p h =
    rw (← (finish-eq-ok raw c h).1)
      (seal-is_excluded (set_defaults raw) p ∙ set_defaults-exclude raw p)

-- Where ports may go: a non-empty list admits its own members only, an empty one admits all, but none
-- in the mode "whitelist".
abbrev pub Admits : List ℤ → Str → ℤ → Type 0
Admits allow mode p = (mem p allow ≡ true) ⊎ ((allow ≡ []) × (mode ≢ codes "whitelist"))

or_auto-whitelist : (m : Str) → str_beq (or_text (codes "auto") m) whitelist ≡ str_beq m whitelist
unfolding or_text str_beq
or_auto-whitelist [] = refl
or_auto-whitelist (c ∷ m) = refl

allowed_iff :
    (allow : List ℤ) (mode : Str) (p : ℤ)
    → ((if str_beq (or_text (codes "auto") mode) whitelist
          then (if is_nil allow then false else mem p (build_set allow))
          else if is_nil allow
          then true
          else mem p (build_set allow))
        ≡ true)
      ↔ Admits allow mode p
unfolding mem
allowed_iff [] mode p = rw (or_auto-whitelist mode) (ground (arith, str_beq_iff mode whitelist))
allowed_iff (a ∷ as') mode p =
    rw (or_auto-whitelist mode, mem-build_set p (a ∷ as'))
      (ground (arith, str_beq_iff mode whitelist))

seal-is_relay_allowed :
    (c : Config) (p : ℤ)
    → (is_relay_allowed (some (seal (set_defaults c))) p ≡ true)
      ↔ Admits c.relay.allow c.relay.mode p
unfolding is_relay_allowed seal set_defaults
seal-is_relay_allowed c p = allowed_iff c.relay.allow c.relay.mode p

seal-is_https_allowed :
    (c : Config) (p : ℤ)
    → (is_https_allowed (some (seal (set_defaults c))) p ≡ true)
      ↔ Admits c.https_allow c.https_mode p
unfolding is_https_allowed seal set_defaults
seal-is_https_allowed c p = allowed_iff c.https_allow c.https_mode p

-- After a successful load a port may be relayed exactly when it is on `relay.allow`, or that list is
-- empty and `relay.mode` is not "whitelist"; and so for upgrades with `https_allow` and `https_mode`.
pub finish-is_allowed :
    (raw c : Config) (p : ℤ)
    → finish raw ≡ ok c
    → ((is_relay_allowed (some c) p ≡ true) ↔ Admits raw.relay.allow raw.relay.mode p)
      × ((is_https_allowed (some c) p ≡ true) ↔ Admits raw.https_allow raw.https_mode p)
finish-is_allowed raw c p h =
    rw (← (finish-eq-ok raw c h).1) (seal-is_relay_allowed raw p, seal-is_https_allowed raw p)
