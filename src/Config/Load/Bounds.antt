-- ===== src/Config/Load/Bounds.antt =====
-- The numbers and texts that `set_defaults` leaves.
use nas_conn_plus.Base.{
  ℤ, pos, ◌≤ℤ◌, Str, ◌≡◌, ◌≢◌, refl, [], ◌∷◌, Option, none, some, Bool, true, arith,
}
use nas_conn_plus.Config.{Config}
use nas_conn_plus.Config.Load.{or_default, at_most, clamp, or_text, or_true, hsts_age, set_defaults}
use nas_conn_plus.Config.Load.Spec.{IsBounded}

clamp_bounds : (lo hi x : ℤ) → lo ≤ℤ hi → (lo ≤ℤ clamp lo hi x) × (clamp lo hi x ≤ℤ hi)
unfolding clamp
clamp_bounds lo hi x h = ground arith

at_most-or_default :
    (lo hi d x : ℤ)
    → lo ≤ℤ pos 1
    → lo ≤ℤ d
    → lo ≤ℤ hi
    → (lo ≤ℤ at_most hi (or_default d x)) × (at_most hi (or_default d x) ≤ℤ hi)
unfolding at_most or_default
at_most-or_default lo hi d x h k l = ground arith

hsts_age_pos : (b : Bool) (age : ℤ) → b ≡ true → pos 1 ≤ℤ hsts_age b age
unfolding hsts_age
hsts_age_pos b age h = ground arith

or_text-ne-nil : (d s : Str) → d ≢ [] → or_text d s ≢ []
unfolding or_text
or_text-ne-nil d [] h = h
or_text-ne-nil d (c ∷ s) h = λ e. cc

or_true-some : (o : Option Bool) → (b : Bool) × (or_true o ≡ some b)
unfolding or_true
or_true-some none = (true, refl)
or_true-some (some b) = (b, refl)

-- Whatever the file says, every number is in its range, no default text is empty and every switch is
-- set.
pub set_defaults-IsBounded : (c : Config) → IsBounded (set_defaults c)
unfolding set_defaults
set_defaults-IsBounded c = record {
  poll = clamp_bounds (pos 1) (pos 3600) (or_default (pos 5) c.poll_seconds) (omega arith);
  grace =
      at_most-or_default (pos 1) (pos 120) (pos 2) c.grace_polls (omega arith) (omega arith)
        (omega arith);
  idle = clamp_bounds (pos 60) (pos 86400) (or_default (pos 900) c.idle_seconds) (omega arith);
  offset = clamp_bounds (pos 1) (pos 100) (or_default (pos 1) c.https_offset) (omega arith);
  conns =
      at_most-or_default (pos 1) (pos 4096) (pos 2048) c.max_conns_per_listener (omega arith)
        (omega arith) (omega arith);
  hsts = hsts_age_pos c.hsts.enabled c.hsts.max_age;
  cert_host = or_text-ne-nil _ c.cert_host (λ e. cc);
  self_dir = or_text-ne-nil _ c.self_dir (λ e. cc);
  cache_dir = or_text-ne-nil _ c.acme.cache_dir (λ e. cc);
  fallback = or_true-some c.fallback_self;
  auto_trust = or_true-some c.auto_trust_local_ca;
  https_auto = or_true-some c.https_auto;
  zero_copy = or_true-some c.relay.zero_copy;
}
