-- ===== src/Config/Policy.antt =====
-- config.go: which ports may be relayed or upgraded. A nil receiver is `none`.
use nas_conn_plus.Base.{
  ℤ, Str, codes, str_beq, List, [], ◌∷◌, Option, none, some, Bool, true, false, ◌||◌, mem, int_eq,
  if◌then◌else◌,
}
use nas_conn_plus.Config.{Config, RelayCfg}

-- `IsZeroCopy`.
unfoldable pub is_zero_copy : RelayCfg → Bool
is_zero_copy r = elim r.zero_copy [ none ↦ true | some b ↦ b ]

-- The loop `for _, v := range list { if v == port { return true } }`.
scan_list : ℤ → List ℤ → Bool
unfolding mem
scan_list port list = mem port list

-- A lookup in a built set, with the slice as fallback.
member : Option (List ℤ) → List ℤ → ℤ → Bool
unfolding scan_list mem
member (some set) list port = mem port set
member none list port = scan_list port list

unfoldable pub is_relay_excluded : Option Config → ℤ → Bool
unfolding member
is_relay_excluded none port = false
is_relay_excluded (some c) port = member c.relay_exclude_set c.relay.exclude port

unfoldable pub is_https_excluded : Option Config → ℤ → Bool
unfolding member
is_https_excluded none port = false
is_https_excluded (some c) port = member c.https_exclude_set c.https_exclude port

unfoldable pub is_excluded : Option Config → ℤ → Bool
unfolding is_relay_excluded is_https_excluded
is_excluded c port = is_relay_excluded c port || is_https_excluded c port

unfoldable pub in_relay_allow : Config → ℤ → Bool
unfolding member
in_relay_allow c port = member c.relay_allow_set c.relay.allow port

unfoldable pub in_https_allow : Config → ℤ → Bool
unfolding member
in_https_allow c port = member c.https_allow_set c.https_allow port

abbrev pub whitelist : Str
whitelist = codes "whitelist"

abbrev pub is_nil : List ℤ → Bool
is_nil [] = true
is_nil (_ ∷ _) = false

unfoldable pub is_relay_allowed : Option Config → ℤ → Bool
unfolding in_relay_allow
is_relay_allowed none port = true
is_relay_allowed (some c) port =
    if str_beq c.relay.mode whitelist
    then (if is_nil c.relay.allow then false else in_relay_allow c port)
    else if is_nil c.relay.allow
    then true
    else in_relay_allow c port

unfoldable pub is_https_allowed : Option Config → ℤ → Bool
unfolding in_https_allow
is_https_allowed none port = true
is_https_allowed (some c) port =
    if str_beq c.https_mode whitelist
    then (if is_nil c.https_allow then false else in_https_allow c port)
    else if is_nil c.https_allow
    then true
    else in_https_allow c port
