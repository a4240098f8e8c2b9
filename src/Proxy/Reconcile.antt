-- ===== src/Proxy/Reconcile.antt =====
-- service.go `Reconcile`: new listeners are started, the others maintained or collected.
pub mod Rounds
pub mod Cases
pub mod Frame
pub mod Loops
pub mod Entries
pub mod Invariant
pub mod Settings
use nas_conn_plus.Base.{
  ℕ, suc, ◌+◌, ℤ, pos, leb_ℤ, ltb, int_eq, Str, List, [], ◌∷◌, Option, none, some, Bool, true,
  false, ◌&&◌, Map, get, put, delete, keys, mem, Result, ok, err, if◌then◌else◌,
}
use nas_conn_plus.Scanner.{ScanResult, Runtime}
use nas_conn_plus.Scanner.Prober.{Machine}
use nas_conn_plus.Proxy.{
  Kind, https, relay, Key, key_eq, ListenerState, Want, Service, Event, added, resolved, stopped,
  yielded, conflict_warned,
}
use nas_conn_plus.Proxy.Listen.{
  Host, log, later, try_listen, conflict_state, start_serving, serving_event, stop_listener,
}
use nas_conn_plus.Proxy.Wants.{pre_pass, build_wants}

unfoldable pub log_serving : ListenerState → List Event → List Event
log_serving st es = elim st.ln [ none ↦ es | some n ↦ serving_event st.kind n ∷ es ]

-- A bound listener enters the map and is served.
unfoldable pub adopt : (Key → Event) → Key → ListenerState → Service → Service
adopt event k st s = record s {
  listeners = put k (start_serving st) s.listeners;
  missing = put k 0 s.missing;
  warned_conflict = delete k s.warned_conflict;
  events = log_serving st (event k ∷ s.events);
}

-- The warning of a conflict is repeated after a minute at the earliest.
abbrev pub warn_interval : ℕ
warn_interval = 60000000000

unfoldable pub should_warn : ℕ → Option ℕ → Bool
should_warn now none = true
should_warn now (some last) = ltb (last + warn_interval) now

unfoldable pub warn : Host → Key → Service → Service
warn o k s =
    let now = o.now s.runtime.calls in
    let s' = later (suc s.runtime.calls) s in
    if should_warn now (get k s.warned_conflict)
    then log (conflict_warned k) (record s' { warned_conflict = put k now s.warned_conflict })
    else s'

-- A listener that could not be bound is remembered as a conflict.
unfoldable pub remember_conflict : Host → Key → Want → Service → Service
remember_conflict o k w s = warn o k (record s { listeners = put k (conflict_state w) s.listeners })

unfoldable pub start_result : Host → Key → Want → Result Str ListenerState × Service → Service
start_result o k w (ok st, s) = adopt added k st s
start_result o k w (err e, s) = remember_conflict o k w s

unfoldable pub start_new : Host → Key × Want → Service → Service
start_new o (k, w) s = elim (get k s.listeners) [
  | some st ↦ s
  | none ↦ start_result o k w (try_listen o w s)
]

-- `for k, w := range wants`.
unfoldable pub start_all : Host → Map Key Want → Service → Service
start_all o [] s = s
start_all o (kw ∷ wants) s = start_all o wants (start_new o kw s)

unfoldable pub forget : Key → Service → Service
forget k s = record s { listeners = delete k s.listeners; missing = delete k s.missing }

unfoldable pub stop : ListenerState → Service → Service
stop st s = record s { events = stop_listener st s.events }

unfoldable pub missed : Option ℕ → ℕ
missed none = 1
missed (some n) = suc n

-- No longer wanted: a conflict goes at once, a listener after `grace_polls` rounds.
unfoldable pub unwanted : Key → ListenerState → Service → Service
unwanted k st s =
    let n = missed (get k s.missing) in
    let counted = record s { missing = put k n s.missing } in
    if st.conflict
    then forget k s
    else if leb_ℤ s.cfg.grace_polls (pos n)
    then forget k (stop st (log (stopped k) counted))
    else counted

unfoldable pub retry_result : Key → Result Str ListenerState × Service → Service
retry_result k (ok st, s) = adopt resolved k st s
retry_result k (err e, s) = s

unfoldable pub wanted : Host → Key → Want → ListenerState → Service → Service
wanted o k w st s =
    if st.conflict
    then retry_result k (try_listen o w s)
    else record s { missing = put k 0 s.missing }

abbrev pub is_relay : Kind → Bool
is_relay relay = true
is_relay https = false

unfoldable pub maintain : Host → ScanResult → Map Key Want → Key → ListenerState → Service → Service
maintain o res wants k st s =
    if is_relay st.kind && mem st.port res.v6_others
    then forget k (stop st (log (yielded k) s))
    else (elim (get k wants) [ none ↦ unwanted k st s | some w ↦ wanted o k w st s ])

unfoldable pub maintain_key : Host → ScanResult → Map Key Want → Key → Service → Service
maintain_key o res wants k s = elim (get k s.listeners) [
  | none ↦ s
  | some st ↦ maintain o res wants k st s
]

-- `for k, st := range s.listeners`: each round changes the entry of its own key only.
unfoldable pub maintain_all : Host → ScanResult → Map Key Want → List Key → Service → Service
maintain_all o res wants [] s = s
maintain_all o res wants (k ∷ ks) s = maintain_all o res wants ks (maintain_key o res wants k s)

-- The part of `Reconcile` under the lock.
unfoldable pub reconcile_locked : Host → ScanResult → Service → Service
reconcile_locked o res s =
    let (wants, rt) = build_wants o.machine s res in
    let started = start_all o wants (record s { runtime = rt }) in
    maintain_all o res wants (keys started.listeners) started

unfoldable pub reconcile : Host → ScanResult → Service → Service
reconcile o res s = reconcile_locked o res (pre_pass o.machine res s)
