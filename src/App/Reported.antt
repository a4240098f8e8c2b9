-- ===== src/App/Reported.antt =====
-- The status query tells of the open sockets.
use nas_conn_plus.Base.{
  ℕ, Str, ◌≡◌, refl, ap, subst, ◌∙◌, ◌⊎◌, inl, inr, List, [], ◌∷◌, In, some, Bool, true, false, not,
  Map, get, keys, mem-keys, distinct, Bool-cases, Option-cases, arith, if◌then◌else◌,
}
use nas_conn_plus.Config.{Config}
use nas_conn_plus.Scanner.{Runtime}
use nas_conn_plus.Proxy.{Key, key, key_eq, key_beq, key_beq_iff, ListenerState, Service}
use nas_conn_plus.Proxy.Listen.{ListenerMetrics, metrics_of, snapshot, get_metrics_snapshot}
use nas_conn_plus.Proxy.Sockets.{is_open}
use nas_conn_plus.Cert.LocalCa.{World}
use nas_conn_plus.App.{Env, Tick, Wake, run, status_report}
use nas_conn_plus.App.Running.{Safe, run-Safe}

-- The entry that a reported listener comes from.
abbrev Source : Map Key ListenerState → ListenerMetrics → Type 0
Source m x =
    (k : Key) × (st : ListenerState) × (get k m ≡ some st)
    × (st.conflict ≡ false)
    × (x ≡ metrics_of st)

reported_first :
    (conflict : Bool) (x y : ListenerMetrics) (rest : List ListenerMetrics)
    → In x (if not conflict then y ∷ rest else rest)
    → ((conflict ≡ false) × (x ≡ y)) ⊎ In x rest
reported_first true x y rest i = inr i
reported_first false x y rest (inl e) = inl (refl, e)
reported_first false x y rest (inr i) = inr i

reported_here :
    (conflict : Bool) (y : ListenerMetrics) (rest : List ListenerMetrics)
    → conflict ≡ false
    → In y (if not conflict then y ∷ rest else rest)
reported_here true y rest c = ground (arith, c)
reported_here false y rest c = inl refl

reported_later :
    (conflict : Bool) (x y : ListenerMetrics) (rest : List ListenerMetrics)
    → In x rest
    → In x (if not conflict then y ∷ rest else rest)
reported_later true x y rest i = i
reported_later false x y rest i = inr i

snapshot-get :
    (m : Map Key ListenerState) (x : ListenerMetrics)
    → distinct (keys m) ≡ true
    → In x (snapshot m)
    → Source m x
unfolding snapshot get distinct
snapshot-get [] x d i = elim i [ ]
snapshot-get ((j, st) ∷ m) x d i =
    elim (reported_first st.conflict x (metrics_of st) (snapshot m) i) [
      | inl (live, is) ↦ (j, st, ground (arith, key_beq_iff j j), live, is)
      | inr later ↦
          let (k, st', at, live, is) = snapshot-get m x (ground (arith, d)) later in
          let apart : key_beq j k ≡ false =
            ground (arith, d, key_beq_iff j k, mem-keys j m, mem-keys k m, at) in
          (k, st', ground (arith, apart, at), live, is)
    ]

get-snapshot :
    (k : Key) (st : ListenerState) (m : Map Key ListenerState)
    → get k m ≡ some st
    → st.conflict ≡ false
    → In (metrics_of st) (snapshot m)
unfolding snapshot get
get-snapshot k st [] e c = ground (arith, e)
get-snapshot k st ((j, st') ∷ m) e c = elim (Bool-cases (key_beq j k)) [
  | inl here ↦
      let same : st' ≡ st = ground (arith, here, e) in
      subst (λ (y : ListenerState). In (metrics_of y) (snapshot ((j, st') ∷ m))) same
        (reported_here st'.conflict (metrics_of st') (snapshot m)
          (ap (λ (y : ListenerState). y.conflict) same ∙ c))
  | inr there ↦
      reported_later st'.conflict (metrics_of st) (metrics_of st') (snapshot m)
        (get-snapshot k st m (ground (arith, there, e)) c)
]

-- The socket is open, and the counters are those of the entry of the service that holds it.
pub record Shows (s : Service) (n : ℕ) (x : ListenerMetrics) : Type 0 where
  pub is_up : is_open n s.events ≡ true
  pub k : Key
  pub st : ListenerState
  pub entry : get k s.listeners ≡ some st
  pub key_is : k ≡ key st.kind st.port
  pub ln : st.ln ≡ some n
  pub counters : x ≡ metrics_of st

reported-Shows :
    (s : Service) (version : Str) (uptime now : ℕ)
    → Safe s
    → ((x : ListenerMetrics)
        → In x (status_report version uptime now s).listeners
        → (n : ℕ) × Shows s n x)
      × ((n : ℕ)
          → is_open n s.events ≡ true
          → (x : ListenerMetrics) × In x (status_report version uptime now s).listeners
            × Shows s n x)
unfolding status_report get_metrics_snapshot
reported-Shows s version uptime now v = (
  λ x i.
      let (k, st, at, live, is) = snapshot-get s.listeners x v.in_order.one_each i in
      (elim ((v.in_order.entries k).socket st at) [
        | inl (conflict, free) ↦ absurd (ground (arith, live, conflict))
        | inr (c, (n, held)) ↦ (
          n,
          record {
            is_up = v.no_leak.is_live k n (ground (arith, at, held));
            k = k;
            st = st;
            entry = at;
            key_is = (v.in_order.entries k).key_is st at;
            ln = held;
            counters = is;
          },
        )
      ]),
  λ n up.
      let (k, at) = v.no_leak.held n up in
      (elim (Option-cases (get k s.listeners)) [
        | inl gone ↦ absurd (ground (arith, gone, at))
        | inr (st, e) ↦
            let held : st.ln ≡ some n = ground (arith, e, at) in
            let live : st.conflict ≡ false = ground (arith, v.no_leak.quiet k st e, held) in
            (
              metrics_of st,
              get-snapshot k st s.listeners e live,
              record {
                is_up = up;
                k = k;
                st = st;
                entry = e;
                key_is = (v.in_order.entries k).key_is st e;
                ln = held;
                counters = refl;
              },
            )
      ]),
)

-- In every run of the daemon, the answer to a status query has a listener for every open socket, with the
-- counters of the entry that holds the socket, and each listener in the answer has an open socket.
pub run-Shows :
    (env : Env) (cfg : Config) (rt : Runtime) (w : World) (first : Tick) (wakes : List Wake)
    (version : Str) (uptime now : ℕ)
    → let s = (run env cfg rt w first wakes).1.service in
      ((x : ListenerMetrics)
        → In x (status_report version uptime now s).listeners
        → (n : ℕ) × Shows s n x)
      × ((n : ℕ)
          → is_open n s.events ≡ true
          → (x : ListenerMetrics) × In x (status_report version uptime now s).listeners
            × Shows s n x)
run-Shows env cfg rt w first wakes version uptime now =
    reported-Shows (run env cfg rt w first wakes).1.service version uptime now
      (run-Safe env cfg rt w first wakes).0
