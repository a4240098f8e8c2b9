-- ===== src/Proxy/Life/Leaves.antt =====
-- `Reconcile` gives up what the scans no longer call for, over a sequence of polls.
pub mod Tests
use nas_conn_plus.Base.{
  ℕ, suc, ◌+◌, ℤ, pos, ◌+ℤ◌, ◌≤ℤ◌, ◌<ℤ◌, ◌≡◌, ◌⊎◌, ◌≤◌, refl, sym, ap, subst, ◌∙◌, inl, inr, List,
  [], ◌∷◌, length, All, Option, none, some, Bool, true, false, get, mem, In, arith, int_eq,
  Option-cases,
}
use nas_conn_plus.Config.{Config, HttpsPort}
use nas_conn_plus.Scanner.{ScanResult}
use nas_conn_plus.Proxy.{Kind, https, relay, Key, key, key_eq, ListenerState, Want, Service}
use nas_conn_plus.Proxy.Listen.{Host}
use nas_conn_plus.Proxy.Wants.{pre_pass}
use nas_conn_plus.Proxy.Wants.Justified.{IsUp, Justified}
use nas_conn_plus.Proxy.Wants.Sound.{build_wants-Justified}
use nas_conn_plus.Proxy.Reconcile.{reconcile, reconcile_locked, maintain_all}
use nas_conn_plus.Proxy.Reconcile.Invariant.{
  Inv, wants_of, probed, pre_pass-SameMaps, reconcile-Inv,
}
use nas_conn_plus.Proxy.Reconcile.Settings.{reconcile-cfg}
use nas_conn_plus.Proxy.Life.{
  Slot, absent, conflicted, live, slot, yields, Edge, rest, start, contend, hold, miss, expire,
  drop, yield,
}
use nas_conn_plus.Proxy.Reconcile.Cases.{Busy}
use nas_conn_plus.Proxy.Life.Refines.{reconcile-Edge}

-- Nothing that the scan shows can call for a listener at the key.
abbrev pub IsDown : Config → ScanResult → Key → Type 0
IsDown cfg res (relay, port) = mem port res.v4_wild ≡ false
IsDown cfg res (https, port) =
    ((r : HttpsPort) → In r cfg.https → r.https ≡ port → ¬ IsUp res r.http)
    × ((p : ℤ) → p +ℤ cfg.https_offset ≡ port → ¬ IsUp res p)

-- A poll for each scan, in order.
abbrev pub polls : Host → List ScanResult → Service → Service
polls o [] s = s
polls o (res ∷ scans) s = polls o scans (reconcile o res s)

down_unjustified :
    (s : Service) (res : ScanResult) (k : Key) (w : Want)
    → IsDown s.cfg res k
    → ¬ Justified s res k w
down_unjustified s res (relay, port) w down (inl e) = cc (e.key_is)
down_unjustified s res (relay, port) w down (inr (inl u)) = cc (u.key_is)
down_unjustified s res (relay, port) w down (inr (inr m)) = cc (m.key_is, m.v4)
down_unjustified s res (https, port) w (rules, upgrades) (inl e) =
    rules e.rule e.listed (cc (e.key_is, e.port)) (subst (IsUp res) e.backend e.up)
down_unjustified s res (https, port) w (rules, upgrades) (inr (inl u)) =
    upgrades w.backend (cc (u.key_is, u.target)) u.up
down_unjustified s res (https, port) w down (inr (inr m)) = cc (m.key_is)

-- What is left of a key after `m` polls that did not want it.
abbrev Left : ℤ → ℕ → Slot → Type 0
Left grace m a =
    (a ≡ absent)
    ⊎ (((a ≡ conflicted) × (m ≡ 0))
        ⊎ ((st : ListenerState) × (n : ℕ) × (a ≡ live st n)
            × (m ≤ n)
            × ((m ≡ 0) ⊎ (pos n <ℤ grace))))

Edge-Left :
    (busy : Want → Type 0) (gives_way : Bool) (grace : ℤ) (m : ℕ) (a b : Slot)
    → Left grace m a
    → Edge busy none gives_way grace a b
    → Left grace (suc m) b
Edge-Left busy gives_way grace m a b l (rest f p q) = inl q
Edge-Left busy gives_way grace m a b l (start x st f p made q) = cc
Edge-Left busy gives_way grace m a b l (contend x f refused p q) = cc
Edge-Left busy gives_way grace m a b l (hold x st n f p q) = cc
Edge-Left busy gives_way grace m a b l (miss st n f p g q) =
    inr (inr (st, suc n, q, ground arith, inr g))
Edge-Left busy gives_way grace m a b l (expire st n f p g q) = inl q
Edge-Left busy gives_way grace m a b l (drop f p q) = inl q
Edge-Left busy gives_way grace m a b l (yield f p q) = inl q

-- A key that is not wanted is left after enough polls with nothing.
Left-absent :
    (grace : ℤ) (m : ℕ) (a : Slot) → Left grace m a → pos 1 ≤ℤ pos m → grace ≤ℤ pos m → a ≡ absent
Left-absent grace m a l many enough = ground arith

down_unwanted :
    (o : Host) (res : ScanResult) (s : Service) (k : Key)
    → IsDown s.cfg res k
    → get k (wants_of o res (pre_pass o.machine res s)) ≡ none
down_unwanted o res s k down =
    let t = pre_pass o.machine res s in
    elim (Option-cases (get k (wants_of o res t))) [
      | inl e ↦ e
      | inr (w, e) ↦ absurd (
          down_unjustified t res k w
            (subst (λ c. IsDown c res k) (sym (pre_pass-SameMaps o.machine res s).cfg) down)
            (build_wants-Justified o.machine t res k w e))
    ]

reconcile-Left :
    (o : Host) (res : ScanResult) (s : Service) (k : Key) (m : ℕ)
    → Inv s
    → IsDown s.cfg res k
    → Left s.cfg.grace_polls m (slot k s)
    → Left s.cfg.grace_polls (suc m) (slot k (reconcile o res s))
reconcile-Left o res s k m v down l = Edge-Left _ _ _ m _ _ l (
    subst
      (λ x.
        Edge (Busy o s.runtime.calls (reconcile o res s).runtime.calls) x (yields res k)
          s.cfg.grace_polls (slot k s) (slot k (reconcile o res s)))
      (down_unwanted o res s k down) (reconcile-Edge o res s k v))

absent_after :
    (o : Host) (scans : List ScanResult) (s : Service) (k : Key) (m : ℕ)
    → Inv s
    → All (λ res. IsDown s.cfg res k) scans
    → Left s.cfg.grace_polls m (slot k s)
    → pos 1 ≤ℤ pos (length scans + m)
    → s.cfg.grace_polls ≤ℤ pos (length scans + m)
    → slot k (polls o scans s) ≡ absent
absent_after o [] s k m v down l many enough =
    Left-absent s.cfg.grace_polls m (slot k s) l (omega arith) (omega arith)
absent_after o (res ∷ scans) s k m v (first, others) l many enough =
    let t = reconcile o res s in
    let same = reconcile-cfg o res s in
    absent_after o scans t k (suc m) (reconcile-Inv o res s v)
      (subst (λ (c : Config). All (λ res'. IsDown c res' k) scans) (sym same) others)
      (subst (λ (c : Config). Left c.grace_polls (suc m) (slot k t)) (sym same)
        (reconcile-Left o res s k m v first l))
      (omega arith)
      (subst (λ (c : Config). c.grace_polls ≤ℤ pos (length scans + suc m)) (sym same) (omega arith))

slot-Left : (grace : ℤ) (a : Slot) → Left grace 0 a
slot-Left grace absent = inl refl
slot-Left grace conflicted = inr (inl (refl, refl))
slot-Left grace (live st n) = inr (inr (st, n, refl, omega arith, inl refl))

-- After `grace_polls` polls in a row, at least one, whose scans show nothing that could call for the key (for
-- a relay, its port is not open on IPv4; for an HTTPS listener, no rule for it has a running backend, and
-- nobody listens on the port below it by the offset), the key has no listener, whatever state it was in.
pub polls-absent :
    (o : Host) (scans : List ScanResult) (s : Service) (k : Key)
    → Inv s
    → All (λ res. IsDown s.cfg res k) scans
    → 1 ≤ length scans
    → s.cfg.grace_polls ≤ℤ pos (length scans)
    → slot k (polls o scans s) ≡ absent
polls-absent o scans s k v down many enough =
    absent_after o scans s k 0 v down (slot-Left s.cfg.grace_polls (slot k s)) (omega arith)
      (omega arith)
