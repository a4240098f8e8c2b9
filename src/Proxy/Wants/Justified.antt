-- ===== src/Proxy/Wants/Justified.antt =====
-- Which listeners `Reconcile` may want: the reasons, written without its loops.
use nas_conn_plus.Base.{ℤ, pos, ◌+ℤ◌, ◌≤ℤ◌, int_eq, ◌≡◌, ◌≢◌, ◌⊎◌, some, true, false, mem, In}
use nas_conn_plus.Config.{HttpsPort}
use nas_conn_plus.Config.Policy.{is_excluded, is_relay_allowed, is_https_allowed}
use nas_conn_plus.Scanner.{ScanResult}
use nas_conn_plus.Proxy.{
  https, relay, Key, key, Want, Service, is_our_listener_port, is_our_listener,
}

-- Somebody listens on the port on a wildcard address.
abbrev pub IsUp : ScanResult → ℤ → Type 0
IsUp res p = (mem p res.v4_wild ≡ true) ⊎ (mem p res.v6_any ≡ true)

abbrev pub Excluded : Service → ℤ → Type 0
Excluded s p = is_excluded (some s.cfg) p ≡ true

abbrev pub Allowed : Service → ℤ → Type 0
Allowed s p = is_https_allowed (some s.cfg) p ≡ true

-- A rule of the settings whose backend is up.
pub record IsExplicit (s : Service) (res : ScanResult) (k : Key) (w : Want) : Type 0 where
  pub rule : HttpsPort
  pub listed : In rule s.cfg.https
  pub up : IsUp res w.backend
  pub key_is : k ≡ key https w.port
  pub kind : w.kind ≡ https
  pub port : w.port ≡ rule.https
  pub backend : w.backend ≡ rule.http

-- An HTTP service found by itself, upgraded on the port at the offset.
pub record IsUpgrade (s : Service) (res : ScanResult) (k : Key) (w : Want) : Type 0 where
  pub key_is : k ≡ key https w.port
  pub kind : w.kind ≡ https
  pub target : w.port ≡ w.backend +ℤ s.cfg.https_offset
  pub in_range : w.port ≤ℤ pos 65535
  pub up : IsUp res w.backend
  pub backend_open : ¬ Excluded s w.backend
  pub target_open : ¬ Excluded s w.port
  pub allowed : Allowed s w.backend
  pub no_rule : (r : HttpsPort) → In r s.cfg.https → r.http ≢ w.backend
  pub not_ours : is_our_listener_port s w.backend ≡ true → is_our_listener s relay w.backend ≡ true
  pub target_free : is_our_listener_port s w.port ≡ true → is_our_listener s https w.port ≡ true

-- A port that is open on IPv4 only, so far as other processes go.
pub record IsMirror (s : Service) (res : ScanResult) (k : Key) (w : Want) : Type 0 where
  pub key_is : k ≡ key relay w.port
  pub kind : w.kind ≡ relay
  pub backend : w.backend ≡ w.port
  pub v4 : mem w.port res.v4_wild ≡ true
  pub no_v6 : mem w.port res.v6_others ≡ false
  pub open_port : ¬ Excluded s w.port
  pub allowed : is_relay_allowed (some s.cfg) w.port ≡ true
  pub not_ours : is_our_listener_port s w.port ≡ true → is_our_listener s relay w.port ≡ true

abbrev pub Justified : Service → ScanResult → Key → Want → Type 0
Justified s res k w = IsExplicit s res k w ⊎ (IsUpgrade s res k w ⊎ IsMirror s res k w)
