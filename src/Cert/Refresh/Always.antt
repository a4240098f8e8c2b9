-- ===== src/Cert/Refresh/Always.antt =====
-- Once a certificate is there, every handshake gets one.
use nas_conn_plus.Base.{
  Str, str_eq, ◌≡◌, ◌≢◌, inl, inr, List, [], ◌∷◌, Option, none, if◌then◌else◌, Option-cases, arith,
}
use nas_conn_plus.Cert.{
  Manager, KeyPair, first_of, acme_ready, sni_match, answer_with, get_certificate, serves,
}
use nas_conn_plus.Cert.LocalCa.{World, Crypto}
use nas_conn_plus.Cert.Trust.{System}
use nas_conn_plus.Cert.Refresh.{refresh, refresh_all}
use nas_conn_plus.Cert.Refresh.Serves.{Loaded, refresh-Loaded}

refresh_all-cur :
    (c : Crypto) (s : System) (later : List World) (m : Manager)
    → Loaded m
    → m.cur ≢ none
    → (refresh_all c s later m).cur ≢ none
unfolding refresh_all
refresh_all-cur c s [] m v up = up
refresh_all-cur c s (w ∷ ws) m v up =
    let (loaded, stays, serves') = refresh-Loaded c s m w v in
    refresh_all-cur c s ws (refresh c s m w).1 loaded (stays up)

pub answers :
    (acme : Option Str → Option KeyPair) (m : Manager) (hello : Option Str)
    → m.cur ≢ none
    → (kc : KeyPair) × (get_certificate acme m hello ≡ serves kc)
unfolding get_certificate answer_with
answers acme m hello up =
    elim (Option-cases (
      first_of (if acme_ready m then acme hello else none)
        (first_of (sni_match hello m.cert_map) m.cur))) [
          | inl gone ↦ absurd (up (ground (arith, gone)))
          | inr (kc, at) ↦ (kc, ground (arith, at))
        ]

-- Once a refresh has reported no error, every handshake is served, whatever name it asks for, if it gives
-- a name at all, whatever ACME answers, and also after any number of refreshes that fail.
pub get_certificate-serves :
    (c : Crypto) (s : System) (m : Manager) (w : World) (later : List World)
    (acme : Option Str → Option KeyPair) (hello : Option Str)
    → Loaded m
    → (refresh c s m w).0 ≡ none
    → (kc : KeyPair) × (get_certificate acme (refresh_all c s later (refresh c s m w).1) hello
        ≡ serves kc)
get_certificate-serves c s m w later acme hello v e =
    let (loaded, stays, up) = refresh-Loaded c s m w v in
    answers acme (refresh_all c s later (refresh c s m w).1) hello
      (refresh_all-cur c s later (refresh c s m w).1 loaded (up e))
