-- ===== src/App/Notes.antt =====
-- app.go: what the daemon logs when it starts, and what may be concluded from it.
use nas_conn_plus.Base.{
  ℕ, length, ℤ, Str, ◌≡◌, ◌⊎◌, refl, inl, inr, List, [], ◌∷◌, ◌++◌, In, Option, none, some, Bool,
  true, false, ◌&&◌, if◌then◌else◌,
}
use nas_conn_plus.Config.{Config, default_exclude_ports}
use nas_conn_plus.Scanner.{Runtime}
use nas_conn_plus.Cert.{KeyPair, CertError, Manager, get_certificate, serves}
use nas_conn_plus.Cert.LocalCa.{World}
use nas_conn_plus.Cert.Asked.{
  acme_ready, acme_init_error, auto_trust_enabled, local_ca_trusted, local_ca_trust_error,
}
use nas_conn_plus.App.{Env, Tick, Wake, start_up, run}
use nas_conn_plus.App.Running.{run-serves}

pub data Note : Type 0 where
  deny_list_off : ℕ → Note
  starting : Str → Note
  settings : (poll grace : ℤ) → ℕ → Bool → Note
  cert_failed acme_unavailable trust_failed : CertError → Note
  acme_on : Str → Note
  cert_loaded : Str → Note
  auto_trust_on : Note

abbrev note_of : (CertError → Note) → Option CertError → List Note
note_of f none = []
note_of f (some e) = f e ∷ []

abbrev ready_note : Config → Manager → Note
ready_note cfg m = if acme_ready m then acme_on cfg.acme.domain else cert_loaded cfg.cert_host

trust_notes : Manager → Option CertError → List Note
trust_notes m (some e) = trust_failed e ∷ []
trust_notes m none = if auto_trust_enabled m && local_ca_trusted m then auto_trust_on ∷ [] else []

-- After the first `Refresh`.
cert_notes : Config → Manager → Option CertError → List Note
unfolding trust_notes
cert_notes cfg m (some e) = cert_failed e ∷ []
cert_notes cfg m none =
    note_of acme_unavailable (acme_init_error m)
    ++ (ready_note cfg m ∷ trust_notes m (local_ca_trust_error m))

settings_notes : Str → Config → List Note
settings_notes path cfg =
    (if cfg.override_default_excludes
      then deny_list_off (length default_exclude_ports) ∷ []
      else [])
    ++ (starting path
        ∷ settings cfg.poll_seconds cfg.grace_polls (length cfg.https) cfg.relay.auto
        ∷ [])

-- The notes of `Run` before the service is made, oldest first.
unfoldable pub start_notes : Str → Config → Option CertError → Manager → List Note
unfolding settings_notes cert_notes
start_notes path cfg e m = settings_notes path cfg ++ cert_notes cfg m e

In-append {ℓ} : {A : Type ℓ} (x : A) (xs ys : List A) → In x (xs ++ ys) → In x xs ⊎ In x ys
In-append x [] ys i = inr i
In-append x (y ∷ xs) ys (inl e) = inl (inl e)
In-append x (y ∷ xs) ys (inr i) = elim (In-append x xs ys i) [ inl a ↦ inl (inr a) | inr b ↦ inr b ]

not_off :
    (b : Bool) (n : ℕ) (host : Str)
    → ¬ In (cert_loaded host) (if b then deny_list_off n ∷ [] else [])
not_off true n host (inl e) = cc
not_off true n host (inr i) = elim i [ ]
not_off false n host i = elim i [ ]

not_setting : (path host : Str) (cfg : Config) → ¬ In (cert_loaded host) (settings_notes path cfg)
unfolding settings_notes
not_setting path host cfg i = elim (In-append (cert_loaded host) _ _ i) [
  | inl off ↦ not_off cfg.override_default_excludes (length default_exclude_ports) host off
  | inr (inl e) ↦ cc
  | inr (inr (inl e)) ↦ cc
  | inr (inr (inr none_left)) ↦ elim none_left [ ]
]

-- The certificate is announced only after a refresh without an error.
announced :
    (path host : Str) (cfg : Config) (e : Option CertError) (m : Manager)
    → In (cert_loaded host) (start_notes path cfg e m)
    → e ≡ none
unfolding start_notes cert_notes
announced path host cfg none m i = refl
announced path host cfg (some e) m i =
    elim (In-append (cert_loaded host) (settings_notes path cfg) (cert_failed e ∷ []) i) [
      | inl early ↦ absurd (not_setting path host cfg early)
      | inr (inl other) ↦ cc
      | inr (inr none_left) ↦ elim none_left [ ]
    ]

-- When the daemon logs that the certificate is loaded, every handshake during its run gets a certificate.
announced-serves :
    (env : Env) (cfg : Config) (rt : Runtime) (w : World) (first : Tick) (wakes : List Wake)
    (path host : Str) (acme : Option Str → Option KeyPair) (hello : Option Str)
    → let (e, d) = start_up env cfg rt w in
      In (cert_loaded host) (start_notes path cfg e d.manager)
      → (kc : KeyPair) × (get_certificate acme (run env cfg rt w first wakes).1.manager hello
          ≡ serves kc)
announced-serves env cfg rt w first wakes path host acme hello i =
    let (e, d) = start_up env cfg rt w in
    run-serves env cfg rt w first wakes acme hello (announced path host cfg e d.manager i)
