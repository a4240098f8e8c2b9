-- ===== src/Cert/LocalCa/Steps.antt =====
-- localca.go: what a step of the local CA works on. An action may write files before it fails.
use nas_conn_plus.Base.{
  ℕ, suc, Str, Option, none, some, Bool, ◌≡◌, refl, ◌⊎◌, inl, inr, Result, ok, err,
}
use nas_conn_plus.Files.{Disk}
use nas_conn_plus.Cert.{X509, CertError}
use nas_conn_plus.Cert.Files.{Reader}
use nas_conn_plus.Cert.LocalCa.Templates.{Template}

-- The files, and how often randomness and the clock have been asked.
pub record World : Type 0 where
  pub disk : Disk
  pub calls : ℕ

-- The libraries of Go that the code calls. A call of randomness is named by its number.
pub record Crypto : Type 0 where
  pub reader : Reader
  pub open reader use *
  pub parse_ip : Str → Option Str
  pub pem_decode : Str → Option (Str × Str)
  pub pem_encode : Str → Str → Option Str
  pub parse_certificate : Str → Option X509
  pub parse_key : Str → Option Str
  pub marshal_key : Str → Option Str
  pub generate_key : ℕ → Option Str
  pub serial : ℕ → Option ℕ
  pub now : ℕ → ℕ
  pub create_certificate : ℕ → Template → Option X509 → Str → Str → Option Str
  pub signed_by : X509 → X509 → Bool
  pub close_fault : Str → Option Str

abbrev pub Action : Type 0 → Type 0
Action A = World → Result CertError A × World

infixl 5 ◌>>=◌ ◌>>◌
abbrev pub ◌>>=◌ : {A B : Type 0} → Action A → (A → Action B) → Action B
◌>>=◌ m f w = let (r, w') = m w in elim r [ ok a ↦ f a w' | err e ↦ (err e, w') ]

abbrev pub ◌>>◌ : {B : Type 0} → Action (Unit {0}) → Action B → Action B
m >> k = m >>= λ _. k

abbrev pub pure : {A : Type 0} → A → Action A
pure a w = (ok a, w)

-- An answer of the outside, or the error for its absence.
abbrev pub need : {A : Type 0} → CertError → Option A → Action A
need e none w = (err e, w)
need e (some a) w = (ok a, w)

abbrev pub tick : Action ℕ
tick w = (ok w.calls, record w { calls = suc w.calls })

pub Run-cases :
    {A : Type 0} (p : Result CertError A × World)
    → ((a : A) × (w : World) × (p ≡ (ok a, w))) ⊎ ((e : CertError) × (w : World) × (p ≡ (err e, w)))
Run-cases (ok a, w) = inl (a, w, refl)
Run-cases (err e, w) = inr (e, w, refl)
