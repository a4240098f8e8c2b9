-- ===== src/Cert.antt =====
-- internal/cert: the certificate manager (cert.go) and the local CA (localca.go). Cryptography and the
-- system are parameters. A `*tls.Certificate` is the leaf with its key; a private key is a text.
pub mod Files
pub mod Asked
pub mod LocalCa
pub mod Trust
pub mod Refresh
pub mod Tests
use nas_conn_plus.Base.{
  ℕ, ℤ, Str, str_eq, List, [], ◌∷◌, Option, none, some, Bool, true, false, not, ◌&&◌, is_empty, Map,
  get, if◌then◌else◌,
}
use nas_conn_plus.Files.{Disk}

-- `CertEntry`.
pub record CertEntry : Type 0 where
  pub host : Str
  pub cert : Str
  pub key : Str

-- `tls.Certificate`: `Certificate[0]` and the private key.
pub record KeyPair : Type 0 where
  pub leaf : Str
  pub private_key : Str

-- What the code reads of an `x509.Certificate`.
pub record X509 : Type 0 where
  pub raw : Str
  pub is_ca : Bool
  pub raw_issuer : Str
  pub raw_subject : Str

pub data CertError : Type 0 where
  no_cert_dir : Str → CertError
  unreadable : Str → CertError
  no_pem_block : Str → CertError
  bad_der : Str → CertError
  write_failed encode_failed close_failed : Str → CertError
  no_randomness : Str → CertError
  not_created : CertError
  bad_key_pair : Str → CertError
  host_not_found : Str → Str → CertError
  bad_format : Str → CertError
  generate_self_signed : CertError → CertError
  fingerprint_failed : CertError → CertError
  no_domain no_source : CertError
  acme_cache : Str → CertError
  unsupported_os : Str → CertError
  no_tool : Str → CertError
  tool_failed : Str → CertError

-- `autocert.Manager`: the fields that are set.
pub record AcmeClient : Type 0 where
  pub domain : Str
  pub email : Str
  pub cache_dir : Str

-- `Manager`.
pub record Manager : Type 0 where
  pub cfg_path : Str
  pub host : Str
  pub self_dir : Str
  pub fallback : Bool
  pub auto_trust : Bool
  pub acme_enabled : Bool
  pub acme_domain : Str
  pub acme_init_err : Option CertError
  pub auto_trust_err : Option CertError
  pub acme_mgr : Option AcmeClient
  pub cur : Option KeyPair
  pub cert_map : Map Str KeyPair
  pub loaded_at : Str
  pub trusted_ca : Str

-- `NewManager`.
unfoldable pub new_manager : Disk → Str → Str → Str → Bool → Bool → Str → Str → Str → Manager
new_manager d cfg_path host self_dir fallback acme_enabled acme_domain acme_email acme_cache_dir =
    let m : Manager = record {
      cfg_path = cfg_path;
      host = host;
      self_dir = self_dir;
      fallback = fallback;
      auto_trust = false;
      acme_enabled = acme_enabled;
      acme_domain = acme_domain;
      acme_init_err = none;
      auto_trust_err = none;
      acme_mgr = none;
      cur = none;
      cert_map = [];
      loaded_at = [];
      trusted_ca = [];
    } in
    let client : AcmeClient = record {
      domain = acme_domain;
      email = acme_email;
      cache_dir = acme_cache_dir;
    } in
    if acme_enabled && not (is_empty acme_domain)
    then (elim (d.mkdir_fault acme_cache_dir) [
      | none ↦ record m { acme_mgr = some client }
      | some e ↦ record m { acme_init_err = some (acme_cache acme_cache_dir) }
    ])
    else m

-- `SetAutoTrust`.
unfoldable pub set_auto_trust : Bool → Manager → Manager
set_auto_trust enabled m = record m { auto_trust = enabled }

abbrev pub is_some {ℓ} : {A : Type ℓ} → Option A → Bool
is_some none = false
is_some (some a) = true

-- `ACMEReady` and `LocalCATrusted`.
unfoldable pub acme_ready : Manager → Bool
acme_ready m = m.acme_enabled && is_some m.acme_mgr

unfoldable pub local_ca_trusted : Manager → Bool
local_ca_trusted m = not (is_empty m.trusted_ca)

pub data Handshake : Type 0 where
  serves : KeyPair → Handshake
  no_certificate : Str → Handshake
  panics : Handshake

sni_match : Option Str → Map Str KeyPair → Option KeyPair
unfolding get
sni_match none m = none
sni_match (some name) m = if is_empty name then none else get name m

-- The error reads the name out of `hello`, which may be nil.
refusal : Option Str → Handshake
refusal none = panics
refusal (some name) = no_certificate name

abbrev pub first_of {ℓ} : {A : Type ℓ} → Option A → Option A → Option A
first_of none b = b
first_of (some a) b = some a

answer_with : Option Str → Option KeyPair → Handshake
unfolding refusal
answer_with hello none = refusal hello
answer_with hello (some c) = serves c

-- `GetCertificate`: `hello` is the server name, or nil; `acme` is what the ACME client answers.
unfoldable pub get_certificate : (Option Str → Option KeyPair) → Manager → Option Str → Handshake
unfolding answer_with sni_match
get_certificate acme m hello =
    let from_acme = if acme_ready m then acme hello else none in
    answer_with hello (first_of from_acme (first_of (sni_match hello m.cert_map) m.cur))
