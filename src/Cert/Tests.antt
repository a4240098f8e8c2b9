-- ===== src/Cert/Tests.antt =====
-- A toy cryptography, on which the theorems are applied: a certificate is its flag, and everything is signed.
use nas_conn_plus.Base.{
  ℕ, zero, suc, ◌==◌, pos, length, Str, codes, str_eq, str_beq, has_prefix, split, ◌≡◌, ◌⊎◌, refl,
  List, [], ◌∷◌, ◌++◌, Option, none, some, true, false, get, put, ok, if◌then◌else◌, arith,
  str_beq_iff,
}
use nas_conn_plus.Files.{Disk, read_file}
use nas_conn_plus.Config.Paths.{clean, join_path}
use nas_conn_plus.Cert.{CertEntry, X509, tool_failed, Manager, new_manager, set_auto_trust}
use nas_conn_plus.Cert.Files.{Reader, slurp, resolve_cert_files_with, fallback_name, any_name}
use nas_conn_plus.Cert.Files.Choice.{Named, NoneFor, resolve_cert_files_with-Named}
use nas_conn_plus.Cert.LocalCa.{
  World, Crypto, LocalCa, ca_cert_file, ca_key_file, write_at, load_ca, create_ca, store_ca,
  load_or_create_local_ca, parse_pem_certificate, parse_pem_ec_private_key, read_pem, write_pem,
}
use nas_conn_plus.Cert.LocalCa.Again.{Lawful, Readable, load_or_create_local_ca-again}
use nas_conn_plus.Cert.Trust.{
  System, linux, linux_destination, probe_local_ca_trust, update_linux_ca_certificates,
  ensure_local_ca_trusted,
}
use nas_conn_plus.Cert.Trust.Retry.{HalfWay, ensure_local_ca_trusted-retry}

abbrev split_at : ℕ → Str → Str × Str
split_at zero s = ([], s)
split_at (suc n) [] = ([], [])
split_at (suc n) (x ∷ s) = let (a, b) = split_at n s in (x ∷ a, b)

abbrev decode : Str → Option (Str × Str)
decode [] = none
decode (n ∷ s) = some (split_at n s)

split_at-append : (a b : Str) → split_at (length a) (a ++ b) ≡ (a, b)
split_at-append [] b = refl
split_at-append (x ∷ a) b = ground (arith, split_at-append a b)

abbrev x509 : Str → Option X509
x509 [] = none
x509 (flag ∷ rest) =
    some (record { raw = flag ∷ rest; is_ca = flag == 1; raw_issuer = []; raw_subject = [] })

abbrev entries : List CertEntry
entries =
    record { host = codes "*"; cert = codes "/c/any.crt"; key = codes "/c/any.key" }
    ∷ record { host = codes "nas.local"; cert = codes "/c/nas.crt"; key = [] }
    ∷ []

abbrev reader : Reader
reader = record {
  entries_of = λ text. some entries;
  key_pair = λ cert key. some (record { leaf = cert; private_key = key });
  short_sum = λ text. text;
  full_sum = λ text. text;
  modified = λ d path. pos 0;
}

abbrev pub crypto : Crypto
crypto = record {
  reader = reader;
  parse_ip = λ s. none;
  pem_decode = decode;
  pem_encode = λ kind der. some (length kind ∷ (kind ++ der));
  parse_certificate = x509;
  parse_key = λ der. some der;
  marshal_key = λ key. some key;
  generate_key = λ n. some (n ∷ []);
  serial = λ n. some n;
  now = λ n. n;
  create_certificate = λ n t parent key signer. some ((if t.is_ca then 1 else 0) ∷ []);
  signed_by = λ x y. y.is_ca;
  close_fault = λ path. none;
}

Lawful-crypto : Lawful crypto
Lawful-crypto = record {
  pem = λ kind der text e. ground (arith, split_at-append kind der);
  keys = λ key der e. ground arith;
  self_signed = λ n t key der x e p flag. ground arith;
}

abbrev pub disk : Disk
disk = record {
  files = (codes "/c/certs.json", codes "[]") ∷ (codes "/c/ca.crt", codes "ca") ∷ [];
  denied = λ p. none;
  hidden = λ p. none;
  mkdir_fault = λ p. none;
  write_fault = λ p. none;
  torn = λ p. none;
}

abbrev pub world : World
world = record { disk = disk; calls = 0 }

abbrev tls_dir : Str
tls_dir = codes "/tls"

created : (ca : LocalCa) × (w : World) × (load_or_create_local_ca crypto tls_dir world ≡ (ok ca, w))
unfolding load_or_create_local_ca create_ca store_ca load_ca parse_pem_certificate
    parse_pem_ec_private_key read_pem write_pem write_at slurp read_file clean join_path str_beq
    has_prefix split get put
created = (_, _, refl)

apart :
    str_beq (clean (join_path tls_dir ca_cert_file)) (clean (join_path tls_dir ca_key_file)) ≡ false
unfolding clean join_path str_beq has_prefix split
apart = refl

abbrev readable : (path : Str) → Readable disk path
readable path = record { seen = refl; allowed = refl }

load_or_create_local_ca-again_example :
    load_or_create_local_ca crypto tls_dir created.1 ≡ (ok created.0, created.1)
load_or_create_local_ca-again_example =
    load_or_create_local_ca-again crypto Lawful-crypto tls_dir created.0 world created.1
      (readable (join_path tls_dir ca_cert_file)) (readable (join_path tls_dir ca_key_file))
      (λ e. ground (
        arith,
        apart,
        str_beq_iff (clean (join_path tls_dir ca_cert_file))
            (clean (join_path tls_dir ca_key_file)),
      ))
      created.2

abbrev pub broken_tool : System
broken_tool = record {
  os = linux;
  look_path = λ tool. true;
  run = λ tool args. some (codes "exit status 1");
  home = none;
}

abbrev pub manager : Manager
manager =
    set_auto_trust true
      (new_manager disk (codes "/c/certs.json") (codes "nas.local") tls_dir true false [] [] [])

abbrev ca_path : Str
ca_path = codes "/c/ca.crt"

half_way : HalfWay broken_tool ca_path (codes "ca") world
unfolding slurp read_file clean str_beq has_prefix split get probe_local_ca_trust linux_destination
half_way = record {
  on_linux = refl;
  current = refl;
  not_trusted = refl;
  mkdir_ok = refl;
  write_ok = refl;
  whole = refl;
  seen = refl;
  readable = refl;
}

ensure_local_ca_trusted-retry_example :
    (m' : Manager) × (w' : World) × (ensure_local_ca_trusted reader broken_tool ca_path manager
        world
      ≡ (some (tool_failed (codes "exit status 1")), m', w'))
    × (ensure_local_ca_trusted reader broken_tool ca_path m' w'
        ≡ (none, record manager { trusted_ca = codes "local-ca:sha256:ca" }, w'))
unfolding update_linux_ca_certificates set_auto_trust new_manager
ensure_local_ca_trusted-retry_example =
    ensure_local_ca_trusted-retry reader broken_tool ca_path (codes "ca")
      (tool_failed (codes "exit status 1")) manager world half_way (λ e. cc) refl

resolve_cert_files_with-Named_example :
    ((files : Str × Str) × (resolve_cert_files_with reader disk
          (codes "/c/certs.json")
          (codes "nas.local")
        ≡ ok files)
      × (Named (codes "nas.local") entries files
          ⊎ ((NoneFor (codes "nas.local") entries × Named fallback_name entries files)
              ⊎ (NoneFor (codes "nas.local") entries
                  × NoneFor fallback_name entries
                  × Named any_name entries files))))
    ⊎ ((¬ (
          (files : Str × Str) × (resolve_cert_files_with reader disk
              (codes "/c/certs.json")
              (codes "nas.local")
            ≡ ok files)))
        × NoneFor (codes "nas.local") entries
        × NoneFor fallback_name entries
        × NoneFor any_name entries)
unfolding slurp read_file clean str_beq has_prefix split get
resolve_cert_files_with-Named_example =
    resolve_cert_files_with-Named reader disk (codes "/c/certs.json") (codes "nas.local")
      (codes "[]") entries refl refl
