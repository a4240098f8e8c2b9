-- ===== src/Cert/LocalCa.antt =====
-- localca.go: the local CA, and the certificate that it signs for the host. Every step that writes runs
-- on a `World`; a step that failed leaves what it wrote before.
mod Steps
pub mod Templates
pub mod Again
unfoldable pub use Steps.*
use nas_conn_plus.Base.{
  ℕ, suc, Str, codes, str_beq, str_eq, first_bytes, List, [], ◌∷◌, Option, none, some, Bool, true,
  false, ◌&&◌, Map, put, ◌≡◌, refl, ◌⊎◌, inl, inr, Result, ok, err, if◌then◌else◌,
}
use nas_conn_plus.Files.{Disk, read_file}
use nas_conn_plus.Config.Paths.{clean, join_path}
use nas_conn_plus.Cert.{
  KeyPair, X509, CertError, no_cert_dir, unreadable, no_pem_block, bad_der, write_failed,
  encode_failed, close_failed, no_randomness, not_created, bad_key_pair,
}
use nas_conn_plus.Cert.Files.{Reader, slurp, load_key_pair}
use nas_conn_plus.Cert.LocalCa.Templates.{Template, ca_template, leaf_template}

-- `managedLocalCA`.
pub record LocalCa : Type 0 where
  pub cert : X509
  pub key : Str
  pub cert_path : Str
  pub key_path : Str

abbrev pub certificate : Str
certificate = codes "CERTIFICATE"

abbrev pub ec_private_key : Str
ec_private_key = codes "EC PRIVATE KEY"

abbrev pub ca_cert_file : Str
ca_cert_file = codes "nasconnplus-local-ca.crt"

abbrev pub ca_key_file : Str
ca_key_file = codes "nasconnplus-local-ca.key"

-- `ensureCertDir`.
unfoldable pub ensure_cert_dir : Str → Action Str
ensure_cert_dir preferred w = elim (w.disk.mkdir_fault preferred) [
  | none ↦ (ok preferred, w)
  | some e ↦ elim (w.disk.mkdir_fault (codes "./tls")) [
    | none ↦ (ok (codes "./tls"), w)
    | some e' ↦ (err (no_cert_dir preferred), w)
  ]
]

abbrev lift_option : {A : Type 0} → CertError → Option A → Result CertError A
lift_option e none = err e
lift_option e (some a) = ok a

unfoldable pub write_at : Str → Str → World → World
write_at path text w = record w {
  disk = record (w.disk) { files = put (clean path) text w.disk.files };
}

module _ (c : Crypto) where
  open c use {
    reader, parse_ip, pem_decode, pem_encode, parse_certificate, parse_key, marshal_key,
    generate_key, serial, now, create_certificate, signed_by, close_fault,
  }

  -- The bytes of the first PEM block, if it has the type.
  pem_bytes : Str → Str → Option (Str × Str) → Result CertError Str
  unfolding str_beq
  pem_bytes path kind none = err (no_pem_block path)
  pem_bytes path kind (some (found_kind, der)) =
      if str_beq found_kind kind then ok der else err (no_pem_block path)

  unfoldable pub read_pem : Str → Str → Disk → Result CertError Str
  unfolding pem_bytes
  read_pem path kind d = elim (slurp d path) [
    | err e ↦ err e
    | ok text ↦ pem_bytes path kind (pem_decode text)
  ]

  -- `parsePEMCertificate`.
  unfoldable pub parse_pem_certificate : Str → Disk → Result CertError X509
  parse_pem_certificate path d = elim (read_pem path certificate d) [
    | err e ↦ err e
    | ok der ↦ lift_option (bad_der path) (parse_certificate der)
  ]

  -- `parsePEMECPrivateKey`.
  unfoldable pub parse_pem_ec_private_key : Str → Disk → Result CertError Str
  parse_pem_ec_private_key path d = elim (read_pem path ec_private_key d) [
    | err e ↦ err e
    | ok der ↦ lift_option (bad_der path) (parse_key der)
  ]

  -- `writePEM`: the file is emptied before it is written, and keeps what was written before an error.
  unfoldable pub write_pem : Str → Str → Str → Action (Unit {0})
  unfolding write_at first_bytes
  write_pem path kind der w = elim (w.disk.write_fault (clean path)) [
    | some e ↦ (err (write_failed path), w)
    | none ↦ elim (pem_encode kind der) [
      | none ↦ (err (encode_failed path), write_at path [] w)
      | some text ↦ elim (w.disk.torn (clean path)) [
        | some n ↦ (err (encode_failed path), write_at path (first_bytes n text) w)
        | none ↦ elim (close_fault path) [
          | some e ↦ (err (close_failed path), write_at path text w)
          | none ↦ (ok tt, write_at path text w)
        ]
      ]
    ]
  ]

  -- A CA that can be used again: a certificate with its key, marked as a CA and signed by itself.
  usable_ca : Str → Str → Result CertError X509 → Result CertError Str → Option LocalCa
  usable_ca cert_path key_path (ok cert) (ok key) =
      if cert.is_ca && signed_by cert cert
      then some (record { cert = cert; key = key; cert_path = cert_path; key_path = key_path })
      else none
  usable_ca cert_path key_path _ _ = none

  unfoldable pub load_ca : Str → Disk → Option LocalCa
  unfolding usable_ca
  load_ca dir d =
      let cert_path = join_path dir ca_cert_file in
      let key_path = join_path dir ca_key_file in
      usable_ca cert_path key_path (parse_pem_certificate cert_path d)
        (parse_pem_ec_private_key key_path d)

  -- The files of a new CA, and the certificate as it is read back.
  unfoldable pub store_ca : Str → Str → Str → Action LocalCa
  store_ca dir key der = do
    let cert_path = join_path dir ca_cert_file
    let key_path = join_path dir ca_key_file
    write_pem cert_path certificate der
    key_der ← need (bad_der key_path) (marshal_key key)
    write_pem key_path ec_private_key key_der
    cert ← λ w. (parse_pem_certificate cert_path w.disk, w)
    pure (record { cert = cert; key = key; cert_path = cert_path; key_path = key_path })

  -- The part of `loadOrCreateLocalCA` that makes a new one.
  unfoldable pub create_ca : Str → Action LocalCa
  create_ca dir = do
    n ← tick
    key ← need (no_randomness ca_key_file) (generate_key n)
    i ← tick
    number ← need (no_randomness ca_cert_file) (serial i)
    b ← tick
    e ← tick
    t ← tick
    let template = ca_template (now b) (now e) number
    der ← need not_created (create_certificate t template none key key)
    store_ca dir key der

  -- `loadOrCreateLocalCA`.
  unfoldable pub load_or_create_local_ca : Str → Action LocalCa
  load_or_create_local_ca dir w = elim (load_ca dir w.disk) [
    | some ca ↦ (ok ca, w)
    | none ↦ create_ca dir w
  ]

  -- `leafMatchesCA`.
  unfoldable pub leaf_matches_ca : X509 → X509 → Bool
  unfolding str_beq
  leaf_matches_ca leaf ca = str_beq leaf.raw_issuer ca.raw_subject && signed_by leaf ca

  -- `createLocalLeaf`.
  unfoldable pub create_local_leaf : LocalCa → Str → Str → Str → Action KeyPair
  create_local_leaf ca host crt_path key_path = do
    n ← tick
    key ← need (no_randomness key_path) (generate_key n)
    i ← tick
    number ← need (no_randomness crt_path) (serial i)
    b ← tick
    e ← tick
    t ← tick
    der ← need not_created (
        create_certificate t (leaf_template parse_ip (now b) (now e) number host) (some ca.cert) key
          ca.key)
    write_pem crt_path certificate der
    key_der ← need (bad_der key_path) (marshal_key key)
    write_pem key_path ec_private_key key_der
    λ w. need (bad_key_pair crt_path) (load_key_pair reader w.disk crt_path key_path) w

  matching : X509 → Option KeyPair → Option KeyPair
  matching ca none = none
  matching ca (some kc) = elim (parse_certificate kc.leaf) [
    | none ↦ none
    | some leaf ↦ if leaf_matches_ca leaf ca then some kc else none
  ]

  -- The certificate on the disk, if the CA signed it.
  unfoldable pub load_leaf : LocalCa → Str → Disk → Option KeyPair
  unfolding matching
  load_leaf ca dir d = matching ca.cert (
      load_key_pair reader d (join_path dir (codes "selfsigned.crt"))
        (join_path dir (codes "selfsigned.key")))

  unfoldable pub leaf_for : LocalCa → Str → Str → Action KeyPair
  leaf_for ca dir host w = elim (load_leaf ca dir w.disk) [
    | some kc ↦ (ok kc, w)
    | none ↦
        create_local_leaf ca host (join_path dir (codes "selfsigned.crt"))
          (join_path dir (codes "selfsigned.key")) w
  ]

  -- `loadOrCreateLocalSignedCertificate`: the certificate, its directory, and the path of the CA.
  unfoldable pub load_or_create_local_signed_certificate : Str → Str → Action (KeyPair × Str × Str)
  load_or_create_local_signed_certificate self_dir host = do
    dir ← ensure_cert_dir self_dir
    ca ← load_or_create_local_ca dir
    kc ← leaf_for ca dir host
    pure (kc, dir, ca.cert_path)
