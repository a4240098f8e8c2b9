-- ===== src/Cert/LocalCa/Again.antt =====
-- A CA that was created is found again.
use nas_conn_plus.Base.{
  ℕ, suc, Str, str_beq_iff, str_eq, ◌≡◌, ◌≢◌, refl, sym, ◌∙◌, inl, inr, none, some, true, get-put,
  Result, ok, err, Option-cases, arith,
}
use nas_conn_plus.Files.{Disk, read_file}
use nas_conn_plus.Config.Paths.{clean, join_path}
use nas_conn_plus.Cert.{X509, CertError}
use nas_conn_plus.Cert.Files.{slurp}
use nas_conn_plus.Cert.LocalCa.Templates.{Template, ca_template}
use nas_conn_plus.Cert.LocalCa.{
  World, Crypto, LocalCa, certificate, ec_private_key, ca_cert_file, ca_key_file, write_at,
  write_pem, read_pem, pem_bytes, parse_pem_certificate, parse_pem_ec_private_key, Run-cases,
  usable_ca, load_ca, store_ca, create_ca, load_or_create_local_ca,
}

-- What the code relies on: what is encoded decodes, and a certificate made from the template of a CA as its own
-- parent is a CA and signed by itself.
pub record Lawful (c : Crypto) : Type 0 where
  pub pem :
      (kind der text : Str)
      → c.pem_encode kind der ≡ some text
      → c.pem_decode text ≡ some (kind, der)
  pub keys : (key der : Str) → c.marshal_key key ≡ some der → c.parse_key der ≡ some key
  pub self_signed :
      (n : ℕ) (t : Template) (key der : Str) (x : X509)
      → c.create_certificate n t none key key ≡ some der
      → c.parse_certificate der ≡ some x
      → t.is_ca ≡ true
      → (x.is_ca ≡ true) × (c.signed_by x x ≡ true)

-- The file can be read once it is there.
pub record Readable (d : Disk) (path : Str) : Type 0 where
  pub seen : d.hidden (clean path) ≡ none
  pub allowed : d.denied (clean path) ≡ none

module _ (c : Crypto) (l : Lawful c) where
  write_pem-read_self :
      (path kind der : Str) (w w' : World)
      → Readable w.disk path
      → write_pem c path kind der w ≡ (ok tt, w')
      → read_pem c path kind w'.disk ≡ ok der
  unfolding write_pem read_pem pem_bytes slurp read_file write_at
  write_pem-read_self path kind der w w' r e = elim (Option-cases (c.pem_encode kind der)) [
    | inl bad ↦ ground (arith, bad)
    | inr (text, good) ↦ ground (
      arith,
      good,
      r.seen,
      r.allowed,
      get-put (clean path) (clean path) text w.disk.files,
      str_beq_iff (clean path) (clean path),
      str_beq_iff kind kind,
      l.pem kind der text good,
    )
  ]

  write_pem-read_other :
      (path other kind kind' der : Str) (w w' : World)
      → clean path ≢ clean other
      → write_pem c path kind der w ≡ (ok tt, w')
      → read_pem c other kind' w'.disk ≡ read_pem c other kind' w.disk
  unfolding write_pem read_pem pem_bytes slurp read_file write_at
  write_pem-read_other path other kind kind' der w w' apart e =
      elim (Option-cases (c.pem_encode kind der)) [
        | inl bad ↦ ground (arith, bad)
        | inr (text, good) ↦ ground (
          arith,
          good,
          get-put (clean path) (clean other) text w.disk.files,
          str_beq_iff (clean path) (clean other),
        )
      ]

  write_pem-disk :
      (path kind der : Str) (w w' : World)
      → write_pem c path kind der w ≡ (ok tt, w')
      → (w'.disk.hidden ≡ w.disk.hidden) × (w'.disk.denied ≡ w.disk.denied)
  unfolding write_pem write_at
  write_pem-disk path kind der w w' e = elim (Option-cases (c.pem_encode kind der)) [
    | inl bad ↦ ground (arith, bad)
    | inr (text, good) ↦ ground (arith, good)
  ]

  module _ (dir : Str) where
    abbrev crt : Str
    crt = join_path dir ca_cert_file

    abbrev pem_key : Str
    pem_key = join_path dir ca_key_file

    -- The files of the CA, as they can be read from a world.
    record Stored (key der : Str) (x : X509) (w : World) : Type 0 where
      cert_bytes : read_pem c crt certificate w.disk ≡ ok der
      parsed : c.parse_certificate der ≡ some x
      key_read : parse_pem_ec_private_key c pem_key w.disk ≡ ok key

    -- The end of `store_ca`, where both files are written.
    stored :
        (key der kd : Str) (ca : LocalCa) (w w' : World)
        → read_pem c crt certificate w.disk ≡ ok der
        → read_pem c pem_key ec_private_key w.disk ≡ ok kd
        → c.marshal_key key ≡ some kd
        → (elim (parse_pem_certificate c crt w.disk) as (λ _. Result CertError LocalCa × World) [
          | ok cert ↦
              (ok (record { cert = cert; key = key; cert_path = crt; key_path = pem_key }), w)
          | err x ↦ (err x, w)
        ])
          ≡ (ok ca, w')
        → Stored key der ca.cert w'
          × (ca ≡ record { cert = ca.cert; key = key; cert_path = crt; key_path = pem_key })
    unfolding parse_pem_certificate parse_pem_ec_private_key
    stored key der kd ca w w' cert_bytes key_bytes good e =
        elim (Option-cases (c.parse_certificate der)) [
          | inl bad ↦ ground (arith, cert_bytes, bad)
          | inr (x, fine) ↦ ground (arith, cert_bytes, key_bytes, fine, l.keys key kd good)
        ]

    store_ca-Stored :
        (key der : Str) (ca : LocalCa) (w w' : World)
        → Readable w.disk crt
        → Readable w.disk pem_key
        → clean crt ≢ clean pem_key
        → store_ca c dir key der w ≡ (ok ca, w')
        → Stored key der ca.cert w'
          × (ca ≡ record { cert = ca.cert; key = key; cert_path = crt; key_path = pem_key })
    unfolding store_ca
    store_ca-Stored key der ca w w' r q apart e =
        elim (Run-cases (write_pem c crt certificate der w)) [
          | inr (x, w1, f) ↦ ground (arith, f)
          | inl (u, w1, f) ↦ elim (Option-cases (c.marshal_key key)) [
            | inl bad ↦ ground (arith, f, bad)
            | inr (kd, good) ↦ elim (Run-cases (write_pem c pem_key ec_private_key kd w1)) [
              | inr (x, w2, g) ↦ ground (arith, f, good, g)
              | inl (u', w2, g) ↦
                  let q1 : Readable w1.disk pem_key =
                    ground (arith, write_pem-disk crt certificate der w w1 f, q.seen, q.allowed) in
                  let cert_bytes =
                    write_pem-read_other pem_key crt ec_private_key certificate kd w1 w2
                      (λ x. apart (sym x)) g
                    ∙ write_pem-read_self crt certificate der w w1 r f in
                  let key_bytes = write_pem-read_self pem_key ec_private_key kd w1 w2 q1 g in
                  stored key der kd ca w2 w' cert_bytes key_bytes good (ground (arith, f, good, g))
            ]
          ]
        ]

    Stored-load_ca :
        (n : ℕ) (t : Template) (key der : Str) (ca : LocalCa) (w : World)
        → Stored key der ca.cert w
        → ca ≡ record { cert = ca.cert; key = key; cert_path = crt; key_path = pem_key }
        → c.create_certificate n t none key key ≡ some der
        → t.is_ca ≡ true
        → load_ca c dir w.disk ≡ some ca
    unfolding load_ca usable_ca parse_pem_certificate
    Stored-load_ca n t key der ca w st shape made flag = ground (
      arith,
      st.cert_bytes,
      st.parsed,
      st.key_read,
      l.self_signed n t key der ca.cert made st.parsed flag,
    )

    create_ca-load_ca :
        (ca : LocalCa) (w w' : World)
        → Readable w.disk crt
        → Readable w.disk pem_key
        → clean crt ≢ clean pem_key
        → create_ca c dir w ≡ (ok ca, w')
        → load_ca c dir w'.disk ≡ some ca
    unfolding create_ca ca_template
    create_ca-load_ca ca w w' r q apart e =
        let n = w.calls in
        elim (Option-cases (c.generate_key n)) [
          | inl bad ↦ ground (arith, bad)
          | inr (key, k) ↦ elim (Option-cases (c.serial (suc n))) [
            | inl bad ↦ ground (arith, k, bad)
            | inr (number, i) ↦
                let t = ca_template (c.now (suc (suc n))) (c.now (suc (suc (suc n)))) number in
                let at = suc (suc (suc (suc n))) in
                elim (Option-cases (c.create_certificate at t none key key)) [
                  | inl bad ↦ ground (arith, k, i, bad)
                  | inr (der, made) ↦
                      let w1 : World = record w { calls = suc at } in
                      let (st, shape) =
                        store_ca-Stored key der ca w1 w' r q apart
                          (ground (arith, k, i, made, e)) in
                      Stored-load_ca at t key der ca w' st shape made refl
                ]
          ]
        ]

    -- A CA that was loaded or created in a directory is found there the next time, with the same key, and
    -- nothing is written: if the libraries of Go decode what they encode, a certificate that they make from the
    -- template of a CA as its own parent is one and signed by itself, the two files of the CA can be read, and
    -- their paths differ.
    pub load_or_create_local_ca-again :
        (ca : LocalCa) (w w' : World)
        → Readable w.disk crt
        → Readable w.disk pem_key
        → clean crt ≢ clean pem_key
        → load_or_create_local_ca c dir w ≡ (ok ca, w')
        → load_or_create_local_ca c dir w' ≡ (ok ca, w')
    unfolding load_or_create_local_ca
    load_or_create_local_ca-again ca w w' r q apart e = elim (Option-cases (load_ca c dir w.disk)) [
      | inr (old, at) ↦ ground (arith, at)
      | inl absent ↦ ground (arith, create_ca-load_ca ca w w' r q apart (ground (arith, absent)))
    ]
