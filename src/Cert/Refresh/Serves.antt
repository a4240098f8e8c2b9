-- ===== src/Cert/Refresh/Serves.antt =====
-- A refresh that reports no error leaves a certificate to serve, and no refresh takes one away.
use nas_conn_plus.Base.{
  Str, codes, str_beq, str_beq_iff, str_eq, is_empty, ◌≡◌, ◌≢◌, refl, ◌∙◌, ◌⊎◌, inl, inr, [], ◌++◌,
  Option, none, some, Bool, Result, ok, err, Bool-cases, Option-cases, arith,
}
use nas_conn_plus.Config.Paths.{join_path}
use nas_conn_plus.Cert.{Manager, KeyPair, CertError}
use nas_conn_plus.Cert.Files.{
  cert_fingerprint, load_key_pair, resolve_cert_files_with, load_all_cert_entries,
}
use nas_conn_plus.Cert.LocalCa.{World, Crypto, load_or_create_local_signed_certificate}
use nas_conn_plus.Cert.Trust.{System, ensure_local_ca_trusted}
use nas_conn_plus.Cert.Refresh.{
  Progress, returns, continues, take_configured, take_self_signed, load_configured, from_config,
  trust_step, with_self_signed, from_fallback, conclude, refresh, effective, finish_refresh,
  second_part,
}

-- What was loaded is there.
abbrev pub Loaded : Manager → Type 0
Loaded m = m.loaded_at ≢ [] → m.cur ≢ none

-- A certificate that was there is still there.
abbrev pub Stays : Manager → Manager → Type 0
Stays m n = m.cur ≢ none → n.cur ≢ none

take_configured-cur :
    (fp : Str) (kc : KeyPair) (m : Manager)
    → fp ≢ []
    → Loaded m
    → (take_configured fp kc m).cur ≢ none
unfolding take_configured
take_configured-cur fp kc m some_fp v gone = elim (Bool-cases (str_beq fp m.loaded_at)) [
  | inl same ↦
      v (λ e. some_fp ((str_beq_iff fp m.loaded_at).0 same ∙ e)) (ground (arith, same, gone))
  | inr new ↦ ground (arith, new, gone)
]

take_self_signed-cur :
    (fp dir : Str) (kc : KeyPair) (m : Manager) → (take_self_signed fp dir kc m).cur ≢ none
unfolding take_self_signed
take_self_signed-cur fp dir kc m = ground arith

cert_fingerprint-ne-nil :
    (c : Crypto) (w : World) (cert key : Str) → cert_fingerprint c.reader w.disk cert key ≢ []
unfolding cert_fingerprint
cert_fingerprint-ne-nil c w cert key = ground arith

-- What a part of a refresh guarantees: it keeps the certificate, and has one if it returns no error.
pub record Kept (m : Manager) (p : Progress) (n : Manager) : Type 0 where
  pub loaded : Loaded m → Loaded n
  pub stays : Loaded m → Stays m n
  pub serves : Loaded m → p ≡ returns none → n.cur ≢ none

module _ (c : Crypto) (s : System) where
  ensure_local_ca_trusted-cur :
      (ca_path : Str) (m : Manager) (w : World)
      → ((ensure_local_ca_trusted c.reader s ca_path m w).1.cur ≡ m.cur)
        × ((ensure_local_ca_trusted c.reader s ca_path m w).1.loaded_at ≡ m.loaded_at)
  unfolding ensure_local_ca_trusted
  ensure_local_ca_trusted-cur ca_path m w = ground arith

  trust_step-cur :
      (on : Bool) (ca_path : Str) (last : Option CertError) (m : Manager) (w : World)
      → (trust_step c s on ca_path last m w).1.cur ≡ m.cur
  unfolding trust_step
  trust_step-cur on ca_path last m w = ground (arith, ensure_local_ca_trusted-cur ca_path m w)

  load_configured-Kept :
      (r : Result CertError (Str × Str)) (m : Manager) (w : World)
      → Kept m (load_configured c s r m w).0 (load_configured c s r m w).1
  unfolding load_configured
  load_configured-Kept (err e) m w = record {
    loaded = λ v. v;
    stays = λ v h. h;
    serves = λ v e. cc;
  }
  load_configured-Kept (ok (cert, key)) m w =
      let fp = cert_fingerprint c.reader w.disk cert key in
      let some_fp = cert_fingerprint-ne-nil c w cert key in
      elim (Bool-cases (str_beq fp m.loaded_at)) [
        | inl same ↦
            rw (same, load_configured)
              (record {
                loaded = λ v. v;
                stays = λ v h. h;
                serves = λ v e. v (λ x. some_fp ((str_beq_iff fp m.loaded_at).0 same ∙ x));
              })
        | inr new ↦ elim (Option-cases (load_key_pair c.reader w.disk cert key)) [
          | inl bad ↦
              rw (new, bad, load_configured)
                (record { loaded = λ v. v; stays = λ v h. h; serves = λ v e. cc })
          | inr (kc, good) ↦
              let done = take_configured-cur fp kc m some_fp in
              rw (new, good, load_configured)
                (record { loaded = λ v x. done v; stays = λ v h. done v; serves = λ v e. done v })
        ]
      ]

  from_config-Kept :
      (m : Manager) (w : World) → Kept m (from_config c s m w).0 (from_config c s m w).1
  unfolding from_config
  from_config-Kept m w = elim (Bool-cases (is_empty m.cfg_path)) [
    | inl unset ↦
        rw (unset, from_config) (record { loaded = λ v. v; stays = λ v h. h; serves = λ v e. cc })
    | inr given ↦
        let m' = record m {
          cert_map = load_all_cert_entries c.reader w.disk m.cfg_path m.cert_map;
        } in
        let k =
          load_configured-Kept (resolve_cert_files_with c.reader w.disk m.cfg_path m.host) m' w in
        rw (given, from_config)
          (record { loaded = λ v. k.loaded v; stays = λ v. k.stays v; serves = λ v. k.serves v })
  ]

  with_self_signed-cur :
      (last : Option CertError) (m : Manager) (r : Result CertError (KeyPair × Str × Str))
      (w : World)
      → ((with_self_signed c s last m (r, w)).1.cur ≢ none)
        ⊎ ((last' : Option CertError) × (with_self_signed c s last m (r, w)
              ≡ (continues last', m, w)))
  unfolding with_self_signed
  with_self_signed-cur last m (err e) w = inr (_, refl)
  with_self_signed-cur last m (ok (kc, new_dir, ca_path)) w =
      let dir = effective c s m.self_dir new_dir in
      let fp =
        codes "self:"
        ++ cert_fingerprint c.reader w.disk (join_path dir (codes "selfsigned.crt"))
            (join_path dir (codes "selfsigned.key")) in
      inl (
        ground (
          arith,
          trust_step-cur m.auto_trust ca_path last (take_self_signed fp new_dir kc m) w,
          take_self_signed-cur fp new_dir kc m,
        ))

  -- The certificate that the second part leaves, or the manager that it found.
  from_fallback-cur :
      (last : Option CertError) (m : Manager) (w : World)
      → ((from_fallback c s last m w).1.cur ≢ none)
        ⊎ ((last' : Option CertError) × (w' : World) × (from_fallback c s last m w
              ≡ (continues last', m, w')))
  unfolding from_fallback
  from_fallback-cur last m w = elim (Bool-cases m.fallback) [
    | inr off ↦ inr (last, w, simp off refl)
    | inl on ↦
        let (r, w') = load_or_create_local_signed_certificate c m.self_dir m.host w in
        elim (with_self_signed-cur last m r w') [
          | inl up ↦ inl (simp on up)
          | inr (last', e) ↦ inr (last', w', simp on e)
        ]
  ]

  conclude-cur : (last : Option CertError) (m : Manager) → conclude c s last m ≡ none → m.cur ≢ none
  unfolding conclude
  conclude-cur last m e = ground arith

  abbrev Sound : Manager → Option CertError × Manager × World → Type 0
  Sound m (e, n, w) = Loaded n × Stays m n × (e ≡ none → n.cur ≢ none)

  has-Sound : (m n : Manager) (e : Option CertError) (w : World) → n.cur ≢ none → Sound m (e, n, w)
  has-Sound m n e w up = (λ x. up, λ h. up, λ h. up)

  finish_refresh-Sound :
      (m n : Manager) (p : Progress) (w : World)
      → n.cur ≢ none
      → Sound m (finish_refresh c s (p, n, w))
  unfolding finish_refresh
  finish_refresh-Sound m n (returns e) w up = has-Sound m n e w up
  finish_refresh-Sound m n (continues last) w up = has-Sound m n (conclude c s last n) w up

  second_part-Sound :
      (m n : Manager) (p : Progress) (w : World)
      → Loaded m
      → Kept m p n
      → Sound m (second_part c s w (p, n))
  unfolding second_part finish_refresh
  second_part-Sound m n (returns none) w v k = (k.loaded v, k.stays v, λ e. k.serves v refl)
  second_part-Sound m n (returns (some e)) w v k = (k.loaded v, k.stays v, λ x. cc)
  second_part-Sound m n (continues last) w v k = elim (from_fallback-cur last n w) [
    | inl up ↦ let (p, n', w') = from_fallback c s last n w in finish_refresh-Sound m n' p w' up
    | inr (last', w', e) ↦ simp e (k.loaded v, k.stays v, conclude-cur last' n)
  ]

  -- If a certificate is there whenever a fingerprint is, then so it is after a refresh; the refresh takes
  -- no certificate away; and if it reports no error, there is a certificate to serve. This covers a
  -- configuration that cannot be read, a pair that cannot be loaded, the self-signed fallback, ACME, and
  -- a trust store that refuses the CA.
  pub refresh-Loaded :
      (m : Manager) (w : World)
      → Loaded m
      → Loaded (refresh c s m w).1
        × Stays m (refresh c s m w).1
        × ((refresh c s m w).0 ≡ none → (refresh c s m w).1.cur ≢ none)
  unfolding refresh
  refresh-Loaded m w v =
      let (p, n) = from_config c s m w in second_part-Sound m n p w v (from_config-Kept m w)
