-- ===== src/Cert/Refresh.antt =====
-- cert.go `Refresh`: one goroutine refreshes, so the snapshot at its start is the state until it writes.
pub mod Tests
pub mod Serves
pub mod Always
use nas_conn_plus.Base.{
  Str, codes, str_beq, str_eq, is_empty, List, [], ◌∷◌, ◌++◌, Option, none, some, Bool, true, false,
  not, ◌&&◌, ◌||◌, Result, ok, err, if◌then◌else◌,
}
use nas_conn_plus.Config.Paths.{join_path}
use nas_conn_plus.Cert.{
  Manager, KeyPair, CertError, bad_key_pair, generate_self_signed, no_domain, no_source, is_some,
  first_of,
}
use nas_conn_plus.Cert.Files.{
  Reader, load_key_pair, resolve_cert_files_with, load_all_cert_entries, cert_fingerprint,
}
use nas_conn_plus.Cert.LocalCa.{World, Crypto, load_or_create_local_signed_certificate}
use nas_conn_plus.Cert.Trust.{System, ensure_local_ca_trusted}

-- Where a part of `Refresh` stops: it returns, or the next part goes on with `lastErr`.
pub data Progress : Type 0 where
  returns : Option CertError → Progress
  continues : Option CertError → Progress

-- A new key pair and its fingerprint, unless it is the one that was loaded.
unfoldable pub take_configured : Str → KeyPair → Manager → Manager
unfolding str_beq
take_configured fp kc m =
    if str_beq fp m.loaded_at then m else record m { cur = some kc; loaded_at = fp }

-- The self-signed pair, and the directory that is used from now on.
unfoldable pub take_self_signed : Str → Str → KeyPair → Manager → Manager
unfolding str_beq
take_self_signed fp new_dir kc m =
    let m' =
      if not (str_beq fp m.loaded_at) || not (is_some m.cur)
      then record m { cur = some kc; loaded_at = fp }
      else m in
    if not (is_empty new_dir) && not (str_beq new_dir m.self_dir)
    then record m' { self_dir = new_dir }
    else m'

module _ (c : Crypto) (s : System) where
  open c use {reader}

  try_pair : Str → Str → Option KeyPair → Manager → Progress × Manager
  try_pair fp cert none m = (continues (some (bad_key_pair cert)), m)
  try_pair fp cert (some kc) m = (returns none, take_configured fp kc m)

  unfoldable pub load_configured :
      Result CertError (Str × Str) → Manager → World → Progress × Manager
  unfolding try_pair str_beq
  load_configured (err e) m w = (continues (some e), m)
  load_configured (ok (cert, key)) m w =
      let fp = cert_fingerprint reader w.disk cert key in
      if str_beq fp m.loaded_at
      then (returns none, m)
      else try_pair fp cert (load_key_pair reader w.disk cert key) m

  -- The certificate of the configuration, if there is a path.
  unfoldable pub from_config : Manager → World → Progress × Manager
  from_config m w =
      let m' = record m { cert_map = load_all_cert_entries reader w.disk m.cfg_path m.cert_map } in
      if is_empty m.cfg_path
      then (continues none, m)
      else load_configured (resolve_cert_files_with reader w.disk m.cfg_path m.host) m' w

  -- The result of the trust setup is stored, and becomes the last error if it is one.
  trust_result :
      Option CertError → Option CertError × Manager × World → Option CertError × Manager × World
  trust_result last (e, m, w) = (first_of e last, record m { auto_trust_err = e }, w)

  unfoldable pub trust_step :
      Bool → Str → Option CertError → Manager → World → Option CertError × Manager × World
  unfolding trust_result
  trust_step auto_trust ca_path last m w =
      if auto_trust
      then trust_result last (ensure_local_ca_trusted reader s ca_path m w)
      else (last, m, w)

  return_unless : Bool → Option CertError × Manager × World → Progress × Manager × World
  return_unless acme_enabled (last, m, w) =
      (if acme_enabled then continues last else returns last, m, w)

  effective : Str → Str → Str
  effective self_dir new_dir = if is_empty new_dir then self_dir else new_dir

  unfoldable pub with_self_signed :
      Option CertError
      → Manager
      → Result CertError (KeyPair × Str × Str) × World
      → Progress × Manager × World
  unfolding return_unless effective
  with_self_signed last m (err e, w) = (continues (some (generate_self_signed e)), m, w)
  with_self_signed last m (ok (kc, new_dir, ca_path), w) =
      let dir = effective m.self_dir new_dir in
      let fp =
        codes "self:"
        ++ cert_fingerprint reader w.disk (join_path dir (codes "selfsigned.crt"))
            (join_path dir (codes "selfsigned.key")) in
      return_unless m.acme_enabled
        (trust_step m.auto_trust ca_path last (take_self_signed fp new_dir kc m) w)

  -- The self-signed certificate, where the settings allow it.
  unfoldable pub from_fallback : Option CertError → Manager → World → Progress × Manager × World
  from_fallback last m w =
      if m.fallback
      then with_self_signed last m (load_or_create_local_signed_certificate c m.self_dir m.host w)
      else (continues last, m, w)

  -- ACME is enabled and has no client.
  unfoldable pub acme_error : Option CertError → Manager → Option CertError
  acme_error last m =
      if m.acme_enabled && not (is_some m.acme_mgr)
      then some (elim m.acme_init_err [ none ↦ no_domain | some e ↦ e ])
      else last

  -- The end of `Refresh`: with a certificate to serve there is no error.
  unfoldable pub conclude : Option CertError → Manager → Option CertError
  conclude last m =
      if is_some m.cur
      then none
      else some (elim (acme_error last m) [ none ↦ no_source | some e ↦ e ])

  finish_refresh : Progress × Manager × World → Option CertError × Manager × World
  finish_refresh (returns e, m, w) = (e, m, w)
  finish_refresh (continues last, m, w) = (conclude last m, m, w)

  second_part : World → Progress × Manager → Option CertError × Manager × World
  unfolding finish_refresh
  second_part w (returns e, m) = (e, m, w)
  second_part w (continues last, m) = finish_refresh (from_fallback last m w)

  -- `Refresh`.
  unfoldable pub refresh : Manager → World → Option CertError × Manager × World
  unfolding second_part
  refresh m w = second_part w (from_config m w)

  -- Refreshes one after the other, each with the files that it finds.
  unfoldable pub refresh_all : List World → Manager → Manager
  refresh_all [] m = m
  refresh_all (w ∷ ws) m = refresh_all ws (refresh m w).1
