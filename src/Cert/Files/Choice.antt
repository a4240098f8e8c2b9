-- ===== src/Cert/Files/Choice.antt =====
-- Which entry of the configuration is chosen.
use nas_conn_plus.Base.{
  Str, str_beq, str_beq_iff, ◌≡◌, ◌≢◌, ◌↔◌, refl, ap, ◌⊎◌, inl, inr, List, [], ◌∷◌, ◌++◌, none,
  some, true, All, ok, Bool-cases, Option-cases, arith, ◌&&◌,
}
use nas_conn_plus.Files.{Disk}
use nas_conn_plus.Cert.{CertEntry}
use nas_conn_plus.Cert.Files.{
  Reader, slurp, is_usable, find_entry, find_first, fallback_name, any_name, chosen,
  resolve_cert_files_with,
}

-- An entry for the name, with both files.
abbrev pub IsFor : Str → CertEntry → Type 0
IsFor name e = (e.host ≡ name) × (e.cert ≢ []) × (e.key ≢ [])

abbrev pub NoneFor : Str → List CertEntry → Type 0
NoneFor name es = All (λ e. ¬ IsFor name e) es

-- The files of the first entry for the name.
abbrev pub Named : Str → List CertEntry → Str × Str → Type 0
Named name es files =
    (before : List CertEntry) × (e : CertEntry) × (after : List CertEntry) × (es
      ≡ before ++ (e ∷ after))
    × NoneFor name before
    × IsFor name e
    × (files ≡ (e.cert, e.key))

IsFor-iff :
    (name : Str) (e : CertEntry) → ((str_beq e.host name && is_usable e) ≡ true) ↔ IsFor name e
unfolding is_usable
IsFor-iff name e = ground (arith, str_beq_iff e.host name)

find_entry-none : (name : Str) (es : List CertEntry) → (find_entry name es ≡ none) ↔ NoneFor name es
unfolding find_entry
find_entry-none name [] = (λ h. tt, λ h. refl)
find_entry-none name (e ∷ es) = elim (Bool-cases (str_beq e.host name && is_usable e)) [
  | inl yes' ↦ rw (yes', find_entry) (λ h. cc, λ h. absurd (h.0 ((IsFor-iff name e).0 yes')))
  | inr no' ↦
      rw (no', find_entry)
        (
          λ h. (λ f. ground (arith, no', (IsFor-iff name e).1 f), (find_entry-none name es).0 h),
          λ h. (find_entry-none name es).1 h.1,
        )
]

find_entry-some :
    (name : Str) (es : List CertEntry) (files : Str × Str)
    → find_entry name es ≡ some files
    → Named name es files
unfolding find_entry
find_entry-some name [] files h = cc
find_entry-some name (e ∷ es) files h = elim (Bool-cases (str_beq e.host name && is_usable e)) [
  | inl yes' ↦ ([], e, es, refl, tt, (IsFor-iff name e).0 yes', ground (arith, yes', h))
  | inr no' ↦
      let (before, x, after, same, clear, good, files_are) =
        find_entry-some name es files (ground (arith, no', h)) in
      (
        e ∷ before,
        x,
        after,
        ap (λ (ys : List CertEntry). e ∷ ys) same,
        (λ f. ground (arith, no', (IsFor-iff name e).1 f), clear),
        good,
        files_are,
      )
]

-- The certificate files that are chosen from a configuration are those of its first entry for the host,
-- or, if it has none, of the first for "fallback", or, if it has none of either, of the first for "*";
-- and there is an error exactly if there is no entry for any of them. An entry without a file for the
-- certificate or the key does not count.
pub resolve_cert_files_with-Named :
    (r : Reader) (d : Disk) (cfg_path host text : Str) (es : List CertEntry)
    → slurp d cfg_path ≡ ok text
    → r.entries_of text ≡ some es
    → ((files : Str × Str) × (resolve_cert_files_with r d cfg_path host ≡ ok files)
        × (Named host es files
            ⊎ ((NoneFor host es × Named fallback_name es files)
                ⊎ (NoneFor host es × NoneFor fallback_name es × Named any_name es files))))
      ⊎ ((¬ ((files : Str × Str) × (resolve_cert_files_with r d cfg_path host ≡ ok files)))
          × NoneFor host es
          × NoneFor fallback_name es
          × NoneFor any_name es)
unfolding resolve_cert_files_with chosen find_first
resolve_cert_files_with-Named r d cfg_path host text [] got parsed =
    inr (λ (f, x). ground (arith, got, parsed), tt, tt, tt)
resolve_cert_files_with-Named r d cfg_path host text (e ∷ es) got parsed =
    elim (Option-cases (find_entry host (e ∷ es))) [
      | inr (f, at) ↦
          inl (f, ground (arith, got, parsed, at), inl (find_entry-some host (e ∷ es) f at))
      | inl no_host ↦
          let none_host = (find_entry-none host (e ∷ es)).0 no_host in
          elim (Option-cases (find_entry fallback_name (e ∷ es))) [
            | inr (f, at) ↦ inl (
              f,
              ground (arith, got, parsed, no_host, at),
              inr (inl (none_host, find_entry-some fallback_name (e ∷ es) f at)),
            )
            | inl no_fallback ↦
                let none_fallback = (find_entry-none fallback_name (e ∷ es)).0 no_fallback in
                elim (Option-cases (find_entry any_name (e ∷ es))) [
                  | inr (f, at) ↦ inl (
                    f,
                    ground (arith, got, parsed, no_host, no_fallback, at),
                    inr (inr (none_host, none_fallback, find_entry-some any_name (e ∷ es) f at)),
                  )
                  | inl no_any ↦ inr (
                    λ (f, x). ground (arith, got, parsed, no_host, no_fallback, no_any),
                    none_host,
                    none_fallback,
                    (find_entry-none any_name (e ∷ es)).0 no_any,
                  )
                ]
          ]
    ]
