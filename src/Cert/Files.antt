-- ===== src/Cert/Files.antt =====
-- cert.go: which files hold the certificate.
pub mod Choice
use nas_conn_plus.Base.{
  ℤ, Str, codes, str_beq, str_eq, is_empty, itoa, List, [], ◌∷◌, ◌++◌, Option, none, some, Bool,
  true, false, not, ◌&&◌, ◌||◌, Map, put, Result, ok, err, if◌then◌else◌,
}
use nas_conn_plus.Files.{Disk, found, missing, fault, read_file, stat}
use nas_conn_plus.Config.Paths.{clean}
use nas_conn_plus.Cert.{
  CertEntry, KeyPair, CertError, unreadable, bad_key_pair, host_not_found, bad_format,
}

-- What the standard library makes of the files: `json.Unmarshal` into a list of entries,
-- `tls.X509KeyPair`, the first eight bytes of `sha256.Sum256` in hexadecimal, all of them, and
-- `FileInfo.ModTime` in nanoseconds.
pub record Reader : Type 0 where
  pub entries_of : Str → Option (List CertEntry)
  pub key_pair : Str → Str → Option KeyPair
  pub short_sum : Str → Str
  pub full_sum : Str → Str
  pub modified : Disk → Str → ℤ

-- `os.ReadFile(filepath.Clean(path))`.
unfoldable pub slurp : Disk → Str → Result CertError Str
slurp d path = elim (read_file d (clean path)) [
  | found text ↦ ok text
  | missing ↦ err (unreadable path)
  | fault e ↦ err (unreadable path)
]

-- A file that `tls.LoadX509KeyPair` reads. A path names the file of its clean form.
unfoldable pub read_plain : Disk → Str → Option Str
read_plain d path = elim (read_file d (clean path)) [
  | found text ↦ some text
  | missing ↦ none
  | fault e ↦ none
]

unfoldable pub has_file : Disk → Str → Bool
has_file d path = elim (stat d (clean path)) [
  | found text ↦ true
  | missing ↦ false
  | fault e ↦ false
]

is_usable : CertEntry → Bool
is_usable e = not (is_empty e.cert) && not (is_empty e.key)

-- The inner loop of `resolveCertFilesWith`.
unfoldable pub find_entry : Str → List CertEntry → Option (Str × Str)
unfolding is_usable
find_entry want [] = none
find_entry want (e ∷ es) =
    if str_beq e.host want && is_usable e then some (e.cert, e.key) else find_entry want es

-- The outer loop.
unfoldable pub find_first : List Str → List CertEntry → Option (Str × Str)
find_first [] es = none
find_first (want ∷ wants) es = elim (find_entry want es) [
  | some files ↦ some files
  | none ↦ find_first wants es
]

-- Names that are no host: they are served as defaults, never by server name.
abbrev pub fallback_name : Str
fallback_name = codes "fallback"

abbrev pub any_name : Str
any_name = codes "*"

module _ (r : Reader) where
  open r use {entries_of, key_pair, short_sum, full_sum, modified}

  both : Option Str → Option Str → Option KeyPair
  both none k = none
  both (some c) none = none
  both (some c) (some k) = key_pair c k

  -- `tls.LoadX509KeyPair`.
  unfoldable pub load_key_pair : Disk → Str → Str → Option KeyPair
  unfolding both
  load_key_pair d cert key = both (read_plain d cert) (read_plain d key)

  chosen : Str → Str → Option (List CertEntry) → Result CertError (Str × Str)
  chosen cfg_path host none = err (bad_format cfg_path)
  chosen cfg_path host (some []) = err (bad_format cfg_path)
  chosen cfg_path host (some (e ∷ es)) =
      elim (find_first (host ∷ fallback_name ∷ any_name ∷ []) (e ∷ es)) [
        | some files ↦ ok files
        | none ↦ err (host_not_found host cfg_path)
      ]

  -- `resolveCertFilesWith`.
  unfoldable pub resolve_cert_files_with : Disk → Str → Str → Result CertError (Str × Str)
  unfolding chosen
  resolve_cert_files_with d cfg_path host = elim (slurp d cfg_path) [
    | err e ↦ err e
    | ok text ↦ chosen cfg_path host (entries_of text)
  ]

  is_sni_entry : CertEntry → Bool
  unfolding is_usable str_beq
  is_sni_entry e =
      not (is_empty e.host)
      && (not (str_beq e.host fallback_name) && not (str_beq e.host any_name))
      && is_usable e

  -- The loop of `loadAllCertEntries`.
  unfoldable pub load_entries : Disk → List CertEntry → Map Str KeyPair → Map Str KeyPair
  unfolding is_sni_entry
  load_entries d [] m = m
  load_entries d (e ∷ es) m = load_entries d es (
      if is_sni_entry e
      then (elim (load_key_pair d e.cert e.key) [ none ↦ m | some kc ↦ put e.host kc m ])
      else m)

  swapped : Disk → Option (List CertEntry) → Map Str KeyPair → Map Str KeyPair
  swapped d none m = m
  swapped d (some []) m = m
  swapped d (some (e ∷ es)) m = load_entries d (e ∷ es) []

  -- `loadAllCertEntries`: the new map, or the old one if the file is of no use.
  unfoldable pub load_all_cert_entries : Disk → Str → Map Str KeyPair → Map Str KeyPair
  unfolding swapped
  load_all_cert_entries d cfg_path m = elim (slurp d cfg_path) [
    | err e ↦ m
    | ok text ↦ swapped d (entries_of text) m
  ]

  -- `certFingerprint`.
  unfoldable pub cert_fingerprint : Disk → Str → Str → Str
  unfolding itoa
  cert_fingerprint d cert key =
      let times = codes ":" ++ (itoa (modified d cert) ++ (codes ":" ++ itoa (modified d key))) in
      let start = codes "file:" ++ cert in
      if not (has_file d cert) || not (has_file d key)
      then start ++ (codes ":" ++ key)
      else (elim (slurp d cert) [
        | err e ↦ start ++ times
        | ok text ↦ start ++ (codes ":" ++ (short_sum text ++ times))
      ])
