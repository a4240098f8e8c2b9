-- ===== src/Cert/Trust.antt =====
-- localca.go: the CA in the system's trust store.
pub mod Retry
use nas_conn_plus.Base.{
  Str, codes, str_beq, str_eq, is_empty, first_bytes, List, [], ◌∷◌, ◌++◌, Option, none, some, Bool,
  true, false, ◌&&◌, put, Result, ok, err, if◌then◌else◌,
}
use nas_conn_plus.Files.{Disk}
use nas_conn_plus.Config.Paths.{clean, dir, join_path}
use nas_conn_plus.Cert.{
  Manager, CertError, fingerprint_failed, unsupported_os, no_tool, tool_failed, no_cert_dir,
  write_failed,
}
use nas_conn_plus.Cert.Files.{Reader, slurp, has_file}
use nas_conn_plus.Cert.LocalCa.{World, write_at, ca_cert_file}

-- `runtime.GOOS`.
pub data Os : Type 0 where
  darwin linux : Os
  other : Str → Os

-- The system: its name, the commands that are found, what a command answers (`none` is success), and the
-- home directory.
pub record System : Type 0 where
  pub os : Os
  pub look_path : Str → Bool
  pub run : Str → List Str → Option Str
  pub home : Option Str

-- Where Linux keeps additional CAs.
unfoldable pub linux_destination : Str
unfolding clean
linux_destination = clean (codes "/usr/local/share/ca-certificates/" ++ ca_cert_file)

abbrev is_ok : Option Str → Bool
is_ok none = true
is_ok (some e) = false

abbrev pub security : Str
security = codes "security"

abbrev pub update_tool : Str
update_tool = codes "update-ca-certificates"

-- The case of Linux: the installed copy is the current file.
same_file : Result CertError Str → Result CertError Str → Result CertError Bool
unfolding str_beq
same_file (err e) current = ok false
same_file (ok installed) (err e) = err e
same_file (ok installed) (ok current) = ok (str_beq installed current)

-- `probeLocalCATrust`.
probe_on : Os → System → Str → Disk → Result CertError Bool
unfolding same_file
probe_on darwin s ca_path d =
    if s.look_path security
    then ok (
        is_ok (
          s.run security
            (codes "verify-cert" ∷ codes "-c" ∷ ca_path ∷ codes "-p" ∷ codes "ssl" ∷ [])))
    else err (no_tool security)
probe_on linux s ca_path d = same_file (slurp d linux_destination) (slurp d ca_path)
probe_on (other name) s ca_path d = err (unsupported_os name)

unfoldable pub probe_local_ca_trust : System → Str → Disk → Result CertError Bool
unfolding probe_on
probe_local_ca_trust s ca_path d = probe_on s.os s ca_path d

-- `updateLinuxCACertificates`.
unfoldable pub update_linux_ca_certificates : System → Option CertError
update_linux_ca_certificates s =
    if s.look_path update_tool
    then (elim (s.run update_tool []) [ none ↦ none | some e ↦ some (tool_failed e) ])
    else some (no_tool update_tool)

keychain_args : Bool → Str → Str → List Str
keychain_args there keychain ca_path =
    codes "add-trusted-cert"
    ∷ codes "-r"
    ∷ codes "trustRoot"
    ∷ codes "-p"
    ∷ codes "ssl"
    ∷ (if there then codes "-k" ∷ keychain ∷ ca_path ∷ [] else ca_path ∷ [])

install_darwin : System → Str → Disk → Option CertError
unfolding keychain_args join_path
install_darwin s ca_path d = elim s.home [
  | none ↦ some (tool_failed (codes "home"))
  | some home ↦
      let keychain = join_path home (codes "Library/Keychains/login.keychain-db") in
      elim (s.run security (keychain_args (has_file d keychain) keychain ca_path)) [
        | none ↦ none
        | some e ↦ some (tool_failed e)
      ]
]

-- The copy is written before the tool is run.
install_linux : System → Str → World → Option CertError × World
unfolding dir write_at first_bytes
install_linux s ca_path w = elim (slurp w.disk ca_path) [
  | err e ↦ (some e, w)
  | ok text ↦ elim (w.disk.mkdir_fault (dir linux_destination)) [
    | some e ↦ (some (no_cert_dir (dir linux_destination)), w)
    | none ↦ elim (w.disk.write_fault linux_destination) [
      | some e ↦ (some (write_failed linux_destination), w)
      | none ↦ elim (w.disk.torn linux_destination) [
        | some n ↦ (
          some (write_failed linux_destination),
          write_at linux_destination (first_bytes n text) w,
        )
        | none ↦ (update_linux_ca_certificates s, write_at linux_destination text w)
      ]
    ]
  ]
]

install_on : Os → System → Str → World → Option CertError × World
install_on darwin s ca_path w = (install_darwin s ca_path w.disk, w)
install_on linux s ca_path w = install_linux s ca_path w
install_on (other name) s ca_path w = (some (unsupported_os name), w)

-- `installLocalCATrust`.
unfoldable pub install_local_ca_trust : System → Str → World → Option CertError × World
unfolding install_on install_linux install_darwin
install_local_ca_trust s ca_path w = install_on s.os s ca_path w

-- `caFileFingerprint`.
unfoldable pub ca_file_fingerprint : Reader → Str → Disk → Result CertError Str
ca_file_fingerprint r path d = elim (slurp d path) [
  | err e ↦ err (fingerprint_failed e)
  | ok text ↦ ok (codes "local-ca:sha256:" ++ r.full_sum text)
]

remember : Str → Option CertError × World → Manager → Option CertError × Manager × World
remember print (some e, w) m = (some e, m, w)
remember print (none, w) m = (none, record m { trusted_ca = print }, w)

trust_after :
    Str
    → System
    → Str
    → Result CertError Bool
    → Manager
    → World
    → Option CertError × Manager × World
unfolding remember
trust_after print s ca_path (err e) m w = (some e, m, w)
trust_after print s ca_path (ok true) m w = (none, record m { trusted_ca = print }, w)
trust_after print s ca_path (ok false) m w = remember print (install_local_ca_trust s ca_path w) m

-- `ensureLocalCATrusted`: a CA that is known is not probed again.
unfoldable pub ensure_local_ca_trusted :
    Reader → System → Str → Manager → World → Option CertError × Manager × World
unfolding trust_after str_beq
ensure_local_ca_trusted r s ca_path m w = elim (ca_file_fingerprint r ca_path w.disk) [
  | err e ↦ (some e, m, w)
  | ok print ↦
      if str_beq m.trusted_ca print
      then (none, m, w)
      else trust_after print s ca_path (probe_local_ca_trust s ca_path w.disk) m w
]
