-- ===== src/Cert/Trust/Retry.antt =====
-- An installation that failed half-way, and the next attempt.
use nas_conn_plus.Base.{
  Str, codes, str_beq, str_beq_iff, str_eq, ◌≡◌, ◌≢◌, refl, ◌++◌, none, some, false, get-put, ok,
  arith,
}
use nas_conn_plus.Files.{read_file}
use nas_conn_plus.Config.Paths.{clean, dir}
use nas_conn_plus.Cert.{Manager, CertError}
use nas_conn_plus.Cert.Files.{Reader, slurp}
use nas_conn_plus.Cert.LocalCa.{World, write_at}
use nas_conn_plus.Cert.Trust.{
  System, linux, linux_destination, probe_local_ca_trust, probe_on, same_file,
  update_linux_ca_certificates, install_local_ca_trust, install_linux, install_on,
  ca_file_fingerprint, trust_after, remember, ensure_local_ca_trusted,
}

destination-clean : clean linux_destination ≡ linux_destination
unfolding linux_destination clean str_beq
destination-clean = refl

-- What stands in the way of nothing but the tool.
pub record HalfWay (s : System) (ca_path text : Str) (w : World) : Type 0 where
  pub on_linux : s.os ≡ linux
  pub current : slurp w.disk ca_path ≡ ok text
  pub not_trusted : probe_local_ca_trust s ca_path w.disk ≡ ok false
  pub mkdir_ok : w.disk.mkdir_fault (dir linux_destination) ≡ none
  pub write_ok : w.disk.write_fault linux_destination ≡ none
  pub whole : w.disk.torn linux_destination ≡ none
  pub seen : w.disk.hidden linux_destination ≡ none
  pub readable : w.disk.denied linux_destination ≡ none

slurp-write_at :
    (text path : Str) (w : World)
    → slurp w.disk path ≡ ok text
    → slurp (write_at linux_destination text w).disk path ≡ ok text
unfolding slurp read_file write_at
slurp-write_at text path w e =
    ground (arith, get-put (clean linux_destination) (clean path) text w.disk.files)

slurp-destination :
    (text : Str) (w : World)
    → w.disk.hidden linux_destination ≡ none
    → w.disk.denied linux_destination ≡ none
    → slurp (write_at linux_destination text w).disk linux_destination ≡ ok text
unfolding slurp read_file write_at
slurp-destination text w seen readable = ground (
  arith,
  destination-clean,
  get-put (clean linux_destination) (clean linux_destination) text w.disk.files,
  str_beq_iff (clean linux_destination) (clean linux_destination),
)

module _ (r : Reader) (s : System) (ca_path text : Str) (e : CertError) (m : Manager) (w : World)
    (h : HalfWay s ca_path text w) where
  abbrev print : Str
  print = codes "local-ca:sha256:" ++ r.full_sum text

  abbrev copied : World
  copied = write_at linux_destination text w

  first_attempt :
      m.trusted_ca ≢ print
      → update_linux_ca_certificates s ≡ some e
      → ensure_local_ca_trusted r s ca_path m w ≡ (some e, m, copied)
  unfolding ensure_local_ca_trusted ca_file_fingerprint trust_after remember install_local_ca_trust
      install_on install_linux
  first_attempt new fails = ground (
    arith,
    h.on_linux,
    h.current,
    h.not_trusted,
    h.mkdir_ok,
    h.write_ok,
    h.whole,
    str_beq_iff m.trusted_ca print,
  )

  second_attempt :
      m.trusted_ca ≢ print
      → ensure_local_ca_trusted r s ca_path m copied
        ≡ (none, record m { trusted_ca = print }, copied)
  unfolding ensure_local_ca_trusted ca_file_fingerprint trust_after probe_local_ca_trust probe_on
      same_file
  second_attempt new = ground (
    arith,
    h.on_linux,
    slurp-write_at text ca_path w h.current,
    slurp-destination text w h.seen h.readable,
    str_beq_iff m.trusted_ca print,
    str_beq_iff text text,
  )

  -- On Linux, when the copy of a CA that is not yet trusted can be written, and then
  -- `update-ca-certificates` fails, the setup reports that error, and the next one reports success and
  -- takes the CA for trusted, though the tool has not run.
  pub ensure_local_ca_trusted-retry :
      m.trusted_ca ≢ print
      → update_linux_ca_certificates s ≡ some e
      → (m' : Manager) × (w' : World) × (ensure_local_ca_trusted r s ca_path m w ≡ (some e, m', w'))
        × (ensure_local_ca_trusted r s ca_path m' w' ≡ (none, record m { trusted_ca = print }, w'))
  ensure_local_ca_trusted-retry new fails = (m, copied, first_attempt new fails, second_attempt new)
