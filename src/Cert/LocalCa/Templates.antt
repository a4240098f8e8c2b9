-- ===== src/Cert/LocalCa/Templates.antt =====
-- localca.go: what is asked of the certificates.
use nas_conn_plus.Base.{
  ℕ, ◌+◌, ◌*◌, ℤ, pos, sub_ℕ, Str, codes, str_beq, str_eq, is_empty, List, [], ◌∷◌, ◌++◌, Option,
  none, some, Bool, true, false, not, ◌&&◌, mem, if◌then◌else◌,
}

-- The fields of `x509.Certificate` that are set and that differ. Times are in nanoseconds.
pub record Template : Type 0 where
  pub serial_number : ℕ
  pub common_name : Str
  pub not_before : ℤ
  pub not_after : ℤ
  pub is_ca : Bool
  pub dns_names : List Str
  pub ip_addresses : List Str

abbrev pub hour : ℕ
hour = 3600000000000

abbrev pub days : ℕ → ℕ
days n = n * (24 * hour)

-- The template of `loadOrCreateLocalCA`: ten years. The clock is read for either end.
unfoldable pub ca_template : ℕ → ℕ → ℕ → Template
ca_template began now number = record {
  serial_number = number;
  common_name = codes "nasconn+ Local CA";
  not_before = sub_ℕ began hour;
  not_after = pos (now + days 3650);
  is_ca = true;
  dns_names = [];
  ip_addresses = [];
}

-- The loop over the candidates: the addresses have one form each, so `Equal` is equality.
add_ips : List (Option Str) → List Str → List Str
unfolding mem
add_ips [] ips = ips
add_ips (none ∷ rest) ips = add_ips rest ips
add_ips (some ip ∷ rest) ips = add_ips rest (if mem ip ips then ips else ips ++ (ip ∷ []))

abbrev pub localhost : Str
localhost = codes "localhost"

dns_names_of : Option Str → Str → List Str
unfolding str_beq
dns_names_of (some ip) host = localhost ∷ []
dns_names_of none host =
    if not (is_empty host) && not (str_beq host localhost)
    then localhost ∷ host ∷ []
    else localhost ∷ []

-- `buildLocalLeafTemplate`: 825 days.
unfoldable pub leaf_template : (Str → Option Str) → ℕ → ℕ → ℕ → Str → Template
unfolding add_ips dns_names_of
leaf_template parse_ip began now number host = record {
  serial_number = number;
  common_name = host;
  not_before = sub_ℕ began hour;
  not_after = pos (now + days 825);
  is_ca = false;
  dns_names = dns_names_of (parse_ip host) host;
  ip_addresses =
      add_ips (parse_ip host ∷ parse_ip (codes "127.0.0.1") ∷ parse_ip (codes "::1") ∷ []) [];
}
