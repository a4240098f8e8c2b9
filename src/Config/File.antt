-- ===== src/Config/File.antt =====
-- config.go: `DefaultConfigText`, `EnsureDefaultConfig`, `LoadConfigFile` and `LoadConfig`, on a store of
-- files.
pub mod Again
pub mod Pure
pub mod Accepted
use nas_conn_plus.Base.{
  ℕ, ℤ, pos, length, Str, codes, str_beq, str_eq, is_empty, contains, itoa, join, first_bytes, List,
  [], ◌∷◌, ◌++◌, map, Option, none, some, Bool, true, false, not, ◌&&◌, ◌||◌, Map, get, put, Result,
  ok, err, if◌then◌else◌,
}
use nas_conn_plus.Files.{Disk, found, missing, fault, read_file, stat}
use nas_conn_plus.Config.{Config, default_exclude_ports}
use nas_conn_plus.Config.Paths.{clean, dir, dot, dotdot}
use nas_conn_plus.Config.Load.{
  LoadError, invalid_path, traversal, read_failed, mkdir_failed, write_failed, parse_failed, finish,
}

-- `os.WriteFile`: a file that cannot be opened stays as it is, and a write that fails later leaves what it has
-- written.
unfoldable pub write_file : Str → Str → Disk → Result LoadError (Unit {0}) × Disk
unfolding first_bytes
write_file p text d = elim (d.write_fault p) [
  | some e ↦ (err (write_failed p), d)
  | none ↦ elim (d.torn p) [
    | some n ↦ (err (write_failed p), record d { files = put p (first_bytes n text) d.files })
    | none ↦ (ok tt, record d { files = put p text d.files })
  ]
]

-- `os.MkdirAll` under `if dir != "" && dir != "."`; directories without files leave no trace.
unfoldable pub make_dir : Str → Disk → Result LoadError (Unit {0})
unfolding str_beq
make_dir p d =
    if not (is_empty p) && not (str_beq p dot)
    then (elim (d.mkdir_fault p) [ none ↦ ok tt | some e ↦ err (mkdir_failed p) ])
    else ok tt

-- `json.Marshal` of the list of ports.
json_list : List ℤ → Str
unfolding join itoa
json_list ps = codes "[" ++ (join (codes ",") (map itoa ps) ++ codes "]")

line : Str → Str
line s = s ++ (10 ∷ [])

-- `DefaultConfigText`.
unfoldable pub default_config_text : Str
unfolding json_list line default_exclude_ports
default_config_text =
    let excl = json_list default_exclude_ports in
    line (codes "{")
    ++ (line (
          codes "  \"_comment\": \"relay.exclude / https_exclude omitted => built-in "
          ++ (itoa (pos (length default_exclude_ports))
              ++ codes
                  "-port deny list applies; set override_default_excludes:true to replace it entirely\","))
        ++ (line (codes "  \"cert_host\": \"nas.local\",")
            ++ (line (codes "  \"relay\": {")
                ++ (line (codes "    \"auto\": true,")
                    ++ (line (codes "    \"zero_copy\": true,")
                        ++ (line (codes "    \"exclude\": " ++ excl)
                            ++ (line (codes "  },")
                                ++ (line (codes "  \"https_auto\": true,")
                                    ++ (line (codes "  \"https_exclude\": " ++ excl)
                                        ++ line (codes "}"))))))))))

-- What a caller returns after a write: its error, or the answer.
unfoldable pub after_write : Str → Result LoadError (Unit {0}) × Disk → Result LoadError Str × Disk
after_write s (err e, d) = (err e, d)
after_write s (ok _, d) = (ok s, d)

-- What is written when there is no file.
unfoldable pub create_default : Str → Disk → Result LoadError Str × Disk
create_default p d = elim (make_dir (dir p) d) [
  | err e ↦ (err e, d)
  | ok _ ↦ after_write default_config_text (write_file p default_config_text d)
]

-- The text that `LoadConfig` parses.
unfoldable pub obtain : Str → Disk → Result LoadError Str × Disk
obtain p d = elim (read_file d p) [
  | found text ↦ (ok text, d)
  | missing ↦ create_default p d
  | fault e ↦ (err (read_failed e), d)
]

-- The guards of `LoadConfig` on the path.
unfoldable pub check_path : Str → Option LoadError
unfolding clean contains str_beq
check_path path =
    if contains dotdot path || contains dotdot (clean path)
    then some (traversal path)
    else if str_beq (clean path) dot || is_empty (clean path)
    then some (invalid_path path)
    else none

-- `unmarshal` is `json.Unmarshal` into a zero `Config`.
module _ (unmarshal : Str → Option Config) where
  unfoldable pub decode : Str → Result LoadError Str → Result LoadError Config
  decode p (err e) = err e
  decode p (ok text) = elim (unmarshal text) [ none ↦ err (parse_failed p) | some raw ↦ finish raw ]

  -- `LoadConfig`.
  unfoldable pub load_config : Str → Disk → Result LoadError Config × Disk
  load_config path d = elim (check_path path) [
    | some e ↦ (err e, d)
    | none ↦ let (text, d') = obtain (clean path) d in (decode (clean path) text, d')
  ]

  -- `LoadConfigFile`.
  unfoldable pub load_config_file : Str → Disk → Result LoadError Config × Disk
  unfolding str_beq
  load_config_file path d =
      if is_empty path || str_beq path dot
      then (err (invalid_path path), d)
      else (elim (stat d (clean path)) [
        | found _ ↦ load_config (clean path) d
        | missing ↦ (err (read_failed (codes "file does not exist")), d)
        | fault e ↦ (err (read_failed e), d)
      ])

-- `EnsureDefaultConfig`.
unfoldable pub ensure_default_config : Str → Disk → Result LoadError Str × Disk
ensure_default_config path d =
    let p = clean path in
    if is_empty path then (err (invalid_path path), d) else (elim (make_dir (dir p) d) [
      | err e ↦ (err e, d)
      | ok _ ↦ elim (stat d p) [
        | found _ ↦ (ok p, d)
        | fault e ↦ (err (read_failed e), d)
        | missing ↦ after_write p (write_file p default_config_text d)
      ]
    ])
