-- ===== src/Config/File/Again.antt =====
-- Loading the settings keeps every file, and loading them again changes nothing.
use nas_conn_plus.Base.{
  ℕ, Str, str_eq, str_beq, str_beq_iff, is_empty, first_bytes, ◌≡◌, refl, ◌⊎◌, inl, inr, Option,
  none, some, not, ◌&&◌, get, get-put, Result, ok, err, Option-cases, Bool-cases, arith,
}
use nas_conn_plus.Files.{Disk, missing, read_file, stat}
use nas_conn_plus.Config.{Config}
use nas_conn_plus.Config.Paths.{clean, dir, dot}
use nas_conn_plus.Config.Load.{LoadError, write_failed}
use nas_conn_plus.Config.File.{
  write_file, after_write, make_dir, default_config_text, create_default, obtain, check_path,
  decode, load_config, load_config_file, ensure_default_config,
}

-- Every file of the one disk is on the other, with the same text.
abbrev pub Keeps : Disk → Disk → Type 0
Keeps d e = (q text : Str) → get q d.files ≡ some text → get q e.files ≡ some text

Keeps-refl : (d : Disk) → Keeps d d
Keeps-refl d q text at = at

write_file-Keeps :
    (p text : Str) (d : Disk) → get p d.files ≡ none → Keeps d (write_file p text d).1
unfolding write_file
write_file-Keeps p text d absent q old at = elim (Option-cases (d.torn p)) [
  | inl whole ↦ ground (arith, get-put p q text d.files, str_beq_iff p q)
  | inr (n, stops) ↦ ground (arith, get-put p q (first_bytes n text) d.files, str_beq_iff p q)
]

after_write-disk : (s : Str) (w : Result LoadError (Unit {0}) × Disk) → (after_write s w).1 ≡ w.1
unfolding after_write
after_write-disk s (ok u, d) = refl
after_write-disk s (err e, d) = refl

create_default-Keeps : (p : Str) (d : Disk) → get p d.files ≡ none → Keeps d (create_default p d).1
unfolding create_default
create_default-Keeps p d absent q old at = ground (
  arith,
  after_write-disk default_config_text (write_file p default_config_text d),
  write_file-Keeps p default_config_text d absent q old at,
)

read_file-missing : (d : Disk) (p : Str) → read_file d p ≡ missing → get p d.files ≡ none
unfolding read_file
read_file-missing d p e = ground arith

obtain-Keeps : (p : Str) (d : Disk) → Keeps d (obtain p d).1
unfolding obtain
obtain-Keeps p d q old at = ground (
  arith,
  read_file-missing d p,
  λ (a : get p d.files ≡ none). create_default-Keeps p d a q old at,
)

load_config-Keeps :
    (u : Str → Option Config) (path : Str) (d : Disk) → Keeps d (load_config u path d).1
unfolding load_config
load_config-Keeps u path d q old at = ground (arith, obtain-Keeps (clean path) d q old at)

load_config_file-Keeps :
    (u : Str → Option Config) (path : Str) (d : Disk) → Keeps d (load_config_file u path d).1
unfolding load_config_file
load_config_file-Keeps u path d q old at =
    ground (arith, load_config-Keeps u (clean path) d q old at)

stat-missing : (d : Disk) (p : Str) → stat d p ≡ missing → get p d.files ≡ none
unfolding stat
stat-missing d p e = ground arith

ensure_default_config-Keeps : (path : Str) (d : Disk) → Keeps d (ensure_default_config path d).1
unfolding ensure_default_config
ensure_default_config-Keeps path d q old at = ground (
  arith,
  stat-missing d (clean path),
  after_write-disk (clean path) (write_file (clean path) default_config_text d),
  λ (a : get (clean path) d.files ≡ none).
      write_file-Keeps (clean path) default_config_text d a q old at,
)

-- Reading the settings, by `LoadConfig` or by `LoadConfigFile`, and creating the default file neither
-- loses nor changes any file that is there, on success and on every error.
pub load_config-Keeps_all :
    (u : Str → Option Config) (path : Str) (d : Disk)
    → Keeps d (load_config u path d).1
      × Keeps d (load_config_file u path d).1
      × Keeps d (ensure_default_config path d).1
load_config-Keeps_all u path d = (
  load_config-Keeps u path d,
  load_config_file-Keeps u path d,
  ensure_default_config-Keeps path d,
)

-- The write of the default file stops half-way: the load reports it, and the next load reads what is left.
pub record Torn (u : Str → Option Config) (path : Str) (d : Disk) : Type 0 where
  pub n : ℕ
  pub stops : d.torn (clean path) ≡ some n
  pub absent : get (clean path) d.files ≡ none
  pub first : (load_config u path d).0 ≡ err (write_failed (clean path))
  pub next :
      load_config u path (load_config u path d).1
      ≡ (decode u (clean path) (ok (first_bytes n default_config_text)), (load_config u path d).1)

-- How the text that is parsed was obtained, seen from a second time.
abbrev Again : Str → Disk → Type 0
Again p d =
    (obtain p (obtain p d).1 ≡ obtain p d)
    ⊎ ((n : ℕ) × (d.torn p ≡ some n)
        × (get p d.files ≡ none)
        × ((obtain p d).0 ≡ err (write_failed p))
        × (obtain p (obtain p d).1 ≡ (ok (first_bytes n default_config_text), (obtain p d).1)))

obtain-missing : (p : Str) (d : Disk) → read_file d p ≡ missing → obtain p d ≡ create_default p d
unfolding obtain
obtain-missing p d e = ground arith

create_default-Again :
    (p : Str) (d : Disk) → d.hidden p ≡ none → d.denied p ≡ none → get p d.files ≡ none → Again p d
unfolding obtain read_file create_default write_file after_write make_dir
create_default-Again p d seen readable absent = elim (Option-cases (d.torn p)) [
  | inl whole ↦ inl (ground (arith, get-put p p default_config_text d.files, str_beq_iff p p))
  | inr (n, stops) ↦
      let left = first_bytes n default_config_text in
      elim (Option-cases (d.write_fault p)) [
        | inr (e, closed) ↦ inl (ground arith)
        | inl opens ↦ elim (Bool-cases (not (is_empty (dir p)) && not (str_beq (dir p) dot))) [
          | inr top ↦ inr (
            n,
            stops,
            absent,
            ground arith,
            ground (arith, get-put p p left d.files, str_beq_iff p p),
          )
          | inl below ↦ elim (Option-cases (d.mkdir_fault (dir p))) [
            | inr (e, no_dir) ↦ inl (ground arith)
            | inl made ↦ inr (
              n,
              stops,
              absent,
              ground arith,
              ground (arith, get-put p p left d.files, str_beq_iff p p),
            )
          ]
        ]
      ]
]

obtain-Again : (p : Str) (d : Disk) → d.denied p ≡ none → Again p d
unfolding obtain read_file
obtain-Again p d readable = elim (Option-cases (d.hidden p)) [
  | inr (e, hidden) ↦ inl (ground arith)
  | inl seen ↦ elim (Option-cases (get p d.files)) [
    | inr (text, there) ↦ inl (ground arith)
    | inl absent ↦ create_default-Again p d seen readable absent
  ]
]

-- When a file that is there can be read, loading the settings a second time answers as the first time did and
-- leaves the disk as the first time left it, also after the default file has been created and after an error;
-- unless the write of the default file stopped half-way: then the first load reports it, and the second parses
-- the part of the default text that was written.
pub load_config-again :
    (u : Str → Option Config) (path : Str) (d : Disk)
    → d.denied (clean path) ≡ none
    → (load_config u path (load_config u path d).1 ≡ load_config u path d) ⊎ Torn u path d
unfolding load_config decode
load_config-again u path d readable = elim (Option-cases (check_path path)) [
  | inr (e, bad) ↦ inl (ground arith)
  | inl fine ↦ elim (obtain-Again (clean path) d readable) [
    | inl same ↦ inl (ground (arith, same))
    | inr (n, stops, absent, first, next) ↦ inr (record {
      n = n;
      stops = stops;
      absent = absent;
      first = ground (arith, first);
      next = ground (arith, next);
    })
  ]
]
