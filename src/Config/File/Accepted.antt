-- ===== src/Config/File/Accepted.antt =====
-- What `LoadConfigFile` returns was accepted.
use nas_conn_plus.Base.{
  Str, str_beq, ◌≡◌, inl, inr, Option, Result, ok, err, ◌||◌, is_empty, Bool-cases, Option-cases,
  arith,
}
use nas_conn_plus.Files.{Disk, stat}
use nas_conn_plus.Config.{Config}
use nas_conn_plus.Config.Paths.{clean, dot}
use nas_conn_plus.Config.Load.{LoadError, finish}
use nas_conn_plus.Config.File.{obtain, check_path, decode, load_config, load_config_file}
use nas_conn_plus.Config.File.Pure.{Answer-cases}

-- `LoadConfig` has accepted what it returns.
decode-finish :
    (u : Str → Option Config) (p : Str) (text : Result LoadError Str) (cfg : Config)
    → decode u p text ≡ ok cfg
    → (raw : Config) × (finish raw ≡ ok cfg)
unfolding decode
decode-finish u p (err e) cfg h = cc
decode-finish u p (ok text) cfg h = elim (Option-cases (u text)) [
  | inl bad ↦ ground (arith, bad)
  | inr (raw, e) ↦ (raw, ground (arith, e))
]

load_config-finish :
    (u : Str → Option Config) (path : Str) (d : Disk) (cfg : Config)
    → (load_config u path d).0 ≡ ok cfg
    → (raw : Config) × (finish raw ≡ ok cfg)
unfolding load_config
load_config-finish u path d cfg h = elim (Option-cases (check_path path)) [
  | inl fine ↦ decode-finish u (clean path) (obtain (clean path) d).0 cfg (ground (arith, fine))
  | inr (e, bad) ↦ ground (arith, bad)
]

pub load_config_file-finish :
    (u : Str → Option Config) (path : Str) (d : Disk) (cfg : Config)
    → (load_config_file u path d).0 ≡ ok cfg
    → (raw : Config) × (finish raw ≡ ok cfg)
unfolding load_config_file
load_config_file-finish u path d cfg h = elim (Bool-cases (is_empty path || str_beq path dot)) [
  | inl bad ↦ ground (arith, bad)
  | inr fine ↦ elim (Answer-cases (stat d (clean path))) [
    | inl (text, e) ↦ load_config-finish u (clean path) d cfg (ground (arith, fine, e))
    | inr (inl e) ↦ ground (arith, fine, e)
    | inr (inr (x, e)) ↦ ground (arith, fine, e)
  ]
]
