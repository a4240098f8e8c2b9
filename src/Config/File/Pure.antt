-- ===== src/Config/File/Pure.antt =====
-- `LoadConfigFile` reads only.
use nas_conn_plus.Base.{Str, ◌≡◌, ◌⊎◌, inl, inr, refl, ap, ◌∙◌, Option, str_eq, arith}
use nas_conn_plus.Files.{Disk, Answer, found, missing, fault, read_file, stat}
use nas_conn_plus.Config.{Config}
use nas_conn_plus.Config.Paths.{clean}
use nas_conn_plus.Config.Paths.Normal.{clean-clean}
use nas_conn_plus.Config.File.{obtain, load_config, load_config_file}

obtain-found : (d : Disk) (p text : Str) → stat d p ≡ found text → (obtain p d).1 ≡ d
unfolding obtain read_file stat
obtain-found d p text e = ground arith

load_config-found :
    (u : Str → Option Config) (d : Disk) (p text : Str)
    → stat d (clean p) ≡ found text
    → (load_config u p d).1 ≡ d
unfolding load_config
load_config-found u d p text e = ground (arith, obtain-found d (clean p) text e)

pub Answer-cases :
    (a : Answer) → ((text : Str) × (a ≡ found text)) ⊎ ((a ≡ missing) ⊎ ((e : Str) × (a ≡ fault e)))
Answer-cases (found text) = inl (text, refl)
Answer-cases missing = inr (inl refl)
Answer-cases (fault e) = inr (inr (e, refl))

-- Loading the settings by `LoadConfigFile` leaves the disk as it is, whatever is there and whatever fails: no
-- file is created.
pub load_config_file-disk :
    (u : Str → Option Config) (path : Str) (d : Disk) → (load_config_file u path d).1 ≡ d
unfolding load_config_file
load_config_file-disk u path d = elim (Answer-cases (stat d (clean path))) [
  | inl (text, e) ↦
      ground
        (arith, e, load_config-found u d (clean path) text (ap (stat d) (clean-clean path) ∙ e))
  | inr (inl e) ↦ ground (arith, e)
  | inr (inr (x, e)) ↦ ground (arith, e)
]
