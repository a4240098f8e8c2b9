-- ===== src/Cert/Refresh/Tests.antt =====
-- The theorems on `Refresh`, applied.
use nas_conn_plus.Base.{codes, str_eq, str_beq, has_prefix, split, ◌≡◌, ◌≢◌, refl, ◌∷◌, none, get}
use nas_conn_plus.Files.{read_file, stat}
use nas_conn_plus.Config.Paths.{clean}
use nas_conn_plus.Cert.{new_manager, set_auto_trust}
use nas_conn_plus.Cert.Files.{
  slurp, find_entry, find_first, load_key_pair, resolve_cert_files_with, load_all_cert_entries,
  cert_fingerprint, read_plain, has_file,
}
use nas_conn_plus.Cert.LocalCa.{World}
use nas_conn_plus.Cert.Refresh.{refresh, from_config, load_configured}
use nas_conn_plus.Cert.Refresh.Serves.{Loaded, Stays, refresh-Loaded}
use nas_conn_plus.Cert.Tests.{crypto, disk, world, broken_tool, manager}

manager-Loaded : Loaded manager
unfolding set_auto_trust new_manager
manager-Loaded = λ h x. h refl

refresh-Loaded_example :
    Loaded (refresh crypto broken_tool manager world).1
    × Stays manager (refresh crypto broken_tool manager world).1
    × ((refresh crypto broken_tool manager world).0 ≡ none
        → (refresh crypto broken_tool manager world).1.cur ≢ none)
refresh-Loaded_example = refresh-Loaded crypto broken_tool manager world manager-Loaded

abbrev pub with_pair : World
with_pair = record world {
  disk = record disk {
    files = (codes "/c/any.crt", codes "crt") ∷ (codes "/c/any.key", codes "key") ∷ disk.files;
  };
}

first_refresh : (refresh crypto broken_tool manager with_pair).0 ≡ none
unfolding refresh from_config load_configured resolve_cert_files_with load_all_cert_entries
    cert_fingerprint load_key_pair read_plain has_file stat find_first find_entry slurp read_file
    clean str_beq has_prefix split get set_auto_trust new_manager
first_refresh = refl
