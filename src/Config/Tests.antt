-- ===== src/Config/Tests.antt =====
-- The theorems on the settings, applied to a file with one rule.
use nas_conn_plus.Base.{
  pos, Str, codes, str_beq, contains, has_prefix, [], ◌∷◌, ◌||◌, ◌&&◌, not, Option, none, some,
  true, false, mem, get, put, int_eq, ◌≡◌, refl, ◌↔◌, ◌⊎◌, ok,
}
use nas_conn_plus.Config.{Config, default_exclude_ports, union_ports}
use nas_conn_plus.Config.Policy.{is_excluded, is_relay_allowed, is_https_allowed}
use nas_conn_plus.Config.Load.{
  set_defaults, seal, validate, bad_port, bad_mode, check_rules, check_ports, check_paths, finish,
}
use nas_conn_plus.Files.{Disk}
use nas_conn_plus.Config.File.{load_config, load_config_file, ensure_default_config}
use nas_conn_plus.Config.File.Again.{Keeps, Torn, load_config-Keeps_all, load_config-again}
use nas_conn_plus.Config.Load.Spec.{IsAcceptable, IsBounded, IsMode}
use nas_conn_plus.Config.Load.Finish.{finish_accepts, finish-IsBounded}
use nas_conn_plus.Config.Load.Ports.{finish-is_excluded, finish-is_allowed, Admits}

abbrev pub settings : Config
settings = record {
  poll_seconds = pos 5;
  grace_polls = pos 2;
  cert_config_path = [];
  cert_host = codes "nas.local";
  fallback_self = some true;
  auto_trust_local_ca = some true;
  self_dir = codes "/etc/nasconnplus/tls";
  idle_seconds = pos 900;
  acme = record { enabled = false; domain = []; email = []; cache_dir = [] };
  hsts = record { enabled = false; max_age = pos 0; include_subdomains = false };
  https_auto = some true;
  https_mode = codes "auto";
  https_offset = pos 1;
  https_exclude = pos 22 ∷ [];
  https_allow = [];
  https = record { name = codes "nas"; http = pos 5000; https = pos 5001 } ∷ [];
  relay = record {
    auto = true;
    mode = codes "auto";
    zero_copy = some true;
    exclude = pos 22 ∷ [];
    allow = [];
  };
  max_conns_per_listener = pos 2048;
  socket_path = [];
  override_default_excludes = false;
  response_header_timeout_seconds = pos 0;
  relay_exclude_set = none;
  https_exclude_set = none;
  relay_allow_set = none;
  https_allow_set = none;
}

abbrev pub loaded : Config
loaded = seal (set_defaults settings)

pub loads : finish settings ≡ ok loaded
unfolding finish validate bad_port bad_mode check_rules check_ports check_paths set_defaults
    contains has_prefix str_beq get put union_ports default_exclude_ports mem
loads = refl

finish_accepts_example : ((c : Config) × (finish settings ≡ ok c)) ↔ IsAcceptable settings
finish_accepts_example = finish_accepts settings

finish-IsBounded_example : IsBounded loaded × IsMode loaded.relay.mode × IsMode loaded.https_mode
finish-IsBounded_example = finish-IsBounded settings loaded loads

finish-is_excluded_example : is_excluded (some loaded) (pos 8080) ≡ (
    (mem (pos 8080) settings.relay.exclude || mem (pos 8080) settings.https_exclude)
    || (not settings.override_default_excludes && mem (pos 8080) default_exclude_ports))
finish-is_excluded_example = finish-is_excluded settings loaded (pos 8080) loads

finish-is_allowed_example :
    ((is_relay_allowed (some loaded) (pos 8080) ≡ true)
      ↔ Admits settings.relay.allow settings.relay.mode (pos 8080))
    × ((is_https_allowed (some loaded) (pos 8080) ≡ true)
        ↔ Admits settings.https_allow settings.https_mode (pos 8080))
finish-is_allowed_example = finish-is_allowed settings loaded (pos 8080) loads

-- `json.Unmarshal` that reads these settings out of any text.
abbrev unmarshal : Str → Option Config
unmarshal text = some settings

abbrev path : Str
path = codes "/etc/nas//config.json"

abbrev blank_disk : Disk
blank_disk = record {
  files = (codes "/etc/hosts", codes "127.0.0.1 localhost") ∷ [];
  denied = λ p. none;
  hidden = λ p. none;
  mkdir_fault = λ p. none;
  write_fault = λ p. none;
  torn = λ p. none;
}

load_config-Keeps_all_example :
    Keeps blank_disk (load_config unmarshal path blank_disk).1
    × Keeps blank_disk (load_config_file unmarshal path blank_disk).1
    × Keeps blank_disk (ensure_default_config path blank_disk).1
load_config-Keeps_all_example = load_config-Keeps_all unmarshal path blank_disk

load_config-again_example :
    (load_config unmarshal
        (codes "/etc/nas/config.json")
        (load_config unmarshal (codes "/etc/nas/config.json") blank_disk).1
      ≡ load_config unmarshal (codes "/etc/nas/config.json") blank_disk)
    ⊎ Torn unmarshal (codes "/etc/nas/config.json") blank_disk
load_config-again_example =
    load_config-again unmarshal (codes "/etc/nas/config.json") blank_disk refl
