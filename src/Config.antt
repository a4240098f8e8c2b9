-- ===== src/Config.antt =====
-- internal/config/config.go: the settings. `int` is ℤ, a `*bool` is an `Option Bool`, and a nil slice is
-- the empty list, since the code ranges over both alike. The four sets are lists of their keys, and
-- `none` before they are built.
pub mod Policy
pub mod Sets
pub mod Paths
pub mod Load
pub mod File
pub mod Tests
use nas_conn_plus.Base.{
  ℤ, pos, Str, List, [], ◌∷◌, ◌++◌, Option, none, some, Bool, true, false, mem, int_eq,
  if◌then◌else◌,
}

-- `DefaultExcludePorts`.
unfoldable pub default_exclude_ports : List ℤ
default_exclude_ports =
    pos 22
    ∷ pos 23
    ∷ pos 53
    ∷ pos 111
    ∷ pos 135
    ∷ pos 137
    ∷ pos 138
    ∷ pos 139
    ∷ pos 445
    ∷ pos 2049
    ∷ pos 2375
    ∷ pos 2376
    ∷ pos 3306
    ∷ pos 3389
    ∷ pos 5432
    ∷ pos 6379
    ∷ pos 9200
    ∷ pos 11211
    ∷ pos 27017
    ∷ []

pub record HttpsPort : Type 0 where
  pub name : Str
  pub http : ℤ
  pub https : ℤ

pub record RelayCfg : Type 0 where
  pub auto : Bool
  pub mode : Str
  pub zero_copy : Option Bool
  pub exclude : List ℤ
  pub allow : List ℤ

pub record AcmeConfig : Type 0 where
  pub enabled : Bool
  pub domain : Str
  pub email : Str
  pub cache_dir : Str

pub record HstsConfig : Type 0 where
  pub enabled : Bool
  pub max_age : ℤ
  pub include_subdomains : Bool

pub record Config : Type 0 where
  pub poll_seconds : ℤ
  pub grace_polls : ℤ
  pub cert_config_path : Str
  pub cert_host : Str
  pub fallback_self : Option Bool
  pub auto_trust_local_ca : Option Bool
  pub self_dir : Str
  pub idle_seconds : ℤ
  pub acme : AcmeConfig
  pub hsts : HstsConfig
  pub https_auto : Option Bool
  pub https_mode : Str
  pub https_offset : ℤ
  pub https_exclude : List ℤ
  pub https_allow : List ℤ
  pub https : List HttpsPort
  pub relay : RelayCfg
  pub max_conns_per_listener : ℤ
  pub socket_path : Str
  pub override_default_excludes : Bool
  pub response_header_timeout_seconds : ℤ
  pub relay_exclude_set : Option (List ℤ)
  pub https_exclude_set : Option (List ℤ)
  pub relay_allow_set : Option (List ℤ)
  pub https_allow_set : Option (List ℤ)

-- `IsZeroCopy`.
unfoldable pub is_zero_copy : RelayCfg → Bool
is_zero_copy r = elim r.zero_copy [ none ↦ true | some b ↦ b ]

-- `buildSet`: a key is set once.
insert_key : List ℤ → ℤ → List ℤ
insert_key s v = if mem v s then s else v ∷ s

build_from : List ℤ → List ℤ → List ℤ
unfolding insert_key
build_from s [] = s
build_from s (v ∷ vs) = build_from (insert_key s v) vs

unfoldable pub build_set : List ℤ → List ℤ
unfolding build_from
build_set list = build_from [] list

-- The two loops of `unionPorts` share `seen`.
append_new : List ℤ → List ℤ → List ℤ → List ℤ × List ℤ
append_new [] seen res = (seen, res)
append_new (p ∷ ps) seen res =
    let kept = append_new ps seen res in
    let added = append_new ps (p ∷ seen) (res ++ (p ∷ [])) in if mem p seen then kept else added

unfoldable pub union_ports : List ℤ → List ℤ → List ℤ
unfolding append_new
union_ports base extra = let (seen, res) = append_new base [] [] in (append_new extra seen res).1
