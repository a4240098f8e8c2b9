-- ===== src/Config/Paths.antt =====
-- config.go: paths. `filepath.Clean` and `filepath.Dir` are those of a Unix system.
pub mod Normal
use mathlib.Core.List.{reverse}
use nas_conn_plus.Base.{
  Str, codes, str_beq, has_prefix, split, join, is_empty, ◌≡◌, refl, List, [], ◌∷◌, ◌++◌, Option,
  none, some, Bool, true, false, not, ◌||◌, if◌then◌else◌, ◌==◌,
}

abbrev pub slash : Str
slash = codes "/"

abbrev pub dot : Str
dot = codes "."

abbrev pub dotdot : Str
dotdot = codes ".."

-- `..` takes back the last element that is not itself `..`; the elements are kept last first.
back : Bool → List Str → List Str
back rooted [] = if rooted then [] else dotdot ∷ []
back rooted (top ∷ out) = if str_beq top dotdot then dotdot ∷ top ∷ out else out

add_part : Bool → Str → List Str → List Str
unfolding back
add_part rooted part out =
    if is_empty part || str_beq part dot
    then out
    else if str_beq part dotdot
    then back rooted out
    else part ∷ out

add_parts : Bool → List Str → List Str → List Str
unfolding add_part
add_parts rooted [] out = out
add_parts rooted (part ∷ parts) out = add_parts rooted parts (add_part rooted part out)

or_dot : Str → Str
or_dot s = if is_empty s then dot else s

-- `filepath.Clean`.
unfoldable pub clean : Str → Str
unfolding add_parts or_dot split has_prefix join
clean path =
    let rooted = has_prefix slash path in
    let parts = join slash (reverse (add_parts rooted (split b'/' path) [])) in
    if rooted then slash ++ parts else or_dot parts

-- What stands behind the last slash, which comes first here, is dropped.
drop_base : Str → Str
drop_base [] = []
drop_base (c ∷ s) = if c == b'/' then c ∷ s else drop_base s

-- `filepath.Dir`.
unfoldable pub dir : Str → Str
unfolding clean drop_base
dir path = clean (reverse (drop_base (reverse path)))

-- `filepath.Join` of a directory and a name that is not empty.
unfoldable pub join_path : Str → Str → Str
unfolding clean
join_path path name = if is_empty path then clean name else clean (path ++ (slash ++ name))

abbrev tmp_bases : List Str
tmp_bases =
    codes "/tmp"
    ∷ codes "/var/tmp"
    ∷ codes "/private/tmp"
    ∷ codes "/private/var/tmp"
    ∷ codes "/dev/shm"
    ∷ []

-- The loop of `untrustedCWD`.
under_any : Str → List Str → Bool
unfolding has_prefix str_beq
under_any path [] = false
under_any path (base ∷ bases) =
    (str_beq path base || has_prefix (base ++ slash) path) || under_any path bases

unfoldable pub untrusted_cwd : Str → Bool
unfolding clean under_any
untrusted_cwd path = under_any (clean path) tmp_bases

abbrev pub default_config_path : Str
default_config_path = codes "/etc/nasconnplus/config.json"

abbrev pub local_config_path : Str
local_config_path = codes "./config.json"

-- `ResolveConfigPath`: which paths `os.Stat` finds, and what `os.Getwd` returns, are arguments.
unfoldable pub resolve_config_path : (Str → Bool) → Option Str → Str → Str
unfolding clean untrusted_cwd
resolve_config_path exists cwd specified =
    if not (is_empty specified)
    then clean specified
    else if exists default_config_path
    then default_config_path
    else if exists local_config_path
    then (elim cwd [
      | none ↦ default_config_path
      | some wd ↦ if untrusted_cwd wd then default_config_path else local_config_path
    ])
    else default_config_path

clean_test : clean (codes "/a//b/./../c/") ≡ codes "/a/c"
unfolding clean str_beq
clean_test = refl

clean_relative_test : clean (codes "../x/../../y") ≡ codes "../../y"
unfolding clean str_beq
clean_relative_test = refl

untrusted_test :
    (untrusted_cwd (codes "/tmpfoo") ≡ false) × (untrusted_cwd (codes "/tmp/evil") ≡ true)
unfolding untrusted_cwd
untrusted_test = (refl, refl)

dir_test : dir (codes "/etc/nasconnplus/config.json") ≡ codes "/etc/nasconnplus"
unfolding dir str_beq
dir_test = refl
