-- ===== src/Pwd.antt =====
-- command/internal/pwd/pwd.go: the pwd command. The option parser and the filesystem are parameters.
pub mod Steps
use kefka.Common.{
  ℕ, zero, suc, ◌+◌, ◌-◌, ◌*◌, ◌/◌, ◌%◌, ◌^◌, ◌≤◌, ◌<◌, ◌≡◌, refl, sym, ap, ◌∙◌, ◌≢◌, ◌↔◌, ◌⊎◌, inl,
  inr, Bool, true, false, not, ◌&&◌, ◌||◌, Option, none, some, List, [], ◌∷◌, ◌++◌, map, append-nil,
  append_assoc, arith, ltb, leb, ◌==◌, if◌then◌else◌, ==_iff, Bool-cases, Option-cases, length,
  take, drop, replicate, last?, init, length-append, length-take, length-drop, length-replicate,
  Bytes, codes, equal, equal_iff, has_prefix, trim_prefix, contains, within, replace_all,
}
use kefka.Slashed.{is_abs, clean, join, elements, or_dot, is_skipped}

-- What the code uses of a filesystem: whether Stat finds a path, and Readlink if links are supported.
pub record Links : Type 0 where
  pub exists : Bytes → Bool
  pub readlink : Option (Bytes → Option Bytes)

-- What the options are: a complaint, or the help flag and the flags -P (true) and -L in order.
pub data Parsed : Type 0 where
  complaint : Bytes → Parsed
  flags : Bool → List Bool → Parsed

pub record Run : Type 0 where
  pub output : Bytes
  pub errors : Bytes
  pub status : ℕ

abbrev pub usage : Bytes
usage =
    codes "Usage: pwd [OPTION]...\n"
    ++ codes "Print the full filename of the current working directory.\n\n"
    ++ codes "  -L  use PWD from environment, even if it contains symlinks (default)\n"
    ++ codes "  -P  avoid all symlinks\n"
    ++ codes "      --help  display this help and exit\n"

unfoldable pub absolutize : Bytes → Bytes
unfolding trim_prefix equal
absolutize dir =
    let rest = trim_prefix (codes "/") dir in
    if equal rest [] || equal rest (codes ".") then codes "/" else b'/' ∷ rest

-- The target of a link takes the place of its name.
abbrev pub target_parts : Bytes → List Bytes
target_parts target =
    if is_abs target
    then elements (clean (trim_prefix (codes "/") target))
    else elements (clean target)

abbrev pub base_of : Bytes → Bytes → Bytes
base_of resolved target = if is_abs target then [] else resolved

-- The loop of `realpath`, on the number of steps that are left.
unfoldable pub resolve_links : (Bytes → Option Bytes) → ℕ → Bytes → List Bytes → Bytes
unfolding is_abs clean join elements is_skipped trim_prefix
resolve_links readlink zero resolved parts = resolved
resolve_links readlink (suc steps) resolved [] = resolved
resolve_links readlink (suc steps) resolved (part ∷ parts) =
    let skipped = resolve_links readlink steps resolved parts in
    let candidate = or_dot (join resolved part) in
    let followed : Bytes = elim (readlink candidate) [
      | none ↦ resolve_links readlink steps candidate parts
      | some target ↦
          resolve_links readlink steps (base_of resolved target) (target_parts target ++ parts)
    ] in
    if is_skipped part then skipped else followed

unfoldable pub realpath : Links → Bytes → Option Bytes
unfolding resolve_links clean elements
realpath fs p =
    let resolved = elim fs.readlink as (λ _. Bytes) [
      | none ↦ clean p
      | some readlink ↦ or_dot (resolve_links readlink 64 [] (elements (clean p)))
    ] in
    if fs.exists p then some resolved else none

-- `physical` at the end: the last of -P and -L.
abbrev pub is_physical : List Bool → Bool
is_physical l = elim (last? l) [ none ↦ false | some b ↦ b ]

abbrev pub physical_path : Option Links → Bytes → Bytes
physical_path none dir = absolutize dir
physical_path (some fs) dir = elim (realpath fs dir) [
  | none ↦ absolutize dir
  | some resolved ↦ absolutize resolved
]

abbrev pub run_parsed : Option Links → Bytes → Parsed → Run
run_parsed fs dir (complaint message) = record {
  output = [];
  errors = codes "pwd: " ++ message ++ codes "\n" ++ usage;
  status = 1;
}
run_parsed fs dir (flags help l) =
    let path = if is_physical l then physical_path fs dir else absolutize dir in
    if help
    then record { output = []; errors = usage; status = 0 }
    else record { output = path ++ codes "\n"; errors = []; status = 0 }

-- `Exec`
unfoldable pub pwd : (List Bytes → Parsed) → Option Links → Bytes → List Bytes → Run
unfolding absolutize realpath
pwd getopt fs dir args = run_parsed fs dir (getopt args)
