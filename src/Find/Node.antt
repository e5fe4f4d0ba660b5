-- ===== src/Find/Node.antt =====
-- command/internal/find/find.go, lines 200 to 288, 301 to 323, 364 to 368 and 648 to 653: effects,
-- entries and what is read of them.
use kefka.Common.{
  Option, none, some, ◌⊎◌, inl, inr, ℕ, Bool, true, false, List, [], ◌∷◌, ◌++◌, if◌then◌else◌,
  Bytes, codes,
}
use kefka.FileMode.{is_regular, is_dir, type_bits}
use kefka.Find.Syntax.{Action, act_print, Options}
use kefka.Find.Eval.{EvalResult}
use kefka.Find.Printf.Format.{PrintfData, has_suffix_slash}
use kefka.Find.Filesystem.{FsError, FileInfo, DirEntry, Filesystem, unreadable_reason, sort_entries}

-- One thing to do once the walk is over: an action reached on an entry, or a diagnostic.
pub data Effect : Type 0 where
  act : (a : Action) (fs_path : Bytes) (entry_data : PrintfData) → Effect
  message : (text : Bytes) → Effect

-- One entry that is visited. Its `read`, `entries` and `unreadable` are a value of `Reading`.
pub record Node : Type 0 where
  pub display : Bytes
  pub fs_path : Bytes
  pub name : Bytes
  pub depth : ℕ
  pub typ : ℕ
  pub is_file : Bool
  pub is_dir : Bool
  pub info : Option FileInfo

-- What was read of a node: nothing so far, its entries, why it cannot be read, or the error that
-- ends the search, which the source keeps in `fatal`: the visit that meets it ends with it.
pub data Reading : Type 0 where
  not_read : Reading
  listed : List DirEntry → Reading
  unreadable : Bytes → Reading
  fatal : FsError → Reading

-- The fields of the walker that do not change, with those of the current starting point.
pub record Walker : Type 0 where
  pub dir : Bytes
  pub opts : Options
  pub has_action : Bool
  pub needs_stat : Bool
  pub follow_start : Bool
  pub now : ℕ
  pub newer : Bytes → Option ℕ

pub record Start : Type 0 where
  pub start : Bytes
  pub start_dev : Option ℕ

-- What a visit appends to the effects; the error that ends the search with the path it met; or that
-- the fuel ran out.
pub data Walked : Type 0 where
  walked : List Effect → Walked
  ended : (path : Bytes) (err : FsError) → Walked
  unfinished : Walked

-- The effects so far, before what a further visit gives.
unfoldable pub behind : List Effect → Walked → Walked
behind es (walked fs) = walked (es ++ fs)
behind es (ended path err) = ended path err
behind es unfinished = unfinished

unfoldable pub and_then : Walked → Walked → Walked
unfolding behind
and_then (walked es) w = behind es w
and_then (ended path err) w = ended path err
and_then unfinished w = unfinished

unfoldable pub join_display : Bytes → Bytes → Bytes
unfolding has_suffix_slash
join_display parent name =
    if has_suffix_slash parent then parent ++ name else parent ++ (b'/' ∷ name)

unfoldable pub new_node : Bytes → Bytes → Bytes → ℕ → FileInfo → Node
unfolding type_bits
new_node display fs_path name depth info =
    let typ = type_bits info.mode in
    record {
      display = display;
      fs_path = fs_path;
      name = name;
      depth = depth;
      typ = typ;
      is_file = is_regular typ;
      is_dir = is_dir typ;
      info = some info;
    }

-- the child of a node that is stat'ed: none where it is gone between listing and stat
abbrev pub statted_node : Bytes → Bytes → Bytes → ℕ → FsError ⊎ FileInfo → Option Node
statted_node display fs_path name depth (inl err) = none
statted_node display fs_path name depth (inr info) = some (new_node display fs_path name depth info)

-- the child of a node that is not stat'ed
abbrev pub entry_node : Bytes → Bytes → ℕ → DirEntry → Node
entry_node display fs_path depth entry = record {
  display = display;
  fs_path = fs_path;
  name = entry.name;
  depth = depth;
  typ = entry.typ;
  is_file = is_regular entry.typ;
  is_dir = is_dir entry.typ;
  info = none;
}

abbrev pub failed_reading : FsError → Option Bytes → Reading
failed_reading err (some reason) = unreadable reason
failed_reading err none = fatal err

abbrev pub reading_of : FsError ⊎ List DirEntry → Reading
reading_of (inl err) = failed_reading err (unreadable_reason err)
reading_of (inr entries) = listed (sort_entries entries)

abbrev pub entries_of : Reading → List DirEntry
entries_of (listed entries) = entries
entries_of r = []

-- `n.unreadable == "" && w.fatal == nil && len(n.entries) == 0`
abbrev pub nothing_listed : Reading → Bool
nothing_listed (listed []) = true
nothing_listed r = false

unfoldable pub diagnose : Node → Reading → List Effect
diagnose n (unreadable reason) =
    message (codes "find: " ++ n.display ++ codes ": " ++ reason ++ codes "\n") ∷ []
diagnose n r = []

abbrev pub acts : List Action → Bytes → PrintfData → List Effect
acts [] fs_path d = []
acts (a ∷ reached) fs_path d = act a fs_path d ∷ acts reached fs_path d

-- The action of a search that has none.
abbrev pub default_print : List Action
default_print = record { id = 0; kind = act_print } ∷ []

-- What `evaluate` returns, with what is then read of the node.
pub record Evaluated : Type 0 where
  pub effects : List Effect
  pub pruned : Bool
  pub reading : Reading

abbrev pub no_match : EvalResult
no_match = record { matches = true; pruned = false; actions = []; asks_empty = false }

-- `w.fatal` is returned at once where it is set.
unfoldable pub unless_fatal : Node → Reading → Walked → Walked
unless_fatal n (fatal err) w = ended n.display err
unless_fatal n r w = w

module _ (fs : Filesystem) where
  -- `readDir`
  unfoldable pub read_dir : Node → Reading → Reading
  unfolding unreadable_reason sort_entries
  read_dir n not_read = reading_of (fs.read_dir n.fs_path)
  read_dir n r = r
