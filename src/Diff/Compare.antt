-- ===== src/Diff/Compare.antt =====
-- command/internal/diff/diff.go, lines 173 to 404 and 698 to 724: two files and two directories. The
-- filesystem, the standard input and package difflib are parameters.
pub mod Files
pub mod Names
pub mod Directories
pub mod Ends
use kefka.Common.{
  ℕ, zero, suc, ◌+◌, ◌-◌, ◌*◌, ◌/◌, ◌%◌, ◌^◌, ◌≤◌, ◌<◌, ◌≡◌, refl, sym, ap, ◌∙◌, ◌≢◌, ◌↔◌, ◌⊎◌, inl,
  inr, Bool, true, false, not, ◌&&◌, ◌||◌, Option, none, some, List, [], ◌∷◌, ◌++◌, map, append-nil,
  append_assoc, arith, ltb, leb, ◌==◌, if◌then◌else◌, ==_iff, Bool-cases, Option-cases, length,
  take, drop, replicate, last?, init, length-append, length-take, length-drop, length-replicate,
  Bytes, codes, equal, equal_iff, has_prefix, trim_prefix, contains, within,
}
use kefka.Common.Sort.{sort_strings}
use kefka.Slashed.{join}
use kefka.ShellPath.{resolve_path}
use kefka.Unicode.{Unicode}
use kefka.Diff.{
  Format, normal, context, unified, ed, forward_ed, CompareOptions, split_lines, normalize_lines,
}
use kefka.Diff.Write.{OpCode, write_normal, write_ed, write_forward_ed}
use kefka.Diff.Grouped.{Group, write_unified, write_context}

-- What a directory lists: an error, or the names.
pub data Listing : Type 0 where
  unlisted : Bytes → Listing
  names : List Bytes → Listing

-- What is left of the standard input; `none` is a stream whose reading fails, whenever it is read, and
-- a missing stream is an empty one.
abbrev pub Stdin : Type 0
Stdin = Option Bytes

-- The filesystem, with `none` for an error; `stdin` is the standard input at the start, and `stamp` is
-- the time at which a file is read, as text.
pub record Environment : Type 0 where
  pub unicode : Unicode
  pub dir : Bytes
  pub stat_is_dir : Bytes → Option Bool
  pub open_file : Bytes → Option Bytes
  pub read_dir : Bytes → Listing
  pub stdin : Stdin
  pub stamp : Bytes → Bytes
  pub get_op_codes : List Bytes → List Bytes → List OpCode
  pub get_grouped_op_codes : ℕ → List Bytes → List Bytes → List Group

-- What is written to the standard output and error, the exit status, and what is left of the standard
-- input.
pub record Outcome : Type 0 where
  pub out : Bytes
  pub err : Bytes
  pub status : ℕ
  pub left : Stdin

abbrev pub line_feed : Bytes
line_feed = codes "\n"

abbrev pub no_such_file : Stdin → Bytes → Outcome
no_such_file inp f = record {
  left = inp;
  out = [];
  err = codes "diff: " ++ f ++ codes ": No such file or directory\n";
  status = 2;
}

-- The comparison of two lists of lines.
unfoldable pub lines_equal : List Bytes → List Bytes → Bool
unfolding equal
lines_equal [] [] = true
lines_equal [] (m ∷ ms) = false
lines_equal (l ∷ ls) [] = false
lines_equal (l ∷ ls) (m ∷ ms) = equal l m && lines_equal ls ms

unfoldable pub mem_string : Bytes → List Bytes → Bool
unfolding equal
mem_string s [] = false
mem_string s (t ∷ l) = equal s t || mem_string s l

-- The keys of a map that has these keys set.
unfoldable pub distinct : List Bytes → List Bytes
unfolding mem_string
distinct [] = []
distinct (s ∷ l) = let rest = distinct l in if mem_string s l then rest else s ∷ rest

abbrev pub or_false : Option Bool → Bool
or_false none = false
or_false (some b) = b

abbrev pub only_in : Stdin → Bytes → Bytes → Outcome
only_in inp d name = record {
  left = inp;
  out = codes "Only in " ++ d ++ codes ": " ++ name ++ line_feed;
  err = [];
  status = 1;
}

abbrev pub printed : Stdin → Bytes → ℕ → Outcome
printed inp text status = record { out = text; err = []; status = status; left = inp }

-- `io.ReadAll` takes all that is left.
abbrev pub drained : Stdin → Stdin
drained none = none
drained (some s) = some []

module _ (env : Environment) where
  -- `readContent`, without the time
  unfoldable pub read_content : Stdin → Bytes → Option Bytes
  unfolding equal resolve_path
  read_content inp file =
      if equal file (codes "-") then inp else env.open_file (resolve_path env.dir file)

  -- What `readContent` leaves of the standard input.
  unfoldable pub stdin_left : Stdin → Bytes → Stdin
  unfolding equal
  stdin_left inp file = if equal file (codes "-") then drained inp else inp

  -- `isDirectory`
  unfoldable pub is_directory : Bytes → Option Bool
  unfolding equal resolve_path
  is_directory p =
      if equal p (codes "-") then some false else env.stat_is_dir (resolve_path env.dir p)

  -- `readDirNames`
  unfoldable pub read_dir_names : Bytes → Listing
  unfolding resolve_path
  read_dir_names d = env.read_dir (resolve_path env.dir d)

  unfoldable pub comparable : CompareOptions → List Bytes → List Bytes
  unfolding normalize_lines
  comparable opts ls = normalize_lines env.unicode opts.ignore_case opts.ignore_space ls

  -- The switch on the format in `diffFiles`.
  unfoldable pub write_difference :
      CompareOptions → Bytes → Bytes → List Bytes → List Bytes → Format → Bytes
  unfolding comparable write_normal write_ed write_forward_ed write_unified write_context
  write_difference opts f1 f2 a b normal =
      write_normal a b (env.get_op_codes (comparable opts a) (comparable opts b))
  write_difference opts f1 f2 a b ed =
      write_ed b (env.get_op_codes (comparable opts a) (comparable opts b))
  write_difference opts f1 f2 a b forward_ed =
      write_forward_ed b (env.get_op_codes (comparable opts a) (comparable opts b))
  write_difference opts f1 f2 a b unified =
      write_unified f1 f2 (env.stamp f1) (env.stamp f2) a b
        (env.get_grouped_op_codes opts.context_lines (comparable opts a) (comparable opts b))
  write_difference opts f1 f2 a b context =
      write_context f1 f2 (env.stamp f1) (env.stamp f2) a b
        (env.get_grouped_op_codes opts.context_lines (comparable opts a) (comparable opts b))

  -- `diffFiles` once both files are read
  unfoldable pub diff_contents : CompareOptions → Stdin → Bytes → Bytes → Bytes → Bytes → Outcome
  unfolding split_lines comparable lines_equal write_difference
  diff_contents opts inp f1 f2 c1 c2 =
      let a = split_lines c1 in
      let b = split_lines c2 in
      if lines_equal (comparable opts a) (comparable opts b)
      then record {
        out =
            if opts.report_same
            then codes "Files " ++ f1 ++ codes " and " ++ f2 ++ codes " are identical\n"
            else [];
        err = [];
        left = inp;
        status = 0;
      }
      else if opts.brief
      then record {
        out = codes "Files " ++ f1 ++ codes " and " ++ f2 ++ codes " differ\n";
        err = [];
        left = inp;
        status = 1;
      }
      else record {
        out = write_difference opts f1 f2 a b opts.fmt_kind;
        err = [];
        left = inp;
        status = 1;
      }

  -- `diffFiles` and `filesEqual` once the first file is read
  abbrev pub diff_read :
      CompareOptions → Stdin → Bytes → Bytes → Option Bytes → Option Bytes → Outcome
  diff_read opts inp f1 f2 none o = no_such_file (stdin_left inp f1) f1
  diff_read opts inp f1 f2 (some c1) none = no_such_file (stdin_left (stdin_left inp f1) f2) f2
  diff_read opts inp f1 f2 (some c1) (some c2) =
      diff_contents opts (stdin_left (stdin_left inp f1) f2) f1 f2 c1 c2

  -- `diffFiles`: the second file is read from what the first leaves of the standard input.
  unfoldable pub diff_files : CompareOptions → Stdin → Bytes → Bytes → Outcome
  unfolding read_content stdin_left diff_contents
  diff_files opts inp f1 f2 =
      diff_read opts inp f1 f2 (read_content inp f1) (read_content (stdin_left inp f1) f2)

  abbrev pub equal_read : CompareOptions → Option Bytes → Option Bytes → Bool
  equal_read opts none o = false
  equal_read opts (some c1) none = false
  equal_read opts (some c1) (some c2) =
      lines_equal (comparable opts (split_lines c1)) (comparable opts (split_lines c2))

  -- `filesEqual`
  unfoldable pub files_equal : Stdin → Bytes → Bytes → CompareOptions → Bool
  unfolding read_content stdin_left comparable split_lines lines_equal
  files_equal inp f1 f2 opts =
      equal_read opts (read_content inp f1) (read_content (stdin_left inp f1) f2)

  abbrev pub left_of_read : Stdin → Bytes → Bytes → Option Bytes → Stdin
  left_of_read inp f1 f2 none = stdin_left inp f1
  left_of_read inp f1 f2 (some c1) = stdin_left (stdin_left inp f1) f2

  -- What `filesEqual` leaves of the standard input.
  unfoldable pub files_left : Stdin → Bytes → Bytes → Stdin
  unfolding read_content stdin_left
  files_left inp f1 f2 = left_of_read inp f1 f2 (read_content inp f1)

  -- Two files of one name: a header where they differ, and their difference, for which both are read
  -- again.
  abbrev pub diff_pair : CompareOptions → Stdin → Bytes → Bytes → Outcome
  diff_pair opts inp p1 p2 =
      let r = diff_files opts (files_left inp p1 p2) p1 p2 in
      record {
        out =
            (if files_equal inp p1 p2 opts || opts.brief
              then []
              else codes "diff " ++ p1 ++ codes " " ++ p2 ++ line_feed)
            ++ r.out;
        err = r.err;
        status = r.status;
        left = r.left;
      }

  -- The rows of the switch on the kinds of two entries of one name; `subdirs` compares directories.
  unfoldable pub diff_entries :
      (Stdin → Bytes → Bytes → Option Outcome)
      → CompareOptions
      → Stdin
      → Bytes
      → Bytes
      → Bool
      → Bool
      → Option Outcome
  unfolding diff_files files_equal files_left
  diff_entries subdirs opts inp p1 p2 true true =
      if opts.recursive
      then subdirs inp p1 p2
      else some (
          printed inp (codes "Common subdirectories: " ++ p1 ++ codes " and " ++ p2 ++ line_feed) 0)
  diff_entries subdirs opts inp p1 p2 true false = some (
      printed inp
        (codes "File "
          ++ p1
          ++ codes " is a directory while file "
          ++ p2
          ++ codes " is a regular file\n")
        1)
  diff_entries subdirs opts inp p1 p2 false true = some (
      printed inp
        (codes "File "
          ++ p1
          ++ codes " is a regular file while file "
          ++ p2
          ++ codes " is a directory\n")
        1)
  diff_entries subdirs opts inp p1 p2 false false = some (diff_pair opts inp p1 p2)

  -- One round of the loop in `diffDirs`.
  unfoldable pub diff_name :
      (Stdin → Bytes → Bytes → Option Outcome)
      → CompareOptions
      → Bytes
      → Bytes
      → List Bytes
      → List Bytes
      → Stdin
      → Bytes
      → Option Outcome
  unfolding mem_string is_directory diff_entries join
  diff_name subdirs opts d1 d2 entries1 entries2 inp name =
      let p1 = join d1 name in
      let p2 = join d2 name in
      if mem_string name entries1 && not (mem_string name entries2)
      then some (only_in inp d1 name)
      else if not (mem_string name entries1) && mem_string name entries2
      then some (only_in inp d2 name)
      else diff_entries subdirs opts inp p1 p2 (or_false (is_directory p1))
          (or_false (is_directory p2))

-- `rest` behind one round that ended with status 0 or 1.
abbrev pub behind : Outcome → Option Outcome → Option Outcome
behind r none = none
behind r (some s) =
    some (record { out = r.out ++ s.out; err = r.err ++ s.err; status = s.status; left = s.left })

-- The loop of `diffDirs`: a status of 1 is remembered, any other but 0 ends it.
unfoldable pub diff_loop :
    (Stdin → Bytes → Option Outcome) → List Bytes → Bool → Stdin → Option Outcome
diff_loop visit [] differed inp =
    some (record { out = []; err = []; status = if differed then 1 else 0; left = inp })
diff_loop visit (name ∷ rest) differed inp = elim (visit inp name) [
  | none ↦ none
  | some r ↦
      let onward = behind r (diff_loop visit rest (differed || r.status == 1) r.left) in
      if r.status == 0 || r.status == 1 then onward else some r
]

module _ (env : Environment) where
  abbrev pub unlisted_error : Stdin → Bytes → Bytes → Outcome
  unlisted_error inp d message = record {
    left = inp;
    out = [];
    err = codes "diff: " ++ d ++ codes ": " ++ message ++ line_feed;
    status = 2;
  }

  -- `diffDirs` once both directories are listed
  abbrev pub diff_listed :
      (Stdin → Bytes → Bytes → Option Outcome)
      → CompareOptions
      → Stdin
      → Bytes
      → Bytes
      → Listing
      → Listing
      → Option Outcome
  diff_listed subdirs opts inp d1 d2 (unlisted message) l = some (unlisted_error inp d1 message)
  diff_listed subdirs opts inp d1 d2 (names entries1) (unlisted message) =
      some (unlisted_error inp d2 message)
  diff_listed subdirs opts inp d1 d2 (names entries1) (names entries2) =
      diff_loop (diff_name env subdirs opts d1 d2 entries1 entries2)
        (sort_strings (distinct (entries1 ++ entries2))) false inp

  -- `diffDirs`, on fuel for the depth of the directories; `none` means that it ran out.
  unfoldable pub diff_dirs : ℕ → CompareOptions → Stdin → Bytes → Bytes → Option Outcome
  unfolding read_dir_names diff_name diff_loop distinct sort_strings
  diff_dirs zero opts inp d1 d2 = none
  diff_dirs (suc f) opts inp d1 d2 =
      diff_listed (diff_dirs f opts) opts inp d1 d2 (read_dir_names env d1) (read_dir_names env d2)
