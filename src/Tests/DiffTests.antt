-- ===== src/Tests/DiffTests.antt =====
-- Tests and instances for the command diff.
use kefka.Common.{
  ◌≡◌, refl, sym, ◌∙◌, true, false, ◌||◌, none, some, List, [], ◌∷◌, map, arith, ◌==◌,
  if◌then◌else◌, Bytes, codes, equal, equal_iff,
}
use kefka.Tests.Platforms.{ascii}
use kefka.Diff.{CompareOptions, normal, split_lines, collapse_space}
use kefka.Diff.Lines.{concat, AreLines, split_lines_lem}
use kefka.Diff.Write.{OpCode, equal_tag, replace_tag, insert_tag, terminate, write_ed, write_normal}
use kefka.Diff.Grouped.{write_unified}
use kefka.Diff.Ed.Editor
use kefka.Diff.Ed.Hunks.{Covers, covered, onward}
use kefka.Diff.Ed.Applied.{ed-write_ed}
use kefka.Diff.Compare.{
  Environment, Outcome, unlisted, names, read_content, stdin_left, diff_files, files_equal,
  diff_dirs, read_dir_names, mem_string, is_directory, or_false,
}
use kefka.Diff.Compare.Files.{Reports, diff_files-Reports}
use kefka.Diff.Compare.Ends.{Height, diff_dirs-Ends}
use kefka.Strconv.{format_uint, positive, add_digit, digit_value}
use kefka.Slashed.{join}
use mathlib.Core.Path.{subst}
use kefka.Diff.Command.{Flags, parsed, diff}

abbrev old_lines : List Bytes
old_lines = codes "x\n" ∷ codes "y\n" ∷ []

abbrev new_lines : List Bytes
new_lines = codes "x\n" ∷ codes "z\n" ∷ codes "w" ∷ []

abbrev keep_x : OpCode
keep_x = record { tag = equal_tag; i1 = 0; i2 = 1; j1 = 0; j2 = 1 }

abbrev replace_y : OpCode
replace_y = record { tag = replace_tag; i1 = 1; i2 = 2; j1 = 1; j2 = 3 }

abbrev ops : List OpCode
ops = keep_x ∷ replace_y ∷ []

split_runs : split_lines (codes "x\nz\nw") ≡ new_lines
unfolding split_lines
split_runs = refl

split_lines_lem_example :
    (concat (split_lines (codes "x\nz\nw")) ≡ codes "x\nz\nw")
    × AreLines (split_lines (codes "x\nz\nw"))
split_lines_lem_example = split_lines_lem (codes "x\nz\nw")

collapse_runs : collapse_space ascii (codes " a  b\t \n") ≡ codes " a b\n"
unfolding collapse_space
collapse_runs = refl

script : write_ed new_lines ops ≡ codes "2c\nz\nw\n.\n"
unfolding write_ed format_uint
script = refl

normal_runs :
    write_normal old_lines new_lines ops
    ≡ codes "2c2,3\n< y\n---\n> z\n> w\n\\ No newline at end of file\n"
unfolding write_normal format_uint
normal_runs = refl

unified_runs :
    write_unified
      (codes "a")
      (codes "b")
      (codes "t")
      (codes "u")
      old_lines
      new_lines
      (record { first = keep_x; others = replace_y ∷ [] } ∷ [])
    ≡ codes "--- a\tt\n+++ b\tu\n@@ -1,2 +1,3 @@\n x\n-y\n+z\n+w\n\\ No newline at end of file\n"
unfolding write_unified format_uint
unified_runs = refl

ops-Covers : Covers 0 0 old_lines new_lines ops
ops-Covers =
    onward keep_x (codes "x\n" ∷ []) (codes "x\n" ∷ []) refl (refl, refl, refl, refl)
      (onward replace_y (codes "y\n" ∷ []) (codes "z\n" ∷ codes "w" ∷ []) (omega arith, omega arith)
        (refl, refl, refl, refl) covered)

ed-write_ed_example :
    Editor.ed (write_ed new_lines ops) (map terminate old_lines) ≡ map terminate new_lines
unfolding terminate equal
ed-write_ed_example =
    ed-write_ed old_lines new_lines ops ops-Covers (omega arith) (refl, (refl, (refl, tt)))

-- A line that is a dot alone ends the text too early.
dot_ends :
    Editor.ed
      (write_ed
        (codes ".\n" ∷ codes "q\n" ∷ [])
        (record { tag = insert_tag; i1 = 0; i2 = 0; j1 = 0; j2 = 2 } ∷ []))
      []
    ≡ []
unfolding Editor.ed write_ed equal format_uint
dot_ends = refl

-- Two directories, each with one file, and the files that they hold.
abbrev tree : Environment
tree = record {
  unicode = ascii;
  dir = [];
  stat_is_dir = λ p.
      if equal p (codes "d") || equal p (codes "e")
      then some true
      else if equal p (codes "d/f") || equal p (codes "e/f")
      then some false
      else none;
  open_file = λ p. if equal p (codes "d/f") then some (codes "A  b\n") else some (codes "a b\n");
  read_dir = λ p.
      if equal p (codes "d") || equal p (codes "e")
      then names (codes "f" ∷ [])
      else unlisted (codes "not a directory");
  stdin = none;
  stamp = λ p. codes "t";
  get_op_codes = λ a b. [];
  get_grouped_op_codes = λ n a b. [];
}

abbrev loose : CompareOptions
loose = record {
  ignore_case = true;
  ignore_space = true;
  brief = false;
  report_same = false;
  recursive = true;
  fmt_kind = normal;
  context_lines = 3;
}

diff_files-Reports_example :
    Reports tree loose
      (diff_files tree loose none (codes "d/f") (codes "e/f")).status
      (read_content tree none (codes "d/f"))
      (read_content tree (stdin_left tree none (codes "d/f")) (codes "e/f"))
    × (files_equal tree none (codes "d/f") (codes "e/f") loose
        ≡ ((diff_files tree loose none (codes "d/f") (codes "e/f")).status == 0))
diff_files-Reports_example = diff_files-Reports tree loose none (codes "d/f") (codes "e/f")

-- The standard input is read once: its second reading is empty.
stdin_twice : (diff_files tree loose (some (codes "a\n")) (codes "-") (codes "-")).status ≡ 1
unfolding diff_files read_content stdin_left
stdin_twice = refl

file_in_d : or_false (is_directory tree (join (codes "d") (codes "f"))) ≡ false
unfolding is_directory join equal
file_in_d = refl

names_in_d : read_dir_names tree (codes "d") ≡ names (codes "f" ∷ [])
unfolding read_dir_names equal
names_in_d = refl

only_f : (s : Bytes) → mem_string s (codes "f" ∷ []) ≡ true → s ≡ codes "f"
unfolding mem_string
only_f s m = (equal_iff s (codes "f")).0 (ground arith)

names-eq : (l m : List Bytes) → names l ≡ names m → l ≡ m
names-eq l m e = ground arith

d-Height : Height tree loose 1 (codes "d")
d-Height l s e m i =
    let listed = names-eq (codes "f" ∷ []) l (sym names_in_d ∙ e) in
    let name = only_f s (subst (λ k. mem_string s k ≡ true) (sym listed) m) in
    let directory = subst (λ x. or_false (is_directory tree (join (codes "d") x)) ≡ true) name i in
    ground (arith, file_in_d, directory)

diff_dirs-Ends_example :
    (r : Outcome) × (diff_dirs tree 1 loose none (codes "d") (codes "e") ≡ some r)
diff_dirs-Ends_example = diff_dirs-Ends tree loose 1 none (codes "d") (codes "e") d-Height

abbrev plain_flags : Flags
plain_flags = record {
  unified_flag = false;
  unified_n = codes "2x";
  context_flag = false;
  context_n = [];
  ed_script = false;
  forward = false;
  recursive = false;
  ignore_space = false;
  brief = true;
  report_same = false;
  ignore_case = false;
  help = false;
}

bad_length :
    diff (λ args. parsed plain_flags args) tree 1 (codes "d" ∷ codes "e/f" ∷ [])
    ≡ some (record {
      out = [];
      err = codes "diff: invalid context length '2x'\n";
      status = 2;
      left = none;
    })
unfolding diff positive add_digit digit_value
bad_length = refl

file_in_directory :
    diff
      (λ args. parsed (record plain_flags { unified_n = [] }) args)
      tree
      1
      (codes "d" ∷ codes "e/f" ∷ [])
    ≡ some (record { out = codes "Files d/f and e/f differ\n"; err = []; status = 1; left = none })
unfolding diff equal
file_in_directory = refl
