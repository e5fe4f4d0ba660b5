-- ===== src/Tac.antt =====
-- command/internal/tac/tac.go: the lines of a file, last line first. The parser of options, the
-- filesystem and the standard input are parameters.
pub mod Lines
use kefka.Common.{
  ℕ, zero, suc, ◌+◌, ◌-◌, ◌*◌, ◌/◌, ◌%◌, ◌^◌, ◌≤◌, ◌<◌, ◌≡◌, refl, sym, ap, ◌∙◌, ◌≢◌, ◌↔◌, ◌⊎◌, inl,
  inr, Bool, true, false, not, ◌&&◌, ◌||◌, Option, none, some, List, [], ◌∷◌, ◌++◌, map, append-nil,
  append_assoc, arith, ltb, leb, ◌==◌, if◌then◌else◌, ==_iff, Bool-cases, Option-cases, length,
  take, drop, replicate, last?, init, length-append, length-take, length-drop, length-replicate,
  Bytes, codes, equal, equal_iff, has_prefix, trim_prefix, contains, within,
}
use kefka.ShellPath.{resolve_path}

-- `strings.Split(s, "\n")`
abbrev pub on_first : ℕ → List Bytes → List Bytes
on_first c [] = (c ∷ []) ∷ []
on_first c (l ∷ ls) = (c ∷ l) ∷ ls

abbrev pub newline : ℕ
newline = 10

unfoldable pub split_lines : Bytes → List Bytes
split_lines [] = [] ∷ []
split_lines (c ∷ s) =
    let rest = split_lines s in if c == newline then [] ∷ rest else on_first c rest

-- The lines without an empty one at the end.
unfoldable pub without_last_empty : List Bytes → List Bytes
without_last_empty ls = elim (last? ls) [
  | none ↦ ls
  | some l ↦ elim l [ [] ↦ init ls | c ∷ s ↦ ls ]
]

-- The loop of `reverseLines`, from the last line to the first.
unfoldable pub write_back : List Bytes → Bytes
write_back [] = []
write_back (l ∷ ls) = write_back ls ++ (l ++ (newline ∷ []))

unfoldable pub reverse_lines : Bytes → Bytes
unfolding split_lines without_last_empty write_back
reverse_lines content = write_back (without_last_empty (split_lines content))

-- What opening and reading a file gives.
pub data Opened : Type 0 where
  no_file : Opened
  unreadable : Bytes → Opened
  contents : Bytes → Opened

-- What the options are: a complaint, or the help flag and the operands.
pub data Parsed : Type 0 where
  complaint : Bytes → Parsed
  operands : Bool → List Bytes → Parsed

-- The standard output, the standard error and the exit status of a run.
pub record Run : Type 0 where
  pub output : Bytes
  pub errors : Bytes
  pub status : ℕ

abbrev pub failing : Bytes → Run
failing message = record { output = []; errors = message; status = 1 }

abbrev pub writing : Bytes → Run
writing text = record { output = text; errors = []; status = 0 }

abbrev pub usage : Bytes
usage =
    codes "Usage: tac [OPTION]... [FILE]...\n"
    ++ codes "Write each FILE to standard output, last line first.\n"
    ++ codes "With no FILE, or when FILE is -, read standard input.\n\n"
    ++ codes "      --help   display this help and exit\n"

module _ (getopt : List Bytes → Parsed) (open_file : Bytes → Opened) (stdin : Option Bytes) where
  -- `readFile` and what `Exec` does with the text
  unfoldable pub tac_file : Bytes → Bytes → Run
  unfolding resolve_path reverse_lines
  tac_file dir file = elim (open_file (resolve_path dir file)) [
    | no_file ↦ failing (codes "tac: " ++ file ++ codes ": No such file or directory\n")
    | unreadable message ↦ failing (codes "tac: " ++ file ++ codes ": " ++ message ++ codes "\n")
    | contents text ↦ writing (reverse_lines text)
  ]

  -- `readStdin`, where `none` is an error of the stream
  unfoldable pub tac_stdin : Run
  unfolding reverse_lines
  tac_stdin = elim stdin [ none ↦ failing [] | some text ↦ writing (reverse_lines text) ]

  abbrev pub tac_operands : Bytes → List Bytes → Run
  tac_operands dir [] = tac_stdin
  tac_operands dir (file ∷ files) = if equal file (codes "-") then tac_stdin else tac_file dir file

  unfoldable pub tac : Bytes → List Bytes → Run
  unfolding tac_stdin tac_file
  tac dir args = elim (getopt args) [
    | complaint message ↦ failing (codes "tac: " ++ message ++ codes "\n" ++ usage)
    | operands help files ↦
        if help then record { output = []; errors = usage; status = 0 } else tac_operands dir files
  ]
