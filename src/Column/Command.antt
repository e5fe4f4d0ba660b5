-- ===== src/Column/Command.antt =====
-- command/internal/column/column.go, lines 19 to 76 and 219 to 281: the input and the command.
use mathlib.Core.Option
use kefka.Common.{
  ℕ, Bool, Option, none, some, List, [], ◌∷◌, ◌++◌, if◌then◌else◌, Bytes, codes, equal,
}
use kefka.Common.Int.{ℤ}
use kefka.Unicode.{Unicode}
use kefka.ShellPath.{resolve_path}
use kefka.Column.{format_columns}

-- The standard input: none, one that fails, or a text, which is read once.
pub data Stdin : Type 0 where
  no_stdin broken : Stdin
  text : Bytes → Stdin

-- What opening and reading a file gives.
pub data Opened : Type 0 where
  no_file : Opened
  unreadable : Bytes → Opened
  contents : Bytes → Opened

-- The input, or what is written to the standard error before the exit status 1.
pub data Input : Type 0 where
  input : Bytes → Input
  refused : Bytes → Input

-- The options as the parser gives them.
pub record ColumnOptions : Type 0 where
  pub table : Bool
  pub sep : Bytes
  pub out_sep : Bytes
  pub width : ℤ
  pub no_merge : Bool
  pub help : Bool
  pub files : List Bytes

pub data Parsed : Type 0 where
  complaint : Bytes → Parsed
  parsed : ColumnOptions → Parsed

pub record Run : Type 0 where
  pub output : Bytes
  pub errors : Bytes
  pub status : ℕ

abbrev pub usage : Bytes
usage =
    codes "Usage: column [OPTION]... [FILE]...\n"
    ++ codes
        "Format input into multiple columns. By default, fills rows first. Use -t to create a table based on whitespace-delimited input.\n\n"
    ++ codes "  -t, --table       create a table (determine columns from input)\n"
    ++ codes "  -s SEP            input field delimiter (default: whitespace)\n"
    ++ codes "  -o SEP            output field delimiter (default: two spaces)\n"
    ++ codes "  -c WIDTH          output width for fill mode (default: 80)\n"
    ++ codes "  -n                don't merge multiple adjacent delimiters\n"
    ++ codes "      --help        display this help and exit\n"

abbrev pub before : Bytes → Input → Input
before s (input t) = input (s ++ t)
before s (refused e) = refused e

module _ (u : Unicode) (getopt : List Bytes → Parsed) (open_file : Option (Bytes → Opened))
    (dir : Bytes) where
  abbrev pub opened : Bytes → Opened
  opened file = elim open_file [ none ↦ no_file | some open_at ↦ open_at (resolve_path dir file) ]

  abbrev pub then_files : Bytes → Opened → Input → Input
  then_files file no_file rest =
      refused (codes "column: " ++ file ++ codes ": No such file or directory\n")
  then_files file (unreadable err) rest =
      refused (codes "column: " ++ file ++ codes ": " ++ err ++ codes "\n")
  then_files file (contents s) rest = before s rest

  -- The loop of `readInput`; a text that was read leaves an empty one.
  unfoldable pub read_files : Stdin → List Bytes → Input
  unfolding equal resolve_path
  read_files stdin [] = input []
  read_files no_stdin (file ∷ files) =
      let rest = read_files no_stdin files in
      if equal file (codes "-") then rest else then_files file (opened file) rest
  read_files broken (file ∷ files) =
      let rest = read_files broken files in
      if equal file (codes "-") then refused [] else then_files file (opened file) rest
  read_files (text s) (file ∷ files) =
      let rest = read_files (text s) files in
      let read = before s (read_files (text []) files) in
      if equal file (codes "-") then read else then_files file (opened file) rest

  unfoldable pub read_input : Stdin → List Bytes → Input
  unfolding read_files
  read_input no_stdin [] = input []
  read_input broken [] = refused []
  read_input (text s) [] = input s
  read_input stdin (file ∷ files) = read_files stdin (file ∷ files)

  abbrev pub format_input : ColumnOptions → Input → Option Run
  format_input o (refused e) = some (record { output = []; errors = e; status = 1 })
  format_input o (input s) =
      Option.map (λ out. record { output = out; errors = []; status = 0 })
        (format_columns u s o.table o.sep o.out_sep o.width o.no_merge)

  abbrev pub run_parsed : Stdin → Parsed → Option Run
  run_parsed stdin (complaint message) = some (record {
    output = [];
    errors = codes "column: " ++ message ++ codes "\n" ++ usage;
    status = 1;
  })
  run_parsed stdin (parsed o) =
      let formatted = format_input o (read_input stdin o.files) in
      if o.help then some (record { output = []; errors = usage; status = 0 }) else formatted

  -- `Exec`; `none` is a panic.
  unfoldable pub column : Stdin → List Bytes → Option Run
  unfolding read_input format_columns
  column stdin args = run_parsed stdin (getopt args)
