-- ===== src/Diff/Command.antt =====
-- command/internal/diff/diff.go, lines 35 to 171: the options and the operands of the command. The
-- parser of options is a parameter.
use kefka.Common.{
  ℕ, Bool, true, false, Option, none, some, List, [], ◌∷◌, ◌++◌, if◌then◌else◌, Bytes, codes,
}
use kefka.Common.Int.{ℤ, pos, negsuc}
use kefka.Slashed.{join, base}
use kefka.Strconv.{atoi}
use kefka.Diff.{Format, normal, context, unified, ed, forward_ed, CompareOptions}
use kefka.Diff.Compare.{
  Stdin, Environment, Outcome, is_directory, diff_files, diff_dirs, no_such_file,
}

-- The options as the parser gives them.
pub record Flags : Type 0 where
  pub unified_flag : Bool
  pub unified_n : Bytes
  pub context_flag : Bool
  pub context_n : Bytes
  pub ed_script : Bool
  pub forward : Bool
  pub recursive : Bool
  pub ignore_space : Bool
  pub brief : Bool
  pub report_same : Bool
  pub ignore_case : Bool
  pub help : Bool

pub data Parsed : Type 0 where
  complaint : Bytes → Parsed
  parsed : Flags → List Bytes → Parsed

-- The format with its lines of context, or the text that is no number of lines.
pub data Choice : Type 0 where
  chosen : Format → ℕ → Choice
  invalid_length : Bytes → Choice

abbrev pub with_length : Format → Bytes → Option ℤ → Choice
with_length fmt n none = invalid_length n
with_length fmt n (some (negsuc k)) = invalid_length n
with_length fmt n (some (pos k)) = chosen fmt k

abbrev pub is_set : Bytes → Bool
is_set [] = false
is_set (c ∷ s) = true

-- the switch in `Exec`
unfoldable pub choose_format : Flags → Choice
unfolding atoi
choose_format flags =
    if flags.ed_script
    then chosen ed 3
    else if flags.forward
    then chosen forward_ed 3
    else if is_set flags.unified_n
    then with_length unified flags.unified_n (atoi flags.unified_n)
    else if is_set flags.context_n
    then with_length context flags.context_n (atoi flags.context_n)
    else if flags.unified_flag
    then chosen unified 3
    else if flags.context_flag
    then chosen context 3
    else chosen normal 3

abbrev pub options_of : Flags → Format → ℕ → CompareOptions
options_of flags fmt n = record {
  ignore_case = flags.ignore_case;
  ignore_space = flags.ignore_space;
  brief = flags.brief;
  report_same = flags.report_same;
  recursive = flags.recursive;
  fmt_kind = fmt;
  context_lines = n;
}

abbrev pub refuse : Stdin → Bytes → Outcome
refuse inp message = record { out = []; err = message; status = 2; left = inp }

abbrev pub usage : Bytes
usage =
    codes "Usage: diff [OPTION]... FILE1 FILE2\n"
    ++ codes "Compare files line by line.\n\n"
    ++ codes "  -b, --ignore-space-change     ignore changes in the amount of white space\n"
    ++ codes "  -c                            output 3 lines of copied context\n"
    ++ codes "  -C NUM, --context[=NUM]       output NUM (default 3) lines of copied context\n"
    ++ codes "  -e, --ed                      output an ed script\n"
    ++ codes "  -f                            output a forward ed script\n"
    ++ codes "  -u                            output 3 lines of unified context\n"
    ++ codes "  -U NUM, --unified[=NUM]       output NUM (default 3) lines of unified context\n"
    ++ codes "  -r, --recursive               recursively compare any subdirectories found\n"
    ++ codes "  -q, --brief                   report only whether files differ\n"
    ++ codes "  -s, --report-identical-files  report when files are the same\n"
    ++ codes "  -i, --ignore-case             ignore case differences\n"
    ++ codes "      --help                    display this help and exit\n"

module _ (getopt : List Bytes → Parsed) (env : Environment) where
  -- Where one operand is a directory, the file of the same name in it takes its place.
  unfoldable pub compare_operands :
      ℕ → CompareOptions → Bytes → Bytes → Option Bool → Option Bool → Option Outcome
  unfolding diff_files diff_dirs join base
  compare_operands f opts f1 f2 none d2 = some (no_such_file env.stdin f1)
  compare_operands f opts f1 f2 (some d1) none = some (no_such_file env.stdin f2)
  compare_operands f opts f1 f2 (some true) (some true) = diff_dirs env f opts env.stdin f1 f2
  compare_operands f opts f1 f2 (some true) (some false) =
      some (diff_files env opts env.stdin (join f1 (base f2)) f2)
  compare_operands f opts f1 f2 (some false) (some true) =
      some (diff_files env opts env.stdin f1 (join f2 (base f1)))
  compare_operands f opts f1 f2 (some false) (some false) =
      some (diff_files env opts env.stdin f1 f2)

  abbrev pub with_files : ℕ → CompareOptions → List Bytes → Option Outcome
  with_files f opts (f1 ∷ f2 ∷ others) =
      compare_operands f opts f1 f2 (is_directory env f1) (is_directory env f2)
  with_files f opts other = some (refuse env.stdin (codes "diff: missing operand\n"))

  abbrev pub with_choice : ℕ → Flags → List Bytes → Choice → Option Outcome
  with_choice f flags files (invalid_length n) =
      some (refuse env.stdin (codes "diff: invalid context length '" ++ n ++ codes "'\n"))
  with_choice f flags files (chosen fmt n) = with_files f (options_of flags fmt n) files

  abbrev pub with_parsed : ℕ → Parsed → Option Outcome
  with_parsed f (complaint message) =
      some (refuse env.stdin (codes "diff: " ++ message ++ codes "\n" ++ usage))
  with_parsed f (parsed flags files) =
      if flags.help
      then some (record { out = []; err = usage; status = 0; left = env.stdin })
      else with_choice f flags files (choose_format flags)

  -- `Exec`, on fuel for the depth of the directories; `none` means that it ran out.
  unfoldable pub diff : ℕ → List Bytes → Option Outcome
  unfolding choose_format is_directory compare_operands
  diff f args = with_parsed f (getopt args)
