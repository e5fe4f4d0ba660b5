-- ===== src/Diff/Compare/Files.antt =====
-- command/internal/diff/diff.go: the exit status of `diffFiles`.
use kefka.Common.{
  ℕ, ◌≤◌, ◌≡◌, refl, ◌↔◌, ◌⊎◌, inl, inr, true, Option, none, some, List, [], ◌∷◌, arith, ◌==◌,
  if◌then◌else◌, Bool-cases, Bytes, equal_iff,
}
use kefka.Diff.{CompareOptions, split_lines}
use kefka.Diff.Compare.{
  Environment, Stdin, stdin_left, lines_equal, read_content, comparable, diff_contents, diff_read,
  diff_files, equal_read, files_equal,
}

pub lines_equal_iff : (ls ms : List Bytes) → (lines_equal ls ms ≡ true) ↔ (ls ≡ ms)
unfolding lines_equal
lines_equal_iff [] [] = ground arith
lines_equal_iff [] (m ∷ ms) = ground arith
lines_equal_iff (l ∷ ls) [] = ground arith
lines_equal_iff (l ∷ ls) (m ∷ ms) = ground (arith, equal_iff l m, lines_equal_iff ls ms)

module _ (env : Environment) (opts : CompareOptions) where
  abbrev pub SameRead : Option Bytes → Option Bytes → Type 0
  SameRead none o = ⊥
  SameRead (some c1) none = ⊥
  SameRead (some c1) (some c2) =
      comparable env opts (split_lines c1) ≡ comparable env opts (split_lines c2)

  -- Read one after the other with some standard input, both files are read, and their lines are the
  -- same as far as the options compare them.
  abbrev pub SameLines : Bytes → Bytes → Type 0
  SameLines f1 f2 =
      (inp : Stdin) × SameRead (read_content env inp f1)
        (read_content env (stdin_left env inp f1) f2)

  -- One of the files cannot be read.
  abbrev pub Unreadable : Option Bytes → Option Bytes → Type 0
  Unreadable o1 o2 = (o1 ≡ none) ⊎ (o2 ≡ none)

  -- What the status of an outcome says of two files.
  abbrev pub Reports : ℕ → Option Bytes → Option Bytes → Type 0
  Reports status o1 o2 =
      ((status ≡ 0) ↔ SameRead o1 o2) × ((status ≡ 2) ↔ Unreadable o1 o2) × (status ≤ 2)

  diff_contents_status :
      (inp : Stdin) (f1 f2 c1 c2 : Bytes)
      → (diff_contents env opts inp f1 f2 c1 c2).status ≡ (
          if lines_equal
            (comparable env opts (split_lines c1))
            (comparable env opts (split_lines c2))
          then 0
          else 1)
  unfolding diff_contents
  diff_contents_status inp f1 f2 c1 c2 = ground arith

  diff_contents-Reports :
      (inp : Stdin) (f1 f2 c1 c2 : Bytes)
      → Reports (diff_contents env opts inp f1 f2 c1 c2).status (some c1) (some c2)
        × (equal_read env opts (some c1) (some c2)
            ≡ ((diff_contents env opts inp f1 f2 c1 c2).status == 0))
  diff_contents-Reports inp f1 f2 c1 c2 =
      let a = comparable env opts (split_lines c1) in
      let b = comparable env opts (split_lines c2) in
      rw (diff_contents_status inp f1 f2 c1 c2) (elim (Bool-cases (lines_equal a b)) [
        | inl e ↦
            let same = (lines_equal_iff a b).0 e in
            rw e ((((λ h. same), (λ h. refl)), (ground arith, ground arith), omega arith), refl)
        | inr e ↦ rw e (
          (
            ((λ h. absurd (omega arith)), (λ h. ground (arith, (lines_equal_iff a b).1 h))),
            (ground arith, ground arith),
            omega arith,
          ),
          refl,
        )
      ])

  diff_read-Reports :
      (inp : Stdin) (f1 f2 : Bytes) (o1 o2 : Option Bytes)
      → Reports (diff_read env opts inp f1 f2 o1 o2).status o1 o2
        × (equal_read env opts o1 o2 ≡ ((diff_read env opts inp f1 f2 o1 o2).status == 0))
  diff_read-Reports inp f1 f2 none o = (
    (((λ h. absurd (omega arith)), (λ h. absurd h)), ((λ h. inl refl), (λ h. refl)), omega arith),
    refl,
  )
  diff_read-Reports inp f1 f2 (some c1) none = (
    (((λ h. absurd (omega arith)), (λ h. absurd h)), ((λ h. inr refl), (λ h. refl)), omega arith),
    refl,
  )
  diff_read-Reports inp f1 f2 (some c1) (some c2) =
      diff_contents-Reports (stdin_left env (stdin_left env inp f1) f2) f1 f2 c1 c2

  -- The exit status of diffFiles is 2 when a file cannot be read, and otherwise 0 exactly when the
  -- lines compare equal, else 1; and filesEqual answers whether it is 0. The second file is read from
  -- what the first leaves of the standard input.
  pub diff_files-Reports :
      (inp : Stdin) (f1 f2 : Bytes)
      → Reports
          (diff_files env opts inp f1 f2).status
          (read_content env inp f1)
          (read_content env (stdin_left env inp f1) f2)
        × (files_equal env inp f1 f2 opts ≡ ((diff_files env opts inp f1 f2).status == 0))
  unfolding diff_files files_equal
  diff_files-Reports inp f1 f2 =
      diff_read-Reports inp f1 f2 (read_content env inp f1)
        (read_content env (stdin_left env inp f1) f2)
