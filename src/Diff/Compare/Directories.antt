-- ===== src/Diff/Compare/Directories.antt =====
-- command/internal/diff/diff.go: what an exit status of 0 of `diffDirs` says, and its end.
use kefka.Common.{
  ◌≡◌, refl, Bool, true, false, ◌||◌, Option, none, some, List, ◌∷◌, ◌==◌, if◌then◌else◌, Bytes,
}
use kefka.Slashed.{join}
use kefka.Diff.{CompareOptions}
use kefka.Diff.Compare.{
  Environment, Stdin, Outcome, names, mem_string, read_dir_names, is_directory, or_false,
  diff_entries, only_in, diff_name, behind, diff_loop,
}
use kefka.Diff.Compare.Files.{SameLines}

-- A round for a name that ended well.
abbrev Visited : (Stdin → Bytes → Option Outcome) → Bytes → Type 0
Visited visit name = (inp : Stdin) × ((r : Outcome) × (visit inp name ≡ some r) × (r.status ≡ 0))

pub diff_loop-none :
    (visit : Stdin → Bytes → Option Outcome) (t : Bytes) (l : List Bytes) (differed : Bool)
    (inp : Stdin)
    → visit inp t ≡ none
    → diff_loop visit (t ∷ l) differed inp ≡ none
unfolding diff_loop
diff_loop-none visit t l differed inp k = rw (k, diff_loop) refl

pub diff_loop-some :
    (visit : Stdin → Bytes → Option Outcome) (t : Bytes) (l : List Bytes) (differed : Bool)
    (inp : Stdin) (o : Outcome)
    → visit inp t ≡ some o
    → diff_loop visit (t ∷ l) differed inp ≡ (
        if o.status == 0 || o.status == 1
        then behind o (diff_loop visit l (differed || o.status == 1) o.left)
        else some o)
unfolding diff_loop
diff_loop-some visit t l differed inp o k = rw (k, diff_loop) refl

module _ (env : Environment) (opts : CompareOptions) where
  -- Two directories list the same names, and the entries of each name are files with the same
  -- lines, as far as the options compare them, or such directories.
  mutual
    pub data SameTree : Bytes → Bytes → Type 0 where
      same_tree :
          {d1 d2 : Bytes} (names1 names2 : List Bytes)
          → read_dir_names env d1 ≡ names names1
          → read_dir_names env d2 ≡ names names2
          → ((s : Bytes) → mem_string s names1 ≡ mem_string s names2)
          → ((s : Bytes) → mem_string s names1 ≡ true → SameEntry (join d1 s) (join d2 s))
          → SameTree d1 d2

    pub data SameEntry : Bytes → Bytes → Type 0 where
      directories :
          {p1 p2 : Bytes}
          → or_false (is_directory env p1) ≡ true
          → or_false (is_directory env p2) ≡ true
          → SameTree p1 p2
          → SameEntry p1 p2
      files :
          {p1 p2 : Bytes}
          → or_false (is_directory env p1) ≡ false
          → or_false (is_directory env p2) ≡ false
          → SameLines env opts p1 p2
          → SameEntry p1 p2

  -- A comparison of directories that ends with status 0 only where they are the same.
  abbrev Sound : (Stdin → Bytes → Bytes → Option Outcome) → Type 0
  Sound subdirs =
      (inp : Stdin) (p1 p2 : Bytes) (r : Outcome)
      → subdirs inp p1 p2 ≡ some r
      → r.status ≡ 0
      → SameTree p1 p2

  module _ (subdirs : Stdin → Bytes → Bytes → Option Outcome) (d1 d2 : Bytes) (l1 l2 : List Bytes)
      (inp : Stdin) (s : Bytes) where
    pub diff_name-both :
        mem_string s l1 ≡ true
        → mem_string s l2 ≡ true
        → diff_name env subdirs opts d1 d2 l1 l2 inp s
          ≡ diff_entries env subdirs opts inp
              (join d1 s)
              (join d2 s)
              (or_false (is_directory env (join d1 s)))
              (or_false (is_directory env (join d2 s)))
    unfolding diff_name
    diff_name-both h k = rw (h, k) refl

    pub diff_name-left :
        mem_string s l1 ≡ true
        → mem_string s l2 ≡ false
        → diff_name env subdirs opts d1 d2 l1 l2 inp s ≡ some (only_in inp d1 s)
    unfolding diff_name
    diff_name-left h k = rw (h, k) refl

    pub diff_name-right :
        mem_string s l1 ≡ false
        → mem_string s l2 ≡ true
        → diff_name env subdirs opts d1 d2 l1 l2 inp s ≡ some (only_in inp d2 s)
    unfolding diff_name
    diff_name-right h k = rw (h, k) refl
