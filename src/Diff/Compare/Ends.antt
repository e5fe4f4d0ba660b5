-- ===== src/Diff/Compare/Ends.antt =====
-- command/internal/diff/diff.go: `diffDirs` ends where the directories are not nested without end.
use mathlib.Core.Path.{subst}
use kefka.Common.{
  ℕ, zero, suc, ◌≡◌, refl, sym, inl, inr, Bool, true, false, ◌||◌, Option, none, some, List, [],
  ◌∷◌, ◌++◌, arith, ◌==◌, if◌then◌else◌, Bool-cases, Bytes, equal, equal_iff,
}
use kefka.Common.Sort.{sort_strings}
use kefka.Slashed.{join}
use kefka.Diff.{CompareOptions}
use kefka.Diff.Compare.{
  Environment, Stdin, Outcome, Listing, unlisted, names, mem_string, distinct, read_dir_names,
  is_directory, or_false, diff_entries, diff_name, behind, diff_loop, diff_listed, diff_dirs,
}
use kefka.Diff.Compare.Names.{mem-either_of}
use kefka.Diff.Compare.Directories.{diff_loop-some, diff_name-both, diff_name-left, diff_name-right}

-- An outcome is reached.
abbrev Ends : Option Outcome → Type 0
Ends o = (r : Outcome) × (o ≡ some r)

behind-Ends :
    (o : Outcome) (b : Bool) (rest : Option Outcome)
    → Ends rest
    → Ends (if b then behind o rest else some o)
behind-Ends o b none (r, e) = absurd (ground arith)
behind-Ends o true (some s) h =
    (record { out = o.out ++ s.out; err = o.err ++ s.err; status = s.status; left = s.left }, refl)
behind-Ends o false (some s) h = (o, refl)

diff_loop-Ends :
    (visit : Stdin → Bytes → Option Outcome) (l : List Bytes) (differed : Bool) (inp : Stdin)
    → ((t : Stdin) (s : Bytes) → mem_string s l ≡ true → Ends (visit t s))
    → Ends (diff_loop visit l differed inp)
unfolding diff_loop mem_string
diff_loop-Ends visit [] differed inp h = (_, refl)
diff_loop-Ends visit (t ∷ l) differed inp h =
    let self : (equal t t || mem_string t l) ≡ true = ground (arith, (equal_iff t t).1 refl) in
    let (o, k) = h inp t self in
    subst Ends (sym (diff_loop-some visit t l differed inp o k)) (
      behind-Ends o (o.status == 0 || o.status == 1)
        (diff_loop visit l (differed || o.status == 1) o.left)
        (diff_loop-Ends visit l (differed || o.status == 1) o.left
          (λ t s m. h t s (ground (arith, m)))))

module _ (env : Environment) (opts : CompareOptions) where
  -- No directory is deeper than a number below another.
  abbrev pub Height : ℕ → Bytes → Type 0
  Height zero d = ⊥
  Height (suc n) d =
      (l : List Bytes) (s : Bytes)
      → read_dir_names env d ≡ names l
      → mem_string s l ≡ true
      → or_false (is_directory env (join d s)) ≡ true
      → Height n (join d s)

  diff_entries-Ends :
      (subdirs : Stdin → Bytes → Bytes → Option Outcome) (inp : Stdin) (p1 p2 : Bytes)
      (b1 b2 : Bool)
      → (b1 ≡ true → Ends (subdirs inp p1 p2))
      → Ends (diff_entries env subdirs opts inp p1 p2 b1 b2)
  unfolding diff_entries
  diff_entries-Ends subdirs inp p1 p2 true true h = elim (Bool-cases opts.recursive) [
    | inl e ↦ rw e (h refl)
    | inr e ↦ rw e (_, refl)
  ]
  diff_entries-Ends subdirs inp p1 p2 true false h = (_, refl)
  diff_entries-Ends subdirs inp p1 p2 false true h = (_, refl)
  diff_entries-Ends subdirs inp p1 p2 false false h = (_, refl)

  diff_name-Ends :
      (subdirs : Stdin → Bytes → Bytes → Option Outcome) (inp : Stdin) (d1 d2 : Bytes)
      (l1 l2 : List Bytes) (s : Bytes)
      → (mem_string s l1 || mem_string s l2) ≡ true
      → (mem_string s l1 ≡ true
          → or_false (is_directory env (join d1 s)) ≡ true
          → Ends (subdirs inp (join d1 s) (join d2 s)))
      → Ends (diff_name env subdirs opts d1 d2 l1 l2 inp s)
  diff_name-Ends subdirs inp d1 d2 l1 l2 s m h = elim (Bool-cases (mem_string s l1)) [
    | inl k1 ↦ elim (Bool-cases (mem_string s l2)) [
      | inl k2 ↦ subst Ends (sym (diff_name-both env opts subdirs d1 d2 l1 l2 inp s k1 k2)) (
          diff_entries-Ends subdirs inp (join d1 s) (join d2 s)
            (or_false (is_directory env (join d1 s))) (or_false (is_directory env (join d2 s)))
            (h k1))
      | inr k2 ↦ (_, diff_name-left env opts subdirs d1 d2 l1 l2 inp s k1 k2)
    ]
    | inr k1 ↦ elim (Bool-cases (mem_string s l2)) [
      | inl k2 ↦ (_, diff_name-right env opts subdirs d1 d2 l1 l2 inp s k1 k2)
      | inr k2 ↦ absurd (ground arith)
    ]
  ]

  diff_listed-Ends :
      (subdirs : Stdin → Bytes → Bytes → Option Outcome) (inp : Stdin) (d1 d2 : Bytes)
      (o1 o2 : Listing)
      → ((l : List Bytes) (t : Stdin) (s : Bytes)
          → o1 ≡ names l
          → mem_string s l ≡ true
          → or_false (is_directory env (join d1 s)) ≡ true
          → Ends (subdirs t (join d1 s) (join d2 s)))
      → Ends (diff_listed env subdirs opts inp d1 d2 o1 o2)
  diff_listed-Ends subdirs inp d1 d2 (unlisted t) o2 h = (_, refl)
  diff_listed-Ends subdirs inp d1 d2 (names l) (unlisted t) h = (_, refl)
  diff_listed-Ends subdirs inp d1 d2 (names l) (names m) h =
      diff_loop-Ends (diff_name env subdirs opts d1 d2 l m) (sort_strings (distinct (l ++ m))) false
        inp (λ t s i. diff_name-Ends subdirs t d1 d2 l m s (mem-either_of s l m i) (h l t s refl))

  -- A comparison ends, with an outcome, with fuel for the height of the first directory.
  pub diff_dirs-Ends :
      (n : ℕ) (inp : Stdin) (d1 d2 : Bytes)
      → Height n d1
      → (r : Outcome) × (diff_dirs env n opts inp d1 d2 ≡ some r)
  unfolding diff_dirs
  diff_dirs-Ends zero inp d1 d2 h = absurd h
  diff_dirs-Ends (suc n) inp d1 d2 h =
      diff_listed-Ends (diff_dirs env n opts) inp d1 d2 (read_dir_names env d1)
        (read_dir_names env d2)
        (λ l t s e m i. diff_dirs-Ends n t (join d1 s) (join d2 s) (h l s e m i))
