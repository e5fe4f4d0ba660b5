-- ===== src/Diff/Compare/Names.antt =====
-- command/internal/diff/diff.go: the names that `diffDirs` goes through, of both directories.
use mathlib.Core.Path.{subst}
use kefka.Common.{
  ◌≡◌, refl, sym, ap, ◌∙◌, inl, inr, true, ◌||◌, List, [], ◌∷◌, ◌++◌, arith, Bool-cases, Bytes,
  equal, equal_iff,
}
use kefka.Common.Sort.{sort_strings, insert}
use kefka.Diff.Compare.{mem_string, distinct}

-- Members of the lists that are made of the names.
mem-insert :
    (s t : Bytes) (l : List Bytes) → mem_string s (insert t l) ≡ (equal s t || mem_string s l)
unfolding mem_string insert
mem-insert s t [] = refl
mem-insert s t (u ∷ l) = ground (arith, mem-insert s t l)

mem-sort_strings : (s : Bytes) (l : List Bytes) → mem_string s (sort_strings l) ≡ mem_string s l
unfolding mem_string sort_strings
mem-sort_strings s [] = refl
mem-sort_strings s (t ∷ l) =
    mem-insert s t (sort_strings l) ∙ ap (λ b. equal s t || b) (mem-sort_strings s l)

mem-distinct :
    (s : Bytes) (l : List Bytes) → mem_string s l ≡ true → mem_string s (distinct l) ≡ true
unfolding mem_string distinct
mem-distinct s [] h = h
mem-distinct s (t ∷ l) h = elim (Bool-cases (mem_string t l)) [
  | inl e ↦ rw e (elim (Bool-cases (equal s t)) [
    | inl k ↦ mem-distinct s l (subst (λ x. mem_string x l ≡ true) (sym ((equal_iff s t).0 k)) e)
    | inr k ↦ mem-distinct s l (ground (arith, k, h))
  ])
  | inr e ↦ rw e (elim (Bool-cases (equal s t)) [
    | inl k ↦ rw k refl
    | inr k ↦ rw k (mem-distinct s l (ground (arith, k, h)))
  ])
]

mem-append :
    (s : Bytes) (l m : List Bytes) → mem_string s (l ++ m) ≡ (mem_string s l || mem_string s m)
unfolding mem_string
mem-append s [] m = refl
mem-append s (t ∷ l) m = ground (arith, mem-append s l m)

pub mem-either :
    (s : Bytes) (l m : List Bytes)
    → (mem_string s l || mem_string s m) ≡ true
    → mem_string s (sort_strings (distinct (l ++ m))) ≡ true
mem-either s l m h =
    mem-sort_strings s (distinct (l ++ m)) ∙ mem-distinct s (l ++ m) (mem-append s l m ∙ h)

mem-distinct_of :
    (s : Bytes) (l : List Bytes) → mem_string s (distinct l) ≡ true → mem_string s l ≡ true
unfolding mem_string distinct
mem-distinct_of s [] h = h
mem-distinct_of s (t ∷ l) h = elim (Bool-cases (equal s t)) [
  | inl k ↦ rw k refl
  | inr k ↦ elim (Bool-cases (mem_string t l)) [
    | inl e ↦ rw k (mem-distinct_of s l (ground (arith, e, h)))
    | inr e ↦ rw k (mem-distinct_of s l (ground (arith, e, h, k)))
  ]
]

pub mem-either_of :
    (s : Bytes) (l m : List Bytes)
    → mem_string s (sort_strings (distinct (l ++ m))) ≡ true
    → (mem_string s l || mem_string s m) ≡ true
mem-either_of s l m h =
    sym (mem-append s l m)
    ∙ mem-distinct_of s (l ++ m) (sym (mem-sort_strings s (distinct (l ++ m))) ∙ h)
