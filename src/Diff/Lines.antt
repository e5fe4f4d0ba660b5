-- ===== src/Diff/Lines.antt =====
-- command/internal/diff/diff.go: `splitLines` on texts.
use kefka.Common.{
  ℕ, ◌≡◌, refl, sym, ap, ◌∙◌, ◌≢◌, inl, inr, true, false, List, [], ◌∷◌, ◌++◌, arith, ◌==◌,
  Bool-cases, Bytes, contains,
}
use mathlib.Core.Path.{subst}
use kefka.Diff.{newline, on_line, split_after, drop_empty, split_lines, has_nl}

-- All the lines, one behind the other.
abbrev pub concat : List Bytes → Bytes
concat [] = []
concat (l ∷ ls) = l ++ concat ls

-- A line: some bytes, a newline at most at the end.
abbrev pub IsLine : Bytes → Type 0
IsLine [] = ⊥
IsLine (c ∷ []) = Unit
IsLine (c ∷ d ∷ l) = (c ≢ newline) × IsLine (d ∷ l)

-- Lines, each but the last ended by a newline.
abbrev pub AreLines : List Bytes → Type 0
AreLines [] = Unit
AreLines (l ∷ []) = IsLine l
AreLines (l ∷ m ∷ ls) = (IsLine l × (has_nl l ≡ true)) × AreLines (m ∷ ls)

concat-drop_empty : (ls : List Bytes) → concat (drop_empty ls) ≡ concat ls
unfolding drop_empty
concat-drop_empty [] = refl
concat-drop_empty ([] ∷ []) = refl
concat-drop_empty ((c ∷ l) ∷ []) = refl
concat-drop_empty (l ∷ m ∷ ls) = ap (λ t. l ++ t) (concat-drop_empty (m ∷ ls))

concat-on_line : (c : ℕ) (ls : List Bytes) → concat (on_line c ls) ≡ c ∷ concat ls
concat-on_line c [] = refl
concat-on_line c (l ∷ ls) = refl

concat-split_after : (s : Bytes) → concat (split_after s) ≡ s
unfolding split_after
concat-split_after [] = refl
concat-split_after (c ∷ s) = elim (Bool-cases (c == newline)) [
  | inl e ↦ rw e (ap (λ t. c ∷ t) (concat-split_after s))
  | inr e ↦ rw e (concat-on_line c (split_after s) ∙ ap (λ t. c ∷ t) (concat-split_after s))
]

-- A line in front of a text comes off as the first line.
split_after-IsLine :
    (l s : Bytes) → IsLine l → has_nl l ≡ true → split_after (l ++ s) ≡ l ∷ split_after s
unfolding split_after has_nl
split_after-IsLine [] s h e = absurd h
split_after-IsLine (c ∷ []) s h e = rw e refl
split_after-IsLine (c ∷ d ∷ l) s (h, k) e =
    let other : (c == newline) ≡ false = ground arith in
    rw (other, split_after-IsLine (d ∷ l) s k e) refl

split_after-shape : (s : Bytes) → (l : Bytes) × (ls : List Bytes) × (split_after s ≡ l ∷ ls)
unfolding split_after
split_after-shape [] = ([], [], refl)
split_after-shape (c ∷ s) = elim (Bool-cases (c == newline)) [
  | inl e ↦ (c ∷ [], split_after s, rw e refl)
  | inr e ↦ let (l, ls, k) = split_after-shape s in (c ∷ l, ls, rw (e, k) refl)
]

drop_empty-split_after :
    (l s : Bytes) → drop_empty (l ∷ split_after s) ≡ l ∷ drop_empty (split_after s)
unfolding drop_empty
drop_empty-split_after l s = let (m, ms, k) = split_after-shape s in rw k refl

drop_empty-split_lines : (s : Bytes) → drop_empty (split_after s) ≡ split_lines s
unfolding drop_empty split_after split_lines
drop_empty-split_lines [] = refl
drop_empty-split_lines (c ∷ s) = refl

pub split_lines-IsLine :
    (l s : Bytes) → IsLine l → has_nl l ≡ true → split_lines (l ++ s) ≡ l ∷ split_lines s
split_lines-IsLine l s h e =
    sym (drop_empty-split_lines (l ++ s))
    ∙ ap drop_empty (split_after-IsLine l s h e)
    ∙ drop_empty-split_after l s
    ∙ ap (λ t. l ∷ t) (drop_empty-split_lines s)

-- What `SplitAfter` gives: lines with their newlines, and a last one without.
abbrev Pieces : List Bytes → Type 0
Pieces [] = ⊥
Pieces (l ∷ []) = contains l newline ≡ false
Pieces (l ∷ m ∷ ls) = (IsLine l × (has_nl l ≡ true)) × Pieces (m ∷ ls)

cons-IsLine : (c : ℕ) (l : Bytes) → c ≢ newline → IsLine l → IsLine (c ∷ l)
cons-IsLine c [] h k = absurd k
cons-IsLine c (d ∷ l) h k = (h, k)

has_nl-cons : (c : ℕ) (l : Bytes) → has_nl l ≡ true → has_nl (c ∷ l) ≡ true
unfolding has_nl
has_nl-cons c [] h = ground (arith, h)
has_nl-cons c (d ∷ l) h = h

cons-Pieces : (c : ℕ) (ls : List Bytes) → c ≢ newline → Pieces ls → Pieces (on_line c ls)
unfolding contains
cons-Pieces c [] h k = absurd k
cons-Pieces c (l ∷ []) h k = ground arith
cons-Pieces c (l ∷ m ∷ ls) h ((a, b), k) = ((cons-IsLine c l h a, has_nl-cons c l b), k)

split_after-Pieces : (s : Bytes) → Pieces (split_after s)
unfolding split_after contains has_nl
split_after-Pieces [] = refl
split_after-Pieces (c ∷ s) = elim (Bool-cases (c == newline)) [
  | inl e ↦
      let (m, ms, k) = split_after-shape s in
      rw (e, k) ((tt, e), subst Pieces k (split_after-Pieces s))
  | inr e ↦ rw e (cons-Pieces c (split_after s) (ground arith) (split_after-Pieces s))
]

contains-IsLine : (c : ℕ) (l : Bytes) → contains (c ∷ l) newline ≡ false → IsLine (c ∷ l)
unfolding contains
contains-IsLine c [] h = tt
contains-IsLine c (d ∷ l) h = (ground arith, contains-IsLine d l (ground arith))

Pieces-AreLines : (ls : List Bytes) → Pieces ls → AreLines (drop_empty ls)
unfolding drop_empty
Pieces-AreLines [] h = absurd h
Pieces-AreLines ([] ∷ []) h = tt
Pieces-AreLines ((c ∷ l) ∷ []) h = contains-IsLine c l h
Pieces-AreLines (l ∷ [] ∷ []) (h, k) = h.0
Pieces-AreLines (l ∷ (c ∷ m) ∷ []) (h, k) = (h, contains-IsLine c m k)
Pieces-AreLines (l ∷ m ∷ n ∷ ls) (h, k) = (h, Pieces-AreLines (m ∷ n ∷ ls) k)

-- The lines of a text make up the text, and are lines: none is empty, and each ends at its first
-- newline, which only the last may lack.
pub split_lines_lem : (s : Bytes) → (concat (split_lines s) ≡ s) × AreLines (split_lines s)
split_lines_lem s = (
  ap concat (sym (drop_empty-split_lines s))
      ∙ concat-drop_empty (split_after s)
      ∙ concat-split_after s,
  subst AreLines (drop_empty-split_lines s)
      (Pieces-AreLines (split_after s) (split_after-Pieces s)),
)
