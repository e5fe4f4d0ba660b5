-- ===== src/Find/Glob/Brackets.antt =====
-- command/internal/find/matcher.go: `matchBracket` beside Find.Glob.Spec.
use mathlib.Core.Bool.{xor}
use kefka.Common.{
  ℕ, zero, suc, ◌+◌, ◌≤◌, ◌<◌, ◌≡◌, refl, sym, ap, ◌∙◌, ◌≢◌, ◌↔◌, ◌⊎◌, inl, inr, Bool, true, false,
  not, ◌&&◌, ◌||◌, Option, none, some, List, [], ◌∷◌, arith, ◌==◌, Bool-cases, length,
}
use kefka.Find.Glob.{
  Item, named, range, bracket_item, item_accepts, negated_by, bracket_loop, match_bracket,
}
use kefka.Unicode.{Unicode}
use kefka.Find.Glob.Bracket.{length-bracket_item-le}
use kefka.Find.Glob.Classes.{or-cases, in_class-InClass, InClass-in_class}
use kefka.Find.Glob.Members.{bracket_item-ItemAt, ItemAt-bracket_item}
use kefka.Find.Glob.Spec.{Members, closed, member, BracketAt, negated, positive, Accepts, Listed}

module _ (u : Unicode) (fold : Bool) where
  abbrev pub any_accepts : ℕ → List Item → Bool
  any_accepts c [] = false
  any_accepts c (i ∷ l) = item_accepts u fold c i || any_accepts c l

  item_accepts-Accepts : (c : ℕ) (i : Item) → (item_accepts u fold c i ≡ true) ↔ Accepts u fold c i
  unfolding item_accepts
  item_accepts-Accepts c (named name) = (in_class-InClass u fold c name, InClass-in_class u fold c)
  item_accepts-Accepts c (range lo hi) =
      (λ e. (ground (arith, e), ground (arith, e)), λ (a, b). ground (arith, a, b))

  or-right : (a b : Bool) → b ≡ true → a || b ≡ true
  or-right a b e = ground (arith, e)

  pub any_accepts-Listed : (c : ℕ) (l : List Item) → any_accepts c l ≡ true → Listed u fold c l
  any_accepts-Listed c [] e = cc
  any_accepts-Listed c (i ∷ l) e = elim (or-cases (item_accepts u fold c i) (any_accepts c l) e) [
    | inl k ↦ inl ((item_accepts-Accepts c i).0 k)
    | inr k ↦ inr (any_accepts-Listed c l k)
  ]

  pub Listed-any_accepts : (c : ℕ) (l : List Item) → Listed u fold c l → any_accepts c l ≡ true
  Listed-any_accepts c [] e = absurd e
  Listed-any_accepts c (i ∷ l) (inl a) = rw ((item_accepts-Accepts c i).1 a) refl
  Listed-any_accepts c (i ∷ l) (inr a) =
      or-right (item_accepts u fold c i) (any_accepts c l) (Listed-any_accepts c l a)

  closed_at :
      (first : Bool) (x : ℕ) (p : List ℕ)
      → (x == b']' && not first) ≡ true
      → Members u first (x ∷ p) [] p
  closed_at true x p e = absurd (ground (arith, e))
  closed_at false x p e = closed (ground (arith, e))

  open_at : (first : Bool) (x : ℕ) → (x == b']' && not first) ≡ false → (first ≡ true) ⊎ (x ≢ b']')
  open_at true x e = inl refl
  open_at false x e = inr (λ k. ground (arith, e, k))

  at_open : (first : Bool) (x : ℕ) → (first ≡ true) ⊎ (x ≢ b']') → (x == b']' && not first) ≡ false
  at_open first x (inl e) = ground (arith, e)
  at_open first x (inr n) = ground (arith, n)

  or-false : (m : Bool) → m || false ≡ m
  or-false m = ground arith

  or_assoc : (a b c : Bool) → (a || b) || c ≡ a || (b || c)
  or_assoc true b c = refl
  or_assoc false b c = refl

  bracket_loop-Members :
      (f : ℕ) (p : List ℕ) (c : ℕ) (first m : Bool) (q : List ℕ) (b : Bool)
      → bracket_loop u f p c fold first m ≡ some (q, b)
      → (l : List Item) × Members u first p l q × (b ≡ m || any_accepts c l)
  unfolding bracket_loop
  bracket_loop-Members zero p c first m q b e = cc
  bracket_loop-Members (suc f) [] c first m q b e = cc
  bracket_loop-Members (suc f) (x ∷ p) c first m q b e =
      elim (Bool-cases (x == b']' && not first)) [
        | inl k ↦
            let rest : p ≡ q = ground (arith, k, e) in
            let same : m ≡ b = ground (arith, k, e) in
            ([], rw (← rest) (closed_at first x p k), sym same ∙ sym (or-false m))
        | inr k ↦
            let i = (bracket_item u x p).0 in
            let (l, d, o) =
              bracket_loop-Members f (bracket_item u x p).1 c false (m || item_accepts u fold c i) q
                b (rw k at e) in
            (
              i ∷ l,
              member (open_at first x k) (bracket_item-ItemAt u x p) d,
              o ∙ or_assoc m (item_accepts u fold c i) (any_accepts c l),
            )
      ]

  Members-bracket_loop :
      {first : Bool} {p q : List ℕ} {l : List Item}
      → Members u first p l q
      → (f c : ℕ) (m : Bool) → length p < f
      → bracket_loop u f p c fold first m ≡ some (q, m || any_accepts c l)
  unfolding bracket_loop
  Members-bracket_loop (closed {x = x} e) zero c m h = absurd (omega (arith, h))
  Members-bracket_loop (closed {x = x} e) (suc f) c m h =
      let test : (x == b']' && true) ≡ true = ground (arith, e) in rw (test, or-false m) refl
  Members-bracket_loop (member o d t) zero c m h = absurd (omega (arith, h))
  Members-bracket_loop (member {first = first} {x = x} {p = p} {q = q} {i = i} {l = l} o d t)
        (suc f) c m h =
      let read = ItemAt-bracket_item u d in
      let shorter : length q ≤ length p =
        rw (ap (λ r. r.1) read) at (length-bracket_item-le u x p) in
      let rest =
        Members-bracket_loop t f c (m || item_accepts u fold c i) (omega (arith, h, shorter)) in
      rw (at_open first x o, read)
        (rw (or_assoc m (item_accepts u fold c i) (any_accepts c l)) at rest)

  negated_by-some :
      (n b : Bool) (o : Option (List ℕ × Bool)) (q : List ℕ)
      → negated_by n o ≡ some (q, b)
      → (m : Bool) × (o ≡ some (q, m)) × (b ≡ xor m n)
  unfolding negated_by
  negated_by-some n b none q e = cc
  negated_by-some n b (some (r, m)) q e = (m, ground (arith, e), ground (arith, e))

  pub match_bracket-BracketAt :
      (p : List ℕ) (c : ℕ) (q : List ℕ) (b : Bool)
      → match_bracket u p c fold ≡ some (q, b)
      → (n : Bool) × (l : List Item) × BracketAt u p n l q × (b ≡ xor (any_accepts c l) n)
  unfolding match_bracket
  match_bracket-BracketAt [] c q b e = cc
  match_bracket-BracketAt (x ∷ p) c q b e = elim (Bool-cases (x == b'!' || x == b'^')) [
    | inl k ↦
        let (m, o, r) = negated_by-some true b _ q (rw k at e) in
        let (l, d, a) = bracket_loop-Members _ p c true false q m o in
        (true, l, negated (ground (arith, k)) d, rw a at r)
    | inr k ↦
        let (m, o, r) = negated_by-some false b _ q (rw k at e) in
        let (l, d, a) = bracket_loop-Members _ (x ∷ p) c true false q m o in
        (false, l, positive (λ i. ground (arith, k, i)) (λ i. ground (arith, k, i)) d, rw a at r)
  ]

  pub BracketAt-match_bracket :
      {p q : List ℕ} {n : Bool} {l : List Item}
      → BracketAt u p n l q
      → (c : ℕ) → match_bracket u p c fold ≡ some (q, xor (any_accepts c l) n)
  unfolding match_bracket negated_by
  BracketAt-match_bracket (negated {x = x} {p = p} o d) c =
      let test : (x == b'!' || x == b'^') ≡ true = ground (arith, o) in
      rw (test, Members-bracket_loop d (length (x ∷ p) + 1) c false (omega arith)) refl
  BracketAt-match_bracket (positive {x = x} {p = p} a b d) c =
      let test : (x == b'!' || x == b'^') ≡ false = ground (arith, a, b) in
      rw (test, Members-bracket_loop d (length (x ∷ p) + 1) c false (omega arith)) refl
