-- ===== src/Find/Glob/Bracket.antt =====
-- command/internal/find/matcher.go: where an element of a pattern ends, and the loop over
-- brackets.
use kefka.Common.{
  ℕ, zero, suc, ◌+◌, ◌≤◌, ◌<◌, ◌≡◌, refl, inl, inr, Bool, true, false, ◌||◌, Option, none, some,
  List, [], ◌∷◌, ◌++◌, arith, ◌==◌, if◌then◌else◌, Option-cases, length,
}
use kefka.Find.Glob.{
  escaped, range_end, range_item, class_end, class_at, bracket_item, item_accepts, bracket_loop,
  match_bracket, escaped_one, match_one, negated_by,
}
use kefka.Unicode.{Unicode}

length-escaped-le : (x : ℕ) (p : List ℕ) → length (escaped x p).1 ≤ length p
unfolding escaped
length-escaped-le x [] = omega arith
length-escaped-le x (y ∷ p) = ground arith

length-range_end-le : (lo : ℕ) (p : List ℕ) → length (range_end lo p).1 ≤ length p
unfolding range_end
length-range_end-le lo [] = omega arith
length-range_end-le lo (d ∷ []) = omega arith
length-range_end-le lo (d ∷ x ∷ p) = ground (arith, length-escaped-le x p)

length-range_item-le : (x : ℕ) (p : List ℕ) → length (range_item x p).1 ≤ length p
unfolding range_item
length-range_item-le x p =
    omega (arith, length-escaped-le x p, length-range_end-le (escaped x p).0 (escaped x p).1)

-- The list that an optional answer leaves has at most `n` runes.
abbrev LeavesAtMost {ℓ} : {A : Type ℓ} → ℕ → Option (A × List ℕ) → Type 0
LeavesAtMost n none = Unit
LeavesAtMost n (some (a, q)) = length q ≤ n

module _ (u : Unicode) where
  class_end-LeavesAtMost :
      (n : ℕ) (name p : List ℕ) → length p ≤ n → LeavesAtMost n (class_end u name p)
  unfolding class_end
  class_end-LeavesAtMost n name [] h = tt
  class_end-LeavesAtMost n name (a ∷ []) h = tt
  class_end-LeavesAtMost n name (a ∷ b ∷ p) h =
      ground (arith, class_end-LeavesAtMost n (name ++ a ∷ []) (b ∷ p))

  class_at-LeavesAtMost : (x : ℕ) (p : List ℕ) → LeavesAtMost (length p) (class_at u x p)
  unfolding class_at
  class_at-LeavesAtMost x [] = tt
  class_at-LeavesAtMost x (y ∷ p) = ground (arith, class_end-LeavesAtMost (suc (length p)) [] p)

  pub length-bracket_item-le : (x : ℕ) (p : List ℕ) → length (bracket_item u x p).1 ≤ length p
  unfolding bracket_item
  length-bracket_item-le x p = ground (arith, class_at-LeavesAtMost x p, length-range_item-le x p)

  -- Two answers of the loop leave the same pattern, or neither finds the closing bracket.
  abbrev Agree : Option (List ℕ × Bool) → Option (List ℕ × Bool) → Type 0
  Agree none none = Unit
  Agree (some (q, m)) (some (r, n)) = q ≡ r
  Agree _ _ = ⊥

  bracket_loop-Agree :
      (f g : ℕ) (p : List ℕ) (c d : ℕ) (fold first m n : Bool)
      → length p < f
      → length p < g
      → Agree (bracket_loop u f p c fold first m) (bracket_loop u g p d fold first n)
  unfolding bracket_loop
  bracket_loop-Agree zero g p c d fold first m n h k = absurd (omega arith)
  bracket_loop-Agree (suc f) zero p c d fold first m n h k = absurd (omega arith)
  bracket_loop-Agree (suc f) (suc g) [] c d fold first m n h k = tt
  bracket_loop-Agree (suc f) (suc g) (x ∷ p) c d fold first m n h k =
      let (item, q) = bracket_item u x p in
      let shorter : length q ≤ length p = length-bracket_item-le x p in
      ground (
        arith,
        bracket_loop-Agree f g q c d fold false (m || item_accepts u fold c item)
            (n || item_accepts u fold d item) (omega arith) (omega arith),
      )

  bracket_loop-LeavesAtMost :
      (f : ℕ) (p : List ℕ) (c : ℕ) (fold first m : Bool) (q : List ℕ) (b : Bool)
      → bracket_loop u f p c fold first m ≡ some (q, b)
      → length q ≤ length p
  unfolding bracket_loop
  bracket_loop-LeavesAtMost zero p c fold first m q b e = cc
  bracket_loop-LeavesAtMost (suc f) [] c fold first m q b e = cc
  bracket_loop-LeavesAtMost (suc f) (x ∷ p) c fold first m q b e =
      let (item, r) = bracket_item u x p in
      ground (
        arith,
        length-bracket_item-le x p,
        bracket_loop-LeavesAtMost f r c fold false (m || item_accepts u fold c item) q b,
      )

  negated_by-Agree :
      (b : Bool) (o r : Option (List ℕ × Bool))
      → Agree o r
      → Agree (negated_by b o) (negated_by b r)
  unfolding negated_by
  negated_by-Agree b none none h = tt
  negated_by-Agree b none (some r) h = h
  negated_by-Agree b (some o) none h = h
  negated_by-Agree b (some o) (some r) h = h

  negated_by-LeavesAtMost :
      (n : ℕ) (b : Bool) (o : Option (List ℕ × Bool))
      → ((q : List ℕ) (m : Bool) → o ≡ some (q, m) → length q ≤ n)
      → (q : List ℕ) (m : Bool) → negated_by b o ≡ some (q, m)
      → length q ≤ n
  unfolding negated_by
  negated_by-LeavesAtMost n b none h q m e = cc
  negated_by-LeavesAtMost n b (some (r, k)) h q m e =
      let e' : r ≡ q = ground arith in rw (← e') (h r k refl)

  match_bracket-Agree :
      (p : List ℕ) (c d : ℕ) (fold : Bool)
      → Agree (match_bracket u p c fold) (match_bracket u p d fold)
  unfolding match_bracket
  match_bracket-Agree [] c d fold = tt
  match_bracket-Agree (x ∷ p) c d fold =
      let negate = x == b'!' || x == b'^' in
      let r = if negate then p else x ∷ p in
      let fits : length r < length (x ∷ p) + 1 = ground arith in
      negated_by-Agree negate _ _ (
        bracket_loop-Agree (length (x ∷ p) + 1) (length (x ∷ p) + 1) r c d fold true false false
          fits fits)

  match_bracket-length :
      (p : List ℕ) (c : ℕ) (fold : Bool) (q : List ℕ) (m : Bool)
      → match_bracket u p c fold ≡ some (q, m)
      → length q ≤ length p
  unfolding match_bracket
  match_bracket-length [] c fold q m e = cc
  match_bracket-length (x ∷ p) c fold q m e =
      let negate = x == b'!' || x == b'^' in
      let r = if negate then p else x ∷ p in
      let fits : length r ≤ length (x ∷ p) = ground arith in
      let o = bracket_loop u (length (x ∷ p) + 1) r c fold true false in
      negated_by-LeavesAtMost (length (x ∷ p)) negate o
        (λ q' m' e'.
          omega
            (arith, bracket_loop-LeavesAtMost (length (x ∷ p) + 1) r c fold true false q' m' e'))
        q m e

  -- The pattern behind the element `x ∷ p` is the same for every rune.
  pub match_one-rest :
      (x : ℕ) (p : List ℕ) (c d : ℕ) (fold : Bool)
      → (match_one u x p c fold).0 ≡ (match_one u x p d fold).0
  unfolding match_one escaped_one
  match_one-rest x [] c d fold = ground (arith, match_bracket-Agree [] c d fold)
  match_one-rest x (y ∷ p) c d fold = ground (arith, match_bracket-Agree (y ∷ p) c d fold)

  pub length-match_one-le :
      (x : ℕ) (p : List ℕ) (c : ℕ) (fold : Bool) → length (match_one u x p c fold).0 ≤ length p
  unfolding match_one escaped_one
  length-match_one-le x [] c fold = ground (arith, match_bracket-length [] c fold)
  length-match_one-le x (y ∷ p) c fold = elim (Option-cases (match_bracket u (y ∷ p) c fold)) [
    | inl e ↦ ground arith
    | inr (r, e) ↦ ground (arith, match_bracket-length (y ∷ p) c fold r.0 r.1 e)
  ]
