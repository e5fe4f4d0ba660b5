-- ===== src/Find/Glob/Members.antt =====
-- command/internal/find/matcher.go: the items that `matchBracket` reads, beside Find.Glob.Spec.
use kefka.Common.{
  ℕ, ◌≡◌, refl, sym, ◌∙◌, inl, inr, true, not, ◌&&◌, some, List, [], ◌∷◌, ◌++◌, append-nil,
  append_assoc, arith, ◌==◌, Bool-cases, Option-cases,
}
use kefka.Find.Glob.{Item, named, escaped, range_end, range_item, class_end, class_at, bracket_item}
use kefka.Unicode.{Unicode}
use kefka.Find.Glob.Spec.{
  Escaped, behind, bare, at_end, ClassName, name_ends, letter, ClassAt, class_named, RangeEnd,
  up_to, no_text, one_left, no_dash, ItemAt, class_item,
}
use kefka.Find.Glob.Spec as Spec

escaped-Escaped : (x : ℕ) (p : List ℕ) → Escaped (x ∷ p) (escaped x p).0 (escaped x p).1
unfolding escaped
escaped-Escaped x [] = at_end
escaped-Escaped x (y ∷ p) = elim (Bool-cases (x == b'\\')) [
  | inl k ↦ rw k (behind (ground (arith, k)))
  | inr k ↦ rw k (bare (ground (arith, k)))
]

Escaped-escaped : {x lo : ℕ} {p q : List ℕ} → Escaped (x ∷ p) lo q → escaped x p ≡ (lo, q)
unfolding escaped
Escaped-escaped (behind e) = ground (arith, e)
Escaped-escaped (bare n) = ground (arith, n)
Escaped-escaped at_end = refl

range_end-RangeEnd : (lo : ℕ) (p : List ℕ) → RangeEnd lo p (range_end lo p).0 (range_end lo p).1
unfolding range_end
range_end-RangeEnd lo [] = no_text
range_end-RangeEnd lo (d ∷ []) = one_left
range_end-RangeEnd lo (d ∷ x ∷ p) = elim (Bool-cases (d == b'-' && not (x == b']'))) [
  | inl k ↦ rw k (up_to (ground (arith, k)) (ground (arith, k)) (escaped-Escaped x p))
  | inr k ↦ rw k (no_dash (λ (e, n). ground (arith, k, e, n)))
]

RangeEnd-range_end : {lo hi : ℕ} {p q : List ℕ} → RangeEnd lo p hi q → range_end lo p ≡ (hi, q)
unfolding range_end
RangeEnd-range_end (up_to {d = d} {x = x} e n t) =
    let test : (d == b'-' && not (x == b']')) ≡ true = ground (arith, e, n) in
    rw test (Escaped-escaped t)
RangeEnd-range_end no_text = refl
RangeEnd-range_end one_left = refl
RangeEnd-range_end (no_dash {d = d} {x = x} h) = elim (Bool-cases (d == b'-' && not (x == b']'))) [
  | inl k ↦ absurd (h (ground (arith, k), ground (arith, k)))
  | inr k ↦ rw k refl
]

module _ (u : Unicode) where
  class_end-ClassName :
      (acc p n q : List ℕ)
      → class_end u acc p ≡ some (n, q)
      → (m : List ℕ) × (n ≡ acc ++ m) × ClassName u p m q
  unfolding class_end
  class_end-ClassName acc [] n q e = cc
  class_end-ClassName acc (a ∷ []) n q e = cc
  class_end-ClassName acc (a ∷ b ∷ p) n q e = elim (Bool-cases (a == b':' && b == b']')) [
    | inl k ↦
        let same : n ≡ acc = ground (arith, k, e) in
        let rest : q ≡ p = ground (arith, k, e) in
        (
          [],
          same ∙ sym (append-nil acc),
          rw rest (name_ends (ground (arith, k)) (ground (arith, k))),
        )
    | inr k ↦ elim (Bool-cases (u.is_lower a)) [
      | inl l ↦
          let (m, i, d) = class_end-ClassName (acc ++ a ∷ []) (b ∷ p) n q (rw (k, l) at e) in
          (a ∷ m, i ∙ append_assoc acc (a ∷ []) m, letter (λ (x, y). ground (arith, k, x, y)) l d)
      | inr l ↦ absurd (ground (arith, k, l, e))
    ]
  ]

  ClassName-class_end :
      {p m q : List ℕ} → ClassName u p m q → (acc : List ℕ) → class_end u acc p ≡ some (acc ++ m, q)
  unfolding class_end
  ClassName-class_end (name_ends {a = a} {b = b} e k) acc =
      let test : (a == b':' && b == b']') ≡ true = ground (arith, e, k) in
      rw (test, append-nil acc) refl
  ClassName-class_end (letter {a = a} {b = b} {name = m} h l d) acc =
      let rest = ClassName-class_end d (acc ++ a ∷ []) in
      elim (Bool-cases (a == b':' && b == b']')) [
        | inl k ↦ absurd (h (ground (arith, k), ground (arith, k)))
        | inr k ↦ rw (k, l) (rw (append_assoc acc (a ∷ []) m) at rest)
      ]

  class_at-ClassAt : (x : ℕ) (p n q : List ℕ) → class_at u x p ≡ some (n, q) → ClassAt u (x ∷ p) n q
  unfolding class_at
  class_at-ClassAt x [] n q e = cc
  class_at-ClassAt x (y ∷ p) n q e = elim (Bool-cases (x == b'[' && y == b':')) [
    | inl k ↦
        let (m, i, d) = class_end-ClassName [] p n q (rw k at e) in
        rw i (class_named (ground (arith, k)) (ground (arith, k)) d)
    | inr k ↦ absurd (ground (arith, k, e))
  ]

  ClassAt-class_at : {x : ℕ} {p n q : List ℕ} → ClassAt u (x ∷ p) n q → class_at u x p ≡ some (n, q)
  unfolding class_at
  ClassAt-class_at (class_named {a = a} {b = b} e k d) =
      let test : (a == b'[' && b == b':') ≡ true = ground (arith, e, k) in
      rw test (ClassName-class_end d [])

  -- One round of the loop reads an item as the relation says.
  pub bracket_item-ItemAt :
      (x : ℕ) (p : List ℕ) → ItemAt u (x ∷ p) (bracket_item u x p).0 (bracket_item u x p).1
  unfolding bracket_item range_item
  bracket_item-ItemAt x p = elim (Option-cases (class_at u x p)) [
    | inl e ↦
        let same : bracket_item u x p ≡ range_item x p = rw (e, bracket_item) refl in
        rw same (
          Spec.range_item (λ n r d. cc (e, ClassAt-class_at d)) (escaped-Escaped x p)
            (range_end-RangeEnd (escaped x p).0 (escaped x p).1))
    | inr (r, e) ↦
        let same : bracket_item u x p ≡ (named r.0, r.1) = rw (e, bracket_item) refl in
        rw same (class_item (class_at-ClassAt x p r.0 r.1 e))
  ]

  pub ItemAt-bracket_item :
      {x : ℕ} {p q : List ℕ} {i : Item} → ItemAt u (x ∷ p) i q → bracket_item u x p ≡ (i, q)
  unfolding bracket_item range_item
  ItemAt-bracket_item (class_item d) = rw (ClassAt-class_at d, bracket_item) refl
  ItemAt-bracket_item {x = x} {p = p} (Spec.range_item n d r) =
      elim (Option-cases (class_at u x p)) [
        | inl e ↦ rw (e, bracket_item, Escaped-escaped d, RangeEnd-range_end r) refl
        | inr (c, e) ↦ absurd (n c.0 c.1 (class_at-ClassAt x p c.0 c.1 e))
      ]
