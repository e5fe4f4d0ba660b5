-- ===== src/Find/Glob/Element.antt =====
-- command/internal/find/matcher.go: `matchOne` beside Find.Glob.Spec.
use mathlib.Core.Bool.{xor}
use kefka.Common.{
  ℕ, ◌≡◌, refl, sym, ap, ◌∙◌, ◌≢◌, inl, inr, Bool, true, false, Option, none, some, List, [], ◌∷◌,
  arith, ◌==◌, Bool-cases, Option-cases,
}
use kefka.Find.Glob.{Item, match_bracket, escaped_one, match_one}
use kefka.Unicode.{Unicode}
use kefka.Find.Glob.Steps.{StepsMatch}
use kefka.Find.Glob.Spec.{
  BracketAt, Listed, Takes, any_rune, quoted, backslash, listed, not_listed, unclosed, literal,
  Matches,
}
use kefka.Find.Glob.Brackets.{
  any_accepts, any_accepts-Listed, Listed-any_accepts, match_bracket-BracketAt,
  BracketAt-match_bracket,
}

module _ (u : Unicode) (fold : Bool) where
  xor-false : (b : Bool) → xor b false ≡ true → b ≡ true
  unfolding xor
  xor-false true e = refl
  xor-false false e = e

  xor-true : (b : Bool) → xor b true ≡ true → b ≡ false
  unfolding xor
  xor-true true e = cc
  xor-true false e = refl

  -- Where the bracket is closed, it takes the rune as it lists it or not.
  bracket-Takes :
      {x : ℕ} {p q : List ℕ} {l : List Item}
      → x ≡ b'['
      → (n : Bool) (c : ℕ) → BracketAt u p n l q
      → xor (any_accepts u fold c l) n ≡ true
      → Takes u fold (x ∷ p) c q
  bracket-Takes {l = l} k false c d e =
      listed k d (any_accepts-Listed u fold c l (xor-false (any_accepts u fold c l) e))
  bracket-Takes {l = l} k true c d e =
      not_listed k d
        (λ i. cc (Listed-any_accepts u fold c l i, xor-true (any_accepts u fold c l) e))

  escaped-Takes :
      (x : ℕ) (p : List ℕ) (c : ℕ) (q : List ℕ)
      → x ≡ b'\\'
      → escaped_one p c ≡ (q, true)
      → Takes u fold (x ∷ p) c q
  unfolding escaped_one
  escaped-Takes x [] c q k e =
      let rest : [] ≡ q = ground (arith, e) in
      let same : x ≡ c = ground (arith, k, e) in rw (← rest, ← same) (backslash k)
  escaped-Takes x (y ∷ p) c q k e =
      let rest : p ≡ q = ground (arith, e) in
      let same : y ≡ c = ground (arith, e) in rw (← rest, ← same) (quoted k)

  bracketed-Takes :
      (x : ℕ) (p : List ℕ) (c : ℕ) (q : List ℕ)
      → x ≡ b'['
      → (o : Option (List ℕ × Bool)) → match_bracket u p c fold ≡ o
      → elim o as (λ _. List ℕ × Bool) [ some r ↦ r | none ↦ (p, c == b'[') ] ≡ (q, true)
      → Takes u fold (x ∷ p) c q
  bracketed-Takes x p c q k none o e =
      let rest : p ≡ q = ground (arith, e) in
      let same : x ≡ c = ground (arith, k, e) in
      rw (← rest, ← same) (unclosed k (λ b l r d. cc (o, BracketAt-match_bracket u fold d c)))
  bracketed-Takes x p c q k (some (r, b)) o e =
      let whole : match_bracket u p c fold ≡ some (q, true) = o ∙ ap some e in
      let (n, l, d, a) = match_bracket-BracketAt u fold p c q true whole in
      bracket-Takes k n c d (sym a)

  match_one-Takes :
      (x : ℕ) (p : List ℕ) (c : ℕ) (q : List ℕ)
      → x ≢ b'*'
      → match_one u x p c fold ≡ (q, true)
      → Takes u fold (x ∷ p) c q
  unfolding match_one
  match_one-Takes x p c q n e = elim (Bool-cases (x == b'?')) [
    | inl k ↦ let rest : p ≡ q = ground (arith, k, e) in rw (← rest) (any_rune (ground (arith, k)))
    | inr k ↦ elim (Bool-cases (x == b'\\')) [
      | inl l ↦ escaped-Takes x p c q (ground (arith, l)) (rw (k, l) at e)
      | inr l ↦ elim (Bool-cases (x == b'[')) [
        | inl m ↦
            bracketed-Takes x p c q (ground (arith, m)) (match_bracket u p c fold) refl
              (rw (k, l, m) at e)
        | inr m ↦
            let rest : p ≡ q = ground (arith, k, l, m, e) in
            let same : x ≡ c = ground (arith, k, l, m, e) in
            rw (← rest, ← same)
              (literal n (λ i. ground (arith, k, i)) (λ i. ground (arith, l, i))
                (λ i. ground (arith, m, i)))
      ]
    ]
  ]

  bracket_sees :
      (n : Bool) (c : ℕ) (l : List Item)
      → (n ≡ false → Listed u fold c l)
      → (n ≡ true → ¬ Listed u fold c l)
      → xor (any_accepts u fold c l) n ≡ true
  unfolding xor
  bracket_sees false c l h k = rw (Listed-any_accepts u fold c l (h refl)) refl
  bracket_sees true c l h k = elim (Bool-cases (any_accepts u fold c l)) [
    | inl e ↦ absurd (k refl (any_accepts-Listed u fold c l e))
    | inr e ↦ rw e refl
  ]

  bracket_one :
      {x : ℕ} {p q : List ℕ} {n : Bool} {l : List Item} (c : ℕ)
      → x ≡ b'['
      → BracketAt u p n l q
      → xor (any_accepts u fold c l) n ≡ true
      → match_one u x p c fold ≡ (q, true)
  unfolding match_one
  bracket_one c k d e = rw (k, BracketAt-match_bracket u fold d c, e) refl

  unclosed_none :
      (p : List ℕ) (c : ℕ)
      → ((b : Bool) (l : List Item) (q : List ℕ) → ¬ BracketAt u p b l q)
      → match_bracket u p c fold ≡ none
  unclosed_none p c h = elim (Option-cases (match_bracket u p c fold)) [
    | inl e ↦ e
    | inr (r, e) ↦
        let (n, l, d, a) = match_bracket-BracketAt u fold p c r.0 r.1 e in absurd (h n l r.0 d)
  ]

  unclosed_one :
      {x : ℕ} {p : List ℕ}
      → x ≡ b'['
      → ((b : Bool) (l : List Item) (q : List ℕ) → ¬ BracketAt u p b l q)
      → match_one u x p x fold ≡ (p, true)
  unfolding match_one
  unclosed_one {x = x} {p = p} e h =
      let itself : (x == b'[') ≡ true = ground (arith, e) in
      let none_here = unclosed_none p x h in
      let plain : (x == b'?') ≡ false = ground (arith, e) in
      let no_escape : (x == b'\\') ≡ false = ground (arith, e) in
      rw (plain, no_escape, itself, none_here, itself) refl

  Takes-match_one :
      {x c : ℕ} {p q : List ℕ}
      → Takes u fold (x ∷ p) c q
      → (x ≢ b'*') × (match_one u x p c fold ≡ (q, true))
  unfolding match_one escaped_one
  Takes-match_one (any_rune e) = (λ k. ground (arith, e, k), rw e refl)
  Takes-match_one {c = c} (quoted e) =
      let same : (c == c) ≡ true = ground arith in (λ k. ground (arith, e, k), rw (e, same) refl)
  Takes-match_one (backslash e) = (λ k. ground (arith, e, k), rw e refl)
  Takes-match_one {c = c} (listed {l = l} e d i) =
      (λ k. ground (arith, e, k), bracket_one c e d (bracket_sees false c l (λ _. i) (λ h. cc h)))
  Takes-match_one {c = c} (not_listed {l = l} e d i) =
      (λ k. ground (arith, e, k), bracket_one c e d (bracket_sees true c l (λ h. cc h) (λ _. i)))
  Takes-match_one (unclosed {x = x} {p = p} e h) = (λ k. ground (arith, e, k), unclosed_one e h)
  Takes-match_one (literal {x = x} n a b d) = (n, ground (arith, a, b, d))

  -- The relation with `matchOne` and the one without it are the same.
  pub StepsMatch-Matches : {p s : List ℕ} → StepsMatch u fold p s → Matches u fold p s
  StepsMatch-Matches StepsMatch.empty = Matches.empty
  StepsMatch-Matches (StepsMatch.one {x = x} {c = c} {p = p} {q = q} n e d) =
      Matches.one (match_one-Takes x p c q n e) (StepsMatch-Matches d)
  StepsMatch-Matches (StepsMatch.star_ends e d) = Matches.star_ends e (StepsMatch-Matches d)
  StepsMatch-Matches (StepsMatch.star_takes e d) = Matches.star_takes e (StepsMatch-Matches d)

  one_step :
      {c : ℕ} (p : List ℕ) {q s : List ℕ}
      → Takes u fold p c q
      → StepsMatch u fold q s
      → StepsMatch u fold p (c ∷ s)
  one_step [] t d = elim t [ ]
  one_step (x ∷ p) t d = let (n, e) = Takes-match_one t in StepsMatch.one n e d

  pub Matches-StepsMatch : {p s : List ℕ} → Matches u fold p s → StepsMatch u fold p s
  Matches-StepsMatch Matches.empty = StepsMatch.empty
  Matches-StepsMatch (Matches.one {p = p} t d) = one_step p t (Matches-StepsMatch d)
  Matches-StepsMatch (Matches.star_ends e d) = StepsMatch.star_ends e (Matches-StepsMatch d)
  Matches-StepsMatch (Matches.star_takes e d) = StepsMatch.star_takes e (Matches-StepsMatch d)
