-- ===== src/Find/Glob/Steps.antt =====
-- command/internal/find/matcher.go: a match without a search, by steps of `matchOne`; a star takes any
-- run of runes.
use kefka.Common.{ℕ, ◌≡◌, refl, ◌≢◌, Bool, true, List, [], ◌∷◌, arith}
use kefka.Find.Glob.{match_one, only_stars}
use kefka.Unicode.{Unicode}
use kefka.Find.Glob.Bracket.{match_one-rest}

pub data StepsMatch (u : Unicode) (fold : Bool) : List ℕ → List ℕ → Type 0 where
  empty : StepsMatch u fold [] []
  one :
      {x c : ℕ} {p q s : List ℕ}
      → x ≢ b'*'
      → match_one u x p c fold ≡ (q, true)
      → StepsMatch u fold q s
      → StepsMatch u fold (x ∷ p) (c ∷ s)
  star_ends :
      {x : ℕ} {p s : List ℕ} → x ≡ b'*' → StepsMatch u fold p s → StepsMatch u fold (x ∷ p) s
  star_takes :
      {x c : ℕ} {p s : List ℕ}
      → x ≡ b'*'
      → StepsMatch u fold (x ∷ p) s
      → StepsMatch u fold (x ∷ p) (c ∷ s)

-- `p` matches the name from some place in `s` on.
pub data Later (u : Unicode) (fold : Bool) (p : List ℕ) : List ℕ → Type 0 where
  here : {s : List ℕ} → StepsMatch u fold p s → Later u fold p s
  there : {c : ℕ} {s : List ℕ} → Later u fold p s → Later u fold p (c ∷ s)

module _ {u : Unicode} {fold : Bool} where
  pub Later→StepsMatch : {p s : List ℕ} → Later u fold p s → StepsMatch u fold (b'*' ∷ p) s
  Later→StepsMatch (here d) = star_ends refl d
  Later→StepsMatch (there d) = star_takes refl (Later→StepsMatch d)

  pub StepsMatch→Later :
      {x : ℕ} {p s : List ℕ} → x ≡ b'*' → StepsMatch u fold (x ∷ p) s → Later u fold p s
  StepsMatch→Later e (one n _ _) = absurd (n e)
  StepsMatch→Later e (star_ends _ d) = here d
  StepsMatch→Later e (star_takes _ d) = there (StepsMatch→Later e d)

  -- A star behind a star adds nothing.
  pub Later-star : {x : ℕ} {p s : List ℕ} → x ≡ b'*' → Later u fold (x ∷ p) s → Later u fold p s
  Later-star e (here d) = StepsMatch→Later e d
  Later-star e (there d) = there (Later-star e d)

  pub Later-nil : {p : List ℕ} → Later u fold p [] → StepsMatch u fold p []
  Later-nil (here d) = d

  -- Where `p` does not match at once, it matches further on.
  pub Later-next :
      {p : List ℕ} {c : ℕ} {s : List ℕ}
      → Later u fold p (c ∷ s)
      → ¬ StepsMatch u fold p (c ∷ s)
      → Later u fold p s
  Later-next (here d) n = absurd (n d)
  Later-next (there d) n = d

  -- An element takes one rune, wherever it stands.
  pub Later-one :
      (x : ℕ) (p s : List ℕ) (c : ℕ)
      → x ≢ b'*'
      → Later u fold (x ∷ p) (c ∷ s)
      → Later u fold (match_one u x p c fold).0 s
  Later-one x p s c n (here (one _ e d)) = rw e (here d)
  Later-one x p s c n (here (star_ends e d)) = absurd (n e)
  Later-one x p s c n (here (star_takes e d)) = absurd (n e)
  Later-one x p (d ∷ s) c n (there l) =
      rw (match_one-rest u x p c d fold) (there (Later-one x p s d n l))
  Later-one x p [] c n (there (here (star_ends e d))) = absurd (n e)

  pub only_stars→StepsMatch : (p : List ℕ) → only_stars p ≡ true → StepsMatch u fold p []
  unfolding only_stars
  only_stars→StepsMatch [] h = empty
  only_stars→StepsMatch (x ∷ p) h =
      star_ends (ground arith) (only_stars→StepsMatch p (ground arith))

  pub StepsMatch→only_stars : {p : List ℕ} → StepsMatch u fold p [] → only_stars p ≡ true
  unfolding only_stars
  StepsMatch→only_stars empty = refl
  StepsMatch→only_stars (star_ends e d) = ground (arith, StepsMatch→only_stars d)
