-- ===== src/Find/Glob/Match.antt =====
-- command/internal/find/matcher.go: the search of `matchGlob` beside the relation of
-- Find.Glob.Spec.
use kefka.Common.{
  if◌then◌else◌, Bytes, ℕ, zero, suc, ◌+◌, ◌*◌, ◌≤◌, ◌<◌, ◌≡◌, refl, sym, ap, ◌∙◌, ◌≢◌, ◌↔◌, inl,
  inr, Bool, true, false, Option, none, some, List, [], ◌∷◌, arith, ◌==◌, Bool-cases, length,
}
use kefka.Find.Glob.{
  match_one, only_stars, Back, retry, glob_loop, glob_runes, answer, match_glob, runes,
}
use kefka.Unicode.{Unicode}
use kefka.Find.Glob.Bracket.{length-match_one-le}
use kefka.Find.Glob.Steps.{
  StepsMatch, one, star_ends, star_takes, Later, here, there, Later→StepsMatch, Later-star,
  Later-nil, Later-next, Later-one, only_stars→StepsMatch, StepsMatch→only_stars,
}
use kefka.Find.Glob.Spec.{Matches}
use kefka.Find.Glob.Element.{StepsMatch-Matches, Matches-StepsMatch}

-- The run ended, and its answer is right about `G`.
abbrev pub Decides : Type 0 → Option Bool → Type 0
Decides G (some true) = G
Decides G (some false) = ¬ G
Decides G none = ⊥

Decides-some : {G : Type 0} (b : Bool) → (b ≡ true → G) → (G → b ≡ true) → Decides G (some b)
Decides-some true h k = h refl
Decides-some false h k = λ g. cc (k g)

module _ (u : Unicode) (fold : Bool) where
  StepsMatch-one :
      {x c : ℕ} {p q s : List ℕ} {b : Bool}
      → x ≢ b'*'
      → match_one u x p c fold ≡ (q, b)
      → StepsMatch u fold (x ∷ p) (c ∷ s)
      → (b ≡ true) × StepsMatch u fold q s
  StepsMatch-one n e (one _ e' d) =
      let same = sym e ∙ e' in (ap (λ r. r.1) same, rw (ap (λ r. r.0) same) d)
  StepsMatch-one n e (star_ends h d) = absurd (n h)
  StepsMatch-one n e (star_takes h d) = absurd (n h)

  -- `G` is the question asked at the start; every pattern in play has fewer than `k` runes.
  module _ (G : Type 0) (k : ℕ) where
    -- What the last star means for the question. `m` bounds the name that is left to try.
    abbrev Saved : ℕ → List ℕ → List ℕ → Back → Type 0
    Saved m p s none = G → StepsMatch u fold p s
    Saved m p s (some (bp, bs)) =
        (G ↔ Later u fold bp bs)
        × (StepsMatch u fold bp bs → StepsMatch u fold p s)
        × (length s ≤ length bs)
        × (length bs ≤ m)
        × (length bp < k)

    record Scan (f m : ℕ) (p s : List ℕ) (back : Back) : Type 0 where
      right : StepsMatch u fold p s → G
      covers : G → Later u fold p s
      saved : Saved m p s back
      name_bound : length s ≤ m
      pattern_bound : length p < k
      fuel : m * k + length p < f

    -- Behind a star, which is now the last one.
    Scan-star :
        {f m : ℕ} {p s : List ℕ}
        → G ↔ Later u fold p s
        → length s ≤ m
        → length p < k
        → m * k + length p < f
        → Scan f m p s (some (p, s))
    Scan-star e h l b = record {
      right = λ d. e.1 (here d);
      covers = e.0;
      saved = (e, λ d. d, omega arith, h, l);
      name_bound = h;
      pattern_bound = l;
      fuel = b;
    }

    Saved-one :
        (m x c : ℕ) (p q s : List ℕ) (back : Back)
        → x ≢ b'*'
        → match_one u x p c fold ≡ (q, true)
        → Saved m (x ∷ p) (c ∷ s) back
        → Saved m q s back
    Saved-one m x c p q s none n e h = λ g. (StepsMatch-one n e (h g)).1
    Saved-one m x c p q s (some (bp, bs)) n e (g, down, l, h, b) =
        (g, λ d. (StepsMatch-one n e (down d)).1, omega arith, h, b)

    Scan-one :
        {f m : ℕ} (x c : ℕ) (p q s : List ℕ) (back : Back)
        → x ≢ b'*'
        → match_one u x p c fold ≡ (q, true)
        → Scan (suc f) m (x ∷ p) (c ∷ s) back
        → Scan f m q s back
    Scan-one {m} x c p q s back n e i =
        let behind : (match_one u x p c fold).0 ≡ q = ap (λ r. r.0) e in
        let shorter : length q ≤ length p = rw behind at (length-match_one-le u x p c fold) in
        record {
          right = λ d. i.right (one n e d);
          covers = λ g. rw behind at (Later-one x p s c n (i.covers g));
          saved = Saved-one m x c p q s back n e i.saved;
          name_bound = omega arith;
          pattern_bound = omega arith;
          fuel = omega arith;
        }

    -- The last star takes one more rune, which lowers `m` and pays for trying its pattern again.
    retry-Decides :
        {f : ℕ} (m c : ℕ) (p s : List ℕ) (back : Back) (next : List ℕ → List ℕ → Back → Option Bool)
        → ((m' : ℕ) (p' s' : List ℕ) (b : Back) → Scan f m' p' s' b → Decides G (next p' s' b))
        → Scan (suc f) m p (c ∷ s) back
        → ¬ StepsMatch u fold p (c ∷ s)
        → Decides G (retry back next)
    unfolding retry
    retry-Decides m c p s none next ih i n = λ g. n (i.saved g)
    retry-Decides m c p s (some (bp, [])) next ih i n = absurd (omega arith)
    retry-Decides zero c p s (some (bp, b ∷ bs)) next ih i n = absurd (omega arith)
    retry-Decides (suc m) c p s (some (bp, b ∷ bs)) next ih i n =
        let (e, down, l, h, bound) = i.saved in
        ih m bp bs (some (bp, bs)) (
          Scan-star (λ g. Later-next (e.0 g) (λ d. n (down d)), λ d. e.1 (there d)) (omega arith)
            (omega arith) (omega arith))

    glob_loop-Decides :
        (f m : ℕ) (p s : List ℕ) (back : Back)
        → Scan f m p s back
        → Decides G (glob_loop u f p s fold back)
    unfolding glob_loop
    glob_loop-Decides zero m p s back i = absurd (omega arith)
    glob_loop-Decides (suc f) m p [] back i =
        Decides-some (only_stars p) (λ h. i.right (only_stars→StepsMatch p h))
          (λ g. StepsMatch→only_stars (Later-nil (i.covers g)))
    glob_loop-Decides (suc f) m [] (c ∷ s) back i =
        retry-Decides m c [] s back _ (λ m' p' s' b j. glob_loop-Decides f m' p' s' b j) i
          (λ d. elim d [ ])
    glob_loop-Decides (suc f) m (x ∷ p) (c ∷ s) back i = elim (Bool-cases (x == b'*')) [
      | inl e ↦
          let star : x ≡ b'*' = ground arith in
          rw e (
            glob_loop-Decides f m p (c ∷ s) (some (p, c ∷ s)) (
              Scan-star
                (λ g. Later-star star (i.covers g), λ l. i.right (rw star (Later→StepsMatch l)))
                i.name_bound (omega arith) (omega arith)))
      | inr e ↦
          let plain : x ≢ b'*' = ground arith in
          elim (Bool-cases (match_one u x p c fold).1) [
            | inl h ↦
                rw (e, h)
                  (glob_loop-Decides f m (match_one u x p c fold).0 s back (
                    Scan-one x c p (match_one u x p c fold).0 s back plain
                      (ap (λ b. ((match_one u x p c fold).0, b)) h) i))
            | inr h ↦
                rw (e, h)
                  (retry-Decides m c (x ∷ p) s back _
                    (λ m' p' s' b j. glob_loop-Decides f m' p' s' b j) i
                    (λ d. cc (h, (StepsMatch-one plain refl d).0)))
          ]
    ]

  -- The search ends, and it answers true exactly when the name matches the pattern.
  pub glob_runes-Decides : (p s : List ℕ) → Decides (StepsMatch u fold p s) (glob_runes u p s fold)
  unfolding glob_runes
  glob_runes-Decides p s =
      glob_loop-Decides (StepsMatch u fold p s) (length p + 1) _ (length s) p s none (record {
        right = λ d. d;
        covers = here;
        saved = λ d. d;
        name_bound = omega arith;
        pattern_bound = omega arith;
        fuel = omega arith;
      })

answer-Decides : {G : Type 0} (o : Option Bool) → Decides G o → (answer o ≡ true) ↔ G
unfolding answer
answer-Decides none h = absurd h
answer-Decides (some true) h = (λ _. h, λ _. refl)
answer-Decides (some false) h = (λ e. cc, λ g. absurd (h g))

-- A name matches a shell pattern in `matchGlob` exactly when the relation says so, of their runes,
-- in lower case if the case is ignored.
pub match_glob_iff :
    (u : Unicode) (pattern name : Bytes) (ignore_case : Bool)
    → (match_glob u pattern name ignore_case ≡ true)
      ↔ Matches u ignore_case
          (runes (if ignore_case then u.to_lower pattern else pattern))
          (runes (if ignore_case then u.to_lower name else name))
unfolding match_glob
match_glob_iff u pattern name ignore_case =
    let p = runes (if ignore_case then u.to_lower pattern else pattern) in
    let s = runes (if ignore_case then u.to_lower name else name) in
    let (a, b) = answer-Decides _ (glob_runes-Decides u ignore_case p s) in
    (λ e. StepsMatch-Matches u ignore_case (a e), λ d. b (Matches-StepsMatch u ignore_case d))
