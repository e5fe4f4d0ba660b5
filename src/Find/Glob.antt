-- ===== src/Find/Glob.antt =====
-- command/internal/find/matcher.go, lines 210 to 376: `matchGlob` and what it calls. An index into
-- the pattern or the name is the list of runes from there on, so a matched element is answered by
-- the pattern behind it in place of its width.
pub mod Bracket
pub mod Spec
pub mod Steps
pub mod Classes
pub mod Members
pub mod Brackets
pub mod Element
pub mod Match
use mathlib.Core.Bool.{xor}
use kefka.Common.{
  ℕ, zero, suc, ◌+◌, ◌*◌, Bool, true, false, not, ◌&&◌, ◌||◌, Option, none, some, List, [], ◌∷◌,
  ◌++◌, ltb, leb, ◌==◌, if◌then◌else◌, length, drop, Bytes, codes, equal, within,
}
use kefka.Utf8.{runes}
use kefka.Unicode.{Unicode}

unfoldable pub is_hex : ℕ → Bool
is_hex c = within b'0' b'9' c || within b'a' b'f' c || within b'A' b'F' c

-- What a bracket expression lists: a named class, or the runes from one to another.
pub data Item : Type 0 where
  named : List ℕ → Item
  range : ℕ → ℕ → Item

-- A rune, or behind a backslash the one that follows it.
unfoldable pub escaped : ℕ → List ℕ → ℕ × List ℕ
escaped x [] = (x, [])
escaped x (y ∷ p) = if x == b'\\' then (y, p) else (x, y ∷ p)

-- The upper end of a range, `lo` where no range follows.
unfoldable pub range_end : ℕ → List ℕ → ℕ × List ℕ
unfolding escaped
range_end lo (d ∷ x ∷ p) = if d == b'-' && not (x == b']') then escaped x p else (lo, d ∷ x ∷ p)
range_end lo p = (lo, p)

unfoldable pub range_item : ℕ → List ℕ → Item × List ℕ
unfolding escaped range_end
range_item x p = let (lo, q) = escaped x p in let (hi, r) = range_end lo q in (range lo hi, r)

unfoldable pub escaped_one : List ℕ → ℕ → List ℕ × Bool
escaped_one [] c = ([], c == b'\\')
escaped_one (y ∷ p) c = (p, y == c)

-- `matched != negate`, where the bracket is closed
unfoldable pub negated_by : Bool → Option (List ℕ × Bool) → Option (List ℕ × Bool)
unfolding xor
negated_by negate none = none
negated_by negate (some (q, matched)) = some (q, xor matched negate)

-- `starP` and `starS`: the pattern behind the last star, and the name from where it ends.
abbrev pub Back : Type 0
Back = Option (List ℕ × List ℕ)

-- the second loop of `matchGlob` and its final test
unfoldable pub only_stars : List ℕ → Bool
only_stars [] = true
only_stars (x ∷ p) = x == b'*' && only_stars p

-- what follows a mismatch
unfoldable pub retry : Back → (List ℕ → List ℕ → Back → Option Bool) → Option Bool
retry none next = some false
retry (some (bp, bs)) next = next bp (drop 1 bs) (some (bp, drop 1 bs))

-- The answer of a search that ended; `glob_runes-Decides` shows that it does.
unfoldable pub answer : Option Bool → Bool
answer none = false
answer (some b) = b

module _ (u : Unicode) where
  unfoldable pub in_class : List ℕ → ℕ → Bool → Bool
  unfolding is_hex
  in_class name c fold =
      if fold && (equal name (codes "upper") || equal name (codes "lower"))
      then u.is_upper c || u.is_lower c
      else if equal name (codes "alnum")
      then u.is_letter c || u.is_digit c
      else if equal name (codes "alpha")
      then u.is_letter c
      else if equal name (codes "blank")
      then c == b' ' || c == b'\t'
      else if equal name (codes "cntrl")
      then u.is_control c
      else if equal name (codes "digit")
      then within b'0' b'9' c
      else if equal name (codes "graph")
      then u.is_print c && not (c == b' ')
      else if equal name (codes "lower")
      then u.is_lower c
      else if equal name (codes "print")
      then u.is_print c
      else if equal name (codes "punct")
      then u.is_punct c || u.is_symbol c
      else if equal name (codes "space")
      then u.is_space c
      else if equal name (codes "upper")
      then u.is_upper c
      else if equal name (codes "xdigit")
      then ltb c 0x80 && is_hex c
      else false

  -- The name up to the ":]" that closes a class, and what follows.
  unfoldable pub class_end : List ℕ → List ℕ → Option (List ℕ × List ℕ)
  class_end name (a ∷ b ∷ p) =
      if a == b':' && b == b']'
      then some (name, p)
      else if not (u.is_lower a)
      then none
      else class_end (name ++ a ∷ []) (b ∷ p)
  class_end name _ = none

  class_at : ℕ → List ℕ → Option (List ℕ × List ℕ)
  unfolding class_end
  class_at x (y ∷ p) = if x == b'[' && y == b':' then class_end [] p else none
  class_at x [] = none

  -- One round of the loop of `matchBracket`: what it lists at `x`, and what follows.
  unfoldable pub bracket_item : ℕ → List ℕ → Item × List ℕ
  unfolding class_at range_item
  bracket_item x p = elim (class_at x p) [
    | some (name, q) ↦ (named name, q)
    | none ↦ range_item x p
  ]

  unfoldable pub item_accepts : Bool → ℕ → Item → Bool
  unfolding in_class
  item_accepts fold c (named name) = in_class name c fold
  item_accepts fold c (range lo hi) = leb lo c && leb c hi

  -- The loop of `matchBracket`. Each round takes a rune at least; the fuel bounds the rounds.
  unfoldable pub bracket_loop : ℕ → List ℕ → ℕ → Bool → Bool → Bool → Option (List ℕ × Bool)
  bracket_loop zero p c fold first matched = none
  bracket_loop (suc f) [] c fold first matched = none
  bracket_loop (suc f) (x ∷ p) c fold first matched =
      let (item, q) = bracket_item x p in
      let rest = bracket_loop f q c fold false (matched || item_accepts fold c item) in
      if x == b']' && not first then some (p, matched) else rest

  -- The pattern behind the bracket expression, and whether `c` matches it; `none` if the bracket
  -- is not closed. `p` follows the opening bracket.
  unfoldable pub match_bracket : List ℕ → ℕ → Bool → Option (List ℕ × Bool)
  unfolding bracket_loop bracket_item item_accepts negated_by
  match_bracket [] c fold = none
  match_bracket (x ∷ p) c fold =
      let negate = x == b'!' || x == b'^' in
      negated_by negate
        (bracket_loop (length (x ∷ p) + 1) (if negate then p else x ∷ p) c fold true false)

  -- `matchOne` at the pattern `x ∷ p`.
  unfoldable pub match_one : ℕ → List ℕ → ℕ → Bool → List ℕ × Bool
  unfolding match_bracket escaped_one
  match_one x p c fold =
      if x == b'?'
      then (p, true)
      else if x == b'\\'
      then escaped_one p c
      else if x == b'['
      then elim (match_bracket p c fold) [ some r ↦ r | none ↦ (p, c == b'[') ]
      else (p, x == c)

  -- The first loop of `matchGlob`; `none` means that the fuel ran out.
  unfoldable pub glob_loop : ℕ → List ℕ → List ℕ → Bool → Back → Option Bool
  unfolding only_stars retry match_one
  glob_loop zero p s fold back = none
  glob_loop (suc f) p [] fold back = some (only_stars p)
  glob_loop (suc f) [] (c ∷ s) fold back = retry back (λ p' s' b. glob_loop f p' s' fold b)
  glob_loop (suc f) (x ∷ p) (c ∷ s) fold back =
      let at_star = glob_loop f p (c ∷ s) fold (some (p, c ∷ s)) in
      let (q, matched) = match_one x p c fold in
      let onward = glob_loop f q s fold back in
      if x == b'*'
      then at_star
      else if matched
      then onward
      else retry back (λ p' s' b. glob_loop f p' s' fold b)

  -- The match of a pattern against a name, as runes.
  unfoldable pub glob_runes : List ℕ → List ℕ → Bool → Option Bool
  unfolding glob_loop
  glob_runes p s fold = glob_loop ((length s + 1) * (length p + 1)) p s fold none

  unfoldable pub match_glob : Bytes → Bytes → Bool → Bool
  unfolding glob_runes answer
  match_glob pattern name ignore_case = answer (
      glob_runes (runes (if ignore_case then u.to_lower pattern else pattern))
        (runes (if ignore_case then u.to_lower name else name)) ignore_case)
