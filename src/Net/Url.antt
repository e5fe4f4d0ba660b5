-- ===== src/Net/Url.antt =====
-- Package net/url of the language's library, as the code uses it: QueryEscape and QueryUnescape.
use kefka.Common.{
  ℕ, ◌+◌, ◌-◌, ◌*◌, ◌/◌, ◌%◌, ◌<◌, ◌≡◌, refl, ◌∙◌, ◌≢◌, inl, inr, Bool, true, ◌||◌, Option, none,
  some, [], ◌∷◌, arith, ltb, ◌==◌, if◌then◌else◌, Bool-cases, Bytes, within,
}

-- The bytes that stand for themselves.
unfoldable pub unreserved : ℕ → Bool
unreserved c =
    within b'a' b'z' c
    || within b'A' b'Z' c
    || within b'0' b'9' c
    || c == b'-'
    || c == b'_'
    || c == b'.'
    || c == b'~'

abbrev pub upper_hex : ℕ → ℕ
upper_hex d = if ltb d 10 then b'0' + d else b'A' + (d - 10)

unfoldable pub query_escape : Bytes → Bytes
unfolding unreserved
query_escape [] = []
query_escape (c ∷ s) =
    let rest = query_escape s in
    if unreserved c
    then c ∷ rest
    else if c == b' '
    then b'+' ∷ rest
    else b'%' ∷ upper_hex (c / 16) ∷ upper_hex (c % 16) ∷ rest

-- The value of a hexadecimal digit.
unfoldable pub unhex : ℕ → Option ℕ
unhex c =
    if within b'0' b'9' c
    then some (c - b'0')
    else if within b'a' b'f' c
    then some (c - b'a' + 10)
    else if within b'A' b'F' c
    then some (c - b'A' + 10)
    else none

abbrev pub unhex_pair : Option ℕ → Option ℕ → Option Bytes → Option Bytes
unhex_pair (some a) (some b) (some s) = some ((16 * a + b) ∷ s)
unhex_pair _ _ _ = none

abbrev pub in_front : ℕ → Option Bytes → Option Bytes
in_front c none = none
in_front c (some s) = some (c ∷ s)

unfoldable pub query_unescape : Bytes → Option Bytes
unfolding unhex
query_unescape [] = some []
query_unescape (c ∷ []) =
    if c == b'%' then none else if c == b'+' then some (b' ' ∷ []) else some (c ∷ [])
query_unescape (c ∷ d ∷ []) =
    let rest = query_unescape (d ∷ []) in
    if c == b'%' then none else in_front (if c == b'+' then b' ' else c) rest
query_unescape (c ∷ d ∷ e ∷ s) =
    let coded = query_unescape s in
    let rest = query_unescape (d ∷ e ∷ s) in
    if c == b'%'
    then unhex_pair (unhex d) (unhex e) coded
    else in_front (if c == b'+' then b' ' else c) rest

-- Every element is a byte.
abbrev pub AllBytes : Bytes → Type 0
AllBytes [] = Unit
AllBytes (c ∷ s) = (c < 256) × AllBytes s

query_unescape-plain :
    (c : ℕ) (s : Bytes)
    → c ≢ b'%'
    → c ≢ b'+'
    → query_unescape (c ∷ s) ≡ in_front c (query_unescape s)
unfolding query_unescape
query_unescape-plain c [] h k = ground arith
query_unescape-plain c (d ∷ []) h k = ground arith
query_unescape-plain c (d ∷ e ∷ s) h k = ground arith

query_unescape-plus : (s : Bytes) → query_unescape (b'+' ∷ s) ≡ in_front b' ' (query_unescape s)
unfolding query_unescape
query_unescape-plus [] = refl
query_unescape-plus (d ∷ []) = refl
query_unescape-plus (d ∷ e ∷ s) = refl

unhex-upper_hex : (d : ℕ) → d < 16 → unhex (upper_hex d) ≡ some d
unfolding unhex
unhex-upper_hex d h =
    let low : b'0' + d - b'0' ≡ d = omega arith in
    elim (Bool-cases (ltb d 10)) [
      | inl e ↦ rw e (ground arith)
      | inr e ↦ let high : b'A' + (d - 10) - b'A' + 10 ≡ d = ground arith in rw e (ground arith)
    ]

unhex_pair-joined :
    (c a b : ℕ) (t : Option Bytes) → 16 * a + b ≡ c → unhex_pair (some a) (some b) t ≡ in_front c t
unhex_pair-joined c a b none h = refl
unhex_pair-joined c a b (some t) h = rw h

query_unescape-percent :
    (c : ℕ) (s : Bytes)
    → c < 256
    → query_unescape (b'%' ∷ upper_hex (c / 16) ∷ upper_hex (c % 16) ∷ s)
      ≡ in_front c (query_unescape s)
unfolding query_unescape
query_unescape-percent c s h =
    rw (unhex-upper_hex (c / 16) (omega arith), unhex-upper_hex (c % 16) (omega arith))
      (unhex_pair-joined c (c / 16) (c % 16) (query_unescape s) (omega arith))

unreserved-ne : (c : ℕ) → unreserved c ≡ true → (c ≢ b'%') × (c ≢ b'+')
unfolding unreserved
unreserved-ne c h = ground arith

query_unescape-nil : query_unescape [] ≡ some []
unfolding query_unescape
query_unescape-nil = refl

-- `QueryUnescape` gives back the text that `QueryEscape` escaped.
pub query_unescape-query_escape :
    (s : Bytes) → AllBytes s → query_unescape (query_escape s) ≡ some s
unfolding query_escape
query_unescape-query_escape [] h = query_unescape-nil
query_unescape-query_escape (c ∷ s) (h, k) =
    let rest = query_unescape-query_escape s k in
    elim (Bool-cases (unreserved c)) [
      | inl e ↦
          let (p, q) = unreserved-ne c e in
          rw e (query_unescape-plain c (query_escape s) p q ∙ rw rest)
      | inr e ↦ elim (Bool-cases (c == b' ')) [
        | inl blank ↦
            let is_blank : b' ' ≡ c = ground arith in
            rw (e, blank) (query_unescape-plus (query_escape s) ∙ rw (rest, is_blank))
        | inr other ↦ rw (e, other) (query_unescape-percent c (query_escape s) h ∙ rw rest)
      ]
    ]
