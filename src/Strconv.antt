-- ===== src/Strconv.antt =====
-- Package strconv of the language's library, as the code uses it: numbers in decimal, and parsing
-- with base 0, which reads the prefixes 0b, 0o, 0x and 0 and underscores between digits.
pub mod RoundTrip
pub mod Digits
use kefka.Common.{
  ℕ, zero, suc, ◌+◌, ◌-◌, ◌*◌, ◌/◌, ◌%◌, ◌^◌, ◌≤◌, ◌<◌, ◌≡◌, refl, sym, ap, ◌∙◌, ◌≢◌, ◌↔◌, ◌⊎◌, inl,
  inr, Bool, true, false, not, ◌&&◌, ◌||◌, Option, none, some, List, [], ◌∷◌, ◌++◌, map, append-nil,
  append_assoc, arith, ltb, leb, ◌==◌, if◌then◌else◌, ==_iff, Bool-cases, Option-cases, length,
  take, drop, replicate, last?, init, length-append, length-take, length-drop, length-replicate,
  Bytes, codes, equal, equal_iff, has_prefix, trim_prefix, contains, within,
}
use kefka.Common.Int.{ℤ, pos, negsuc, neg_ℕ}

-- The digits of `n` in `base`, in front of `acc`. The fuel `n` is enough, since a digit is taken
-- off each time.
unfoldable pub to_base : ℕ → ℕ → ℕ → Bytes → Bytes
to_base zero base n acc = (b'0' + n % base) ∷ acc
to_base (suc f) base n acc =
    let rest = to_base f base (n / base) ((b'0' + n % base) ∷ acc) in
    if ltb n base then (b'0' + n) ∷ acc else rest

-- `strconv.FormatUint` in a base of at most ten, and `Itoa` and `FormatInt` of a number
unfoldable pub format_uint : ℕ → ℕ → Bytes
unfolding to_base
format_uint base n = to_base n base n []

-- `strconv.FormatInt` in base ten
unfoldable pub format_int : ℤ → Bytes
unfolding format_uint
format_int (pos n) = format_uint 10 n
format_int (negsuc n) = b'-' ∷ format_uint 10 (suc n)

abbrev pub lower : ℕ → ℕ
lower c = if within b'A' b'Z' c then c + 32 else c

-- The value of a digit in a base up to 36.
unfoldable pub digit_value : ℕ → Option ℕ
digit_value c =
    if within b'0' b'9' c
    then some (c - b'0')
    else if within b'a' b'z' (lower c)
    then some (lower c - b'a' + 10)
    else none

-- one digit in the loop of `ParseUint`
unfoldable pub add_digit : ℕ → ℕ → ℕ → Option ℕ → Option ℕ
add_digit base max n none = none
add_digit base max n (some d) =
    if leb base d then none else if ltb max (n * base + d) then none else some (n * base + d)

-- The loop of `ParseUint`, which skips underscores; no value above `max`.
unfoldable pub digits_loop : ℕ → ℕ → ℕ → Bytes → Option ℕ
digits_loop base max n [] = some n
digits_loop base max n (c ∷ s) =
    let skip = digits_loop base max n s in
    let onward : Option ℕ = elim (add_digit base max n (digit_value c)) [
      | none ↦ none
      | some n' ↦ digits_loop base max n' s
    ] in
    if c == b'_' then skip else onward

-- The base that a prefix gives, with the digits behind the prefix.
unfoldable pub split_base : Bytes → ℕ × Bytes
split_base (z ∷ x ∷ d ∷ s) =
    if not (z == b'0')
    then (10, z ∷ x ∷ d ∷ s)
    else if lower x == b'b'
    then (2, d ∷ s)
    else if lower x == b'o'
    then (8, d ∷ s)
    else if lower x == b'x'
    then (16, d ∷ s)
    else (8, x ∷ d ∷ s)
split_base (z ∷ s) = if z == b'0' then (8, s) else (10, z ∷ s)
split_base [] = (10, [])

-- The loop of `underscoreOK`; `before` is the class of the byte before: '0' for a digit or a
-- prefix, '_' for an underscore, and another byte for anything else.
unfoldable pub underscore_loop : Bool → ℕ → Bytes → Bool
underscore_loop hex before [] = not (before == b'_')
underscore_loop hex before (c ∷ s) =
    let digit = underscore_loop hex b'0' s in
    let mark = underscore_loop hex b'_' s in
    let other = underscore_loop hex b'!' s in
    if within b'0' b'9' c || hex && within b'a' b'f' (lower c)
    then digit
    else if c == b'_'
    then before == b'0' && mark
    else not (before == b'_') && other

unfoldable pub underscore_ok : Bytes → Bool
unfolding underscore_loop
underscore_ok (z ∷ x ∷ s) =
    if z == b'0' && (lower x == b'b' || lower x == b'o' || lower x == b'x')
    then underscore_loop (lower x == b'x') b'0' s
    else underscore_loop false b'^' (z ∷ x ∷ s)
underscore_ok s = underscore_loop false b'^' s

-- `strconv.ParseUint(s, 0, bits)` with `max` the largest number of that many bits; `none` is an
-- error.
unfoldable pub parse_uint : ℕ → Bytes → Option ℕ
parse_uint max [] = none
parse_uint max (c ∷ s) =
    let (base, digits) = split_base (c ∷ s) in
    if contains (c ∷ s) b'_' && not (underscore_ok (c ∷ s))
    then none
    else digits_loop base max 0 digits

-- The result of `ParseInt` behind a minus sign, and without one.
unfoldable pub negative : Option ℕ → Option ℤ
negative none = none
negative (some n) = some (neg_ℕ n)

unfoldable pub positive : Option ℕ → Option ℤ
positive none = none
positive (some n) = some (pos n)

-- `strconv.ParseInt(s, 0, 64)`
unfoldable pub parse_int64 : Bytes → Option ℤ
parse_int64 [] = none
parse_int64 (c ∷ s) =
    if c == b'-'
    then negative (parse_uint (2 ^ 63) s)
    else positive (parse_uint (2 ^ 63 - 1) (if c == b'+' then s else c ∷ s))

-- `strconv.ParseUint(s, 10, bits)`, which takes no underscore, with `max` the largest number of that
-- many bits.
unfoldable pub parse_decimal : ℕ → Bytes → Option ℕ
unfolding digits_loop contains
parse_decimal max [] = none
parse_decimal max (c ∷ s) = if contains (c ∷ s) b'_' then none else digits_loop 10 max 0 (c ∷ s)

-- `strconv.Atoi`
unfoldable pub atoi : Bytes → Option ℤ
unfolding parse_decimal
atoi [] = none
atoi (c ∷ s) =
    if c == b'-'
    then negative (parse_decimal (2 ^ 63) s)
    else positive (parse_decimal (2 ^ 63 - 1) (if c == b'+' then s else c ∷ s))
