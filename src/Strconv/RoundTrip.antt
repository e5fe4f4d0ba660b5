-- ===== src/Strconv/RoundTrip.antt =====
-- Package strconv: parsing behind formatting.
use kefka.Common.{
  ℕ, zero, suc, ◌+◌, ◌-◌, ◌*◌, ◌/◌, ◌%◌, ◌^◌, ◌≤◌, ◌<◌, ◌≡◌, refl, ap, ◌∙◌, inl, inr, false, some,
  [], ◌∷◌, arith, ltb, Bool-cases, Bytes, contains,
}
use kefka.Common.Int.{ℤ, pos, negsuc}
use kefka.Strconv.{
  to_base, format_uint, format_int, digit_value, add_digit, digits_loop, split_base, parse_uint,
  negative, positive, parse_int64, parse_decimal,
}

-- One decimal digit in front of what follows.
digits_loop_digit :
    (max n d : ℕ) (s : Bytes)
    → d < 10
    → n * 10 + d ≤ max
    → digits_loop 10 max n ((b'0' + d) ∷ s) ≡ digits_loop 10 max (n * 10 + d) s
unfolding digits_loop add_digit digit_value
digits_loop_digit max n d s h k = let value : b'0' + d - b'0' ≡ d = omega arith in ground arith

digits_loop-to_base :
    (f n max : ℕ) (acc : Bytes)
    → n ≤ f
    → n ≤ max
    → digits_loop 10 max 0 (to_base f 10 n acc) ≡ digits_loop 10 max n acc
unfolding to_base
digits_loop-to_base zero n max acc h k =
    let same : 0 * 10 + n % 10 ≡ n = omega arith in
    digits_loop_digit max 0 (n % 10) acc (omega arith) (omega arith) ∙ rw same
digits_loop-to_base (suc f) n max acc h k = elim (Bool-cases (ltb n 10)) [
  | inl e ↦
      let same : 0 * 10 + n ≡ n = omega arith in
      rw e (digits_loop_digit max 0 n acc (ground arith) (omega arith) ∙ rw same)
  | inr e ↦
      let same : n / 10 * 10 + n % 10 ≡ n = omega arith in
      rw e (
        digits_loop-to_base f (n / 10) max ((b'0' + n % 10) ∷ acc) (ground arith) (omega arith)
        ∙ digits_loop_digit max (n / 10) (n % 10) acc (omega arith) (omega arith)
        ∙ rw same)
]

-- A decimal number of more than one digit does not start with a zero.
abbrev Decimal : Bytes → Type 0
Decimal [] = ⊥
Decimal (c ∷ s) = (b'1' ≤ c) × (c ≤ b'9')

to_base-Decimal : (f n : ℕ) (acc : Bytes) → n ≤ f → 0 < n → Decimal (to_base f 10 n acc)
unfolding to_base
to_base-Decimal zero n acc h k = absurd (omega arith)
to_base-Decimal (suc f) n acc h k = elim (Bool-cases (ltb n 10)) [
  | inl e ↦ rw e (ground arith)
  | inr e ↦ rw e (to_base-Decimal f (n / 10) ((b'0' + n % 10) ∷ acc) (ground arith) (ground arith))
]

to_base-contains :
    (f n : ℕ) (acc : Bytes) → contains acc b'_' ≡ false → contains (to_base f 10 n acc) b'_' ≡ false
unfolding to_base contains
to_base-contains zero n acc h = ground arith
to_base-contains (suc f) n acc h = elim (Bool-cases (ltb n 10)) [
  | inl e ↦ rw e (ground arith)
  | inr e ↦ rw e (to_base-contains f (n / 10) ((b'0' + n % 10) ∷ acc) (ground arith))
]

Decimal-split_base : (s : Bytes) → Decimal s → split_base s ≡ (10, s)
unfolding split_base
Decimal-split_base [] h = absurd h
Decimal-split_base (c ∷ []) h = ground arith
Decimal-split_base (c ∷ d ∷ []) h = ground arith
Decimal-split_base (c ∷ d ∷ e ∷ s) h = ground arith

Decimal-parse_uint :
    (s : Bytes) (max : ℕ)
    → Decimal s
    → contains s b'_' ≡ false
    → parse_uint max s ≡ digits_loop 10 max 0 s
unfolding parse_uint
Decimal-parse_uint [] max h k = absurd h
Decimal-parse_uint (c ∷ s) max h k = rw (k, Decimal-split_base (c ∷ s) h)

parse_uint-zero : (max : ℕ) → parse_uint max (format_uint 10 0) ≡ some 0
unfolding format_uint to_base parse_uint split_base digits_loop contains
parse_uint-zero max = refl

digits_loop-nil : (max n : ℕ) → digits_loop 10 max n [] ≡ some n
unfolding digits_loop
digits_loop-nil max n = refl

contains-nil : contains [] b'_' ≡ false
unfolding contains
contains-nil = refl

-- `ParseUint` with base 0 reads back a number that `FormatUint` writes in decimal, if it fits.
pub parse_uint-format_uint : (n max : ℕ) → n ≤ max → parse_uint max (format_uint 10 n) ≡ some n
unfolding format_uint
parse_uint-format_uint zero max h = parse_uint-zero max
parse_uint-format_uint (suc n) max h =
    Decimal-parse_uint _ max (to_base-Decimal (suc n) (suc n) [] (omega arith) (omega arith))
      (to_base-contains (suc n) (suc n) [] contains-nil)
    ∙ digits_loop-to_base (suc n) (suc n) max [] (omega arith) h
    ∙ digits_loop-nil max (suc n)

-- `ParseInt` on digits without a sign.
Decimal-parse_int64 : (s : Bytes) → Decimal s → parse_int64 s ≡ positive (parse_uint (2 ^ 63 - 1) s)
unfolding parse_int64
Decimal-parse_int64 [] h = absurd h
Decimal-parse_int64 (c ∷ s) h = ground arith

parse_int64-zero : parse_int64 (format_uint 10 0) ≡ some (pos 0)
unfolding format_uint to_base parse_int64 parse_uint split_base digits_loop contains positive
parse_int64-zero = refl

parse_int64-minus : (s : Bytes) → parse_int64 (b'-' ∷ s) ≡ negative (parse_uint (2 ^ 63) s)
unfolding parse_int64
parse_int64-minus s = refl

-- A number that 64 bits with a sign hold.
abbrev pub FitsInt64 : ℤ → Type 0
FitsInt64 (pos n) = n < 2 ^ 63
FitsInt64 (negsuc n) = n < 2 ^ 63

-- `ParseInt` with base 0 reads back a number that `FormatInt` writes in decimal.
pub parse_int64-format_int : (i : ℤ) → FitsInt64 i → parse_int64 (format_int i) ≡ some i
unfolding format_int format_uint positive negative
parse_int64-format_int (pos zero) h = parse_int64-zero
parse_int64-format_int (pos (suc n)) h =
    Decimal-parse_int64 _ (to_base-Decimal (suc n) (suc n) [] (omega arith) (omega arith))
    ∙ ap positive (parse_uint-format_uint (suc n) (2 ^ 63 - 1) (omega arith))
parse_int64-format_int (negsuc n) h =
    parse_int64-minus (format_uint 10 (suc n))
    ∙ ap negative (parse_uint-format_uint (suc n) (2 ^ 63) (omega arith))

Decimal-parse_decimal :
    (s : Bytes) (max : ℕ)
    → Decimal s
    → contains s b'_' ≡ false
    → parse_decimal max s ≡ digits_loop 10 max 0 s
unfolding parse_decimal
Decimal-parse_decimal [] max h k = absurd h
Decimal-parse_decimal (c ∷ s) max h k = rw k refl

parse_decimal-zero : (max : ℕ) → parse_decimal max (format_uint 10 0) ≡ some 0
unfolding format_uint parse_decimal to_base digits_loop add_digit digit_value contains
parse_decimal-zero max = ground arith

-- `ParseUint` with base 10 reads back a number that `FormatUint` writes in decimal, if it fits.
pub parse_decimal-format_uint :
    (n max : ℕ) → n ≤ max → parse_decimal max (format_uint 10 n) ≡ some n
unfolding format_uint
parse_decimal-format_uint zero max h = parse_decimal-zero max
parse_decimal-format_uint (suc n) max h =
    Decimal-parse_decimal _ max (to_base-Decimal (suc n) (suc n) [] (omega arith) (omega arith))
      (to_base-contains (suc n) (suc n) [] contains-nil)
    ∙ digits_loop-to_base (suc n) (suc n) max [] (omega arith) h
    ∙ digits_loop-nil max (suc n)
