-- ===== src/Diff/Ed/Commands.antt =====
-- command/internal/diff/diff.go: the line numbers and letters of `writeEd`, as the editor reads them.
use kefka.Common.{
  ℕ, zero, suc, ◌+◌, ◌-◌, ◌*◌, ◌/◌, ◌%◌, ◌≤◌, ◌<◌, ◌≡◌, refl, ap, ◌∙◌, ◌≢◌, inl, inr, false, [],
  ◌∷◌, ◌++◌, append_assoc, arith, ltb, ◌==◌, Bool-cases, Bytes,
}
use kefka.Strconv.{to_base, format_uint}
use kefka.Strconv.Digits.{NoDigit, to_base-append}
use kefka.Diff.Write.{itoa, format_range}
use kefka.Diff.Ed.Editor.{read_number, letter, read_command}

read_number_digit :
    (n d : ℕ) (s : Bytes) → d < 10 → read_number n ((b'0' + d) ∷ s) ≡ read_number (n * 10 + d) s
unfolding read_number
read_number_digit n d s h = let value : b'0' + d - b'0' ≡ d = omega arith in ground arith

read_number-to_base :
    (f n : ℕ) (acc : Bytes) → n ≤ f → read_number 0 (to_base f 10 n acc) ≡ read_number n acc
unfolding to_base
read_number-to_base zero n acc h =
    let same : 0 * 10 + n % 10 ≡ n = omega arith in
    read_number_digit 0 (n % 10) acc (omega arith) ∙ rw same
read_number-to_base (suc f) n acc h = elim (Bool-cases (ltb n 10)) [
  | inl e ↦
      let same : 0 * 10 + n ≡ n = omega arith in
      rw e (read_number_digit 0 n acc (ground arith) ∙ rw same)
  | inr e ↦
      let same : n / 10 * 10 + n % 10 ≡ n = omega arith in
      rw e (
        read_number-to_base f (n / 10) ((b'0' + n % 10) ∷ acc) (ground arith)
        ∙ read_number_digit (n / 10) (n % 10) acc (omega arith)
        ∙ rw same)
]

read_number_end : (n c : ℕ) (s : Bytes) → NoDigit c → read_number n (c ∷ s) ≡ (n, c ∷ s)
unfolding read_number
read_number_end n c s h = ground arith

read_number-itoa :
    (n c : ℕ) (s : Bytes) → NoDigit c → read_number 0 (itoa n ++ (c ∷ s)) ≡ (n, c ∷ s)
unfolding format_uint
read_number-itoa n c s h =
    ap (read_number 0) (to_base-append n 10 n [] (c ∷ s))
    ∙ read_number-to_base n n (c ∷ s) (omega arith)
    ∙ read_number_end n c s h

pub read_command-itoa :
    (n c : ℕ) (s : Bytes)
    → NoDigit c
    → c ≢ b','
    → read_command (itoa n ++ (c ∷ s)) ≡ letter n n (c ∷ s)
unfolding read_command
read_command-itoa n c s h k =
    let other : (c == b',') ≡ false = ground arith in rw (read_number-itoa n c s h, other) refl

read_command-pair :
    (lo hi c : ℕ) (s : Bytes)
    → NoDigit c
    → read_command (itoa lo ++ (b',' ∷ (itoa hi ++ (c ∷ s)))) ≡ letter lo hi (c ∷ s)
unfolding read_command
read_command-pair lo hi c s h =
    rw (read_number-itoa lo b',' (itoa hi ++ (c ∷ s)) (omega arith), read_number-itoa hi c s h) refl

pub read_command-format_range :
    (lo hi c : ℕ) (s : Bytes)
    → NoDigit c
    → c ≢ b','
    → read_command (format_range lo hi ++ (c ∷ s)) ≡ letter lo hi (c ∷ s)
unfolding format_range
read_command-format_range lo hi c s h k = elim (Bool-cases (lo == hi)) [
  | inl e ↦
      let same : lo ≡ hi = ground arith in
      rw e (read_command-itoa lo c s h k ∙ ap (λ n. letter lo n (c ∷ s)) same)
  | inr e ↦ rw e (
      ap read_command (append_assoc (itoa lo) (b',' ∷ itoa hi) (c ∷ s))
      ∙ read_command-pair lo hi c s h)
]
