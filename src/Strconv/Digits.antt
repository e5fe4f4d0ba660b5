-- ===== src/Strconv/Digits.antt =====
-- Package strconv: the digits that formatting in decimal writes.
use kefka.Common.{
  ℕ, zero, suc, ◌+◌, ◌/◌, ◌%◌, ◌≤◌, ◌<◌, ◌≡◌, refl, ◌⊎◌, inl, inr, false, [], ◌∷◌, ◌++◌, arith, ltb,
  Bool-cases, Bytes, contains,
}
use kefka.Strconv.{to_base, format_uint}

abbrev pub AllDigits : Bytes → Type 0
AllDigits [] = Unit
AllDigits (c ∷ s) = ((b'0' ≤ c) × (c ≤ b'9')) × AllDigits s

to_base-AllDigits : (f n : ℕ) (acc : Bytes) → n ≤ f → AllDigits acc → AllDigits (to_base f 10 n acc)
unfolding to_base
to_base-AllDigits zero n acc h k = (omega arith, k)
to_base-AllDigits (suc f) n acc h k = elim (Bool-cases (ltb n 10)) [
  | inl e ↦ rw e (ground arith, k)
  | inr e ↦
      rw e (to_base-AllDigits f (n / 10) ((b'0' + n % 10) ∷ acc) (ground arith) (omega arith, k))
]

pub format_uint-AllDigits : (n : ℕ) → AllDigits (format_uint 10 n)
unfolding format_uint
format_uint-AllDigits n = to_base-AllDigits n n [] (omega arith) tt

-- A byte that is no digit.
abbrev pub NoDigit : ℕ → Type 0
NoDigit c = (c < b'0') ⊎ (b'9' < c)

pub AllDigits-contains : (s : Bytes) (c : ℕ) → NoDigit c → AllDigits s → contains s c ≡ false
unfolding contains
AllDigits-contains [] c h k = refl
AllDigits-contains (d ∷ s) c h (k, l) = ground (arith, AllDigits-contains s c h l)

pub to_base-append :
    (f base n : ℕ) (acc s : Bytes) → to_base f base n acc ++ s ≡ to_base f base n (acc ++ s)
unfolding to_base
to_base-append zero base n acc s = refl
to_base-append (suc f) base n acc s = elim (Bool-cases (ltb n base)) [
  | inl e ↦ rw e refl
  | inr e ↦ rw e (to_base-append f base (n / base) ((b'0' + n % base) ∷ acc) s)
]
