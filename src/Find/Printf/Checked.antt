-- ===== src/Find/Printf/Checked.antt =====
-- command/internal/find/printf.go: the widths of `checkPrintf` and of `formatPrintf`.
use kefka.Common.{
  ℕ, zero, suc, ◌+◌, ◌-◌, ◌*◌, ◌≤◌, ◌≡◌, refl, inl, inr, Bool, true, not, Option, none, some, [],
  ◌∷◌, ◌++◌, arith, ◌==◌, if◌then◌else◌, Option-cases, length, Bytes, false, Bool-cases,
}
use kefka.Find.Printf.{
  Width, parse_width_precision, parse_precision, digits, max_format_bytes, after_directive,
  check_loop, check_printf, process_escapes,
}
use kefka.Find.Printf.Format.{
  PrintfData, Clock, write_directive, width_or_zero, format_loop, format_printf,
}

-- A width and a precision within the limit.
abbrev pub AtMostLimit : Option ℕ → Type 0
AtMostLimit none = Unit
AtMostLimit (some n) = n ≤ max_format_bytes

abbrev pub WithinLimit : Width → Type 0
WithinLimit w = (w.width ≤ max_format_bytes) × AtMostLimit w.precision

digits-le :
    (n : ℕ) (s : Bytes) (m : ℕ) (r : Bytes)
    → n ≤ max_format_bytes
    → digits n s ≡ some (m, r)
    → m ≤ max_format_bytes
unfolding digits
digits-le n [] m r h e = ground arith
digits-le n (c ∷ s) m r h e = ground (arith, digits-le (n * 10 + (c - b'0')) s m r)

parse_precision-WithinLimit :
    (left : Bool) (o : Option (ℕ × Bytes)) (w : Width) (r : Bytes)
    → ((m : ℕ) (t : Bytes) → o ≡ some (m, t) → m ≤ max_format_bytes)
    → parse_precision left o ≡ some (w, r)
    → WithinLimit w
unfolding parse_precision
parse_precision-WithinLimit left none w r h q = cc
parse_precision-WithinLimit left (some (m, [])) w r h q = ground (arith, h m [] refl)
parse_precision-WithinLimit left (some (m, c ∷ t)) w r h q = elim (Option-cases (digits 0 t)) [
  | inl e ↦ ground (arith, h m (c ∷ t) refl)
  | inr (d, e) ↦ ground (arith, h m (c ∷ t) refl, digits-le 0 t d.0 d.1)
]

abbrev prepend : Bytes → Option Bytes → Option Bytes
prepend out none = none
prepend out (some r) = some (out ++ r)

module _ (clock : Clock) where
  -- The formatter that stops with no answer at a width which is refused.
  strict_loop : ℕ → Bytes → PrintfData → Option Bytes
  strict_loop zero s d = some []
  strict_loop (suc f) [] d = some []
  strict_loop (suc f) (c ∷ []) d = some (c ∷ [])
  strict_loop (suc f) (c ∷ b ∷ s) d =
      let plain = prepend (c ∷ []) (strict_loop f (b ∷ s) d) in
      let literal = prepend (b'%' ∷ []) (strict_loop f s d) in
      let directive : Option Bytes = elim (parse_width_precision (b ∷ s)) [
        | none ↦ none
        | some (w, behind) ↦
            let (out, rest) = write_directive clock (c ∷ b ∷ s) w behind d in
            prepend out (strict_loop f rest d)
      ] in
      if not (c == b'%') then plain else if b == b'%' then literal else directive

  pub format_strict : Bytes → PrintfData → Option Bytes
  unfolding strict_loop
  format_strict format d = let s = process_escapes format in strict_loop (length s) s d

  write_directive-rest :
      (spec : Bytes) (w : Width) (s : Bytes) (d : PrintfData)
      → (write_directive clock spec w s d).1 ≡ after_directive s
  unfolding write_directive after_directive
  write_directive-rest spec w [] d = refl
  write_directive-rest spec w (c ∷ s) d = ground arith

  strict_loop-format_loop :
      (f : ℕ) (s : Bytes) (d : PrintfData)
      → check_loop f s ≡ true
      → strict_loop f s d ≡ some (format_loop clock f s d)
  unfolding strict_loop check_loop format_loop width_or_zero
  strict_loop-format_loop zero s d h = refl
  strict_loop-format_loop (suc f) [] d h = refl
  strict_loop-format_loop (suc f) (c ∷ []) d h = refl
  strict_loop-format_loop (suc f) (c ∷ b ∷ s) d h =
      elim (Option-cases (parse_width_precision (b ∷ s))) [
        | inl e ↦ ground (arith, strict_loop-format_loop f (b ∷ s) d, strict_loop-format_loop f s d)
        | inr (r, e) ↦
            let (out, rest) = write_directive clock (c ∷ b ∷ s) r.0 r.1 d in
            ground (
              arith,
              strict_loop-format_loop f (b ∷ s) d,
              strict_loop-format_loop f s d,
              strict_loop-format_loop f rest d,
              write_directive-rest (c ∷ b ∷ s) r.0 r.1 d,
            )
      ]

  -- On a format that `checkPrintf` accepts, `formatPrintf` never meets the error that it does not
  -- look at: it writes what a formatter writes that stops at that error.
  pub format_strict-check_printf :
      (format : Bytes) (d : PrintfData)
      → check_printf format ≡ true
      → format_strict format d ≡ some (format_printf clock format d)
  unfolding format_strict check_printf format_printf
  format_strict-check_printf format d h =
      strict_loop-format_loop (length (process_escapes format)) (process_escapes format) d h

-- A width and a precision that are read without an error are at most `maxFormatBytes`.
pub parse_width_precision-WithinLimit :
    (s : Bytes) (w : Width) (r : Bytes) → parse_width_precision s ≡ some (w, r) → WithinLimit w
unfolding parse_width_precision
parse_width_precision-WithinLimit [] w r e =
    parse_precision-WithinLimit false (digits 0 []) w r (λ m t. digits-le 0 [] m t (omega arith)) e
parse_width_precision-WithinLimit (c ∷ s) w r e = elim (Bool-cases (c == b'-')) [
  | inl h ↦
      parse_precision-WithinLimit true (digits 0 s) w r (λ m t. digits-le 0 s m t (omega arith))
        (ground arith)
  | inr h ↦
      parse_precision-WithinLimit false (digits 0 (c ∷ s)) w r
        (λ m t. digits-le 0 (c ∷ s) m t (omega arith)) (ground arith)
]
