-- ===== src/Find/Printf/Escapes.antt =====
-- command/internal/find/printf.go: `processEscapes` on doubled backslashes.
use kefka.Common.{
  ℕ, zero, suc, ◌≤◌, ◌≡◌, refl, ap, ◌∙◌, inl, inr, false, [], ◌∷◌, ◌++◌, arith, ◌==◌, if◌then◌else◌,
  Bool-cases, length, Bytes,
}
use kefka.Find.Printf.{expand, process_escapes}

abbrev pub doubled : Bytes → Bytes
doubled [] = []
doubled (c ∷ s) = (if c == b'\\' then b'\\' ∷ b'\\' ∷ [] else c ∷ []) ++ doubled s

expand_plain :
    (f c : ℕ) (s : Bytes) → (c == b'\\') ≡ false → expand (suc f) (c ∷ s) ≡ c ∷ expand f s
unfolding expand
expand_plain zero c [] h = refl
expand_plain (suc f) c [] h = refl
expand_plain f c (d ∷ s) h = rw h

expand-doubled : (f : ℕ) (s : Bytes) → length (doubled s) ≤ f → expand f (doubled s) ≡ s
unfolding expand
expand-doubled zero [] h = refl
expand-doubled (suc f) [] h = refl
expand-doubled zero (c ∷ s) h = absurd (ground arith)
expand-doubled (suc zero) (c ∷ s) h = elim (Bool-cases (c == b'\\')) [
  | inl e ↦ absurd (ground arith)
  | inr e ↦
      rw e (expand_plain zero c (doubled s) e ∙ ap (◌∷◌ c) (expand-doubled zero s (ground arith)))
]
expand-doubled (suc (suc f)) (c ∷ s) h = elim (Bool-cases (c == b'\\')) [
  | inl e ↦ ground (arith, expand-doubled (suc f) s)
  | inr e ↦
      rw e (
        expand_plain (suc f) c (doubled s) e ∙ ap (◌∷◌ c) (expand-doubled (suc f) s (ground arith)))
]

-- `processEscapes` gives any text back from its form with the backslashes doubled.
pub process_escapes-doubled : (s : Bytes) → process_escapes (doubled s) ≡ s
unfolding process_escapes
process_escapes-doubled s = expand-doubled (length (doubled s)) s (omega arith)
