-- ===== src/Find/Glob/Classes.antt =====
-- command/internal/find/matcher.go: `inClass` beside Find.Glob.Spec.
use kefka.Common.{
  ℕ, ◌≤◌, ◌≡◌, refl, ◌≢◌, ◌⊎◌, inl, inr, Bool, true, false, not, ◌&&◌, ◌||◌, List, arith, ltb, ◌==◌,
  if◌then◌else◌, codes, equal, equal_iff,
}
use kefka.Find.Glob.{in_class, is_hex}
use kefka.Unicode.{Unicode}
use kefka.Find.Glob.Spec.{
  InClass, folded, class_alnum, class_alpha, class_blank, class_cntrl, class_digit, class_graph,
  class_lower, class_print, class_punct, class_space, class_upper, class_xdigit,
}

-- A test that holds, by the branch taken.
chosen :
    {P : Type 0} (b : Bool) {x y : Bool}
    → (b ≡ true → x ≡ true → P)
    → (y ≡ true → P)
    → (if b then x else y) ≡ true
    → P
chosen true t f e = t refl e
chosen false t f e = f e

pub or-cases : (a b : Bool) → a || b ≡ true → (a ≡ true) ⊎ (b ≡ true)
or-cases true b e = inl refl
or-cases false b e = inr e

and-both : (a b : Bool) → a && b ≡ true → (a ≡ true) × (b ≡ true)
and-both true b e = (refl, e)
and-both false b e = cc

blank_cases : (c : ℕ) → (c == b' ' || c == b'\t') ≡ true → (c ≡ b' ') ⊎ (c ≡ b'\t')
blank_cases c e = ground (arith, e)

not_blank : (c : ℕ) → not (c == b' ') ≡ true → c ≢ b' '
not_blank c e k = ground (arith, e, k)

hex_cases :
    (c : ℕ)
    → (ltb c 0x80 && is_hex c) ≡ true
    → ((b'0' ≤ c) × (c ≤ b'9')) ⊎ (((b'a' ≤ c) × (c ≤ b'f')) ⊎ ((b'A' ≤ c) × (c ≤ b'F')))
unfolding is_hex
hex_cases c e = ground (arith, e)

module _ (u : Unicode) (fold : Bool) (c : ℕ) where
  pub in_class-InClass : (name : List ℕ) → in_class u name c fold ≡ true → InClass u fold c name
  unfolding in_class
  in_class-InClass name =
      chosen (fold && (equal name (codes "upper") || equal name (codes "lower")))
        (λ b x.
          let (f, o) = and-both fold _ b in
          folded f
            (elim (or-cases _ _ o) [
              | inl i ↦ inl ((equal_iff name _).0 i)
              | inr i ↦ inr ((equal_iff name _).0 i)
            ])
            (or-cases _ _ x))
        (chosen (equal name (codes "alnum"))
          (λ b x. class_alnum ((equal_iff name _).0 b) (or-cases _ _ x))
          (chosen (equal name (codes "alpha")) (λ b x. class_alpha ((equal_iff name _).0 b) x)
            (chosen (equal name (codes "blank"))
              (λ b x. class_blank ((equal_iff name _).0 b) (blank_cases c x))
              (chosen (equal name (codes "cntrl")) (λ b x. class_cntrl ((equal_iff name _).0 b) x)
                (chosen (equal name (codes "digit"))
                  (λ b x.
                    class_digit ((equal_iff name _).0 b) (ground (arith, x), ground (arith, x)))
                  (chosen (equal name (codes "graph"))
                    (λ b x.
                      class_graph ((equal_iff name _).0 b)
                        (let (a, k) = and-both _ _ x in (a, not_blank c k)))
                    (chosen (equal name (codes "lower"))
                      (λ b x. class_lower ((equal_iff name _).0 b) x)
                      (chosen (equal name (codes "print"))
                        (λ b x. class_print ((equal_iff name _).0 b) x)
                        (chosen (equal name (codes "punct"))
                          (λ b x. class_punct ((equal_iff name _).0 b) (or-cases _ _ x))
                          (chosen (equal name (codes "space"))
                            (λ b x. class_space ((equal_iff name _).0 b) x)
                            (chosen (equal name (codes "upper"))
                              (λ b x. class_upper ((equal_iff name _).0 b) x)
                              (chosen (equal name (codes "xdigit"))
                                (λ b x. class_xdigit ((equal_iff name _).0 b) (hex_cases c x))
                                (λ e. cc)))))))))))))

  pub InClass-in_class : {name : List ℕ} → InClass u fold c name → in_class u name c fold ≡ true
  unfolding in_class equal is_hex
  InClass-in_class (folded f (inl e) h) = rw (e, f) (ground (arith, h))
  InClass-in_class (folded f (inr e) h) = rw (e, f) (ground (arith, h))
  InClass-in_class (class_alnum e h) = rw e (ground (arith, h))
  InClass-in_class (class_alpha e h) = rw e (ground (arith, h))
  InClass-in_class (class_blank e h) = rw e (ground (arith, h))
  InClass-in_class (class_cntrl e h) = rw e (ground (arith, h))
  InClass-in_class (class_digit e h) = rw e (ground (arith, h))
  InClass-in_class (class_graph e h) = rw e (ground (arith, h))
  InClass-in_class (class_lower e h) = rw e (ground (arith, h))
  InClass-in_class (class_print e h) = rw e (ground (arith, h))
  InClass-in_class (class_punct e h) = rw e (ground (arith, h))
  InClass-in_class (class_space e h) = rw e (ground (arith, h))
  InClass-in_class (class_upper e h) = rw e (ground (arith, h))
  InClass-in_class (class_xdigit e h) = rw e (ground (arith, h))
