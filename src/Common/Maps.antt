-- ===== src/Common/Maps.antt =====
-- Maps whose keys are strings, as lists of pairs with distinct keys.
use mathlib.Core.Path.{◌≡◌, refl, sym, subst}
use mathlib.Core.Logic.{inl, inr}
use mathlib.Core.Bool.{false}
use mathlib.Core.Option.{Option, none, some}
use mathlib.Core.List.{List, [], ◌∷◌}
use kefka.Common.Tests.{if◌then◌else◌, Bool-cases}
use kefka.Common.Text.{Bytes, equal, equal_iff}

-- `m[name] = cmd`
unfoldable pub assign {ℓ} : {C : Type ℓ} → Bytes → C → List (Bytes × C) → List (Bytes × C)
unfolding equal
assign name cmd [] = (name, cmd) ∷ []
assign name cmd ((k, v) ∷ m) =
    let rest = assign name cmd m in if equal k name then (name, cmd) ∷ m else (k, v) ∷ rest

-- `m[name]`
unfoldable pub index {ℓ} : {C : Type ℓ} → Bytes → List (Bytes × C) → Option C
unfolding equal
index name [] = none
index name ((k, v) ∷ m) = let rest = index name m in if equal k name then some v else rest

-- `delete(m, name)`
unfoldable pub remove {ℓ} : {C : Type ℓ} → Bytes → List (Bytes × C) → List (Bytes × C)
unfolding equal
remove name [] = []
remove name ((k, v) ∷ m) = let rest = remove name m in if equal k name then rest else (k, v) ∷ rest

module _ {ℓ} {C : Type ℓ} where
  pub index-assign :
      (m : List (Bytes × C)) (name other : Bytes) (cmd : C)
      → index other (assign name cmd m) ≡ (if equal name other then some cmd else index other m)
  unfolding index assign
  index-assign [] name other cmd = refl
  index-assign ((k, v) ∷ m) name other cmd =
      let step = index-assign m name other cmd in
      elim (Bool-cases (equal k name)) [
        | inl e ↦
            let same = (equal_iff k name).0 e in
            rw e (elim (Bool-cases (equal name other)) [
              | inl l ↦ rw l refl
              | inr l ↦
                  let apart : equal k other ≡ false =
                    subst (λ x. equal x other ≡ false) (sym same) l in
                  rw (l, apart) refl
            ])
        | inr e ↦
            rw (e, step)
              (elim (Bool-cases (equal name other)) [
                | inl l ↦
                    let same = (equal_iff name other).0 l in
                    let apart : equal k other ≡ false = subst (λ x. equal k x ≡ false) same e in
                    rw (l, apart) refl
                | inr l ↦ rw (l) refl
              ])
      ]

  pub index-remove :
      (m : List (Bytes × C)) (name other : Bytes)
      → index other (remove name m) ≡ (if equal name other then none else index other m)
  unfolding index remove
  index-remove [] name other = elim (Bool-cases (equal name other)) [
    | inl l ↦ rw l refl
    | inr l ↦ rw l refl
  ]
  index-remove ((k, v) ∷ m) name other =
      let step = index-remove m name other in
      elim (Bool-cases (equal k name)) [
        | inl e ↦
            let same = (equal_iff k name).0 e in
            rw (e, step)
              (elim (Bool-cases (equal name other)) [
                | inl l ↦ rw l refl
                | inr l ↦
                    let apart : equal k other ≡ false =
                      subst (λ x. equal x other ≡ false) (sym same) l in
                    rw (l, apart) refl
              ])
        | inr e ↦
            rw (e, step)
              (elim (Bool-cases (equal name other)) [
                | inl l ↦
                    let same = (equal_iff name other).0 l in
                    let apart : equal k other ≡ false = subst (λ x. equal k x ≡ false) same e in
                    rw (l, apart) refl
                | inr l ↦ rw l refl
              ])
      ]
