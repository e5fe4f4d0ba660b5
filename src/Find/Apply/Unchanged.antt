-- ===== src/Find/Apply/Unchanged.antt =====
-- command/internal/find/find.go: a search without -delete and -exec changes nothing.
use mathlib.Core.List.{Memᴰ}
use mathlib.Core.List.Memᴰ as MemD
use kefka.Common.{
  ℕ, ◌≡◌, refl, ◌∙◌, inl, inr, Bool, false, not, ◌&&◌, Option, List, [], ◌∷◌, arith, Bool-cases,
  Bytes,
}
use kefka.Find.Arguments.Printing.{kind_changes, OnlyPrints}
use kefka.Find.Syntax.{
  Action, ActionKind, act_print, act_print0, act_printf, act_delete, act_exec, Options, Expr,
}
use kefka.Find.Eval.{Platform, actions_of}
use kefka.Find.Printf.Format.{PrintfData, Clock}
use kefka.Find.Node.{Effect, act, message, Walked, walked, ended, unfinished, default_print}
use kefka.Find.Walk.Effects.{Allowed, walk_starts-Collected}
use kefka.Find.Apply.{
  World, Applying, Applied, going, apply_action, apply_effect, apply_effects, run_batches, apply,
  initial, no_runner, any_exec,
}
use kefka.Find.Command.{Context, walker, search, after_walk}

abbrev Quiet : List Effect → Type 0
Quiet es =
    (a : Action) (path : Bytes) (d : PrintfData)
    → Memᴰ (act a path d) es
    → kind_changes a.kind ≡ false

first-Mem : (x e : Effect) (es : List Effect) → Memᴰ x (e ∷ []) → Memᴰ x (e ∷ es)
first-Mem x e es (Memᴰ.head q) = Memᴰ.head q
first-Mem x e es (Memᴰ.tail m) = absurd (MemD.not-nil m)

module _ {S : Type 0} (w : World S) (clk : Clock) where
  -- The effects were performed with the world as it was, and without a batch.
  abbrev Same : Applying S → Applied S → Type 0
  Same s r = (t : Applying S) × (r ≡ going t) × (t.world ≡ s.world) × (t.batches ≡ s.batches)

  apply_action-Same :
      (a : Action) (k : ActionKind) (path : Bytes) (d : PrintfData) (s : Applying S)
      → kind_changes k ≡ false
      → Same s (apply_action w clk a k path d s)
  unfolding apply_action
  apply_action-Same a act_print path d s h = (_, refl, refl, refl)
  apply_action-Same a act_print0 path d s h = (_, refl, refl, refl)
  apply_action-Same a (act_printf f) path d s h = (_, refl, refl, refl)
  apply_action-Same a act_delete path d s h = absurd (ground (arith, h))
  apply_action-Same a (act_exec c b) path d s h = absurd (ground (arith, h))

  apply_effect-Same :
      (e : Effect) (s : Applying S) → Quiet (e ∷ []) → Same s (apply_effect w clk e s)
  unfolding apply_effect
  apply_effect-Same (message t) s h = (_, refl, refl, refl)
  apply_effect-Same (act a path d) s h =
      apply_action-Same a a.kind path d s (h a path d (Memᴰ.head refl))

  apply_effects-going :
      (e : Effect) (es : List Effect) (s t : Applying S)
      → apply_effect w clk e s ≡ going t
      → apply_effects w clk (e ∷ es) s ≡ apply_effects w clk es t
  unfolding apply_effects
  apply_effects-going e es s t k = rw (k, apply_effects) refl

  apply_effects-Same :
      (es : List Effect) (s : Applying S) → Quiet es → Same s (apply_effects w clk es s)
  unfolding apply_effects
  apply_effects-Same [] s h = (s, refl, refl, refl)
  apply_effects-Same (e ∷ es) s h =
      let (t, k, u, v) =
        apply_effect-Same e s (λ a path d m. h a path d (first-Mem (act a path d) e es m)) in
      let (r, l, x, y) = apply_effects-Same es t (λ a path d m. h a path d (Memᴰ.tail m)) in
      (r, apply_effects-going e es s t k ∙ l, x ∙ u, y ∙ v)

  -- Performing effects that only print leaves the world as it was, and no run follows.
  apply-Same :
      (s : S) (es : List Effect)
      → Quiet es
      → (t : Applying S) × (apply w clk s es ≡ going t) × (t.world ≡ s)
  unfolding apply run_batches
  apply-Same s es h =
      let (t, k, u, v) = apply_effects-Same es (initial w clk s) h in
      elim (Bool-cases (any_exec es && not w.has_runner)) [
        | inl b ↦ (no_runner w clk s, rw b refl, refl)
        | inr b ↦ (t, rw (b, k, v, run_batches) refl, u)
      ]

print-OnlyPrints : (a : Action) → Memᴰ a default_print → kind_changes a.kind ≡ false
print-OnlyPrints a (Memᴰ.head q) = ground (arith, q)
print-OnlyPrints a (Memᴰ.tail m) = absurd (MemD.not-nil m)

Allowed-OnlyPrints :
    (b : Bool) (o : Option Expr) (a : Action)
    → OnlyPrints (actions_of o)
    → Allowed b o a
    → kind_changes a.kind ≡ false
Allowed-OnlyPrints b o a h (inl i) = h a i
Allowed-OnlyPrints b o a h (inr i) = print-OnlyPrints a i.1

module _ {S : Type 0} (p : Platform) (w : World S) (clk : Clock) (ctx : Context) where
  after_walk-world :
      (s : S) (v : Walked)
      → ((es : List Effect) → v ≡ walked es → Quiet es)
      → (after_walk p w clk ctx s v).world ≡ s
  after_walk-world s (walked es) h = let (t, k, u) = apply-Same w clk s es (h es refl) in rw k u
  after_walk-world s (ended path err) h = refl
  after_walk-world s unfinished h = refl

  -- A search whose expression has neither -delete nor -exec leaves the world as it was.
  pub search-OnlyPrints :
      (f : ℕ) (s : S) (follow_start : Bool) (opts : Options) (starts : List Bytes)
      → OnlyPrints (actions_of opts.expr)
      → (search p w clk ctx f s follow_start opts starts).world ≡ s
  unfolding search walker
  search-OnlyPrints f s follow_start opts starts h = after_walk-world s _ (λ es e a path d m.
      Allowed-OnlyPrints (walker (w.view s) ctx p follow_start opts).has_action opts.expr a h
        (walk_starts-Collected p (w.view s) (walker (w.view s) ctx p follow_start opts) f starts es
          e a path d m).0)
