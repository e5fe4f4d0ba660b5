-- ===== src/Find/Walk/Effects.antt =====
-- command/internal/find/find.go: the actions that the walk collects, and the depths they stand at.
use mathlib.Core.Path.{subst}
use mathlib.Core.List.{Memᴰ, Sublistᴰ}
use mathlib.Core.List.Memᴰ as MemD
use kefka.Common.{
  ℕ, ◌≤◌, ◌≡◌, refl, ◌∙◌, ◌⊎◌, inl, inr, Bool, true, false, Option, none, some, List, [], ◌∷◌,
  arith, ltb, if◌then◌else◌, Bool-cases, Bytes, not, ◌&&◌,
}
use kefka.ShellPath.{resolve_path}
use kefka.Find.Syntax.{Action, Expr}
use kefka.Find.Eval.{actions_of, Platform}
use kefka.Find.Eval.Actions.{eval-actions}
use kefka.Find.Printf.Format.{PrintfData}
use kefka.Find.Filesystem.{Filesystem, FsError, FileInfo}
use kefka.Find.Node.{
  Effect, act, message, Node, Reading, Walker, Start, walked, not_read, acts, listed, unreadable,
  fatal, diagnose, default_print,
}
use kefka.Find.Walk.{
  evaluate, eval_node, printf_data, visit, walk_found, walk_start, walk_starts, start_node,
  followed, at_max,
}
use kefka.Find.Walk.Step.{last_reading, and_then-walked}
use kefka.Find.Walk.Reported.{Below, here, there, visit-Below}
use kefka.Find.Walk.Ends.{start_node-depth, child-depth}

message-act :
    (t : Bytes) (a : Action) (path : Bytes) (d : PrintfData)
    → Memᴰ (act a path d) (message t ∷ [])
    → ⊥
message-act t a path d (Memᴰ.head e) = absurd (ground (arith, e))
message-act t a path d (Memᴰ.tail m) = MemD.not-nil m

single : (es fs : List Effect) → walked fs ≡ walked es → es ≡ fs
single es fs e = ground (arith, e)

pub diagnose-act :
    (n : Node) (r : Reading) (a : Action) (path : Bytes) (d : PrintfData)
    → Memᴰ (act a path d) (diagnose n r)
    → ⊥
unfolding diagnose
diagnose-act n (unreadable t) a path d m = message-act _ a path d m
diagnose-act n not_read a path d m = MemD.not-nil m
diagnose-act n (listed l) a path d m = MemD.not-nil m
diagnose-act n (fatal e) a path d m = MemD.not-nil m

acts-act :
    (l : List Action) (fs_path : Bytes) (k : PrintfData) (a : Action) (path : Bytes)
    (d : PrintfData)
    → Memᴰ (act a path d) (acts l fs_path k)
    → Memᴰ a l × (d ≡ k)
acts-act [] fs_path k a path d m = absurd (MemD.not-nil m)
acts-act (b ∷ l) fs_path k a path d (Memᴰ.head e) =
    (Memᴰ.head (ground (arith, e)), ground (arith, e))
acts-act (b ∷ l) fs_path k a path d (Memᴰ.tail m) =
    let (i, q) = acts-act l fs_path k a path d m in (Memᴰ.tail i, q)

-- An action of the expression, or the -print of a search that has no action.
abbrev pub Allowed : Bool → Option Expr → Action → Type 0
Allowed has_action o a = Memᴰ a (actions_of o) ⊎ ((has_action ≡ false) × Memᴰ a default_print)

Sublistᴰ-Mem : {a : Action} {l m : List Action} → Sublistᴰ l m → Memᴰ a l → Memᴰ a m
Sublistᴰ-Mem Sublistᴰ.slnil i = i
Sublistᴰ-Mem (Sublistᴰ.cons h) i = Memᴰ.tail (Sublistᴰ-Mem h i)
Sublistᴰ-Mem (Sublistᴰ.cons-cons e h) (Memᴰ.head q) = Memᴰ.head (q ∙ e)
Sublistᴰ-Mem (Sublistᴰ.cons-cons e h) (Memᴰ.tail i) = Memᴰ.tail (Sublistᴰ-Mem h i)

module _ (p : Platform) (fs : Filesystem) (w : Walker) where
  eval_node-Mem :
      (o : Option Expr) (n : Node) (d : PrintfData) (r : Reading) (a : Action)
      → Memᴰ a (eval_node p fs w o n d r).actions
      → Memᴰ a (actions_of o)
  eval_node-Mem none n d r a m = absurd (MemD.not-nil m)
  eval_node-Mem (some e) n d r a m = Sublistᴰ-Mem (eval-actions p e _) m

  chosen-Allowed :
      (has_action matches : Bool) (o : Option Expr) (n : Node) (d : PrintfData) (r : Reading)
      (a : Action)
      → Memᴰ a
          (if not has_action && matches then default_print else (eval_node p fs w o n d r).actions)
      → Allowed has_action o a
  chosen-Allowed true matches o n d r a m = inl (eval_node-Mem o n d r a m)
  chosen-Allowed false true o n d r a m = inr (refl, m)
  chosen-Allowed false false o n d r a m = inl (eval_node-Mem o n d r a m)

  module _ (s : Start) where
    printf_data-depth : (n : Node) → (printf_data p fs w s n).depth ≡ n.depth
    unfolding printf_data
    printf_data-depth n = refl

    pub evaluate-act :
        (n : Node) (a : Action) (path : Bytes) (d : PrintfData)
        → Memᴰ (act a path d) (evaluate p fs w s n not_read).effects
        → Allowed w.has_action w.opts.expr a × (w.opts.min_depth ≤ d.depth) × (d.depth ≡ n.depth)
    unfolding evaluate
    evaluate-act n a path d m = elim (Bool-cases (ltb n.depth w.opts.min_depth)) [
      | inl k ↦ absurd (MemD.not-nil (rw k at m))
      | inr k ↦
          let (i, q) = acts-act _ n.fs_path (printf_data p fs w s n) a path d (rw k at m) in
          (
            chosen-Allowed w.has_action _ w.opts.expr n (printf_data p fs w s n) not_read a i,
            ground (arith, k, q, printf_data-depth n),
            ground (arith, q, printf_data-depth n),
          )
    ]

    Below-depth :
        (k : ℕ) {n m : Node}
        → w.opts.max_depth ≡ some k
        → Below p fs w s n m
        → n.depth ≤ k
        → m.depth ≤ k
    Below-depth k h here b = b
    Below-depth k {n = n} h (there {c = c} entry d i q t) b =
        let room : at_max p fs w n ≡ false = ground (arith, d) in
        Below-depth k h t (ground (arith, child-depth p fs w n c entry q, rw h at room))

  -- An action that the search may take, at a depth within the limits.
  abbrev Collected : Action → PrintfData → Type 0
  Collected a d =
      Allowed w.has_action w.opts.expr a
      × (w.opts.min_depth ≤ d.depth)
      × ((k : ℕ) → w.opts.max_depth ≡ some k → d.depth ≤ k)

  abbrev AllCollected : List Effect → Type 0
  AllCollected es =
      (a : Action) (path : Bytes) (d : PrintfData) → Memᴰ (act a path d) es → Collected a d

  visit-Collected :
      (s : Start) (f : ℕ) (n : Node) (es : List Effect)
      → n.depth ≡ 0
      → visit p fs w f s n ≡ walked es
      → AllCollected es
  visit-Collected s f n es top k a path d m =
      let (c, found) = (visit-Below p fs w s f n es k (act a path d)).0 m in
      let (b, r) = found in
      elim r [
        | inl i ↦
            let (j, low, at) = evaluate-act s c a path d i in
            (j, low, λ l h. ground (arith, at, Below-depth s l h b (ground (arith, top))))
        | inr i ↦ absurd (diagnose-act c (last_reading p fs w s c) a path d i)
      ]

  walk_found-Collected :
      (f : ℕ) (start : Bytes) (o : FsError ⊎ FileInfo) (es : List Effect)
      → walk_found p fs w f start o ≡ walked es
      → AllCollected es
  walk_found-Collected f start (inl err) es e =
      λ a path d m. absurd (message-act _ a path d (subst (Memᴰ (act a path d)) (single es _ e) m))
  walk_found-Collected f start (inr info) es e =
      let i = followed p fs w (resolve_path w.dir start) info in
      visit-Collected (record { start = start; start_dev = i.device }) f (start_node p fs w start i)
        es (start_node-depth p fs w start i) e

  walk_start-Collected :
      (f : ℕ) (start : Bytes) (es : List Effect)
      → walk_start p fs w f start ≡ walked es
      → AllCollected es
  unfolding walk_start
  walk_start-Collected f start = walk_found-Collected f start (fs.lstat (resolve_path w.dir start))

  -- Every action that a walk collects is one of the expression, or the default -print, which only a
  -- search without an action takes, at a depth that is at least the minimal and at most the maximal
  -- one.
  pub walk_starts-Collected :
      (f : ℕ) (starts : List Bytes) (es : List Effect)
      → walk_starts p fs w f starts ≡ walked es
      → (a : Action) (path : Bytes) (d : PrintfData) → Memᴰ (act a path d) es
      → (Memᴰ a (actions_of w.opts.expr) ⊎ ((w.has_action ≡ false) × Memᴰ a default_print))
        × (w.opts.min_depth ≤ d.depth)
        × ((k : ℕ) → w.opts.max_depth ≡ some k → d.depth ≤ k)
  unfolding walk_starts
  walk_starts-Collected f [] es e a path d m =
      let empty : es ≡ [] = ground (arith, e) in
      absurd (MemD.not-nil (subst (Memᴰ (act a path d)) empty m))
  walk_starts-Collected f (start ∷ starts) es e a path d m =
      let (gs, hs, u, v, q) = and_then-walked _ _ es e in
      elim (MemD.append_cases gs (subst (Memᴰ (act a path d)) q m)) [
        | inl i ↦ walk_start-Collected f start gs u a path d i
        | inr i ↦ walk_starts-Collected f starts hs v a path d i
      ]
