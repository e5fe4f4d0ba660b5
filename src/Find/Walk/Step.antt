-- ===== src/Find/Walk/Step.antt =====
-- command/internal/find/find.go: one visit, in both orders.
use kefka.Common.{
  ℕ, suc, ◌≡◌, refl, sym, ◌∙◌, ◌⊎◌, inl, inr, Bool, true, false, not, ◌&&◌, ◌||◌, Option, none,
  some, List, [], ◌++◌, arith, ltb, if◌then◌else◌, Bool-cases, Bytes,
}
use kefka.Find.Syntax.{Expr}
use kefka.Find.Eval.{Platform}
use kefka.Find.Filesystem.{FsError, DirEntry, Filesystem, unreadable_reason}
use kefka.Find.Node.{
  Effect, Node, Reading, Walker, Start, Walked, walked, ended, unfinished, not_read, listed,
  unreadable, fatal, reading_of, failed_reading, entries_of, read_dir, behind, and_then, diagnose,
  unless_fatal,
}
use kefka.Find.Walk.{
  eval_node, printf_data, evaluate, is_empty, other_device, at_max, visit_children, visit_after,
  visit_before, visit,
}

module _ (fs : Filesystem) (n : Node) where
  read_dir-failed_reading :
      (e : FsError) (o : Option Bytes) → read_dir fs n (failed_reading e o) ≡ failed_reading e o
  unfolding read_dir
  read_dir-failed_reading e none = refl
  read_dir-failed_reading e (some t) = refl

  read_dir-reading_of : (o : FsError ⊎ List DirEntry) → read_dir fs n (reading_of o) ≡ reading_of o
  unfolding read_dir
  read_dir-reading_of (inr l) = refl
  read_dir-reading_of (inl e) = read_dir-failed_reading e (unreadable_reason e)

  -- A directory is read once.
  read_dir-read_dir : read_dir fs n (read_dir fs n not_read) ≡ read_dir fs n not_read
  unfolding read_dir
  read_dir-read_dir = read_dir-reading_of (fs.read_dir n.fs_path)

unless_fatal-walked :
    (n : Node) (r : Reading) (v : Walked) (es : List Effect)
    → unless_fatal n r v ≡ walked es
    → v ≡ walked es
unfolding unless_fatal
unless_fatal-walked n (fatal err) v es e = absurd (ground arith)
unless_fatal-walked n not_read v es e = e
unless_fatal-walked n (listed l) v es e = e
unless_fatal-walked n (unreadable t) v es e = e

pub behind-walked :
    (es : List Effect) (v : Walked) (fs : List Effect)
    → behind es v ≡ walked fs
    → (gs : List Effect) × (v ≡ walked gs) × (fs ≡ es ++ gs)
unfolding behind
behind-walked es (walked gs) fs e = (gs, refl, ground arith)
behind-walked es (ended t err) fs e = absurd (ground arith)
behind-walked es unfinished fs e = absurd (ground arith)

pub and_then-walked :
    (u v : Walked) (fs : List Effect)
    → and_then u v ≡ walked fs
    → (es : List Effect) × (gs : List Effect) × (u ≡ walked es) × (v ≡ walked gs) × (fs ≡ es ++ gs)
unfolding and_then
and_then-walked (walked es) v fs e =
    let (gs, k, q) = behind-walked es v fs e in (es, gs, refl, k, q)
and_then-walked (ended t err) v fs e = absurd (ground arith)
and_then-walked unfinished v fs e = absurd (ground arith)

module _ (p : Platform) (fs : Filesystem) (w : Walker) (s : Start) where
  -- What is below a node is visited.
  abbrev pub descends : Node → Bool
  descends n =
      (n.is_dir && not (at_max p fs w n) && not (other_device p fs w s n))
      && (w.opts.depth_first || not (evaluate p fs w s n not_read).pruned)

  abbrev pub entries_below : Node → List DirEntry
  entries_below n = entries_of (read_dir fs n not_read)

  -- What the visit of a node has read of it at its end.
  abbrev pub last_reading : Node → Reading
  last_reading n =
      if descends n then read_dir fs n not_read else (evaluate p fs w s n not_read).reading

  is_empty-read_dir :
      (n : Node)
      → is_empty p fs w n (printf_data p fs w s n) (read_dir fs n not_read)
        ≡ is_empty p fs w n (printf_data p fs w s n) not_read
  unfolding is_empty
  is_empty-read_dir n = rw (read_dir-read_dir fs n) refl

  eval_node-read_dir :
      (o : Option Expr) (n : Node)
      → eval_node p fs w o n (printf_data p fs w s n) (read_dir fs n not_read)
        ≡ eval_node p fs w o n (printf_data p fs w s n) not_read
  eval_node-read_dir none n = refl
  eval_node-read_dir (some e) n = rw (is_empty-read_dir n) refl

  pub evaluate-effects :
      (n : Node)
      → (evaluate p fs w s n (read_dir fs n not_read)).effects
        ≡ (evaluate p fs w s n not_read).effects
  unfolding evaluate
  evaluate-effects n = elim (Bool-cases (ltb n.depth w.opts.min_depth)) [
    | inl k ↦ rw k refl
    | inr k ↦ rw (k, eval_node-read_dir w.opts.expr n) refl
  ]

  evaluate-reading :
      (n : Node) → (evaluate p fs w s n (read_dir fs n not_read)).reading ≡ read_dir fs n not_read
  unfolding evaluate
  evaluate-reading n = elim (Bool-cases (ltb n.depth w.opts.min_depth)) [
    | inl k ↦ rw k refl
    | inr k ↦ ground (arith, k, read_dir-read_dir fs n)
  ]

  -- the parts of a visit of a node
  abbrev pub below : (Node → Walked) → Node → Walked
  below go n = if descends n then visit_children p fs w go n (entries_below n) else walked []

  abbrev Split : (Node → Walked) → Node → List Effect → Type 0
  Split go n es =
      (gs : List Effect) × (below go n ≡ walked gs)
      × ((w.opts.depth_first ≡ true)
            × (es ≡ gs ++ (diagnose n (last_reading n) ++ (evaluate p fs w s n not_read).effects))
          ⊎ (w.opts.depth_first ≡ false)
            × (es ≡ ((evaluate p fs w s n not_read).effects ++ diagnose n (last_reading n)) ++ gs))

  evaluate-read_dir :
      (n : Node) → read_dir fs n (evaluate p fs w s n not_read).reading ≡ read_dir fs n not_read
  unfolding evaluate
  evaluate-read_dir n = elim (Bool-cases (ltb n.depth w.opts.min_depth)) [
    | inl k ↦ rw k refl
    | inr k ↦ ground (arith, k, read_dir-read_dir fs n)
  ]

  abbrev within_limits : Node → Bool
  within_limits n = n.is_dir && not (at_max p fs w n) && not (other_device p fs w s n)

  abbrev pruned : Node → Bool
  pruned n = (evaluate p fs w s n not_read).pruned

  pub visit_after_lem :
      (go : Node → Walked) (n : Node)
      → w.opts.depth_first ≡ true
      → visit_after p fs w go s n
        ≡ and_then (below go n) (
            unless_fatal n
              (last_reading n)
              (walked (diagnose n (last_reading n) ++ (evaluate p fs w s n not_read).effects)))
  unfolding visit_after
  visit_after_lem go n d = elim (Bool-cases (within_limits n)) [
    | inl k ↦ rw (k, d, evaluate-effects n, evaluate-reading n) refl
    | inr k ↦ rw (k, d) refl
  ]

  pub visit_before_lem :
      (go : Node → Walked) (n : Node)
      → w.opts.depth_first ≡ false
      → visit_before p fs w go s n
        ≡ unless_fatal n (last_reading n) (
            behind
              ((evaluate p fs w s n not_read).effects ++ diagnose n (last_reading n))
              (below go n))
  unfolding visit_before
  visit_before_lem go n d =
      let same : (n.is_dir
            && not (pruned n)
            && not (at_max p fs w n)
            && not (other_device p fs w s n))
          ≡ (within_limits n && not (pruned n)) =
        ground arith in
      elim (Bool-cases (within_limits n && not (pruned n))) [
        | inl k ↦ rw (d, same, k, evaluate-read_dir n) refl
        | inr k ↦ rw (d, same, k) refl
      ]

  visit_after-Split :
      (go : Node → Walked) (n : Node) (es : List Effect)
      → w.opts.depth_first ≡ true
      → visit_after p fs w go s n ≡ walked es
      → Split go n es
  visit_after-Split go n es d e =
      let (gs, hs, k, l, q) = and_then-walked _ _ es (sym (visit_after_lem go n d) ∙ e) in
      let own = unless_fatal-walked n (last_reading n) _ hs l in
      (gs, k, inl (d, ground (arith, q, own)))

  visit_before-Split :
      (go : Node → Walked) (n : Node) (es : List Effect)
      → w.opts.depth_first ≡ false
      → visit_before p fs w go s n ≡ walked es
      → Split go n es
  visit_before-Split go n es d e =
      let own = unless_fatal-walked n (last_reading n) _ es (sym (visit_before_lem go n d) ∙ e) in
      let (gs, k, q) = behind-walked _ _ es own in (gs, k, inr (d, q))

  -- The effects of a visit: those below the node, and its own.
  pub visit-Split :
      (f : ℕ) (n : Node) (es : List Effect)
      → visit p fs w (suc f) s n ≡ walked es
      → Split (visit p fs w f s) n es
  unfolding visit
  visit-Split f n es e = elim (Bool-cases w.opts.depth_first) [
    | inl d ↦ visit_after-Split (visit p fs w f s) n es d (rw d at e)
    | inr d ↦ visit_before-Split (visit p fs w f s) n es d (rw d at e)
  ]
