-- ===== src/Find/Walk/Order.antt =====
-- command/internal/find/find.go: the order of a directory and its contents.
use mathlib.Core.List.{Memᴰ}
use kefka.Common.{
  ℕ, zero, suc, ◌≤◌, ◌<◌, ◌≡◌, ◌↔◌, inl, inr, ◌⊎◌, Bool, true, false, List, ◌++◌, arith,
  if◌then◌else◌,
}
use kefka.Find.Eval.{Platform}
use kefka.Find.Filesystem.{Filesystem}
use kefka.Find.Node.{Effect, Node, Walker, Start, walked, not_read, diagnose}
use kefka.Find.Walk.{evaluate, visit}
use kefka.Find.Walk.Step.{below, descends, entries_below, last_reading, visit-Split}
use kefka.Find.Walk.Reported.{Below, here, there, Reports, FromEntry, below-Children}
use kefka.Find.Walk.Ends.{child-depth}

either-if :
    (b : Bool) (es fs gs : List Effect)
    → ((b ≡ true) × (es ≡ fs)) ⊎ ((b ≡ false) × (es ≡ gs))
    → es ≡ (if b then fs else gs)
either-if true es fs gs (inl q) = q.1
either-if true es fs gs (inr q) = cc (q.0)
either-if false es fs gs (inl q) = cc (q.0)
either-if false es fs gs (inr q) = q.1

module _ (p : Platform) (fs : Filesystem) (w : Walker) (s : Start) where
  Below-deeper : {n m : Node} → Below p fs w s n m → n.depth ≤ m.depth
  Below-deeper here = omega arith
  Below-deeper (there {n = n} {c = c} entry d i q t) =
      ground (arith, child-depth p fs w n c entry q, Below-deeper t)

  -- A node below this one, and not itself, reports the effect.
  abbrev pub ReportedBelow : Node → Effect → Type 0
  ReportedBelow n e = (m : Node) × (Below p fs w s n m × (n.depth < m.depth) × Reports p fs w s m e)

  FromEntry-ReportedBelow :
      (n : Node) (e : Effect)
      → descends p fs w s n ≡ true
      → FromEntry p fs w s n (entries_below p fs w s n) e
      → ReportedBelow n e
  FromEntry-ReportedBelow n e d (entry, c, i, q, (m, (b, r))) =
      (m, (there entry d i q b, ground (arith, child-depth p fs w n c entry q, Below-deeper b), r))

  Below-FromEntry :
      {n m : Node} (e : Effect)
      → Below p fs w s n m
      → n.depth < m.depth
      → Reports p fs w s m e
      → (descends p fs w s n ≡ true) × FromEntry p fs w s n (entries_below p fs w s n) e
  Below-FromEntry e here h r = absurd (omega (arith, h))
  Below-FromEntry e (there {c = c} {m = m} entry d i q b) h r = (d, (entry, c, i, q, (m, (b, r))))

  below-ReportedBelow :
      (f : ℕ) (n : Node) (gs : List Effect)
      → below p fs w s (visit p fs w f s) n ≡ walked gs
      → (e : Effect) → Memᴰ e gs ↔ ReportedBelow n e
  below-ReportedBelow f n gs u e =
      let (a, b) = below-Children p fs w s f n gs u e in
      (
        λ m. let (d, r) = a m in FromEntry-ReportedBelow n e d r,
        λ (m, (t, h, r)). b (Below-FromEntry e t h r),
      )

  -- A visit that comes to its end gives, under -depth, first the effects of the nodes below, whatever
  -- they report, then why the entry itself cannot be read, then the effects of its evaluation;
  -- without -depth first those of its evaluation, then why it cannot be read, then those of the nodes
  -- below.
  pub visit-order :
      (f : ℕ) (n : Node) (es : List Effect)
      → visit p fs w f s n ≡ walked es
      → (gs : List Effect) × (es ≡ (
          if w.opts.depth_first
          then gs
            ++ (diagnose n (last_reading p fs w s n) ++ (evaluate p fs w s n not_read).effects)
          else ((evaluate p fs w s n not_read).effects ++ diagnose n (last_reading p fs w s n))
            ++ gs))
        × ((e : Effect) → Memᴰ e gs ↔ ReportedBelow n e)
  unfolding visit
  visit-order zero n es e = absurd (ground (arith, e))
  visit-order (suc f) n es e =
      let (gs, u, o) = visit-Split p fs w s f n es e in
      let exact = below-ReportedBelow f n gs u in (gs, either-if w.opts.depth_first es _ _ o, exact)
