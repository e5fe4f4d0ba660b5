-- ===== src/Find/Walk/Ends.antt =====
-- command/internal/find/find.go: the walk ends where the directories are not nested without end, or
-- where -maxdepth is given.
use mathlib.Core.Path.{subst}
use mathlib.Core.List.{Memᴰ}
use kefka.Common.{
  ℕ, zero, suc, ◌+◌, ◌≤◌, ◌≡◌, refl, sym, ◌≢◌, ◌⊎◌, inl, inr, true, some, List, [], ◌∷◌, arith,
  Bool-cases, Option-cases, Bytes,
}
use kefka.Find.Eval.{Platform}
use kefka.Find.Filesystem.{DirEntry, Filesystem, FsError, FileInfo}
use kefka.Find.Node.{
  Effect, Node, Reading, Walker, Start, Walked, walked, ended, unfinished, not_read, listed,
  unreadable, fatal, and_then, behind, unless_fatal, new_node, statted_node,
}
use kefka.ShellPath.{resolve_path}
use kefka.Find.Walk.{
  followed, walk_start, walk_starts, walk_found, start_node, child, visit_children, visit, at_max,
}
use kefka.Find.Walk.Step.{
  descends, entries_below, last_reading, below, visit_after_lem, visit_before_lem,
}
use kefka.Find.Walk.Reported.{children-some, children-none}

abbrev Finished : Walked → Type 0
Finished v = v ≢ unfinished

behind-Finished : (es : List Effect) (v : Walked) → Finished v → Finished (behind es v)
unfolding behind
behind-Finished es (walked fs) h e = absurd (ground (arith, e))
behind-Finished es (ended t err) h e = absurd (ground (arith, e))
behind-Finished es unfinished h e = h refl

and_then-Finished : (u v : Walked) → Finished u → Finished v → Finished (and_then u v)
unfolding and_then
and_then-Finished (walked es) v h k = behind-Finished es v k
and_then-Finished (ended t err) v h k = λ e. absurd (ground (arith, e))
and_then-Finished unfinished v h k = λ e. h refl

unless_fatal-Finished :
    (n : Node) (r : Reading) (v : Walked) → Finished v → Finished (unless_fatal n r v)
unfolding unless_fatal
unless_fatal-Finished n (fatal err) v h = λ e. absurd (ground (arith, e))
unless_fatal-Finished n not_read v h = h
unless_fatal-Finished n (listed l) v h = h
unless_fatal-Finished n (unreadable t) v h = h

walked-Finished : (es : List Effect) → Finished (walked es)
walked-Finished es e = absurd (ground (arith, e))

statted_node-depth :
    (display path name : Bytes) (k : ℕ) (o : FsError ⊎ FileInfo) (c : Node)
    → statted_node display path name k o ≡ some c
    → c.depth ≡ k
unfolding new_node
statted_node-depth display path name k (inl err) c e = absurd (ground (arith, e))
statted_node-depth display path name k (inr info) c e = ground (arith, e)

module _ (p : Platform) (fs : Filesystem) (w : Walker) where
  pub child-depth :
      (n c : Node) (entry : DirEntry) → child p fs w n entry ≡ some c → c.depth ≡ suc n.depth
  unfolding child
  child-depth n c entry e = elim (Bool-cases w.needs_stat) [
    | inl k ↦ ground (arith, statted_node-depth _ _ _ (n.depth + 1) _ c (rw k at e))
    | inr k ↦ ground (arith, rw k at e)
  ]

  module _ (s : Start) where
    -- The search does not go deeper than a number below a node.
    abbrev pub Height : ℕ → Node → Type 0
    Height zero n = ⊥
    Height (suc k) n =
        (entry : DirEntry) (c : Node)
        → descends p fs w s n ≡ true
        → Memᴰ entry (entries_below p fs w s n)
        → child p fs w n entry ≡ some c
        → Height k c

    children-Finished :
        (go : Node → Walked) (n : Node) (l : List DirEntry)
        → ((entry : DirEntry) (c : Node)
            → Memᴰ entry l
            → child p fs w n entry ≡ some c
            → Finished (go c))
        → Finished (visit_children p fs w go n l)
    unfolding visit_children
    children-Finished go n [] h = walked-Finished []
    children-Finished go n (d ∷ l) h = elim (Option-cases (child p fs w n d)) [
      | inl q ↦
          subst Finished (sym (children-none p fs w s go n d l q))
            (children-Finished go n l (λ entry c m. h entry c (Memᴰ.tail m)))
      | inr (c, q) ↦ subst Finished (sym (children-some p fs w s go n c d l q)) (
          and_then-Finished (go c) (visit_children p fs w go n l) (h d c (Memᴰ.head refl) q)
            (children-Finished go n l (λ entry c m. h entry c (Memᴰ.tail m))))
    ]

    below-Finished :
        (go : Node → Walked) (n : Node)
        → ((entry : DirEntry) (c : Node)
            → descends p fs w s n ≡ true
            → Memᴰ entry (entries_below p fs w s n)
            → child p fs w n entry ≡ some c
            → Finished (go c))
        → Finished (below p fs w s go n)
    below-Finished go n h = elim (Bool-cases (descends p fs w s n)) [
      | inl d ↦
          subst Finished (rw d refl)
            (children-Finished go n (entries_below p fs w s n) (λ entry c m. h entry c d m))
      | inr d ↦ subst Finished (rw d refl) (walked-Finished [])
    ]

    -- The fuel is enough where it is more than the depth of the search below the node.
    pub visit-Finished : (f : ℕ) (n : Node) → Height f n → visit p fs w f s n ≢ unfinished
    unfolding visit
    visit-Finished zero n h = absurd h
    visit-Finished (suc f) n h =
        let under =
          below-Finished (visit p fs w f s) n
            (λ entry c d m k. visit-Finished f c (h entry c d m k)) in
        elim (Bool-cases w.opts.depth_first) [
          | inl d ↦ rw d (
              subst Finished (sym (visit_after_lem p fs w s (visit p fs w f s) n d)) (
                and_then-Finished _ _ under
                  (unless_fatal-Finished n (last_reading p fs w s n) _ (walked-Finished _))))
          | inr d ↦ rw d (
              subst Finished (sym (visit_before_lem p fs w s (visit p fs w f s) n d))
                (unless_fatal-Finished n (last_reading p fs w s n) _ (behind-Finished _ _ under)))
        ]

    pub max_depth-Height :
        (k j : ℕ) (n : Node) → w.opts.max_depth ≡ some k → k ≤ n.depth + j → Height (suc j) n
    max_depth-Height k zero n h b entry c d m q =
        let full : at_max p fs w n ≡ true = rw h (ground (arith, b)) in
        absurd (ground (arith, d, full))
    max_depth-Height k (suc j) n h b entry c d m q =
        max_depth-Height k j c h (ground (arith, child-depth n c entry q))

  pub start_node-depth : (start : Bytes) (i : FileInfo) → (start_node p fs w start i).depth ≡ 0
  unfolding start_node new_node
  start_node-depth start i = refl

  walk_found-Finished :
      (k j : ℕ) (start : Bytes) (o : FsError ⊎ FileInfo)
      → w.opts.max_depth ≡ some k
      → k ≤ j
      → Finished (walk_found p fs w (suc j) start o)
  walk_found-Finished k j start (inl err) h b = walked-Finished _
  walk_found-Finished k j start (inr info) h b =
      let i = followed p fs w (resolve_path w.dir start) info in
      visit-Finished (record { start = start; start_dev = i.device }) (suc j)
        (start_node p fs w start i)
        (max_depth-Height (record { start = start; start_dev = i.device }) k j
          (start_node p fs w start i) h (ground (arith, b, start_node-depth start i)))

  walk_start-Finished :
      (k j : ℕ) (start : Bytes)
      → w.opts.max_depth ≡ some k
      → k ≤ j
      → Finished (walk_start p fs w (suc j) start)
  unfolding walk_start
  walk_start-Finished k j start =
      walk_found-Finished k j start (fs.lstat (resolve_path w.dir start))

  -- With -maxdepth the walk ends on every filesystem, with fuel for one level more.
  pub walk_starts-max_depth :
      (k j : ℕ) (starts : List Bytes)
      → w.opts.max_depth ≡ some k
      → k ≤ j
      → walk_starts p fs w (suc j) starts ≢ unfinished
  unfolding walk_starts
  walk_starts-max_depth k j [] h b = walked-Finished []
  walk_starts-max_depth k j (start ∷ starts) h b =
      and_then-Finished (walk_start p fs w (suc j) start) (walk_starts p fs w (suc j) starts)
        (walk_start-Finished k j start h b) (walk_starts-max_depth k j starts h b)
