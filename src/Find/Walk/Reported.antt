-- ===== src/Find/Walk/Reported.antt =====
-- command/internal/find/find.go: what the walk reports, in either order.
use mathlib.Core.Path.{subst}
use mathlib.Core.List.{Memᴰ}
use mathlib.Core.List.Memᴰ as MemD
use kefka.Common.{
  ℕ, zero, suc, ◌≡◌, refl, sym, ◌∙◌, ◌↔◌, ◌⊎◌, inl, inr, true, none, some, List, [], ◌∷◌, ◌++◌,
  arith, if◌then◌else◌, Bool-cases, Option-cases, false,
}
use kefka.Find.Eval.{Platform}
use kefka.Find.Filesystem.{DirEntry, Filesystem}
use kefka.Find.Node.{Effect, Node, Walker, Start, Walked, walked, not_read, and_then, diagnose}
use kefka.Find.Walk.{evaluate, child, visit_children, visit}
use kefka.Find.Walk.Step.{
  below, descends, entries_below, last_reading, and_then-walked, visit-Split,
}

swap : {A B : Type 0} → A ⊎ B → B ⊎ A
swap (inl a) = inr a
swap (inr b) = inl b

module _ (p : Platform) (fs : Filesystem) (w : Walker) (s : Start) where
  -- A node is below another that is a directory on the same device, above the maximal depth and not
  -- pruned (pruning counts only where a directory comes before its contents), and so on.
  pub data Below : Node → Node → Type 0 where
    here : {n : Node} → Below n n
    there :
        {n c m : Node} (entry : DirEntry)
        → descends p fs w s n ≡ true
        → Memᴰ entry (entries_below p fs w s n)
        → child p fs w n entry ≡ some c
        → Below c m
        → Below n m

  -- An effect is that of the evaluation of a node, or says that the node cannot be read.
  abbrev pub Reports : Node → Effect → Type 0
  Reports n e =
      Memᴰ e (evaluate p fs w s n not_read).effects ⊎ Memᴰ e (diagnose n (last_reading p fs w s n))

  abbrev Reported : Node → Effect → Type 0
  Reported n e = (m : Node) × (Below n m × Reports m e)

  -- The effects of a visit are those that the nodes below report.
  abbrev Exact : (Node → Walked) → Type 0
  Exact go =
      (n : Node) (es : List Effect)
      → go n ≡ walked es
      → (e : Effect) → (Memᴰ e es → Reported n e) × (Reported n e → Memᴰ e es)

  pub children-some :
      (go : Node → Walked) (n c : Node) (entry : DirEntry) (l : List DirEntry)
      → child p fs w n entry ≡ some c
      → visit_children p fs w go n (entry ∷ l) ≡ and_then (go c) (visit_children p fs w go n l)
  unfolding visit_children
  children-some go n c entry l k = rw (k, visit_children) refl

  pub children-none :
      (go : Node → Walked) (n : Node) (entry : DirEntry) (l : List DirEntry)
      → child p fs w n entry ≡ none
      → visit_children p fs w go n (entry ∷ l) ≡ visit_children p fs w go n l
  unfolding visit_children
  children-none go n entry l k = rw (k, visit_children) refl

  same_child :
      (n : Node) (d entry : DirEntry) (c c' : Node)
      → entry ≡ d
      → child p fs w n d ≡ some c
      → child p fs w n entry ≡ some c'
      → c' ≡ c
  same_child n d entry c c' i q o = ground (arith, i, q, o)

  -- What the children for these entries report.
  abbrev pub FromEntry : Node → List DirEntry → Effect → Type 0
  FromEntry n l e =
      (entry : DirEntry) × (c : Node) × Memᴰ entry l
      × (child p fs w n entry ≡ some c)
      × Reported c e

  weaken :
      (n : Node) (d : DirEntry) (l : List DirEntry) (e : Effect)
      → FromEntry n l e
      → FromEntry n (d ∷ l) e
  weaken n d l e (entry, c, m, k, r) = (entry, c, Memᴰ.tail m, k, r)

  children-Exact :
      (go : Node → Walked)
      → Exact go
      → (n : Node) (l : List DirEntry) (es : List Effect) → visit_children p fs w go n l ≡ walked es
      → (e : Effect) → (Memᴰ e es → FromEntry n l e) × (FromEntry n l e → Memᴰ e es)
  unfolding visit_children
  children-Exact go h n [] es k e =
      let empty : es ≡ [] = ground (arith, k) in
      (
        λ m. absurd (MemD.not-nil (subst (Memᴰ e) empty m)),
        λ (entry, c, m, o, r). absurd (MemD.not-nil m),
      )
  children-Exact go h n (d ∷ l) es k e = elim (Option-cases (child p fs w n d)) [
    | inl q ↦
        let (there_is, is_there) =
          children-Exact go h n l es (sym (children-none go n d l q) ∙ k) e in
        (
          λ m. weaken n d l e (there_is m),
          λ (entry, c, m, o, r). elim (MemD.cases_cons m) [
            | inl i ↦ absurd (ground (arith, q, o, i))
            | inr i ↦ is_there (entry, c, i, o, r)
          ],
        )
    | inr (c, q) ↦
        let (gs, hs, u, v, z) = and_then-walked _ _ es (sym (children-some go n c d l q) ∙ k) in
        let (of_child, to_child) = h c gs u e in
        let (there_is, is_there) = children-Exact go h n l hs v e in
        (
          λ m. elim (MemD.append_cases gs (subst (Memᴰ e) z m)) [
            | inl i ↦ (d, c, Memᴰ.head refl, q, of_child i)
            | inr i ↦ weaken n d l e (there_is i)
          ],
          λ (entry, c', m, o, r). subst (Memᴰ e) (sym z) (elim (MemD.cases_cons m) [
            | inl i ↦
                MemD.append_left hs
                  (to_child (subst (λ x. Reported x e) (same_child n d entry c c' i q o) r))
            | inr i ↦ MemD.append_right gs (is_there (entry, c', i, o, r))
          ]),
        )
  ]

  -- The effects below a node.
  children_below-Exact :
      (go : Node → Walked)
      → Exact go
      → (n : Node) (gs : List Effect)
      → (if descends p fs w s n
          then visit_children p fs w go n (entries_below p fs w s n)
          else walked [])
        ≡ walked gs
      → (e : Effect)
      → (Memᴰ e gs → (descends p fs w s n ≡ true) × FromEntry n (entries_below p fs w s n) e)
        × (descends p fs w s n ≡ true → FromEntry n (entries_below p fs w s n) e → Memᴰ e gs)
  children_below-Exact go h n gs k e = elim (Bool-cases (descends p fs w s n)) [
    | inl d ↦
        let (a, b) = children-Exact go h n (entries_below p fs w s n) gs (rw d at k) e in
        (λ m. (d, a m), λ x. b)
    | inr d ↦
        let empty : gs ≡ [] = ground (arith, d, k) in
        (λ m. absurd (MemD.not-nil (subst (Memᴰ e) empty m)), λ t. absurd (ground (arith, t, d)))
  ]

  -- Membership in two lists one after the other.
  append-Mem :
      (e : Effect) (xs ys : List Effect)
      → (Memᴰ e (xs ++ ys) → Memᴰ e xs ⊎ Memᴰ e ys) × (Memᴰ e xs ⊎ Memᴰ e ys → Memᴰ e (xs ++ ys))
  append-Mem e xs ys = (
    MemD.append_cases xs,
    λ m. elim m [ inl i ↦ MemD.append_left ys i | inr i ↦ MemD.append_right xs i ],
  )

  -- The effects of a node stand among those of its visit.
  split-Mem :
      (e : Effect) (es gs xs ys : List Effect)
      → (es ≡ gs ++ (ys ++ xs)) ⊎ (es ≡ (xs ++ ys) ++ gs)
      → (Memᴰ e es → Memᴰ e gs ⊎ (Memᴰ e xs ⊎ Memᴰ e ys))
        × (Memᴰ e gs ⊎ (Memᴰ e xs ⊎ Memᴰ e ys) → Memᴰ e es)
  split-Mem e es gs xs ys (inl q) =
      let (a, b) = append-Mem e gs (ys ++ xs) in
      let (c, d) = append-Mem e ys xs in
      (
        λ m. elim (a (subst (Memᴰ e) q m)) [ inl i ↦ inl i | inr i ↦ inr (swap (c i)) ],
        λ m. subst (Memᴰ e) (sym q) (b (elim m [ inl i ↦ inl i | inr i ↦ inr (d (swap i)) ])),
      )
  split-Mem e es gs xs ys (inr q) =
      let (a, b) = append-Mem e (xs ++ ys) gs in
      let (c, d) = append-Mem e xs ys in
      (
        λ m. elim (a (subst (Memᴰ e) q m)) [ inl i ↦ inr (c i) | inr i ↦ inl i ],
        λ m. subst (Memᴰ e) (sym q) (b (elim m [ inl i ↦ inr i | inr i ↦ inl (d i) ])),
      )

  either_order :
      (n : Node) (es gs : List Effect)
      → ((w.opts.depth_first ≡ true)
          × (es
              ≡ gs
                ++ (diagnose n (last_reading p fs w s n)
                    ++ (evaluate p fs w s n not_read).effects)))
        ⊎ ((w.opts.depth_first ≡ false)
            × (es
                ≡ ((evaluate p fs w s n not_read).effects ++ diagnose n (last_reading p fs w s n))
                  ++ gs))
      → (es
          ≡ gs ++ (diagnose n (last_reading p fs w s n) ++ (evaluate p fs w s n not_read).effects))
        ⊎ (es
            ≡ ((evaluate p fs w s n not_read).effects ++ diagnose n (last_reading p fs w s n))
              ++ gs)
  either_order n es gs (inl q) = inl q.1
  either_order n es gs (inr q) = inr q.1

  -- A node that reports is the visited one, or it is below one of its entries.
  Below-cases :
      {n m : Node} (e : Effect)
      → Below n m
      → Reports m e
      → ((descends p fs w s n ≡ true) × FromEntry n (entries_below p fs w s n) e) ⊎ Reports n e
  Below-cases e here r = inr r
  Below-cases e (there {c = c} {m = m} entry d j o b) r = inl (d, (entry, c, j, o, (m, (b, r))))

  visit-Exact : (f : ℕ) → Exact (visit p fs w f s)
  unfolding visit
  visit-Exact zero n es k e = absurd (ground (arith, k))
  visit-Exact (suc f) n es k e =
      let (gs, u, q) = visit-Split p fs w s f n es k in
      let (from_below, to_below) =
        children_below-Exact (visit p fs w f s) (visit-Exact f) n gs u e in
      let (parts, whole) = split-Mem e es gs _ _ (either_order n es gs q) in
      (
        λ m. elim (parts m) [
          | inl i ↦
              let (d, found) = from_below i in
              let (entry, c, j, o, r) = found in (r.0, (there entry d j o r.1.0, r.1.1))
          | inr i ↦ (n, (here, i))
        ],
        λ r.
            whole
              (elim (Below-cases e r.1.0 r.1.1) [ inl i ↦ inl (to_below i.0 i.1) | inr i ↦ inr i ]),
      )

  -- A visit that comes to its end gives exactly the effects that the node and those below it report:
  -- what the evaluation of each reaches, and why it cannot be read.
  pub visit-Below :
      (f : ℕ) (n : Node) (es : List Effect)
      → visit p fs w f s n ≡ walked es
      → (e : Effect) → Memᴰ e es ↔ ((m : Node) × (Below n m × Reports m e))
  visit-Below f n es k e = let (a, b) = visit-Exact f n es k e in (a, b)

  -- The effects below a node are those that its children and what is below them report.
  pub below-Children :
      (f : ℕ) (n : Node) (gs : List Effect)
      → below p fs w s (visit p fs w f s) n ≡ walked gs
      → (e : Effect)
      → Memᴰ e gs ↔ ((descends p fs w s n ≡ true) × FromEntry n (entries_below p fs w s n) e)
  below-Children f n gs u e =
      let (a, b) = children_below-Exact (visit p fs w f s) (visit-Exact f) n gs u e in
      (a, λ r. b r.0 r.1)
