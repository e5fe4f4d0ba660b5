-- ===== src/Find/Apply/Batches.antt =====
-- command/internal/find/find.go: the batches of "-exec ... {} +".
use kefka.Common.{
  ℕ, ◌+◌, ◌≤◌, ◌≡◌, refl, ◌∙◌, ◌⊎◌, inl, inr, Bool, true, false, ◌&&◌, Option, none, some, List, [],
  ◌∷◌, ◌++◌, append-nil, append_assoc, arith, ◌==◌, if◌then◌else◌, Bool-cases, Bytes,
}
use kefka.Find.Syntax.{Action, ActionKind, act_print, act_print0, act_printf, act_delete, act_exec}
use kefka.Find.Printf.Format.{PrintfData, Clock}
use kefka.Find.Filesystem.{FsError}
use kefka.Find.Node.{Effect, act, message}
use kefka.Find.Apply.{
  then_going, after_code, initial, World, Applying, Applied, going, stopped, add_to_batch,
  delete_entry, after_delete, apply_action, apply_effect, apply_effects,
}

-- The paths that the effects give for the batch of an action.
abbrev pub is_batch : ActionKind → Bool
is_batch (act_exec command batch) = batch
is_batch k = false

abbrev pub batch_paths : ℕ → List Effect → List Bytes
batch_paths id [] = []
batch_paths id (message t ∷ es) = batch_paths id es
batch_paths id (act a path d ∷ es) =
    let rest = batch_paths id es in if is_batch a.kind && a.id == id then d.path ∷ rest else rest

abbrev pub collected : ℕ → List (Action × List Bytes) → List Bytes
collected id [] = []
collected id ((a, paths) ∷ l) =
    let rest = collected id l in if a.id == id then paths ++ rest else rest

-- How many batches an action has.
abbrev pub count : ℕ → List (Action × List Bytes) → ℕ
count id [] = 0
count id ((a, paths) ∷ l) = (if a.id == id then 1 else 0) + count id l

-- One batch for an action at most.
abbrev pub Single : List (Action × List Bytes) → Type 0
Single l = (id : ℕ) → count id l ≤ 1

collected-absent : (id : ℕ) (l : List (Action × List Bytes)) → count id l ≡ 0 → collected id l ≡ []
collected-absent id [] h = refl
collected-absent id ((a, paths) ∷ l) h = ground (arith, collected-absent id l)

Single-tail : (b : Action × List Bytes) (l : List (Action × List Bytes)) → Single (b ∷ l) → Single l
Single-tail (b, paths) l h id = ground (arith, h id)

collected-add :
    (id : ℕ) (a : Action) (path : Bytes) (l : List (Action × List Bytes))
    → Single l
    → collected id (add_to_batch a path l)
      ≡ collected id l ++ (if a.id == id then path ∷ [] else [])
unfolding add_to_batch
collected-add id a path [] h = refl
collected-add id a path ((b, paths) ∷ l) h =
    let ih = collected-add id a path l (Single-tail (b, paths) l h) in
    elim (Bool-cases (a.id == b.id)) [
      | inl k ↦ elim (Bool-cases (a.id == id)) [
        | inl i ↦
            let j : (b.id == id) ≡ true = ground (arith, k, i) in
            let none_left : collected id l ≡ [] = collected-absent id l (ground (arith, j, h id)) in
            rw (k, i, j, none_left, append-nil, append-nil) refl
        | inr i ↦
            let j : (b.id == id) ≡ false = ground (arith, k, i) in rw (k, i, j, append-nil) refl
      ]
      | inr k ↦ elim (Bool-cases (b.id == id)) [
        | inl j ↦ rw (k, j, ih, append_assoc) refl
        | inr j ↦ rw (k, j, ih) refl
      ]
    ]

count-add :
    (id : ℕ) (a : Action) (path : Bytes) (l : List (Action × List Bytes))
    → count id (add_to_batch a path l) ≡ (if a.id == id && count id l == 0 then 1 else count id l)
unfolding add_to_batch
count-add id a path [] = ground arith
count-add id a path ((b, paths) ∷ l) = ground (arith, count-add id a path l)

Single-add :
    (a : Action) (path : Bytes) (l : List (Action × List Bytes))
    → Single l
    → Single (add_to_batch a path l)
Single-add a path l h id = ground (arith, h id, count-add id a path l)

then_going-going :
    {S : Type 0} (r : Applied S) (onward : Applying S → Applied S) (t : Applying S)
    → then_going r onward ≡ going t
    → (u : Applying S) × (r ≡ going u) × (onward u ≡ going t)
then_going-going (going u) onward t e = (u, refl, e)
then_going-going (stopped u err) onward t e = absurd (ground (arith, e))

module _ {S : Type 0} (w : World S) (clk : Clock) where
  after_code-batches :
      (s t : Applying S) (c : ℕ ⊎ Bytes) → after_code s c ≡ going t → t.batches ≡ s.batches
  after_code-batches s t (inl c) e = ground (arith, e)
  after_code-batches s t (inr err) e = absurd (ground (arith, e))

  after_delete-batches :
      (d : PrintfData) (r : Option FsError × S) (s t : Applying S)
      → after_delete w clk d r s ≡ going t
      → t.batches ≡ s.batches
  after_delete-batches d (none, u) s t e = ground (arith, e)
  after_delete-batches d (some err, u) s t e = ground (arith, e)

  -- The batches have one entry at most for an action, and its paths grow by these.
  abbrev Grown : Applying S → Applying S → (ℕ → List Bytes) → Type 0
  Grown s t paths =
      Single t.batches × ((id : ℕ) → collected id t.batches ≡ collected id s.batches ++ paths id)

  kept : (s t : Applying S) → t.batches ≡ s.batches → Single s.batches → Grown s t (λ id. [])
  kept s t e h = (rw e h, λ id. rw (e, append-nil) refl)

  apply_action-Grown :
      (a : Action) (k : ActionKind) (path : Bytes) (d : PrintfData) (s t : Applying S)
      → apply_action w clk a k path d s ≡ going t
      → Single s.batches
      → Grown s t (λ id. if is_batch k && a.id == id then d.path ∷ [] else [])
  unfolding apply_action
  apply_action-Grown a act_print path d s t e h = kept s t (ground (arith, e)) h
  apply_action-Grown a act_print0 path d s t e h = kept s t (ground (arith, e)) h
  apply_action-Grown a (act_printf f) path d s t e h = kept s t (ground (arith, e)) h
  apply_action-Grown a act_delete path d s t e h =
      kept s t (after_delete-batches d (delete_entry w clk s.world path) s t e) h
  apply_action-Grown a (act_exec c false) path d s t e h = kept s t (after_code-batches _ t _ e) h
  apply_action-Grown a (act_exec c true) path d s t e h =
      let q : t.batches ≡ add_to_batch a d.path s.batches = ground (arith, e) in
      (rw q (Single-add a d.path s.batches h), λ id. rw q (collected-add id a d.path s.batches h))

  apply_effect-Grown :
      (x : Effect) (es : List Effect) (s t : Applying S)
      → apply_effect w clk x s ≡ going t
      → Single s.batches
      → Single t.batches
        × ((id : ℕ)
            → collected id t.batches ++ batch_paths id es
              ≡ collected id s.batches ++ batch_paths id (x ∷ es))
  unfolding apply_effect
  apply_effect-Grown (message m) es s t e h =
      let q : t.batches ≡ s.batches = ground (arith, e) in (rw q h, λ id. rw q refl)
  apply_effect-Grown (act a path d) es s t e h =
      let (u, v) = apply_action-Grown a a.kind path d s t e h in
      (
        u,
        λ id. elim (Bool-cases (is_batch a.kind && a.id == id)) [
          | inl k ↦ rw (v id, k, append_assoc) refl
          | inr k ↦ rw (v id, k, append_assoc) refl
        ],
      )

  apply_effects-Grown :
      (es : List Effect) (s t : Applying S)
      → apply_effects w clk es s ≡ going t
      → Single s.batches
      → Grown s t (λ id. batch_paths id es)
  unfolding apply_effects
  apply_effects-Grown [] s t e h = kept s t (ground (arith, e)) h
  apply_effects-Grown (x ∷ es) s t e h =
      let (u, k, l) = then_going-going (apply_effect w clk x s) (apply_effects w clk es) t e in
      let (one_each, first) = apply_effect-Grown x es s u k h in
      let (single, rest) = apply_effects-Grown es u t l one_each in
      (single, λ id. rest id ∙ first id)

  -- Once the effects are performed, each batched -exec that was reached has one batch, whose paths are
  -- those of the entries where it was reached, in the order of the walk.
  pub apply_effects-batch_paths :
      (es : List Effect) (s : S) (t : Applying S)
      → apply_effects w clk es (initial w clk s) ≡ going t
      → (id : ℕ) → (count id t.batches ≤ 1) × (collected id t.batches ≡ batch_paths id es)
  apply_effects-batch_paths es s t e id =
      let (single, paths) = apply_effects-Grown es (initial w clk s) t e (λ i. omega arith) in
      (single id, paths id)
