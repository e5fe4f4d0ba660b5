-- ===== src/Column/Fill.antt =====
-- command/internal/column/column.go: the cells and the lines of `formatFill`.
use kefka.Common.{
  ℕ, zero, suc, ◌+◌, ◌*◌, ◌≤◌, ◌<◌, ◌≡◌, refl, inl, inr, Bool, true, false, ◌||◌, Option, none,
  some, List, [], ◌∷◌, arith, leb, ◌==◌, Bool-cases, Option-cases, length, length-append,
  length-replicate, Bytes,
}
use kefka.Column.{pad_end, join_with, max_item_width, get_elem?, with_cell, fill_cells}

pub pad_end-length : (s : Bytes) (w : ℕ) → length s ≤ w → length (pad_end s w) ≡ w
unfolding pad_end
pad_end-length s w h = elim (Bool-cases (leb w (length s))) [
  | inl k ↦ rw k (ground (arith, k))
  | inr k ↦ rw (k, length-append, length-replicate) (omega (arith, h))
]

pub get_elem?-length :
    (items : List Bytes) (i : ℕ) (item : Bytes)
    → get_elem? items i ≡ some item
    → (length item ≤ max_item_width items) × (i < length items)
unfolding max_item_width
get_elem?-length [] i item e = absurd (ground (arith, e))
get_elem?-length (x ∷ items) zero item e = ground (arith, e)
get_elem?-length (x ∷ items) (suc i) item e = ground (arith, get_elem?-length items i item e)

-- All cells but the last are of this length, and the last is no longer.
abbrev pub Aligned : ℕ → List Bytes → Type 0
Aligned w [] = Unit
Aligned w (s ∷ []) = length s ≤ w
Aligned w (s ∷ t ∷ l) = (length s ≡ w) × Aligned w (t ∷ l)

Aligned-cons : (w : ℕ) (s : Bytes) (l : List Bytes) → length s ≡ w → Aligned w l → Aligned w (s ∷ l)
Aligned-cons w s [] h k = omega (arith, h)
Aligned-cons w s (t ∷ l) h k = (h, k)

-- The length of a joined line of such cells.
pub join_with-length :
    (sep : Bytes) (w : ℕ) (s : Bytes) (l : List Bytes)
    → Aligned w (s ∷ l)
    → length (join_with sep (s ∷ l)) + length sep ≤ suc (length l) * (w + length sep)
unfolding join_with
join_with-length sep w s [] n = omega (arith, n)
join_with-length sep w s (t ∷ l) n =
    rw (length-append, length-append) (omega (arith, n.0, join_with-length sep w t l n.1))

module _ (items : List Bytes) (rows row : ℕ) where
  -- No cell stands behind the last item.
  fill_cells-nil :
      (w col columns : ℕ)
      → length items ≤ col * rows + row
      → fill_cells items rows w row col columns ≡ []
  unfolding fill_cells
  fill_cells-nil w col zero h = refl
  fill_cells-nil w col (suc columns) h = elim (Option-cases (get_elem? items (col * rows + row))) [
    | inl k ↦ rw (k, fill_cells) (fill_cells-nil w (col + 1) columns (omega (arith, h)))
    | inr (item, k) ↦
        absurd (omega (arith, h, (get_elem?-length items (col * rows + row) item k).1))
  ]

  with_cell-Aligned :
      (o : Option Bytes) (b : Bool) (w : ℕ) (rest : List Bytes)
      → ((item : Bytes) → o ≡ some item → length item ≤ w)
      → (b ≡ true → rest ≡ [])
      → Aligned w rest
      → Aligned w (with_cell o b w rest)
  with_cell-Aligned none b w rest h last k = k
  with_cell-Aligned (some item) true w rest h last k = rw (last refl) (h item refl)
  with_cell-Aligned (some item) false w rest h last k =
      Aligned-cons w (pad_end item w) rest (pad_end-length item w (h item refl)) k

  with_cell-columns :
      (o : Option Bytes) (b : Bool) (w n : ℕ) (rest : List Bytes)
      → length rest ≤ n
      → length (with_cell o b w rest) ≤ suc n
  with_cell-columns none b w n rest h = omega (arith, h)
  with_cell-columns (some item) b w n rest h = omega (arith, h)

  last-nil :
      (w col columns : ℕ)
      → (columns == 0 || leb (length items) ((col + 1) * rows + row)) ≡ true
      → fill_cells items rows w row (col + 1) columns ≡ []
  unfolding fill_cells
  last-nil w col zero h = refl
  last-nil w col (suc columns) h = fill_cells-nil w (col + 1) (suc columns) (ground (arith, h))

  -- The cells of a row that `formatFill` writes: all but the last are padded to the width of the widest
  -- item, and there are no more than the columns.
  pub fill_cells-Aligned :
      (col columns : ℕ)
      → Aligned
          (max_item_width items)
          (fill_cells items rows (max_item_width items) row col columns)
        × (length (fill_cells items rows (max_item_width items) row col columns) ≤ columns)
  unfolding fill_cells
  fill_cells-Aligned col zero = (tt, omega arith)
  fill_cells-Aligned col (suc columns) =
      let w = max_item_width items in
      let (aligned, few) = fill_cells-Aligned (col + 1) columns in
      (
        with_cell-Aligned _ _ w _ (λ item e. (get_elem?-length items (col * rows + row) item e).0)
            (last-nil w col columns) aligned,
        with_cell-columns _ _ w columns _ few,
      )
