-- ===== src/Column/Placed.antt =====
-- command/internal/column/column.go: where `formatFill` puts each item.
use native.Mathlib.Omega.{div_any, mod_fact}
use kefka.Common.{
  ℕ, zero, suc, ◌+◌, ◌-◌, ◌*◌, ◌/◌, ◌%◌, ◌^◌, ◌≤◌, ◌<◌, ◌≡◌, refl, ◌⊎◌, inl, inr, Bool, true, false,
  some, List, [], ◌∷◌, arith, ltb, if◌then◌else◌, Bool-cases, length, Bytes,
}
use kefka.Common.Int.{ℤ}
use kefka.Column.{
  pad_end, get_elem?, fill_cells, fill_lines, num_rows, num_columns, max_item_width, made_lines,
  filled, join_with,
}
use kefka.Column.Rows.{
  num_rows-fits, rows-enough, num_columns-pos, length-fill_lines, get_elem?-all_lines,
}
use kefka.Column.Fill.{get_elem?-length}
use kefka.Column.Width.{mul_le}

-- The cell at a position is this item, padded or not.
abbrev pub Holds : ℕ → List Bytes → ℕ → Bytes → Type 0
Holds w cells c item =
    (cell : Bytes) × (get_elem? cells c ≡ some cell) × ((cell ≡ item) ⊎ (cell ≡ pad_end item w))

get_elem?-some :
    (items : List Bytes) (i : ℕ)
    → i < length items
    → (item : Bytes) × (get_elem? items i ≡ some item)
get_elem?-some [] i h = absurd (omega (arith, h))
get_elem?-some (x ∷ items) zero h = (x, refl)
get_elem?-some (x ∷ items) (suc i) h = get_elem?-some items i (omega (arith, h))

if-Holds :
    (b : Bool) (w : ℕ) (item : Bytes) (rest : List Bytes)
    → Holds w ((if b then item else pad_end item w) ∷ rest) 0 item
if-Holds true w item rest = (item, refl, inl refl)
if-Holds false w item rest = (pad_end item w, refl, inr refl)

module _ (items : List Bytes) (rows row w : ℕ) where
  fill_cells-Holds :
      (c columns col i : ℕ) (item : Bytes)
      → c < columns
      → i ≡ (col + c) * rows + row
      → get_elem? items i ≡ some item
      → Holds w (fill_cells items rows w row col columns) c item
  unfolding fill_cells
  fill_cells-Holds c zero col i item h e k = absurd (omega (arith, h))
  fill_cells-Holds zero (suc columns) col i item h e k =
      let at : i ≡ col * rows + row = omega (arith, e) in
      rw (rw at at k, fill_cells)
        (if-Holds _ w item (fill_cells items rows w row (col + 1) columns))
  fill_cells-Holds (suc c) (suc columns) col i item h e k =
      let (first, there) =
        get_elem?-some items (col * rows + row)
          (omega (arith, e, (get_elem?-length items i item k).1)) in
      rw (there, fill_cells)
        (fill_cells-Holds c columns (col + 1) i item (omega (arith, h)) (omega (arith, e)) k)

-- A column of the grid has the quotient of an index.
column-lt : (i r columns n : ℕ) → i < n → n ≤ columns * suc r → i / suc r < columns
column-lt i r columns n h k = elim (Bool-cases (ltb (i / suc r) columns)) [
  | inl b ↦ ground (arith, b)
  | inr b ↦
      let big : columns ≤ i / suc r = ground (arith, b) in
      absurd (omega (arith, h, k, mul_le columns (i / suc r) (suc r) big, div_any i (suc r)))
]

placed :
    (items : List Bytes) (rows columns w i : ℕ) (item : Bytes)
    → length items ≤ columns * rows
    → get_elem? items i ≡ some item
    → (i % rows < rows) × Holds w (fill_cells items rows w (i % rows) 0 columns) (i / rows) item
placed items zero columns w i item h k =
    absurd (omega (arith, h, (get_elem?-length items i item k).1))
placed items (suc r) columns w i item h k =
    let inside = (get_elem?-length items i item k).1 in
    (
      mod_fact i r,
      fill_cells-Holds items (suc r) (i % suc r) w (i / suc r) columns 0 i item
          (column-lt i r columns (length items) inside h) (omega (arith, div_any i (suc r))) k,
    )

-- The lines are made, and the item of this index stands in one of them.
made-placed :
    (items : List Bytes) (columns w : ℕ) (out_sep : Bytes) (i : ℕ) (item : Bytes)
    → 1 ≤ columns
    → length items + columns < 2 ^ 63
    → get_elem? items i ≡ some item
    → (lines : List Bytes) × (made_lines items columns w out_sep (num_rows (length items) columns)
        ≡ some lines)
      × (cells : List Bytes) × (get_elem? lines (i % length lines) ≡ some (join_with out_sep cells))
      × Holds w cells (i / length lines) item
made-placed items columns w out_sep i item h fits k =
    let rows = (length items + columns - 1) / columns in
    let (inside, holds) =
      placed items rows columns w i item (rows-enough (length items) columns h) k in
    let same = length-fill_lines items rows columns w out_sep 0 rows in
    (
      fill_lines items rows columns w out_sep 0 rows,
      rw (num_rows-fits (length items) columns h fits) refl,
      fill_cells items rows w (i % rows) 0 columns,
      rw same (get_elem?-all_lines items rows columns w out_sep rows (i % rows) inside),
      rw same holds,
    )

-- Items fill the columns downwards: where the number of items and that of columns add up to less than
-- 2 ^ 63, `formatFill` makes its lines, and the item of index `i` stands in the line `i % rows`
-- and there in the cell `i / rows`, where `rows` is the number of lines, as it is or padded.
pub filled-placed :
    (items : List Bytes) (width : ℤ) (out_sep : Bytes) (i : ℕ) (item : Bytes)
    → length items + num_columns width (length out_sep) (max_item_width items + length out_sep)
      < 2 ^ 63
    → get_elem? items i ≡ some item
    → (lines : List Bytes) × (filled items width out_sep ≡ some lines)
      × (cells : List Bytes) × (get_elem? lines (i % length lines) ≡ some (join_with out_sep cells))
      × Holds (max_item_width items) cells (i / length lines) item
filled-placed items width out_sep i item fits k =
    let w = max_item_width items in
    let columns = num_columns width (length out_sep) (w + length out_sep) in
    made-placed items columns w out_sep i item
      (num_columns-pos width (length out_sep) (w + length out_sep)) fits k
