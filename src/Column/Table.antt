-- ===== src/Column/Table.antt =====
-- command/internal/column/column.go: the columns of `formatTable`.
use mathlib.Core.List.{Memᴰ}
use mathlib.Core.List.Memᴰ as MemD
use kefka.Common.{ℕ, ◌≤◌, ◌≡◌, inl, inr, List, [], ◌∷◌, arith, ltb, Bool-cases, length, Bytes}
use kefka.Column.{widen, table_widths, table_cells}
use kefka.Column.Fill.{pad_end-length}

-- Each cell of a row has a width, which is its length at least.
abbrev Fits : List ℕ → List Bytes → Type 0
Fits widths [] = Unit
Fits [] (cell ∷ row) = ⊥
Fits (w ∷ widths) (cell ∷ row) = (length cell ≤ w) × Fits widths row

-- The cells of a row but the last are as long as the widths.
abbrev pub InColumns : List ℕ → List Bytes → Type 0
InColumns widths [] = Unit
InColumns widths (cell ∷ []) = Unit
InColumns [] (cell ∷ next ∷ row) = ⊥
InColumns (w ∷ widths) (cell ∷ next ∷ row) = (length cell ≡ w) × InColumns widths (next ∷ row)

widen-Fits : (widths : List ℕ) (row : List Bytes) → Fits (widen widths row) row
unfolding widen
widen-Fits widths [] = tt
widen-Fits [] (cell ∷ row) = (omega arith, widen-Fits [] row)
widen-Fits (w ∷ widths) (cell ∷ row) = elim (Bool-cases (ltb w (length cell))) [
  | inl b ↦ rw b (omega arith, widen-Fits widths row)
  | inr b ↦ rw b (ground (arith, b), widen-Fits widths row)
]

-- The widths only grow.
widen-keeps :
    (widths : List ℕ) (row other : List Bytes) → Fits widths other → Fits (widen widths row) other
unfolding widen
widen-keeps widths row [] h = tt
widen-keeps widths [] (c ∷ other) h = h
widen-keeps [] (cell ∷ row) (c ∷ other) h = absurd h
widen-keeps (w ∷ widths) (cell ∷ row) (c ∷ other) h = elim (Bool-cases (ltb w (length cell))) [
  | inl b ↦ rw b (ground (arith, b, h.0), widen-keeps widths row other h.1)
  | inr b ↦ rw b (h.0, widen-keeps widths row other h.1)
]

table_widths-keeps :
    (rows : List (List Bytes)) (widths : List ℕ) (other : List Bytes)
    → Fits widths other
    → Fits (table_widths widths rows) other
unfolding table_widths
table_widths-keeps [] widths other h = h
table_widths-keeps (row ∷ rows) widths other h =
    table_widths-keeps rows (widen widths row) other (widen-keeps widths row other h)

table_widths-Fits :
    (rows : List (List Bytes)) (widths : List ℕ) (row : List Bytes)
    → Memᴰ row rows
    → Fits (table_widths widths rows) row
unfolding table_widths
table_widths-Fits [] widths row m = absurd (MemD.not-nil m)
table_widths-Fits (first ∷ rows) widths row m = elim (MemD.cases_cons m) [
  | inl e ↦ rw e (table_widths-keeps rows (widen widths first) first (widen-Fits widths first))
  | inr i ↦ table_widths-Fits rows (widen widths first) row i
]

table_cells-InColumns :
    (widths : List ℕ) (row : List Bytes)
    → Fits widths row
    → InColumns widths (table_cells widths row)
unfolding table_cells
table_cells-InColumns widths [] h = tt
table_cells-InColumns widths (cell ∷ []) h = tt
table_cells-InColumns [] (cell ∷ next ∷ row) h = absurd h
table_cells-InColumns (w ∷ widths) (cell ∷ next ∷ []) h = (pad_end-length cell w h.0, tt)
table_cells-InColumns (w ∷ []) (cell ∷ next ∷ other ∷ row) h = absurd h.1
table_cells-InColumns (w ∷ v ∷ widths) (cell ∷ next ∷ other ∷ row) h =
    (pad_end-length cell w h.0, table_cells-InColumns (v ∷ widths) (next ∷ other ∷ row) h.1)

-- In a table every cell of a row but the last is padded to the width of its column, one width for all
-- rows.
pub table_widths-InColumns :
    (rows : List (List Bytes)) (row : List Bytes)
    → Memᴰ row rows
    → InColumns (table_widths [] rows) (table_cells (table_widths [] rows) row)
table_widths-InColumns rows row m =
    table_cells-InColumns (table_widths [] rows) row (table_widths-Fits rows [] row m)
