-- ===== src/Column/Width.antt =====
-- command/internal/column/column.go: the width of the lines of `formatFill`.
use mathlib.Core.List.{Memᴰ}
use mathlib.Core.List.Memᴰ as MemD
use native.Mathlib.Omega.{div_any}
use kefka.Common.{
  ℕ, zero, suc, ◌+◌, ◌*◌, ◌/◌, ◌^◌, ◌≤◌, ◌<◌, ◌≡◌, refl, some, ◌-◌, Bytes, inl, inr, List, [], ◌∷◌,
  arith, ltb, Bool-cases, length,
}
use kefka.Common.Int.{pos, add_int64-fits, quot}
use kefka.Column.{
  join_with, max_item_width, at_least_one, num_columns, fill_cells, fill_lines, filled,
}
use kefka.Column.Rows.{num_rows-fits, num_columns-pos}
use kefka.Column.Fill.{Aligned, join_with-length, fill_cells-Aligned}

pub mul_le : (m n c : ℕ) → m ≤ n → m * c ≤ n * c
mul_le zero n c h = omega arith
mul_le (suc m) zero c h = absurd (omega (arith, h))
mul_le (suc m) (suc n) c h = omega (arith, mul_le m n c (omega (arith, h)))

at_least_one-fits : (n c total : ℕ) → n * c ≤ total → c ≤ total → at_least_one (pos n) * c ≤ total
at_least_one-fits n c total h k = elim (Bool-cases (ltb n 1)) [
  | inl b ↦ rw b (omega (arith, k))
  | inr b ↦ rw b h
]

div-le : (n c : ℕ) → n / c ≤ n
div-le n zero = omega (arith, div_any n 0)
div-le n (suc c) = omega (arith, div_any n (suc c), mul_le 1 (suc c) (n / suc c) (omega arith))

at_least_one-le : (n total : ℕ) → n ≤ total → at_least_one (pos n) ≤ suc total
at_least_one-le n total h = ground (arith, h)

-- The columns with their separators fit in the width and a separator more.
num_columns-fit :
    (k sep w : ℕ)
    → sep + k < 2 ^ 63
    → w ≤ k
    → num_columns (pos k) sep (w + sep) * (w + sep) ≤ k + sep
unfolding num_columns quot
num_columns-fit k sep w small h = elim (Bool-cases (ltb 0 (w + sep))) [
  | inl b ↦
      rw (b, add_int64-fits k sep (omega (arith, small)))
        (at_least_one-fits ((k + sep) / (w + sep)) (w + sep) (k + sep)
          (omega (arith, div_any (k + sep) (w + sep))) (omega (arith, h)))
  | inr b ↦ rw b (omega (arith, h))
]

module _ (items : List Bytes) (k : ℕ) (out_sep : Bytes) (small : length out_sep + k < 2 ^ 63)
    (wide : max_item_width items ≤ k) where
  abbrev item_width : ℕ
  item_width = max_item_width items

  abbrev columns : ℕ
  columns = num_columns (pos k) (length out_sep) (item_width + length out_sep)

  joined-width :
      (l : List Bytes)
      → Aligned item_width l
      → length l ≤ columns
      → length (join_with out_sep l) ≤ k
  unfolding join_with
  joined-width [] a h = omega arith
  joined-width (s ∷ l) a h = omega (
    arith,
    join_with-length out_sep item_width s l a,
    mul_le (suc (length l)) columns (item_width + length out_sep) h,
    num_columns-fit k (length out_sep) item_width small wide,
  )

  fill_lines-width :
      (rows row n : ℕ) (line : Bytes)
      → Memᴰ line (fill_lines items rows columns item_width out_sep row n)
      → length line ≤ k
  unfolding fill_lines
  fill_lines-width rows row zero line m = absurd (MemD.not-nil m)
  fill_lines-width rows row (suc n) line m = elim (MemD.cases_cons m) [
    | inl e ↦
        let (aligned, few) = fill_cells-Aligned items rows row 0 columns in
        rw e (joined-width (fill_cells items rows item_width row 0 columns) aligned few)
    | inr i ↦ fill_lines-width rows (row + 1) n line i
  ]

  num_columns-le : columns ≤ suc (k + length out_sep)
  unfolding num_columns quot
  num_columns-le = elim (Bool-cases (ltb 0 (item_width + length out_sep))) [
    | inl b ↦
        rw (b, add_int64-fits k (length out_sep) (omega (arith, small)))
          (at_least_one-le ((k + length out_sep) / (item_width + length out_sep)) _
            (div-le (k + length out_sep) (item_width + length out_sep)))
    | inr b ↦ rw b (omega arith)
  ]

  -- Where no item is longer than the output width, and the width, the separator's length, the number
  -- of items and 1 add up to less than 2 ^ 63, `formatFill` makes its lines, and none is longer than
  -- the width.
  pub filled-width :
      length items + (length out_sep + k) + 1 < 2 ^ 63
      → (lines : List Bytes) × (filled items (pos k) out_sep ≡ some lines)
        × ((line : Bytes) → Memᴰ line lines → length line ≤ k)
  filled-width room =
      let rows = (length items + columns - 1) / columns in
      let positive = num_columns-pos (pos k) (length out_sep) (item_width + length out_sep) in
      (
        fill_lines items rows columns item_width out_sep 0 rows,
        rw (num_rows-fits (length items) columns positive (omega (arith, num_columns-le, room)))
            refl,
        λ line m. fill_lines-width rows 0 rows line m,
      )
