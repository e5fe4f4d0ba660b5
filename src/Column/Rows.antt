-- ===== src/Column/Rows.antt =====
-- command/internal/column/column.go: the rows and columns of `formatFill`, where nothing wraps around.
use native.Mathlib.Omega.{div_any, mod_fact}
use kefka.Common.{
  ℕ, zero, suc, ◌+◌, ◌-◌, ◌*◌, ◌/◌, ◌%◌, ◌^◌, ◌≤◌, ◌<◌, ◌≡◌, refl, inl, inr, some, List, arith, ltb,
  Bool-cases, length, Bytes,
}
use kefka.Common.Int.{ℤ, pos, negsuc, add_int64, int64, add_int64-fits, quot}
use kefka.Column.{
  join_with, at_least_one, num_columns, get_elem?, fill_cells, fill_lines, num_rows, true,
}

sub_one-fits : (n : ℕ) → 1 ≤ n → n < 2 ^ 63 → add_int64 (pos n) (negsuc 0) ≡ pos (n - 1)
unfolding add_int64 int64
sub_one-fits n h k =
    let same : (n % 2 ^ 64 + (2 ^ 64 - 1 - 0 % 2 ^ 64)) % 2 ^ 64 ≡ n - 1 = omega (arith, h, k) in
    let small : ltb (n - 1) (2 ^ 63) ≡ true = ground (arith, k) in rw (same, small) refl

-- The number of rows, where the sum of the items and the columns fits in 63 bits.
pub num_rows-fits :
    (n columns : ℕ)
    → 1 ≤ columns
    → n + columns < 2 ^ 63
    → num_rows n columns ≡ pos ((n + columns - 1) / columns)
unfolding num_rows quot
num_rows-fits n columns h k =
    rw (add_int64-fits n columns k, sub_one-fits (n + columns) (omega (arith, h)) k) refl

-- The rows are enough for all items.
pub rows-enough : (n columns : ℕ) → 1 ≤ columns → n ≤ columns * ((n + columns - 1) / columns)
rows-enough n zero h = absurd (omega (arith, h))
rows-enough n (suc columns) h =
    omega
      (arith, div_any (n + suc columns - 1) (suc columns), mod_fact (n + suc columns - 1) columns)

at_least_one-pos : (z : ℤ) → 1 ≤ at_least_one z
at_least_one-pos (pos n) = ground arith
at_least_one-pos (negsuc n) = omega arith

pub num_columns-pos : (width : ℤ) (sep w : ℕ) → 1 ≤ num_columns width sep w
unfolding num_columns
num_columns-pos width sep w = elim (Bool-cases (ltb 0 w)) [
  | inl b ↦ rw b (at_least_one-pos (quot (add_int64 width (pos sep)) w))
  | inr b ↦ rw b (omega arith)
]

module _ (items : List Bytes) (rows columns w : ℕ) (out_sep : Bytes) where
  pub length-fill_lines : (row n : ℕ) → length (fill_lines items rows columns w out_sep row n) ≡ n
  unfolding fill_lines
  length-fill_lines row zero = refl
  length-fill_lines row (suc n) = omega (arith, length-fill_lines (row + 1) n)

  -- The line of each row.
  get_elem?-fill_lines :
      (row n k : ℕ)
      → k < n
      → get_elem? (fill_lines items rows columns w out_sep row n) k
        ≡ some (join_with out_sep (fill_cells items rows w (row + k) 0 columns))
  unfolding fill_lines
  get_elem?-fill_lines row zero k h = absurd (omega (arith, h))
  get_elem?-fill_lines row (suc n) zero h = let same : row + 0 ≡ row = omega arith in rw same refl
  get_elem?-fill_lines row (suc n) (suc k) h =
      let same : row + suc k ≡ row + 1 + k = omega arith in
      rw same (get_elem?-fill_lines (row + 1) n k (omega (arith, h)))

  pub get_elem?-all_lines :
      (n k : ℕ)
      → k < n
      → get_elem? (fill_lines items rows columns w out_sep 0 n) k
        ≡ some (join_with out_sep (fill_cells items rows w k 0 columns))
  get_elem?-all_lines n k h =
      let same : 0 + k ≡ k = omega arith in rw same at (get_elem?-fill_lines 0 n k h)
