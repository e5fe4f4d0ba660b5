-- ===== src/Tests/ColumnTests.antt =====
-- Tests and instances for the column command.
use mathlib.Core.List.{Memᴰ}
use kefka.Common.{
  ◌+◌, ◌/◌, ◌%◌, ◌^◌, ◌≤◌, ◌<◌, ◌≡◌, refl, true, false, some, none, ◌-◌, List, [], ◌∷◌, arith,
  length, Bytes, codes,
}
use kefka.Common.Int.{pos, negsuc}
use kefka.Column.{
  get_elem?, join_with, split_fields, format_fill, format_columns, max_item_width, filled,
  table_widths, table_cells, fill_lines, num_rows, num_columns,
}
use kefka.Column.Width.{filled-width}
use kefka.Column.Table.{InColumns, table_widths-InColumns}
use kefka.Column.Placed.{Holds, filled-placed}
use kefka.Utf8.{runes}
use kefka.Tests.Platforms.{ascii}

abbrev items : List Bytes
items = codes "a" ∷ codes "bbb" ∷ codes "c" ∷ []

-- Two columns of two rows in nine bytes.
fill_runs : format_fill items (pos 9) (codes "  ") ≡ some (codes "a    c\nbbb")
unfolding format_fill
fill_runs = refl

fill_negative : format_fill items (negsuc 4) (codes "  ") ≡ some (codes "a\nbbb\nc")
unfolding format_fill
fill_negative = refl

fields_merge : split_fields (codes " x  y ") [] false ≡ codes "x" ∷ codes "y" ∷ []
unfolding split_fields
fields_merge = refl

fields_single : split_fields (codes "x  y") [] true ≡ codes "x" ∷ [] ∷ codes "y" ∷ []
unfolding split_fields
fields_single = refl

table_runs :
    format_columns ascii (codes "a:bb\nccc:d\n") true (codes ":") (codes " ") (pos 80) false
    ≡ some (codes "a   bb\nccc d\n")
unfolding format_columns runes
table_runs = refl

sum_small : 2 + 9 < 2 ^ 63
sum_small = omega arith

room_small : length items + (2 + 9) + 1 < 2 ^ 63
room_small = omega arith

items_narrow : max_item_width items ≤ 9
unfolding max_item_width
items_narrow = omega arith

fill_lines_run : filled items (pos 9) (codes "  ") ≡ some (codes "a    c" ∷ codes "bbb" ∷ [])
unfolding fill_lines max_item_width num_columns num_rows
fill_lines_run = refl

-- The sum in the number of rows wraps around at the largest width: `make` panics, or there are no rows
-- and nothing is written.
wide_panics : format_fill (codes "a" ∷ codes "b" ∷ []) (pos (2 ^ 63 - 1)) [] ≡ none
unfolding format_fill
wide_panics = refl

wide_loses :
    format_fill (codes "a" ∷ codes "b" ∷ codes "c" ∷ codes "d" ∷ []) (pos (2 ^ 63 - 1)) [] ≡ some []
unfolding format_fill
wide_loses = refl

filled-width_example :
    (lines : List Bytes) × (filled items (pos 9) (codes "  ") ≡ some lines)
    × ((line : Bytes) → Memᴰ line lines → length line ≤ 9)
filled-width_example = filled-width items 9 (codes "  ") sum_small items_narrow room_small

abbrev rows : List (List Bytes)
rows = (codes "a" ∷ codes "bb" ∷ []) ∷ (codes "ccc" ∷ codes "d" ∷ []) ∷ []

table_widths-InColumns_example :
    InColumns
      (table_widths [] rows)
      (table_cells (table_widths [] rows) (codes "a" ∷ codes "bb" ∷ []))
table_widths-InColumns_example =
    table_widths-InColumns rows (codes "a" ∷ codes "bb" ∷ []) (Memᴰ.head refl)

columns_small : length items + num_columns (pos 9) 2 (max_item_width items + 2) < 2 ^ 63
unfolding num_columns max_item_width
columns_small = omega arith

filled-placed_example :
    (lines : List Bytes) × (filled items (pos 9) (codes "  ") ≡ some lines)
    × (cells : List Bytes) × (get_elem? lines (2 % length lines)
        ≡ some (join_with (codes "  ") cells))
    × Holds (max_item_width items) cells (2 / length lines) (codes "c")
filled-placed_example = filled-placed items (pos 9) (codes "  ") 2 (codes "c") columns_small refl
