-- ===== src/Column.antt =====
-- command/internal/column/column.go: the column command. The option parser, the filesystem and the
-- standard input are parameters.
pub mod Command
pub mod Fill
pub mod Width
pub mod Table
pub mod Placed
pub mod Rows
use mathlib.Core.Option
use kefka.Common.{
  ℕ, zero, suc, ◌+◌, ◌-◌, ◌*◌, ◌/◌, ◌%◌, ◌^◌, ◌≤◌, ◌<◌, ◌≡◌, refl, sym, ap, ◌∙◌, ◌≢◌, ◌↔◌, ◌⊎◌, inl,
  inr, Bool, true, false, not, ◌&&◌, ◌||◌, Option, none, some, List, [], ◌∷◌, ◌++◌, map, append-nil,
  append_assoc, arith, ltb, leb, ◌==◌, if◌then◌else◌, ==_iff, Bool-cases, Option-cases, length,
  take, drop, replicate, last?, init, length-append, length-take, length-drop, length-replicate,
  Bytes, codes, equal, equal_iff, has_prefix, trim_prefix, contains, within, replace_all,
}
use kefka.Common.Int.{ℤ, pos, negsuc, add_int64, quot}
use kefka.Unicode.{Unicode}
use kefka.Utf8.{runes}
use kefka.ShellPath.{resolve_path}

-- `strings.TrimSpace(s) == ""`
unfoldable pub all_space : Unicode → List ℕ → Bool
all_space u [] = true
all_space u (r ∷ s) = u.is_space r && all_space u s

abbrev pub is_blank : Unicode → Bytes → Bool
is_blank u s = all_space u (runes s)

abbrev pub on_first : ℕ → List Bytes → List Bytes
on_first c [] = (c ∷ []) ∷ []
on_first c (e ∷ es) = (c ∷ e) ∷ es

-- `strings.Split` at a separator that is not empty; its bytes that are still to be left out are counted
-- down.
unfoldable split_from : Bytes → ℕ → Bytes → List Bytes
unfolding has_prefix
split_from sep k [] = [] ∷ []
split_from sep (suc k) (c ∷ s) = split_from sep k s
split_from sep zero (c ∷ s) =
    let behind = split_from sep (length sep - 1) s in
    let rest = split_from sep zero s in
    if has_prefix sep (c ∷ s) then [] ∷ behind else on_first c rest

unfoldable pub split : Bytes → Bytes → List Bytes
unfolding split_from
split s sep = split_from sep 0 s

abbrev pub space_or_tab : ℕ → Bool
space_or_tab c = c == b' ' || c == 9

-- `spaceTabSingle.Split`
unfoldable pub split_single : Bytes → List Bytes
split_single [] = [] ∷ []
split_single (c ∷ s) =
    let rest = split_single s in if space_or_tab c then [] ∷ rest else on_first c rest

abbrev pub starts_blank : Bytes → Bool
starts_blank [] = false
starts_blank (c ∷ s) = space_or_tab c

-- `spaceTabRun.Split`: a run of spaces and tabs separates once.
unfoldable pub split_runs : Bytes → List Bytes
split_runs [] = [] ∷ []
split_runs (c ∷ s) =
    let rest = split_runs s in
    if space_or_tab c then (if starts_blank s then rest else [] ∷ rest) else on_first c rest

unfoldable pub remove_empty : List Bytes → List Bytes
remove_empty [] = []
remove_empty ([] ∷ l) = remove_empty l
remove_empty ((c ∷ s) ∷ l) = (c ∷ s) ∷ remove_empty l

unfoldable pub split_fields : Bytes → Bytes → Bool → List Bytes
unfolding split split_single split_runs remove_empty
split_fields line [] no_merge =
    if no_merge then split_single line else remove_empty (split_runs line)
split_fields line (c ∷ sep) no_merge =
    let parts = split line (c ∷ sep) in if no_merge then parts else remove_empty parts

-- `strings.Join`
unfoldable pub join_with : Bytes → List Bytes → Bytes
join_with sep [] = []
join_with sep (s ∷ []) = s
join_with sep (s ∷ t ∷ l) = s ++ (sep ++ join_with sep (t ∷ l))

unfoldable pub pad_end : Bytes → ℕ → Bytes
pad_end s width = if leb width (length s) then s else s ++ replicate (width - length s) b' '

-- The width of each column is that of its longest cell.
unfoldable pub widen : List ℕ → List Bytes → List ℕ
widen widths [] = widths
widen [] (cell ∷ row) = length cell ∷ widen [] row
widen (w ∷ widths) (cell ∷ row) =
    let rest = widen widths row in if ltb w (length cell) then length cell ∷ rest else w ∷ rest

unfoldable pub table_widths : List ℕ → List (List Bytes) → List ℕ
unfolding widen
table_widths widths [] = widths
table_widths widths (row ∷ rows) = table_widths (widen widths row) rows

-- All cells but the last of a row are padded.
unfoldable pub table_cells : List ℕ → List Bytes → List Bytes
unfolding pad_end
table_cells widths [] = []
table_cells widths (cell ∷ []) = cell ∷ []
table_cells [] (cell ∷ next ∷ row) = cell ∷ table_cells [] (next ∷ row)
table_cells (w ∷ widths) (cell ∷ next ∷ row) = pad_end cell w ∷ table_cells widths (next ∷ row)

unfoldable pub format_table : List (List Bytes) → Bytes → Bytes
unfolding table_widths table_cells join_with
format_table rows out_sep =
    let widths = table_widths [] rows in
    join_with (codes "\n") (map (λ row. join_with out_sep (table_cells widths row)) rows)

unfoldable pub max_item_width : List Bytes → ℕ
max_item_width [] = 0
max_item_width (item ∷ items) =
    let rest = max_item_width items in if ltb rest (length item) then length item else rest

-- `max(1, n)`
abbrev pub at_least_one : ℤ → ℕ
at_least_one (pos n) = if ltb n 1 then 1 else n
at_least_one (negsuc n) = 1

unfoldable pub num_columns : ℤ → ℕ → ℕ → ℕ
unfolding add_int64 quot
num_columns width sep_width col_width =
    if ltb 0 col_width then at_least_one (quot (add_int64 width (pos sep_width)) col_width) else 1

-- The sums wrap around, as the number of columns may be near 2 ^ 63; `add_int64 _ (negsuc 0)` is `- 1`.
unfoldable pub num_rows : ℕ → ℕ → ℤ
unfolding add_int64 quot
num_rows items columns = quot (add_int64 (add_int64 (pos items) (pos columns)) (negsuc 0)) columns

abbrev pub get_elem? : List Bytes → ℕ → Option Bytes
get_elem? [] i = none
get_elem? (x ∷ l) zero = some x
get_elem? (x ∷ l) (suc i) = get_elem? l i

-- A cell before the others of its row; there is none where the items have ended.
abbrev pub with_cell : Option Bytes → Bool → ℕ → List Bytes → List Bytes
with_cell none is_last item_width rest = rest
with_cell (some item) is_last item_width rest =
    (if is_last then item else pad_end item item_width) ∷ rest

-- The cells of a row from a column on, for as many columns.
unfoldable pub fill_cells : List Bytes → ℕ → ℕ → ℕ → ℕ → ℕ → List Bytes
unfolding pad_end
fill_cells items rows item_width row col zero = []
fill_cells items rows item_width row col (suc columns) =
    let rest = fill_cells items rows item_width row (col + 1) columns in
    let is_last = columns == 0 || leb (length items) ((col + 1) * rows + row) in
    with_cell (get_elem? items (col * rows + row)) is_last item_width rest

-- The lines from a row on, for as many rows.
unfoldable pub fill_lines : List Bytes → ℕ → ℕ → ℕ → Bytes → ℕ → ℕ → List Bytes
unfolding fill_cells join_with
fill_lines items rows columns item_width out_sep row zero = []
fill_lines items rows columns item_width out_sep row (suc n) =
    join_with out_sep (fill_cells items rows item_width row 0 columns)
    ∷ fill_lines items rows columns item_width out_sep (row + 1) n

-- `make` panics where the number of rows is negative.
abbrev pub made_lines : List Bytes → ℕ → ℕ → Bytes → ℤ → Option (List Bytes)
made_lines items columns item_width out_sep (pos rows) =
    some (fill_lines items rows columns item_width out_sep 0 rows)
made_lines items columns item_width out_sep (negsuc n) = none

abbrev pub filled : List Bytes → ℤ → Bytes → Option (List Bytes)
filled items width out_sep =
    let item_width = max_item_width items in
    let columns = num_columns width (length out_sep) (item_width + length out_sep) in
    made_lines items columns item_width out_sep (num_rows (length items) columns)

-- `none` is the panic.
unfoldable pub format_fill : List Bytes → ℤ → Bytes → Option Bytes
unfolding fill_lines max_item_width num_columns num_rows join_with
format_fill [] width out_sep = some []
format_fill (item ∷ items) width out_sep =
    Option.map (join_with (codes "\n")) (filled (item ∷ items) width out_sep)

-- The lines without the empty one behind a newline at the end.
unfoldable pub content_lines : Bytes → List Bytes
unfolding split
content_lines content =
    let lines = split content (codes "\n") in
    elim (last? lines) [ none ↦ lines | some [] ↦ init lines | some (c ∷ s) ↦ lines ]

unfoldable pub non_empty : Unicode → List Bytes → List Bytes
unfolding all_space
non_empty u [] = []
non_empty u (line ∷ lines) =
    let rest = non_empty u lines in if is_blank u line then rest else line ∷ rest

abbrev pub all_fields : Bytes → Bool → List Bytes → List Bytes
all_fields sep no_merge [] = []
all_fields sep no_merge (line ∷ lines) =
    split_fields line sep no_merge ++ all_fields sep no_merge lines

abbrev pub with_newline : Bytes → Bytes
with_newline [] = []
with_newline (c ∷ s) = c ∷ (s ++ codes "\n")

unfoldable pub format_columns : Unicode → Bytes → Bool → Bytes → Bytes → ℤ → Bool → Option Bytes
unfolding all_space content_lines non_empty split_fields format_table format_fill
format_columns u content table sep out_sep width no_merge =
    let lines = non_empty u (content_lines content) in
    let output =
      if table
      then some (format_table (map (λ line. split_fields line sep no_merge) lines) out_sep)
      else format_fill (all_fields sep no_merge lines) width out_sep in
    if is_blank u content then some [] else Option.map with_newline output
