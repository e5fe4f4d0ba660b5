-- ===== src/Diff/Write.antt =====
-- command/internal/diff/diff.go, lines 444 to 696: the formats of a difference. The operations come
-- from package difflib; each turns lines [i1, i2) of the old file into lines [j1, j2) of the new.
use kefka.Common.{
  ℕ, ◌+◌, ◌-◌, Option, none, some, List, [], ◌∷◌, ◌++◌, ◌==◌, if◌then◌else◌, take, drop, Bytes,
  codes,
}
use kefka.Strconv.{format_uint}
use kefka.Diff.{newline, has_nl}

pub data Tag : Type 0 where
  equal_tag : Tag
  replace_tag : Tag
  delete_tag : Tag
  insert_tag : Tag

-- difflib.OpCode
pub record OpCode : Type 0 where
  pub tag : Tag
  pub i1 : ℕ
  pub i2 : ℕ
  pub j1 : ℕ
  pub j2 : ℕ

-- `lines[lo]` to `lines[hi - 1]`
abbrev pub slice : List Bytes → ℕ → ℕ → List Bytes
slice ls lo hi = take (hi - lo) (drop lo ls)

-- `strconv.Itoa` and `%d`
abbrev pub itoa : ℕ → Bytes
itoa n = format_uint 10 n

-- `formatRange`
unfoldable pub format_range : ℕ → ℕ → Bytes
format_range lo hi = if lo == hi then itoa lo else itoa lo ++ (b',' ∷ itoa hi)

-- `writePrefixed`
unfoldable pub write_prefixed : Bytes → Bytes → Bytes
unfolding has_nl
write_prefixed prefix line =
    if has_nl line
    then prefix ++ line
    else prefix ++ (line ++ codes "\n\\ No newline at end of file\n")

unfoldable pub write_all : Bytes → List Bytes → Bytes
unfolding write_prefixed
write_all prefix [] = []
write_all prefix (l ∷ ls) = write_prefixed prefix l ++ write_all prefix ls

-- One round of `writeNormal`.
abbrev pub write_normal_op : List Bytes → List Bytes → OpCode → Tag → Bytes
write_normal_op a b op equal_tag = []
write_normal_op a b op replace_tag =
    format_range (op.i1 + 1) op.i2
    ++ (b'c' ∷ format_range (op.j1 + 1) op.j2)
    ++ (newline ∷ write_all (codes "< ") (slice a op.i1 op.i2))
    ++ codes "---\n"
    ++ write_all (codes "> ") (slice b op.j1 op.j2)
write_normal_op a b op delete_tag =
    format_range (op.i1 + 1) op.i2
    ++ (b'd' ∷ itoa op.j1)
    ++ (newline ∷ write_all (codes "< ") (slice a op.i1 op.i2))
write_normal_op a b op insert_tag =
    itoa op.i1
    ++ (b'a' ∷ format_range (op.j1 + 1) op.j2)
    ++ (newline ∷ write_all (codes "> ") (slice b op.j1 op.j2))

-- `writeNormal`
unfoldable pub write_normal : List Bytes → List Bytes → List OpCode → Bytes
unfolding format_range write_all
write_normal a b [] = []
write_normal a b (op ∷ ops) = write_normal_op a b op op.tag ++ write_normal a b ops

-- A line with a newline, if it has none.
unfoldable pub terminate : Bytes → Bytes
unfolding has_nl
terminate s = if has_nl s then s else s ++ (newline ∷ [])

abbrev pub dot_line : Bytes
dot_line = codes ".\n"

-- The type `hunk` in `writeEd`.
pub record Hunk : Type 0 where
  pub header : Bytes
  pub body : List Bytes

-- The hunks of one operation, none or one.
unfoldable pub op_hunk : List Bytes → OpCode → Tag → Option Hunk
unfolding format_range
op_hunk b op equal_tag = none
op_hunk b op replace_tag = some (record {
  header = format_range (op.i1 + 1) op.i2 ++ codes "c\n";
  body = slice b op.j1 op.j2 ++ (dot_line ∷ []);
})
op_hunk b op delete_tag =
    some (record { header = format_range (op.i1 + 1) op.i2 ++ codes "d\n"; body = [] })
op_hunk b op insert_tag =
    some
      (record { header = itoa op.i1 ++ codes "a\n"; body = slice b op.j1 op.j2 ++ (dot_line ∷ []) })

unfoldable pub write_lines : List Bytes → Bytes
unfolding terminate
write_lines [] = []
write_lines (l ∷ ls) = terminate l ++ write_lines ls

abbrev pub write_hunk : Option Hunk → Bytes
write_hunk none = []
write_hunk (some h) = h.header ++ write_lines h.body

-- `writeEd`: the hunks from the last to the first.
unfoldable pub write_ed : List Bytes → List OpCode → Bytes
unfolding op_hunk write_lines
write_ed b [] = []
write_ed b (op ∷ ops) = write_ed b ops ++ write_hunk (op_hunk b op op.tag)

-- One round of `writeForwardEd`.
abbrev pub write_forward_op : List Bytes → OpCode → Tag → Bytes
write_forward_op b op equal_tag = []
write_forward_op b op replace_tag =
    (b'c' ∷ format_range (op.i1 + 1) op.i2)
    ++ (newline ∷ write_lines (slice b op.j1 op.j2))
    ++ dot_line
write_forward_op b op delete_tag = (b'd' ∷ format_range (op.i1 + 1) op.i2) ++ (newline ∷ [])
write_forward_op b op insert_tag =
    (b'a' ∷ itoa op.i1) ++ (newline ∷ write_lines (slice b op.j1 op.j2)) ++ dot_line

-- `writeForwardEd`
unfoldable pub write_forward_ed : List Bytes → List OpCode → Bytes
unfolding format_range write_lines
write_forward_ed b [] = []
write_forward_ed b (op ∷ ops) = write_forward_op b op op.tag ++ write_forward_ed b ops
