-- ===== src/Diff/Grouped.antt =====
-- command/internal/diff/diff.go, lines 563 to 696: the formats with context, over the groups of
-- operations that package difflib makes. A group is not empty, so it is its first operation and the
-- others. The differences of line numbers are of numbers in order.
use kefka.Common.{
  ℕ, ◌+◌, ◌-◌, Bool, true, false, ◌||◌, List, [], ◌∷◌, ◌++◌, ltb, ◌==◌, if◌then◌else◌, Bytes, codes,
}
use kefka.Diff.{newline}
use kefka.Diff.Write.{
  Tag, equal_tag, replace_tag, delete_tag, insert_tag, OpCode, slice, itoa, write_all,
}

pub record Group : Type 0 where
  pub first : OpCode
  pub others : List OpCode

abbrev pub all_of : Group → List OpCode
all_of g = g.first ∷ g.others

abbrev pub last_from : OpCode → List OpCode → OpCode
last_from op [] = op
last_from op (next ∷ ops) = last_from next ops

-- `g[len(g)-1]`
abbrev pub last_op : Group → OpCode
last_op g = last_from g.first g.others

-- `unifiedRange`
unfoldable pub unified_range : ℕ → ℕ → Bytes
unified_range start count =
    if count == 0
    then itoa start ++ codes ",0"
    else if count == 1
    then itoa (start + 1)
    else itoa (start + 1) ++ (b',' ∷ itoa count)

abbrev pub write_unified_op : List Bytes → List Bytes → OpCode → Tag → Bytes
write_unified_op a b op equal_tag = write_all (codes " ") (slice a op.i1 op.i2)
write_unified_op a b op replace_tag =
    write_all (codes "-") (slice a op.i1 op.i2) ++ write_all (codes "+") (slice b op.j1 op.j2)
write_unified_op a b op delete_tag = write_all (codes "-") (slice a op.i1 op.i2)
write_unified_op a b op insert_tag = write_all (codes "+") (slice b op.j1 op.j2)

unfoldable pub write_unified_ops : List Bytes → List Bytes → List OpCode → Bytes
unfolding write_all
write_unified_ops a b [] = []
write_unified_ops a b (op ∷ ops) = write_unified_op a b op op.tag ++ write_unified_ops a b ops

unfoldable pub unified_header : Group → Bytes
unfolding unified_range
unified_header g =
    let last = last_op g in
    codes "@@ -"
    ++ unified_range g.first.i1 (last.i2 - g.first.i1)
    ++ codes " +"
    ++ unified_range g.first.j1 (last.j2 - g.first.j1)
    ++ codes " @@\n"

unfoldable pub write_unified_groups : List Bytes → List Bytes → List Group → Bytes
unfolding unified_header write_unified_ops
write_unified_groups a b [] = []
write_unified_groups a b (g ∷ gs) =
    unified_header g ++ write_unified_ops a b (all_of g) ++ write_unified_groups a b gs

-- The two lines with the names and the times of the files.
abbrev pub file_lines : Bytes → Bytes → Bytes → Bytes → Bytes → Bytes → Bytes
file_lines old new f1 t1 f2 t2 =
    old ++ f1 ++ (b'\t' ∷ t1) ++ (newline ∷ new) ++ f2 ++ (b'\t' ∷ t2) ++ (newline ∷ [])

-- `writeUnified`
unfoldable pub write_unified :
    Bytes → Bytes → Bytes → Bytes → List Bytes → List Bytes → List Group → Bytes
unfolding write_unified_groups
write_unified f1 f2 t1 t2 a b [] = []
write_unified f1 f2 t1 t2 a b (g ∷ gs) =
    file_lines (codes "--- ") (codes "+++ ") f1 t1 f2 t2 ++ write_unified_groups a b (g ∷ gs)

-- `contextRange`
unfoldable pub context_range : ℕ → ℕ → Bytes
context_range lo hi =
    if ltb hi lo then itoa hi else if lo == hi then itoa lo else itoa lo ++ (b',' ∷ itoa hi)

abbrev pub removes : Tag → Bool
removes replace_tag = true
removes delete_tag = true
removes _ = false

abbrev pub adds : Tag → Bool
adds replace_tag = true
adds insert_tag = true
adds _ = false

-- `hasADel`
unfoldable pub has_del : List OpCode → Bool
has_del [] = false
has_del (op ∷ ops) = removes op.tag || has_del ops

-- `hasBAdd`
unfoldable pub has_add : List OpCode → Bool
has_add [] = false
has_add (op ∷ ops) = adds op.tag || has_add ops

abbrev pub write_old_op : List Bytes → OpCode → Tag → Bytes
write_old_op a op equal_tag = write_all (codes "  ") (slice a op.i1 op.i2)
write_old_op a op replace_tag = write_all (codes "! ") (slice a op.i1 op.i2)
write_old_op a op delete_tag = write_all (codes "- ") (slice a op.i1 op.i2)
write_old_op a op insert_tag = []

unfoldable pub write_old : List Bytes → List OpCode → Bytes
unfolding write_all
write_old a [] = []
write_old a (op ∷ ops) = write_old_op a op op.tag ++ write_old a ops

abbrev pub write_new_op : List Bytes → OpCode → Tag → Bytes
write_new_op b op equal_tag = write_all (codes "  ") (slice b op.j1 op.j2)
write_new_op b op replace_tag = write_all (codes "! ") (slice b op.j1 op.j2)
write_new_op b op delete_tag = []
write_new_op b op insert_tag = write_all (codes "+ ") (slice b op.j1 op.j2)

unfoldable pub write_new : List Bytes → List OpCode → Bytes
unfolding write_all
write_new b [] = []
write_new b (op ∷ ops) = write_new_op b op op.tag ++ write_new b ops

-- The lines that a half of a group covers: from the first, counted from 1, to the last, or the line
-- before an empty half.
unfoldable pub context_lines_of : ℕ → ℕ → Bytes
unfolding context_range
context_lines_of first last =
    if last == first then context_range first first else context_range (first + 1) last

unfoldable pub write_context_group : List Bytes → List Bytes → Group → Bytes
unfolding context_lines_of has_del has_add write_old write_new
write_context_group a b g =
    let last = last_op g in
    codes "***************\n*** "
    ++ context_lines_of g.first.i1 last.i2
    ++ codes " ****\n"
    ++ (if has_del (all_of g) then write_old a (all_of g) else [])
    ++ codes "--- "
    ++ context_lines_of g.first.j1 last.j2
    ++ codes " ----\n"
    ++ (if has_add (all_of g) then write_new b (all_of g) else [])

unfoldable pub write_context_groups : List Bytes → List Bytes → List Group → Bytes
unfolding write_context_group
write_context_groups a b [] = []
write_context_groups a b (g ∷ gs) = write_context_group a b g ++ write_context_groups a b gs

-- `writeContext`
unfoldable pub write_context :
    Bytes → Bytes → Bytes → Bytes → List Bytes → List Bytes → List Group → Bytes
unfolding write_context_groups
write_context f1 f2 t1 t2 a b [] = []
write_context f1 f2 t1 t2 a b (g ∷ gs) =
    file_lines (codes "*** ") (codes "--- ") f1 t1 f2 t2 ++ write_context_groups a b (g ∷ gs)
