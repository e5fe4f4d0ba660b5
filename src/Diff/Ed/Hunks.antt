-- ===== src/Diff/Ed/Hunks.antt =====
-- command/internal/diff/diff.go: one hunk of `writeEd`, run by the editor.
use kefka.Common.{
  ℕ, suc, ◌+◌, ◌-◌, ◌≤◌, ◌<◌, ◌≡◌, refl, false, List, [], ◌∷◌, ◌++◌, map, arith, length, Bytes,
  equal, zero, ◌∙◌, sym, ap, inr, append_assoc, take-append, drop-append_both, length-append, codes,
}
use kefka.Diff.Write.{
  Tag, equal_tag, replace_tag, delete_tag, insert_tag, OpCode, terminate, dot_line, itoa,
  format_range, op_hunk, slice,
}
use kefka.Diff.{newline, has_nl}
use kefka.Diff.Ed.Script.{hunk_lines}
use kefka.Diff.Ed.Commands.{read_command-itoa, read_command-format_range}
use kefka.Diff.Ed.Editor.{
  dot_only, append_after, change, delete, read_command, read_text, splice, run,
}

-- What the tag of an operation says of the lines that it replaces and of those that replace them.
abbrev pub Replaces : Tag → List Bytes → List Bytes → Type 0
Replaces equal_tag x y = x ≡ y
Replaces replace_tag x y = (0 < length x) × (0 < length y)
Replaces delete_tag x y = (0 < length x) × (y ≡ [])
Replaces insert_tag x y = (x ≡ []) × (0 < length y)

-- The operations of `GetOpCodes`, as its documentation has them: one behind the other, they cover
-- the old lines from `i` on and the new lines from `j` on.
pub data Covers : ℕ → ℕ → List Bytes → List Bytes → List OpCode → Type 0 where
  covered : {i j : ℕ} → Covers i j [] [] []
  onward :
      {i j : ℕ} (op : OpCode) (x y : List Bytes) {a b : List Bytes} {ops : List OpCode}
      → Replaces op.tag x y
      → (op.i1 ≡ i) × (op.i2 ≡ i + length x) × (op.j1 ≡ j) × (op.j2 ≡ j + length y)
      → Covers (i + length x) (j + length y) a b ops
      → Covers i j (x ++ a) (y ++ b) (op ∷ ops)

-- No line is a dot alone, which would end the text of a command.
abbrev pub NoDots : List Bytes → Type 0
NoDots [] = Unit
NoDots (l ∷ ls) = (dot_only (terminate l) ≡ false) × NoDots ls

-- A script that turns one buffer into another, whatever commands follow it.
abbrev pub Turns : List Bytes → List Bytes → List Bytes → Type 0
Turns script old new =
    (f : ℕ) (k : List Bytes)
    → length (script ++ k) ≤ f
    → (g : ℕ) × (length k ≤ g) × (run f (script ++ k) old ≡ run g k new)

read_text-dot :
    (ls rest : List Bytes)
    → NoDots ls
    → read_text (map terminate ls ++ (dot_line ∷ rest)) ≡ (map terminate ls, rest)
unfolding read_text equal
read_text-dot [] rest h = refl
read_text-dot (l ∷ ls) rest (h, k) = rw (h, read_text-dot ls rest k) refl

splice-append :
    (pre x y rest : List Bytes)
    → splice (pre ++ (x ++ rest)) (length pre + 1) (length pre + length x) y ≡ pre ++ (y ++ rest)
splice-append pre x y rest =
    let one : length pre + 1 - 1 ≡ length pre = omega arith in
    rw (one, take-append pre (x ++ rest), drop-append_both pre x rest) refl

run-change :
    (l : Bytes) (lo hi f : ℕ) (body k old : List Bytes)
    → read_command l ≡ change lo hi
    → NoDots body
    → run (suc f) (l ∷ (map terminate body ++ (dot_line ∷ k))) old
      ≡ run f k (splice old lo hi (map terminate body))
unfolding run
run-change l lo hi f body k old h d = rw (h, run, read_text-dot body k d) refl

run-append_after :
    (l : Bytes) (at f : ℕ) (body k old : List Bytes)
    → read_command l ≡ append_after at
    → NoDots body
    → run (suc f) (l ∷ (map terminate body ++ (dot_line ∷ k))) old
      ≡ run f k (splice old (at + 1) at (map terminate body))
unfolding run
run-append_after l at f body k old h d = rw (h, run, read_text-dot body k d) refl

run-delete :
    (l : Bytes) (lo hi f : ℕ) (k old : List Bytes)
    → read_command l ≡ delete lo hi
    → run (suc f) (l ∷ k) old ≡ run f k (splice old lo hi [])
unfolding run
run-delete l lo hi f k old h = rw (h, run) refl

pub length-terminate : (ls : List Bytes) → length (map terminate ls) ≡ length ls
length-terminate [] = refl
length-terminate (l ∷ ls) = ap suc (length-terminate ls)

pub terminate-append :
    (ls ms : List Bytes) → map terminate (ls ++ ms) ≡ map terminate ls ++ map terminate ms
terminate-append [] ms = refl
terminate-append (l ∷ ls) ms = ap (λ t. terminate l ∷ t) (terminate-append ls ms)

terminate-dot_line : terminate dot_line ≡ dot_line
unfolding terminate has_nl
terminate-dot_line = refl

-- The lines of a body in front of what follows.
body-append :
    (y k : List Bytes)
    → map terminate (y ++ (dot_line ∷ [])) ++ k ≡ map terminate y ++ (dot_line ∷ k)
body-append y k =
    ap (λ t. t ++ k) (terminate-append y (dot_line ∷ []))
    ∙ append_assoc (map terminate y) (terminate dot_line ∷ []) k
    ∙ ap (λ t. map terminate y ++ (t ∷ k)) terminate-dot_line

length-body : (y k : List Bytes) → length k ≤ length (map terminate (y ++ (dot_line ∷ [])) ++ k)
length-body y k = omega (arith, length-append (map terminate (y ++ (dot_line ∷ []))) k)

splice-terminate :
    (i1 i2 : ℕ) (pre x text rest : List Bytes)
    → i1 ≡ length pre
    → i2 ≡ length pre + length x
    → splice (pre ++ (map terminate x ++ rest)) (i1 + 1) i2 text ≡ pre ++ (text ++ rest)
splice-terminate i1 i2 pre x text rest h k =
    let end : i2 ≡ length pre + length (map terminate x) = omega (arith, k, length-terminate x) in
    rw (h, end) (splice-append pre (map terminate x) text rest)

pub op_hunk-Turns :
    (b : List Bytes) (op : OpCode) (t : Tag) (pre x y rest : List Bytes)
    → Replaces t x y
    → op.i1 ≡ length pre
    → op.i2 ≡ length pre + length x
    → slice b op.j1 op.j2 ≡ y
    → NoDots y
    → Turns
        (hunk_lines (op_hunk b op t))
        (pre ++ (map terminate x ++ rest))
        (pre ++ (map terminate y ++ rest))
unfolding op_hunk
op_hunk-Turns b op equal_tag pre x y rest r h i e d f k m = (f, m, rw r refl)
op_hunk-Turns b op replace_tag pre x y rest r h i e d zero k m = absurd (omega arith)
op_hunk-Turns b op replace_tag pre x y rest r h i e d (suc f) k m =
    let lo = op.i1 + 1 in
    let header = format_range lo op.i2 ++ codes "c\n" in
    let old = pre ++ (map terminate x ++ rest) in
    let body : slice b op.j1 op.j2 ++ (dot_line ∷ []) ≡ y ++ (dot_line ∷ []) =
      ap (λ t. t ++ (dot_line ∷ [])) e in
    (
      f,
      omega (arith, m, length-body (slice b op.j1 op.j2) k),
      ap (λ t. run (suc f) (header ∷ (map terminate t ++ k)) old) body
          ∙ ap (λ t. run (suc f) (header ∷ t) old) (body-append y k)
          ∙ run-change header lo op.i2 f y k old
              (read_command-format_range lo op.i2 b'c' (newline ∷ []) (inr (omega arith))
                (omega arith))
              d
          ∙ ap (run f k) (splice-terminate op.i1 op.i2 pre x (map terminate y) rest h i),
    )
op_hunk-Turns b op delete_tag pre x y rest r h i e d zero k m = absurd (omega arith)
op_hunk-Turns b op delete_tag pre x y rest r h i e d (suc f) k m =
    let lo = op.i1 + 1 in
    let header = format_range lo op.i2 ++ codes "d\n" in
    let old = pre ++ (map terminate x ++ rest) in
    (
      f,
      omega (arith, m),
      run-delete header lo op.i2 f k old (
            read_command-format_range lo op.i2 b'd' (newline ∷ []) (inr (omega arith))
              (omega arith))
          ∙ ap (run f k) (
              splice-terminate op.i1 op.i2 pre x [] rest h i
              ∙ ap (λ t. pre ++ (map terminate t ++ rest)) (sym r.1)),
    )
op_hunk-Turns b op insert_tag pre x y rest r h i e d zero k m = absurd (omega arith)
op_hunk-Turns b op insert_tag pre x y rest r h i e d (suc f) k m =
    let header = itoa op.i1 ++ codes "a\n" in
    let old = pre ++ (map terminate x ++ rest) in
    let body : slice b op.j1 op.j2 ++ (dot_line ∷ []) ≡ y ++ (dot_line ∷ []) =
      ap (λ t. t ++ (dot_line ∷ [])) e in
    let none_removed : length x ≡ 0 = ap length r.0 in
    let end : op.i1 ≡ length pre + length x = omega (arith, h, none_removed) in
    (
      f,
      omega (arith, m, length-body (slice b op.j1 op.j2) k),
      ap (λ t. run (suc f) (header ∷ (map terminate t ++ k)) old) body
          ∙ ap (λ t. run (suc f) (header ∷ t) old) (body-append y k)
          ∙ run-append_after header op.i1 f y k old
              (read_command-itoa op.i1 b'a' (newline ∷ []) (inr (omega arith)) (omega arith)) d
          ∙ ap (run f k) (splice-terminate op.i1 op.i1 pre x (map terminate y) rest h end),
    )
