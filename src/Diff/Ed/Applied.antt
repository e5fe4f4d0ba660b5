-- ===== src/Diff/Ed/Applied.antt =====
-- command/internal/diff/diff.go: the script of `writeEd` applied to the old lines.
use kefka.Common.{
  ℕ, suc, ◌+◌, ◌-◌, ◌≤◌, ◌≡◌, refl, List, [], ◌∷◌, ◌++◌, map, arith, length, Bytes, zero, ◌∙◌, sym,
  ap, append_assoc, append-nil, take-append, drop-append, length-append,
}
use kefka.Diff.Write.{OpCode, terminate, write_ed, op_hunk, slice}
use mathlib.Core.Path.{subst}
use kefka.Diff.{split_lines}
use kefka.Diff.Ed.Script.{hunk_lines, script_lines, split_lines-write_ed, AllLine}
use kefka.Diff.Ed.Editor.{ed, run}
use kefka.Diff.Ed.Hunks.{
  Covers, covered, onward, NoDots, Turns, length-terminate, terminate-append, op_hunk-Turns,
}

Turns-append :
    (s t old mid new : List Bytes) → Turns s old mid → Turns t mid new → Turns (s ++ t) old new
Turns-append s t old mid new first second f k h =
    let (g, m, e) = first f (t ++ k) (subst (λ z. length z ≤ f) (append_assoc s t k) h) in
    let (g', m', e') = second g k m in (g', m', ap (λ z. run f z old) (append_assoc s t k) ∙ e ∙ e')

slice-append :
    (before y rest : List Bytes)
    → slice (before ++ (y ++ rest)) (length before) (length before + length y) ≡ y
slice-append before y rest =
    let count : length before + length y - length before ≡ length y = omega arith in
    rw (count, drop-append before (y ++ rest)) (take-append y rest)

NoDots-append : (ls ms : List Bytes) → NoDots (ls ++ ms) → NoDots ls × NoDots ms
NoDots-append [] ms h = (tt, h)
NoDots-append (l ∷ ls) ms (h, k) = let (a, b) = NoDots-append ls ms k in ((h, a), b)

script_lines-Turns :
    {i j : ℕ} {a c : List Bytes} {ops : List OpCode} (b before pre : List Bytes)
    → Covers i j a c ops
    → b ≡ before ++ c
    → length before ≡ j
    → length pre ≡ i
    → NoDots c
    → Turns (script_lines b ops) (pre ++ map terminate a) (pre ++ map terminate c)
unfolding script_lines
script_lines-Turns b before pre covered e h k d = λ f z m. (f, m, refl)
script_lines-Turns {i} {j} b before pre (onward op x y {a} {b = c} {ops} r spans rest) e h k d =
    let (first, last) = NoDots-append y c d in
    let (at_i1, at_i2, at_j1, at_j2) = spans in
    let tx = map terminate x in
    let whole : b ≡ (before ++ y) ++ c = e ∙ sym (append_assoc before y c) in
    let new_count : length (before ++ y) ≡ j + length y =
      omega (arith, h, length-append before y) in
    let old_count : length (pre ++ tx) ≡ i + length x =
      omega (arith, k, length-append pre tx, length-terminate x) in
    let text : slice b op.j1 op.j2 ≡ y =
      ap (λ t. slice t op.j1 op.j2) e
      ∙ rw (at_j1 ∙ sym h, at_j2 ∙ ap (λ n. n + length y) (sym h)) (slice-append before y c) in
    let later =
      script_lines-Turns b (before ++ y) (pre ++ tx) rest whole new_count old_count last in
    let here =
      op_hunk-Turns b op op.tag pre x y (map terminate c) r (at_i1 ∙ sym k)
        (at_i2 ∙ ap (λ n. n + length x) (sym k)) text first in
    rw (terminate-append x a, terminate-append y c, ← append_assoc pre tx (map terminate a))
      (Turns-append (script_lines b ops) (hunk_lines (op_hunk b op op.tag))
        ((pre ++ tx) ++ map terminate a) ((pre ++ tx) ++ map terminate c)
        (pre ++ (map terminate y ++ map terminate c)) later
        (subst
          (λ t.
            Turns (hunk_lines (op_hunk b op op.tag)) t
              (pre ++ (map terminate y ++ map terminate c)))
          (sym (append_assoc pre tx (map terminate c))) here))

run_nil : (g : ℕ) (buffer : List Bytes) → run g [] buffer ≡ buffer
unfolding run
run_nil zero buffer = refl
run_nil (suc g) buffer = refl

-- Where the operations are those between two lists of lines, and no new line is a dot alone, an editor
-- that runs the script of `writeEd` on the old lines is left with the new ones.
pub ed-write_ed :
    (a b : List Bytes) (ops : List OpCode)
    → Covers 0 0 a b ops
    → AllLine b
    → NoDots b
    → ed (write_ed b ops) (map terminate a) ≡ map terminate b
unfolding ed
ed-write_ed a b ops h lines dots =
    let script : split_lines (write_ed b ops) ≡ script_lines b ops ++ [] =
      split_lines-write_ed b ops lines ∙ sym (append-nil (script_lines b ops)) in
    let f = length (script_lines b ops ++ []) in
    let (g, m, e) = script_lines-Turns b [] [] h refl refl refl dots f [] (omega arith) in
    ap (λ t. run (length t) t (map terminate a)) script ∙ e ∙ run_nil g (map terminate b)
