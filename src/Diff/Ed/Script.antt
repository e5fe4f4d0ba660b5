-- ===== src/Diff/Ed/Script.antt =====
-- command/internal/diff/diff.go: the lines of the script of `writeEd`, as the editor reads them.
use kefka.Common.{
  ℕ, zero, suc, ◌+◌, ◌-◌, ◌≡◌, refl, sym, ap, ◌∙◌, ◌≢◌, inl, inr, true, false, Option, none, some,
  List, [], ◌∷◌, ◌++◌, map, append-nil, append_assoc, arith, ◌==◌, Bool-cases, take, drop, last?,
  Bytes, contains,
}
use mathlib.Core.Path.{subst}
use kefka.Strconv.Digits.{format_uint-AllDigits, NoDigit, AllDigits-contains}
use kefka.Diff.{newline, split_lines, has_nl}
use kefka.Diff.Lines.{IsLine, split_lines-IsLine}
use kefka.Diff.Write.{
  Tag, equal_tag, replace_tag, delete_tag, insert_tag, OpCode, slice, itoa, format_range, terminate,
  dot_line, Hunk, op_hunk, write_lines, write_hunk, write_ed,
}

contains-append :
    (s t : Bytes) (c : ℕ)
    → contains s c ≡ false
    → contains t c ≡ false
    → contains (s ++ t) c ≡ false
unfolding contains
contains-append [] t c h k = k
contains-append (d ∷ s) t c h k = ground (arith, contains-append s t c (ground arith) k)

newline-IsLine : (s : Bytes) → contains s newline ≡ false → IsLine (s ++ (newline ∷ []))
unfolding contains
newline-IsLine [] h = tt
newline-IsLine (c ∷ []) h = (ground arith, tt)
newline-IsLine (c ∷ d ∷ s) h = (ground arith, newline-IsLine (d ∷ s) (ground arith))

last-append : (s : Bytes) (c : ℕ) → last? (s ++ (c ∷ [])) ≡ some c
last-append [] c = refl
last-append (d ∷ []) c = refl
last-append (d ∷ e ∷ s) c = last-append (e ∷ s) c

newline-has_nl : (s : Bytes) → has_nl (s ++ (newline ∷ [])) ≡ true
unfolding has_nl
newline-has_nl s = rw (has_nl, last-append s newline) refl

itoa-contains : (n c : ℕ) → NoDigit c → contains (itoa n) c ≡ false
itoa-contains n c h = AllDigits-contains (itoa n) c h (format_uint-AllDigits n)

format_range-contains :
    (lo hi c : ℕ) → NoDigit c → c ≢ b',' → contains (format_range lo hi) c ≡ false
unfolding format_range contains
format_range-contains lo hi c h k = elim (Bool-cases (lo == hi)) [
  | inl e ↦ rw e (itoa-contains lo c h)
  | inr e ↦ rw e (
      contains-append (itoa lo) (b',' ∷ itoa hi) c (itoa-contains lo c h)
        (ground (arith, itoa-contains hi c h)))
]

letter-contains : (c : ℕ) → c ≢ newline → contains (c ∷ []) newline ≡ false
unfolding contains
letter-contains c h = ground arith

add_newline-IsLine : (l : Bytes) → IsLine l → has_nl l ≡ false → IsLine (l ++ (newline ∷ []))
unfolding has_nl
add_newline-IsLine [] h k = absurd h
add_newline-IsLine (c ∷ []) h k = (ground arith, tt)
add_newline-IsLine (c ∷ d ∷ l) (h, i) k = (h, add_newline-IsLine (d ∷ l) i k)

terminate-IsLine : (l : Bytes) → IsLine l → IsLine (terminate l) × (has_nl (terminate l) ≡ true)
unfolding terminate
terminate-IsLine l h = elim (Bool-cases (has_nl l)) [
  | inl e ↦ rw e (h, e)
  | inr e ↦ rw e (add_newline-IsLine l h e, newline-has_nl l)
]

-- Each is a line.
abbrev pub AllLine : List Bytes → Type 0
AllLine [] = Unit
AllLine (l ∷ ls) = IsLine l × AllLine ls

split_lines-write_lines :
    (ls : List Bytes) (s : Bytes)
    → AllLine ls
    → split_lines (write_lines ls ++ s) ≡ map terminate ls ++ split_lines s
unfolding write_lines
split_lines-write_lines [] s h = refl
split_lines-write_lines (l ∷ ls) s (h, k) =
    let (line, ended) = terminate-IsLine l h in
    ap split_lines (append_assoc (terminate l) (write_lines ls) s)
    ∙ split_lines-IsLine (terminate l) (write_lines ls ++ s) line ended
    ∙ ap (λ t. terminate l ∷ t) (split_lines-write_lines ls s k)

-- The lines of a hunk.
abbrev pub hunk_lines : Option Hunk → List Bytes
hunk_lines none = []
hunk_lines (some h) = h.header ∷ map terminate h.body

-- A hunk whose parts are lines.
abbrev pub HunkLines : Option Hunk → Type 0
HunkLines none = Unit
HunkLines (some h) = IsLine h.header × (has_nl h.header ≡ true) × AllLine h.body

split_lines-write_hunk :
    (h : Option Hunk) (s : Bytes)
    → HunkLines h
    → split_lines (write_hunk h ++ s) ≡ hunk_lines h ++ split_lines s
split_lines-write_hunk none s h = refl
split_lines-write_hunk (some hunk) s (line, ended, body) =
    ap split_lines (append_assoc hunk.header (write_lines hunk.body) s)
    ∙ split_lines-IsLine hunk.header (write_lines hunk.body ++ s) line ended
    ∙ ap (λ t. hunk.header ∷ t) (split_lines-write_lines hunk.body s body)

-- A header: what precedes the letter, and the letter.
header-IsLine :
    (s : Bytes) (c : ℕ)
    → contains s newline ≡ false
    → c ≢ newline
    → IsLine (s ++ (c ∷ newline ∷ [])) × (has_nl (s ++ (c ∷ newline ∷ [])) ≡ true)
header-IsLine s c h k =
    let whole : contains (s ++ (c ∷ [])) newline ≡ false =
      contains-append s (c ∷ []) newline h (letter-contains c k) in
    subst (λ t. IsLine t × (has_nl t ≡ true)) (append_assoc s (c ∷ []) (newline ∷ []))
      (newline-IsLine (s ++ (c ∷ [])) whole, newline-has_nl (s ++ (c ∷ [])))

AllLine-append : (ls ms : List Bytes) → AllLine ls → AllLine ms → AllLine (ls ++ ms)
AllLine-append [] ms h k = k
AllLine-append (l ∷ ls) ms (h, i) k = (h, AllLine-append ls ms i k)

AllLine-take : (n : ℕ) (ls : List Bytes) → AllLine ls → AllLine (take n ls)
AllLine-take zero ls h = tt
AllLine-take (suc n) [] h = tt
AllLine-take (suc n) (l ∷ ls) (h, k) = (h, AllLine-take n ls k)

AllLine-drop : (n : ℕ) (ls : List Bytes) → AllLine ls → AllLine (drop n ls)
AllLine-drop zero ls h = h
AllLine-drop (suc n) [] h = tt
AllLine-drop (suc n) (l ∷ ls) (h, k) = AllLine-drop n ls k

AllLine-body : (b : List Bytes) (lo hi : ℕ) → AllLine b → AllLine (slice b lo hi ++ (dot_line ∷ []))
AllLine-body b lo hi h =
    AllLine-append (slice b lo hi) (dot_line ∷ [])
      (AllLine-take (hi - lo) (drop lo b) (AllLine-drop lo b h)) ((omega arith, tt), tt)

op_hunk-HunkLines :
    (b : List Bytes) (op : OpCode) (t : Tag) → AllLine b → HunkLines (op_hunk b op t)
unfolding op_hunk
op_hunk-HunkLines b op equal_tag h = tt
op_hunk-HunkLines b op replace_tag h =
    let (line, ended) =
      header-IsLine (format_range (op.i1 + 1) op.i2) b'c'
        (format_range-contains (op.i1 + 1) op.i2 newline (inl (omega arith)) (omega arith))
        (omega arith) in
    (line, ended, AllLine-body b op.j1 op.j2 h)
op_hunk-HunkLines b op delete_tag h =
    let (line, ended) =
      header-IsLine (format_range (op.i1 + 1) op.i2) b'd'
        (format_range-contains (op.i1 + 1) op.i2 newline (inl (omega arith)) (omega arith))
        (omega arith) in
    (line, ended, tt)
op_hunk-HunkLines b op insert_tag h =
    let (line, ended) =
      header-IsLine (itoa op.i1) b'a' (itoa-contains op.i1 newline (inl (omega arith)))
        (omega arith) in
    (line, ended, AllLine-body b op.j1 op.j2 h)

-- The lines of a script.
unfoldable pub script_lines : List Bytes → List OpCode → List Bytes
script_lines b [] = []
script_lines b (op ∷ ops) = script_lines b ops ++ hunk_lines (op_hunk b op op.tag)

split_lines-write_ed_onto :
    (b : List Bytes) (ops : List OpCode) (s : Bytes)
    → AllLine b
    → split_lines (write_ed b ops ++ s) ≡ script_lines b ops ++ split_lines s
unfolding write_ed script_lines
split_lines-write_ed_onto b [] s h = refl
split_lines-write_ed_onto b (op ∷ ops) s h =
    let hunk = op_hunk b op op.tag in
    ap split_lines (append_assoc (write_ed b ops) (write_hunk hunk) s)
    ∙ split_lines-write_ed_onto b ops (write_hunk hunk ++ s) h
    ∙ ap (λ t. script_lines b ops ++ t)
        (split_lines-write_hunk hunk s (op_hunk-HunkLines b op op.tag h))
    ∙ sym (append_assoc (script_lines b ops) (hunk_lines hunk) (split_lines s))

split_lines-nil : split_lines [] ≡ []
unfolding split_lines
split_lines-nil = refl

pub split_lines-write_ed :
    (b : List Bytes) (ops : List OpCode)
    → AllLine b
    → split_lines (write_ed b ops) ≡ script_lines b ops
split_lines-write_ed b ops h =
    ap split_lines (sym (append-nil (write_ed b ops)))
    ∙ split_lines-write_ed_onto b ops [] h
    ∙ ap (λ t. script_lines b ops ++ t) split_lines-nil
    ∙ append-nil (script_lines b ops)
