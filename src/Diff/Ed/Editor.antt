-- ===== src/Diff/Ed/Editor.antt =====
-- The commands of ed that a script of `writeEd` has, as the editor documents them: `a`, `c` and `d`
-- with line numbers from 1; the lines for `a` and `c` follow the command and end with a line that has
-- a dot alone. A line of the buffer is kept with its newline.
use kefka.Common.{
  ℕ, zero, suc, ◌+◌, ◌-◌, ◌*◌, Bool, List, [], ◌∷◌, ◌++◌, ◌==◌, if◌then◌else◌, length, take, drop,
  Bytes, codes, equal, within,
}
use kefka.Diff.{split_lines}

abbrev pub dot_only : Bytes → Bool
dot_only l = equal l (codes ".\n")

-- A number in decimal and what follows it.
unfoldable pub read_number : ℕ → Bytes → ℕ × Bytes
read_number n [] = (n, [])
read_number n (c ∷ s) =
    let rest = read_number (n * 10 + (c - b'0')) s in
    if within b'0' b'9' c then rest else (n, c ∷ s)

pub data Command : Type 0 where
  append_after : ℕ → Command
  change : ℕ → ℕ → Command
  delete : ℕ → ℕ → Command
  unknown : Command

abbrev pub letter : ℕ → ℕ → Bytes → Command
letter lo hi [] = unknown
letter lo hi (c ∷ s) =
    if c == b'a'
    then append_after lo
    else if c == b'c'
    then change lo hi
    else if c == b'd'
    then delete lo hi
    else unknown

abbrev pub second_number : ℕ → Bytes → Command
second_number lo [] = unknown
second_number lo (c ∷ s) =
    if c == b','
    then (let (hi, rest) = read_number 0 s in letter lo hi rest)
    else letter lo lo (c ∷ s)

-- A line number, perhaps a comma and another, and a letter.
unfoldable pub read_command : Bytes → Command
unfolding read_number
read_command s = let (lo, rest) = read_number 0 s in second_number lo rest

-- The lines up to the one with the dot, and those behind it.
unfoldable pub read_text : List Bytes → List Bytes × List Bytes
unfolding equal
read_text [] = ([], [])
read_text (l ∷ ls) =
    let (text, rest) = read_text ls in if dot_only l then ([], ls) else (l ∷ text, rest)

-- `text` in place of the lines from `lo` to `hi`.
abbrev pub splice : List Bytes → ℕ → ℕ → List Bytes → List Bytes
splice buffer lo hi text = take (lo - 1) buffer ++ (text ++ drop hi buffer)

-- A script, with as much fuel as it has lines; an unknown command is skipped.
unfoldable pub run : ℕ → List Bytes → List Bytes → List Bytes
unfolding read_command read_text
run zero script buffer = buffer
run (suc f) [] buffer = buffer
run (suc f) (l ∷ ls) buffer = elim (read_command l) [
  | append_after at ↦ run f (read_text ls).1 (splice buffer (at + 1) at (read_text ls).0)
  | change lo hi ↦ run f (read_text ls).1 (splice buffer lo hi (read_text ls).0)
  | delete lo hi ↦ run f ls (splice buffer lo hi [])
  | unknown ↦ run f ls buffer
]

-- The buffer after a script.
unfoldable pub ed : Bytes → List Bytes → List Bytes
unfolding split_lines run
ed script buffer = run (length (split_lines script)) (split_lines script) buffer
