-- ===== src/Diff.antt =====
-- command/internal/diff/diff.go: the lines of a file, and how the options make them comparable.
pub mod Lines
pub mod Write
pub mod Grouped
pub mod Ed
pub mod Compare
pub mod Command
use kefka.Common.{
  ℕ, zero, suc, ◌+◌, ◌-◌, ◌*◌, ◌/◌, ◌%◌, ◌^◌, ◌≤◌, ◌<◌, ◌≡◌, refl, sym, ap, ◌∙◌, ◌≢◌, ◌↔◌, ◌⊎◌, inl,
  inr, Bool, true, false, not, ◌&&◌, ◌||◌, Option, none, some, List, [], ◌∷◌, ◌++◌, map, append-nil,
  append_assoc, arith, ltb, leb, ◌==◌, if◌then◌else◌, ==_iff, Bool-cases, Option-cases, length,
  take, drop, replicate, last?, init, length-append, length-take, length-drop, length-replicate,
  Bytes, codes, equal, equal_iff, has_prefix, trim_prefix, contains, within,
}
use kefka.Utf8.{runes, encode}
use kefka.Unicode.{Unicode}

pub data Format : Type 0 where
  normal : Format
  context : Format
  unified : Format
  ed : Format
  forward_ed : Format

pub record CompareOptions : Type 0 where
  pub ignore_case : Bool
  pub ignore_space : Bool
  pub brief : Bool
  pub report_same : Bool
  pub recursive : Bool
  pub fmt_kind : Format
  pub context_lines : ℕ

abbrev pub newline : ℕ
newline = 10

abbrev pub on_line : ℕ → List Bytes → List Bytes
on_line c [] = (c ∷ []) ∷ []
on_line c (l ∷ ls) = (c ∷ l) ∷ ls

-- `strings.SplitAfter(s, "\n")`
unfoldable pub split_after : Bytes → List Bytes
split_after [] = [] ∷ []
split_after (c ∷ s) =
    let rest = split_after s in if c == newline then (c ∷ []) ∷ rest else on_line c rest

-- The lines without the last, if it is empty.
unfoldable pub drop_empty : List Bytes → List Bytes
drop_empty [] = []
drop_empty ([] ∷ []) = []
drop_empty ((c ∷ l) ∷ []) = (c ∷ l) ∷ []
drop_empty (l ∷ m ∷ ls) = l ∷ drop_empty (m ∷ ls)

-- `splitLines`
unfoldable pub split_lines : Bytes → List Bytes
unfolding split_after drop_empty
split_lines [] = []
split_lines (c ∷ s) = drop_empty (split_after (c ∷ s))

-- `hasNL`
unfoldable pub has_nl : Bytes → Bool
has_nl s = elim (last? s) [ none ↦ false | some c ↦ c == newline ]

module _ (u : Unicode) where
  -- `strings.TrimRightFunc(s, unicode.IsSpace)` on runes, which are the same from either end
  unfoldable pub trim_right : List ℕ → List ℕ
  trim_right [] = []
  trim_right (r ∷ rs) = elim (trim_right rs) [
    | [] ↦ if u.is_space r then [] else r ∷ []
    | q ∷ qs ↦ r ∷ q ∷ qs
  ]

  -- The loop of `collapseSpace`.
  unfoldable pub collapse : Bool → List ℕ → List ℕ
  collapse prev_space [] = []
  collapse prev_space (r ∷ rs) =
      let rest = collapse (u.is_space r) rs in
      if u.is_space r then (if prev_space then rest else b' ' ∷ rest) else r ∷ rest

  unfoldable pub collapse_text : Bytes → Bytes
  unfolding trim_right collapse runes encode
  collapse_text s = encode (collapse false (trim_right (runes s)))

  -- `collapseSpace`
  unfoldable pub collapse_space : Bytes → Bytes
  unfolding has_nl collapse_text
  collapse_space s = if has_nl s then collapse_text (init s) ++ (newline ∷ []) else collapse_text s

  unfoldable pub normalize_line : Bool → Bool → Bytes → Bytes
  unfolding collapse_space
  normalize_line ignore_case ignore_space l =
      let s = if ignore_space then collapse_space l else l in
      if ignore_case then u.to_lower s else s

  -- `normalizeLines`
  unfoldable pub normalize_lines : Bool → Bool → List Bytes → List Bytes
  unfolding normalize_line
  normalize_lines ignore_case ignore_space ls =
      if not ignore_case && not ignore_space
      then ls
      else map (normalize_line ignore_case ignore_space) ls
