-- ===== src/Find/Operands.antt =====
-- command/internal/find/parser.go, lines 323 to 417: the operands of -mtime, -size, -perm and of
-- the depth options.
pub mod Bounds
use kefka.Common.{
  ℕ, ◌+◌, ◌-◌, ◌*◌, ◌/◌, ◌^◌, Bool, true, false, not, ◌&&◌, ◌||◌, List, [], ◌∷◌, Option, none, some,
  Bytes, codes, ltb, leb, ◌==◌, if◌then◌else◌, equal, contains, within, length, last?, init,
}
use kefka.Find.Syntax.{
  Comparison, cmp_exact, cmp_more, cmp_less, PermMatch, perm_exact, perm_all, perm_any, Expr,
  expr_size, expr_perm,
}

-- Number.MAX_SAFE_INTEGER of JavaScript
abbrev pub max_safe_integer : ℕ
max_safe_integer = 2 ^ 53 - 1

unfoldable pub split_comparison : Bytes → Comparison × Bytes
split_comparison [] = (cmp_exact, [])
split_comparison (c ∷ raw) =
    if c == b'+'
    then (cmp_more, raw)
    else if c == b'-'
    then (cmp_less, raw)
    else (cmp_exact, c ∷ raw)

-- every byte of `s` is between `lo` and `hi`
unfoldable pub all_within : ℕ → ℕ → Bytes → Bool
all_within lo hi [] = true
all_within lo hi (c ∷ s) = within lo hi c && all_within lo hi s

-- the value of a run of digits in `base`, most significant first
unfoldable pub digits_value : ℕ → ℕ → Bytes → ℕ
digits_value base acc [] = acc
digits_value base acc (c ∷ s) = digits_value base (acc * base + (c - b'0')) s

-- `strconv.ParseInt` of a non-empty run of digits of `base`, with 64 bits
unfoldable pub parse_int : ℕ → Bytes → Option ℕ
unfolding digits_value
parse_int base s = let n = digits_value base 0 s in if ltb n (2 ^ 63) then some n else none

-- the test on what `strconv.ParseInt` returned
unfoldable pub at_most_safe : Option ℕ → Option ℕ
at_most_safe none = none
at_most_safe (some n) = if ltb max_safe_integer n then none else some n

-- Only ASCII digits, and no value above `max_safe_integer`.
unfoldable pub parse_safe_uint : Bytes → Option ℕ
unfolding all_within parse_int at_most_safe
parse_safe_uint [] = none
parse_safe_uint (c ∷ s) =
    if not (all_within b'0' b'9' (c ∷ s)) then none else at_most_safe (parse_int 10 (c ∷ s))

unfoldable pub size_multiplier : ℕ → ℕ
size_multiplier unit =
    if unit == b'c'
    then 1
    else if unit == b'k'
    then 1024
    else if unit == b'M'
    then 1024 * 1024
    else if unit == b'G'
    then 1024 * 1024 * 1024
    else 512

-- the unit at the end of a size, `b` where there is none, and what stands before it
unfoldable pub split_unit : Bytes → ℕ × Bytes
unfolding contains
split_unit rest = elim (last? rest) [
  | none ↦ (b'b', rest)
  | some c ↦ if contains (codes "ckMGb") c then (c, init rest) else (b'b', rest)
]

-- the test on what `parse_safe_uint` returned
unfoldable pub sized : Comparison → ℕ → Option ℕ → Option Expr
unfolding size_multiplier
sized cmp unit none = none
sized cmp unit (some value) =
    if ltb (max_safe_integer / size_multiplier unit) value
    then none
    else some (expr_size cmp value unit)

unfoldable pub parse_size : Bytes → Option Expr
unfolding split_comparison split_unit parse_safe_uint sized
parse_size raw =
    let (cmp, rest) = split_comparison raw in
    let (unit, digits) = split_unit rest in sized cmp unit (parse_safe_uint digits)

unfoldable pub split_perm : Bytes → PermMatch × Bytes
split_perm [] = (perm_exact, [])
split_perm (c ∷ raw) =
    if c == b'-'
    then (perm_all, raw)
    else if c == b'/'
    then (perm_any, raw)
    else (perm_exact, c ∷ raw)

unfoldable pub perm_mode : PermMatch → Option ℕ → Option Expr
perm_mode m none = none
perm_mode m (some mode) = some (expr_perm m mode)

unfoldable pub parse_perm : Bytes → Option Expr
unfolding split_perm all_within parse_int perm_mode
parse_perm raw =
    let (m, digits) = split_perm raw in
    if ltb (length digits) 1 || ltb 4 (length digits)
    then none
    else if not (all_within b'0' b'7' digits)
    then none
    else perm_mode m (parse_int 8 digits)

unfoldable pub count_braces : List Bytes → ℕ
unfolding equal
count_braces [] = 0
count_braces (p ∷ parts) = (if equal p (codes "{}") then 1 else 0) + count_braces parts
