-- ===== src/Find/Operands/Bounds.antt =====
-- command/internal/find/parser.go: the bounds of `parseSafeUint` and `parseSize`.
use kefka.Common.{ℕ, ◌*◌, ◌≤◌, ◌≡◌, [], ◌∷◌, Option, none, some, Bytes, arith}
use kefka.Find.Syntax.{Comparison, expr_size}
use kefka.Find.Operands.{
  max_safe_integer, parse_int, at_most_safe, parse_safe_uint, size_multiplier, split_comparison,
  split_unit, sized, parse_size,
}

at_most_safe-le : (o : Option ℕ) {n : ℕ} → at_most_safe o ≡ some n → n ≤ max_safe_integer
unfolding at_most_safe
at_most_safe-le none e = ground arith
at_most_safe-le (some m) e = ground arith

pub parse_safe_uint-le : (s : Bytes) {n : ℕ} → parse_safe_uint s ≡ some n → n ≤ max_safe_integer
unfolding parse_safe_uint
parse_safe_uint-le [] e = ground arith
parse_safe_uint-le (c ∷ s) e = ground (arith, at_most_safe-le (parse_int 10 (c ∷ s)))

sized-fits :
    (cmp c : Comparison) (unit u : ℕ) (o : Option ℕ) {value : ℕ}
    → sized cmp unit o ≡ some (expr_size c value u)
    → value * size_multiplier u ≤ max_safe_integer
unfolding sized size_multiplier
sized-fits cmp c unit u none e = ground arith
sized-fits cmp c unit u (some n) e = ground arith

-- A size that -size accepts, in the unit that it was written in, is at most 2 ^ 53 - 1 bytes.
pub parse_size_bounds :
    (raw : Bytes) (c : Comparison) (u : ℕ) {value : ℕ}
    → parse_size raw ≡ some (expr_size c value u)
    → value * size_multiplier u ≤ max_safe_integer
unfolding parse_size
parse_size_bounds raw c u e =
    let (cmp, rest) = split_comparison raw in
    let (unit, digits) = split_unit rest in sized-fits cmp c unit u (parse_safe_uint digits) e
