-- ===== src/Find/Printf.antt =====
-- command/internal/find/printf.go, lines 12 to 16, 119 to 216 and 264 to 343: the escapes of a
-- -printf format, its widths, and the check that is made of it before the walk. Where the source
-- moves an index into the format, the model has the bytes from there on.
pub mod Escapes
pub mod Format
pub mod Checked
use kefka.Common.{
  ℕ, zero, suc, ◌+◌, ◌-◌, ◌*◌, ◌/◌, ◌%◌, ◌^◌, ◌≤◌, ◌<◌, ◌≡◌, refl, sym, ap, ◌∙◌, ◌≢◌, ◌↔◌, ◌⊎◌, inl,
  inr, Bool, true, false, not, ◌&&◌, ◌||◌, Option, none, some, List, [], ◌∷◌, ◌++◌, map, append-nil,
  append_assoc, arith, ltb, leb, ◌==◌, if◌then◌else◌, ==_iff, Bool-cases, Option-cases, length,
  take, drop, replicate, last?, init, length-append, length-take, length-drop, length-replicate,
  Bytes, codes, equal, equal_iff, has_prefix, trim_prefix, contains, within,
}
use kefka.Find.Glob.{is_hex}
use kefka.Find.Operands.{digits_value}
use kefka.Utf8.{decode_rune, encode_rune, runes, encode}

abbrev pub max_format_bytes : ℕ
max_format_bytes = 10 * 1024 * 1024

abbrev pub hex_digit : ℕ → ℕ
hex_digit c =
    if within b'0' b'9' c
    then c - b'0'
    else if within b'a' b'f' c
    then c - b'a' + 10
    else c - b'A' + 10

-- The value of at most `k` octal digits, and what follows them.
octal_run : ℕ → ℕ → Bytes → ℕ × Bytes
octal_run zero n s = (n, s)
octal_run (suc k) n [] = (n, [])
octal_run (suc k) n (c ∷ s) =
    if within b'0' b'7' c then octal_run k (n * 8 + (c - b'0')) s else (n, c ∷ s)

-- The value of at most `k` hexadecimal digits, and what follows them.
hex_run : ℕ → ℕ → Bytes → ℕ × Bytes
hex_run zero n s = (n, s)
hex_run (suc k) n [] = (n, [])
hex_run (suc k) n (c ∷ s) = if is_hex c then hex_run k (n * 16 + hex_digit c) s else (n, c ∷ s)

-- `\xHH`
hex_escape : Bytes → Bytes × Bytes
hex_escape (a ∷ b ∷ s) =
    if is_hex a && is_hex b
    then ((hex_digit a * 16 + hex_digit b) ∷ [], s)
    else (b'\\' ∷ [], b'x' ∷ a ∷ b ∷ s)
hex_escape s = (b'\\' ∷ [], b'x' ∷ s)

-- `\u` and `\U`, with at most `limit` digits
rune_escape : ℕ → ℕ → Bytes → Bytes × Bytes
rune_escape next limit [] = (b'\\' ∷ next ∷ [], [])
rune_escape next limit (c ∷ s) =
    let (n, rest) = hex_run limit 0 (c ∷ s) in
    if is_hex c then (encode_rune n, rest) else (b'\\' ∷ next ∷ [], c ∷ s)

octal_escape : Bytes → Bytes × Bytes
octal_escape s = let (n, rest) = octal_run 3 0 s in (n % 256 ∷ [], rest)

-- What is written for a backslash and the byte `next` behind it, and what is left to expand.
unfoldable pub escape_at : ℕ → Bytes → Bytes × Bytes
unfolding octal_escape octal_run hex_escape rune_escape hex_run is_hex encode_rune
escape_at next s =
    if next == b'n'
    then (10 ∷ [], s)
    else if next == b't'
    then (9 ∷ [], s)
    else if next == b'r'
    then (13 ∷ [], s)
    else if next == b'\\'
    then (b'\\' ∷ [], s)
    else if next == b'a'
    then (7 ∷ [], s)
    else if next == b'b'
    then (8 ∷ [], s)
    else if next == b'f'
    then (12 ∷ [], s)
    else if next == b'v'
    then (11 ∷ [], s)
    else if next == b'e' || next == b'E'
    then (27 ∷ [], s)
    else if within b'0' b'7' next
    then octal_escape (next ∷ s)
    else if next == b'x'
    then hex_escape s
    else if next == b'u'
    then rune_escape next 4 s
    else if next == b'U'
    then rune_escape next 8 s
    else (b'\\' ∷ [], next ∷ s)

-- The loop of `processEscapes`; each round takes a byte at least.
unfoldable pub expand : ℕ → Bytes → Bytes
unfolding escape_at
expand zero s = []
expand (suc f) [] = []
expand (suc f) (c ∷ []) = c ∷ []
expand (suc f) (c ∷ next ∷ s) =
    let plain = c ∷ expand f (next ∷ s) in
    let (out, rest) = escape_at next s in
    let escaped = out ++ expand f rest in if not (c == b'\\') then plain else escaped

unfoldable pub process_escapes : Bytes → Bytes
unfolding expand
process_escapes s = expand (length s) s

-- A width with its side and a precision; `precision` is `none` where the source has -1.
pub record Width : Type 0 where
  pub left : Bool
  pub width : ℕ
  pub precision : Option ℕ

-- The local function `digits`; `none` is `errFormatLimit`.
unfoldable pub digits : ℕ → Bytes → Option (ℕ × Bytes)
digits n [] = some (n, [])
digits n (c ∷ s) =
    let n' = n * 10 + (c - b'0') in
    if not (within b'0' b'9' c)
    then some (n, c ∷ s)
    else if ltb max_format_bytes n'
    then none
    else digits n' s

-- the precision behind a width
unfoldable pub parse_precision : Bool → Option (ℕ × Bytes) → Option (Width × Bytes)
parse_precision left none = none
parse_precision left (some (width, [])) =
    some (record { left = left; width = width; precision = none }, [])
parse_precision left (some (width, c ∷ s)) =
    if c == b'.'
    then elim (digits 0 s) [
      | none ↦ none
      | some (precision, rest) ↦
          some (record { left = left; width = width; precision = some precision }, rest)
    ]
    else some (record { left = left; width = width; precision = none }, c ∷ s)

-- The bytes behind the width take the place of `consumed`; `none` is an error.
unfoldable pub parse_width_precision : Bytes → Option (Width × Bytes)
unfolding parse_precision digits
parse_width_precision [] = parse_precision false (digits 0 [])
parse_width_precision (c ∷ s) =
    if c == b'-'
    then parse_precision true (digits 0 s)
    else parse_precision false (digits 0 (c ∷ s))

-- What is left behind a directive: `%Tk` takes the field `k` too.
unfoldable pub after_directive : Bytes → Bytes
unfolding decode_rune
after_directive s =
    let (directive, size) = decode_rune s in
    let rest = drop size s in if directive == b'T' then drop ((decode_rune rest).1) rest else rest

-- The loop of `checkPrintf`; each round takes a byte at least, and `false` is its error.
unfoldable pub check_loop : ℕ → Bytes → Bool
check_loop zero s = true
check_loop (suc f) [] = true
check_loop (suc f) (c ∷ []) = true
check_loop (suc f) (c ∷ d ∷ s) =
    let plain = check_loop f (d ∷ s) in
    let literal = check_loop f s in
    let directive : Bool = elim (parse_width_precision (d ∷ s)) [
      | none ↦ false
      | some (w, rest) ↦ check_loop f (after_directive rest)
    ] in
    if not (c == b'%') then plain else if d == b'%' then literal else directive

unfoldable pub check_printf : Bytes → Bool
unfolding process_escapes check_loop parse_width_precision after_directive
check_printf format = let s = process_escapes format in check_loop (length s) s

-- `applyWidth` writes a value that is neither cut nor padded as it is.
unfoldable pub apply_width : Bytes → Width → Bytes
unfolding runes encode
apply_width value w =
    let cut = elim w.precision as (λ _. Bytes) [
      | none ↦ value
      | some n ↦ if ltb n (length (runes value)) then encode (take n (runes value)) else value
    ] in
    let pad = replicate (w.width - length (runes cut)) b' ' in
    if w.left then cut ++ pad else pad ++ cut
