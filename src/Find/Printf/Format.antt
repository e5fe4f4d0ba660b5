-- ===== src/Find/Printf/Format.antt =====
-- command/internal/find/printf.go, lines 18 to 117 and 218 to 262: what a -printf format writes
-- about one entry.
use kefka.Common.{
  ℕ, zero, suc, ◌-◌, Bool, false, not, Option, none, some, [], ◌∷◌, ◌++◌, ◌==◌, if◌then◌else◌,
  length, take, drop, replicate, last?, Bytes, codes, trim_prefix, contains,
}
use kefka.FileMode.{has_bit, perm}
use kefka.Utf8.{decode_rune, encode_rune}
use kefka.Strconv.{format_uint}
use kefka.Find.Printf.{Width, parse_width_precision, process_escapes, apply_width}

pub record PrintfData : Type 0 where
  pub path : Bytes
  pub name : Bytes
  pub size : ℕ
  pub mtime : ℕ
  pub mode : ℕ
  pub is_dir : Bool
  pub depth : ℕ
  pub starting_point : Bytes

-- What the code uses of package time: the date `ctime` style, the seconds with their fraction, and
-- the fields of the local time.
pub record Clock : Type 0 where
  pub ctime : ℕ → Bytes
  pub seconds_since_epoch : ℕ → Bytes
  pub year : ℕ → ℕ
  pub month : ℕ → ℕ
  pub day : ℕ → ℕ
  pub hour : ℕ → ℕ
  pub minute : ℕ → ℕ
  pub second : ℕ → ℕ

-- `%0kd` of a number
unfoldable pub zero_padded : ℕ → ℕ → Bytes
unfolding format_uint
zero_padded k n = let s = format_uint 10 n in replicate (k - length s) b'0' ++ s

-- `path[:idx]` at the last slash; `none` if there is none, or only the first byte is one.
unfoldable pub before_last_slash : Bytes → Option Bytes
before_last_slash [] = none
before_last_slash (c ∷ s) = elim (before_last_slash s) [
  | some d ↦ some (c ∷ d)
  | none ↦ if contains (take 1 s) b'/' then some (c ∷ []) else none
]

unfoldable pub has_suffix_slash : Bytes → Bool
has_suffix_slash s = elim (last? s) [ none ↦ false | some c ↦ c == b'/' ]

-- `%P`
unfoldable pub relative_path : Bytes → Bytes → Bytes
unfolding has_suffix_slash trim_prefix
relative_path sp path =
    let value = trim_prefix sp path in
    if not (has_suffix_slash sp) then trim_prefix (codes "/") value else value

-- the letter of `rwx` for bit `k` of the permissions
abbrev mode_letter : ℕ → ℕ → ℕ → ℕ
mode_letter m k letter = if has_bit m k then letter else b'-'

unfoldable pub format_mode : ℕ → Bool → Bytes
format_mode mode is_dir =
    let m = perm mode in
    (if is_dir then b'd' else b'-')
    ∷ mode_letter m 8 b'r'
    ∷ mode_letter m 7 b'w'
    ∷ mode_letter m 6 b'x'
    ∷ mode_letter m 5 b'r'
    ∷ mode_letter m 4 b'w'
    ∷ mode_letter m 3 b'x'
    ∷ mode_letter m 2 b'r'
    ∷ mode_letter m 1 b'w'
    ∷ mode_letter m 0 b'x'
    ∷ []

module _ (clock : Clock) where
  unfoldable pub format_time_field : ℕ → ℕ → Bytes
  unfolding format_uint zero_padded encode_rune
  format_time_field t field =
      if field == b'@'
      then clock.seconds_since_epoch t
      else if field == b'Y'
      then format_uint 10 (clock.year t)
      else if field == b'm'
      then zero_padded 2 (clock.month t)
      else if field == b'd'
      then zero_padded 2 (clock.day t)
      else if field == b'H'
      then zero_padded 2 (clock.hour t)
      else if field == b'M'
      then zero_padded 2 (clock.minute t)
      else if field == b'S'
      then zero_padded 2 (clock.second t)
      else if field == b'T'
      then zero_padded 2 (clock.hour t)
        ++ (b':' ∷ zero_padded 2 (clock.minute t))
        ++ (b':' ∷ zero_padded 2 (clock.second t))
      else if field == b'F'
      then zero_padded 4 (clock.year t)
        ++ (b'-' ∷ zero_padded 2 (clock.month t))
        ++ (b'-' ∷ zero_padded 2 (clock.day t))
      else codes "%T" ++ encode_rune field

  -- The value of a directive that is not `%T`; `none` for an unknown one.
  unfoldable pub directive_value : ℕ → PrintfData → Option Bytes
  unfolding before_last_slash relative_path format_uint format_mode
  directive_value directive d =
      if directive == b'f'
      then some d.name
      else if directive == b'h'
      then some (elim (before_last_slash d.path) [ some dir ↦ dir | none ↦ codes "." ])
      else if directive == b'p'
      then some d.path
      else if directive == b'P'
      then some (relative_path d.starting_point d.path)
      else if directive == b's'
      then some (format_uint 10 d.size)
      else if directive == b'd'
      then some (format_uint 10 d.depth)
      else if directive == b'm'
      then some (format_uint 8 (perm d.mode))
      else if directive == b'M'
      then some (format_mode d.mode d.is_dir)
      else if directive == b't'
      then some (clock.ctime d.mtime)
      else none

  -- `%T` at the end of a format is written as it is.
  unfoldable pub time_value : Bytes → PrintfData → Bytes
  unfolding format_time_field
  time_value [] d = codes "%T"
  time_value (c ∷ s) d = format_time_field d.mtime (decode_rune (c ∷ s)).0

  -- What is written for the directive at `s`, behind the width `w`, and what follows it. `spec` is
  -- the text of the whole directive with its width, from the percent sign on.
  unfoldable pub write_directive : Bytes → Width → Bytes → PrintfData → Bytes × Bytes
  write_directive spec w [] d = (b'%' ∷ [], [])
  write_directive spec w (c ∷ s) d =
      let (directive, size) = decode_rune (c ∷ s) in
      let rest = drop size (c ∷ s) in
      if directive == b'T'
      then (apply_width (time_value rest d) w, drop ((decode_rune rest).1) rest)
      else (
        elim (directive_value directive d) [
          | some value ↦ apply_width value w
          | none ↦ take (length spec - length rest) spec
        ],
        rest,
      )

  -- What `parseWidthPrecision` returns with an error, which `formatPrintf` does not look at: no
  -- width, the precision 0 and nothing read.
  unfoldable pub width_or_zero : Bytes → Width × Bytes
  width_or_zero s = elim (parse_width_precision s) [
    | some r ↦ r
    | none ↦ (record { left = false; width = 0; precision = some 0 }, s)
  ]

  -- The loop of `formatPrintf`; each round takes a byte at least.
  unfoldable pub format_loop : ℕ → Bytes → PrintfData → Bytes
  format_loop zero s d = []
  format_loop (suc f) [] d = []
  format_loop (suc f) (c ∷ []) d = c ∷ []
  format_loop (suc f) (c ∷ b ∷ s) d =
      let plain = c ∷ format_loop f (b ∷ s) d in
      let literal = b'%' ∷ format_loop f s d in
      let (w, behind) = width_or_zero (b ∷ s) in
      let (out, rest) = write_directive (c ∷ b ∷ s) w behind d in
      let directive = out ++ format_loop f rest d in
      if not (c == b'%') then plain else if b == b'%' then literal else directive

  unfoldable pub format_printf : Bytes → PrintfData → Bytes
  unfolding format_loop process_escapes write_directive width_or_zero parse_width_precision
      directive_value time_value apply_width decode_rune
  format_printf format d = let s = process_escapes format in format_loop (length s) s d
