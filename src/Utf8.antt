-- ===== src/Utf8.antt =====
-- Package unicode/utf8 of the language's library, as the code uses it, and `[]rune(s)`.
use kefka.Common.{
  ℕ, zero, suc, ◌+◌, ◌-◌, ◌*◌, Bool, ◌&&◌, List, [], ◌∷◌, ltb, ◌==◌, if◌then◌else◌, length, drop,
  Bytes, within, ◌++◌, ◌/◌, ◌%◌, ◌||◌,
}

-- utf8.RuneError
abbrev pub rune_error : ℕ
rune_error = 0xfffd

abbrev is_continuation : ℕ → Bool
is_continuation = within 0x80 0xbf

-- Sequences of two, three and four bytes, without the lead byte.
decode_two : ℕ → Bytes → ℕ × ℕ
decode_two a [] = (rune_error, 1)
decode_two a (b ∷ s) =
    if is_continuation b then ((a - 0xc0) * 64 + (b - 0x80), 2) else (rune_error, 1)

decode_three : ℕ → Bytes → ℕ × ℕ
decode_three a (b ∷ c ∷ s) =
    if within (if a == 0xe0 then 0xa0 else 0x80) (if a == 0xed then 0x9f else 0xbf) b
      && is_continuation c
    then ((a - 0xe0) * 4096 + (b - 0x80) * 64 + (c - 0x80), 3)
    else (rune_error, 1)
decode_three a _ = (rune_error, 1)

decode_four : ℕ → Bytes → ℕ × ℕ
decode_four a (b ∷ c ∷ d ∷ s) =
    if within (if a == 0xf0 then 0x90 else 0x80) (if a == 0xf4 then 0x8f else 0xbf) b
      && is_continuation c
      && is_continuation d
    then ((a - 0xf0) * 262144 + (b - 0x80) * 4096 + (c - 0x80) * 64 + (d - 0x80), 4)
    else (rune_error, 1)
decode_four a _ = (rune_error, 1)

-- `utf8.DecodeRuneInString`: the first rune and the number of bytes that it takes
unfoldable pub decode_rune : Bytes → ℕ × ℕ
unfolding decode_two decode_three decode_four
decode_rune [] = (rune_error, 0)
decode_rune (a ∷ s) =
    if ltb a 0x80
    then (a, 1)
    else if within 0xc2 0xdf a
    then decode_two a s
    else if within 0xe0 0xef a
    then decode_three a s
    else if within 0xf0 0xf4 a
    then decode_four a s
    else (rune_error, 1)

runes_from : ℕ → Bytes → List ℕ
runes_from zero s = []
runes_from (suc f) [] = []
runes_from (suc f) (a ∷ s) = let (r, n) = decode_rune (a ∷ s) in r ∷ runes_from f (drop n (a ∷ s))

-- `[]rune(s)`
unfoldable pub runes : Bytes → List ℕ
unfolding runes_from decode_rune
runes s = runes_from (length s) s

-- `WriteRune` and the conversion of a rune to a string. What is no rune, surrogates included, is
-- written as `rune_error`.
unfoldable pub encode_rune : ℕ → Bytes
encode_rune r =
    if ltb r 0x80
    then r ∷ []
    else if ltb r 0x800
    then (0xc0 + r / 64) ∷ (0x80 + r % 64) ∷ []
    else if within 0xd800 0xdfff r || ltb 0x10ffff r
    then 0xef ∷ 0xbf ∷ 0xbd ∷ []
    else if ltb r 0x10000
    then (0xe0 + r / 4096) ∷ (0x80 + (r / 64) % 64) ∷ (0x80 + r % 64) ∷ []
    else (0xf0 + r / 262144)
      ∷ (0x80 + (r / 4096) % 64)
      ∷ (0x80 + (r / 64) % 64)
      ∷ (0x80 + r % 64)
      ∷ []

-- `string(runes)`
unfoldable pub encode : List ℕ → Bytes
unfolding encode_rune
encode [] = []
encode (r ∷ rs) = encode_rune r ++ encode rs
