-- ===== src/S3fs/Unixmeta.antt =====
-- s3fs/unixmeta/unixmeta.go: the attributes of a file as string metadata of an object. A mode is a
-- number whose bits are read by division; `|=` of bits that are clear is the sum.
pub mod Mode
pub mod RoundTrip
pub mod Lookup
use kefka.Common.{
  ℕ, zero, suc, ◌+◌, ◌-◌, ◌*◌, ◌/◌, ◌%◌, ◌^◌, ◌≤◌, ◌<◌, ◌≡◌, refl, sym, ap, ◌∙◌, ◌≢◌, ◌↔◌, ◌⊎◌, inl,
  inr, Bool, true, false, not, ◌&&◌, ◌||◌, Option, none, some, List, [], ◌∷◌, ◌++◌, map, append-nil,
  append_assoc, arith, ltb, leb, ◌==◌, if◌then◌else◌, ==_iff, Bool-cases, Option-cases, length,
  take, drop, replicate, last?, init, length-append, length-take, length-drop, length-replicate,
  Bytes, codes, equal, equal_iff, has_prefix, trim_prefix, contains, within,
}
use kefka.Common.Int.{ℤ, pos, negsuc}
use kefka.FileMode.{
  has_bit, perm, mode_dir, mode_symlink, mode_device, mode_named_pipe, mode_socket, mode_setuid,
  mode_setgid, mode_char_device, mode_sticky,
}
use kefka.Strconv.{format_uint, format_int, parse_uint, parse_int64}
use kefka.Net.Url.{query_escape, query_unescape}

-- time.Time, as the code uses it: the seconds of `Unix` and the nanoseconds within the second.
pub record Time : Type 0 where
  pub seconds : ℤ
  pub nanoseconds : ℕ

pub record Attrs : Type 0 where
  pub uid : ℕ
  pub gid : ℕ
  pub mode : ℕ
  pub rdev : ℕ
  pub mtime : Time
  pub symlink_target : Bytes

-- the POSIX type bits, as a multiple of 2 ^ 12
abbrev pub posix_dir : ℕ
posix_dir = 4

abbrev pub posix_symlink : ℕ
posix_symlink = 10

abbrev pub posix_char : ℕ
posix_char = 2

abbrev pub posix_block : ℕ
posix_block = 6

abbrev pub posix_fifo : ℕ
posix_fifo = 1

abbrev pub posix_socket : ℕ
posix_socket = 12

abbrev pub posix_regular : ℕ
posix_regular = 8

-- The value of a bit that is set when the test holds.
abbrev pub bit_if : Bool → ℕ → ℕ
bit_if b k = if b then 2 ^ k else 0

-- the switch in PosixMode
unfoldable pub posix_type : ℕ → ℕ
posix_type m =
    if has_bit m mode_dir
    then posix_dir
    else if has_bit m mode_symlink
    then posix_symlink
    else if has_bit m mode_device && has_bit m mode_char_device
    then posix_char
    else if has_bit m mode_device
    then posix_block
    else if has_bit m mode_named_pipe
    then posix_fifo
    else if has_bit m mode_socket
    then posix_socket
    else posix_regular

unfoldable pub posix_mode : ℕ → ℕ
unfolding posix_type
posix_mode m =
    perm m
    + bit_if (has_bit m mode_setuid) 11
    + bit_if (has_bit m mode_setgid) 10
    + bit_if (has_bit m mode_sticky) 9
    + posix_type m * 2 ^ 12

-- the switch in GoFileMode, on the type field
unfoldable pub go_type : ℕ → ℕ
go_type t =
    if t == posix_dir
    then 2 ^ mode_dir
    else if t == posix_symlink
    then 2 ^ mode_symlink
    else if t == posix_char
    then 2 ^ mode_device + 2 ^ mode_char_device
    else if t == posix_block
    then 2 ^ mode_device
    else if t == posix_fifo
    then 2 ^ mode_named_pipe
    else if t == posix_socket
    then 2 ^ mode_socket
    else 0

unfoldable pub go_file_mode : ℕ → ℕ
unfolding go_type
go_file_mode p =
    p % 512
    + bit_if (has_bit p 11) mode_setuid
    + bit_if (has_bit p 10) mode_setgid
    + bit_if (has_bit p 9) mode_sticky
    + go_type (p / 2 ^ 12 % 16)

-- A metadata map, whose keys are distinct.
abbrev pub Metadata : Type 0
Metadata = List (Bytes × Bytes)

unfoldable pub find_key : Bytes → Metadata → Option Bytes
unfolding equal
find_key key [] = none
find_key key ((k, v) ∷ m) = let rest = find_key key m in if equal k key then some v else rest

abbrev pub key_uid : Bytes
key_uid = codes "uid"

abbrev pub key_gid : Bytes
key_gid = codes "gid"

abbrev pub key_mode : Bytes
key_mode = codes "mode"

abbrev pub key_rdev : Bytes
key_rdev = codes "rdev"

abbrev pub key_mtime : Bytes
key_mtime = codes "mtime"

abbrev pub key_symlink_target : Bytes
key_symlink_target = codes "--symlink-target"

-- `m&(ModeDevice|ModeCharDevice) != 0`
abbrev pub is_device : ℕ → Bool
is_device m = has_bit m mode_device || has_bit m mode_char_device

unfoldable pub is_empty : Bytes → Bool
is_empty [] = true
is_empty (c ∷ s) = false

unfoldable pub encode : Attrs → Metadata
unfolding is_empty
encode a =
    (key_uid, format_uint 10 a.uid)
      ∷ (key_gid, format_uint 10 a.gid)
      ∷ (key_mode, format_uint 10 (posix_mode a.mode))
      ∷ (key_mtime, format_int a.mtime.seconds)
      ∷ (if is_device a.mode then (key_rdev, format_uint 10 a.rdev) ∷ [] else [])
    ++ (if is_empty a.symlink_target
        then []
        else (key_symlink_target, query_escape a.symlink_target) ∷ [])

-- The value under a key if the key is there and its text is well formed, and the default if not.
unfoldable pub field {ℓ} : {A : Type ℓ} → (Bytes → Option A) → Option Bytes → A → A
field parse none d = d
field parse (some s) d = elim (parse s) [ none ↦ d | some v ↦ v ]

-- `strconv.ParseUint(s, 0, 32)`
abbrev pub parse_uint32 : Bytes → Option ℕ
parse_uint32 s = parse_uint (2 ^ 32 - 1) s

abbrev pub parse_mode : Bytes → Option ℕ
parse_mode s = elim (parse_uint32 s) [ none ↦ none | some v ↦ some (go_file_mode v) ]

-- with `time.Unix(v, 0)`
abbrev pub parse_time : Bytes → Option Time
parse_time s = elim (parse_int64 s) [
  | none ↦ none
  | some v ↦ some (record { seconds = v; nanoseconds = 0 })
]

unfoldable pub decode : Metadata → Attrs → Attrs
unfolding find_key field
decode meta defaults = record {
  uid = field parse_uint32 (find_key key_uid meta) defaults.uid;
  gid = field parse_uint32 (find_key key_gid meta) defaults.gid;
  mode = field parse_mode (find_key key_mode meta) defaults.mode;
  rdev = field parse_uint32 (find_key key_rdev meta) defaults.rdev;
  mtime = field parse_time (find_key key_mtime meta) defaults.mtime;
  symlink_target = field query_unescape (find_key key_symlink_target meta) defaults.symlink_target;
}
