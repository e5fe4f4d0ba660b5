-- ===== src/FileMode.antt =====
-- `fs.FileMode` of the language's library: a bit set in 32 bits, here a number whose bits are read
-- by division. Bits are added one by one, so `|=` of a constant is the sum where they are clear.
use kefka.Common.{ℕ, ◌+◌, ◌/◌, ◌%◌, ◌^◌, Bool, not, ◌||◌, ◌==◌, if◌then◌else◌}

-- `m & (1 << k) != 0`
abbrev pub has_bit : ℕ → ℕ → Bool
has_bit m k = (m / 2 ^ k) % 2 == 1

-- `m | (1 << k)`
abbrev pub set_bit : ℕ → ℕ → ℕ
set_bit m k = if has_bit m k then m else m + 2 ^ k

-- fs.ModeDir and the others, as the position of their bit
abbrev pub mode_dir : ℕ
mode_dir = 31

abbrev pub mode_symlink : ℕ
mode_symlink = 27

abbrev pub mode_device : ℕ
mode_device = 26

abbrev pub mode_named_pipe : ℕ
mode_named_pipe = 25

abbrev pub mode_socket : ℕ
mode_socket = 24

abbrev pub mode_setuid : ℕ
mode_setuid = 23

abbrev pub mode_setgid : ℕ
mode_setgid = 22

abbrev pub mode_char_device : ℕ
mode_char_device = 21

abbrev pub mode_sticky : ℕ
mode_sticky = 20

abbrev pub mode_irregular : ℕ
mode_irregular = 19

-- `m.Perm()`
abbrev pub perm : ℕ → ℕ
perm m = m % 512

-- `m.IsRegular()`: no type bit is set
abbrev pub is_regular : ℕ → Bool
is_regular m = not (
    has_bit m mode_dir
    || has_bit m mode_symlink
    || has_bit m mode_named_pipe
    || has_bit m mode_socket
    || has_bit m mode_device
    || has_bit m mode_char_device
    || has_bit m mode_irregular)

-- `m.IsDir()`
abbrev pub is_dir : ℕ → Bool
is_dir m = has_bit m mode_dir

-- `m.Type()`: the type bits alone
abbrev pub type_bit : ℕ → ℕ → ℕ
type_bit m k = if has_bit m k then 2 ^ k else 0

unfoldable pub type_bits : ℕ → ℕ
type_bits m =
    type_bit m mode_dir
    + type_bit m mode_symlink
    + type_bit m mode_named_pipe
    + type_bit m mode_socket
    + type_bit m mode_device
    + type_bit m mode_char_device
    + type_bit m mode_irregular
