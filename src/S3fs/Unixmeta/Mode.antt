-- ===== src/S3fs/Unixmeta/Mode.antt =====
-- s3fs/unixmeta/unixmeta.go: PosixMode and GoFileMode together.
use kefka.Common.{◌%◌, ◌+◌, ◌/◌, ◌*◌, ◌∙◌, ℕ, ◌^◌, ◌<◌, ◌≡◌, ◌⊎◌, arith, Bool-cases, inl, inr}
use kefka.S3fs.Unixmeta.{posix_mode, posix_type, bit_if, go_file_mode, go_type, has_bit}

-- The type field of a mode_t, one that the code knows.
abbrev KnownType : ℕ → Type 0
KnownType t = (t ≡ 1) ⊎ (t ≡ 2) ⊎ (t ≡ 4) ⊎ (t ≡ 6) ⊎ (t ≡ 8) ⊎ (t ≡ 10) ⊎ (t ≡ 12)

-- A mode_t of 16 bits that names a type of file.
abbrev pub PosixMode : ℕ → Type 0
PosixMode p = KnownType (p / 2 ^ 12)

-- A mode with no type bit.
abbrev Plain : ℕ → Type 0
Plain x = (x < 2 ^ 24) × (x / 2 ^ 21 % 2 ≡ 0)

posix_type-go_type : (x t : ℕ) → Plain x → KnownType t → posix_type (x + go_type t) ≡ t
unfolding posix_type go_type
posix_type-go_type x t h (inl e) = rw e (ground arith)
posix_type-go_type x t h (inr (inl e)) = rw e (ground arith)
posix_type-go_type x t h (inr (inr (inl e))) = rw e (ground arith)
posix_type-go_type x t h (inr (inr (inr (inl e)))) = rw e (ground arith)
posix_type-go_type x t h (inr (inr (inr (inr (inl e))))) = rw e (ground arith)
posix_type-go_type x t h (inr (inr (inr (inr (inr (inl e)))))) = rw e (ground arith)
posix_type-go_type x t h (inr (inr (inr (inr (inr (inr e)))))) = rw e (ground arith)

-- The value of a type adds to no bit but those of the type.
go_type-bits :
    (t : ℕ) → (go_type t % 2 ^ 21 ≡ 0) × ((go_type t / 2 ^ 21 ≡ 33) ⊎ (go_type t / 2 ^ 21 % 8 ≡ 0))
unfolding go_type
go_type-bits t = ground arith

has_bit-go_type :
    (x t : ℕ)
    → Plain x
    → ((x + go_type t) % 512 ≡ x % 512)
      × ((x + go_type t) / 2 ^ 23 % 2 ≡ x / 2 ^ 23 % 2)
      × ((x + go_type t) / 2 ^ 22 % 2 ≡ x / 2 ^ 22 % 2)
      × ((x + go_type t) / 2 ^ 20 % 2 ≡ x / 2 ^ 20 % 2)
has_bit-go_type x t (h, k) =
    let (low, high) = go_type-bits t in
    elim high [
      | inl e ↦ (omega arith, omega arith, omega arith, omega arith)
      | inr e ↦ (omega arith, omega arith, omega arith, omega arith)
    ]

bit_if-digit : (p k i : ℕ) → bit_if (has_bit p k) i ≡ p / 2 ^ k % 2 * 2 ^ i
bit_if-digit p k i = elim (Bool-cases (has_bit p k)) [
  | inl e ↦ let one : p / 2 ^ k % 2 ≡ 1 = ground arith in rw (e, one) (omega arith)
  | inr e ↦ let none_set : p / 2 ^ k % 2 ≡ 0 = ground arith in rw (e, none_set) (omega arith)
]

go_file_mode-parts :
    (p : ℕ)
    → go_file_mode p
      ≡ p % 512
        + p / 2 ^ 11 % 2 * 2 ^ 23
        + p / 2 ^ 10 % 2 * 2 ^ 22
        + p / 2 ^ 9 % 2 * 2 ^ 20
        + go_type (p / 2 ^ 12 % 16)
unfolding go_file_mode
go_file_mode-parts p = rw (bit_if-digit p 11 23, bit_if-digit p 10 22, bit_if-digit p 9 20)

posix_mode-parts :
    (m : ℕ)
    → posix_mode m
      ≡ m % 512
        + m / 2 ^ 23 % 2 * 2 ^ 11
        + m / 2 ^ 22 % 2 * 2 ^ 10
        + m / 2 ^ 20 % 2 * 2 ^ 9
        + posix_type m * 2 ^ 12
unfolding posix_mode
posix_mode-parts m = rw (bit_if-digit m 23 11, bit_if-digit m 22 10, bit_if-digit m 20 9)

posix_mode-go_type :
    (x t : ℕ)
    → Plain x
    → KnownType t
    → posix_mode (x + go_type t)
      ≡ x % 512
        + x / 2 ^ 23 % 2 * 2 ^ 11
        + x / 2 ^ 22 % 2 * 2 ^ 10
        + x / 2 ^ 20 % 2 * 2 ^ 9
        + t * 2 ^ 12
posix_mode-go_type x t h k =
    let (low, uid, gid, sticky) = has_bit-go_type x t h in
    posix_mode-parts (x + go_type t) ∙ rw (low, uid, gid, sticky, posix_type-go_type x t h k)

-- Three bits and the permissions, each where the language has it, are read as they were set.
Plain-parts :
    (q a b c : ℕ)
    → q < 512
    → a < 2
    → b < 2
    → c < 2
    → Plain (q + a * 2 ^ 23 + b * 2 ^ 22 + c * 2 ^ 20)
      × ((q + a * 2 ^ 23 + b * 2 ^ 22 + c * 2 ^ 20) % 512 ≡ q)
      × ((q + a * 2 ^ 23 + b * 2 ^ 22 + c * 2 ^ 20) / 2 ^ 23 % 2 ≡ a)
      × ((q + a * 2 ^ 23 + b * 2 ^ 22 + c * 2 ^ 20) / 2 ^ 22 % 2 ≡ b)
      × ((q + a * 2 ^ 23 + b * 2 ^ 22 + c * 2 ^ 20) / 2 ^ 20 % 2 ≡ c)
Plain-parts q a b c h i j k =
    ((omega arith, omega arith), omega arith, omega arith, omega arith, omega arith)

-- Reading a mode_t as a mode of the language and writing it again gives the same mode_t.
pub posix_mode-go_file_mode : (p : ℕ) → PosixMode p → posix_mode (go_file_mode p) ≡ p
posix_mode-go_file_mode p h =
    let field : p / 2 ^ 12 % 16 ≡ p / 2 ^ 12 = ground arith in
    let (clear, low, uid, gid, sticky) =
      Plain-parts (p % 512) (p / 2 ^ 11 % 2) (p / 2 ^ 10 % 2) (p / 2 ^ 9 % 2) (omega arith)
        (omega arith) (omega arith) (omega arith) in
    rw (go_file_mode-parts p, field)
      (posix_mode-go_type _ (p / 2 ^ 12) clear h ∙ rw (low, uid, gid, sticky) (omega arith))

posix_type-KnownType : (m : ℕ) → KnownType (posix_type m)
unfolding posix_type
posix_type-KnownType m = ground arith

-- PosixMode writes a type of file for every mode, in 16 bits.
pub posix_mode-PosixMode : (m : ℕ) → PosixMode (posix_mode m)
posix_mode-PosixMode m =
    let field : posix_mode m / 2 ^ 12 ≡ posix_type m = rw (posix_mode-parts m) (omega arith) in
    rw field (posix_type-KnownType m)

pub PosixMode-lt : (p : ℕ) → PosixMode p → p < 2 ^ 32
PosixMode-lt p h = ground arith
