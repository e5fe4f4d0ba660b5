-- ===== src/S3fs/Temporary.antt =====
-- s3fs/tempfs.go, lines 25 to 179: a temporary file in memory, which one handle writes while another
-- reads it. The handles share the buffer, so it is an argument and a result of their operations.
pub mod Streaming
pub mod Names
use kefka.Common.{
  ℕ, zero, suc, ◌+◌, ◌-◌, ◌*◌, ◌/◌, ◌%◌, ◌^◌, ◌≤◌, ◌<◌, ◌≡◌, refl, sym, ap, ◌∙◌, ◌≢◌, ◌↔◌, ◌⊎◌, inl,
  inr, Bool, true, false, not, ◌&&◌, ◌||◌, Option, none, some, List, [], ◌∷◌, ◌++◌, map, append-nil,
  append_assoc, arith, ltb, leb, ◌==◌, if◌then◌else◌, ==_iff, Bool-cases, Option-cases, length,
  take, drop, replicate, last?, init, length-append, length-take, length-drop, length-replicate,
  Bytes, codes, equal, equal_iff, has_prefix, trim_prefix, contains, within,
}
use kefka.Common.Int.{add_int64, ℤ, pos, negsuc, int64}

pub data FileError : Type 0 where
  file_closed : FileError
  negative_offset : FileError
  eof : FileError
  invalid_whence : ℕ → FileError

pub record TempWriteFile : Type 0 where
  pub name : Bytes
  pub closed : Bool

pub record TempReadFile : Type 0 where
  pub name : Bytes
  pub position : ℤ
  pub closed : Bool

-- What `Write` returns, with the buffer after it.
pub record Written : Type 0 where
  pub data_after : Bytes
  pub count : ℕ
  pub failure : Option FileError

-- (*tempBuffer).write and (*tempWriteFile).Write
unfoldable pub write : TempWriteFile → Bytes → Bytes → Written
write f contents p =
    if f.closed
    then record { data_after = contents; count = 0; failure = some file_closed }
    else record { data_after = contents ++ p; count = length p; failure = none }

-- The bytes that a call of `ReadAt` copies, and its error.
abbrev pub Copied : Type 0
Copied = Bytes × Option FileError

-- (*tempBuffer).readAt into a slice of `n` bytes
unfoldable pub read_at : Bytes → ℕ → ℤ → Copied
read_at contents n (negsuc off) = ([], some negative_offset)
read_at contents n (pos off) =
    if leb (length contents) off then ([], some eof) else (take n (drop off contents), none)

abbrev pub at_position : TempReadFile → ℤ → TempReadFile
at_position f p = record { name = f.name; position = p; closed = f.closed }

-- (*tempReadFile).Read into a slice of `n` bytes
unfoldable pub read : TempReadFile → Bytes → ℕ → TempReadFile × Bytes × Option FileError
unfolding read_at add_int64
read f contents n =
    if f.closed
    then (f, [], some file_closed)
    else (let (copied, failure) = read_at contents n f.position in
        (at_position f (add_int64 f.position (pos (length copied))), copied, failure))

-- (*tempReadFile).ReadAt
unfoldable pub read_file_at : TempReadFile → Bytes → ℕ → ℤ → Copied
unfolding read_at
read_file_at f contents n off = if f.closed then ([], some file_closed) else read_at contents n off

-- (*tempReadFile).Seek: the handle and the position, or an error
unfoldable pub seek : TempReadFile → Bytes → ℤ → ℕ → TempReadFile × ℤ × Option FileError
unfolding add_int64
seek f contents offset whence =
    let from_current = add_int64 f.position offset in
    let from_end = add_int64 (pos (length contents)) offset in
    if f.closed
    then (f, pos 0, some file_closed)
    else if whence == 0
    then (at_position f offset, offset, none)
    else if whence == 1
    then (at_position f from_current, from_current, none)
    else if whence == 2
    then (at_position f from_end, from_end, none)
    else (f, pos 0, some (invalid_whence whence))

-- Close of either handle
unfoldable pub close_write : TempWriteFile → TempWriteFile × Option FileError
close_write f =
    if f.closed then (f, some file_closed) else (record { name = f.name; closed = true }, none)

unfoldable pub close_read : TempReadFile → TempReadFile × Option FileError
close_read f =
    if f.closed
    then (f, some file_closed)
    else (record { name = f.name; position = f.position; closed = true }, none)
