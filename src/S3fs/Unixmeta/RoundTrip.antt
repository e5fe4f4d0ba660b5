-- ===== src/S3fs/Unixmeta/RoundTrip.antt =====
-- s3fs/unixmeta/unixmeta.go: Encode and Decode together.
use kefka.Common.{
  ℕ, ◌-◌, ◌^◌, ◌<◌, ◌≡◌, refl, sym, ap, ◌∙◌, inl, inr, Bool, true, false, Option, none, some, arith,
  if◌then◌else◌, Bool-cases, Bytes, equal,
}
use kefka.Common.Int.{ℤ}
use kefka.Strconv.{format_uint, format_int}
use kefka.Strconv.RoundTrip.{parse_uint-format_uint, parse_int64-format_int, FitsInt64}
use kefka.Net.Url.{query_escape, query_unescape, query_unescape-query_escape, AllBytes}
use kefka.S3fs.Unixmeta.{
  Attrs, posix_mode, go_file_mode, find_key, key_uid, key_gid, key_mode, key_rdev, key_mtime,
  key_symlink_target, is_device, is_empty, encode, field, parse_uint32, parse_mode, parse_time,
  decode,
}
use kefka.S3fs.Unixmeta.Mode.{PosixMode, posix_mode-go_file_mode, PosixMode-lt}

-- Attributes as a file has them: each number fits its machine type, the mode is one that a mode_t
-- gives, and the target of a symbolic link is made of bytes.
pub record IsValid (a : Attrs) : Type 0 where
  pub uid_fits : a.uid < 2 ^ 32
  pub gid_fits : a.gid < 2 ^ 32
  pub rdev_fits : a.rdev < 2 ^ 32
  pub seconds_fit : FitsInt64 a.mtime.seconds
  pub mode_is_posix : (p : ℕ) × PosixMode p × (a.mode ≡ go_file_mode p)
  pub target_bytes : AllBytes a.symlink_target

-- What remains of the attributes over the defaults: the device number of a device only, the time
-- in seconds, and no target where it is empty.
abbrev pub recorded : Attrs → Attrs → Attrs
recorded a defaults = record {
  uid = a.uid;
  gid = a.gid;
  mode = a.mode;
  rdev = if is_device a.mode then a.rdev else defaults.rdev;
  mtime = record { seconds = a.mtime.seconds; nanoseconds = 0 };
  symlink_target = if is_empty a.symlink_target then defaults.symlink_target else a.symlink_target;
}

field-unless :
    {A : Type 0} (parse : Bytes → Option A) (b : Bool) (s : Bytes) (d v : A)
    → parse s ≡ some v
    → field parse (if b then none else some s) d ≡ (if b then d else v)
unfolding field
field-unless parse true s d v h = refl
field-unless parse false s d v h = rw (field, h) refl

field-when :
    {A : Type 0} (parse : Bytes → Option A) (b : Bool) (s : Bytes) (d v : A)
    → parse s ≡ some v
    → field parse (if b then some s else none) d ≡ (if b then v else d)
field-when parse true s d v h = field-unless parse false s d v h
field-when parse false s d v h = field-unless parse true s d v h

parse_uint32-fits : (n : ℕ) → n < 2 ^ 32 → parse_uint32 (format_uint 10 n) ≡ some n
parse_uint32-fits n h = parse_uint-format_uint n (2 ^ 32 - 1) (omega arith)

parse_mode-posix_mode :
    (m : ℕ)
    → (p : ℕ) × PosixMode p × (m ≡ go_file_mode p)
    → parse_mode (format_uint 10 (posix_mode m)) ≡ some m
parse_mode-posix_mode m (p, h, e) =
    let same : posix_mode m ≡ p = ap posix_mode e ∙ posix_mode-go_file_mode p h in
    rw same (rw (parse_mode, parse_uint32-fits p (PosixMode-lt p h)) (ap some (sym e)))

parse_time-format_int :
    (i : ℤ)
    → FitsInt64 i
    → parse_time (format_int i) ≡ some (record { seconds = i; nanoseconds = 0 })
parse_time-format_int i h = rw (parse_time, parse_int64-format_int i h) refl

find-uid : (a : Attrs) → find_key key_uid (encode a) ≡ some (format_uint 10 a.uid)
unfolding find_key encode equal
find-uid a = refl

find-gid : (a : Attrs) → find_key key_gid (encode a) ≡ some (format_uint 10 a.gid)
unfolding find_key encode equal
find-gid a = refl

find-mode : (a : Attrs) → find_key key_mode (encode a) ≡ some (format_uint 10 (posix_mode a.mode))
unfolding find_key encode equal
find-mode a = refl

find-mtime : (a : Attrs) → find_key key_mtime (encode a) ≡ some (format_int a.mtime.seconds)
unfolding find_key encode equal
find-mtime a = refl

find-rdev :
    (a : Attrs)
    → find_key key_rdev (encode a)
      ≡ (if is_device a.mode then some (format_uint 10 a.rdev) else none)
unfolding find_key encode equal is_empty
find-rdev a = elim (Bool-cases (is_device a.mode)) [
  | inl e ↦ rw e refl
  | inr e ↦
      rw e (elim (Bool-cases (is_empty a.symlink_target)) [ inl k ↦ rw k refl | inr k ↦ rw k refl ])
]

find-target :
    (a : Attrs)
    → find_key key_symlink_target (encode a)
      ≡ (if is_empty a.symlink_target then none else some (query_escape a.symlink_target))
unfolding find_key encode equal is_empty
find-target a = elim (Bool-cases (is_device a.mode)) [
  | inl e ↦
      rw e (elim (Bool-cases (is_empty a.symlink_target)) [ inl k ↦ rw k refl | inr k ↦ rw k refl ])
  | inr e ↦
      rw e (elim (Bool-cases (is_empty a.symlink_target)) [ inl k ↦ rw k refl | inr k ↦ rw k refl ])
]

-- Each field that Decode reads behind Encode.
fields :
    (a defaults : Attrs)
    → IsValid a
    → (field parse_uint32 (find_key key_uid (encode a)) defaults.uid ≡ a.uid)
      × (field parse_uint32 (find_key key_gid (encode a)) defaults.gid ≡ a.gid)
      × (field parse_mode (find_key key_mode (encode a)) defaults.mode ≡ a.mode)
      × (field parse_uint32 (find_key key_rdev (encode a)) defaults.rdev
          ≡ (if is_device a.mode then a.rdev else defaults.rdev))
      × (field parse_time (find_key key_mtime (encode a)) defaults.mtime
          ≡ record { seconds = a.mtime.seconds; nanoseconds = 0 })
      × (field query_unescape (find_key key_symlink_target (encode a)) defaults.symlink_target
          ≡ (if is_empty a.symlink_target then defaults.symlink_target else a.symlink_target))
fields a defaults h =
    rw (find-uid a, find-gid a, find-mode a, find-mtime a, find-rdev a, find-target a)
      (
        field-unless parse_uint32 false _ _ _ (parse_uint32-fits a.uid h.uid_fits),
        field-unless parse_uint32 false _ _ _ (parse_uint32-fits a.gid h.gid_fits),
        field-unless parse_mode false _ _ _ (parse_mode-posix_mode a.mode h.mode_is_posix),
        field-when parse_uint32 (is_device a.mode) _ _ _ (parse_uint32-fits a.rdev h.rdev_fits),
        field-unless parse_time false _ _ _ (parse_time-format_int a.mtime.seconds h.seconds_fit),
        field-unless query_unescape (is_empty a.symlink_target) _ _ _
            (query_unescape-query_escape a.symlink_target h.target_bytes),
      )

-- Decode over any defaults reads back what Encode writes, up to what Encode leaves out.
pub decode-encode :
    (a defaults : Attrs) → IsValid a → decode (encode a) defaults ≡ recorded a defaults
unfolding decode
decode-encode a defaults h =
    let (uid, gid, mode, rdev, mtime, target) = fields a defaults h in
    rw (uid, gid, mode, rdev, mtime, target) refl
