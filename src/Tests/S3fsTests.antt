-- ===== src/Tests/S3fsTests.antt =====
-- Tests and instances for the filesystem over an object store.
use kefka.Common.{
  ◌+◌, ◌^◌, ◌≡◌, refl, inl, inr, false, some, [], ◌++◌, arith, codes, equal, has_prefix, Bytes,
  Option, if◌then◌else◌, none,
}
use kefka.Common.Int.{pos, negsuc}
use kefka.Strconv.{format_uint, to_base}
use kefka.S3fs.Unixmeta.Lookup.{lookup_uid, lookup_gid, lookup-Denotes}
use kefka.S3fs.Keys.{key, chroot}
use kefka.S3fs.Unixmeta.{Attrs, posix_mode, go_file_mode, encode, decode}
use kefka.S3fs.Unixmeta.Mode.{PosixMode, posix_mode-go_file_mode, posix_mode-PosixMode}
use kefka.S3fs.Unixmeta.RoundTrip.{IsValid, recorded, decode-encode}
use kefka.S3fs.Temporary.{seek, read_at, eof, read, write, TempWriteFile}
use kefka.S3fs.Temporary.Names.{
  Registered, lookup_temp, register_temp, detach_temp, register_temp-detach_temp,
}
use kefka.S3fs.Temporary.Streaming.{
  Stream, start, onward, writing, reading, opened, InOrder, Steps-InOrder,
}

key_of_root : key (codes "repo") (codes "./objects//pack") ≡ codes "repo/objects/pack"
unfolding key equal has_prefix
key_of_root = refl

-- A path with ".." leaves the root of a filesystem that Chroot gave.
key_outside : key (chroot [] (codes "repo")) (codes "../other") ≡ codes "other"
unfolding key chroot equal has_prefix
key_outside = refl

directory_mode : posix_mode (2 ^ 31 + 493) ≡ 16877
unfolding posix_mode
directory_mode = refl

-- 0o104755
posix_mode-go_file_mode_example : posix_mode (go_file_mode 35309) ≡ 35309
posix_mode-go_file_mode_example = posix_mode-go_file_mode 35309 (inr (inr (inr (inr (inl refl)))))

posix_mode-PosixMode_example : PosixMode (posix_mode (2 ^ 26 + 2 ^ 25 + 420))
posix_mode-PosixMode_example = posix_mode-PosixMode (2 ^ 26 + 2 ^ 25 + 420)

-- A link with permissions 0o777, of mode 0o120777.
abbrev link : Attrs
link = record {
  uid = 1000;
  gid = 100;
  mode = 134218239;
  rdev = 0;
  mtime = record { seconds = negsuc 4; nanoseconds = 7 };
  symlink_target = codes "../a b%";
}

abbrev mount : Attrs
mount = record {
  uid = 0;
  gid = 0;
  mode = 420;
  rdev = 0;
  mtime = record { seconds = pos 0; nanoseconds = 0 };
  symlink_target = [];
}

link_mode : 134218239 ≡ go_file_mode 41471
unfolding go_file_mode
link_mode = refl

link-IsValid : IsValid link
link-IsValid = record {
  uid_fits = omega arith;
  gid_fits = omega arith;
  rdev_fits = omega arith;
  seconds_fit = omega arith;
  mode_is_posix = (41471, inr (inr (inr (inr (inr (inl refl))))), link_mode);
  target_bytes = ground arith;
}

decode-encode_example : decode (encode link) mount ≡ recorded link mount
decode-encode_example = decode-encode link mount link-IsValid

abbrev writer : TempWriteFile
writer = record { name = codes "tmp"; closed = false }

abbrev written : Stream
written = record {
  contents = (write writer [] (codes "pack")).data_after;
  reader = (opened (codes "tmp")).reader;
  received = [];
}

abbrev partly_read : Stream
partly_read = record {
  contents = written.contents;
  reader = (read written.reader written.contents 3).0;
  received = written.received ++ (read written.reader written.contents 3).1;
}

three_received : partly_read.received ≡ codes "pac"
unfolding read write
three_received = refl

Steps-InOrder_example : InOrder partly_read
unfolding write
Steps-InOrder_example =
    Steps-InOrder (codes "tmp") (onward (onward start (writing writer (codes "pack"))) (reading 3))
      (omega arith)

at_the_end : read_at (codes "pack") 3 (pos 4) ≡ ([], some eof)
unfolding read_at
at_the_end = refl

seek_before_the_start :
    (seek
      (record { name = codes "tmp"; position = pos 3; closed = false })
      (codes "pack")
      (negsuc 4)
      1).1
    ≡ negsuc 1
unfolding seek
seek_before_the_start = refl

-- The database of users knows alice; that of groups knows no name.
abbrev users : Bytes → Option Bytes
users name = if equal name (codes "alice") then some (format_uint 10 1000) else none

abbrev groups : Bytes → Option Bytes
groups name = none

alice_known : users (codes "alice") ≡ some (format_uint 10 1000)
unfolding equal
alice_known = refl

hundred : codes "100" ≡ format_uint 10 100
unfolding format_uint to_base
hundred = refl

lookup-Denotes_example :
    (lookup_uid users groups (codes "alice") ≡ some 1000)
    × (lookup_gid users groups (codes "100") ≡ some 100)
lookup-Denotes_example =
    lookup-Denotes users groups (codes "alice") (codes "100") 1000 100 (omega arith) (omega arith)
      (inl alice_known) (inr (refl, hundred))

abbrev repository : Registered
repository = record { root = codes "repo"; temps = [] }

register_temp-detach_temp_example :
    (lookup_temp (register_temp repository (codes "a//tmp") 5) (codes "a/tmp") ≡ (
      if equal (key (codes "repo") (codes "a//tmp")) (key (codes "repo") (codes "a/tmp"))
      then some 5
      else lookup_temp repository (codes "a/tmp")))
    × ((detach_temp (register_temp repository (codes "a//tmp") 5) (codes "a//tmp")).1 ≡ some 5)
    × (lookup_temp
          (detach_temp (register_temp repository (codes "a//tmp") 5) (codes "a//tmp")).0
          (codes "a/tmp")
        ≡ (if equal (key (codes "repo") (codes "a//tmp")) (key (codes "repo") (codes "a/tmp"))
            then none
            else lookup_temp repository (codes "a/tmp")))
register_temp-detach_temp_example =
    register_temp-detach_temp repository (codes "a//tmp") (codes "a/tmp") 5

same_key : key (codes "repo") (codes "a//tmp") ≡ key (codes "repo") (codes "a/tmp")
unfolding key equal has_prefix
same_key = refl
