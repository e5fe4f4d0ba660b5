-- ===== src/S3fs/Keys.antt =====
-- s3fs/filesystem.go, lines 73 to 98, and s3fs/chroot.go: the paths of a filesystem and the keys of
-- its objects.
use kefka.Common.{Bytes, codes, trim_prefix}
use kefka.Slashed.{clean, join}

-- `cleanPath` with one argument: the inner `Join` of one path is its `Clean`, and that of an empty
-- path is empty, which the second `Clean` makes ".".
unfoldable pub clean_path : Bytes → Bytes → Bytes
unfolding clean join
clean_path root name = clean (join root (clean (clean name)))

unfoldable pub key : Bytes → Bytes → Bytes
unfolding clean_path trim_prefix
key root name = trim_prefix (codes "/") (clean_path root name)

-- The root of `Chroot(path)`, by `Join` of the filesystem, which cleans what `path.Join` gives.
unfoldable pub chroot : Bytes → Bytes → Bytes
unfolding clean join
chroot root path = clean (join root path)
