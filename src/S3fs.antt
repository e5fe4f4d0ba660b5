-- ===== src/S3fs.antt =====
-- s3fs: the filesystem over an object store.
pub mod Unixmeta
pub mod Keys
pub mod Temporary
