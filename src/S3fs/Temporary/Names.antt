-- ===== src/S3fs/Temporary/Names.antt =====
-- s3fs/tempfs.go, lines 181 to 213, and s3fs/tempfile.go: the buffers of the temporary files by the
-- key of their path. A buffer is a number that stands for its address.
use kefka.Common.{
  inl, inr, refl, ◌∙◌, true, Bool-cases, equal_iff, ℕ, ◌≡◌, Option, none, some, List, if◌then◌else◌,
  Bytes, equal,
}
use kefka.Common.Maps.{assign, index, remove, index-assign, index-remove}
use kefka.S3fs.Keys.{key}

-- The part of S3FS that the operations use.
pub record Registered : Type 0 where
  pub root : Bytes
  pub temps : List (Bytes × ℕ)

unfoldable pub lookup_temp : Registered → Bytes → Option ℕ
unfolding key index
lookup_temp r name = index (key r.root name) r.temps

unfoldable pub register_temp : Registered → Bytes → ℕ → Registered
unfolding key assign
register_temp r name buf = record { root = r.root; temps = assign (key r.root name) buf r.temps }

-- The state behind `detachTemp` and the buffer, if there was one; removing a key that is not there
-- leaves the map as it is.
unfoldable pub detach_temp : Registered → Bytes → Registered × Option ℕ
unfolding key index remove
detach_temp r name = (
  record { root = r.root; temps = remove (key r.root name) r.temps },
  index (key r.root name) r.temps,
)

index-assign-same :
    (m : List (Bytes × ℕ)) (k : Bytes) (buf : ℕ) → index k (assign k buf m) ≡ some buf
index-assign-same m k buf =
    let same : equal k k ≡ true = (equal_iff k k).1 refl in index-assign m k k buf ∙ rw same refl

index-remove-assign :
    (m : List (Bytes × ℕ)) (k other : Bytes) (buf : ℕ)
    → index other (remove k (assign k buf m)) ≡ (if equal k other then none else index other m)
index-remove-assign m k other buf =
    index-remove (assign k buf m) k other
    ∙ rw (index-assign m k other buf)
        (elim (Bool-cases (equal k other)) [ inl e ↦ rw e refl | inr e ↦ rw e refl ])

-- After a path is registered, every path with the same key finds its buffer, and detaching it gives
-- the buffer once; a path with another key finds what it found before, throughout.
pub register_temp-detach_temp :
    (r : Registered) (name other : Bytes) (buf : ℕ)
    → (lookup_temp (register_temp r name buf) other
        ≡ (if equal (key r.root name) (key r.root other) then some buf else lookup_temp r other))
      × ((detach_temp (register_temp r name buf) name).1 ≡ some buf)
      × (lookup_temp (detach_temp (register_temp r name buf) name).0 other
          ≡ (if equal (key r.root name) (key r.root other) then none else lookup_temp r other))
unfolding lookup_temp register_temp detach_temp
register_temp-detach_temp r name other buf = (
  index-assign r.temps (key r.root name) (key r.root other) buf,
  index-assign-same r.temps (key r.root name) buf,
  index-remove-assign r.temps (key r.root name) (key r.root other) buf,
)
