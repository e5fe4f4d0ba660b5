-- ===== src/Find/Apply/Deletion.antt =====
-- command/internal/find/find.go, lines 593 to 610: what `deleteEntry` removes.
use kefka.Common.{◌≡◌, refl, ◌⊎◌, inl, inr, false, Option, some, List, [], ◌∷◌, Bool-cases, Bytes}
use kefka.FileMode.{is_dir}
use kefka.Find.Printf.Format.{Clock}
use kefka.Find.Filesystem.{FsError, FileInfo, DirEntry, Filesystem}
use kefka.Find.Apply.{World, delete_directory, delete_found, delete_entry}

module _ {S : Type 0} (w : World S) (clk : Clock) where
  -- What can be removed: an entry that is not a directory, or a directory with nothing in it.
  abbrev pub Removable : Filesystem → Bytes → Type 0
  Removable fs path =
      (i : FileInfo) × (fs.lstat path ≡ inr i)
      × ((is_dir i.mode ≡ false) ⊎ (fs.read_dir path ≡ inr []))

  abbrev pub Deleted : S → Bytes → Option FsError × S → Type 0
  Deleted s path r =
      (Removable (w.view s) path × (r ≡ w.remove s path))
      ⊎ ((r.1 ≡ s) × ((e : FsError) × (r.0 ≡ some e)))

  delete_directory-Deleted :
      (s : S) (path : Bytes) (i : FileInfo) (o : FsError ⊎ List DirEntry)
      → (w.view s).lstat path ≡ inr i
      → (w.view s).read_dir path ≡ o
      → Deleted s path (delete_directory w clk s path o)
  delete_directory-Deleted s path i (inl e) k l = inr (refl, (e, refl))
  delete_directory-Deleted s path i (inr []) k l = inl ((i, k, inr l), refl)
  delete_directory-Deleted s path i (inr (x ∷ xs)) k l = inr (refl, (_, refl))

  delete_found-Deleted :
      (s : S) (path : Bytes) (o : FsError ⊎ FileInfo)
      → (w.view s).lstat path ≡ o
      → Deleted s path (delete_found w clk s path o)
  delete_found-Deleted s path (inl e) k = inr (refl, (e, refl))
  delete_found-Deleted s path (inr i) k = elim (Bool-cases (is_dir i.mode)) [
    | inl d ↦ rw d (delete_directory-Deleted s path i ((w.view s).read_dir path) k refl)
    | inr d ↦ rw d (inl ((i, k, inl d), refl))
  ]

  -- `deleteEntry` calls the removal for what can be removed only; else it gives an error and changes
  -- nothing, whatever the removal of the filesystem would do.
  pub delete_entry-Deleted : (s : S) (path : Bytes) → Deleted s path (delete_entry w clk s path)
  unfolding delete_entry
  delete_entry-Deleted s path = delete_found-Deleted s path ((w.view s).lstat path) refl
