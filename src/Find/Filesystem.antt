-- ===== src/Find/Filesystem.antt =====
-- The filesystem as command/internal/find/find.go uses it, which is a parameter, and the phrases for
-- its errors (lines 612 to 646). device_unix.go and device_other.go give the device of an entry,
-- where the filesystem tells it.
use kefka.Common.{ℕ, ◌⊎◌, Option, none, some, List, [], ◌∷◌, if◌then◌else◌, Bytes, codes}
use kefka.Common.Sort.{precedes}

-- An error of the filesystem, by the first of the tests of `unreadableReason` that it meets; any
-- other has its text, and that of the error inside if it is an fs.PathError.
pub data FsError : Type 0 where
  permission not_exist not_dir input_output loop name_too_long : FsError
  dir_not_empty : FsError
  other : (path_error : Option Bytes) (text : Bytes) → FsError

unfoldable pub unreadable_reason : FsError → Option Bytes
unreadable_reason permission = some (codes "Permission denied")
unreadable_reason not_exist = some (codes "No such file or directory")
unreadable_reason not_dir = some (codes "Not a directory")
unreadable_reason input_output = some (codes "Input/output error")
unreadable_reason loop = some (codes "Too many levels of symbolic links")
unreadable_reason name_too_long = some (codes "File name too long")
unreadable_reason dir_not_empty = none
unreadable_reason (other path_error text) = none

abbrev error_text : FsError → Bytes
error_text (other (some inner) text) = inner
error_text (other none text) = text
error_text e = codes "directory not empty"

unfoldable pub error_reason : FsError → Bytes
unfolding unreadable_reason
error_reason dir_not_empty = codes "Directory not empty"
error_reason e = elim (unreadable_reason e) [ some reason ↦ reason | none ↦ error_text e ]

-- `device` is what `deviceOf` answers.
pub record FileInfo : Type 0 where
  pub mode : ℕ
  pub size : ℕ
  pub mtime : ℕ
  pub device : Option ℕ

pub record DirEntry : Type 0 where
  pub name : Bytes
  pub typ : ℕ

-- The calls that read; they answer the same as long as nothing is changed.
pub record Filesystem : Type 0 where
  pub lstat : Bytes → FsError ⊎ FileInfo
  pub stat : Bytes → FsError ⊎ FileInfo
  pub read_dir : Bytes → FsError ⊎ List DirEntry

-- The sort by names; the names in a directory are distinct.
unfoldable pub insert_entry : DirEntry → List DirEntry → List DirEntry
unfolding precedes
insert_entry e [] = e ∷ []
insert_entry e (d ∷ l) =
    let rest = insert_entry e l in if precedes e.name d.name then e ∷ d ∷ l else d ∷ rest

unfoldable pub sort_entries : List DirEntry → List DirEntry
unfolding insert_entry
sort_entries [] = []
sort_entries (e ∷ l) = insert_entry e (sort_entries l)
