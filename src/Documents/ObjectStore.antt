-- ===== src/Documents/ObjectStore.antt =====
-- The key of an upload, `resolve_upload_target` of backend/app/documents/object_store.py.
pub mod Confinement
use cyber_range.Common.{
  ℕ, Bool, true, false, Option, none, some, List, [], ◌∷◌, ◌++◌, ◌==◌, ◌&&◌, ◌||◌, not,
  if◌then◌else◌,
}
use cyber_range.Documents.Paths.{
  Text, codes, text_eq, slash, is_empty, join_path, normpath, partition,
}

abbrev pub upload_folder : Text
upload_folder = codes "uploads"

abbrev pub indexed_folder : Text
indexed_folder = codes "student_uploads"

pub record UploadTarget : Type 0 where
  pub key : Text
  pub indexed : Bool

abbrev pub in_upload_folders : Text → Bool
in_upload_folders folder = text_eq folder upload_folder || text_eq folder indexed_folder

-- the target of a normalised path and its partition
abbrev pub target : Text → Text → Text × Text → Option UploadTarget
target lab path (folder, name) =
    if not (in_upload_folders folder) || is_empty name
    then none
    else some (record { key = lab ++ slash ∷ path; indexed = text_eq folder indexed_folder })

-- `none` is PathTraversalError; a missing filename is the empty text.
unfoldable pub resolve_upload_target : Text → Text → Option UploadTarget
unfolding join_path
resolve_upload_target lab_instance_id filename =
    let path = normpath (join_path upload_folder filename) in
    target lab_instance_id path (partition path)
