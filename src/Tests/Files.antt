-- ===== src/Tests/Files.antt =====
-- Upload paths.
use cyber_range.Common.{◌≡◌, refl, true, some, none}
use cyber_range.Documents.Paths.{codes, normpath, partition, text_eq, join_slash, norm_step}
use cyber_range.Documents.ObjectStore.{UploadTarget, resolve_upload_target}

abbrev indexed_upload : UploadTarget
indexed_upload = record { key = codes "7/student_uploads/a.pdf"; indexed = true }

traversal :
    resolve_upload_target (codes "7") (codes "../student_uploads/./b/../a.pdf")
    ≡ some indexed_upload
unfolding resolve_upload_target normpath partition text_eq join_slash norm_step
traversal = refl

escape : resolve_upload_target (codes "7") (codes "../../8/uploads/a.pdf") ≡ none
unfolding resolve_upload_target normpath partition text_eq join_slash norm_step
escape = refl
