-- ===== src/Tests/Uploads.antt =====
-- A student uploads a small PDF into the indexed folder, where a file of that name is already.
use cyber_range.Common.{ℕ, String, ◌≡◌, ◌⊎◌, true, refl, arith, [], ◌∷◌, List}
use cyber_range.Documents.Paths.{Text, codes, normpath, partition, text_eq, join_slash, norm_step}
use cyber_range.Documents.Upload.{Site, Uploader, upload_document}
use cyber_range.Documents.Upload.Storage.{
  IsStored, CanUpload, IsAccepted, upload_stores, upload-IsAccepted,
}
use cyber_range.Documents.ObjectStore.{UploadTarget, resolve_upload_target}
use cyber_range.Tests.Rows.{server}

abbrev indexed_target : UploadTarget
indexed_target = record { key = codes "7/student_uploads/a.pdf"; indexed = true }

abbrev site : Site
site = record {
  server = server;
  objects = (codes "7/student_uploads/a.pdf", codes "%PDF-1.3") ∷ [];
  jobs = [];
  tasks = [];
  redis_up = true;
  store_up = true;
}

abbrev uploader : Uploader
uploader = record { id = 11; lab_instance_id = 7 }

abbrev name_text : Text → String
name_text _ = "a.pdf"

abbrev lab_name : ℕ → Text
lab_name _ = codes "7"

abbrev pdf_file : List ℕ
pdf_file = codes "%PDF-1.4"

upload_stores_example :
    ((upload_document 100 name_text lab_name uploader
        (codes "../student_uploads/a.pdf")
        pdf_file
        "10.0.0.1"
        50
        site).1.objects
      ≡ site.objects)
    ⊎ IsStored 100 name_text lab_name uploader
        (codes "../student_uploads/a.pdf")
        pdf_file
        "10.0.0.1"
        50
        site
upload_stores_example =
    upload_stores 100 name_text lab_name uploader (codes "../student_uploads/a.pdf") pdf_file
      "10.0.0.1" 50 site

can_upload :
    CanUpload 100 name_text lab_name uploader
      (codes "../student_uploads/a.pdf")
      pdf_file
      "10.0.0.1"
      50
      site
      indexed_target
unfolding resolve_upload_target normpath partition text_eq join_slash norm_step
can_upload = record {
  small = omega arith;
  pdf = refl;
  resolved = refl;
  redis_up = refl;
  store_up = refl;
}

upload-IsAccepted_example :
    IsAccepted 100 name_text lab_name uploader
      (codes "../student_uploads/a.pdf")
      pdf_file
      "10.0.0.1"
      50
      site
      indexed_target
upload-IsAccepted_example =
    upload-IsAccepted 100 name_text lab_name uploader (codes "../student_uploads/a.pdf") pdf_file
      "10.0.0.1" 50 site indexed_target can_upload
