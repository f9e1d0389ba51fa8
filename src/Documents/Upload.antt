-- ===== src/Documents/Upload.antt =====
-- The upload endpoint, `upload_document` of backend/app/documents/router.py. Files are lists of
-- bytes and names lists of code points; `text_of` gives a name as it stands in a payload.
pub mod Storage
use cyber_range.Common.{
  ℕ, ◌+◌, String, Bool, true, false, Option, none, some, List, [], ◌∷◌, ◌++◌, length, take, ltb,
  not, if◌then◌else◌,
}
use Prim.Native.String.{◌++◌ as str_append}
use cyber_range.Common.Text.{show}
use cyber_range.Http.{
  Result, ok, err, Action, pure, raise, raise_if, gets, modify, or_raise, http, unavailable,
  too_large, not_a_pdf, wrong_directory, Detail, ◌>>=◌, ◌>>◌,
}
use cyber_range.Json.{str, Payload}
use cyber_range.Db.{Server}
use cyber_range.Siem.{log_security_event}
use cyber_range.Documents.Paths.{Text, text_eq, codes}
use cyber_range.Documents.ObjectStore.{UploadTarget, resolve_upload_target}

-- A row of `etl_job:{task_id}`; that it expires after an hour is left out.
pub record Job : Type 0 where
  pub task_id : ℕ
  pub user_id : ℕ
  pub lab_instance_id : ℕ
  pub status : String
  pub progress : ℕ

-- An indexing task that runs after the response
pub record EtlTask : Type 0 where
  pub key : Text
  pub task_id : ℕ
  pub lab_instance_id : ℕ

-- The server with its object store, its job table in Redis (the latest write first) and the tasks
-- of the response, and whether the two services can be reached.
pub record Site : Type 0 where
  pub server : Server
  pub objects : List (Text × List ℕ)
  pub jobs : List Job
  pub tasks : List EtlTask
  pub redis_up : Bool
  pub store_up : Bool

abbrev pub on_site : {A : Type 0} → Action Server A → Action Site A
on_site m p = let (a, s) = m p.server in (a, record p { server = s })

abbrev set_job : Job → Action Site Unit
set_job j p = if p.redis_up then (ok tt, record p { jobs = j ∷ p.jobs }) else (err unavailable, p)

-- The bucket: a PUT replaces what a key holds.
unfoldable pub object_at : Text → List (Text × List ℕ) → Option (List ℕ)
object_at key [] = none
object_at key ((k, content) ∷ os) = if text_eq key k then some content else object_at key os

unfoldable pub without : Text → List (Text × List ℕ) → List (Text × List ℕ)
without key [] = []
without key ((k, content) ∷ os) =
    let rest = without key os in if text_eq k key then rest else (k, content) ∷ rest

abbrev put_object : Text → List ℕ → Action Site Unit
put_object key content p =
    if p.store_up
    then (ok tt, record p { objects = (key, content) ∷ without key p.objects })
    else (err unavailable, p)

-- `content.startswith(b"%PDF-")`
abbrev pub is_pdf : List ℕ → Bool
is_pdf content = text_eq (take 5 content) (codes "%PDF-")

abbrev size_reason : ℕ → String
size_reason limit = str_append "File exceeds the " (str_append (show limit) " byte limit.")

-- The user of the request: the id and the lab of the principal.
pub record Uploader : Type 0 where
  pub id : ℕ
  pub lab_instance_id : ℕ

module _ (upload_max_bytes : ℕ) (text_of : Text → String) (lab_text : ℕ → Text) where
  -- What is wrong with the content, and the text that is logged
  abbrev rejection : List ℕ → Option (ℕ × Detail × String)
  rejection content =
      if ltb upload_max_bytes (length content)
      then some (413, too_large, size_reason upload_max_bytes)
      else if not (is_pdf content)
      then some (415, not_a_pdf, "Only PDF documents are accepted.")
      else none

  abbrev check_content : Uploader → Text → List ℕ → String → Action Site Unit
  check_content u filename content ip = elim (rejection content) [
    | none ↦ pure tt
    | some (code, detail, reason) ↦
        on_site (
          log_security_event u.lab_instance_id "FILE_UPLOAD_REJECTED"
            (("filename", str (text_of filename)) ∷ ("reason", str reason) ∷ []) ip)
        >> raise (http code detail)
  ]

  abbrev check_target : Uploader → Text → String → Action Site UploadTarget
  check_target u filename ip = elim (resolve_upload_target (lab_text u.lab_instance_id) filename) [
    | some t ↦ pure t
    | none ↦
        on_site (
          log_security_event u.lab_instance_id "FILE_UPLOAD_FAILED"
            (("filename", str (text_of filename)) ∷ ("reason", str "Path Traversal Blocked") ∷ [])
            ip)
        >> raise (http 403 wrong_directory)
  ]

  abbrev job : Uploader → ℕ → String → ℕ → Job
  job u task_id status progress = record {
    task_id = task_id;
    user_id = u.id;
    lab_instance_id = u.lab_instance_id;
    status = status;
    progress = progress;
  }

  abbrev finish : Uploader → ℕ → UploadTarget → Action Site ℕ
  finish u task_id t =
      if t.indexed
      then modify (λ p. record p {
        tasks =
            p.tasks
            ++ record { key = t.key; task_id = task_id; lab_instance_id = u.lab_instance_id } ∷ [];
      })
        >> pure task_id
      else set_job (job u task_id "Completed (No ETL required)" 100) >> pure task_id

  -- `task_id` is the fresh UUID. The file is read up to one byte past the limit.
  unfoldable pub upload_document : Uploader → Text → List ℕ → String → ℕ → Action Site ℕ
  upload_document u filename file ip task_id =
      let content = take (upload_max_bytes + 1) file in
      check_content u filename content ip
      >> set_job (job u task_id "Queued" 0)
      >> (check_target u filename ip >>= λ t.
          put_object t.key content
          >> on_site (
              log_security_event u.lab_instance_id "FILE_UPLOAD"
                (("filename", str (text_of filename))
                  ∷ ("destination", str (text_of t.key))
                  ∷ ("indexing", str (if t.indexed then "true" else "false"))
                  ∷ [])
                ip)
          >> finish u task_id t)
