-- ===== src/Documents/Upload/Storage.antt =====
-- What an upload stores.
use cyber_range.Common.{
  ◌↔◌, Bool, ℕ, ◌+◌, ◌-◌, ◌≤◌, ◌≡◌, String, true, false, some, List, [], ◌∷◌, ◌++◌, arith, length,
  take, Option-cases, Bool-cases, inl, inr, ◌⊎◌, ltb, zero, suc, refl, ap, subst, sym, ◌∙◌,
  if◌then◌else◌,
}
use cyber_range.Http.{ok}
use cyber_range.Json.{str}
use cyber_range.Siem.Events.{log_security_event-ok}
use cyber_range.Documents.Paths.{Text, text_eq}
use cyber_range.Documents.Paths.Laws.{text_eq_iff}
use cyber_range.Documents.ObjectStore.{UploadTarget, indexed_folder, resolve_upload_target}
use cyber_range.Documents.ObjectStore.Confinement.{IsConfined, upload-IsConfined}
use cyber_range.Documents.Upload.{Site, Uploader, object_at, without, is_pdf, upload_document}

-- A read of one byte past the limit that stays within the limit is the whole file.
take-short : (m n : ℕ) (xs : List ℕ) → m ≡ n + 1 → length (take m xs) ≤ n → take m xs ≡ xs
take-short zero n xs e h = absurd (omega (arith, e))
take-short (suc m) n [] e h = refl
take-short (suc m) n (x ∷ xs) e h =
    ap (λ l. x ∷ l) (take-short m (n - 1) xs (omega (arith, e, h)) (omega (arith, h)))

take-all : (m : ℕ) (xs : List ℕ) → length xs ≤ m → take m xs ≡ xs
take-all zero [] h = refl
take-all zero (x ∷ xs) h = absurd (omega (arith, h))
take-all (suc m) [] h = refl
take-all (suc m) (x ∷ xs) h = ap (λ l. x ∷ l) (take-all m xs (omega (arith, h)))

-- Two tests of one condition agree.
same_test : {P : Type 0} (a b : Bool) → (a ≡ true) ↔ P → (b ≡ true) ↔ P → a ≡ b
same_test true true f g = refl
same_test false false f g = refl
same_test true false f g = absurd (ground (arith, f, g))
same_test false true f g = absurd (ground (arith, f, g))

-- A PUT replaces the object of its key and keeps every other one.
object_at-without :
    (k key : Text) (os : List (Text × List ℕ))
    → text_eq k key ≡ false
    → object_at k (without key os) ≡ object_at k os
unfolding object_at without
object_at-without k key [] other = refl
object_at-without k key ((a, c) ∷ os) other = elim (Bool-cases (text_eq a key)) [
  | inr kept ↦ ground (arith, kept, object_at-without k key os other)
  | inl here ↦
      let same : a ≡ key = ground (arith, here, text_eq_iff a key) in
      let ne : text_eq k a ≡ false = subst (λ x. text_eq k x ≡ false) (sym same) other in
      ground (arith, here, ne, object_at-without k key os other)
]

object_at-put :
    (k key : Text) (c : List ℕ) (os : List (Text × List ℕ))
    → object_at k ((key, c) ∷ without key os) ≡ (if text_eq k key then some c else object_at k os)
unfolding object_at
object_at-put k key c os = elim (Bool-cases (text_eq k key)) [
  | inl here ↦ ground (arith, here)
  | inr other ↦ ground (arith, other, object_at-without k key os other)
]

module _ (limit : ℕ) (text_of : Text → String) (lab_text : ℕ → Text) (u : Uploader)
    (filename : Text) (file : List ℕ) (ip : String) (task : ℕ) (p : Site) where
  abbrev content : List ℕ
  content = take (limit + 1) file

  abbrev after : Site
  after = (upload_document limit text_of lab_text u filename file ip task p).1

  -- The file, a PDF within the limit, is the object of a key in one of the two upload folders of the
  -- uploader's lab, and every other key has the object that it had.
  pub record IsStored : Type 0 where
    pub target : UploadTarget
    pub confined : IsConfined (lab_text u.lab_instance_id) target
    pub small : length file ≤ limit
    pub pdf : is_pdf file ≡ true
    pub stored :
        (k : Text)
        → object_at k after.objects
          ≡ (if text_eq k target.key then some file else object_at k p.objects)

  -- An upload changes no object, or it makes the whole file, a PDF within the limit, the object of
  -- one key in the two upload folders of the uploader's lab, in place of any that was there, and
  -- changes no other.
  pub upload_stores : (after.objects ≡ p.objects) ⊎ IsStored
  unfolding upload_document
  upload_stores = elim (Bool-cases (ltb limit (length content))) [
    | inl big ↦ inl (ground (arith, big))
    | inr small ↦ elim (Bool-cases (is_pdf content)) [
      | inr other ↦ inl (ground (arith, small, other))
      | inl pdf ↦ elim (Bool-cases p.redis_up) [
        | inr down ↦ inl (ground (arith, small, pdf, down))
        | inl up ↦
            elim (Option-cases (resolve_upload_target (lab_text u.lab_instance_id) filename)) [
              | inl escapes ↦ inl (ground (arith, small, pdf, up, escapes))
              | inr (t, resolved) ↦ elim (Bool-cases p.store_up) [
                | inr down ↦ inl (ground (arith, small, pdf, up, resolved, down))
                | inl stores ↦
                    let few : length content ≤ limit = ground (arith, small) in
                    let same = take-short (limit + 1) limit file refl few in
                    let put : after.objects ≡ (t.key, content) ∷ without t.key p.objects =
                      ground (arith, small, pdf, up, resolved, stores) in
                    inr (record {
                      target = t;
                      confined = upload-IsConfined (lab_text u.lab_instance_id) filename t resolved;
                      small = subst (λ c. length c ≤ limit) same few;
                      pdf = subst (λ c. is_pdf c ≡ true) same pdf;
                      stored = λ k.
                          subst
                            (λ os.
                              object_at k os
                              ≡ (if text_eq k t.key then some file else object_at k p.objects))
                            (ap (λ c. (t.key, c) ∷ without t.key p.objects) (sym same) ∙ sym put)
                            (object_at-put k t.key file p.objects);
                    })
              ]
            ]
      ]
    ]
  ]

  -- What the endpoint asks of an upload: a PDF within the limit, a name that leads to `t`, and
  -- services that can be reached.
  pub record CanUpload (t : UploadTarget) : Type 0 where
    pub small : length file ≤ limit
    pub pdf : is_pdf file ≡ true
    pub resolved : resolve_upload_target (lab_text u.lab_instance_id) filename ≡ some t
    pub redis_up : p.redis_up ≡ true
    pub store_up : p.store_up ≡ true

  -- What an accepted upload to `t` leaves.
  pub record IsAccepted (t : UploadTarget) : Type 0 where
    pub answered : (upload_document limit text_of lab_text u filename file ip task p).0 ≡ ok task
    pub confined : IsConfined (lab_text u.lab_instance_id) t
    pub stored :
        (k : Text)
        → object_at k after.objects ≡ (if text_eq k t.key then some file else object_at k p.objects)
    pub scheduled : after.tasks ≡ (
        if text_eq confined.folder indexed_folder
        then p.tasks
          ++ record { key = t.key; task_id = task; lab_instance_id = u.lab_instance_id } ∷ []
        else p.tasks)

  -- An upload that meets the conditions succeeds and makes exactly the file the object of its key,
  -- which lies below one of the two upload folders of the uploader's lab, while every other key
  -- keeps its object; its indexing is scheduled, for the uploader's lab, exactly if that folder is
  -- student_uploads.
  pub upload-IsAccepted : (t : UploadTarget) → CanUpload t → IsAccepted t
  unfolding upload_document
  upload-IsAccepted t c =
      let all : content ≡ file = take-all (limit + 1) file (omega (arith, c.small)) in
      let fits : ltb limit (length content) ≡ false =
        subst (λ l. ltb limit (length l) ≡ false) (sym all) (ground (arith, c.small)) in
      let pdf : is_pdf content ≡ true = subst (λ l. is_pdf l ≡ true) (sym all) c.pdf in
      let logged =
        log_security_event-ok u.lab_instance_id "FILE_UPLOAD"
          (("filename", str (text_of filename))
            ∷ ("destination", str (text_of t.key))
            ∷ ("indexing", str (if t.indexed then "true" else "false"))
            ∷ [])
          ip p.server in
      let inside = upload-IsConfined (lab_text u.lab_instance_id) filename t c.resolved in
      let put : after.objects ≡ (t.key, file) ∷ without t.key p.objects =
        ground (arith, fits, pdf, c.redis_up, c.resolved, c.store_up, logged, all) in
      let folder : text_eq inside.folder indexed_folder ≡ t.indexed =
        same_test _ t.indexed (text_eq_iff inside.folder indexed_folder) inside.searched in
      let listed : after.tasks ≡ (
          if t.indexed
          then p.tasks
            ++ record { key = t.key; task_id = task; lab_instance_id = u.lab_instance_id } ∷ []
          else p.tasks) =
        ground (arith, fits, pdf, c.redis_up, c.resolved, c.store_up, logged, all) in
      record {
        answered = ground (arith, fits, pdf, c.redis_up, c.resolved, c.store_up, logged, all);
        confined = inside;
        stored = λ k.
            subst
              (λ os.
                object_at k os ≡ (if text_eq k t.key then some file else object_at k p.objects))
              (sym put) (object_at-put k t.key file p.objects);
        scheduled =
            subst
              (λ b. after.tasks ≡ (
                if b
                then p.tasks
                  ++ record { key = t.key; task_id = task; lab_instance_id = u.lab_instance_id }
                    ∷ []
                else p.tasks))
              (sym folder) listed;
      }
