-- ===== src/Documents/ObjectStore/Confinement.antt =====
-- Uploads stay in the two folders of their lab.
use cyber_range.Common.{
  true, some, List, [], ◌∷◌, ◌++◌, ◌≡◌, ◌≢◌, ◌↔◌, ◌⊎◌, inl, inr, refl, arith, All, Bool-cases,
}
use cyber_range.Documents.Paths.{
  Text, text_eq, slash, dotdot, is_absolute, split_slash, join_slash, partition, norm_loop,
  rev_onto, join_path, or_dot,
}
use cyber_range.Documents.Paths.Laws.{
  text_eq_iff, IsComponent, IsPlain, IsStack, split_slash-NoSlash, norm_loop-IsStack,
  first-ne-dotdot, All-rev_onto, normpath-relative, normpath-absolute, partition-append,
  partition-NoSlash,
}
use cyber_range.Documents.ObjectStore.{
  upload_folder, indexed_folder, UploadTarget, in_upload_folders, target, resolve_upload_target,
}

-- The key names an entry below one of the two upload folders of the lab: lab/folder/parts with
-- at least one part, and no part that is empty, "." or ".." or that holds a slash.
pub record IsConfined (lab : Text) (t : UploadTarget) : Type 0 where
  pub folder : Text
  pub first : Text
  pub more : List Text
  pub key : t.key ≡ lab ++ slash ∷ (folder ++ slash ∷ join_slash (first ∷ more))
  pub known : (folder ≡ upload_folder) ⊎ (folder ≡ indexed_folder)
  pub plain : All IsPlain (first ∷ more)
  pub searched : (t.indexed ≡ true) ↔ (folder ≡ indexed_folder)

in_upload_folders-cases :
    (f : Text)
    → in_upload_folders f ≡ true
    → ((f ≡ upload_folder) ⊎ (f ≡ indexed_folder)) × (f ≢ dotdot)
in_upload_folders-cases f h =
    ground (arith, text_eq_iff f upload_folder, text_eq_iff f indexed_folder)

IsStack-All : (st : List Text) → IsStack st → All IsComponent st
IsStack-All [] h = tt
IsStack-All (c ∷ st) h = (h.0, IsStack-All st h.2)

relative-IsConfined :
    (lab : Text) (t : UploadTarget) (cs : List Text)
    → All IsComponent cs
    → ((f : Text) (rest : List Text) → cs ≡ f ∷ rest → f ≢ dotdot → All IsPlain cs)
    → target lab (or_dot (join_slash cs)) (partition (or_dot (join_slash cs))) ≡ some t
    → IsConfined lab t
unfolding join_slash
relative-IsConfined lab t [] h plain e = absurd (unfold partition text_eq in cc e)
relative-IsConfined lab t ([] ∷ []) h plain e = absurd (h.0.1 refl)
relative-IsConfined lab t ((a ∷ c) ∷ []) h plain e =
    absurd (ground (arith, partition-NoSlash (a ∷ c) h.0.0))
relative-IsConfined lab t ([] ∷ d ∷ ds) h plain e = absurd (h.0.1 refl)
relative-IsConfined lab t ((a ∷ c) ∷ d ∷ ds) h plain e =
    let split = partition-append (a ∷ c) (join_slash (d ∷ ds)) h.0.0 in
    let inside : in_upload_folders (a ∷ c) ≡ true = ground (arith, split) in
    let (known, ne) = in_upload_folders-cases (a ∷ c) inside in
    record {
      folder = a ∷ c;
      first = d;
      more = ds;
      key = ground (arith, split);
      known = known;
      plain = (plain (a ∷ c) (d ∷ ds) refl ne).1;
      searched = ground (arith, split, text_eq_iff (a ∷ c) indexed_folder);
    }

absolute-refused :
    (lab path : Text) (t : UploadTarget)
    → target lab (slash ∷ path) (partition (slash ∷ path)) ≢ some t
unfolding partition text_eq
absolute-refused lab path t e = ground arith

-- Whatever the filename holds, an upload that is accepted gets a key below one of the two upload
-- folders of its own lab; it is indexed exactly if that folder is student_uploads.
pub upload-IsConfined :
    (lab filename : Text) (t : UploadTarget)
    → resolve_upload_target lab filename ≡ some t
    → IsConfined lab t
unfolding resolve_upload_target
upload-IsConfined lab filename t e =
    let path = join_path upload_folder filename in
    let stack =
      norm_loop-IsStack (is_absolute path) [] (split_slash path) (split_slash-NoSlash path) tt in
    let st = norm_loop (is_absolute path) [] (split_slash path) in
    elim (Bool-cases (is_absolute path)) [
      | inl rooted ↦
          let (rest, same) = normpath-absolute path rooted in
          absurd (absolute-refused lab rest t (rw same at e))
      | inr relative ↦
          relative-IsConfined lab t (rev_onto st [])
            (All-rev_onto IsComponent st [] (IsStack-All st stack) tt)
            (λ f rest q ne. All-rev_onto IsPlain st [] (first-ne-dotdot st [] f rest stack q ne) tt)
            (rw (normpath-relative path relative) at e)
    ]
