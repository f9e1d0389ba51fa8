-- ===== src/Tests/Codes.antt =====
-- Login codes under a digest of 32 equal bytes.
use cyber_range.Common.{ℕ, ◌≡◌, ◌++◌, some, List, [], ◌∷◌, arith, length}
use cyber_range.Labs.Base64.{b64decode, pads}
use cyber_range.Labs.Codes.{uuid_bytes, login_code_mac, lab_login_code, lab_from_login_code}
use cyber_range.Labs.Codes.Laws.{
  IsDigest, lab_from_login_code-lab_login_code, lab_from_login_code_only,
}

abbrev pub flat : List ℕ → List ℕ
flat m = 7 ∷ 7 ∷ 7 ∷ 7 ∷ 7 ∷ 7 ∷ 7 ∷ 7 ∷ 7 ∷ 7 ∷ 7 ∷ 7 ∷ 7 ∷ 7 ∷ 7 ∷ 7 ∷ 7 ∷ []

pub flat-IsDigest : IsDigest flat
flat-IsDigest m = ground arith

lab_from_login_code-lab_login_code_example :
    lab_from_login_code flat (lab_login_code flat 66051) ≡ some 66051
lab_from_login_code-lab_login_code_example =
    lab_from_login_code-lab_login_code flat flat-IsDigest 66051 (omega arith)

abbrev issued : List ℕ
issued = lab_login_code flat 66051

lab_from_login_code_only_example :
    b64decode (issued ++ pads (length issued))
    ≡ some (uuid_bytes 66051 ++ login_code_mac flat 66051)
lab_from_login_code_only_example =
    lab_from_login_code_only flat flat-IsDigest issued 66051
      lab_from_login_code-lab_login_code_example
