-- ===== src/Labs/Codes.antt =====
-- Login codes of a lab, `lab_login_code` and `lab_from_login_code` of backend/app/labs/service.py.
-- A UUID is its number, whose 16 bytes are its digits in base 256. `digest` is HMAC-SHA-256 with
-- the application's secret.
pub mod Laws
use cyber_range.Common.{
  ℕ, zero, suc, ◌+◌, ◌*◌, ◌/◌, ◌%◌, String, Bool, Option, none, some, List, [], ◌∷◌, ◌++◌, ◌==◌,
  reverse, take, drop, length, if◌then◌else◌,
}
use cyber_range.Documents.Paths.{codes, text_eq}
use cyber_range.Labs.Base64.{urlsafe_b64encode, rstrip_pad, b64decode, pads}

-- The lowest `k` digits, the lowest first, and the number of such digits
unfoldable pub digits : ℕ → ℕ → List ℕ
digits zero n = []
digits (suc k) n = (n % 256) ∷ digits k (n / 256)

unfoldable pub number : List ℕ → ℕ
number [] = 0
number (d ∷ ds) = d + 256 * number ds

-- `lab.bytes`, and `uuid.UUID(bytes=…)`
abbrev pub uuid_bytes : ℕ → List ℕ
uuid_bytes lab = reverse (digits 16 lab)

abbrev pub uuid_of_bytes : List ℕ → ℕ
uuid_of_bytes bs = number (reverse bs)

module _ (digest : List ℕ → List ℕ) where
  -- `_login_code_mac`
  abbrev pub login_code_mac : ℕ → List ℕ
  login_code_mac lab = take 16 (digest (codes "cyberrange-lab-login-code:" ++ uuid_bytes lab))

  unfoldable pub lab_login_code : ℕ → List ℕ
  lab_login_code lab = rstrip_pad (urlsafe_b64encode (uuid_bytes lab ++ login_code_mac lab))

  -- the part after the decoding
  abbrev pub genuine_lab : List ℕ → Option ℕ
  genuine_lab raw =
      if length raw == 32
      then (let lab = uuid_of_bytes (take 16 raw) in
          if text_eq (drop 16 raw) (login_code_mac lab) then some lab else none)
      else none

  unfoldable pub lab_from_login_code : List ℕ → Option ℕ
  lab_from_login_code code = elim (b64decode (code ++ pads (length code))) [
    | none ↦ none
    | some raw ↦ genuine_lab raw
  ]
