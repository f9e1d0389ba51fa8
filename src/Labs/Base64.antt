-- ===== src/Labs/Base64.antt =====
-- The URL-safe base64 of Python's `base64` module, on lists of bytes.
pub mod Laws
use cyber_range.Common.{
  ℕ, zero, suc, ◌+◌, ◌-◌, ◌*◌, ◌/◌, ◌%◌, Bool, true, false, Option, none, some, List, [], ◌∷◌, ◌++◌,
  ◌==◌, ◌&&◌, ltb, leb, length, if◌then◌else◌,
}

abbrev pub pad : ℕ
pad = b'='

-- The 64 characters: A to Z, a to z, 0 to 9, `-` and `_`.
unfoldable pub symbol : ℕ → ℕ
symbol n =
    if ltb n 26
    then n + 65
    else if ltb n 52
    then n + 71
    else if ltb n 62
    then n - 4
    else if n == 62
    then b'-'
    else b'_'

-- A character's value. `altchars` renames `-` and `_` to `+` and `/`, which stay valid themselves.
unfoldable pub value : ℕ → Option ℕ
value c =
    if leb b'A' c && leb c b'Z'
    then some (c - 65)
    else if leb b'a' c && leb c b'z'
    then some (c - 71)
    else if leb b'0' c && leb c b'9'
    then some (c + 4)
    else if c == b'-'
    then some 62
    else if c == b'+'
    then some 62
    else if c == b'_'
    then some 63
    else if c == b'/'
    then some 63
    else none

-- `base64.urlsafe_b64encode`
unfoldable pub urlsafe_b64encode : List ℕ → List ℕ
unfolding symbol
urlsafe_b64encode [] = []
urlsafe_b64encode (a ∷ []) = symbol (a / 4) ∷ symbol (a % 4 * 16) ∷ pad ∷ pad ∷ []
urlsafe_b64encode (a ∷ b ∷ []) =
    symbol (a / 4) ∷ symbol (a % 4 * 16 + b / 16) ∷ symbol (b % 16 * 4) ∷ pad ∷ []
urlsafe_b64encode (a ∷ b ∷ c ∷ r) =
    symbol (a / 4)
    ∷ symbol (a % 4 * 16 + b / 16)
    ∷ symbol (b % 16 * 4 + c / 64)
    ∷ symbol (c % 64)
    ∷ urlsafe_b64encode r

-- `rstrip(b"=")`
unfoldable pub rstrip_pad : List ℕ → List ℕ
rstrip_pad [] = []
rstrip_pad (x ∷ xs) =
    let rest = rstrip_pad xs in
    elim rest [ [] ↦ if x == pad then [] else x ∷ [] | y ∷ ys ↦ x ∷ y ∷ ys ]

abbrev pub is_end : List ℕ → Bool
is_end [] = true
is_end (x ∷ xs) = false

-- The bytes of a group of four values, and of a last group of three or two
abbrev pub bytes3 : Option ℕ → Option ℕ → Option ℕ → Option ℕ → Option (List ℕ)
bytes3 (some i) (some j) (some k) (some l) =
    some ((i * 4 + j / 16) ∷ (j % 16 * 16 + k / 4) ∷ (k % 4 * 64 + l) ∷ [])
bytes3 _ _ _ _ = none

abbrev pub bytes2 : Option ℕ → Option ℕ → Option ℕ → Option (List ℕ)
bytes2 (some i) (some j) (some k) = some ((i * 4 + j / 16) ∷ (j % 16 * 16 + k / 4) ∷ [])
bytes2 _ _ _ = none

abbrev pub bytes1 : Option ℕ → Option ℕ → Option (List ℕ)
bytes1 (some i) (some j) = some ((i * 4 + j / 16) ∷ [])
bytes1 _ _ = none

abbrev pub prepend : Option (List ℕ) → Option (List ℕ) → Option (List ℕ)
prepend none r = none
prepend (some xs) none = none
prepend (some xs) (some ys) = some (xs ++ ys)

-- `base64.b64decode(…, altchars=b"-_", validate=True)`; `none` is binascii.Error. The bits that a
-- last group has over are not looked at.
unfoldable pub b64decode : List ℕ → Option (List ℕ)
unfolding value
b64decode [] = some []
b64decode (a ∷ []) = none
b64decode (a ∷ b ∷ []) = none
b64decode (a ∷ b ∷ c ∷ []) = none
b64decode (a ∷ b ∷ c ∷ d ∷ r) =
    let rest = b64decode r in
    if d == pad && is_end r
    then (if c == pad then bytes1 (value a) (value b) else bytes2 (value a) (value b) (value c))
    else prepend (bytes3 (value a) (value b) (value c) (value d)) rest

-- `b"=" * (-len(code) % 4)`
abbrev pub pads : ℕ → List ℕ
pads n =
    if n % 4 == 0
    then []
    else if n % 4 == 3
    then pad ∷ []
    else if n % 4 == 2
    then pad ∷ pad ∷ []
    else pad ∷ pad ∷ pad ∷ []
