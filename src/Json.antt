-- ===== src/Json.antt =====
-- The JSON values of event payloads (the JSONB columns) and of token claims: Python's `dict.get`,
-- `setdefault` and `{**d, key: value}` on a dict as an association list.
use cyber_range.Common.{
  String, Bool, true, false, ◌&&◌, Option, none, some, List, [], ◌∷◌, ◌≡◌, refl, arith, str_eq,
  str_eq_iff, str_eq_refl, if◌then◌else◌,
}
use cyber_range.Common.Int.{ℤ, pos, leb_ℤ}

-- The modelled code does not look inside lists, dicts and floats: `compound` holds such a value by
-- its canonical text.
pub data Json : Type 0 where
  null : Json
  bool : Bool → Json
  num : ℤ → Json
  str : String → Json
  compound : String → Json

-- Python compares a bool as the number 0 or 1.
abbrev as_number : Json → Option ℤ
as_number (num n) = some n
as_number (bool true) = some (pos 1)
as_number (bool false) = some (pos 0)
as_number null = none
as_number (str _) = none
as_number (compound _) = none

abbrev eq_ℤ : ℤ → ℤ → Bool
eq_ℤ a b = leb_ℤ a b && leb_ℤ b a

abbrev same_number : Option ℤ → Option ℤ → Bool
same_number (some a) (some b) = eq_ℤ a b
same_number (some _) none = false
same_number none (some _) = false
same_number none none = false

-- `==` of two values
unfoldable pub json_eq : Json → Json → Bool
json_eq null null = true
json_eq (str s) (str t) = str_eq s t
json_eq (compound s) (compound t) = str_eq s t
json_eq a b = same_number (as_number a) (as_number b)

-- `==` of the results of two `get`s, where None is the missing key and the JSON null
unfoldable pub get_eq : Option Json → Option Json → Bool
unfolding json_eq
get_eq (some a) (some b) = json_eq a b
get_eq (some a) none = json_eq a null
get_eq none (some b) = json_eq null b
get_eq none none = true

abbrev pub Payload : Type 0
Payload = List (String × Json)

-- `payload.get(key)`
unfoldable pub get : String → Payload → Option Json
get k [] = none
get k ((j, v) ∷ p) = if str_eq j k then some v else get k p

-- `{**payload, key: value}`
unfoldable pub put : String → Json → Payload → Payload
put k v [] = (k, v) ∷ []
put k v ((j, w) ∷ p) = if str_eq j k then (k, v) ∷ p else (j, w) ∷ put k v p

-- `payload.setdefault(key, value)`
unfoldable pub set_default : String → Json → Payload → Payload
unfolding get put
set_default k v p = elim (get k p) [ none ↦ put k v p | some _ ↦ p ]

-- `value == "text"`, for the result of a `get`
abbrev pub is_str : String → Option Json → Bool
is_str t (some (str s)) = str_eq s t
is_str t (some _) = false
is_str t none = false

pub get-put :
    (k j : String) (v : Json) (p : Payload)
    → get j (put k v p) ≡ (if str_eq k j then some v else get j p)
unfolding get put
get-put k j v [] = refl
get-put k j v ((i, w) ∷ p) =
    ground (arith, str_eq_iff k j, str_eq_iff i k, str_eq_iff i j, get-put k j v p)

-- A default never changes a key that is set, nor any other key.
pub get-set_default :
    (k j : String) (v : Json) (p : Payload)
    → str_eq k j ≡ false
    → get j (set_default k v p) ≡ get j p
unfolding set_default
get-set_default k j v p h = ground (arith, get-put k j v p)

-- A value equal to a text is that text.
pub get_eq-str : (o : Option Json) (t : String) → get_eq o (some (str t)) ≡ true → o ≡ some (str t)
unfolding get_eq
get_eq-str none t h = cc
get_eq-str (some null) t h = ground arith
get_eq-str (some (bool true)) t h = ground arith
get_eq-str (some (bool false)) t h = ground arith
get_eq-str (some (num n)) t h = ground arith
get_eq-str (some (str s)) t h = rw ((str_eq_iff s t).0 h)
get_eq-str (some (compound s)) t h = ground arith

pub get_eq-str_refl : (t : String) → get_eq (some (str t)) (some (str t)) ≡ true
unfolding get_eq
get_eq-str_refl t = str_eq_refl t
