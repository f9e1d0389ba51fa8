-- ===== src/Documents/Paths.antt =====
-- Python's `str.split`, `str.join` and `str.partition` at "/", `posixpath.join` and
-- `posixpath.normpath`, on texts as lists of code points.
pub mod Laws
use Prim.Native.Char.{code}
use Prim.Native.String.{String}
use Prim.Native.String
use cyber_range.Common.{
  ℕ, Bool, true, false, List, [], ◌∷◌, ◌++◌, ◌==◌, ◌&&◌, ◌||◌, not, if◌then◌else◌,
}

abbrev pub Text : Type 0
Text = List ℕ

abbrev pub codes : String → Text
codes String.[] = []
codes (String.◌∷◌ c s) = code c ∷ codes s

unfoldable pub text_eq : Text → Text → Bool
text_eq [] [] = true
text_eq [] (_ ∷ _) = false
text_eq (_ ∷ _) [] = false
text_eq (a ∷ s) (b ∷ t) = a == b && text_eq s t

abbrev pub slash : ℕ
slash = b'/'

abbrev pub dot : Text
dot = codes "."

abbrev pub dotdot : Text
dotdot = codes ".."

abbrev pub is_empty {ℓ} : {A : Type ℓ} → List A → Bool
is_empty [] = true
is_empty (_ ∷ _) = false

abbrev pub cons_head : ℕ → List Text → List Text
cons_head c [] = (c ∷ []) ∷ []
cons_head c (p ∷ ps) = (c ∷ p) ∷ ps

-- `path.split("/")`
unfoldable pub split_slash : Text → List Text
split_slash [] = [] ∷ []
split_slash (c ∷ s) = let rest = split_slash s in if c == slash then [] ∷ rest else cons_head c rest

-- `"/".join(parts)`
unfoldable pub join_slash : List Text → Text
join_slash [] = []
join_slash (p ∷ []) = p
join_slash (p ∷ q ∷ ps) = p ++ slash ∷ join_slash (q ∷ ps)

-- `path.partition("/")`, without the separator
unfoldable pub partition : Text → Text × Text
partition [] = ([], [])
partition (c ∷ s) =
    let (before, after) = partition s in if c == slash then ([], s) else (c ∷ before, after)

abbrev pub is_absolute : Text → Bool
is_absolute [] = false
is_absolute (c ∷ _) = c == slash

-- `posixpath.join(folder, name)` for a folder that does not end in a slash
unfoldable pub join_path : Text → Text → Text
join_path folder name = if is_absolute name then name else folder ++ slash ∷ name

abbrev top_is_dotdot : List Text → Bool
top_is_dotdot [] = false
top_is_dotdot (c ∷ _) = text_eq c dotdot

abbrev pop : List Text → List Text
pop [] = []
pop (_ ∷ st) = st

-- One round of the loop in `normpath`; the components seen so far have the last one at the head.
unfoldable pub norm_step : Bool → List Text → Text → List Text
norm_step absolute st comp =
    if is_empty comp || text_eq comp dot
    then st
    else if not (text_eq comp dotdot) || (not absolute && is_empty st) || top_is_dotdot st
    then comp ∷ st
    else pop st

unfoldable pub norm_loop : Bool → List Text → List Text → List Text
norm_loop absolute st [] = st
norm_loop absolute st (c ∷ cs) = norm_loop absolute (norm_step absolute st c) cs

unfoldable pub rev_onto {ℓ} : {A : Type ℓ} → List A → List A → List A
rev_onto [] acc = acc
rev_onto (x ∷ xs) acc = rev_onto xs (x ∷ acc)

abbrev pub rest_of : Text → Text
rest_of [] = []
rest_of (_ ∷ r) = r

-- One leading slash, or two where the path has exactly two
abbrev pub leading_slashes : Text → Text
leading_slashes path =
    if is_absolute path
    then (if is_absolute (rest_of path) && not (is_absolute (rest_of (rest_of path)))
        then slash ∷ slash ∷ []
        else slash ∷ [])
    else []

abbrev pub or_dot : Text → Text
or_dot [] = dot
or_dot (c ∷ s) = c ∷ s

abbrev pub components : Text → List Text
components path = rev_onto (norm_loop (is_absolute path) [] (split_slash path)) []

unfoldable pub normpath : Text → Text
unfolding split_slash norm_loop rev_onto
normpath path = or_dot (leading_slashes path ++ join_slash (components path))
