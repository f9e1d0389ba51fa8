-- ===== src/Tests/Memory.antt =====
-- A Redis in memory: a number and a time to live for each key, in a network that never fails.
use cyber_range.Common.{
  ℕ, zero, suc, ◌+◌, ◌≡◌, ◌≢◌, Bool, true, false, ◌&&◌, Option, none, some, ◌==◌, str_eq,
  str_eq_refl, arith, refl, sym, ap, ◌∙◌, if◌then◌else◌,
}
use cyber_range.Redis.{Redis, Key, rate_limit, login_attempts, jwt_forgery}

abbrev pub bool_eq : Bool → Bool → Bool
bool_eq true b = b
bool_eq false true = false
bool_eq false false = true

unfoldable pub key_eq : Key → Key → Bool
key_eq (rate_limit a s) (rate_limit b t) = str_eq a b && str_eq s t
key_eq (login_attempts a s m) (login_attempts b t n) = a == b && str_eq s t && m == n
key_eq (jwt_forgery a b s c) (jwt_forgery d e t f) = a == d && b == e && str_eq s t && bool_eq c f
key_eq _ _ = false

key_eq_refl : (k : Key) → key_eq k k ≡ true
unfolding key_eq
key_eq_refl (rate_limit a s) = ground (arith, str_eq_refl a, str_eq_refl s)
key_eq_refl (login_attempts a s m) = ground (arith, str_eq_refl s)
key_eq_refl (jwt_forgery a b s c) = ground (arith, str_eq_refl s)

abbrev pub Cells : Type 0
Cells = Key → ℕ × Option ℕ

abbrev pub store : Key → ℕ → Option ℕ → Cells → Cells
store k v t c = λ j. if key_eq j k then (v, t) else c j

abbrev pub set_if_free : ℕ → Key → ℕ → Cells → Option (Bool × Cells)
set_if_free zero k t c = some (true, store k 1 (some t) c)
set_if_free (suc _) k t c = some (false, c)

abbrev pub empty_cells : Cells
empty_cells = λ _. (0, none)

read-store : (k : Key) (v : ℕ) (t : Option ℕ) (c : Cells) → store k v t c k ≡ (v, t)
read-store k v t c = rw (key_eq_refl k)

-- What a successful command answered and left behind.
pub answered :
    {A : Type 0} {a b : A} {c d : Cells}
    → ◌≡◌ {A = Option (A × Cells)} (some (a, c)) (some (b, d))
    → (a ≡ b) × (c ≡ d)
answered {a} {c} e =
    (ap (λ o. elim o [ none ↦ a | some p ↦ p.0 ]) e, ap (λ o. elim o [ none ↦ c | some p ↦ p.1 ]) e)

pub left : {c d : Cells} → some c ≡ some d → c ≡ d
left {c} e = ap (λ o. elim o [ none ↦ c | some x ↦ x ]) e

pub stored :
    (k : Key) (v : ℕ) (t : Option ℕ) (c d : Cells)
    → store k v t c ≡ d
    → ((d k).0 ≡ v) × ((d k).1 ≡ t)
stored k v t c d e =
    let now : d k ≡ (v, t) = ap (λ f. f k) (sym e) ∙ read-store k v t c in
    (ap (λ p. p.0) now, ap (λ p. p.1) now)

pub incr_law :
    (k : Key) (c : Cells) (t : Option ℕ) (n : ℕ) (d : Cells)
    → ◌≡◌ {A = Option (ℕ × Cells)} (some ((c k).0 + 1, store k ((c k).0 + 1) t c)) (some (n, d))
    → (n ≡ (c k).0 + 1) × ((d k).0 ≡ n) × ((d k).1 ≡ t)
incr_law k c t n d e =
    let (number, cells) = answered e in
    let (v, l) = stored k ((c k).0 + 1) t c d cells in (sym number, v ∙ number, l)

pub reserve_law :
    (m : ℕ) (k : Key) (t : ℕ) (c : Cells) (set : Bool) (d : Cells)
    → m ≡ (c k).0
    → set_if_free m k t c ≡ some (set, d)
    → ((d k).0 ≢ 0) × ((c k).0 ≢ 0 → (set ≡ false) × (d ≡ c)) × ((c k).0 ≡ 0 → set ≡ true)
reserve_law zero k t c set d m e =
    let (yes_set, cells) = answered e in
    let one : (d k).0 ≡ 1 = (stored k 1 (some t) c d cells).0 in
    ((λ z. absurd (omega arith)), (λ taken. absurd (taken (sym m))), (λ _. sym yes_set))
reserve_law (suc i) k t c set d m e =
    let (not_set, cells) = answered e in
    let same : (d k).0 ≡ (c k).0 = ap (λ f. (f k).0) (sym cells) in
    ((λ z. absurd (omega arith)), (λ _. (sym not_set, sym cells)), (λ free. absurd (omega arith)))

abbrev pub memory : Redis
memory = record {
  Store = Cells;
  value = λ k c. (c k).0;
  ttl = λ k c. (c k).1;
  incr = λ k c. some ((c k).0 + 1, store k ((c k).0 + 1) (c k).1 c);
  expire = λ k t c. some (store k (c k).0 (some t) c);
  incr_expire = λ k t c. some ((c k).0 + 1, store k ((c k).0 + 1) (some t) c);
  set_nx = λ k t c. set_if_free (c k).0 k t c;
  delete = λ k c. some (store k 0 none c);
  incr_counts = λ k c n d e. let l = incr_law k c (c k).1 n d e in (l.0, l.1);
  incr_keeps_ttl = λ k c n d e. (incr_law k c (c k).1 n d e).2;
  expire_keeps = λ k t c d e. stored k (c k).0 (some t) c d (left e);
  incr_expire_counts = λ k t c n d e. incr_law k c (some t) n d e;
  set_nx_reserves = λ k t c set d e. (reserve_law (c k).0 k t c set d refl e).0;
  set_nx_taken = λ k t c set d e. (reserve_law (c k).0 k t c set d refl e).1;
  set_nx_free = λ k t c set d e. (reserve_law (c k).0 k t c set d refl e).2;
  delete_frees = λ k c d e. (stored k 0 none c d (left e)).0;
}
