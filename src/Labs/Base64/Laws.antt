-- ===== src/Labs/Base64/Laws.antt =====
-- Decoding gives back the bytes that were encoded, with or without the padding.
use cyber_range.Common.{
  ℕ, suc, ◌+◌, ◌*◌, ◌/◌, ◌%◌, ◌<◌, ◌≡◌, Bool, true, false, Option, none, some, List, [], ◌∷◌, ◌++◌,
  ◌==◌, ◌&&◌, if◌then◌else◌, All, All-append, subst, length, arith, refl,
}
use cyber_range.Labs.Base64.{
  pad, symbol, value, urlsafe_b64encode, rstrip_pad, is_end, b64decode, pads, bytes1, bytes2,
  bytes3, prepend,
}

abbrev pub AreBytes : List ℕ → Type 0
AreBytes = All (λ b. b < 256)

value-symbol : (n : ℕ) → n < 64 → value (symbol n) ≡ some n
unfolding value symbol
value-symbol n h = ground arith

symbol-ne-pad : (n : ℕ) → n < 64 → (symbol n == pad) ≡ false
unfolding symbol
symbol-ne-pad n h = ground arith

module _ (a b c : ℕ) (ha : a < 256) (hb : b < 256) where
  abbrev first_symbol : ℕ
  first_symbol = symbol (a / 4)

  abbrev second_symbol : ℕ
  second_symbol = symbol (a % 4 * 16 + b / 16)

  bytes3-symbol :
      c < 256
      → bytes3
          (value first_symbol)
          (value second_symbol)
          (value (symbol (b % 16 * 4 + c / 64)))
          (value (symbol (c % 64)))
        ≡ some (a ∷ b ∷ c ∷ [])
  bytes3-symbol hc =
      rw
        (
          value-symbol (a / 4) (omega arith),
          value-symbol (a % 4 * 16 + b / 16) (omega arith),
          value-symbol (b % 16 * 4 + c / 64) (omega arith),
          value-symbol (c % 64) (omega arith),
        )
        (ground arith)

  bytes2-symbol :
      bytes2 (value first_symbol) (value second_symbol) (value (symbol (b % 16 * 4)))
      ≡ some (a ∷ b ∷ [])
  bytes2-symbol =
      rw
        (
          value-symbol (a / 4) (omega arith),
          value-symbol (a % 4 * 16 + b / 16) (omega arith),
          value-symbol (b % 16 * 4) (omega arith),
        )
        (ground arith)

-- Decoding gives back the bytes that were encoded.
pub b64decode-urlsafe_b64encode :
    (xs : List ℕ) → AreBytes xs → b64decode (urlsafe_b64encode xs) ≡ some xs
unfolding b64decode urlsafe_b64encode
b64decode-urlsafe_b64encode [] h = refl
b64decode-urlsafe_b64encode (a ∷ []) h =
    ground (arith, value-symbol (a / 4), value-symbol (a % 4 * 16))
b64decode-urlsafe_b64encode (a ∷ b ∷ []) h =
    rw (symbol-ne-pad (b % 16 * 4) (omega arith)) (bytes2-symbol a b 0 h.0 h.1.0)
b64decode-urlsafe_b64encode (a ∷ b ∷ c ∷ r) h =
    rw
      (
        symbol-ne-pad (c % 64) (omega arith),
        bytes3-symbol a b c h.0 h.1.0 h.1.1.0,
        b64decode-urlsafe_b64encode r h.1.1.1,
      )
      refl

rstrip_pad-cons :
    (x : ℕ) (xs : List ℕ) → (x == pad) ≡ false → rstrip_pad (x ∷ xs) ≡ x ∷ rstrip_pad xs
unfolding rstrip_pad
rstrip_pad-cons x [] h = rw h refl
rstrip_pad-cons x (y ∷ ys) h = ground (arith, h)

rstrip_pad-symbol :
    (n : ℕ) (xs : List ℕ) → n < 64 → rstrip_pad (symbol n ∷ xs) ≡ symbol n ∷ rstrip_pad xs
rstrip_pad-symbol n xs h = rstrip_pad-cons (symbol n) xs (symbol-ne-pad n h)

rstrip_pad-four :
    (i j k l : ℕ) (xs : List ℕ)
    → i < 64
    → j < 64
    → k < 64
    → l < 64
    → rstrip_pad (symbol i ∷ symbol j ∷ symbol k ∷ symbol l ∷ xs)
      ≡ symbol i ∷ symbol j ∷ symbol k ∷ symbol l ∷ rstrip_pad xs
rstrip_pad-four i j k l xs hi hj hk hl =
    rw
      (
        rstrip_pad-symbol i (symbol j ∷ symbol k ∷ symbol l ∷ xs) hi,
        rstrip_pad-symbol j (symbol k ∷ symbol l ∷ xs) hj,
        rstrip_pad-symbol k (symbol l ∷ xs) hk,
        rstrip_pad-symbol l xs hl,
      )
      refl

pads-four : (n : ℕ) → pads (suc (suc (suc (suc n)))) ≡ pads n
pads-four n = ground arith

-- The padding that is stripped is the one that is added again.
pub rstrip_pad-pads :
    (xs : List ℕ)
    → AreBytes xs
    → rstrip_pad (urlsafe_b64encode xs) ++ pads (length (rstrip_pad (urlsafe_b64encode xs)))
      ≡ urlsafe_b64encode xs
unfolding urlsafe_b64encode
rstrip_pad-pads [] h = unfold rstrip_pad in refl
rstrip_pad-pads (a ∷ []) h =
    rw
      (
        rstrip_pad-symbol (a / 4) (symbol (a % 4 * 16) ∷ pad ∷ pad ∷ []) (omega arith),
        rstrip_pad-symbol (a % 4 * 16) (pad ∷ pad ∷ []) (omega arith),
      )
      (unfold rstrip_pad in refl)
rstrip_pad-pads (a ∷ b ∷ []) h =
    rw
      (
        rstrip_pad-symbol (a / 4) (symbol (a % 4 * 16 + b / 16) ∷ symbol (b % 16 * 4) ∷ pad ∷ [])
            (omega arith),
        rstrip_pad-symbol (a % 4 * 16 + b / 16) (symbol (b % 16 * 4) ∷ pad ∷ []) (omega arith),
        rstrip_pad-symbol (b % 16 * 4) (pad ∷ []) (omega arith),
      )
      (unfold rstrip_pad in refl)
rstrip_pad-pads (a ∷ b ∷ c ∷ r) h =
    rw
      (
        rstrip_pad-four (a / 4) (a % 4 * 16 + b / 16) (b % 16 * 4 + c / 64) (c % 64)
            (urlsafe_b64encode r) (omega arith) (omega arith) (omega arith) (omega arith),
        pads-four (length (rstrip_pad (urlsafe_b64encode r))),
        rstrip_pad-pads r h.1.1.1,
      )
      refl

-- What is decoded is bytes.
abbrev IsBelow : ℕ → Option ℕ → Type 0
IsBelow n none = Unit
IsBelow n (some i) = i < n

value_bound : (c i : ℕ) → value c ≡ some i → i < 64
unfolding value
value_bound c i e = ground arith

IsBelow-intro : (o : Option ℕ) → ((i : ℕ) → o ≡ some i → i < 64) → IsBelow 64 o
IsBelow-intro none h = tt
IsBelow-intro (some i) h = h i refl

value-IsBelow : (c : ℕ) → IsBelow 64 (value c)
value-IsBelow c = IsBelow-intro (value c) (value_bound c)

abbrev AreAllBytes : Option (List ℕ) → Type 0
AreAllBytes none = Unit
AreAllBytes (some xs) = AreBytes xs

bytes1-AreBytes : (x y : Option ℕ) → IsBelow 64 x → IsBelow 64 y → AreAllBytes (bytes1 x y)
bytes1-AreBytes none y hx hy = tt
bytes1-AreBytes (some i) none hx hy = tt
bytes1-AreBytes (some i) (some j) hx hy = (omega arith, tt)

bytes2-AreBytes :
    (x y z : Option ℕ) → IsBelow 64 x → IsBelow 64 y → IsBelow 64 z → AreAllBytes (bytes2 x y z)
bytes2-AreBytes none y z hx hy hz = tt
bytes2-AreBytes (some i) none z hx hy hz = tt
bytes2-AreBytes (some i) (some j) none hx hy hz = tt
bytes2-AreBytes (some i) (some j) (some k) hx hy hz = (omega arith, (omega arith, tt))

bytes3-AreBytes :
    (x y z w : Option ℕ)
    → IsBelow 64 x
    → IsBelow 64 y
    → IsBelow 64 z
    → IsBelow 64 w
    → AreAllBytes (bytes3 x y z w)
bytes3-AreBytes none y z w hx hy hz hw = tt
bytes3-AreBytes (some i) none z w hx hy hz hw = tt
bytes3-AreBytes (some i) (some j) none w hx hy hz hw = tt
bytes3-AreBytes (some i) (some j) (some k) none hx hy hz hw = tt
bytes3-AreBytes (some i) (some j) (some k) (some l) hx hy hz hw =
    (omega arith, (omega arith, (omega arith, tt)))

prepend-AreBytes :
    (x y : Option (List ℕ)) → AreAllBytes x → AreAllBytes y → AreAllBytes (prepend x y)
prepend-AreBytes none y hx hy = tt
prepend-AreBytes (some xs) none hx hy = tt
prepend-AreBytes (some xs) (some ys) hx hy = All-append (λ b. b < 256) xs ys hx hy

if-AreBytes :
    (c : Bool) (x y : Option (List ℕ))
    → AreAllBytes x
    → AreAllBytes y
    → AreAllBytes (if c then x else y)
if-AreBytes true x y hx hy = hx
if-AreBytes false x y hx hy = hy

b64decode-AreAllBytes : (xs : List ℕ) → AreAllBytes (b64decode xs)
unfolding b64decode
b64decode-AreAllBytes [] = tt
b64decode-AreAllBytes (a ∷ []) = tt
b64decode-AreAllBytes (a ∷ b ∷ []) = tt
b64decode-AreAllBytes (a ∷ b ∷ c ∷ []) = tt
b64decode-AreAllBytes (a ∷ b ∷ c ∷ d ∷ r) =
    if-AreBytes (d == pad && is_end r) _ _
      (if-AreBytes (c == pad) _ _ (bytes1-AreBytes _ _ (value-IsBelow a) (value-IsBelow b))
        (bytes2-AreBytes _ _ _ (value-IsBelow a) (value-IsBelow b) (value-IsBelow c)))
      (prepend-AreBytes (bytes3 (value a) (value b) (value c) (value d)) (b64decode r)
        (bytes3-AreBytes _ _ _ _ (value-IsBelow a) (value-IsBelow b) (value-IsBelow c)
          (value-IsBelow d))
        (b64decode-AreAllBytes r))

pub b64decode-AreBytes : (xs ys : List ℕ) → b64decode xs ≡ some ys → AreBytes ys
b64decode-AreBytes xs ys e = subst AreAllBytes e (b64decode-AreAllBytes xs)
