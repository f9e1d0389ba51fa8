-- ===== src/Labs/Codes/Laws.antt =====
-- Codes are read back, and only genuine ones are.
use cyber_range.Common.{
  ℕ, zero, suc, ◌+◌, ◌*◌, ◌/◌, ◌%◌, ◌^◌, ◌≤◌, ◌<◌, ◌≡◌, ◌∙◌, none, some, List, [], ◌∷◌, ◌++◌,
  All-append, All-take, All-reverse, reverse, reverse-reverse, length, length-append, length-take,
  length-reverse, take, drop, take-append, drop-append, take-drop, arith, refl, sym, ap, subst,
  Option-cases, inl, inr,
}
use cyber_range.Documents.Paths.Laws.{text_eq_iff}
use cyber_range.Labs.Base64.{b64decode, pads}
use cyber_range.Labs.Base64.Laws.{
  AreBytes, b64decode-urlsafe_b64encode, b64decode-AreBytes, rstrip_pad-pads,
}
use cyber_range.Labs.Codes.{
  digits, number, uuid_bytes, uuid_of_bytes, login_code_mac, lab_login_code, genuine_lab,
  lab_from_login_code,
}

length-digits : (k n : ℕ) → length (digits k n) ≡ k
unfolding digits
length-digits zero n = refl
length-digits (suc k) n = omega (arith, length-digits k (n / 256))

digits-AreBytes : (k n : ℕ) → AreBytes (digits k n)
unfolding digits
digits-AreBytes zero n = tt
digits-AreBytes (suc k) n = (omega arith, digits-AreBytes k (n / 256))

power_step : (k : ℕ) → 256 ^ suc k ≡ 256 * 256 ^ k
power_step k = omega arith

number-digits : (k n : ℕ) → n < 256 ^ k → number (digits k n) ≡ n
unfolding number digits
number-digits zero n h = omega (arith, h)
number-digits (suc k) n h = omega (arith, number-digits k (n / 256), power_step k)

digits-number : (ds : List ℕ) → AreBytes ds → digits (length ds) (number ds) ≡ ds
unfolding number digits
digits-number [] h = refl
digits-number (d ∷ ds) h =
    let low : (d + 256 * number ds) % 256 ≡ d = omega arith in
    let high : (d + 256 * number ds) / 256 ≡ number ds = omega arith in
    rw (low, high, digits-number ds h.1) refl

-- The bytes of a UUID, read back
uuid_bytes-AreBytes : (lab : ℕ) → AreBytes (uuid_bytes lab)
uuid_bytes-AreBytes lab = All-reverse (λ b. b < 256) (digits 16 lab) (digits-AreBytes 16 lab)

length-uuid_bytes : (lab : ℕ) → length (uuid_bytes lab) ≡ 16
length-uuid_bytes lab = length-reverse (digits 16 lab) ∙ length-digits 16 lab

uuid_of_bytes-uuid_bytes : (lab : ℕ) → lab < 256 ^ 16 → uuid_of_bytes (uuid_bytes lab) ≡ lab
uuid_of_bytes-uuid_bytes lab h = rw (reverse-reverse (digits 16 lab)) (number-digits 16 lab h)

uuid_bytes-uuid_of_bytes :
    (bs : List ℕ) → AreBytes bs → length bs ≡ 16 → uuid_bytes (uuid_of_bytes bs) ≡ bs
uuid_bytes-uuid_of_bytes bs b e =
    let back : digits 16 (number (reverse bs)) ≡ reverse bs =
      subst (λ n. digits n (number (reverse bs)) ≡ reverse bs) (length-reverse bs ∙ e)
        (digits-number (reverse bs) (All-reverse (λ b. b < 256) bs b)) in
    ap reverse back ∙ reverse-reverse bs

-- HMAC-SHA-256 gives at least the 16 bytes that are kept.
abbrev pub IsDigest : (List ℕ → List ℕ) → Type 0
IsDigest digest = (m : List ℕ) → AreBytes (digest m) × (16 ≤ length (digest m))

module _ (digest : List ℕ → List ℕ) (d : IsDigest digest) where
  login_code_mac-AreBytes : (lab : ℕ) → AreBytes (login_code_mac digest lab)
  login_code_mac-AreBytes lab = All-take (λ b. b < 256) 16 _ (d _).0

  length-login_code_mac : (lab : ℕ) → length (login_code_mac digest lab) ≡ 16
  length-login_code_mac lab = length-take 16 _ (d _).1

  -- The 32 bytes of a code
  abbrev raw_code : ℕ → List ℕ
  raw_code lab = uuid_bytes lab ++ login_code_mac digest lab

  raw_code-AreBytes : (lab : ℕ) → AreBytes (raw_code lab)
  raw_code-AreBytes lab =
      All-append (λ b. b < 256) (uuid_bytes lab) (login_code_mac digest lab)
        (uuid_bytes-AreBytes lab) (login_code_mac-AreBytes lab)

  length-raw_code : (lab : ℕ) → length (raw_code lab) ≡ 32
  length-raw_code lab = omega (
    arith,
    length-append (uuid_bytes lab) (login_code_mac digest lab),
    length-uuid_bytes lab,
    length-login_code_mac lab,
  )

  -- Decoding a lab's code gives the bytes that were encoded.
  b64decode-lab_login_code :
      (lab : ℕ)
      → b64decode (lab_login_code digest lab ++ pads (length (lab_login_code digest lab)))
        ≡ some (raw_code lab)
  unfolding lab_login_code
  b64decode-lab_login_code lab =
      ap b64decode (rstrip_pad-pads (raw_code lab) (raw_code-AreBytes lab))
      ∙ b64decode-urlsafe_b64encode (raw_code lab) (raw_code-AreBytes lab)

  genuine_lab-raw_code : (lab : ℕ) → lab < 256 ^ 16 → genuine_lab digest (raw_code lab) ≡ some lab
  genuine_lab-raw_code lab h =
      let cut : take 16 (raw_code lab) ≡ uuid_bytes lab =
        subst (λ n. take n (raw_code lab) ≡ uuid_bytes lab) (length-uuid_bytes lab)
          (take-append (uuid_bytes lab) (login_code_mac digest lab)) in
      let tail : drop 16 (raw_code lab) ≡ login_code_mac digest lab =
        subst (λ n. drop n (raw_code lab) ≡ login_code_mac digest lab) (length-uuid_bytes lab)
          (drop-append (uuid_bytes lab) (login_code_mac digest lab)) in
      ground (
        arith,
        cut,
        tail,
        length-raw_code lab,
        uuid_of_bytes-uuid_bytes lab h,
        text_eq_iff (drop 16 (raw_code lab)) (login_code_mac digest lab),
      )

  -- The code that a lab's students are given names that lab.
  pub lab_from_login_code-lab_login_code :
      (lab : ℕ) → lab < 256 ^ 16 → lab_from_login_code digest (lab_login_code digest lab) ≡ some lab
  unfolding lab_from_login_code
  lab_from_login_code-lab_login_code lab h =
      ap (λ o. elim o [ none ↦ none | some raw ↦ genuine_lab digest raw ])
        (b64decode-lab_login_code lab)
      ∙ genuine_lab-raw_code lab h

  genuine_lab_only :
      (raw : List ℕ) (lab : ℕ)
      → AreBytes raw
      → genuine_lab digest raw ≡ some lab
      → raw ≡ raw_code lab
  genuine_lab_only raw lab b e =
      let named : (length raw ≡ 32)
          × ((uuid_of_bytes (take 16 raw) ≡ lab) × (drop 16 raw ≡ login_code_mac digest lab)) =
        ground (
          arith,
          e,
          text_eq_iff (drop 16 raw) (login_code_mac digest (uuid_of_bytes (take 16 raw))),
        ) in
      let front : uuid_bytes lab ≡ take 16 raw =
        subst (λ n. uuid_bytes n ≡ take 16 raw) named.1.0
          (uuid_bytes-uuid_of_bytes (take 16 raw) (All-take (λ b. b < 256) 16 raw b)
            (length-take 16 raw (omega (arith, named.0)))) in
      sym (take-drop 16 raw) ∙ rw (named.1.1, front) refl

  -- No code but a lab's own one names it: the bytes of an accepted code are the lab's UUID and
  -- its signature.
  pub lab_from_login_code_only :
      (code : List ℕ) (lab : ℕ)
      → lab_from_login_code digest code ≡ some lab
      → b64decode (code ++ pads (length code)) ≡ some (raw_code lab)
  unfolding lab_from_login_code
  lab_from_login_code_only code lab e =
      elim (Option-cases (b64decode (code ++ pads (length code)))) [
        | inl missing ↦ ground (arith, missing, e)
        | inr found ↦
            let named : genuine_lab digest found.0 ≡ some lab =
              sym (ap (λ o. elim o [ none ↦ none | some raw ↦ genuine_lab digest raw ]) found.1)
              ∙ e in
            found.1 ∙ ap some (genuine_lab_only found.0 lab (b64decode-AreBytes _ _ found.1) named)
      ]
