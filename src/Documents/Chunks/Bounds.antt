-- ===== src/Documents/Chunks/Bounds.antt =====
-- How many tokens a chunk holds.
use cyber_range.Common.{
  ℕ, ◌+◌, ◌-◌, ◌≤◌, ◌≡◌, String, false, List, [], ◌∷◌, ◌++◌, All, All-append, refl, arith,
  Bool-cases, inl, inr, ltb, ◌&&◌, not,
}
use cyber_range.Documents.Chunks.{is_empty, drop_front, chunk_sentences, max_tokens}

module _ (estimate_tokens : String → ℕ) where
  abbrev pub tokens_of : List String → ℕ
  tokens_of [] = 0
  tokens_of (x ∷ xs) = estimate_tokens x + tokens_of xs

  tokens_of-append : (xs ys : List String) → tokens_of (xs ++ ys) ≡ tokens_of xs + tokens_of ys
  tokens_of-append [] ys = omega arith
  tokens_of-append (x ∷ xs) ys = omega (arith, tokens_of-append xs ys)

  abbrev pub IsShort : List String → Type 0
  IsShort = All (λ s. estimate_tokens s ≤ 125)

  -- What is kept of a chunk: its count is right, and it has at most 125 tokens.
  drop_front-tokens :
      (xs : List String) (n : ℕ)
      → n ≡ tokens_of xs
      → IsShort xs
      → ((drop_front estimate_tokens xs n).1 ≡ tokens_of (drop_front estimate_tokens xs n).0)
        × ((drop_front estimate_tokens xs n).1 ≤ 125)
        × IsShort (drop_front estimate_tokens xs n).0
  unfolding drop_front
  drop_front-tokens [] n e h = ground (arith, e)
  drop_front-tokens (x ∷ []) n e h = ground (arith, e, h.0)
  drop_front-tokens (x ∷ y ∷ r) n e h =
      ground (arith, e, drop_front-tokens (y ∷ r) (n - estimate_tokens x), h.1)

  abbrev pub IsSmall : List (List String) → Type 0
  IsSmall = All (λ c. tokens_of c ≤ max_tokens)

  chunk_sentences-IsSmall :
      (ss current : List String) (n : ℕ)
      → n ≡ tokens_of current
      → n ≤ max_tokens
      → IsShort current
      → IsShort ss
      → IsSmall (chunk_sentences estimate_tokens ss current n)
  unfolding chunk_sentences
  chunk_sentences-IsSmall [] current n e small h hs = elim (Bool-cases (is_empty current)) [
    | inl empty ↦ rw empty tt
    | inr some_left ↦ rw some_left (ground (arith, e, small), tt)
  ]
  chunk_sentences-IsSmall (s ∷ ss) current n e small h hs =
      let (count, few, short) = drop_front-tokens current n e h in
      let kept = drop_front estimate_tokens current n in
      elim (Bool-cases (ltb max_tokens (n + estimate_tokens s) && not (is_empty current))) [
        | inl full ↦ rw full (
          ground (arith, e, small),
          chunk_sentences-IsSmall ss (kept.0 ++ s ∷ []) (kept.1 + estimate_tokens s)
              (ground (arith, count, tokens_of-append kept.0 (s ∷ []))) (ground (arith, few, hs.0))
              (All-append (λ x. estimate_tokens x ≤ 125) kept.0 (s ∷ []) short (hs.0, tt)) hs.1,
        )
        | inr room ↦ rw room (
            chunk_sentences-IsSmall ss (current ++ s ∷ []) (n + estimate_tokens s)
              (ground (arith, e, tokens_of-append current (s ∷ []))) (fits s current n e hs.0 room)
              (All-append (λ x. estimate_tokens x ≤ 125) current (s ∷ []) h (hs.0, tt)) hs.1)
      ]
    where
      fits :
          (s : String) (current : List String) (n : ℕ)
          → n ≡ tokens_of current
          → estimate_tokens s ≤ 125
          → (ltb max_tokens (n + estimate_tokens s) && not (is_empty current)) ≡ false
          → n + estimate_tokens s ≤ max_tokens
      fits s [] n e short room = ground (arith, e, short)
      fits s (x ∷ xs) n e short room = ground (arith, room)

  -- If no sentence has more than 125 tokens, no chunk holds sentences of more than 250 tokens in
  -- total, the overlap with the chunk before it included.
  pub chunks-IsSmall :
      (sentences : List String)
      → IsShort sentences
      → IsSmall (chunk_sentences estimate_tokens sentences [] 0)
  chunks-IsSmall sentences h = chunk_sentences-IsSmall sentences [] 0 refl (omega arith) tt h
