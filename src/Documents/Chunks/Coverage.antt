-- ===== src/Documents/Chunks/Coverage.antt =====
-- Chunks cover the sentences in order, and overlap only with the chunk before them.
use cyber_range.Common.{
  ℕ, ◌+◌, ◌-◌, ◌≡◌, String, true, false, List, [], ◌∷◌, ◌++◌, map, append_assoc, arith, refl, sym,
  ap, subst, Bool-cases, inl, inr, ltb, ◌&&◌, not,
}
use cyber_range.Documents.Chunks.{is_empty, drop_front, chunk_sentences, max_tokens}

-- A chunk: the sentences repeated from the chunk before it, and the new ones.
pub record Piece : Type 0 where
  pub kept : List String
  pub fresh : List String

abbrev pub whole : Piece → List String
whole p = p.kept ++ p.fresh

abbrev pub all_fresh : List Piece → List String
all_fresh [] = []
all_fresh (p ∷ ps) = p.fresh ++ all_fresh ps

-- `xs` is the end of `ys`.
abbrev pub IsSuffix : List String → List String → Type 0
IsSuffix xs ys = (front : List String) × (front ++ xs ≡ ys)

-- Each chunk repeats an end of the chunk before it (`before` for the first) and adds sentences.
abbrev pub IsChain : List String → List Piece → Type 0
IsChain before [] = Unit
IsChain before (p ∷ ps) = IsSuffix p.kept before × (is_empty p.fresh ≡ false) × IsChain (whole p) ps

-- The chunks are `pieces` whose new sentences are `sentences`, in order and without a gap.
pub record IsCover (before : List String) (chunks : List (List String)) (sentences : List String)
    : Type 0 where
  pub pieces : List Piece
  pub same : map whole pieces ≡ chunks
  pub fresh : all_fresh pieces ≡ sentences
  pub chain : IsChain before pieces

done-IsCover : (before : List String) → IsCover before [] []
done-IsCover before = record { pieces = []; same = refl; fresh = refl; chain = tt }

piece-IsCover :
    (kept fresh before : List String) (chunks : List (List String)) (ss : List String)
    → IsSuffix kept before
    → is_empty fresh ≡ false
    → IsCover (kept ++ fresh) chunks ss
    → IsCover before ((kept ++ fresh) ∷ chunks) (fresh ++ ss)
piece-IsCover kept fresh before chunks ss end new rest = record {
  pieces = record { kept = kept; fresh = fresh } ∷ rest.pieces;
  same = ap (λ l. (kept ++ fresh) ∷ l) rest.same;
  fresh = ap (λ l. fresh ++ l) rest.fresh;
  chain = (end, new, rest.chain);
}

is_empty-append_right : (xs ys : List String) → is_empty (xs ++ ys) ≡ true → ys ≡ []
is_empty-append_right [] [] e = refl
is_empty-append_right [] (y ∷ ys) e = absurd (ground (arith, e))
is_empty-append_right (x ∷ xs) ys e = absurd (ground (arith, e))

is_empty-append : (xs : List String) (s : String) → is_empty (xs ++ s ∷ []) ≡ false
is_empty-append [] s = refl
is_empty-append (x ∷ xs) s = refl

new_sentences :
    (kept fresh : List String)
    → (is_empty fresh ≡ true → is_empty (kept ++ fresh) ≡ true)
    → is_empty (kept ++ fresh) ≡ false
    → is_empty fresh ≡ false
new_sentences kept fresh h full = ground (arith, h, full)

module _ (estimate_tokens : String → ℕ) where
  drop_front-IsSuffix : (xs : List String) (n : ℕ) → IsSuffix (drop_front estimate_tokens xs n).0 xs
  unfolding drop_front
  drop_front-IsSuffix [] n = ([], refl)
  drop_front-IsSuffix (x ∷ []) n = ([], refl)
  drop_front-IsSuffix (x ∷ y ∷ r) n =
      let (front, e) = drop_front-IsSuffix (y ∷ r) (n - estimate_tokens x) in
      elim (Bool-cases (ltb 50 n)) [
        | inl more ↦ (x ∷ front, rw more (ap (λ l. x ∷ l) e))
        | inr enough ↦ ([], rw enough refl)
      ]

  cover :
      (ss kept fresh before : List String) (n : ℕ)
      → IsSuffix kept before
      → (is_empty fresh ≡ true → is_empty (kept ++ fresh) ≡ true)
      → IsCover before (chunk_sentences estimate_tokens ss (kept ++ fresh) n) (fresh ++ ss)
  unfolding chunk_sentences
  cover [] kept fresh before n s h = elim (Bool-cases (is_empty (kept ++ fresh))) [
    | inl empty ↦ rw empty (
        subst (λ l. IsCover before [] (l ++ [])) (sym (is_empty-append_right kept fresh empty))
          (done-IsCover before))
    | inr full ↦ rw full (
        piece-IsCover kept fresh before [] [] s (new_sentences kept fresh h full)
          (done-IsCover (kept ++ fresh)))
  ]
  cover (x ∷ ss) kept fresh before n s h =
      let chunk = kept ++ fresh in
      let left = drop_front estimate_tokens chunk n in
      elim (Bool-cases (ltb max_tokens (n + estimate_tokens x) && not (is_empty chunk))) [
        | inl over ↦ rw over (
            piece-IsCover kept fresh before
              (chunk_sentences estimate_tokens ss (left.0 ++ x ∷ []) (left.1 + estimate_tokens x))
              (x ∷ ss) s (new_sentences kept fresh h (ground (arith, over)))
              (cover ss left.0 (x ∷ []) chunk (left.1 + estimate_tokens x)
                (drop_front-IsSuffix chunk n) (λ e. absurd (ground (arith, e)))))
        | inr room ↦ rw room (
            subst
              (λ l.
                IsCover before
                  (chunk_sentences estimate_tokens ss (chunk ++ x ∷ []) (n + estimate_tokens x)) l)
              (append_assoc fresh (x ∷ []) ss)
              (subst
                (λ l.
                  IsCover before (chunk_sentences estimate_tokens ss l (n + estimate_tokens x))
                    ((fresh ++ x ∷ []) ++ ss))
                (sym (append_assoc kept fresh (x ∷ [])))
                (cover ss kept (fresh ++ x ∷ []) before (n + estimate_tokens x) s
                  (λ e. absurd (ground (arith, e, is_empty-append fresh x))))))
      ]

  -- The chunks cover the sentences in order and without a gap: each one starts with an end of the
  -- chunk before it (the first with nothing) and goes on with at least one new sentence.
  pub chunks-IsCover :
      (sentences : List String)
      → IsCover [] (chunk_sentences estimate_tokens sentences [] 0) sentences
  chunks-IsCover sentences = cover sentences [] [] [] 0 ([], refl) (λ e. refl)
