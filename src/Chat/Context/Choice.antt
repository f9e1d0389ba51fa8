-- ===== src/Chat/Context/Choice.antt =====
-- The reranker chooses among the documents that it is given.
use cyber_range.Common.{
  ◌≤◌, ◌≡◌, String, Bool, true, false, List, [], ◌∷◌, All, All-take, arith, subst, length, take,
  Bool-cases, inl, inr,
}
use cyber_range.Http.{Result, ok, Result-cases}
use cyber_range.Chat.Context.{zip, insert_scored, sort_scored, keep_positive, top_docs, choose_docs}

module _ {Score : Type 0} (gtb : Score → Score → Bool) (is_positive : Score → Bool)
    (P : String → Type 0) where
  abbrev Scored : Score × String → Type 0
  Scored x = P x.1

  zip-All : (ss : List Score) (ds : List String) → All P ds → All Scored (zip gtb is_positive ss ds)
  zip-All [] ds h = tt
  zip-All (s ∷ ss) [] h = tt
  zip-All (s ∷ ss) (d ∷ ds) h = (h.0, zip-All ss ds h.1)

  insert_scored-All :
      (x : Score × String) (ys : List (Score × String))
      → Scored x
      → All Scored ys
      → All Scored (insert_scored gtb is_positive x ys)
  unfolding insert_scored
  insert_scored-All x [] h hs = (h, tt)
  insert_scored-All x (y ∷ ys) h hs = elim (Bool-cases (gtb y.0 x.0)) [
    | inl above ↦ rw above (hs.0, insert_scored-All x ys h hs.1)
    | inr below ↦ rw below (h, hs)
  ]

  sort_scored-All :
      (xs : List (Score × String)) → All Scored xs → All Scored (sort_scored gtb is_positive xs)
  unfolding sort_scored
  sort_scored-All [] h = tt
  sort_scored-All (x ∷ xs) h = insert_scored-All x _ h.0 (sort_scored-All xs h.1)

  keep_positive-All :
      (xs : List (Score × String)) → All Scored xs → All P (keep_positive gtb is_positive xs)
  unfolding keep_positive
  keep_positive-All [] h = tt
  keep_positive-All (x ∷ xs) h = elim (Bool-cases (is_positive x.0)) [
    | inl yes' ↦ rw yes' (h.0, keep_positive-All xs h.1)
    | inr no' ↦ rw no' (keep_positive-All xs h.1)
  ]

  pub top_docs-All :
      (ss : List Score) (ds : List String) → All P ds → All P (top_docs gtb is_positive ss ds)
  unfolding top_docs
  top_docs-All ss ds h =
      keep_positive-All _ (All-take Scored 2 _ (sort_scored-All _ (zip-All ss ds h)))

  -- What holds of every document holds of every document that is chosen.
  pub choose_docs-All :
      {S : Type 0} (predict : String → List String → Result (List Score)) (use_reranker : Bool)
      (prompt : String) (ds texts : List String) (s t : S)
      → All P ds
      → choose_docs gtb is_positive predict use_reranker prompt ds s ≡ (ok texts, t)
      → All P texts
  unfolding choose_docs
  choose_docs-All predict use_reranker prompt [] texts s t h e =
      let same : [] ≡ texts = ground (arith, e) in subst (All P) same tt
  choose_docs-All predict false prompt (d ∷ ds) texts s t h e =
      let same : d ∷ ds ≡ texts = ground (arith, e) in subst (All P) same h
  choose_docs-All predict true prompt (d ∷ ds) texts s t h e =
      elim (Result-cases (predict prompt (d ∷ ds))) [
        | inr (x, raised) ↦ absurd (ground (arith, e, raised))
        | inl (ss, scored) ↦
            let same : top_docs gtb is_positive ss (d ∷ ds) ≡ texts = ground (arith, e, scored) in
            subst (All P) same (top_docs-All ss (d ∷ ds) h)
      ]

pub choose_docs-same :
    {Score S : Type 0} (gtb : Score → Score → Bool) (is_positive : Score → Bool)
    (predict : String → List String → Result (List Score)) (use_reranker : Bool) (prompt : String)
    (ds texts : List String) (s t : S)
    → choose_docs gtb is_positive predict use_reranker prompt ds s ≡ (ok texts, t)
    → t ≡ s
unfolding choose_docs
choose_docs-same gtb is_positive predict use_reranker prompt [] texts s t e = ground (arith, e)
choose_docs-same gtb is_positive predict false prompt (d ∷ ds) texts s t e = ground (arith, e)
choose_docs-same gtb is_positive predict true prompt (d ∷ ds) texts s t e =
    elim (Result-cases (predict prompt (d ∷ ds))) [
      | inr (x, raised) ↦ absurd (ground (arith, e, raised))
      | inl (ss, scored) ↦ ground (arith, e, scored)
    ]

length-keep_positive :
    {Score : Type 0} (gtb : Score → Score → Bool) (is_positive : Score → Bool)
    (xs : List (Score × String))
    → length (keep_positive gtb is_positive xs) ≤ length xs
unfolding keep_positive
length-keep_positive gtb is_positive [] = omega arith
length-keep_positive gtb is_positive (x ∷ xs) =
    ground (arith, length-keep_positive gtb is_positive xs)

abbrev take_two_length : {A : Type 0} (xs : List A) → length (take 2 xs) ≤ 2
take_two_length [] = omega arith
take_two_length (x ∷ []) = omega arith
take_two_length (x ∷ y ∷ r) = omega arith

-- At most two documents are left.
pub length-top_docs :
    {Score : Type 0} (gtb : Score → Score → Bool) (is_positive : Score → Bool) (ss : List Score)
    (ds : List String)
    → length (top_docs gtb is_positive ss ds) ≤ 2
unfolding top_docs
length-top_docs gtb is_positive ss ds = omega (
  arith,
  length-keep_positive gtb is_positive
      (take 2 (sort_scored gtb is_positive (zip gtb is_positive ss ds))),
  take_two_length (sort_scored gtb is_positive (zip gtb is_positive ss ds)),
)
