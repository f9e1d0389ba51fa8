-- ===== src/Chat/Context.antt =====
-- The context of a chat turn in `generate_chat_response_sse` of backend/app/chat/service.py: the
-- documents that the vector store finds, and the reranker's choice among them.
pub mod Choice
use cyber_range.Common.{
  ℕ, zero, suc, String, Bool, true, false, Option, none, some, List, [], ◌∷◌, ◌&&◌, not, take,
  select, str_eq, if◌then◌else◌,
}
use cyber_range.Http.{Result, ok, err, Action, pure, lift, ◌>>=◌}
use cyber_range.Json.{Json, is_str}

-- The `where` of the search: the lab, and for all but admins only public chunks
pub record Where : Type 0 where
  pub lab_instance_id : ℕ
  pub only_public : Bool

abbrev pub where_of : ℕ → Option Json → Where
where_of lab role = record { lab_instance_id = lab; only_public = not (is_str "admin" role) }

-- `[doc for doc in … if doc]`
unfoldable pub present_docs : List (Option String) → List String
present_docs [] = []
present_docs (none ∷ ds) = present_docs ds
present_docs (some d ∷ ds) = let rest = present_docs ds in if str_eq d "" then rest else d ∷ rest

-- the texts of a search: `none` is an answer without a list of documents
abbrev pub texts_of : Option (List (Option String)) → List String
texts_of none = []
texts_of (some docs) = present_docs docs

-- `Score` is a float that the cross-encoder gives; `gtb` is `>`, `is_positive` is `> 0`.
module _ {Score : Type 0} (gtb : Score → Score → Bool) (is_positive : Score → Bool) where
  -- `zip`, which ends with the shorter list
  abbrev pub zip : List Score → List String → List (Score × String)
  zip [] ds = []
  zip (s ∷ ss) [] = []
  zip (s ∷ ss) (d ∷ ds) = (s, d) ∷ zip ss ds

  -- `sort(key=…, reverse=True)`, which keeps the order of equal scores
  unfoldable pub insert_scored : Score × String → List (Score × String) → List (Score × String)
  insert_scored x [] = x ∷ []
  insert_scored x (y ∷ ys) =
      let rest = insert_scored x ys in if gtb y.0 x.0 then y ∷ rest else x ∷ y ∷ ys

  unfoldable pub sort_scored : List (Score × String) → List (Score × String)
  unfolding insert_scored
  sort_scored [] = []
  sort_scored (x ∷ xs) = insert_scored x (sort_scored xs)

  -- `[doc for score, doc in scored_docs[:2] if score > 0]`
  unfoldable pub keep_positive : List (Score × String) → List String
  keep_positive [] = []
  keep_positive (x ∷ xs) =
      let rest = keep_positive xs in if is_positive x.0 then x.1 ∷ rest else rest

  unfoldable pub top_docs : List Score → List String → List String
  unfolding sort_scored keep_positive
  top_docs scores docs = keep_positive (take 2 (sort_scored (zip scores docs)))

  -- `predict` is the cross-encoder on the pairs of the prompt with each document.
  module _ {S : Type 0} (predict : String → List String → Result (List Score)) where
    abbrev pub rerank : String → List String → Action S (List String)
    rerank prompt docs = lift (predict prompt docs) >>= λ scores. pure (top_docs scores docs)

    unfoldable pub choose_docs : Bool → String → List String → Action S (List String)
    unfolding top_docs
    choose_docs use_reranker prompt [] = pure []
    choose_docs use_reranker prompt (d ∷ ds) =
        if use_reranker then rerank prompt (d ∷ ds) else pure (d ∷ ds)
