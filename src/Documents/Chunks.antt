-- ===== src/Documents/Chunks.antt =====
-- Overlapping chunks of a text, `_chunk_text_with_overlap` of backend/app/documents/service.py.
-- The tokenizer (tiktoken) and the split into sentences (nltk) are parameters.
pub mod Coverage
pub mod Bounds
use Prim.Native.String.{◌++◌ as str_append}
use cyber_range.Common.{
  ℕ, ◌+◌, ◌-◌, String, Bool, true, false, List, [], ◌∷◌, ◌++◌, map, ◌&&◌, not, ltb, if◌then◌else◌,
}

abbrev pub max_tokens : ℕ
max_tokens = 250

abbrev pub overlap_tokens : ℕ
overlap_tokens = 50

abbrev pub is_empty : List String → Bool
is_empty [] = true
is_empty (x ∷ xs) = false

-- `" ".join(chunk)`
unfoldable pub join_words : List String → String
join_words [] = ""
join_words (x ∷ []) = x
join_words (x ∷ y ∷ r) = str_append x (str_append " " (join_words (y ∷ r)))

-- `_estimate_tokens` counts the tokens of one text.
module _ (estimate_tokens : String → ℕ) where
  -- The inner `while`: sentences go from the front while more than `overlap_tokens` are left, but
  -- never the last one. The count is that of the sentences, so the subtraction does not stop at 0.
  unfoldable pub drop_front : List String → ℕ → List String × ℕ
  drop_front [] n = ([], n)
  drop_front (x ∷ []) n = (x ∷ [], n)
  drop_front (x ∷ y ∷ r) n =
      let rest = drop_front (y ∷ r) (n - estimate_tokens x) in
      if ltb overlap_tokens n then rest else (x ∷ y ∷ r, n)

  -- The `for`, from a state of `current_chunk` and `current_tokens`; the chunks as sentences, in
  -- the order of the appends.
  unfoldable pub chunk_sentences : List String → List String → ℕ → List (List String)
  unfolding drop_front
  chunk_sentences [] current n = if is_empty current then [] else current ∷ []
  chunk_sentences (s ∷ ss) current n =
      let kept = drop_front current n in
      let after = chunk_sentences ss (kept.0 ++ s ∷ []) (kept.1 + estimate_tokens s) in
      let longer = chunk_sentences ss (current ++ s ∷ []) (n + estimate_tokens s) in
      if ltb max_tokens (n + estimate_tokens s) && not (is_empty current)
      then current ∷ after
      else longer

  unfoldable pub chunk_text_with_overlap : (String → List String) → String → List String
  unfolding chunk_sentences
  chunk_text_with_overlap sent_tokenize text =
      map join_words (chunk_sentences (sent_tokenize text) [] 0)
