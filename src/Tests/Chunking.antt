-- ===== src/Tests/Chunking.antt =====
-- Sentences of a hundred tokens each.
use cyber_range.Common.{ℕ, String, List, [], ◌∷◌}
use cyber_range.Documents.Chunks.{chunk_sentences}
use cyber_range.Documents.Chunks.Coverage.{IsCover, chunks-IsCover}

abbrev estimate : String → ℕ
estimate s = 100

abbrev sentences : List String
sentences = "One." ∷ "Two." ∷ "Three." ∷ "Four." ∷ []

chunks-IsCover_example : IsCover [] (chunk_sentences estimate sentences [] 0) sentences
chunks-IsCover_example = chunks-IsCover estimate sentences
