-- ===== src/Tests/Indexing.antt =====
-- A document of two pages, the second without text.
use cyber_range.Common.{ℕ, String, true, false, some, List, [], ◌∷◌, ◌*◌, ◌/◌}
use cyber_range.Http.{Result}
use cyber_range.Documents.Pipeline.{text, blank, Etl, process_pdf}

abbrev share : ℕ → ℕ → ℕ
share i n = i * 30 / n

abbrev one_sentence : String → List String
one_sentence t = t ∷ []

abbrev before : Etl
before = record { status = "Queued"; progress = 0; stored = []; sent = 0 }

abbrev ended : Result ℕ × Etl
ended =
    process_pdf share (λ _. false) (λ _. 10) one_sentence (λ _. true) (λ _. true) (λ _. true) 50
      "a.pdf" 7 "public" (some (text "Welcome." ∷ blank ∷ [])) before
