-- ===== src/Documents/Pipeline/Outcome.antt =====
-- How a job ends, and what it has indexed then.
use cyber_range.Common.{ℕ, ◌+◌, ◌≡◌, String, Bool, true, Option, List, ◌++◌, length, refl, ◌⊎◌}
use cyber_range.Http.{ok, Action}
use cyber_range.Documents.Pipeline.{
  Page, StoredChunk, Etl, command, read_pages, with_metadata, count_chunks, insert_batches,
  index_pdf, process_pdf,
}

module _ (share : ℕ → ℕ → ℕ) (is_blank : String → Bool) (estimate_tokens : String → ℕ)
    (sent_tokenize : String → List String) (splits : String → Bool) (answers : ℕ → Bool)
    (accepts : List StoredChunk → Bool) (pdf_max_pages : ℕ) (filename : String) (lab : ℕ)
    (access_level : String) where
  abbrev inserting : ℕ → List StoredChunk → ℕ → ℕ → Action Etl Unit
  inserting =
      insert_batches share is_blank estimate_tokens sent_tokenize splits answers accepts
        pdf_max_pages filename lab access_level

  abbrev numbered : List String → List StoredChunk
  numbered =
      with_metadata share is_blank estimate_tokens sent_tokenize splits answers accepts
        pdf_max_pages filename lab access_level 0

  abbrev counting : List String → ℕ → ℕ → Action Etl Unit
  counting =
      count_chunks share is_blank estimate_tokens sent_tokenize splits answers accepts pdf_max_pages
        filename lab access_level

  abbrev reading : List Page → ℕ → ℕ → Action Etl (List String)
  reading =
      read_pages share is_blank estimate_tokens sent_tokenize splits answers accepts pdf_max_pages
        filename lab access_level

  abbrev indexing : Option (List Page) → Action Etl ℕ
  indexing =
      index_pdf share is_blank estimate_tokens sent_tokenize splits answers accepts pdf_max_pages
        filename lab access_level

  abbrev processing : Option (List Page) → Action Etl ℕ
  processing =
      process_pdf share is_blank estimate_tokens sent_tokenize splits answers accepts pdf_max_pages
        filename lab access_level

  -- A job that returned `n` stands at progress 100: it has finished and added `n` chunks of some
  -- text to the vector store, numbered from 0 and marked with the file, the lab and the access
  -- level, or it has failed, and `n` is 0.
  pub record IsFinished (before : Etl) (n : ℕ) (after : Etl) : Type 0 where
    pub chunks : List String
    pub returned : n ≡ length chunks
    pub status : after.status ≡ "Finished"
    pub stored : after.stored ≡ before.stored ++ numbered chunks

  abbrev pub IsEnd : Etl → ℕ → Etl → Type 0
  IsEnd before n after =
      (after.progress ≡ 100) × (IsFinished before n after ⊎ ((n ≡ 0) × (after.status ≡ "Failed")))

  module _ (up : (k : ℕ) → answers k ≡ true) where
    command_runs :
        (f : Etl → Etl) (e : Etl)
        → command share is_blank estimate_tokens sent_tokenize splits answers accepts pdf_max_pages
            filename lab access_level f e
          ≡ (ok tt, record (f e) { sent = e.sent + 1 })
    unfolding command
    command_runs f e = rw (up e.sent) refl

    abbrev reports :
        (status : String) (progress : ℕ) (e : Etl)
        → command share is_blank estimate_tokens sent_tokenize splits answers accepts pdf_max_pages
            filename lab access_level
            (λ x. record x { status = status; progress = progress })
            e
          ≡ (ok tt, record e { status = status; progress = progress; sent = e.sent + 1 })
    reports status progress e =
        command_runs (λ x. record x { status = status; progress = progress }) e

    abbrev moves :
        (progress : ℕ) (e : Etl)
        → command share is_blank estimate_tokens sent_tokenize splits answers accepts pdf_max_pages
            filename lab access_level
            (λ x. record x { progress = progress })
            e
          ≡ (ok tt, record e { progress = progress; sent = e.sent + 1 })
    moves progress e = command_runs (λ x. record x { progress = progress }) e
