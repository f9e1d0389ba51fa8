-- ===== src/Documents/Pipeline.antt =====
-- Indexing a document, `process_pdf` and `process_stored_pdf` of backend/app/documents/service.py.
-- pypdf, the object store, the vector store, the tokenizer with the sentence splitter and Redis are
-- parameters, each of which may raise. The job's row in Redis is its status and progress; its
-- expiry and the messages for the page are left out.
pub mod Outcome
use Prim.Native.String.{◌++◌ as str_append}
use cyber_range.Common.{
  ℕ, zero, suc, ◌+◌, ◌-◌, String, Bool, true, false, Option, none, some, List, [], ◌∷◌, ◌++◌,
  length, take, drop, ltb, if◌then◌else◌,
}
use cyber_range.Http.{ok, err, Action, pure, raise, unavailable, runtime_error, ◌>>=◌, ◌>>◌}
use cyber_range.Documents.Chunks.{chunk_text_with_overlap}

-- What `page.extract_text` gives: a text, an empty one, or an exception.
pub data Page : Type 0 where
  text : String → Page
  blank broken : Page

-- A chunk with its metadata, as it is added to the vector store.
pub record StoredChunk : Type 0 where
  pub document : String
  pub source : String
  pub lab_instance_id : ℕ
  pub access_level : String
  pub chunk_id : ℕ
  pub token_length : ℕ

-- The job's row, what is indexed, and how many commands Redis has been sent
pub record Etl : Type 0 where
  pub status : String
  pub progress : ℕ
  pub stored : List StoredChunk
  pub sent : ℕ

abbrev pub batch_size : ℕ
batch_size = 100

-- `"\n".join(pages)`
unfoldable pub join_lines : List String → String
join_lines [] = ""
join_lines (x ∷ []) = x
join_lines (x ∷ y ∷ r) = str_append x (str_append "\n" (join_lines (y ∷ r)))

-- `share i n` is `int(i / n * 30)` in floating point; `is_blank` is `not text.strip()`.
-- `answers k` says whether Redis answers its command with number k, `splits` whether the sentence
-- splitter and the tokenizer take a text and its chunks, and `accepts` whether the vector store
-- takes a batch; otherwise they raise.
module _ (share : ℕ → ℕ → ℕ) (is_blank : String → Bool) (estimate_tokens : String → ℕ)
    (sent_tokenize : String → List String) (splits : String → Bool) (answers : ℕ → Bool)
    (accepts : List StoredChunk → Bool) (pdf_max_pages : ℕ) (filename : String) (lab : ℕ)
    (access_level : String) where
  -- A command on the job's row
  unfoldable pub command : (Etl → Etl) → Action Etl Unit
  command f e =
      if answers e.sent
      then (ok tt, record (f e) { sent = e.sent + 1 })
      else (err unavailable, record e { sent = e.sent + 1 })

  abbrev pub report : String → ℕ → Action Etl Unit
  report status progress = command (λ e. record e { status = status; progress = progress })

  abbrev pub set_progress : ℕ → Action Etl Unit
  set_progress progress = command (λ e. record e { progress = progress })

  -- The `for` over the pages
  unfoldable pub read_pages : List Page → ℕ → ℕ → Action Etl (List String)
  read_pages [] page_num total = pure []
  read_pages (broken ∷ ps) page_num total = raise runtime_error
  read_pages (blank ∷ ps) page_num total = report "Failed" 100 >> read_pages ps (suc page_num) total
  read_pages (text t ∷ ps) page_num total =
      report "Processing" (share (page_num + 1) total)
      >> (read_pages ps (suc page_num) total >>= λ ts. pure (t ∷ ts))

  unfoldable pub with_metadata : ℕ → List String → List StoredChunk
  with_metadata i [] = []
  with_metadata i (c ∷ cs) =
      record {
        document = c;
        source = filename;
        lab_instance_id = lab;
        access_level = access_level;
        chunk_id = i;
        token_length = estimate_tokens c;
      }
      ∷ with_metadata (suc i) cs

  -- The writes of the `for` over the chunks, which `with_metadata` gives their metadata
  unfoldable pub count_chunks : List String → ℕ → ℕ → Action Etl Unit
  count_chunks [] i total = pure tt
  count_chunks (c ∷ cs) i total =
      set_progress (30 + share (i + 1) total) >> count_chunks cs (suc i) total

  unfoldable pub add_documents : List StoredChunk → Action Etl Unit
  add_documents batch e =
      if accepts batch
      then (ok tt, record e { stored = e.stored ++ batch })
      else (err runtime_error, e)

  -- The `for` over the batches, with one round of fuel for each chunk
  unfoldable pub insert_batches : ℕ → List StoredChunk → ℕ → ℕ → Action Etl Unit
  insert_batches zero cs inserted total = pure tt
  insert_batches (suc fuel) [] inserted total = pure tt
  insert_batches (suc fuel) (c ∷ cs) inserted total =
      let batch = take batch_size (c ∷ cs) in
      let done = inserted + length batch in
      add_documents batch
      >> set_progress (60 + share (done + 1) total)
      >> insert_batches fuel (drop batch_size (c ∷ cs)) done total

  abbrev pub chunk_text : String → Action Etl (List String)
  chunk_text full_text =
      if splits full_text
      then pure (chunk_text_with_overlap estimate_tokens sent_tokenize full_text)
      else raise runtime_error

  abbrev pub index_chunks : List String → Action Etl ℕ
  index_chunks chunks =
      count_chunks chunks 0 (length chunks)
      >> insert_batches (length chunks) (with_metadata 0 chunks) 0 (length chunks)
      >> report "Finished" 100
      >> pure (length chunks)

  abbrev pub index_text : List String → Action Etl ℕ
  index_text ts =
      let full_text = join_lines ts in
      if is_blank full_text
      then report "Failed" 100 >> pure 0
      else chunk_text full_text >>= λ chunks. index_chunks chunks

  -- The `try` block; `none` where PdfReader raises
  unfoldable pub index_pdf : Option (List Page) → Action Etl ℕ
  unfolding read_pages count_chunks insert_batches
  index_pdf none = raise runtime_error
  index_pdf (some pages) =
      if ltb pdf_max_pages (length pages)
      then report "Failed" 100 >> pure 0
      else command (λ e. record e { progress = e.progress + 5 })
        >> command (λ e. record e { status = "Started" })
        >> read_pages pages 0 (length pages)
        >>= index_text

  -- The `except`
  unfoldable pub or_fail : Action Etl ℕ → Action Etl ℕ
  or_fail m e =
      let (r, e') = m e in elim r [ ok n ↦ (ok n, e') | err x ↦ (report "Failed" 100 >> pure 0) e' ]

  -- The first write and its expiry stand before the `try`.
  unfoldable pub process_pdf : Option (List Page) → Action Etl ℕ
  unfolding index_pdf or_fail
  process_pdf content = report "Queued" 5 >> command (λ e. e) >> or_fail (index_pdf content)

  -- `process_stored_pdf`: `none` where the object store raises
  unfoldable pub process_stored_pdf : Option (Option (List Page)) → Action Etl ℕ
  unfolding process_pdf
  process_stored_pdf none = report "Failed" 100 >> pure 0
  process_stored_pdf (some content) = process_pdf content
