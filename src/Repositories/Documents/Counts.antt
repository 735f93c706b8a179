-- ===== src/Repositories/Documents/Counts.antt =====
-- A batch counts its documents: `ensure_for_ingest` keeps `document_count` true.
use document_classifier.Prelude.{
  ℕ, ◌≡◌, refl, sym, ap, ◌∙◌, Bool, some, String, inl, inr, arith, Option-cases,
}
use document_classifier.Exec.{ok, Result-cases}
use document_classifier.Uuid.{Uuid}
use document_classifier.Contracts.{DocumentOut}
use document_classifier.Db.{
  Batch, Document, Db, batch_with, document_with, find?, find?-holds, modify_where, insert_batch,
  update_batch, insert_document, update_document, count_where-modify_where,
}
use document_classifier.Repositories.Documents.{ensure_batch, ensure_document, ensure_for_ingest}
use document_classifier.Repositories.Documents.Rows.{ensure_rows, ensure_for_ingest-rows}
use document_classifier.Repositories.Documents.Counted.{
  IsCounted, find-with_batch, new_batch, of_batch, with_batch, with_batch-IsCounted, with_document,
  with_document-IsCounted,
}

-- `ensure_batch` keeps the counts, and its batch is there.
ensure_batch-IsCounted :
    (now : ℕ) (u : Uuid) (db db' : Db) {b : Batch}
    → IsCounted db
    → ensure_batch now u (find? (batch_with u) db.batches) db ≡ (ok b, db')
    → IsCounted db' × (find? (batch_with u) db'.batches ≡ some b) × (b.id ≡ u)
unfolding ensure_batch insert_batch
ensure_batch-IsCounted now u db db' {b} h e =
    elim (Option-cases (find? (batch_with u) db.batches)) [
      | inr (o, found) ↦
          let k = find?-holds (batch_with u) db.batches o found in
          let same : db ≡ db' = ground arith in (rw (← same) h, ground arith, ground arith)
      | inl missing ↦
          let same : with_batch (new_batch now u) db ≡ db' = unfold with_batch in ground arith in
          (
            rw (← same) (with_batch-IsCounted now u db missing h),
            rw (← same) (ground (arith, find-with_batch now u db missing)),
            ground arith,
          )
    ]

-- A document that changes its blob key stays in its batch.
with_blob_key-IsCounted :
    (p : Document → Bool) (blob_key : String) (db : Db)
    → IsCounted db
    → IsCounted (record db {
      documents = modify_where p (λ r. record r { blob_key = blob_key }) db.documents;
    })
with_blob_key-IsCounted p blob_key db h = record {
  one_batch = h.one_batch;
  counts = λ v r found.
      h.counts v r found
      ∙ sym (
          count_where-modify_where p (of_batch v) (λ r. record r { blob_key = blob_key })
            db.documents (λ x. refl));
  closed = λ v gone.
      count_where-modify_where p (of_batch v) (λ r. record r { blob_key = blob_key }) db.documents
        (λ x. refl)
      ∙ h.closed v gone;
}

ensure_document-IsCounted :
    (now : ℕ) (b : Batch) (u : Uuid) (blob_key : String) (db db' : Db) {d : Document}
    → IsCounted db
    → find? (batch_with b.id) db.batches ≡ some b
    → ensure_document now b u blob_key (find? (document_with u) db.documents) db ≡ (ok d, db')
    → IsCounted db'
unfolding ensure_document insert_document update_document update_batch
ensure_document-IsCounted now b u blob_key db db' h known e =
    elim (Option-cases (find? (document_with u) db.documents)) [
      | inr (o, found) ↦
          let same : record db {
            documents =
                modify_where (document_with o.id) (λ r. record r { blob_key = blob_key })
                  db.documents;
          }
              ≡ db' =
            ground arith in
          rw (← same) (with_blob_key-IsCounted (document_with o.id) blob_key db h)
      | inl missing ↦
          let d : Document = record {
            id = u;
            batch_id = b.id;
            blob_key = blob_key;
            created_at = now;
          } in
          let same : with_document d db ≡ db' = unfold with_document in ground arith in
          rw (← same) (with_document-IsCounted d db known h)
    ]

both_read :
    (now : ℕ) (u v : Uuid) (blob_key : String) (db db' : Db) {d : Document}
    → IsCounted db
    → ensure_rows now u v blob_key db ≡ (ok d, db')
    → IsCounted db'
unfolding ensure_rows
both_read now u v blob_key db db' {d} h e =
    elim (Result-cases (ensure_batch now u (find? (batch_with u) db.batches) db).0) [
      | inr (x, p) ↦ absurd (ground arith)
      | inl (b, p) ↦
          let after = (ensure_batch now u (find? (batch_with u) db.batches) db).1 in
          let (counted, known, key) =
            ensure_batch-IsCounted now u db after {b = b} h (ground arith) in
          ensure_document-IsCounted now b v blob_key after db' {d = d} counted
            (ap (λ k. find? (batch_with k) after.batches) key ∙ known) (ground arith)
    ]

-- Let the batches have different keys and count their documents, and let no document have a batch
-- that is not there. A call that returns keeps it so, whether it made the batch, made the
-- document, or wrote a new blob key to a document that was there.
pub ensure_for_ingest-IsCounted :
    (now : ℕ) (batch_id document_id blob_key : String) (db db' : Db) {d : DocumentOut}
    → IsCounted db
    → ensure_for_ingest now batch_id document_id blob_key db ≡ (ok d, db')
    → IsCounted db'
ensure_for_ingest-IsCounted now batch_id document_id blob_key db db' h e =
    let (u, v, d, p, q, k) = ensure_for_ingest-rows now batch_id document_id blob_key db db' e in
    both_read now u v blob_key db db' {d = d} h k
