-- ===== src/Repositories/Documents/Rows.antt =====
-- `ensure_for_ingest`, once both texts were read, and the documents that it leaves.
use document_classifier.Prelude.{
  ℕ, ◌≡◌, refl, true, Option, String, inl, inr, arith, is_some, Option-cases,
}
use document_classifier.Exec.{ok, Exec, gets, ◌>>=◌, Result-cases}
use document_classifier.Uuid.{Uuid, parse_uuid}
use document_classifier.Contracts.{DocumentOut}
use document_classifier.Db.{
  Batch, Document, Db, batch_with, document_with, find?, insert_row, modify_where, insert_batch,
  insert_document, update_document, update_batch, find?-insert_row, is_some-find?-insert_row,
  is_some-find?-modify_where,
}
use document_classifier.Repositories.Documents.{ensure_batch, ensure_document, ensure_for_ingest}

unfoldable pub ensure_rows : ℕ → Uuid → Uuid → String → Exec Db Document
ensure_rows now u v blob_key = do
  old_batch ← gets (λ (db : Db). find? (batch_with u) db.batches)
  batch ← ensure_batch now u old_batch
  old_document ← gets (λ (db : Db). find? (document_with v) db.documents)
  ensure_document now batch v blob_key old_document

-- A call that returns has read both texts, and made the rows.
pub ensure_for_ingest-rows :
    (now : ℕ) (batch_id document_id blob_key : String) (db db' : Db) {out : DocumentOut}
    → ensure_for_ingest now batch_id document_id blob_key db ≡ (ok out, db')
    → (u v : Uuid) × (d : Document) × (parse_uuid batch_id ≡ ok u)
      × (parse_uuid document_id ≡ ok v)
      × (ensure_rows now u v blob_key db ≡ (ok d, db'))
unfolding ensure_for_ingest ensure_rows
ensure_for_ingest-rows now batch_id document_id blob_key db db' e =
    elim (Result-cases (parse_uuid batch_id)) [
      | inr (x, p) ↦ absurd (ground arith)
      | inl (u, p) ↦ elim (Result-cases (parse_uuid document_id)) [
        | inr (x, q) ↦ absurd (ground arith)
        | inl (v, q) ↦ elim (Result-cases (ensure_rows now u v blob_key db).0) [
          | inr (x, k) ↦ absurd (ground arith)
          | inl (d, k) ↦ (u, v, d, p, q, ground arith)
        ]
      ]
    ]

documents-ensure_batch :
    (now : ℕ) (u : Uuid) (o : Option Batch) (db : Db)
    → (ensure_batch now u o db).1.documents ≡ db.documents
unfolding ensure_batch insert_batch
documents-ensure_batch now u o db = ground arith

-- What one step leaves: the document, and every document that was there.
abbrev Keeps : Uuid → Db → Db → Type 0
Keeps v db db' =
    (is_some (find? (document_with v) db'.documents) ≡ true)
    × ((x : Uuid)
        → is_some (find? (document_with x) db.documents) ≡ true
        → is_some (find? (document_with x) db'.documents) ≡ true)

ensure_document-Keeps :
    (now : ℕ) (b : Batch) (v : Uuid) (blob_key : String) (db db' : Db) {d : Document}
    → ensure_document now b v blob_key (find? (document_with v) db.documents) db ≡ (ok d, db')
    → Keeps v db db'
unfolding ensure_document insert_document update_document update_batch
ensure_document-Keeps now b v blob_key db db' e =
    elim (Option-cases (find? (document_with v) db.documents)) [
      | inl missing ↦
          let d : Document = record {
            id = v;
            batch_id = b.id;
            blob_key = blob_key;
            created_at = now;
          } in
          let same : db'.documents ≡ insert_row d db.documents = ground arith in
          (
            rw same (ground (arith, find?-insert_row (document_with v) d db.documents missing)),
            λ x h. rw same (is_some-find?-insert_row (document_with x) d db.documents h),
          )
      | inr (o, found) ↦
          let same : db'.documents
              ≡ modify_where (document_with o.id) (λ r. record r { blob_key = blob_key })
                  db.documents =
            ground arith in
          let kept = λ (x : Uuid) (h : is_some (find? (document_with x) db.documents) ≡ true).
            is_some-find?-modify_where (document_with o.id) (document_with x)
              (λ r. record r { blob_key = blob_key }) db.documents (λ y. refl) h in
          (rw same (kept v (ground arith)), λ x h. rw same (kept x h))
    ]

-- A call that returns leaves the document that its text names, and every document that was there.
pub ensure_for_ingest-Keeps :
    (now : ℕ) (batch_id document_id blob_key : String) (db db' : Db) {out : DocumentOut}
    → ensure_for_ingest now batch_id document_id blob_key db ≡ (ok out, db')
    → (v : Uuid) × (parse_uuid document_id ≡ ok v) × Keeps v db db'
unfolding ensure_rows
ensure_for_ingest-Keeps now batch_id document_id blob_key db db' e =
    let (u, v, d, p, q, k) = ensure_for_ingest-rows now batch_id document_id blob_key db db' e in
    let middle = ensure_batch now u (find? (batch_with u) db.batches) db in
    elim (Result-cases middle.0) [
      | inr (x, l) ↦ absurd (ground arith)
      | inl (b, l) ↦
          let kept = ensure_document-Keeps now b v blob_key middle.1 db' {d = d} (ground arith) in
          let same = documents-ensure_batch now u (find? (batch_with u) db.batches) db in
          (v, q, (kept.0, λ x h. kept.1 x (rw same h)))
    ]
