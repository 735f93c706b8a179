-- ===== src/Repositories/Documents/Counted.antt =====
-- A batch counts its documents: what a new batch and a new document do to the counts.
use document_classifier.Prelude.{
  ℕ, ◌+◌, ◌≤◌, ◌≡◌, refl, Bool, false, none, some, inl, inr, arith, if◌then◌else◌, ◌==◌, Bool-cases,
  Option-cases,
}
use document_classifier.Uuid.{Uuid}
use document_classifier.Contracts.{pending, status_value}
use document_classifier.Db.{
  Batch, Document, Db, batch_with, find?, count_where, insert_row, modify_where, find?-insert_row,
  find?-insert_row_ne, count_where-insert_row, count_where-zero_of_find, count_where-modify_where,
  find?-modify_where_self, find?-modify_where_ne, find?-modify_where-none, find?-modify_where_some,
}

-- The documents of a batch.
abbrev pub of_batch : Uuid → Document → Bool
of_batch u r = r.batch_id == u

pub record IsCounted (db : Db) : Type 0 where
  -- The primary key of `batches`.
  pub one_batch : (u : Uuid) → count_where (batch_with u) db.batches ≤ 1
  pub counts :
      (u : Uuid) (r : Batch)
      → find? (batch_with u) db.batches ≡ some r
      → r.document_count ≡ count_where (of_batch u) db.documents
  -- The foreign key of `documents`: no document has a batch that is not there.
  pub closed :
      (u : Uuid)
      → find? (batch_with u) db.batches ≡ none
      → count_where (of_batch u) db.documents ≡ 0

abbrev pub new_batch : ℕ → Uuid → Batch
new_batch now u = record {
  id = u;
  status = status_value pending;
  document_count = 0;
  created_at = now;
}

-- The tables with a new batch.
unfoldable pub with_batch : Batch → Db → Db
with_batch b db = record db { batches = insert_row b db.batches }

module _ (now : ℕ) (u : Uuid) (db : Db) (missing : find? (batch_with u) db.batches ≡ none) where
  pub find-with_batch_other :
      (v : Uuid)
      → (u == v) ≡ false
      → find? (batch_with v) (with_batch (new_batch now u) db).batches
        ≡ find? (batch_with v) db.batches
  unfolding with_batch
  find-with_batch_other v e = find?-insert_row_ne (batch_with v) (new_batch now u) db.batches e

  pub find-with_batch :
      find? (batch_with u) (with_batch (new_batch now u) db).batches ≡ some (new_batch now u)
  unfolding with_batch
  find-with_batch =
      find?-insert_row (batch_with u) (new_batch now u) db.batches missing (ground arith)

  pub with_batch-IsCounted : IsCounted db → IsCounted (with_batch (new_batch now u) db)
  unfolding with_batch
  with_batch-IsCounted h = record {
    one_batch = λ v. elim (Bool-cases (u == v)) [
      | inl same ↦
          let e : u ≡ v = ground arith in
          ground (
            arith,
            count_where-insert_row (batch_with v) (new_batch now u) db.batches,
            count_where-zero_of_find (batch_with u) db.batches missing,
          )
      | inr other ↦
          ground (
            arith,
            count_where-insert_row (batch_with v) (new_batch now u) db.batches,
            h.one_batch v,
          )
    ];
    counts = λ v r found. elim (Bool-cases (u == v)) [
      | inl same ↦
          let e : u ≡ v = ground arith in ground (arith, find-with_batch, h.closed u missing)
      | inr other ↦ ground (arith, find-with_batch_other v other, h.counts v r)
    ];
    closed = λ v gone. elim (Bool-cases (u == v)) [
      | inl same ↦ let e : u ≡ v = ground arith in ground (arith, find-with_batch)
      | inr other ↦ ground (arith, find-with_batch_other v other, h.closed v)
    ];
  }

abbrev pub add_one : Batch → Batch
add_one r = record r { document_count = r.document_count + 1 }

-- The tables with a new document of a batch.
unfoldable pub with_document : Document → Db → Db
with_document d db = record db {
  batches = modify_where (batch_with d.batch_id) add_one db.batches;
  documents = insert_row d db.documents;
}

module _ (d : Document) (db : Db) where
  pub find-with_document :
      (v : Uuid) (r : Batch)
      → find? (batch_with v) (with_document d db).batches ≡ some r
      → (o : Batch) × (find? (batch_with v) db.batches ≡ some o)
        × (r.document_count ≡ o.document_count + (if d.batch_id == v then 1 else 0))
  unfolding with_document
  find-with_document v r found = elim (Option-cases (find? (batch_with v) db.batches)) [
    | inl missing ↦ absurd (
        ground (
          arith,
          find?-modify_where-none (batch_with d.batch_id) (batch_with v) add_one db.batches
              (λ x. refl),
        ))
    | inr (o, e) ↦ elim (Bool-cases (d.batch_id == v)) [
      | inl same ↦
          let k : d.batch_id ≡ v = ground arith in
          (
            o,
            e,
            ground
                (arith, find?-modify_where_self (batch_with v) add_one db.batches o (λ x. refl) e),
          )
      | inr other ↦ (
        o,
        e,
        ground (
          arith,
          find?-modify_where_ne (batch_with d.batch_id) (batch_with v) add_one db.batches
              (λ x p. ground arith) (λ x. refl),
        ),
      )
    ]
  ]

  pub with_document-IsCounted :
      {b : Batch}
      → find? (batch_with d.batch_id) db.batches ≡ some b
      → IsCounted db
      → IsCounted (with_document d db)
  unfolding with_document
  with_document-IsCounted known h = record {
    one_batch = λ v. ground (
      arith,
      count_where-modify_where (batch_with d.batch_id) (batch_with v) add_one db.batches
          (λ x. refl),
      h.one_batch v,
    );
    counts = λ v r found.
        let (o, e, k) = find-with_document v r found in
        ground (arith, h.counts v o e, count_where-insert_row (of_batch v) d db.documents);
    closed = λ v gone.
        let before =
          find?-modify_where_some (batch_with d.batch_id) (batch_with v) add_one db.batches
            (λ x. refl) gone in
        elim (Bool-cases (d.batch_id == v)) [
          | inl same ↦ let k : d.batch_id ≡ v = ground arith in absurd (ground arith)
          | inr other ↦
              ground (arith, h.closed v before, count_where-insert_row (of_batch v) d db.documents)
        ];
  }
