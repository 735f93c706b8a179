-- ===== src/Tests/Predictions.antt =====
-- Runs on the predictions and the documents.
use document_classifier.Prelude.{◌≡◌, refl, String, [], ◌∷◌, some, none, arith}
use document_classifier.Exec.{Result, ok, err, http}
use document_classifier.Contracts.{PredictionOut, DocumentOut, letter, memo}
use document_classifier.Uuid.{parse_uuid}
use document_classifier.Db.{Db, Prediction, Batch, find?, batch_with, prediction_of, count_where}
use document_classifier.Repositories.Predictions as Repo
use document_classifier.Repositories.Predictions.{create_idempotent, page_rows}
use document_classifier.Repositories.Predictions.Upsert.{
  IsUnique, Recorded, KeptFrom, create_idempotent-IsUnique, create_idempotent_again,
}
use document_classifier.Repositories.Predictions.{page_rows}
use document_classifier.Repositories.Predictions.Pages.{
  NewestFirst, HasDistinctTimes, rows, first_pages, pages_cover,
}
use mathlib.Core.List.Perm
use mathlib.Core.Logic.Or
use text.Mathlib.TextEquality.{IsScalar-prop}
use native.Mathlib.Nat.{ℕ_set}
use mathlib.Core.List.{Perm, mem-cons, not-mem-nil}
use native.Mathlib.Bridge.{le_prop}
use document_classifier.Prelude.{ℕ, List, reverse, length, ◌*◌, ◌∙◌, ◌≤◌, sym, arith}
use document_classifier.Repositories.Documents.{ensure_for_ingest}
use document_classifier.Repositories.Documents.Counted.{IsCounted}
use document_classifier.Repositories.Documents.Counts.{ensure_for_ingest-IsCounted}
use document_classifier.Services.Predictions.{relabel_db, add_comment_db, rename_document_db}
use document_classifier.Services.Predictions.Relabel.{relabel_high_confidence}
use document_classifier.Tests.Data.{
  db, stamp, admin_out, reviewer_out, prediction_row, prediction_out, prediction_text, batch_text,
  document_text, reviewer_text,
}

abbrev value_of {ℓ} : {A : Type ℓ} → A → Result A → A
value_of a (ok b) = b
value_of a (err e) = a

abbrev pub memo_out : PredictionOut
memo_out = record {
  id = prediction_text;
  batch_id = batch_text;
  document_id = document_text;
  label = memo;
  top1_confidence = 9_000_000_000;
  top5 = (memo, 9_000_000_000) ∷ [];
  overlay_url = some "overlays/b/d.png";
  model_version = "v1";
  created_at = some 5;
  latency_ms = some 12;
  comment = some "checked";
  comment_color = none;
  document_name = none;
}

pub memo_read : (Repo.get prediction_text db).0 ≡ ok memo_out
unfolding Repo.get Repo.require_prediction parse_uuid find?
    document_classifier.Repositories.Mapping.prediction_to_domain
    document_classifier.Repositories.Mapping.top5_to_domain
    document_classifier.Contracts.label_of_value document_classifier.Uuid.uuid_to_str
memo_read = refl

relabel_high_confidence_example :
    relabel_db stamp reviewer_out prediction_text letter db ≡ (err (http 422), db)
relabel_high_confidence_example =
    relabel_high_confidence stamp reviewer_out prediction_text letter db memo_out memo_read refl
      (omega arith)

abbrev relabelled : Result (String × PredictionOut) × Db
relabelled = relabel_db stamp admin_out prediction_text letter db

abbrev commented : Result (String × PredictionOut) × Db
commented = add_comment_db stamp reviewer_out prediction_text (some "wrong") (some "red") db

abbrev renamed : Result (String × PredictionOut) × Db
renamed = rename_document_db stamp reviewer_out prediction_text (some "  May report ") db

db-IsUnique : IsUnique db
unfolding count_where
db-IsUnique = record { one = λ b d. ground arith }

create_idempotent-IsUnique_example : IsUnique (create_idempotent 9 prediction_out db).1
create_idempotent-IsUnique_example = create_idempotent-IsUnique 9 prediction_out db db-IsUnique

abbrev recorded : Result PredictionOut × Db
recorded = create_idempotent 9 prediction_out db

recorded_ok : recorded ≡ (ok (value_of memo_out recorded.0), recorded.1)
unfolding create_idempotent parse_uuid find? Repo.upsert document_classifier.Db.update_prediction
    document_classifier.Db.prediction_fits Repo.overwrite document_classifier.Contracts.label_value
    document_classifier.Db.prediction_valid document_classifier.Contracts.label_of_value
    document_classifier.Repositories.Mapping.prediction_to_domain
    document_classifier.Repositories.Mapping.top5_to_domain
    document_classifier.Repositories.Mapping.prediction_top5_to_json
recorded_ok = refl

batch_parsed : parse_uuid batch_text ≡ ok 3
unfolding parse_uuid
batch_parsed = refl

document_parsed : parse_uuid document_text ≡ ok 4
unfolding parse_uuid
document_parsed = refl

old_found : find? (prediction_of 3 4) db.predictions ≡ some prediction_row
unfolding find?
old_found = refl

create_idempotent_again_example :
    (r : Prediction) × (find? (prediction_of 3 4) recorded.1.predictions ≡ some r)
    × Recorded prediction_out r
    × KeptFrom prediction_row r
create_idempotent_again_example =
    create_idempotent_again 9 prediction_out 3 4 prediction_row db recorded.1
      {out = value_of memo_out recorded.0} batch_parsed document_parsed old_found recorded_ok

-- Two predictions, the newer one behind the older.
abbrev newer_row : Prediction
newer_row = record prediction_row { id = 6; document_id = 8; created_at = 9 }

abbrev two_rows : Db
two_rows = record db { predictions = prediction_row ∷ newer_row ∷ [] }

abbrev by_time : ℕ → List Prediction → List Prediction
by_time page found = reverse found

two_ordered :
    (page : ℕ)
    → Perm (by_time page (rows by_time none none two_rows)) (rows by_time none none two_rows)
      × NewestFirst (by_time page (rows by_time none none two_rows))
unfolding document_classifier.Db.select_where Repo.matches
two_ordered page = (
  Perm.swap prediction_row newer_row [],
  (
    (λ later m. Or.elim le_prop (mem-cons.0 m) (λ e. ground arith) (λ n. absurd (not-mem-nil n))),
    ((λ later m. absurd (not-mem-nil m)), tt),
  ),
)

Prediction_set : IsSet Prediction
Prediction_set = hlevel (IsScalar-prop, ℕ_set)

two_times : HasDistinctTimes (rows by_time none none two_rows)
unfolding document_classifier.Db.select_where Repo.matches
two_times a b m n e =
    Or.elim (Prediction_set a b) (mem-cons.0 m)
      (λ a_old.
        Or.elim (Prediction_set a b) (mem-cons.0 n) (λ b_old. a_old ∙ sym b_old)
          (λ rest.
            Or.elim (Prediction_set a b) (mem-cons.0 rest) (λ b_new. absurd (ground arith))
              (λ nothing. absurd (not-mem-nil nothing))))
      (λ more.
        Or.elim (Prediction_set a b) (mem-cons.0 more)
          (λ a_new.
            Or.elim (Prediction_set a b) (mem-cons.0 n) (λ b_old. absurd (ground arith))
              (λ rest.
                Or.elim (Prediction_set a b) (mem-cons.0 rest) (λ b_new. a_new ∙ sym b_new)
                  (λ nothing. absurd (not-mem-nil nothing))))
          (λ nothing. absurd (not-mem-nil nothing)))

pages_cover_example :
    Perm (first_pages by_time none none two_rows 1 2) (rows by_time none none two_rows)
    × NewestFirst (first_pages by_time none none two_rows 1 2)
    × ((page : ℕ) → length (page_rows (by_time page) page 1 none none two_rows) ≤ 1)
unfolding document_classifier.Db.select_where Repo.matches
pages_cover_example = pages_cover by_time none none two_rows two_ordered two_times 1 2 short
  where
    short : length (rows by_time none none two_rows) ≤ 2 * 1
    short = omega arith

pub db-IsCounted : IsCounted db
unfolding count_where find?
db-IsCounted = record {
  one_batch = λ u. ground arith;
  counts = λ u r e. ground arith;
  closed = λ u e. ground arith;
}

abbrev ensured : Result DocumentOut × Db
ensured = ensure_for_ingest 9 batch_text reviewer_text "documents/b/e.tif" db

abbrev no_document : DocumentOut
no_document = record { id = ""; batch_id = ""; blob_key = ""; created_at = 0 }

ensured_ok : ensured ≡ (ok (value_of no_document ensured.0), ensured.1)
unfolding ensure_for_ingest parse_uuid find? document_classifier.Db.insert_document
    document_classifier.Db.document_fits document_classifier.Db.update_batch
    document_classifier.Db.status_valid document_classifier.Contracts.status_of_value
ensured_ok = refl

ensure_for_ingest-IsCounted_example : IsCounted ensured.1
ensure_for_ingest-IsCounted_example =
    ensure_for_ingest-IsCounted 9 batch_text reviewer_text "documents/b/e.tif" db ensured.1
      {d = value_of no_document ensured.0} db-IsCounted ensured_ok
