-- ===== src/Migrations/Rows.antt =====
-- The rows that the migrated database takes, and the rows that the models of the program take.
use document_classifier.Prelude.{
  member, ℕ, Bool, true, false, ◌&&◌, Option, none, some, List, [], ◌∷◌, String, str_eq, leb,
  str_len, if◌then◌else◌,
}
use document_classifier.Db.{User, Batch, Document, Prediction, AuditLog}
use document_classifier.Migrations.Catalog.{
  Kind, real, text, Column, Constraint, check_in, check_unit, Table, Catalog, has_column,
}
use document_classifier.Migrations.Later.{upgrade_head}

-- A cell of a row: NULL, a text, a number of 10^-10, or a value of another type.
pub data Cell : Type 0 where
  null given : Cell
  word : String → Cell
  share : ℕ → Cell

abbrev pub Row : Type 0
Row = List (String × Cell)

abbrev pub cell : String → Row → Option Cell
cell name [] = none
cell name ((n, c) ∷ row) = if str_eq n name then some c else cell name row

abbrev fits_kind : Kind → Cell → Bool
fits_kind (text n) (word s) = leb (str_len s) n
fits_kind (text n) _ = false
fits_kind real (share n) = true
fits_kind kind (word s) = false
fits_kind kind _ = true

abbrev fits_cell : Column → Option Cell → Bool
fits_cell c none = false
fits_cell c (some null) = c.nullable
fits_cell c (some v) = fits_kind c.kind v

abbrev fits_columns : List Column → Row → Bool
fits_columns [] row = true
fits_columns (c ∷ cs) row = fits_cell c (cell c.name row) && fits_columns cs row

-- A check holds of NULL. The keys are not a matter of one row.
abbrev pub in_list : Option Cell → List String → Bool
in_list (some (word s)) allowed = member s allowed
in_list _ allowed = true

abbrev in_unit : Option Cell → Bool
in_unit (some (share n)) = leb n 10_000_000_000
in_unit _ = true

abbrev passes : Constraint → Row → Bool
passes (check_in name column allowed) row = in_list (cell column row) allowed
passes (check_unit name column) row = in_unit (cell column row)
passes _ row = true

abbrev passes_all : List Constraint → Row → Bool
passes_all [] row = true
passes_all (c ∷ cs) row = passes c row && passes_all cs row

-- An INSERT that names a column which the table does not have is refused.
abbrev known_columns : List Column → Row → Bool
known_columns columns [] = true
known_columns columns ((name, c) ∷ row) = has_column name columns && known_columns columns row

-- The table takes the row, as far as the row alone decides it.
unfoldable pub takes : Option Table → Row → Bool
takes none row = false
takes (some t) row =
    known_columns t.columns row && fits_columns t.columns row && passes_all t.constraints row

-- A database without tables, and what `alembic upgrade head` makes of it.
abbrev pub fresh : Catalog
fresh = record {
  extensions = [];
  tables = [];
  indexes = [];
  rules = [];
  values = λ table column. [];
}

abbrev pub head : Catalog
head = (upgrade_head fresh).1

abbrev optional_word : Option String → Cell
optional_word none = null
optional_word (some s) = word s

abbrev optional_given {ℓ} : {A : Type ℓ} → Option A → Cell
optional_given none = null
optional_given (some a) = given

-- The rows of the models, by the columns' names.
unfoldable pub user_row : User → Row
user_row r =
    ("id", given)
    ∷ ("email", word r.email)
    ∷ ("hashed_password", word r.hashed_password)
    ∷ ("role", word r.role)
    ∷ ("is_active", given)
    ∷ ("created_at", given)
    ∷ []

unfoldable pub batch_row : Batch → Row
batch_row r =
    ("id", given)
    ∷ ("status", word r.status)
    ∷ ("document_count", given)
    ∷ ("created_at", given)
    ∷ []

unfoldable pub document_row : Document → Row
document_row r =
    ("id", given) ∷ ("batch_id", given) ∷ ("blob_key", word r.blob_key) ∷ ("created_at", given) ∷ []

unfoldable pub prediction_row : Prediction → Row
prediction_row r =
    ("id", given)
    ∷ ("document_id", given)
    ∷ ("batch_id", given)
    ∷ ("label", word r.label)
    ∷ ("top1_confidence", share r.top1_confidence)
    ∷ ("top5", given)
    ∷ ("overlay_url", optional_word r.overlay_url)
    ∷ ("model_version", word r.model_version)
    ∷ ("comment", optional_word r.comment)
    ∷ ("comment_color", optional_word r.comment_color)
    ∷ ("latency_ms", optional_given r.latency_ms)
    ∷ ("document_name", optional_word r.document_name)
    ∷ ("created_at", given)
    ∷ []

unfoldable pub audit_row : AuditLog → Row
audit_row r =
    ("id", given)
    ∷ ("actor_id", optional_given r.actor_id)
    ∷ ("action", word r.action)
    ∷ ("target", word r.target)
    ∷ ("metadata", optional_given r.metadata)
    ∷ ("timestamp", given)
    ∷ []
