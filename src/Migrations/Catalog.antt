-- ===== src/Migrations/Catalog.antt =====
-- What the migrations of backend/alembic work on: the catalogue of the database, and the operations of
-- alembic's `op` on it.
use Prim.Native.String.{◌++◌ as append}
use document_classifier.Prelude.{
  ℕ, Bool, true, false, ◌&&◌, ◌||◌, Option, none, some, List, [], ◌∷◌, ◌++◌, String, str_eq,
  if◌then◌else◌, member,
}
use document_classifier.Exec.{ok, err, Exec, integrity_error, other_error}

-- The types of `sa.Column`: a text is a `String(length)`.
pub data Kind : Type 0 where
  uuid json boolean integer real timestamp : Kind
  text : ℕ → Kind

pub record Column : Type 0 where
  pub name : String
  pub kind : Kind
  pub nullable : Bool
  pub server_default : Option String

-- A check names its column: `column IN (…)`, or `column >= 0 AND column <= 1`.
pub data Constraint : Type 0 where
  check_in : String → String → List String → Constraint
  check_unit : String → String → Constraint
  primary_key unique : List String → Constraint
  foreign_key : String → String → String → Constraint

pub record Table : Type 0 where
  pub name : String
  pub columns : List Column
  pub constraints : List Constraint

pub record Index : Type 0 where
  pub name : String
  pub table : String
  pub column : String

-- A row of `casbin_rule`: `ptype`, `v0`, `v1`, `v2`.
abbrev pub Rule : Type 0
Rule = String × String × String × String

pub record Catalog : Type 0 where
  pub extensions : List String
  pub tables : List Table
  pub indexes : List Index
  pub rules : List Rule
  -- The texts that the rows of a table have in a column.
  pub values : String → String → List String

unfoldable pub all_members : List String → List String → Bool
all_members [] xs = true
all_members (s ∷ ss) xs = member s xs && all_members ss xs

abbrev pub find_table : String → List Table → Option Table
find_table name [] = none
find_table name (t ∷ ts) = if str_eq t.name name then some t else find_table name ts

abbrev pub change_table : String → (Table → Table) → List Table → List Table
change_table name f [] = []
change_table name f (t ∷ ts) =
    let rest = change_table name f ts in if str_eq t.name name then f t ∷ rest else t ∷ rest

abbrev pub remove_table : String → List Table → List Table
remove_table name [] = []
remove_table name (t ∷ ts) =
    let rest = remove_table name ts in if str_eq t.name name then rest else t ∷ rest

abbrev pub has_column : String → List Column → Bool
has_column name [] = false
has_column name (c ∷ cs) = str_eq c.name name || has_column name cs

abbrev pub remove_column : String → List Column → List Column
remove_column name [] = []
remove_column name (c ∷ cs) =
    let rest = remove_column name cs in if str_eq c.name name then rest else c ∷ rest

abbrev pub is_check : String → Constraint → Bool
is_check name (check_in n _ _) = str_eq n name
is_check name (check_unit n _) = str_eq n name
is_check name _ = false

abbrev pub has_check : String → List Constraint → Bool
has_check name [] = false
has_check name (c ∷ cs) = is_check name c || has_check name cs

abbrev pub remove_check : String → List Constraint → List Constraint
remove_check name [] = []
remove_check name (c ∷ cs) =
    let rest = remove_check name cs in if is_check name c then rest else c ∷ rest

abbrev pub has_index : String → List Index → Bool
has_index name [] = false
has_index name (i ∷ is) = str_eq i.name name || has_index name is

abbrev pub remove_index : String → List Index → List Index
remove_index name [] = []
remove_index name (i ∷ is) =
    let rest = remove_index name is in if str_eq i.name name then rest else i ∷ rest

-- `CREATE EXTENSION IF NOT EXISTS`
unfoldable pub create_extension : String → Exec Catalog (Unit {0})
create_extension name c =
    if member name c.extensions
    then (ok tt, c)
    else (ok tt, record c { extensions = name ∷ c.extensions })

unfoldable pub create_table : Table → Exec Catalog (Unit {0})
create_table t c = elim (find_table t.name c.tables) [
  | none ↦ (ok tt, record c { tables = c.tables ++ t ∷ [] })
  | some _ ↦ (err other_error, c)
]

-- All foreign keys are to a column `id`.
abbrev pub refers_to : String → List Constraint → Bool
refers_to name [] = false
refers_to name (foreign_key _ target _ ∷ cs) =
    str_eq target (append name ".id") || refers_to name cs
refers_to name (_ ∷ cs) = refers_to name cs

abbrev pub is_referred_to : String → List Table → Bool
is_referred_to name [] = false
is_referred_to name (t ∷ ts) = refers_to name t.constraints || is_referred_to name ts

abbrev pub remove_indexes_of : String → List Index → List Index
remove_indexes_of table [] = []
remove_indexes_of table (i ∷ is) =
    let rest = remove_indexes_of table is in if str_eq i.table table then rest else i ∷ rest

-- A table that a foreign key refers to is kept. With a table go its indexes and its rows.
unfoldable pub drop_table : String → Exec Catalog (Unit {0})
drop_table name c = elim (find_table name c.tables) [
  | none ↦ (err other_error, c)
  | some _ ↦ if is_referred_to name c.tables then (err other_error, c) else (
    ok tt,
    record c {
      tables = remove_table name c.tables;
      indexes = remove_indexes_of name c.indexes;
      rules = if str_eq name "casbin_rule" then [] else c.rules;
      values = λ table column. if str_eq table name then [] else c.values table column;
    },
  )
]

unfoldable pub create_index : String → String → String → Exec Catalog (Unit {0})
create_index name table column c = if has_index name c.indexes then (err other_error, c) else (
  ok tt,
  record c { indexes = c.indexes ++ record { name = name; table = table; column = column } ∷ [] },
)

unfoldable pub drop_index : String → Exec Catalog (Unit {0})
drop_index name c =
    if has_index name c.indexes
    then (ok tt, record c { indexes = remove_index name c.indexes })
    else (err other_error, c)

unfoldable pub add_column : String → Column → Exec Catalog (Unit {0})
add_column table column c = elim (find_table table c.tables) [
  | none ↦ (err other_error, c)
  | some t ↦ if has_column column.name t.columns then (err other_error, c) else (
    ok tt,
    record c {
      tables = change_table table (λ t. record t { columns = t.columns ++ column ∷ [] }) c.tables;
    },
  )
]

-- The texts of all columns but one.
abbrev pub without :
    String → String → (String → String → List String) → String → String → List String
without table column values t c = if str_eq t table && str_eq c column then [] else values t c

-- With a column goes what the rows have in it.
unfoldable pub drop_column : String → String → Exec Catalog (Unit {0})
drop_column table name c = elim (find_table table c.tables) [
  | none ↦ (err other_error, c)
  | some t ↦
      if has_column name t.columns
      then (
        ok tt,
        record c {
          tables =
              change_table table (λ t. record t { columns = remove_column name t.columns })
                c.tables;
          values = without table name c.values;
        },
      )
      else (err other_error, c)
]

unfoldable pub drop_constraint : String → String → Exec Catalog (Unit {0})
drop_constraint name table c = elim (find_table table c.tables) [
  | none ↦ (err other_error, c)
  | some t ↦
      if has_check name t.constraints
      then (
        ok tt,
        record c {
          tables =
              change_table table (λ t. record t { constraints = remove_check name t.constraints })
                c.tables;
        },
      )
      else (err other_error, c)
]

-- A check `column IN (…)` is refused where a row of the table breaks it.
unfoldable pub create_check_constraint :
    String → String → String → List String → Exec Catalog (Unit {0})
create_check_constraint name table column allowed c = elim (find_table table c.tables) [
  | none ↦ (err other_error, c)
  | some t ↦
      if has_check name t.constraints
      then (err other_error, c)
      else if all_members (c.values table column) allowed
      then (
        ok tt,
        record c {
          tables =
              change_table table
                (λ t. record t { constraints = t.constraints ++ check_in name column allowed ∷ [] })
                c.tables;
        },
      )
      else (err integrity_error, c)
]

-- Rows for `casbin_rule`, whose only key is drawn by the database: no row is in conflict with another.
unfoldable pub insert_rules : List Rule → Exec Catalog (Unit {0})
insert_rules rules c = (ok tt, record c { rules = c.rules ++ rules })

-- What runs in one transaction.
unfoldable pub in_transaction : Exec Catalog (Unit {0}) → Exec Catalog (Unit {0})
in_transaction m c = let (r, c') = m c in elim r [ ok _ ↦ (ok tt, c') | err e ↦ (err e, c) ]
