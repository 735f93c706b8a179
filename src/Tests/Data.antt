-- ===== src/Tests/Data.antt =====
-- Rows, tables and backends for the tests.
use document_classifier.Prelude.{
  ◌+◌, ◌*◌, ◌^◌, ◌≡◌, true, Option, some, none, List, [], ◌∷◌, String, str_eq, arith, if◌then◌else◌,
  refl, subst,
}
use document_classifier.Exec.{ok, err, value_error}
use document_classifier.Uuid.{Uuid, parse_uuid, uuid_to_str}
use document_classifier.Contracts.{UserOut, admin, reviewer, PredictionOut, letter, role_of_value}
use document_classifier.Db.{User, Batch, Document, Prediction, Db, find?, count_where}
use document_classifier.Repositories.Mapping.{user_to_domain}
use document_classifier.Api.Deps.{AppState, Decoder, policy, allows}
use document_classifier.Services.World.{CacheBackend, Codec, Codecs, World}
use document_classifier.Services.Audit.{Stamp}
use document_classifier.Services.Users.Admins.{HasUserKeys, IsAdminActor, IsCanonical}

abbrev pub admin_text : String
admin_text = "0000000a-0000-0000-0000-00000000000a"

-- The same key in capitals.
abbrev pub admin_capitals : String
admin_capitals = "0000000A-0000-0000-0000-00000000000A"

abbrev pub admin_key : Uuid
admin_key = 10 * 2 ^ 96 + 10

abbrev pub reviewer_text : String
reviewer_text = "00000000-0000-0000-0000-000000000002"

abbrev pub batch_text : String
batch_text = "00000000-0000-0000-0000-000000000003"

abbrev pub document_text : String
document_text = "00000000-0000-0000-0000-000000000004"

abbrev pub prediction_text : String
prediction_text = "00000000-0000-0000-0000-000000000005"

abbrev pub admin_row : User
admin_row = record {
  id = admin_key;
  email = "ada@example.org";
  hashed_password = "hash of ada";
  role = "admin";
  is_active = true;
  created_at = 1;
}

abbrev pub reviewer_row : User
reviewer_row = record {
  id = 2;
  email = "bob@example.org";
  hashed_password = "hash of bob";
  role = "reviewer";
  is_active = true;
  created_at = 2;
}

abbrev pub admin_out : UserOut
admin_out = record {
  id = admin_text;
  email = "ada@example.org";
  role = admin;
  is_active = true;
  created_at = 1;
}

abbrev pub reviewer_out : UserOut
reviewer_out = record {
  id = reviewer_text;
  email = "bob@example.org";
  role = reviewer;
  is_active = true;
  created_at = 2;
}

abbrev pub batch_row : Batch
batch_row = record { id = 3; status = "pending"; document_count = 1; created_at = 3 }

abbrev pub document_row : Document
document_row = record { id = 4; batch_id = 3; blob_key = "documents/b/d.tif"; created_at = 4 }

abbrev pub prediction_row : Prediction
prediction_row = record {
  id = 5;
  document_id = 4;
  batch_id = 3;
  label = "memo";
  top1_confidence = 9_000_000_000;
  top5 = ("memo", 9_000_000_000) ∷ [];
  overlay_url = some "overlays/b/d.png";
  model_version = "v1";
  comment = some "checked";
  comment_color = none;
  latency_ms = some 12;
  document_name = none;
  created_at = 5;
}

abbrev pub prediction_out : PredictionOut
prediction_out = record {
  id = prediction_text;
  batch_id = batch_text;
  document_id = document_text;
  label = letter;
  top1_confidence = 6_000_000_000;
  top5 = (letter, 6_000_000_000) ∷ [];
  overlay_url = some "overlays/b/d.png";
  model_version = "v2";
  created_at = none;
  latency_ms = some 9;
  comment = none;
  comment_color = none;
  document_name = none;
}

abbrev pub db : Db
db = record {
  users = admin_row ∷ reviewer_row ∷ [];
  batches = batch_row ∷ [];
  documents = document_row ∷ [];
  predictions = prediction_row ∷ [];
  audit_log = [];
}

abbrev pub stamp : Stamp
stamp = record { id = 77; now = 100 }

pub db-HasUserKeys : HasUserKeys db
unfolding count_where
db-HasUserKeys = record { one = λ u. ground arith }

unfoldable pub admin_actor : IsAdminActor db admin_out
unfolding find? user_to_domain role_of_value uuid_to_str
admin_actor = record {
  key = admin_key;
  row = admin_row;
  found = refl;
  mapped = refl;
  role_admin = refl;
}

parsed : parse_uuid reviewer_text ≡ ok 2
unfolding parse_uuid
parsed = refl

written : reviewer_text ≡ uuid_to_str 2
unfolding uuid_to_str
written = refl

pub reviewer_text-IsCanonical : IsCanonical reviewer_text
reviewer_text-IsCanonical u p =
    let e : 2 ≡ u = ground (arith, parsed) in subst (λ v. reviewer_text ≡ uuid_to_str v) e written

-- A cache that keeps what it is given until it is cleared.
abbrev lookup : String → List (String × String) → Option String
lookup key [] = none
lookup key ((k, v) ∷ entries) = if str_eq k key then some v else lookup key entries

abbrev pub memory : CacheBackend
memory = record {
  Store = List (String × String);
  get = λ key s. (ok (lookup key s), s);
  set = λ key value ttl s. (ok tt, (key, value) ∷ s);
  clear = λ key s. (ok tt, []);
}

-- Models are dumped to one text, which is read as none.
abbrev unread : {A : Type 0} → Codec A
unread = record { dump = λ a. "model"; load = λ text. err value_error }

abbrev pub codecs : Codecs
codecs = record { user = unread; batch = unread; batches = unread; predictions = unread }

abbrev pub world : World (List (String × String))
world = record { db = db; cache = [] }

-- An engine that reads the policy's rows, and a token that is the text of its user's key.
abbrev pub app : AppState
app = record { jwt_signing_key = "secret"; enforcer = some (allows policy) }

abbrev pub subject : Decoder
subject token key = ok (some token)

abbrev pub header : String
header = "Bearer 0000000a-0000-0000-0000-00000000000a"
