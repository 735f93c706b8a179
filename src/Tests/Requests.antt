-- ===== src/Tests/Requests.antt =====
-- Runs of requests.
use Prim.Native.String.{◌++◌}
use document_classifier.Uuid.{parse_uuid}
use document_classifier.Prelude.{
  true, ltb, ◌≤◌, ◌≡◌, ◌↔◌, ◌⊎◌, refl, Bool, String, [], ◌∷◌, none, arith, str_eq, ◌==◌,
  if◌then◌else◌, ℕ,
}
use document_classifier.Exec.{Error, ok, err, http, startup_error, lookup_error}
use document_classifier.Contracts.{Role, UserOut, admin, reviewer, auditor, role_value}
use document_classifier.Db.{Db, find?, email_is, batch_with, count_where}
use document_classifier.Repositories.Users.{count_admins}
use document_classifier.Services.Cache.{cache_get}
use document_classifier.Services.Batches.{get_batch}
use document_classifier.Services.Batches.Missing.{get_batch_missing}
use document_classifier.Api.Deps.{policy, allows, require_role, get_current_user}
use document_classifier.Api.Access.{
  any_allowed, ReadsPolicy, delete_user_endpoint_keeps_an_admin,
  toggle_role_endpoint_keeps_an_admin, require_role_lem,
}
use document_classifier.Api.Users.{delete_user_endpoint, toggle_role_endpoint}
use document_classifier.Api.Auth.{Credentials, register, login}
use document_classifier.Api.Register.{register_effect, login-register}
use document_classifier.Classifier.StartupChecks.{
  Entry, absent, readable, Reading, json, object, word, number, ModelCard,
}
use document_classifier.Classifier.StartupChecks.Passing.{
  MayStart, Broken, all_checks, run_all_startup_checks_lem,
}
use document_classifier.Tests.Data.{
  app, subject, header, db, stamp, world, memory, codecs, admin_out, admin_text, admin_row,
  admin_key, reviewer_text, db-HasUserKeys, reviewer_text-IsCanonical,
}

app_reads : ReadsPolicy app
app_reads enforce e role action = cc

some_admin : 1 ≤ count_admins db
unfolding count_admins count_where
some_admin = omega arith

delete_user_endpoint_keeps_an_admin_example :
    1
    ≤ count_admins
        (delete_user_endpoint memory codecs app subject header stamp reviewer_text world).1.db
delete_user_endpoint_keeps_an_admin_example =
    delete_user_endpoint_keeps_an_admin memory codecs app subject header stamp reviewer_text
      app_reads world db-HasUserKeys some_admin

toggle_role_endpoint_keeps_an_admin_example :
    1
    ≤ count_admins
        (toggle_role_endpoint memory codecs app subject header stamp reviewer_text admin world).1.db
toggle_role_endpoint_keeps_an_admin_example =
    toggle_role_endpoint_keeps_an_admin memory codecs app subject header stamp reviewer_text
      app_reads world db-HasUserKeys some_admin admin reviewer_text-IsCanonical

current_admin : (get_current_user app subject header db).0 ≡ ok admin_out
unfolding get_current_user document_classifier.Repositories.Users.get
    document_classifier.Repositories.Users.require_user document_classifier.Uuid.parse_uuid find?
    document_classifier.Repositories.Mapping.user_to_domain
    document_classifier.Contracts.role_of_value document_classifier.Uuid.uuid_to_str
current_admin = refl

require_role_lem_example : require_role app subject header ("read_audit" ∷ []) db ≡ (
  if any_allowed (allows policy) (role_value admin) ("read_audit" ∷ [])
      then ok admin_out
      else err (http 403),
  db,
)
require_role_lem_example =
    require_role_lem app subject header ("read_audit" ∷ []) db admin_out (allows policy)
      current_admin refl

-- A hash that can be read back, and a token that is the user's key.
abbrev hash : String → String
hash password = "hash of " ++ password

abbrev verify : String → String → Bool
verify password stored = str_eq stored ("hash of " ++ password)

abbrev token_of : String → String → String
token_of user_id signing_key = user_id

abbrev credentials : Credentials
credentials = record { email = "ada@example.org"; password = "ada" }

abbrev no_rows : Db
no_rows = record { users = []; batches = []; documents = []; predictions = []; audit_log = [] }

abbrev one_user : Db
one_user = record no_rows { users = admin_row ∷ [] }

ada_registers :
    register hash verify token_of admin_key 1 credentials no_rows ≡ (ok admin_out, one_user)
unfolding register document_classifier.Repositories.Users.get_by_email find?
    document_classifier.Repositories.Users.create_user document_classifier.Db.insert_user
    document_classifier.Db.user_fits role_value count_admins count_where
    document_classifier.Db.role_valid document_classifier.Contracts.role_of_value
    document_classifier.Repositories.Mapping.user_to_domain document_classifier.Db.insert_row
    document_classifier.Uuid.uuid_to_str
ada_registers = refl

register_effect_example :
    (find? (email_is "ada@example.org") no_rows.users ≡ none)
    × (admin_out.email ≡ "ada@example.org")
    × (admin_out.role ≡ (if count_admins no_rows == 0 then admin else reviewer))
    × (1 ≤ count_admins one_user)
register_effect_example =
    register_effect hash verify token_of admin_key 1 credentials no_rows one_user admin_out
      ada_registers

login-register_example :
    login hash verify token_of "secret" credentials one_user
    ≡ (ok (record { user = admin_out; access_token = token_of admin_text "secret" }), one_user)
login-register_example =
    login-register hash verify token_of admin_key 1 credentials no_rows one_user admin_out
      ada_registers "secret" (omega arith) refl

-- Weights and a card by their paths.
abbrev files : String → Entry String
files path =
    if str_eq path "classifier.pt"
    then readable "weights"
    else if str_eq path "model_card.json"
    then readable "card"
    else absent

abbrev card : ModelCard ℕ
card = record { sha256 = word "digest of weights"; test_top1 = number true 87 }

abbrev parsed : String → Reading (ModelCard ℕ)
parsed text = json (object card)

abbrev digest : String → String
digest file = "digest of " ++ file

run_all_startup_checks_lem_example :
    ((all_checks files parsed digest ltb "classifier.pt" "model_card.json" 50 none none none
        ≡ ok tt)
      ↔ MayStart files parsed digest ltb "classifier.pt" "model_card.json" 50)
    × ((all_checks files parsed digest ltb "classifier.pt" "model_card.json" 50 none none none
          ≡ ok tt)
        ⊎ (all_checks files parsed digest ltb "classifier.pt" "model_card.json" 50 none none none
            ≡ err startup_error)
        ⊎ ((e : Error) × (all_checks files parsed digest ltb "classifier.pt" "model_card.json" 50
                none none none
              ≡ err e)
            × Broken files parsed digest ltb "classifier.pt" "model_card.json" 50 e))
run_all_startup_checks_lem_example =
    run_all_startup_checks_lem files parsed digest ltb "classifier.pt" "model_card.json" 50 none
      none none

uncached : (cache_get memory ("batches:" ++ reviewer_text) world).0 ≡ none
unfolding cache_get
uncached = refl

two_parsed : parse_uuid reviewer_text ≡ ok 2
unfolding parse_uuid
two_parsed = refl

no_batch : find? (batch_with 2) db.batches ≡ none
unfolding find?
no_batch = refl

get_batch_missing_example : (get_batch memory codecs reviewer_text world).0 ≡ err lookup_error
get_batch_missing_example =
    get_batch_missing memory codecs reviewer_text 2 world uncached two_parsed no_batch
