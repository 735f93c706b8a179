-- ===== src/Api/Deps.antt =====
-- backend/app/api/deps.py, with the policy of backend/app/infra/casbin. The token library and the policy
-- engine are arguments.
use document_classifier.Prelude.{
  Bool, false, ◌&&◌, ◌||◌, Option, none, some, List, [], ◌∷◌, String, code, ◌==◌, str_eq,
  if◌then◌else◌,
}
use document_classifier.Exec.{Result, ok, err, Exec, lift, ◌>>=◌, http, invalid_token, key_error}
use document_classifier.Contracts.{UserOut, role_value}
use document_classifier.Db.{Db}
use document_classifier.Repositories.Users as Repo

-- `enforcer.enforce(subject, object, action)`
abbrev pub Enforcer : Type 0
Enforcer = String → String → String → Bool

-- `jwt.decode(token, key, algorithms=["HS256"])`: the subject of the payload, if it has one.
abbrev pub Decoder : Type 0
Decoder = String → String → Result (Option String)

-- What the lifespan put into `app.state`; a signing key that is missing is an empty text.
pub record AppState : Type 0 where
  pub jwt_signing_key : String
  pub enforcer : Option Enforcer

-- `text[len(prefix):]` where `text.startswith(prefix)`
unfoldable pub after_prefix : String → String → Option String
after_prefix String.[] text = some text
after_prefix (String.◌∷◌ c prefix) String.[] = none
after_prefix (String.◌∷◌ c prefix) (String.◌∷◌ d text) =
    let rest = after_prefix prefix text in if code c == code d then rest else none

unfoldable pub bearer_token : String → Result String
unfolding after_prefix
bearer_token auth_header = elim (after_prefix "Bearer " auth_header) [
  | some token ↦ ok token
  | none ↦ err (http 401)
]

unfoldable pub signing_key_of : AppState → Result String
signing_key_of app =
    if str_eq app.jwt_signing_key "" then err (http 503) else ok app.jwt_signing_key

-- `payload["sub"]`, where `jwt.InvalidTokenError` alone is caught.
unfoldable pub token_subject : Result (Option String) → Result String
token_subject (ok (some subject)) = ok subject
token_subject (ok none) = err key_error
token_subject (err invalid_token) = err (http 401)
token_subject (err e) = err e

-- `except (KeyError, Exception)`
unfoldable pub known_user : Exec Db UserOut → Exec Db UserOut
known_user m db =
    let (r, db') = m db in elim r [ ok user ↦ (ok user, db') | err _ ↦ (err (http 401), db') ]

unfoldable pub get_current_user : AppState → Decoder → String → Exec Db UserOut
unfolding bearer_token signing_key_of token_subject known_user
get_current_user app decode auth_header = do
  token ← lift (bearer_token auth_header)
  signing_key ← lift (signing_key_of app)
  user_id ← lift (token_subject (decode token signing_key))
  known_user (Repo.get user_id)

unfoldable pub get_enforcer : AppState → Result Enforcer
get_enforcer app = elim app.enforcer [ some enforcer ↦ ok enforcer | none ↦ err (http 503) ]

-- `_check` of `require_role(*actions)`
unfoldable pub check_role : Enforcer → UserOut → List String → Result UserOut
check_role enforce current_user [] = err (http 403)
check_role enforce current_user (action ∷ actions) =
    let rest = check_role enforce current_user actions in
    if enforce (role_value current_user.role) action "allow" then ok current_user else rest

unfoldable pub require_role : AppState → Decoder → String → List String → Exec Db UserOut
unfolding get_current_user get_enforcer check_role
require_role app decode auth_header actions = do
  current_user ← get_current_user app decode auth_header
  enforcer ← lift (get_enforcer app)
  lift (check_role enforcer current_user actions)

-- app/infra/casbin/policy.csv
unfoldable pub policy : List (String × String × String)
policy =
    ("admin", "invite_user", "allow")
    ∷ ("admin", "toggle_role", "allow")
    ∷ ("admin", "delete_user", "allow")
    ∷ ("admin", "read_audit", "allow")
    ∷ ("admin", "read_batch", "allow")
    ∷ ("admin", "relabel_prediction", "allow")
    ∷ ("admin", "add_comment", "allow")
    ∷ ("admin", "trigger_scan", "allow")
    ∷ ("admin", "rename_document", "allow")
    ∷ ("reviewer", "read_batch", "allow")
    ∷ ("reviewer", "relabel_prediction", "allow")
    ∷ ("reviewer", "add_comment", "allow")
    ∷ ("reviewer", "trigger_scan", "allow")
    ∷ ("reviewer", "rename_document", "allow")
    ∷ ("auditor", "read_batch", "allow")
    ∷ ("auditor", "read_audit", "allow")
    ∷ []

-- The matcher and the effect of app/infra/casbin/model.conf: some row has the three texts. No row of the
-- policy makes one role another, so `g` is the equality.
unfoldable pub allows : List (String × String × String) → Enforcer
allows [] sub obj act = false
allows ((s, o, a) ∷ rows) sub obj act =
    (str_eq sub s && str_eq obj o && str_eq act a) || allows rows sub obj act
