-- ===== src/Api/Access.antt =====
-- What `require_role` lets through, and that no request of the users' endpoints removes the last admin.
use document_classifier.Prelude.{
  ◌≤◌, ◌≡◌, refl, Bool, true, false, some, List, [], ◌∷◌, String, arith, inl, inr, Option-cases,
  if◌then◌else◌, ◌||◌,
}
use document_classifier.Exec.{ok, err, http, Result-cases}
use document_classifier.Uuid.{parse_uuid}
use document_classifier.Contracts.{Role, UserOut, admin, reviewer, auditor, is_admin, role_value}
use document_classifier.Db.{Db, user_with, find?}
use document_classifier.Repositories.Users as Repo
use document_classifier.Repositories.Users.{count_admins}
use document_classifier.Services.World.{CacheBackend, Codecs, World, in_session}
use document_classifier.Services.Audit.{Stamp}
use document_classifier.Services.Cache.{cache_clear}
use document_classifier.Services.Users as Service
use document_classifier.Services.Users.Admins.{
  HasUserKeys, IsAdminActor, IsCanonical, db-get, toggle_role_keeps_an_admin,
}
use document_classifier.Services.Users.Deletion.{delete_user_keeps_an_admin}
use document_classifier.Api.Deps.{
  Enforcer, AppState, Decoder, get_current_user, known_user, check_role, require_role, policy,
  allows, get_enforcer, token_subject, bearer_token, signing_key_of,
}
use document_classifier.Api.Users.{toggle_role_endpoint, delete_user_endpoint}

-- Some action of the list is allowed.
abbrev pub any_allowed : Enforcer → String → List String → Bool
any_allowed enforce role [] = false
any_allowed enforce role (action ∷ actions) =
    enforce role action "allow" || any_allowed enforce role actions

check_role-any :
    (enforce : Enforcer) (user : UserOut) (actions : List String)
    → check_role enforce user actions
      ≡ (if any_allowed enforce (role_value user.role) actions then ok user else err (http 403))
unfolding check_role
check_role-any enforce user [] = refl
check_role-any enforce user (action ∷ actions) = ground (arith, check_role-any enforce user actions)

-- The engine reads the policy file by its model.
abbrev pub ReadsPolicy : AppState → Type 0
ReadsPolicy app =
    (enforce : Enforcer)
    → app.enforcer ≡ some enforce
    → (role : Role) (action : String)
    → enforce (role_value role) action "allow" ≡ allows policy (role_value role) action "allow"

admins_alone :
    (role : Role)
    → (allows policy (role_value role) "toggle_role" "allow" ≡ is_admin role)
      × (allows policy (role_value role) "delete_user" "allow" ≡ is_admin role)
unfolding allows policy role_value
admins_alone admin = (refl, refl)
admins_alone reviewer = (refl, refl)
admins_alone auditor = (refl, refl)

db-get_current_user :
    (app : AppState) (decode : Decoder) (header : String) (db : Db)
    → (get_current_user app decode header db).1 ≡ db
unfolding get_current_user known_user
db-get_current_user app decode header db = elim (Result-cases (bearer_token header)) [
  | inr (e, p) ↦ ground arith
  | inl (token, p) ↦ elim (Result-cases (signing_key_of app)) [
    | inr (e, q) ↦ ground arith
    | inl (key, q) ↦ elim (Result-cases (token_subject (decode token key))) [
      | inr (e, k) ↦ ground arith
      | inl (uid, k) ↦ ground (arith, db-get uid db)
    ]
  ]
]

-- Who is let in is a user of the tables.
current_user-found :
    (app : AppState) (decode : Decoder) (header : String) (db : Db) (user : UserOut)
    → (get_current_user app decode header db).0 ≡ ok user
    → (uid : String) × ((Repo.get uid db).0 ≡ ok user)
unfolding get_current_user known_user
current_user-found app decode header db user h = elim (Result-cases (bearer_token header)) [
  | inr (e, p) ↦ absurd (ground arith)
  | inl (token, p) ↦ elim (Result-cases (signing_key_of app)) [
    | inr (e, q) ↦ absurd (ground arith)
    | inl (key, q) ↦ elim (Result-cases (token_subject (decode token key))) [
      | inr (e, k) ↦ absurd (ground arith)
      | inl (uid, k) ↦ elim (Result-cases (Repo.get uid db).0) [
        | inr (e, l) ↦ absurd (ground arith)
        | inl (u, l) ↦ (uid, ground arith)
      ]
    ]
  ]
]

pub db-require_role :
    (app : AppState) (decode : Decoder) (header : String) (actions : List String) (db : Db)
    → (require_role app decode header actions db).1 ≡ db
unfolding require_role
db-require_role app decode header actions db =
    ground (arith, db-get_current_user app decode header db)

found-IsAdminActor :
    (uid : String) (db : Db) (user : UserOut)
    → (Repo.get uid db).0 ≡ ok user
    → is_admin user.role ≡ true
    → IsAdminActor db user
unfolding Repo.get Repo.require_user
found-IsAdminActor uid db user h a = elim (Result-cases (parse_uuid uid)) [
  | inr (e, p) ↦ absurd (ground arith)
  | inl (u, p) ↦ elim (Option-cases (find? (user_with u) db.users)) [
    | inl missing ↦ absurd (ground arith)
    | inr (row, found) ↦ record {
      key = u;
      row = row;
      found = found;
      mapped = ground arith;
      role_admin = is_admin_role user.role a;
    }
  ]
]
  where
    is_admin_role : (r : Role) → is_admin r ≡ true → r ≡ admin
    is_admin_role admin h = refl
    is_admin_role reviewer h = cc
    is_admin_role auditor h = cc

-- Who an admin's action is let through for is an admin of the tables.
required-IsAdminActor :
    (app : AppState) (decode : Decoder) (header action : String) (db : Db) (user : UserOut)
    → ReadsPolicy app
    → ((role : Role) → allows policy (role_value role) action "allow" ≡ is_admin role)
    → (require_role app decode header (action ∷ []) db).0 ≡ ok user
    → IsAdminActor db user
unfolding require_role get_enforcer check_role
required-IsAdminActor app decode header action db user reads alone h =
    elim (Result-cases (get_current_user app decode header db).0) [
      | inr (e, p) ↦ absurd (ground arith)
      | inl (u, p) ↦ elim (Option-cases app.enforcer) [
        | inl missing ↦ absurd (ground arith)
        | inr (enforce, q) ↦
            let (uid, found) = current_user-found app decode header db u p in
            let same : u ≡ user = ground arith in
            let k = reads enforce q u.role action in
            let l = alone u.role in
            let a : is_admin u.role ≡ true = ground arith in
            found-IsAdminActor uid db user (ground arith) (ground arith)
      ]
    ]

module _ (C : CacheBackend) (J : Codecs) (app : AppState) (decode : Decoder) (header : String)
    (stamp : Stamp) (uid : String) (reads : ReadsPolicy app) (w : World C.Store)
    (keys : HasUserKeys w.db) (some_admin : 1 ≤ count_admins w.db) where
  -- Let the policy engine decide by the rows of the policy file, and let no two users have one
  -- key. Where the tables have an admin, they have one after every request to delete a user,
  -- whoever sends it, whatever text names the user, and whether it is refused, raises or returns.
  pub delete_user_endpoint_keeps_an_admin :
      1 ≤ count_admins (delete_user_endpoint C J app decode header stamp uid w).1.db
  unfolding delete_user_endpoint in_session Service.delete_user cache_clear
  delete_user_endpoint_keeps_an_admin =
      elim (Result-cases (require_role app decode header ("delete_user" ∷ []) w.db).0) [
        | inr (e, p) ↦ ground (arith)
        | inl (user, p) ↦
            let a =
              required-IsAdminActor app decode header "delete_user" w.db user reads
                (λ role. (admins_alone role).1) p in
            let k = delete_user_keeps_an_admin stamp user uid w.db keys a in
            ground (arith, db-require_role app decode header ("delete_user" ∷ []) w.db)
      ]

  -- Let the policy engine decide by the rows of the policy file, and let no two users have one
  -- key. Where the tables have an admin, they have one after every request to change a role that
  -- names the user by the text of the id as the service writes it, whoever sends it, and whether
  -- it is refused, raises or returns.
  pub toggle_role_endpoint_keeps_an_admin :
      (role : Role)
      → IsCanonical uid
      → 1 ≤ count_admins (toggle_role_endpoint C J app decode header stamp uid role w).1.db
  unfolding toggle_role_endpoint in_session Service.toggle_role cache_clear
  toggle_role_endpoint_keeps_an_admin role canonical =
      elim (Result-cases (require_role app decode header ("toggle_role" ∷ []) w.db).0) [
        | inr (e, p) ↦ ground arith
        | inl (user, p) ↦
            let a =
              required-IsAdminActor app decode header "toggle_role" w.db user reads
                (λ role. (admins_alone role).0) p in
            let k = toggle_role_keeps_an_admin stamp user uid role w.db keys a canonical in
            ground (arith, db-require_role app decode header ("toggle_role" ∷ []) w.db)
      ]

-- A request of a known user, where the engine is ready, passes `require_role` exactly if the
-- engine allows the user's role one of the actions, and gives that user; else it is a 403. The
-- tables stay as they were.
pub require_role_lem :
    (app : AppState) (decode : Decoder) (header : String) (actions : List String) (db : Db)
    (user : UserOut) (enforce : Enforcer)
    → (get_current_user app decode header db).0 ≡ ok user
    → app.enforcer ≡ some enforce
    → require_role app decode header actions db
      ≡ (if any_allowed enforce (role_value user.role) actions then ok user else err (http 403), db)
unfolding require_role get_enforcer
require_role_lem app decode header actions db user enforce known ready =
    ground (arith, db-get_current_user app decode header db, check_role-any enforce user actions)
