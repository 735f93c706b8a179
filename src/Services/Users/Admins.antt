-- ===== src/Services/Users/Admins.antt =====
-- There is always an admin: the guards of `toggle_role` and `delete_user`.
use document_classifier.Prelude.{
  ◌≤◌, ◌≡◌, ◌≢◌, ◌⊎◌, inl, inr, refl, sym, ap, ◌∙◌, true, false, some, List, [], ◌∷◌, String,
  str_eq, eq_iff, arith, ◌==◌, Bool-cases, Option-cases,
}
use document_classifier.Exec.{ok, Result-cases}
use document_classifier.Uuid.{Uuid, parse_uuid, uuid_to_str}
use document_classifier.Contracts.{
  Role, UserOut, admin, reviewer, auditor, is_admin, role_value, role_of_value,
  role_of_value-role_value,
}
use document_classifier.Db.{
  User, Db, user_with, find?, find?-holds, count_where, update_user, user_fits, role_valid,
  count_where-le_modify_where, modify_where, count_where-le_modify_where_grow,
  find?-modify_where_ne,
}
use document_classifier.Db.{count_where-pos_of_found}
use document_classifier.Repositories.Mapping.{user_to_domain}
use document_classifier.Repositories.Users as Repo
use document_classifier.Repositories.Users.{count_admins, is_admin_row}
use document_classifier.Services.Audit.{Stamp, users-record_entry}
use document_classifier.Services.Users.{demotes_last_admin, change_role, toggle_role_db}

-- The primary key of `users`.
pub record HasUserKeys (db : Db) : Type 0 where
  pub one : (u : Uuid) → count_where (user_with u) db.users ≤ 1

-- `actor` is what `get_current_user` returned for an admin of these tables.
pub record IsAdminActor (db : Db) (actor : UserOut) : Type 0 where
  pub key : Uuid
  pub row : User
  pub found : find? (user_with key) db.users ≡ some row
  pub mapped : user_to_domain row ≡ ok actor
  pub role_admin : actor.role ≡ admin

-- The text is how `str(uuid)` writes the UUID that it is read as.
abbrev pub IsCanonical : String → Type 0
IsCanonical text = (u : Uuid) → parse_uuid text ≡ ok u → text ≡ uuid_to_str u

-- What `update_role` makes of the users.
abbrev pub set_role : Role → User → User
set_role role r = record r { role = role_value role }

unfoldable pub with_role : Uuid → Role → List User → List User
with_role u role = modify_where (user_with u) (set_role role)

role_value-admin : (role : Role) → is_admin role ≡ true → str_eq (role_value role) "admin" ≡ true
unfolding role_value
role_value-admin admin h = refl
role_value-admin reviewer h = cc
role_value-admin auditor h = cc

module _ {db : Db} {actor : UserOut} (a : IsAdminActor db actor) where
  pub row_admin : is_admin_row a.row ≡ true
  unfolding user_to_domain role_of_value
  row_admin = let m = a.mapped in let r = a.role_admin in ground arith

  pub actor_id : actor.id ≡ uuid_to_str a.key
  unfolding user_to_domain
  actor_id =
      let m = a.mapped in
      let k = find?-holds (user_with a.key) db.users a.row a.found in ground arith

  pub some_admin : 1 ≤ count_admins db
  unfolding count_admins
  some_admin =
      let k = find?-holds (user_with a.key) db.users a.row a.found in
      count_where-pos_of_found (user_with a.key) is_admin_row db.users a.row a.found row_admin

  -- An admin is left when the role given is admin, when the row changed is another's, and when there
  -- was a second admin.
  admin_left :
      (u : Uuid) (role : Role)
      → HasUserKeys db
      → (is_admin role ≡ true) ⊎ (u ≢ a.key) ⊎ (2 ≤ count_admins db)
      → 1 ≤ count_where is_admin_row (with_role u role db.users)
  unfolding count_admins with_role
  admin_left u role keys h = elim h [
    | inl given ↦
        let grown =
          count_where-le_modify_where_grow (user_with u) is_admin_row (set_role role) db.users
            (λ x. role_value-admin role given) in
        omega (arith, grown, some_admin)
    | inr (inl other) ↦
        count_where-pos_of_found (user_with a.key) is_admin_row (with_role u role db.users) a.row
          (find?-modify_where_ne (user_with u) (user_with a.key) (set_role role) db.users
              (λ x e. ground arith) (λ x. refl)
            ∙ a.found)
          row_admin
    | inr (inr two) ↦ omega (
      arith,
      count_where-le_modify_where (user_with u) is_admin_row (set_role role) db.users,
      keys.one u,
    )
  ]

users-update_role :
    (uid : String) (role : Role) (db : Db)
    → ((Repo.update_role uid role db).1.users ≡ db.users)
      ⊎ ((u : Uuid) × (parse_uuid uid ≡ ok u)
          × ((Repo.update_role uid role db).1.users ≡ with_role u role db.users))
unfolding Repo.update_role Repo.require_user update_user role_valid with_role
users-update_role uid role db = elim (Result-cases (parse_uuid uid)) [
  | inr (e, p) ↦ inl (ground arith)
  | inl (u, p) ↦ elim (Option-cases (find? (user_with u) db.users)) [
    | inl missing ↦ inl (ground arith)
    | inr (r, found) ↦ elim (Bool-cases (user_fits (set_role role r))) [
      | inl fit ↦ inr (
        u,
        p,
        ground (arith, find?-holds (user_with u) db.users r found, role_of_value-role_value role),
      )
      | inr long ↦ inl (ground arith)
    ]
  ]
]

pub users-change_role :
    (stamp : Stamp) (actor : UserOut) (uid : String) (role : Role) (target : UserOut) (db : Db)
    → (change_role stamp actor uid role target db).1.users ≡ (Repo.update_role uid role db).1.users
unfolding change_role
users-change_role stamp actor uid role target db =
    elim (Result-cases (Repo.update_role uid role db).0) [
      | inr (e, p) ↦ ground arith
      | inl (u, p) ↦ ground (
        arith,
        users-record_entry stamp (some actor.id) "role_change" uid
            (some (("from", some (role_value target.role)) ∷ ("to", some (role_value role)) ∷ []))
            (Repo.update_role uid role db).1,
      )
    ]

-- Past the guard, the change is one that leaves an admin.
guard_passed :
    (actor : UserOut) (uid : String) (role : Role) (db : Db) (a : IsAdminActor db actor) (u : Uuid)
    → IsCanonical uid
    → parse_uuid uid ≡ ok u
    → demotes_last_admin actor uid role db ≡ false
    → (is_admin role ≡ true) ⊎ (u ≢ a.key) ⊎ (2 ≤ count_admins db)
unfolding demotes_last_admin
guard_passed actor uid role db a u canonical p guard = elim (Bool-cases (is_admin role)) [
  | inl given ↦ inl given
  | inr other ↦ elim (Bool-cases (u == a.key)) [
    | inr differs ↦ inr (inl (λ e. ground arith))
    | inl same ↦
        let e : u ≡ a.key = ground arith in
        let texts : actor.id ≡ uid = actor_id a ∙ (ap uuid_to_str (sym e) ∙ sym (canonical u p)) in
        let r = a.role_admin in
        inr (inr (ground (arith, (eq_iff actor.id uid).1 texts, some_admin a)))
  ]
]

change_role_keeps :
    (stamp : Stamp) (actor : UserOut) (uid : String) (role : Role) (target : UserOut) (db : Db)
    → HasUserKeys db
    → IsAdminActor db actor
    → IsCanonical uid
    → demotes_last_admin actor uid role db ≡ false
    → 1 ≤ count_admins (change_role stamp actor uid role target db).1
unfolding count_admins
change_role_keeps stamp actor uid role target db keys a canonical guard =
    rw users-change_role (elim (users-update_role uid role db) [
      | inl same ↦ rw same (some_admin a)
      | inr (u, p, e) ↦
          rw e (admin_left a u role keys (guard_passed actor uid role db a u canonical p guard))
    ])

pub db-get : (uid : String) (db : Db) → (Repo.get uid db).1 ≡ db
unfolding Repo.get Repo.require_user
db-get uid db = ground arith

-- Let no two users have one key. An admin of the tables who changes a role, by a text of the
-- user's id as the service writes it, leaves at least one admin, whoever the user is, whatever
-- the new role, and whether the call returns or raises.
pub toggle_role_keeps_an_admin :
    (stamp : Stamp) (actor : UserOut) (uid : String) (role : Role) (db : Db)
    → HasUserKeys db
    → IsAdminActor db actor
    → IsCanonical uid
    → 1 ≤ count_admins (toggle_role_db stamp actor uid role db).1
unfolding toggle_role_db
toggle_role_keeps_an_admin stamp actor uid role db keys a canonical =
    elim (Result-cases (Repo.get uid db).0) [
      | inr (e, p) ↦ ground (arith, db-get uid db, some_admin a)
      | inl (target, p) ↦ elim (Bool-cases (demotes_last_admin actor uid role db)) [
        | inl last ↦ ground (arith, db-get uid db, some_admin a)
        | inr guard ↦ ground (
          arith,
          db-get uid db,
          change_role_keeps stamp actor uid role target db keys a canonical guard,
        )
      ]
    ]
