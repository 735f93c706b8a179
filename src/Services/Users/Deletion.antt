-- ===== src/Services/Users/Deletion.antt =====
-- There is always an admin: the guards of `delete_user`.
use document_classifier.Prelude.{
  ◌≤◌, ◌≡◌, ◌⊎◌, inl, inr, false, some, none, String, str_eq, arith, ◌==◌, Bool-cases, Option-cases,
}
use document_classifier.Exec.{ok, Result-cases}
use document_classifier.Uuid.{Uuid, parse_uuid}
use document_classifier.Contracts.{UserOut, role_of_value}
use document_classifier.Db.{
  User, Db, user_with, find?, find?-holds, delete_user_row, count_where-le_remove_where,
  count_where-remove_where_one,
}
use document_classifier.Repositories.Mapping.{user_to_domain}
use document_classifier.Repositories.Users as Repo
use document_classifier.Repositories.Users.{count_admins, is_admin_row}
use document_classifier.Services.Audit.{Stamp, record_entry, users-record_entry}
use document_classifier.Services.Users.{guard_last_admin, delete_user_db}
use document_classifier.Services.Users.Admins.{HasUserKeys, IsAdminActor, some_admin, db-get}

count-delete_user_row :
    (db : Db) (u : Uuid) (r : User)
    → HasUserKeys db
    → find? (user_with u) db.users ≡ some r
    → (is_admin_row r ≡ false) ⊎ (2 ≤ count_admins db)
    → 1 ≤ count_admins db
    → 1 ≤ count_admins (delete_user_row u db)
unfolding count_admins delete_user_row
count-delete_user_row db u r keys found (inl plain) some_one =
    rw (count_where-remove_where_one (user_with u) is_admin_row db.users r (keys.one u) found plain)
      some_one
count-delete_user_row db u r keys found (inr two) some_one =
    omega (arith, count_where-le_remove_where (user_with u) is_admin_row db.users, keys.one u)

-- `UserRepository.delete` leaves an admin, where the user is none or there are two.
delete_keeps :
    (uid : String) (db : Db)
    → HasUserKeys db
    → 1 ≤ count_admins db
    → ((r : User) (u : Uuid)
        → parse_uuid uid ≡ ok u
        → find? (user_with u) db.users ≡ some r
        → (is_admin_row r ≡ false) ⊎ (2 ≤ count_admins db))
    → 1 ≤ count_admins (Repo.delete uid db).1
unfolding Repo.delete Repo.require_user
delete_keeps uid db keys some_one h = elim (Result-cases (parse_uuid uid)) [
  | inr (e, p) ↦ ground arith
  | inl (u, p) ↦ elim (Option-cases (find? (user_with u) db.users)) [
    | inl missing ↦ ground arith
    | inr (r, found) ↦
        let e : r.id ≡ u = (let k = find?-holds (user_with u) db.users r found in ground arith) in
        ground (arith, e, count-delete_user_row db u r keys found (h r u p found) some_one)
  ]
]

db-guard : (actor : UserOut) (uid : String) (db : Db) → (guard_last_admin actor uid db).1 ≡ db
unfolding guard_last_admin
db-guard actor uid db = ground (arith, db-get uid db)

-- Past the guard, the user is no admin or is not the only one.
guard_passed :
    (actor : UserOut) (uid : String) (db : Db) (r : User) (u : Uuid)
    → (guard_last_admin actor uid db).0 ≡ ok tt
    → IsAdminActor db actor
    → parse_uuid uid ≡ ok u
    → find? (user_with u) db.users ≡ some r
    → (is_admin_row r ≡ false) ⊎ (2 ≤ count_admins db)
unfolding guard_last_admin Repo.get Repo.require_user user_to_domain role_of_value
guard_passed actor uid db r u g a p found = elim (Bool-cases (count_admins db == 1)) [
  | inr several ↦ inr (ground (arith, some_admin a))
  | inl one ↦ let e = a.role_admin in inl (ground arith)
]

count-entry :
    (stamp : Stamp) (actor : UserOut) (uid : String) (db : Db)
    → count_admins (record_entry stamp (some actor.id) "delete_user" uid none db).1
      ≡ count_admins db
unfolding count_admins
count-entry stamp actor uid db =
    rw (users-record_entry stamp (some actor.id) "delete_user" uid none db)

-- Let no two users have one key. An admin of the tables who deletes a user leaves at least one
-- admin, whatever text names the user, and whether the call returns or raises.
pub delete_user_keeps_an_admin :
    (stamp : Stamp) (actor : UserOut) (uid : String) (db : Db)
    → HasUserKeys db
    → IsAdminActor db actor
    → 1 ≤ count_admins (delete_user_db stamp actor uid db).1
unfolding delete_user_db
delete_user_keeps_an_admin stamp actor uid db keys a = elim (Bool-cases (str_eq actor.id uid)) [
  | inl self ↦ ground (arith, some_admin a)
  | inr other ↦ elim (Result-cases (guard_last_admin actor uid db).0) [
    | inr (e, p) ↦ ground (arith, db-guard actor uid db, some_admin a)
    | inl (x, p) ↦
        let left =
          delete_keeps uid db keys (some_admin a)
            (λ r u parsed found. guard_passed actor uid db r u p a parsed found) in
        ground
          (arith, db-guard actor uid db, left, count-entry stamp actor uid (Repo.delete uid db).1)
  ]
]
