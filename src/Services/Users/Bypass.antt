-- ===== src/Services/Users/Bypass.antt =====
-- The guard of `toggle_role` compares texts: another text of the admin's own id passes it.
use document_classifier.Prelude.{
  ◌≤◌, ◌<◌, ◌^◌, ◌≡◌, ◌≢◌, true, false, none, some, [], ◌∷◌, String, str_eq, str_len, arith,
  Bool-cases, inl, inr, eq_iff, refl, sym, ◌∙◌, ap,
}
use document_classifier.Exec.{ok, is_ok}
use document_classifier.Uuid.{parse_uuid, uuid_to_str}
use document_classifier.Uuid.RoundTrip.{parse_uuid-uuid_to_str}
use document_classifier.Contracts.{
  Role, UserOut, reviewer, auditor, admin, is_admin, role_value, role_of_value-role_value,
}
use document_classifier.Db.{
  Db, user_with, audit_with, user_fits, role_valid, find?, find?-holds, update_user, audit_fits,
  action_valid, count_where-modify_where_one, find?-modify_where_self,
}
use document_classifier.Repositories.Mapping.{user_to_domain}
use document_classifier.Repositories.Users as Repo
use document_classifier.Repositories.Users.{count_admins, is_admin_row}
use document_classifier.Services.Audit.{Stamp, record_entry_returns}
use document_classifier.Services.Users.{demotes_last_admin, change_role, toggle_role_db}
use document_classifier.Services.Users.Admins.{
  HasUserKeys, IsAdminActor, row_admin, actor_id, set_role, with_role, users-change_role,
}

role_value-plain : (role : Role) → is_admin role ≡ false → str_eq (role_value role) "admin" ≡ false
unfolding role_value
role_value-plain admin h = cc
role_value-plain reviewer h = refl
role_value-plain auditor h = refl

module _ (stamp : Stamp) (actor : UserOut) (uid : String) (role : Role) (db : Db)
    (a : IsAdminActor db actor) (parsed : parse_uuid uid ≡ ok a.key)
    (fit : user_fits (set_role role a.row) ≡ true) where
  updated : UserOut
  updated = record {
    id = uuid_to_str a.row.id;
    email = a.row.email;
    role = role;
    is_active = a.row.is_active;
    created_at = a.row.created_at;
  }

  row_key : a.row.id ≡ a.key
  row_key = let k = find?-holds (user_with a.key) db.users a.row a.found in ground arith

  update_role_returns :
      Repo.update_role uid role db
      ≡ (ok updated, record db { users = with_role a.key role db.users })
  unfolding Repo.update_role Repo.require_user update_user role_valid with_role user_to_domain
      updated
  update_role_returns = let f = a.found in ground (arith, row_key, role_of_value-role_value role)

  guard_passes : uid ≢ actor.id → demotes_last_admin actor uid role db ≡ false
  unfolding demotes_last_admin
  guard_passes other = elim (Bool-cases (str_eq actor.id uid)) [
    | inl same ↦ absurd (other (sym ((eq_iff actor.id uid).0 same)))
    | inr differs ↦ ground arith
  ]

  -- The actor is still found after the change, so the entry is made.
  still_found : find? (user_with a.key) (with_role a.key role db.users) ≡ some (set_role role a.row)
  unfolding with_role
  still_found =
      find?-modify_where_self (user_with a.key) (set_role role) db.users a.row (λ x. refl) a.found

  change_role_returns :
      (target : UserOut)
      → a.key < 2 ^ 128
      → str_len uid ≤ 255
      → find? (audit_with stamp.id) db.audit_log ≡ none
      → (change_role stamp actor uid role target db).0 ≡ ok updated
  unfolding change_role audit_fits action_valid
  change_role_returns target small short fresh =
      let after : Db = record db { users = with_role a.key role db.users } in
      let entry =
        record_entry_returns stamp (some actor.id) "role_change" uid
          (some (("from", some (role_value target.role)) ∷ ("to", some (role_value role)) ∷ []))
          after actor.id a.key (set_role role a.row) refl
          (ap parse_uuid (actor_id a) ∙ parse_uuid-uuid_to_str a.key small) still_found
          (ground arith) refl fresh in
      ground (arith, update_role_returns, entry)

  toggle_returns :
      a.key < 2 ^ 128
      → str_len uid ≤ 255
      → uid ≢ actor.id
      → find? (audit_with stamp.id) db.audit_log ≡ none
      → (toggle_role_db stamp actor uid role db).0 ≡ ok updated
  unfolding toggle_role_db Repo.get Repo.require_user
  toggle_returns small short other fresh =
      let m = a.mapped in
      let f = a.found in
      ground (arith, guard_passes other, change_role_returns actor small short fresh)

  no_admin_left :
      HasUserKeys db
      → is_admin role ≡ false
      → count_admins db ≡ 1
      → uid ≢ actor.id
      → count_admins (toggle_role_db stamp actor uid role db).1 ≡ 0
  unfolding toggle_role_db Repo.get Repo.require_user count_admins with_role
  no_admin_left keys plain one other =
      let m = a.mapped in
      let f = a.found in
      ground (
        arith,
        guard_passes other,
        users-change_role stamp actor uid role actor db,
        update_role_returns,
        count_where-modify_where_one (user_with a.key) is_admin_row (set_role role) db.users a.row
            (keys.one a.key) a.found (row_admin a) (role_value-plain role plain),
      )

-- Let no two users have one key, and let the actor be the only admin, with a key below 2^128 and
-- a row that fits its columns with the new role, which is not admin. Let the key of the
-- new entry be new in the audit log. Where the request names the
-- actor by another text of their own id than the service writes, of 255 characters at most, such
-- as the id in capitals, the guard does not hold the change back: the call returns, and no admin
-- is left.
pub toggle_role_bypass :
    (stamp : Stamp) (actor : UserOut) (uid : String) (role : Role) (db : Db)
    → (a : IsAdminActor db actor) → HasUserKeys db
    → parse_uuid uid ≡ ok a.key
    → uid ≢ actor.id
    → is_admin role ≡ false
    → count_admins db ≡ 1
    → user_fits (set_role role a.row) ≡ true
    → a.key < 2 ^ 128
    → str_len uid ≤ 255
    → find? (audit_with stamp.id) db.audit_log ≡ none
    → (is_ok (toggle_role_db stamp actor uid role db).0 ≡ true)
      × (count_admins (toggle_role_db stamp actor uid role db).1 ≡ 0)
toggle_role_bypass stamp actor uid role db a keys parsed other plain one fit small short fresh = (
  ap is_ok (toggle_returns stamp actor uid role db a parsed fit small short other fresh),
  no_admin_left stamp actor uid role db a parsed fit keys plain one other,
)
