-- ===== src/Api/Register.antt =====
-- The registration of a user, and the login behind it.
use document_classifier.Prelude.{
  ℕ, ◌≤◌, ◌<◌, ◌^◌, ◌≡◌, refl, ap, Bool, true, none, String, str_eq, arith, inl, inr, Bool-cases,
  Option-cases, if◌then◌else◌, ◌==◌, eq_iff,
}
use document_classifier.Exec.{ok, Result-cases}
use document_classifier.Uuid.{Uuid, uuid_to_str}
use document_classifier.Uuid.RoundTrip.{parse_uuid-uuid_to_str}
use document_classifier.Contracts.{
  Role, UserOut, admin, reviewer, role_value, role_of_value-role_value,
}
use document_classifier.Db.{
  User, Db, user_with, email_is, find?, insert_row, insert_user, count_where-insert_row,
  find?-insert_row,
}
use document_classifier.Repositories.Mapping.{user_to_domain}
use document_classifier.Repositories.Users as Repo
use document_classifier.Repositories.Users.{count_admins, is_admin_row}
use document_classifier.Api.Auth.{Credentials, first_role, register, login}

module _ (hash_password : String → String) (verify_password : String → String → Bool)
    (create_access_token : String → String → String) where
  -- The row of a registration.
  abbrev pub new_user : Uuid → ℕ → Credentials → Role → User
  new_user id now body role = record {
    id = id;
    email = body.email;
    hashed_password = hash_password body.password;
    role = role_value role;
    is_active = true;
    created_at = now;
  }

  module _ (id : Uuid) (now : ℕ) (body : Credentials) (db db' : Db) (out : UserOut)
      (done : register hash_password verify_password create_access_token id now body db
        ≡ (ok out, db')) where
    -- A registration that returns was of an email and a key that no user had, and has added the one
    -- row of the new user.
    registered :
        (find? (email_is body.email) db.users ≡ none)
        × (find? (user_with id) db.users ≡ none)
        × (user_to_domain (new_user id now body (first_role (count_admins db))) ≡ ok out)
        × (db' ≡ record db {
          users = insert_row (new_user id now body (first_role (count_admins db))) db.users;
        })
    unfolding register Repo.get_by_email Repo.create_user insert_user
    registered = elim (Option-cases (find? (email_is body.email) db.users)) [
      | inr (row, found) ↦ elim (Result-cases (user_to_domain row)) [
        | inl (u, p) ↦ absurd (ground arith)
        | inr (e, p) ↦ absurd (ground arith)
      ]
      | inl free ↦ elim (Option-cases (find? (user_with id) db.users)) [
        | inr (row, found) ↦ absurd (ground arith)
        | inl fresh ↦ (free, fresh, ground arith, ground arith)
      ]
    ]

    -- A registration that returns was of an email that no user had. The new user has that email, and is
    -- an admin where there was none before and a reviewer else; and there is an admin now.
    pub register_effect :
        (find? (email_is body.email) db.users ≡ none)
        × (out.email ≡ body.email)
        × (out.role ≡ (if count_admins db == 0 then admin else reviewer))
        × (1 ≤ count_admins db')
    unfolding user_to_domain first_role count_admins role_value
    register_effect =
        let (free, fresh, mapped, same) = registered in
        let read = role_of_value-role_value (first_role (count_admins db)) in
        let counted =
          count_where-insert_row is_admin_row (new_user id now body (first_role (count_admins db)))
            db.users in
        (
          free,
          ground arith,
          ground arith,
          rw same (elim (Bool-cases (count_admins db == 0)) [
            | inl none_before ↦
                let f : first_role (count_admins db) ≡ admin = ground arith in
                let r : role_value (first_role (count_admins db)) ≡ "admin" = ap role_value f in
                ground (arith, (eq_iff (role_value (first_role (count_admins db))) "admin").1 r)
            | inr some_before ↦ ground arith
          ]),
        )

    -- Behind a registration that returns, under a key below 2^128, the login with the same email
    -- and password returns the new user with a token for their id, and changes nothing, where a
    -- password is verified against its own hash.
    pub login-register :
        (signing_key : String)
        → id < 2 ^ 128
        → verify_password body.password (hash_password body.password) ≡ true
        → login hash_password verify_password create_access_token signing_key body db'
          ≡ (ok (record { user = out; access_token = create_access_token out.id signing_key }), db')
    unfolding login Repo.get_by_email Repo.get_hashed_password user_to_domain first_role
    login-register signing_key small verified =
        let (free, fresh, mapped, same) = registered in
        let row = new_user id now body (first_role (count_admins db)) in
        let own : str_eq body.email body.email ≡ true = (eq_iff body.email body.email).1 refl in
        let by_email = find?-insert_row (email_is body.email) row db.users free own in
        let key : user_with id row ≡ true = ground arith in
        let by_key = find?-insert_row (user_with id) row db.users fresh key in
        let parsed = parse_uuid-uuid_to_str id small in
        let named : out.id ≡ uuid_to_str id = ground arith in rw same (ground arith)
