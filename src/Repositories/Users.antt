-- ===== src/Repositories/Users.antt =====
-- backend/app/repositories/user_repo.py. The key and the time that the database gives a new row are
-- arguments, and so is the order that it returns rows of one email rank in.
use document_classifier.Prelude.{ℕ, Bool, true, Option, none, some, List, [], ◌∷◌, String, str_eq}
use document_classifier.Exec.{
  Result, ok, err, Exec, pure, lift, gets, or_raise, modify, ◌>>=◌, value_error,
}
use document_classifier.Uuid.{Uuid, parse_uuid}
use document_classifier.Contracts.{Role, UserOut, role_value}
use document_classifier.Db.{
  User, Db, user_with, email_is, find?, count_where, insert_user, update_user, delete_user_row,
}
use document_classifier.Repositories.Mapping.{user_to_domain, require_row}

unfoldable pub create_user : Uuid → ℕ → String → String → Role → Exec Db UserOut
create_user id now email hashed_password role = do
  user ← insert_user (record {
    id = id;
    email = email;
    hashed_password = hashed_password;
    role = role_value role;
    is_active = true;
    created_at = now;
  })
  lift (user_to_domain user)

-- `session.get(models.User, parse_uuid(user_id))`, and `require_row`.
unfoldable pub require_user : String → Exec Db User
unfolding require_row
require_user user_id = do
  id ← lift (parse_uuid user_id)
  found ← gets (λ (db : Db). find? (user_with id) db.users)
  require_row found

unfoldable pub get : String → Exec Db UserOut
get user_id = do user ← require_user user_id; lift (user_to_domain user)

abbrev optional_user : Option User → Result (Option UserOut)
optional_user none = ok none
optional_user (some user) = elim (user_to_domain user) [ ok u ↦ ok (some u) | err e ↦ err e ]

unfoldable pub get_by_email : String → Exec Db (Option UserOut)
get_by_email email db = (optional_user (find? (email_is email) db.users), db)

unfoldable pub users_to_domain : List User → Result (List UserOut)
users_to_domain [] = ok []
users_to_domain (user ∷ rest) = elim (user_to_domain user) [
  | ok u ↦ elim (users_to_domain rest) [ ok us ↦ ok (u ∷ us) | err e ↦ err e ]
  | err e ↦ err e
]

-- ORDER BY email
unfoldable pub list_users : (List User → List User) → Exec Db (List UserOut)
list_users by_email db = (users_to_domain (by_email db.users), db)

unfoldable pub update_role : String → Role → Exec Db UserOut
update_role user_id new_role = do
  user ← require_user user_id
  updated ← update_user user (λ r. record r { role = role_value new_role })
  lift (user_to_domain updated)

abbrev pub is_admin_row : User → Bool
is_admin_row r = str_eq r.role "admin"

unfoldable pub count_admins : Db → ℕ
count_admins db = count_where is_admin_row db.users

-- `UserRepository.delete`
unfoldable pub delete : String → Exec Db (Unit {0})
delete user_id = do user ← require_user user_id; modify (delete_user_row user.id)

unfoldable pub get_hashed_password : String → Exec Db String
get_hashed_password user_id = do
  id ← lift (parse_uuid user_id)
  found ← gets (λ (db : Db). find? (user_with id) db.users)
  user ← or_raise found value_error
  pure user.hashed_password
