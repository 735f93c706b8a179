-- ===== src/Api/Auth.antt =====
-- backend/app/api/routers/auth.py. The password hash and the token library are arguments.
use document_classifier.Prelude.{ℕ, Bool, String, ◌==◌, if◌then◌else◌, is_some, not}
use document_classifier.Exec.{Exec, pure, gets, or_raise, raise_if, ◌>>=◌, ◌>>◌, http}
use document_classifier.Uuid.{Uuid}
use document_classifier.Contracts.{Role, admin, reviewer, UserOut}
use document_classifier.Db.{Db}
use document_classifier.Repositories.Users as Repo

-- `UserCreate`, and `_LoginBody`
pub record Credentials : Type 0 where
  pub email : String
  pub password : String

pub record TokenOut : Type 0 where
  pub user : UserOut
  pub access_token : String

-- The first registrant is an admin.
unfoldable pub first_role : ℕ → Role
first_role admin_count = if admin_count == 0 then admin else reviewer

module _ (hash_password : String → String) (verify_password : String → String → Bool)
    (create_access_token : String → String → String) where
  unfoldable pub register : Uuid → ℕ → Credentials → Exec Db UserOut
  unfolding first_role
  register id now body = do
    existing ← Repo.get_by_email body.email
    raise_if (is_some existing) (http 409)
    admin_count ← gets Repo.count_admins
    Repo.create_user id now body.email (hash_password body.password) (first_role admin_count)

  unfoldable pub login : String → Credentials → Exec Db TokenOut
  login signing_key body = do
    found ← Repo.get_by_email body.email
    user ← or_raise found (http 401)
    stored_hash ← Repo.get_hashed_password user.id
    raise_if (not (verify_password body.password stored_hash)) (http 401)
    pure (record { user = user; access_token = create_access_token user.id signing_key })
