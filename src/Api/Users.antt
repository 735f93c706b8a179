-- ===== src/Api/Users.antt =====
-- backend/app/api/routers/users.py: the endpoints of the users, in the session of their request.
use document_classifier.Prelude.{List, [], ◌∷◌, String}
use document_classifier.Exec.{Exec, ◌>>=◌, ◌>>◌}
use document_classifier.Contracts.{Role, UserOut}
use document_classifier.Db.{User}
use document_classifier.Services.World.{CacheBackend, Codecs, World, on_db, in_session}
use document_classifier.Services.Audit.{Stamp}
use document_classifier.Services.Users as Service
use document_classifier.Api.Deps.{AppState, Decoder, get_current_user, require_role}

module _ (C : CacheBackend) (J : Codecs) (app : AppState) (decode : Decoder)
    (auth_header : String) where
  unfoldable pub get_me_endpoint : Exec (World C.Store) UserOut
  get_me_endpoint = in_session do
    current_user ← on_db (get_current_user app decode auth_header)
    Service.get_me C J current_user.id

  unfoldable pub list_users_endpoint : (List User → List User) → Exec (World C.Store) (List UserOut)
  list_users_endpoint by_email = in_session do
    on_db (require_role app decode auth_header ("invite_user" ∷ []))
    Service.list_users C J by_email

  unfoldable pub toggle_role_endpoint : Stamp → String → Role → Exec (World C.Store) UserOut
  unfolding in_session Service.toggle_role
  toggle_role_endpoint stamp uid new_role = in_session do
    current_user ← on_db (require_role app decode auth_header ("toggle_role" ∷ []))
    Service.toggle_role C J stamp current_user uid new_role

  unfoldable pub delete_user_endpoint : Stamp → String → Exec (World C.Store) (Unit {0})
  unfolding in_session Service.delete_user
  delete_user_endpoint stamp uid = in_session do
    current_user ← on_db (require_role app decode auth_header ("delete_user" ∷ []))
    Service.delete_user C J stamp current_user uid
