-- ===== src/Services/Users.antt =====
-- backend/app/services/user_service.py
pub mod Admins
pub mod Deletion
pub mod Bypass
use Prim.Native.String.{◌++◌}
use document_classifier.Prelude.{
  ℕ, Bool, true, false, not, ◌&&◌, Option, none, some, List, [], ◌∷◌, String, ◌==◌, str_eq,
  if◌then◌else◌,
}
use document_classifier.Exec.{
  Result, ok, err, Exec, pure, raise, lift, gets, raise_if, ◌>>=◌, ◌>>◌, http,
}
use document_classifier.Contracts.{Role, UserOut, is_admin, role_value}
use document_classifier.Db.{User, Db}
use document_classifier.Repositories.Users as Repo
use document_classifier.Services.World.{CacheBackend, Codecs, World, on_db}
use document_classifier.Services.Cache.{cache_clear, cached_or}
use document_classifier.Services.Audit.{Stamp, record_entry}

unfoldable pub user_cache_key : String → String
user_cache_key user_id = "user:" ++ user_id

-- The test of `toggle_role`: the only admin is about to demote themselves.
unfoldable pub demotes_last_admin : UserOut → String → Role → Db → Bool
demotes_last_admin actor target_uid new_role db =
    str_eq actor.id target_uid
    && is_admin actor.role
    && not (is_admin new_role)
    && Repo.count_admins db == 1

-- The part of `toggle_role` on the tables: the change and its entry, and the guard before them.
unfoldable pub change_role : Stamp → UserOut → String → Role → UserOut → Exec Db UserOut
change_role stamp actor target_uid new_role target = do
  updated ← Repo.update_role target_uid new_role
  record_entry stamp (some actor.id) "role_change" target_uid
      (some (("from", some (role_value target.role)) ∷ ("to", some (role_value new_role)) ∷ []))
  pure updated

unfoldable pub toggle_role_db : Stamp → UserOut → String → Role → Exec Db UserOut
unfolding demotes_last_admin change_role
toggle_role_db stamp actor target_uid new_role = do
  target ← Repo.get target_uid
  last ← gets (demotes_last_admin actor target_uid new_role)
  raise_if last (http 409)
  change_role stamp actor target_uid new_role target

-- The second guard of `delete_user`, where the actor is the only admin.
unfoldable pub refuse_admin : String → Exec Db (Unit {0})
refuse_admin target_uid = do
  target ← Repo.get target_uid
  raise_if (is_admin target.role) (http 409)

unfoldable pub guard_last_admin : UserOut → String → Exec Db (Unit {0})
unfolding refuse_admin
guard_last_admin actor target_uid db =
    if is_admin actor.role && Repo.count_admins db == 1
    then refuse_admin target_uid db
    else (ok tt, db)

unfoldable pub delete_user_db : Stamp → UserOut → String → Exec Db (Unit {0})
unfolding guard_last_admin
delete_user_db stamp actor target_uid = do
  raise_if (str_eq actor.id target_uid) (http 409)
  guard_last_admin actor target_uid
  Repo.delete target_uid
  record_entry stamp (some actor.id) "delete_user" target_uid none
  pure tt

module _ (C : CacheBackend) (J : Codecs) where
  unfoldable pub get_me : String → Exec (World C.Store) UserOut
  unfolding cached_or user_cache_key
  get_me user_id =
      cached_or C (user_cache_key user_id) 60 J.user.load J.user.dump (on_db (Repo.get user_id))

  unfoldable pub list_users : (List User → List User) → Exec (World C.Store) (List UserOut)
  list_users by_email = on_db (Repo.list_users by_email)

  unfoldable pub toggle_role : Stamp → UserOut → String → Role → Exec (World C.Store) UserOut
  unfolding toggle_role_db cache_clear user_cache_key
  toggle_role stamp actor target_uid new_role = do
    updated ← on_db (toggle_role_db stamp actor target_uid new_role)
    cache_clear C (user_cache_key target_uid)
    pure updated

  unfoldable pub delete_user : Stamp → UserOut → String → Exec (World C.Store) (Unit {0})
  unfolding delete_user_db cache_clear user_cache_key
  delete_user stamp actor target_uid = do
    on_db (delete_user_db stamp actor target_uid)
    cache_clear C (user_cache_key target_uid)
