-- ===== src/Tests/Users.antt =====
-- Runs on the users: roles, deletions, and the guards before them.
use document_classifier.Prelude.{◌≤◌, ◌≡◌, ◌≢◌, refl, true, arith, eq_iff}
use document_classifier.Exec.{ok, is_ok}
use document_classifier.Uuid.{parse_uuid, uuid_to_str}
use document_classifier.Uuid.RoundTrip.{parse_uuid-uuid_to_str}
use document_classifier.Contracts.{Role, reviewer, admin}
use document_classifier.Db.{user_fits, count_where}
use document_classifier.Repositories.Users.{count_admins}
use document_classifier.Services.Users.{toggle_role_db, delete_user_db}
use document_classifier.Services.Users.Deletion.{delete_user_keeps_an_admin}
use document_classifier.Services.Users.Bypass.{toggle_role_bypass}
use document_classifier.Tests.Data.{
  db, stamp, admin_out, admin_key, admin_capitals, admin_text, reviewer_text, db-HasUserKeys,
  admin_actor,
}

delete_user_keeps_an_admin_example :
    1 ≤ count_admins (delete_user_db stamp admin_out reviewer_text db).1
delete_user_keeps_an_admin_example =
    delete_user_keeps_an_admin stamp admin_out reviewer_text db db-HasUserKeys admin_actor

capitals_parsed : parse_uuid admin_capitals ≡ ok admin_key
unfolding parse_uuid
capitals_parsed = refl

capitals_differ : admin_capitals ≢ admin_text
capitals_differ e = let k = (eq_iff admin_capitals admin_text).1 e in ground arith

toggle_role_bypass_example :
    (is_ok (toggle_role_db stamp admin_out admin_capitals reviewer db).0 ≡ true)
    × (count_admins (toggle_role_db stamp admin_out admin_capitals reviewer db).1 ≡ 0)
unfolding count_admins user_fits admin_actor count_where document_classifier.Contracts.role_value
    document_classifier.Db.find?
toggle_role_bypass_example =
    toggle_role_bypass stamp admin_out admin_capitals reviewer db admin_actor db-HasUserKeys
      capitals_parsed capitals_differ refl refl refl (omega arith) (omega arith) refl

parse_uuid-uuid_to_str_example : parse_uuid (uuid_to_str admin_key) ≡ ok admin_key
parse_uuid-uuid_to_str_example = parse_uuid-uuid_to_str admin_key (omega arith)
