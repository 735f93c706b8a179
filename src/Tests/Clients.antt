-- ===== src/Tests/Clients.antt =====
-- Runs on the clients of other servers.
use document_classifier.Prelude.{
  none, suc, length, ◌≤◌, arith, ℕ, zero, ◌+◌, ◌≡◌, ◌⊎◌, Bool, true, Option, some, List, [], ◌∷◌,
  String, str_eq, refl, if◌then◌else◌,
}
use document_classifier.Exec.{Error, Result, ok, err, Exec, http, os_error, vault_unreachable}
use document_classifier.Api.Scan.{ScanTriggerResult, IsReport, trigger_scan, trigger_scan_lem}
use document_classifier.Services.World.{World}
use document_classifier.Services.Cache.{cache_get, cached_or}
use document_classifier.Services.Cache.Reading.{cached_or_lem}
use document_classifier.Tests.Data.{memory, world}
use document_classifier.Vault.{
  Secret, text, AreRead, get_minio_credentials, get_sftp_credentials, credentials_lem,
}

-- The server takes the first upload, and the connection is lost behind it.
abbrev upload_once : String → String → String → Exec ℕ (Unit {0})
upload_once local_path remote_dir remote_path zero = (ok tt, 1)
upload_once local_path remote_dir remote_path n = (err os_error, n)

abbrev golden : String → Bool
golden name = str_eq name "memo.tif"

abbrev chosen : List String
chosen = "memo.tif" ∷ "../memo.tif" ∷ "none.tif" ∷ []

-- The state of this server is the number of uploads that returned.
upload_once-returned :
    (path dir target : String) (s : ℕ)
    → (upload_once path dir target s).0 ≡ ok tt
    → (upload_once path dir target s).1 ≡ s + 1
upload_once-returned path dir target zero e = refl
upload_once-returned path dir target (suc n) e = absurd (ground arith)

upload_once-raised :
    (path dir target : String) (s : ℕ) (x : Error)
    → (upload_once path dir target s).0 ≡ err x
    → (upload_once path dir target s).1 ≡ s
upload_once-raised path dir target zero x e = absurd (ground arith)
upload_once-raised path dir target (suc n) x e = refl

trigger_scan_lem_example :
    ((r : ScanTriggerResult) × ((trigger_scan golden upload_once (λ n. "key") chosen 0).0 ≡ ok r)
      × IsReport golden upload_once
          (λ n. "key")
          (λ n. n)
          upload_once-returned
          upload_once-raised
          chosen
          0
          r
          (trigger_scan golden upload_once (λ n. "key") chosen 0).1
      × ((length chosen ≡ 0) ⊎ (1 ≤ length r.queued)))
    ⊎ (((trigger_scan golden upload_once (λ n. "key") chosen 0).0 ≡ err (http 502))
        × (1 ≤ length chosen)
        × ((trigger_scan golden upload_once (λ n. "key") chosen 0).1 ≡ 0))
trigger_scan_lem_example =
    trigger_scan_lem golden upload_once (λ n. "key") (λ n. n) upload_once-returned
      upload_once-raised chosen 0

-- The storage has its secret, and the SFTP server's cannot be reached.
abbrev secrets : String → Result (Option Secret)
secrets path =
    if str_eq path "minio/credentials"
    then ok (some (("access_key", text "key") ∷ ("secret_key", text "word") ∷ []))
    else err os_error

abbrev any_client : Error → Bool
any_client e = true

credentials_lem_example :
    (((pair : String × String) × (get_minio_credentials secrets any_client ≡ ok pair)
        × AreRead secrets any_client "minio/credentials" "access_key" "secret_key" pair)
      ⊎ (get_minio_credentials secrets any_client ≡ err vault_unreachable))
    × (((pair : String × String) × (get_sftp_credentials secrets any_client ≡ ok pair)
          × AreRead secrets any_client "sftp/credentials" "user" "password" pair)
        ⊎ (get_sftp_credentials secrets any_client ≡ err vault_unreachable))
credentials_lem_example = credentials_lem secrets any_client (λ path e p. refl)

abbrev loads : String → Result String
loads value = ok value

abbrev dumps : String → String
dumps value = value

abbrev computes : String → Exec (World memory.Store) String
computes value w = (ok value, w)

nothing_kept : (cache_get memory "key" world).0 ≡ none
unfolding cache_get
nothing_kept = refl

computed : (computes "first" (cache_get memory "key" world).1).0 ≡ ok "first"
computed = refl

cached_or_lem_example :
    ((cached_or memory "key" 60 loads dumps (computes "first") world).0 ≡ ok "first")
    × ((cached_or memory "key" 60 loads dumps
          (computes "second")
          (cached_or memory "key" 60 loads dumps (computes "first") world).1).0
        ≡ ok "first")
    × ((cached_or memory "key" 60 loads dumps
          (computes "second")
          (cached_or memory "key" 60 loads dumps (computes "first") world).1).1.db
        ≡ (cached_or memory "key" 60 loads dumps (computes "first") world).1.db)
cached_or_lem_example =
    cached_or_lem memory "key" 60 loads dumps (computes "first") (computes "second") world "first"
      nothing_kept computed refl refl (λ s. refl)
