-- ===== src/Ingest/Start.antt =====
-- backend/sftp_ingest/main.py: the clients of the ingest worker, of what Vault has. Their constructors are
-- arguments.
use document_classifier.Prelude.{ℕ, Bool, Option, String}
use document_classifier.Exec.{Error, Result, ok, Exec, ◌>>=◌, lift}
use document_classifier.Vault.{
  Secret, get_postgres_dsn, get_minio_credentials, get_sftp_credentials,
}

module _ {Sftp Blob Queue Sessions S : Type 0} (vault : String → Result (Option Secret))
    (of_client : Error → Bool) (sftp_client : String × String → Result Sftp)
    (minio_blob : String × String → Result Blob) (rq_queue : Result Queue)
    (sessions : String → Result Sessions) where
  unfoldable pub build_worker : Exec S (Sftp × Blob × Queue × Sessions)
  build_worker = do
    postgres_dsn ← lift (get_postgres_dsn vault of_client)
    minio_keys ← lift (get_minio_credentials vault of_client)
    sftp_keys ← lift (get_sftp_credentials vault of_client)
    sftp ← lift (sftp_client sftp_keys)
    blob ← lift (minio_blob minio_keys)
    queue ← lift rq_queue
    session_factory ← lift (sessions postgres_dsn)
    lift (ok (sftp, blob, queue, session_factory))

  -- `main`, with the loop of the processor.
  unfoldable pub main :
      (Sftp → Blob → Queue → Sessions → ℕ → Exec S (Unit {0})) → ℕ → Exec S (Unit {0})
  main run_forever max_bytes = do
    clients ← build_worker
    run_forever clients.0 clients.1 clients.2 clients.3 max_bytes
