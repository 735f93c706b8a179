-- ===== src/Lib.antt =====
-- A document classification service: TIFF files arrive on an SFTP server, an ingest worker stores them
-- and queues a job for each, a classification worker predicts the class of the document and draws an
-- overlay, and an HTTP API shows the predictions to users of three roles, who relabel, comment and
-- rename them. This library models the Python code below backend/.
--
-- The parts, and the files that model them:
-- - Contracts.antt: backend/app/domain/contracts.py, the enumerations and the models.
-- - Uuid.antt: `uuid.UUID(text)` and `str(uuid)`, which backend/app/repositories/_mapping.py uses.
-- - Prelude.antt, Lists.antt and Exec.antt: what the other files share.
-- - Db.antt and Db/: backend/app/db/models.py. A table is the list of its rows; an INSERT or an UPDATE
--   tests the columns' lengths, the check constraints, the keys and the foreign keys.
-- - Repositories.antt and Repositories/: backend/app/repositories, a function for each method.
-- - Services.antt and Services/: backend/app/services. A function on the tables (`toggle_role_db`) is the
--   part of a method (`toggle_role`) before its calls of the cache. Services/World.antt is the session of
--   a request, `get_session` of backend/app/api/deps.py.
-- - Ingest.antt and Ingest/: backend/sftp_ingest, with the calls of backend/app/infra/sftp.py, blob.py
--   and queue.py, on a list of the files below `incoming`. Sftp.antt and Sftp/ are how sftp.py finds,
--   fetches and moves these files in the directories of a server.
-- - Blob.antt: backend/app/infra/worker_blob.py and the keys of the overlays.
-- - Worker.antt and Worker/: backend/worker/handler.py, with the session of
--   backend/app/infra/worker_prediction_service.py. Worker/Boot.antt is backend/worker/__main__.py up to the
--   loop of RQ, and Worker/Payload.antt is how backend/app/infra/queue.py writes a job.
-- - Classifier.antt and Classifier/: startup_checks.py, predictor.py and eval/golden.py of
--   backend/app/classifier.
-- - Migrations.antt and Migrations/: the revisions of backend/alembic, as changes of a catalogue of tables,
--   indexes, seeded rules and logged texts. An operation of alembic stands for the statement that it writes,
--   and fails where PostgreSQL refuses that; all revisions of one command are one transaction.
-- - Api.antt and Api/: backend/app/api/deps.py, the policy of backend/app/infra/casbin, and the routers
--   auth.py, users.py, batches.py, predictions.py, audit.py and scan.py of backend/app/api/routers.
-- - Vault.antt: backend/app/infra/vault.py.
-- - App.antt and App/: backend/app/main.py, with backend/app/infra/cache.py.
-- - Scripts.antt and Scripts/: backend/scripts/benchmark_latency.py.
-- - Tests.antt and Tests/: runs of the theorems at concrete inputs.
--
-- How the code is read: a method is a function from a state to a result and a state (Exec.antt); an
-- exception is a value of `Error`, and what was written before it stays in the state, until the session
-- around the call commits or rolls back. `retry` of tenacity is Exec/Retry.antt: `stop_after_attempt(3)`
-- is two attempts more. A call of a server takes the first fault of a schedule: it works, or it raises
-- before its work, or it raises though its work was done; so every failure of a server is an argument of
-- the theorems. `while True` of the ingest worker is a number of rounds, and the theorem holds for every
-- number; the walk through directories and the collection of latencies run on fuel, and their theorems say
-- how much is enough; nothing else runs on fuel. Confidences are rounded to ten decimals by the code, so
-- they are numbers of 10^-10; keys are numbers below 2^128; times are only stored and carried.
--
-- Arguments: what PIL, PyJWT, the policy engine, JSON, the password hash, the file hash, the cache backend
-- and the client of Vault do, since their code is not in the repository; the network of the predictor and
-- the drawing of the overlay, which are calls of torch and PIL; the keys that uuid4 draws, the database's
-- clock, the order that it returns rows in, and whether redis and the worker of RQ can be opened.
--
-- Not modelled: settings and the registration of routes (backend/app/config.py, main.py), demos and
-- reports of backend/scripts, logging, sleeping, the heartbeat, the
-- SFTP connections, and the frontend.
pub mod Prelude
pub mod Lists
pub mod Exec
pub mod Uuid
pub mod Contracts
pub mod Db
pub mod Repositories
pub mod Services
pub mod Ingest
pub mod Sftp
pub mod Api
pub mod Blob
pub mod Classifier
pub mod Worker
pub mod Vault
pub mod Migrations
pub mod App
pub mod Scripts
pub mod Tests
