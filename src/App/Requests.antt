-- ===== src/App/Requests.antt =====
-- Around the requests of backend/app/main.py: the middleware, the handler of exceptions, and the audit log of
-- a start with fakes.
use document_classifier.Prelude.{
  ℕ, ◌-◌, ◌*◌, Option, none, some, List, [], ◌∷◌, ◌++◌, String, str_eq, take, drop, if◌then◌else◌,
}
use document_classifier.Exec.{ok, err, Exec}
use document_classifier.Contracts.{AuditLogEntry, Metadata}

pub record Response (Body : Type 0) : Type 0 where
  pub status_code : ℕ
  pub content : Body
  pub request_id : Option String

-- `RequestIDMiddleware.dispatch`, on the context of the logger; `fresh` is the id that uuid4 draws.
unfoldable pub request_id_of : Option String → String → String
request_id_of none fresh = fresh
request_id_of (some id) fresh = if str_eq id "" then fresh else id

unfoldable pub dispatch :
    {Body : Type 0}
    → Option String
    → String
    → Exec (Option String) (Response Body)
    → Exec (Option String) (Response Body)
unfolding request_id_of
dispatch header fresh call_next context =
    let request_id = request_id_of header fresh in
    let (r, context') = call_next (some request_id) in
    elim r [
      | err e ↦ (err e, context')
      | ok response ↦ (ok (record response { request_id = some request_id }), none)
    ]

-- `_unhandled_exception_handler`: the texts of the body.
unfoldable pub unhandled_exception_handler : Option String → Response (String × String)
unhandled_exception_handler header = record {
  status_code = 500;
  content = ("Internal Server Error", elim header [ none ↦ "unknown" | some id ↦ id ]);
  request_id = none;
}

-- `_FakeAuditRepo`, over the records of a FakeAuditService.
unfoldable pub fake_insert :
    String
    → ℕ
    → String
    → String
    → String
    → Option Metadata
    → Exec (List AuditLogEntry) AuditLogEntry
fake_insert id now actor_id action target metadata records =
    let entry : AuditLogEntry = record {
      id = id;
      actor_id = actor_id;
      actor_email = none;
      action = action;
      target = target;
      metadata = metadata;
      timestamp = now;
    } in
    (ok entry, records ++ entry ∷ [])

-- A page is at least 1: the router refuses others.
unfoldable pub fake_list : ℕ → ℕ → Exec (List AuditLogEntry) (List AuditLogEntry)
fake_list page limit records = (ok (take limit (drop ((page - 1) * limit) records)), records)
