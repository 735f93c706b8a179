-- ===== src/Vault.antt =====
-- backend/app/infra/vault.py. The client of Vault is an argument: what a path holds, or the error it
-- raises.
use document_classifier.Prelude.{
  ◌≡◌, ◌⊎◌, inl, inr, Bool, true, false, Option, none, some, List, [], ◌∷◌, String, str_eq, arith,
  Bool-cases, Option-cases, if◌then◌else◌,
}
use document_classifier.Exec.{Error, Result, ok, err, vault_unreachable, Result-cases}

-- A value of a secret: a text, or something else.
pub data Value : Type 0 where
  text : String → Value
  other : Value

abbrev pub Secret : Type 0
Secret = List (String × Value)

-- `data.get(key)`
unfoldable pub value_of : String → Secret → Option Value
value_of key [] = none
value_of key ((k, v) ∷ rest) = if str_eq k key then some v else value_of key rest

-- `_require`
unfoldable pub require : Secret → String → Result String
unfolding value_of
require secret key = elim (value_of key secret) [
  | none ↦ err vault_unreachable
  | some v ↦ elim v [
    | other ↦ err vault_unreachable
    | text s ↦ if str_eq s "" then err vault_unreachable else ok s
  ]
]

-- `read_secret_version`: none stands for an answer without a dictionary. `of_client` tells the
-- exceptions of the client, `RequestException` and `VaultError`, from others.
module _ (read : String → Result (Option Secret)) (of_client : Error → Bool) where
  unfoldable pub read_secret : String → Result Secret
  read_secret path = elim (read path) [
    | err e ↦ if of_client e then err vault_unreachable else err e
    | ok answer ↦ elim answer [ none ↦ err vault_unreachable | some secret ↦ ok secret ]
  ]

  unfoldable pub read_required : String → String → Result String
  unfolding read_secret require
  read_required path key = elim (read_secret path) [
    | err e ↦ err e
    | ok secret ↦ require secret key
  ]

  unfoldable pub credentials : String → String → String → Result (String × String)
  unfolding read_secret require
  credentials path first second = elim (read_secret path) [
    | err e ↦ err e
    | ok secret ↦ elim (require secret first) [
      | err e ↦ err e
      | ok a ↦ elim (require secret second) [ ok b ↦ ok (a, b) | err e ↦ err e ]
    ]
  ]

  unfoldable pub get_jwt_signing_key : Result String
  unfolding read_required
  get_jwt_signing_key = read_required "jwt/signing_key" "key"

  unfoldable pub get_postgres_dsn : Result String
  unfolding read_required
  get_postgres_dsn = read_required "postgres/dsn" "dsn"

  unfoldable pub get_minio_credentials : Result (String × String)
  unfolding credentials
  get_minio_credentials = credentials "minio/credentials" "access_key" "secret_key"

  unfoldable pub get_sftp_credentials : Result (String × String)
  unfolding credentials
  get_sftp_credentials = credentials "sftp/credentials" "user" "password"

  -- What a pair of credentials was read from.
  abbrev pub AreRead : String → String → String → String × String → Type 0
  AreRead path first second (a, b) =
      (secret : Secret) × (read path ≡ ok (some secret))
      × (value_of first secret ≡ some (text a))
      × (value_of second secret ≡ some (text b))
      × (str_eq a "" ≡ false)
      × (str_eq b "" ≡ false)

  required :
      (secret : Secret) (key : String)
      → ((s : String) × (require secret key ≡ ok s)
          × (value_of key secret ≡ some (text s))
          × (str_eq s "" ≡ false))
        ⊎ (require secret key ≡ err vault_unreachable)
  unfolding require
  required secret key = elim (Option-cases (value_of key secret)) [
    | inl missing ↦ inr (ground arith)
    | inr (other, p) ↦ inr (ground arith)
    | inr (text s, p) ↦ elim (Bool-cases (str_eq s "")) [
      | inl empty ↦ inr (ground arith)
      | inr given ↦ inl (s, ground arith, p, given)
    ]
  ]

  credentials-read :
      (path first second : String)
      → ((e : Error) → read path ≡ err e → of_client e ≡ true)
      → ((pair : String × String) × (credentials path first second ≡ ok pair)
          × AreRead path first second pair)
        ⊎ (credentials path first second ≡ err vault_unreachable)
  unfolding credentials read_secret
  credentials-read path first second known = elim (Result-cases (read path)) [
    | inr (e, p) ↦ inr (ground (arith, known e p))
    | inl (none, p) ↦ inr (ground arith)
    | inl (some secret, p) ↦ elim (required secret first) [
      | inr missing ↦ inr (ground arith)
      | inl (a, q, found_a, given_a) ↦ elim (required secret second) [
        | inr missing ↦ inr (ground arith)
        | inl (b, r, found_b, given_b) ↦
            inl ((a, b), ground arith, (secret, p, found_a, found_b, given_a, given_b))
      ]
    ]
  ]

  -- Where the client raises no exceptions but its own, the credentials of the storage and of the SFTP
  -- server are two texts that are not empty, read under their keys, or the call raises
  -- VaultUnreachable.
  pub credentials_lem :
      ((path : String) (e : Error) → read path ≡ err e → of_client e ≡ true)
      → (((pair : String × String) × (get_minio_credentials ≡ ok pair)
            × AreRead "minio/credentials" "access_key" "secret_key" pair)
          ⊎ (get_minio_credentials ≡ err vault_unreachable))
        × (((pair : String × String) × (get_sftp_credentials ≡ ok pair)
              × AreRead "sftp/credentials" "user" "password" pair)
            ⊎ (get_sftp_credentials ≡ err vault_unreachable))
  unfolding get_minio_credentials get_sftp_credentials
  credentials_lem known = (
    credentials-read "minio/credentials" "access_key" "secret_key" (known "minio/credentials"),
    credentials-read "sftp/credentials" "user" "password" (known "sftp/credentials"),
  )
