-- ===== src/Output.antt =====
-- internal/output/output.go: what a run produced, and its three renderings.
-- A writer is a function `write : String → M W Unit` over its state `W`. `json.Marshal` and the
-- RFC 3339 layout of a time are parameters. Times are nanoseconds since Go's zero time.
pub mod Laws
use oidc_token_cli.Base.{
  ℕ, String, ◌<>◌, Bool, true, false, not, Option, none, some, List, [], ◌∷◌, ◌==◌, is_empty,
  nat_eq, if◌then◌else◌, insert, Error, message, Result, ok, err, M, fail, is_nil,
}
use oidc_token_cli.Base.Json.{Json, text, object, members}

-- Result
pub record TokenResult : Type 0 where
  pub access_token : String
  pub id_token : String
  pub refresh_token : String
  pub expiry : ℕ
  -- nil, or why the issuer's id_token was not accepted
  pub id_token_error : Option Error
  pub issued_token_type : String
  pub extra : List (String × Json)

-- `output.Result{}`
abbrev pub no_result : TokenResult
no_result = record {
  access_token = "";
  id_token = "";
  refresh_token = "";
  expiry = 0;
  id_token_error = none;
  issued_token_type = "";
  extra = [];
}

-- TokenType is a string type: any text can stand there.
abbrev pub token_type_access_token : String
token_type_access_token = "access_token"

abbrev pub token_type_id_token : String
token_type_id_token = "id_token"

abbrev pub default_exec_credential_api_version : String
default_exec_credential_api_version = "client.authentication.k8s.io/v1"

-- `time.Time.IsZero`
abbrev pub is_zero : ℕ → Bool
is_zero t = nat_eq t 0

unfoldable pub select : TokenResult → String → String × Bool
select r tt =
    if tt == token_type_id_token
    then (r.id_token, not (is_empty r.id_token))
    else if tt == token_type_access_token
    then (r.access_token, not (is_empty r.access_token))
    else ("", false)

abbrev pub no_token : String → Error
no_token tt = message ("output: no " <> tt <> " available")

-- `doc[k] = v`, made only if a test holds.
abbrev insert_if : Bool → String → Json → List (String × Json) → List (String × Json)
insert_if test k v doc = if test then insert k v doc else doc

-- `for k, v := range r.Extra { doc[k] = v }`
unfoldable pub insert_all : List (String × Json) → List (String × Json) → List (String × Json)
insert_all [] doc = doc
insert_all ((k, v) ∷ m) doc = insert_all m (insert k v doc)

module _ (format : ℕ → String) where
  -- The fields of the document that `WriteAll` sets itself.
  unfoldable pub credential_fields : TokenResult → List (String × Json)
  credential_fields r =
      insert_if (not (is_empty r.issued_token_type)) "issued_token_type" (text r.issued_token_type)
        (insert_if (not (is_zero r.expiry)) "expiry" (text (format r.expiry)) (
          insert_if (not (is_empty r.refresh_token)) "refresh_token" (text r.refresh_token) (
            insert_if (not (is_empty r.id_token)) "id_token" (text r.id_token)
              (insert_if (not (is_empty r.access_token)) "access_token" (text r.access_token) []))))

  unfoldable pub document : TokenResult → List (String × Json)
  document r = insert_all r.extra (credential_fields r)

  unfoldable pub exec_document : TokenResult → String → String → List (String × Json)
  exec_document r token api_version =
      let status =
        insert_if (not (is_zero r.expiry)) "expirationTimestamp" (text (format r.expiry))
          (insert "token" (text token) []) in
      insert "status" (object (members status))
        (insert "kind" (text "ExecCredential") (insert "apiVersion" (text api_version) []))

module _ {W : Type 0} (write : String → M W (Unit {0})) where
  unfoldable pub write_bare : TokenResult → String → M W (Unit {0})
  write_bare r tt w =
      let (token, found) = select r tt in if found then write token w else fail (no_token tt) w

module _ {W : Type 0} (write : String → M W (Unit {0}))
    (marshal : List (String × Json) → Result String) (format : ℕ → String) where
  -- `b, err := json.Marshal(doc)`, then one write.
  unfoldable pub write_document : List (String × Json) → M W (Unit {0})
  write_document doc w = elim (marshal doc) [ ok b ↦ write b w | err e ↦ (err e, w) ]

  unfoldable pub write_all : TokenResult → M W (Unit {0})
  write_all r = write_document (document format r)

  unfoldable pub write_exec_credential : TokenResult → String → String → M W (Unit {0})
  write_exec_credential r tt api_version w =
      let (token, found) = select r tt in
      let version =
        if is_empty api_version then default_exec_credential_api_version else api_version in
      if found
      then write_document (exec_document format r token version) w
      else fail (no_token tt) w

-- ExecCredentialAPIVersion; `parse` decodes `{"apiVersion": …}`, `getenv` may be nil.
unfoldable pub exec_credential_api_version :
    (String → Result String) → Option (String → String) → String
exec_credential_api_version parse none = default_exec_credential_api_version
exec_credential_api_version parse (some getenv) =
    let raw = getenv "KUBERNETES_EXEC_INFO" in
    if is_empty raw then default_exec_credential_api_version else elim (parse raw) [
      | ok version ↦ if is_empty version then default_exec_credential_api_version else version
      | err e ↦ default_exec_credential_api_version
    ]
