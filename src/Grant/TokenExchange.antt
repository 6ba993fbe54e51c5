-- ===== src/Grant/TokenExchange.antt =====
-- internal/grant/tokenexchange/tokenexchange.go: the token-exchange grant.
pub mod Laws
use oidc_token_cli.Base.{
  String, Bool, true, false, not, ◌&&◌, ◌||◌, Option, none, some, List, [], ◌∷◌, ◌==◌, is_empty,
  is_nil, if◌then◌else◌, trim_newlines, Error, message, wrap, Result, ok, err, M,
}
use oidc_token_cli.Base.Json.{ℤ, pos}
use oidc_token_cli.Grant.{ConfigBridge}
use oidc_token_cli.Subjecttoken.{TokenOrigin, find_source}

-- TokenExchange. `subject_token_file` is the value of the flag of that name.
pub record TokenExchange (W : Type 0) : Type 0 where
  pub subject_token : String
  pub subject_token_type : String
  pub requested_token_type : String
  pub resources : List String
  pub subject_token_source : String
  pub audience : String
  pub subject_token_file : String
  pub sources : List (TokenOrigin W)

abbrev pub default_subject_token_type : String
default_subject_token_type = "urn:ietf:params:oauth:token-type:access_token"

module _ {W : Type 0} where
  abbrev source_type : Option (TokenOrigin W) → String
  source_type none = default_subject_token_type
  source_type (some src) = src.default_token_type

  -- The second half of Finalize.
  unfoldable pub default_type : TokenExchange W → TokenExchange W
  default_type g =
      if is_empty g.subject_token_type
      then record g {
        subject_token_type = source_type (find_source g.sources g.subject_token_source);
      }
      else g

  abbrev with_file : TokenExchange W → Result String → Result (TokenExchange W)
  with_file g (err e) = err (wrap "config: read --subject-token-file" e)
  with_file g (ok tok) = ok (default_type (record g { subject_token = trim_newlines tok }))

  -- Finalize; `read_file` is os.ReadFile.
  unfoldable pub finalize :
      (String → Result String) → (String → Bool) → TokenExchange W → Result (TokenExchange W)
  unfolding default_type
  finalize read_file explicit g =
      if explicit "subject-token-file"
      then with_file g (read_file g.subject_token_file)
      else ok (default_type g)

  abbrev is_none : Option (TokenOrigin W) → Bool
  is_none none = true
  is_none (some src) = false

  unfoldable pub validate : TokenExchange W → Result (Unit {0})
  validate g =
      if not (is_empty g.subject_token_source)
        && is_none (find_source g.sources g.subject_token_source)
      then err (message "config: invalid --subject-token-source")
      else if not (is_empty g.subject_token_source) && not (is_empty g.subject_token)
      then err (message "config: --subject-token-source is mutually exclusive with --subject-token")
      else if is_empty g.subject_token_source && is_empty g.subject_token
      then err (message "config: --grant-type=token-exchange requires --subject-token")
      else if is_empty g.subject_token_type
      then err (message "config: --subject-token-type must not be empty")
      else ok tt

  unfoldable pub validate_not_selected : TokenExchange W → Result (Unit {0})
  validate_not_selected g =
      if not (is_empty g.subject_token)
        || not (is_empty g.requested_token_type)
        || not (is_nil g.resources)
        || not (is_empty g.subject_token_source)
      then err (message "config: --subject-token requires --grant-type=token-exchange")
      else ok tt

  unfoldable pub bridge : TokenExchange W → ConfigBridge
  bridge g = record {
    subject_token = g.subject_token;
    subject_token_type = g.subject_token_type;
    requested_token_type = g.requested_token_type;
    resources = g.resources;
    subject_token_source = g.subject_token_source;
    redirect_port = pos 0;
  }

  unfoldable pub resolve_subject_token : TokenExchange W → M W String
  resolve_subject_token g w =
      if is_empty g.subject_token_source
      then (ok g.subject_token, w)
      else elim (find_source g.sources g.subject_token_source) [
        | none ↦ (err (message "config: unsupported --subject-token-source"), w)
        | some src ↦ src.fetch g.audience w
      ]
