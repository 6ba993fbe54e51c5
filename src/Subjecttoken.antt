-- ===== src/Subjecttoken.antt =====
-- internal/subjecttoken: where the token of a token exchange comes from in a CI job.
-- `url.Parse`, the query encoding, the HTTP client and the JSON decoder are parameters.
pub mod Laws
use oidc_token_cli.Base.{
  ℕ, String, ◌<>◌, not, ◌||◌, Option, none, some, List, [], ◌∷◌, ◌==◌, is_empty, nat_eq,
  if◌then◌else◌, map, message, wrap, Result, ok, err, M, ◌>>=◌, map_err,
}

-- Source
pub record TokenOrigin (W : Type 0) : Type 0 where
  pub name : String
  pub default_token_type : String
  pub fetch : String → M W String

module _ {W : Type 0} where
  unfoldable pub find_source : List (TokenOrigin W) → String → Option (TokenOrigin W)
  find_source [] name = none
  find_source (s ∷ sources) name =
      let rest = find_source sources name in if s.name == name then some s else rest

  unfoldable pub source_names : List (TokenOrigin W) → List String
  source_names sources = map (λ s. s.name) sources

-- DefaultTokenTypeGitHubActions
abbrev pub default_token_type_github_actions : String
default_token_type_github_actions = "urn:ietf:params:oauth:token-type:id_token"

-- The status code, and what reading the first megabyte of the body gives.
pub record HttpAnswer : Type 0 where
  pub status : ℕ
  pub body : Result String

-- `with_audience` sets the audience in the query of a parsed URL; `get` sends a GET request to a URL
-- with an Authorization header; `decode` reads the `value` field of the response.
module _ {W U : Type 0} (getenv : String → String) (parse : String → Result U)
    (with_audience : String → U → U) (get : U → String → M W HttpAnswer)
    (decode : String → Result String) where
  abbrev read_value : String → Result String
  read_value body = elim (decode body) [
    | err e ↦ err (wrap "subjecttoken: parse github-actions token response" e)
    | ok value ↦
        if is_empty value
        then err (message "subjecttoken: github-actions token response has empty \"value\"")
        else ok value
  ]

  abbrev read_answer : HttpAnswer → Result String
  read_answer answer = elim answer.body [
    | err e ↦ err (wrap "subjecttoken: read github-actions token response" e)
    | ok body ↦
        if not (nat_eq answer.status 200)
        then err (message "subjecttoken: github-actions token endpoint returned an error status")
        else read_value body
  ]

  abbrev ask : String → U → M W String
  ask token url = do
    answer ←
        map_err (wrap "subjecttoken: fetch github-actions token") (get url ("bearer " <> token))
    λ w. (read_answer answer, w)

  -- FetchGitHubActions
  unfoldable pub fetch_github_actions : String → M W String
  fetch_github_actions audience w =
      let req_url = getenv "ACTIONS_ID_TOKEN_REQUEST_URL" in
      let req_token = getenv "ACTIONS_ID_TOKEN_REQUEST_TOKEN" in
      if is_empty req_url || is_empty req_token
      then (
        err (message "subjecttoken: --subject-token-source=github-actions requires its variables"),
        w,
      )
      else elim (parse req_url) [
        | err e ↦ (err (wrap "subjecttoken: parse $ACTIONS_ID_TOKEN_REQUEST_URL" e), w)
        | ok u ↦ ask req_token (if is_empty audience then u else with_audience audience u) w
      ]

  -- GitHubActions
  abbrev pub github_actions : TokenOrigin W
  github_actions = record {
    name = "github-actions";
    default_token_type = default_token_type_github_actions;
    fetch = fetch_github_actions;
  }
