-- ===== src/Oidc/Exchange.antt =====
-- internal/oidc/tokenexchange.go, and refreshWithAssertion of internal/oidc/refresh.go: the two
-- requests that go through postTokenRequest, from the form to the result.
pub mod Laws
use oidc_token_cli.Base.{
  ℕ, String, Bool, true, false, not, Option, none, some, List, [], ◌∷◌, ◌++◌, ◌==◌, is_empty,
  if◌then◌else◌, lookup, insert, Error, wrap, Result, ok, err, M, ◌>>=◌, map_err,
}
use oidc_token_cli.Base.Json.{Json}
use oidc_token_cli.Output.{TokenResult}
use oidc_token_cli.Oidc.{Provider, ClientAuth}
use oidc_token_cli.Oidc.Token.{OauthToken, to_result}
use oidc_token_cli.Oidc.Request.{
  Claims, Form, TokenRequest, Response, TokenResponse, set_value, post_token_request,
}

abbrev pub token_exchange_grant_type : String
token_exchange_grant_type = "urn:ietf:params:oauth:grant-type:token-exchange"

abbrev pub or_nil : Option (List String) → List String
or_nil none = []
or_nil (some values) = values

-- `form[key]`; the missing list is empty.
unfoldable pub values_of : String → Form → List String
unfolding lookup
values_of key form = or_nil (lookup key form)

-- `v.Add(key, value)`
unfoldable pub add_value : String → String → Form → Form
unfolding values_of insert
add_value key value form = insert key (values_of key form ++ value ∷ []) form

-- `for _, value := range values { v.Add(key, value) }`
unfoldable pub add_values : String → List String → Form → Form
unfolding add_value
add_values key [] form = form
add_values key (value ∷ values) form = add_values key values (add_value key value form)

-- `for k, vs := range extraFields { … }`
unfoldable pub add_fields : Form → Form → Form
unfolding add_values
add_fields [] form = form
add_fields ((key, values) ∷ extra) form = add_fields extra (add_values key values form)

-- `if value != "" { v.Set(key, value) }`
unfoldable pub set_nonempty : String → String → Form → Form
set_nonempty key value form = if not (is_empty value) then set_value key value form else form

-- The form of TokenExchange.
unfoldable pub exchange_form :
    String → String → String → String → String → List String → Form → Form
unfolding set_nonempty add_values add_fields
exchange_form audience scope subject_token subject_token_type requested_token_type resources extra =
    let base =
      ("grant_type", token_exchange_grant_type ∷ [])
      ∷ ("subject_token", subject_token ∷ [])
      ∷ ("subject_token_type", subject_token_type ∷ [])
      ∷ [] in
    add_fields extra (
      add_values "resource" resources (
        set_nonempty "requested_token_type" requested_token_type
          (set_nonempty "scope" scope (set_nonempty "audience" audience base))))

module _ {W K : Type 0} (random_state : M W String) (now : W → ℕ)
    (sign : ClientAuth K → Claims → Result String) (post : TokenRequest → M W Response)
    (decode : String → Result TokenResponse) (decode_map : String → List (String × Json))
    (verify : String → M W String) (p : Provider K) where
  -- `return p.toResult(ctx, tok, "")`
  abbrev resulting : OauthToken → M W TokenResult
  resulting tok w = let (res, v) = to_result verify tok "" w in (ok res, v)

  -- TokenExchange
  unfoldable pub token_exchange :
      String → String → String → String → List String → Form → M W TokenResult
  unfolding exchange_form post_token_request to_result
  token_exchange scope subject_token subject_token_type requested_token_type resources extra = do
    tok ← map_err (wrap "oidc: token exchange failed") (
        post_token_request random_state now sign post decode decode_map p p.token_url (
          exchange_form p.audience scope subject_token subject_token_type requested_token_type
            resources extra))
    resulting tok

  -- refreshWithAssertion; `cfg.Endpoint.TokenURL` is the token URL of the provider.
  unfoldable pub refresh_with_assertion : String → M W TokenResult
  unfolding post_token_request to_result
  refresh_with_assertion refresh_token = do
    tok ← map_err (wrap "oidc: refresh failed") (
        post_token_request random_state now sign post decode decode_map p p.token_url
          (("grant_type", "refresh_token" ∷ []) ∷ ("refresh_token", refresh_token ∷ []) ∷ []))
    resulting tok
