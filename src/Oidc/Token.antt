-- ===== src/Oidc/Token.antt =====
-- internal/oidc/token.go: from a token response to a result. The id_token verifier of go-oidc is
-- the parameter `verify`, which gives the nonce of a token that it accepts; it may fetch keys.
pub mod Laws
use oidc_token_cli.Base.{
  ℕ, String, Bool, true, false, not, ◌&&◌, Option, none, some, List, [], ◌∷◌, ◌==◌, is_empty,
  if◌then◌else◌, is_nil, lookup, Error, message, wrap, Result, ok, err, M,
}
use oidc_token_cli.Base.Json.{Json, text, object, fields}
use oidc_token_cli.Output.{TokenResult}

-- The fields of *oauth2.Token that are read; `extra` is what `WithExtra` was given.
pub record OauthToken : Type 0 where
  pub access_token : String
  pub token_type : String
  pub refresh_token : String
  pub expiry : ℕ
  pub extra : List (String × Json)

-- `s, ok := tok.Extra(key).(string)`; the missing text is "".
abbrev pub as_text : Option Json → String
as_text (some (text s)) = s
as_text _ = ""

-- `ext, ok := tok.Extra(key).(map[string]any)`
abbrev pub as_map : Option Json → List (String × Json)
as_map (some (object m)) = fields m
as_map _ = []

-- The verdict on an id_token, as the `switch` gives it: the id_token or the error.
abbrev pub verdict : String → String → Result String → Result String
verdict raw expected_nonce (err e) = err (wrap "oidc: id_token verification failed" e)
verdict raw expected_nonce (ok nonce) =
    if not (is_empty expected_nonce) && not (nonce == expected_nonce)
    then err (message "oidc: id_token nonce mismatch (possible replay/substitution)")
    else ok raw

abbrev with_verdict : TokenResult → Result String → TokenResult
with_verdict res (ok raw) = record res { id_token = raw }
with_verdict res (err e) = record res { id_token_error = some e }

module _ {W : Type 0} (verify : String → M W String) where
  -- toResult never fails, so it has no error to return.
  unfoldable pub to_result : OauthToken → String → W → TokenResult × W
  unfolding lookup
  to_result tok expected_nonce w =
      let res : TokenResult = record {
        access_token = tok.access_token;
        id_token = "";
        refresh_token = tok.refresh_token;
        expiry = tok.expiry;
        id_token_error = none;
        issued_token_type = as_text (lookup "issued_token_type" tok.extra);
        extra = as_map (lookup "_extensions" tok.extra);
      } in
      let raw = as_text (lookup "id_token" tok.extra) in
      let (answer, v) = verify raw w in
      if is_empty raw then (res, w) else (with_verdict res (verdict raw expected_nonce answer), v)
