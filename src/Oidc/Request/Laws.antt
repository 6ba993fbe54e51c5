-- ===== src/Oidc/Request/Laws.antt =====
-- What the token request of internal/oidc/refresh.go carries, and what its response can bring in.
use oidc_token_cli.Base.{
  ℕ, String, ◌+◌, ◌*◌, ◌≤◌, ◌<◌, ◌≡◌, ◌≢◌, refl, ap, true, none, List, [], ◌∷◌, eq_iff,
  if◌then◌else◌, contains, lookup, erase, lookup-erase, Listed, contains_iff, Result, ok, err, M,
  arith,
}
use oidc_token_cli.Base.Json.{Json, members, fields}
use oidc_token_cli.Output.{document}
use oidc_token_cli.Output.Laws.{lookup-document, expected}
use oidc_token_cli.Oidc.Token.{OauthToken, to_result, as_map}
use oidc_token_cli.Oidc.Request.{
  Response, TokenResponse, reserved, delete_all, expiry_after, is_success, response_token,
  accept_response, read_body, read_response,
}

-- A lifetime of at most 9223372036 seconds gives that expiry.
pub expiry_after-exact : (n now : ℕ) → n ≤ 9223372036 → expiry_after n now ≡ now + n * 1000000000
unfolding expiry_after
expiry_after-exact n now h = ground arith

-- A longer lifetime, up to 18446744073 seconds, overflows: the expiry lies before the present,
-- which is not the zero time.
pub expiry_after_overflow :
    (n now : ℕ) → 9223372036 < n → n ≤ 18446744073 → 0 < now → expiry_after n now < now
unfolding expiry_after
expiry_after_overflow n now low high h = ground arith

lookup-delete_all :
    (k : String) (ks : List String) (raw : List (String × Json))
    → lookup k (delete_all ks raw) ≡ (if contains ks k then none else lookup k raw)
unfolding delete_all
lookup-delete_all k [] raw = refl
lookup-delete_all k (j ∷ ks) raw =
    ground (arith, lookup-delete_all k ks (erase j raw), lookup-erase k j raw)

fields-members : (m : List (String × Json)) → fields (members m) ≡ m
fields-members [] = refl
fields-members ((k, v) ∷ m) = ap (λ l. (k, v) ∷ l) (fields-members m)

extensions_back :
    (tr : TokenResponse) (ext : List (String × Json)) (now : ℕ)
    → as_map (lookup "_extensions" (response_token tr ext now).extra) ≡ ext
unfolding response_token lookup
extensions_back tr [] now = refl
extensions_back tr (x ∷ ext) now = fields-members (x ∷ ext)

module _ {W V : Type 0} (now : W → ℕ) (decode : String → Result TokenResponse)
    (decode_map : String → List (String × Json)) (verify : String → M V String) where
  -- A token is read only from a response with a status from 200 to 299 and no error field, and it
  -- has an access token.
  accept_response-ok :
      (tr : TokenResponse) (raw : List (String × Json)) (status : ℕ) (w v : W) (tok : OauthToken)
      → accept_response now decode decode_map tr raw status w ≡ (ok tok, v)
      → (is_success status ≡ true)
        × (tr.error ≡ "")
        × (tr.access_token ≢ "")
        × (tok ≡ response_token tr (delete_all reserved raw) (now w))
  unfolding accept_response
  accept_response-ok tr raw status w v tok h = (
    ground (arith, eq_iff tr.error "", eq_iff tr.access_token ""),
    ground (arith, eq_iff tr.error "", eq_iff tr.access_token ""),
    ground (arith, eq_iff tr.error "", eq_iff tr.access_token ""),
    ground (arith, eq_iff tr.error "", eq_iff tr.access_token ""),
  )

  read_body-ok :
      (status : ℕ) (body : String) (w v : W) (tok : OauthToken)
      → read_body now decode decode_map status body w ≡ (ok tok, v)
      → (tr : TokenResponse) × (decode body ≡ ok tr)
        × (accept_response now decode decode_map tr (decode_map body) status w ≡ (ok tok, v))
  unfolding read_body
  read_body-ok status body w v tok h = go (decode body) refl
    where
      go :
          (x : Result TokenResponse)
          → decode body ≡ x
          → (tr : TokenResponse) × (decode body ≡ ok tr)
            × (accept_response now decode decode_map tr (decode_map body) status w ≡ (ok tok, v))
      go (ok tr) decoded = (tr, decoded, ground arith)
      go (err e) decoded = absurd (ground arith)

  -- What a token endpoint must have answered for a token to be read from it.
  abbrev pub IsGranted : Response → String → TokenResponse → Type 0
  IsGranted resp body tr =
      (resp.body ≡ ok body)
      × (decode body ≡ ok tr)
      × (is_success resp.status ≡ true)
      × (tr.error ≡ "")
      × (tr.access_token ≢ "")

  -- A token is read only from a response whose status is from 200 to 299, whose body decodes, and
  -- which has an access token and no error; it is then the token of that response, whose extension
  -- fields are the fields with no reserved name.
  pub read_response-ok :
      (resp : Response) (w v : W) (tok : OauthToken)
      → read_response now decode decode_map resp w ≡ (ok tok, v)
      → (body : String) × (tr : TokenResponse) × IsGranted resp body tr
        × (tok ≡ response_token tr (delete_all reserved (decode_map body)) (now w))
  unfolding read_response
  read_response-ok resp w v tok h = go resp.body refl
    where
      go :
          (x : Result String)
          → resp.body ≡ x
          → (body : String) × (tr : TokenResponse) × IsGranted resp body tr
            × (tok ≡ response_token tr (delete_all reserved (decode_map body)) (now w))
      go (err e) read = absurd (ground arith)
      go (ok body) read =
          let (tr, decoded, accepted) = read_body-ok resp.status body w v tok (ground arith) in
          let (success, no_error, has_token, same) =
            accept_response-ok tr (decode_map body) resp.status w v tok accepted in
          (body, tr, (read, decoded, success, no_error, has_token), same)

  to_result-extra :
      (tr : TokenResponse) (ext : List (String × Json)) (t : ℕ) (nonce : String) (u : V)
      → (to_result verify (response_token tr ext t) nonce u).0.extra ≡ ext
  unfolding to_result
  to_result-extra tr ext t nonce u = ground (arith, extensions_back tr ext t)

  -- No extension field of a result bears the name of a field of the token response itself.
  pub read_response-extra :
      (resp : Response) (w v : W) (tok : OauthToken) (nonce : String) (u : V) (k : String)
      → read_response now decode decode_map resp w ≡ (ok tok, v)
      → Listed k reserved
      → lookup k (to_result verify tok nonce u).0.extra ≡ none
  read_response-extra resp w v tok nonce u k h listed =
      let (body, tr, _, same) = read_response-ok resp w v tok h in
      let ext = delete_all reserved (decode_map body) in
      rw
        (
          same,
          to_result-extra tr ext (now w) nonce u,
          lookup-delete_all k reserved (decode_map body),
        )
        (rw ((contains_iff reserved k).1 listed) refl)

  -- For a token response that postTokenRequest reads, the document that is printed shows, under each
  -- name of a field of the token response itself, the credential of the result: no extension field
  -- replaces it.
  pub read_response-document :
      (format : ℕ → String) (resp : Response) (w v : W) (tok : OauthToken) (nonce : String) (u : V)
      (k : String)
      → read_response now decode decode_map resp w ≡ (ok tok, v)
      → Listed k reserved
      → lookup k (document format (to_result verify tok nonce u).0)
        ≡ expected format (to_result verify tok nonce u).0 k
  read_response-document format resp w v tok nonce u k h listed =
      lookup-document format _ k (read_response-extra resp w v tok nonce u k h listed)
