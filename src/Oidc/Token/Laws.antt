-- ===== src/Oidc/Token/Laws.antt =====
-- Which id_tokens internal/oidc/token.go lets into a result.
use oidc_token_cli.Base.{
  String, ◌≡◌, ◌≢◌, refl, ◌⊎◌, none, eq_iff, lookup, Result, ok, err, M, arith,
}
use oidc_token_cli.Output.{TokenResult}
use oidc_token_cli.Oidc.Token.{OauthToken, to_result, as_text}

-- The id_token of the response, "" if it has none.
abbrev pub raw_id_token : OauthToken → String
raw_id_token tok = as_text (lookup "id_token" tok.extra)

module _ {W : Type 0} (verify : String → M W String) (tok : OauthToken) (expected_nonce : String)
    (w : W) where
  abbrev pub result : TokenResult
  result = (to_result verify tok expected_nonce w).0

  -- The verifier accepted the id_token of the response, and its nonce is the expected one, if one
  -- is expected.
  abbrev pub IsAccepted : Type 0
  IsAccepted =
      (nonce : String) × ((verify (raw_id_token tok) w).0 ≡ ok nonce)
      × ((expected_nonce ≡ "") ⊎ (nonce ≡ expected_nonce))

  -- If the result has an id_token then the verifier accepted that of the response, its nonce is
  -- the expected one, if one is expected, and the result holds it and records no failure.
  pub to_result-accepted :
      result.id_token ≢ ""
      → IsAccepted × (result.id_token ≡ raw_id_token tok) × (result.id_token_error ≡ none)
  unfolding to_result
  to_result-accepted present = go (verify (raw_id_token tok) w).0 refl
    where
      go :
          (x : Result String)
          → (verify (raw_id_token tok) w).0 ≡ x
          → IsAccepted × (result.id_token ≡ raw_id_token tok) × (result.id_token_error ≡ none)
      go (err e) answered = absurd (ground (arith, eq_iff (raw_id_token tok) ""))
      go (ok nonce) answered = (
        (
          nonce,
          answered,
          ground (
            arith,
            eq_iff (raw_id_token tok) "",
            eq_iff nonce expected_nonce,
            eq_iff expected_nonce "",
          ),
        ),
        ground (arith, eq_iff (raw_id_token tok) ""),
        ground (arith, eq_iff (raw_id_token tok) ""),
      )

  -- An id_token of the response that the verifier accepts, with the expected nonce if one is
  -- expected, is the id_token of the result.
  pub to_result_complete : raw_id_token tok ≢ "" → IsAccepted → result.id_token ≡ raw_id_token tok
  unfolding to_result
  to_result_complete present (nonce, answered, bound) =
      ground
        (arith, eq_iff (raw_id_token tok) "", eq_iff nonce expected_nonce, eq_iff expected_nonce "")

  -- If the response had an id_token, the result holds it or records why it does not, and never
  -- both.
  pub to_result-recorded :
      raw_id_token tok ≢ ""
      → ((result.id_token ≡ raw_id_token tok) × (result.id_token_error ≡ none))
        ⊎ ((result.id_token ≡ "") × (result.id_token_error ≢ none))
  unfolding to_result
  to_result-recorded present = ground (arith, eq_iff (raw_id_token tok) "")
