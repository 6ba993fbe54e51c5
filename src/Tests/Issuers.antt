-- ===== src/Tests/Issuers.antt =====
-- The issuer of the program's tests, at concrete requests.
use oidc_token_cli.Base.{
  ℕ, String, ◌≡◌, ◌≢◌, ◌↔◌, refl, inr, eq_iff, some, [], ◌∷◌, message, Result, ok, err, arith,
}
use oidc_token_cli.Oidc.Request.{Claims}
use oidc_token_cli.Oidctest.{MockIssuer, new_mock_issuer}
use oidc_token_cli.Oidctest.Token.{received, cut_colon}
use oidc_token_cli.Oidctest.Client.{answer, Matches, check_client_auth-Matches_iff}
use oidc_token_cli.Tests.Responses.{
  random, clock, sign, confidential, sent, authenticated, no_secret,
}

abbrev itoa : ℕ → String
itoa n = "1"

abbrev signed : String → Result ℕ
signed s = err (message "no assertion")

abbrev claims : ℕ → Result Claims
claims n = err (message "no claims")

abbrev valid : Claims → Result (Unit {0})
valid c = ok tt

abbrev id_token : String → String → String → Result String
id_token issuer subject nonce = ok "id"

-- It asks for the secret of the client in the form.
abbrev strict : MockIssuer
strict = record new_mock_issuer {
  require_client_auth = "client_secret_post";
  expected_client_secret = "s3";
}

has_secret : ◌≢◌ {A = String} "s3" ""
has_secret = ground (arith, eq_iff "s3" "")

check_client_auth-Matches_iff_example :
    (answer itoa "http://issuer" signed claims valid id_token random clock sign confidential strict
        "http://issuer/token" sent
      ≡ ok tt)
    ↔ Matches itoa "http://issuer" signed claims valid id_token random clock sign confidential
        strict
check_client_auth-Matches_iff_example =
    check_client_auth-Matches_iff itoa "http://issuer" signed claims valid id_token random clock
      sign confidential strict "http://issuer/token" (("grant_type", "refresh_token" ∷ []) ∷ [])
      sent 5 5 (inr refl) has_secret refl no_secret authenticated

-- The header does not tell where the id ends: an id with a colon in it is cut.
cut_id : received (some ("test-client:x", "y")) ≡ some ("test-client", "x:y")
unfolding cut_colon
cut_id = refl

kept_id : received (some ("test-client", "x:y")) ≡ some ("test-client", "x:y")
unfolding cut_colon
kept_id = refl
