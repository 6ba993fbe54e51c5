-- ===== src/Config/Validate.antt =====
-- Config.validate of internal/config/config.go.
use oidc_token_cli.Base.{
  String, ◌≡◌, ◌≢◌, ◌↔◌, ◌⊎◌, Bool, true, false, not, ◌&&◌, ◌||◌, List, [], ◌∷◌, ◌==◌, eq_iff,
  is_empty, if◌then◌else◌, contains, contains_iff, All, Listed, Error, message, Result, ok, err,
  arith,
}
use oidc_token_cli.Config.{Config}

-- `if !test { return e }`, with the code that follows.
abbrev pub require : Bool → Error → Result (Unit {0}) → Result (Unit {0})
require true e rest = rest
require false e rest = err e

-- A row of such guards.
unfoldable pub check_all : List (Bool × Error) → Result (Unit {0}) → Result (Unit {0})
check_all [] rest = rest
check_all ((test, e) ∷ checks) rest = require test e (check_all checks rest)

check_all_iff :
    (checks : List (Bool × Error)) (rest : Result (Unit {0}))
    → (check_all checks rest ≡ ok tt) ↔ (All (λ c. c.0 ≡ true) checks × (rest ≡ ok tt))
unfolding check_all
check_all_iff [] rest = ground arith
check_all_iff ((test, e) ∷ checks) rest = ground (arith, check_all_iff checks rest)

-- The keys of validSigningAlgs.
abbrev pub valid_signing_algs : List String
valid_signing_algs =
    "RS256" ∷ "RS384" ∷ "RS512" ∷ "PS256" ∷ "PS384" ∷ "PS512" ∷ "ES256" ∷ "ES384" ∷ "ES512" ∷ []

abbrev pub token_types : List String
token_types = "access_token" ∷ "id_token" ∷ []

abbrev pub formats : List String
formats = "token" ∷ "json" ∷ "exec-credential" ∷ []

abbrev pub backends : List String
backends = "auto" ∷ "keychain" ∷ "file" ∷ "none" ∷ []

module _ {K : Type 0} (c : Config K) where
  -- The second switch on ClientAuthMethod. The first one has refused every other method.
  unfoldable pub validate_client_auth : Result (Unit {0})
  validate_client_auth =
      if c.client_auth_method == "client_secret_basic"
        || c.client_auth_method == "client_secret_post"
      then require (not (is_empty c.client_secret)) (message "config: requires --client-secret")
          (ok tt)
      else if c.client_auth_method == "private_key_jwt"
      then require (not (is_empty c.private_key_path))
          (message "config: requires --private-key-file")
          (require (contains valid_signing_algs c.private_key_signing_alg)
            (message "config: invalid --private-key-alg") (ok tt))
      else if is_empty c.client_auth_method
      then require (is_empty c.client_secret && is_empty c.private_key_path)
          (message "config: --client-secret/--private-key-file require --client-auth-method")
          (ok tt)
      else err (message "config: invalid --client-auth-method")

  -- The checks before the second switch, in their order. `grants` are the names of the registered
  -- grants.
  abbrev checks : List String → List (Bool × Error)
  checks grants =
      (not (is_empty c.issuer), message "config: --issuer is required")
      ∷ (not (is_empty c.client_id), message "config: --client-id is required")
      ∷ (
        c.grant_type == "auto" || contains grants c.grant_type,
        message "config: invalid --grant-type",
      )
      ∷ (contains token_types c.token_type, message "config: invalid --token-type")
      ∷ (contains formats c.format, message "config: invalid --format")
      ∷ (contains backends c.token_store, message "config: invalid --token-store")
      ∷ []

  unfoldable pub validate : List String → Result (Unit {0})
  unfolding validate_client_auth check_all
  validate grants = check_all (checks grants) validate_client_auth

  -- Client authentication is consistent: the method has what it needs, and without a method
  -- there is nothing that would go unused.
  abbrev pub HasClientAuth : Type 0
  HasClientAuth =
      (((c.client_auth_method ≡ "client_secret_basic")
          ⊎ (c.client_auth_method ≡ "client_secret_post"))
        × (c.client_secret ≢ ""))
      ⊎ ((c.client_auth_method ≡ "private_key_jwt")
          × (c.private_key_path ≢ "")
          × Listed c.private_key_signing_alg valid_signing_algs)
      ⊎ ((c.client_auth_method ≡ "") × (c.client_secret ≡ "") × (c.private_key_path ≡ ""))

  pub record IsValid (grants : List String) : Type 0 where
    pub has_issuer : c.issuer ≢ ""
    pub has_client_id : c.client_id ≢ ""
    pub known_grant : (c.grant_type ≡ "auto") ⊎ Listed c.grant_type grants
    pub known_token_type : Listed c.token_type token_types
    pub known_format : Listed c.format formats
    pub known_store : Listed c.token_store backends
    pub has_client_auth : HasClientAuth

  -- The tests of the switch, with the look-up in the table of algorithms left as `known`.
  switch : Bool → Result (Unit {0})
  switch known =
      if c.client_auth_method == "client_secret_basic"
        || c.client_auth_method == "client_secret_post"
      then require (not (is_empty c.client_secret)) (message "config: requires --client-secret")
          (ok tt)
      else if c.client_auth_method == "private_key_jwt"
      then require (not (is_empty c.private_key_path))
          (message "config: requires --private-key-file")
          (require known (message "config: invalid --private-key-alg") (ok tt))
      else if is_empty c.client_auth_method
      then require (is_empty c.client_secret && is_empty c.private_key_path)
          (message "config: --client-secret/--private-key-file require --client-auth-method")
          (ok tt)
      else err (message "config: invalid --client-auth-method")

  switch_iff :
      (known : Bool) {P : Type 0}
      → ((known ≡ true) ↔ P)
      → (switch known ≡ ok tt) ↔ (
          (((c.client_auth_method ≡ "client_secret_basic")
              ⊎ (c.client_auth_method ≡ "client_secret_post"))
            × (c.client_secret ≢ ""))
          ⊎ ((c.client_auth_method ≡ "private_key_jwt") × (c.private_key_path ≢ "") × P)
          ⊎ ((c.client_auth_method ≡ "") × (c.client_secret ≡ "") × (c.private_key_path ≡ "")))
  unfolding switch
  switch_iff known listed = ground (
    arith,
    listed,
    eq_iff c.client_auth_method "client_secret_basic",
    eq_iff c.client_auth_method "client_secret_post",
    eq_iff c.client_auth_method "private_key_jwt",
    eq_iff c.client_auth_method "",
    eq_iff c.client_secret "",
    eq_iff c.private_key_path "",
    eq_iff "private_key_jwt" "client_secret_basic",
    eq_iff "private_key_jwt" "client_secret_post",
    eq_iff "private_key_jwt" "",
    eq_iff "" "client_secret_basic",
    eq_iff "" "client_secret_post",
    eq_iff "" "private_key_jwt",
  )

  validate_client_auth_iff : (validate_client_auth ≡ ok tt) ↔ HasClientAuth
  unfolding validate_client_auth switch
  validate_client_auth_iff =
      switch_iff (contains valid_signing_algs c.private_key_signing_alg)
        (contains_iff valid_signing_algs c.private_key_signing_alg)

  not_empty_iff : (s : String) → (not (is_empty s) ≡ true) ↔ (s ≢ "")
  not_empty_iff s = ground (arith, eq_iff s "")

  auto_or_iff :
      (t : String) (known : Bool) {P : Type 0}
      → ((known ≡ true) ↔ P)
      → ((t == "auto" || known) ≡ true) ↔ ((t ≡ "auto") ⊎ P)
  auto_or_iff t known listed = ground (arith, listed, eq_iff t "auto")

  -- A configuration is accepted exactly when it is valid: it names an issuer and a client, its
  -- grant type is auto or a registered one, its token type, format and store are known ones, and
  -- its client authentication is complete and consistent.
  pub validate_iff : (grants : List String) → (validate grants ≡ ok tt) ↔ IsValid grants
  unfolding validate
  validate_iff grants = (
    (λ h.
        let (passed, auth) = (check_all_iff (checks grants) validate_client_auth).0 h in
        let (i, (d, (g, (t, (f, (s, _)))))) = passed in
        record {
          has_issuer = (not_empty_iff c.issuer).0 i;
          has_client_id = (not_empty_iff c.client_id).0 d;
          known_grant = (auto_or_iff c.grant_type _ (contains_iff grants c.grant_type)).0 g;
          known_token_type = (contains_iff token_types c.token_type).0 t;
          known_format = (contains_iff formats c.format).0 f;
          known_store = (contains_iff backends c.token_store).0 s;
          has_client_auth = validate_client_auth_iff.0 auth;
        }),
    (λ v. (check_all_iff (checks grants) validate_client_auth).1 (
      (
        (not_empty_iff c.issuer).1 v.has_issuer,
        (
          (not_empty_iff c.client_id).1 v.has_client_id,
          (
            (auto_or_iff c.grant_type _ (contains_iff grants c.grant_type)).1 v.known_grant,
            (
              (contains_iff token_types c.token_type).1 v.known_token_type,
              (
                (contains_iff formats c.format).1 v.known_format,
                ((contains_iff backends c.token_store).1 v.known_store, tt),
              ),
            ),
          ),
        ),
      ),
      validate_client_auth_iff.1 v.has_client_auth,
    )),
  )
