-- ===== src/Oidc/Discovery/Laws.antt =====
-- What internal/oidc/discovery.go accepts and permits, in the terms of the discovery document.
use oidc_token_cli.Base.{
  String, ◌≡◌, refl, ◌↔◌, ◌⊎◌, true, List, [], ◌∷◌, eq_iff, contains_iff, Listed, is_nil, Error,
  Result, ok, err, M, arith,
}
use oidc_token_cli.Oidc.{Provider, DiscoveryClaims, ClientAuth}
use oidc_token_cli.Oidc.Discovery.{
  Url, validate_issuer_url, discover, supports_grant, code_challenge_method,
}

-- An issuer may be used over https, or over http on a loopback address.
abbrev pub IsAllowed : Url → Type 0
IsAllowed u =
    (u.scheme ≡ "https")
    ⊎ ((u.scheme ≡ "http") × ((u.hostname ≡ "127.0.0.1") ⊎ (u.hostname ≡ "::1")))

validate-of_parsed :
    (parse : String → Result Url) (raw : String) (u : Url)
    → parse raw ≡ ok u
    → (validate_issuer_url parse raw ≡ ok tt) ↔ IsAllowed u
unfolding validate_issuer_url
validate-of_parsed parse raw u h = ground (
  arith,
  eq_iff u.scheme "https",
  eq_iff u.scheme "http",
  eq_iff u.hostname "127.0.0.1",
  eq_iff u.hostname "::1",
)

-- An issuer URL is accepted exactly when it parses and is https, or http on a loopback address.
pub validate_issuer_url_iff :
    (parse : String → Result Url) (raw : String)
    → (validate_issuer_url parse raw ≡ ok tt) ↔ ((u : Url) × (parse raw ≡ ok u) × IsAllowed u)
unfolding validate_issuer_url
validate_issuer_url_iff parse raw = (
  accepted (parse raw) refl,
  λ (u, parsed, allowed). (validate-of_parsed parse raw u parsed).1 allowed,
)
  where
    accepted :
        (x : Result Url)
        → parse raw ≡ x
        → validate_issuer_url parse raw ≡ ok tt
        → (u : Url) × (parse raw ≡ ok u) × IsAllowed u
    accepted (ok u) parsed h = (u, parsed, (validate-of_parsed parse raw u parsed).0 h)
    accepted (err e) parsed h = absurd (ground arith)

is_nil_iff : (xs : List String) → (is_nil xs ≡ true) ↔ (xs ≡ [])
is_nil_iff [] = ground arith
is_nil_iff (x ∷ xs) = ground arith

-- A grant is possible exactly when the issuer lists no grants at all, or lists this one.
pub supports_grant_iff :
    {K : Type 0} (p : Provider K) (grant : String)
    → (supports_grant p grant ≡ true)
      ↔ ((p.claims.grant_types_supported ≡ []) ⊎ Listed grant p.claims.grant_types_supported)
unfolding supports_grant
supports_grant_iff p grant = ground (
  arith,
  is_nil_iff p.claims.grant_types_supported,
  contains_iff p.claims.grant_types_supported grant,
)

-- PKCE never uses any method but S256, and is refused exactly when the issuer lists methods and
-- S256 is not among them.
pub code_challenge_method_iff :
    {K : Type 0} (p : Provider K) (method : String)
    → (code_challenge_method p ≡ ok method) ↔ (
        (method ≡ "S256")
        × ((p.claims.code_challenge_methods_supported ≡ [])
            ⊎ Listed "S256" p.claims.code_challenge_methods_supported))
unfolding code_challenge_method
code_challenge_method_iff p method = ground (
  arith,
  is_nil_iff p.claims.code_challenge_methods_supported,
  contains_iff p.claims.code_challenge_methods_supported "S256",
)

module _ {W K U : Type 0} (parse : String → Result Url) (new_provider : String → M W U)
    (auth_url token_url : U → String) (read_claims : U → Result DiscoveryClaims)
    (no_auth : ClientAuth K) (issuer client_id : String) (w : W) where
  abbrev pub discovery : Result (Provider K) × W
  discovery = discover parse new_provider auth_url token_url read_claims no_auth issuer client_id w

  -- Discovery of an issuer whose URL is not allowed fails before anything is asked of the network:
  -- the world is as it was.
  pub discover_refuses :
      ¬ ((u : Url) × (parse issuer ≡ ok u) × IsAllowed u) → (e : Error) × (discovery ≡ (err e, w))
  unfolding discover
  discover_refuses h = go (validate_issuer_url parse issuer) refl
    where
      go :
          (x : Result (Unit {0}))
          → validate_issuer_url parse issuer ≡ x
          → (e : Error) × (discovery ≡ (err e, w))
      go (ok o) checked = absurd (h ((validate_issuer_url_iff parse issuer).0 checked))
      go (err e) checked = (e, ground arith)
