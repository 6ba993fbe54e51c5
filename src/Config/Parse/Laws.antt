-- ===== src/Config/Parse/Laws.antt =====
-- What a configuration that Parse of internal/config/config.go returns can be relied on for.
use oidc_token_cli.Base.{
  String, ◌≡◌, ◌≢◌, refl, sym, ap, ◌∙◌, ◌⊎◌, inl, inr, Option, none, some, List, ◌==◌, eq_iff,
  Bool-cases, Result, ok, err, arith,
}
use mathlib.Core.Path.{subst, subst₂}
use oidc_token_cli.Base.Json.{Json, ℤ}
use oidc_token_cli.Config.{Config}
use oidc_token_cli.Config.Validate.{validate, IsValid, validate_iff}
use oidc_token_cli.Config.Resolve.{
  Flags, Host, read_config, resolved, callback_port, resolved_grant,
}
use oidc_token_cli.Config.Parse.{
  ◌>>=◌, grant_names, copy_bridges, validate_grant, finish, resolve_private_key, decode_key,
  secret_from_file, with_store_dir, parse_with, default_dir,
}
use oidc_token_cli.Grant.TokenExchange.{TokenExchange}
use oidc_token_cli.Grant.TokenExchange
use oidc_token_cli.Grant.TokenExchange.Laws.{HasOneOrigin, validate-HasOneOrigin_iff}
use oidc_token_cli.Subjecttoken.{TokenOrigin}

pub bind-ok :
    {A B : Type 0} (step : Result A) (next : A → Result B) {end : B}
    → (step >>= next) ≡ ok end
    → (got : A) × (step ≡ ok got) × (next got ≡ ok end)
bind-ok (ok got) next ended = (got, refl, ended)
bind-ok (err e) next ended = cc

ok-injective : {A : Type 0} {a b : A} → ok a ≡ ok b → a ≡ b
ok-injective h = ground arith

-- The key of a configuration: there is one exactly if the client authenticates by it.
abbrev pub HasKey : {K : Type 0} → Config K → Type 0
HasKey {K} c =
    (c.client_auth_method ≡ "private_key_jwt" → (key : K) × (c.private_key ≡ some key))
    × (c.client_auth_method ≢ "private_key_jwt" → c.private_key ≡ none)

module _ {K : Type 0} (host : Host K) where
  pub private_key_of :
      (c final : Config K)
      → resolve_private_key host.parsers host.read_file c ≡ ok final
      → ((c.client_auth_method ≢ "private_key_jwt") × (final ≡ c))
        ⊎ ((c.client_auth_method ≡ "private_key_jwt")
            × ((key : K) × (final ≡ record c { private_key = some key })))
  unfolding resolve_private_key
  private_key_of c final h = elim (Bool-cases (c.client_auth_method == "private_key_jwt")) [
    | inl jwt ↦
        let (key, _, done) =
          bind-ok (decode_key host.parsers (host.read_file c.private_key_path))
            (λ key. ok (record c { private_key = some key })) (rw jwt at h) in
        inr ((eq_iff c.client_auth_method "private_key_jwt").0 jwt, (key, ok-injective (sym done)))
    | inr other ↦ inl (
      ground (arith, eq_iff c.client_auth_method "private_key_jwt"),
      ok-injective (sym (rw other at h)),
    )
  ]

  keyed-IsValid :
      (c final : Config K)
      → resolve_private_key host.parsers host.read_file c ≡ ok final
      → IsValid c grant_names
      → IsValid final grant_names
  keyed-IsValid c final h v = elim (private_key_of c final h) [
    | inl (_, same) ↦ subst (λ x. IsValid x grant_names) (sym same) v
    | inr (_, (key, same)) ↦
        subst (λ x. IsValid x grant_names) (sym same)
          (record {
            has_issuer = v.has_issuer;
            has_client_id = v.has_client_id;
            known_grant = v.known_grant;
            known_token_type = v.known_token_type;
            known_format = v.known_format;
            known_store = v.known_store;
            has_client_auth = v.has_client_auth;
          })
  ]

  keyed-grant_type :
      (c final : Config K)
      → resolve_private_key host.parsers host.read_file c ≡ ok final
      → final.grant_type ≡ c.grant_type
  keyed-grant_type c final h = elim (private_key_of c final h) [
    | inl (_, same) ↦ ap (λ x. x.grant_type) same
    | inr (_, (key, same)) ↦ ap (λ x. x.grant_type) same
  ]

  resolved-private_key :
      (flags : Flags) (fc : Option (List (String × Json)))
      → (resolved host flags fc).private_key ≡ none
  unfolding resolved
  resolved-private_key flags fc = refl

  secret-private_key :
      (flags : Flags) (c c' : Config K)
      → secret_from_file host flags c ≡ ok c'
      → c'.private_key ≡ c.private_key
  unfolding secret_from_file
  secret-private_key flags c c' h =
      go (host.read_file (flags.string_flag "client-secret-file")) refl
    where
      go :
          (x : Result String)
          → host.read_file (flags.string_flag "client-secret-file") ≡ x
          → c'.private_key ≡ c.private_key
      go (ok secret) e = ground arith
      go (err x) e = ground arith

  store_dir-private_key :
      (c c' : Config K) → with_store_dir host c ≡ ok c' → c'.private_key ≡ c.private_key
  unfolding with_store_dir
  store_dir-private_key c c' h = go (default_dir host.getenv host.home host.join) refl
    where
      go :
          (x : Result String)
          → default_dir host.getenv host.home host.join ≡ x
          → c'.private_key ≡ c.private_key
      go (ok dir) e = ground arith
      go (err x) e = ground arith

module _ {W K : Type 0} (host : Host K) where
  -- What the steps from 6 on have found to hold.
  abbrev pub Passed : Flags → ℤ → TokenExchange W → Config K → Config K → TokenExchange W → Type 0
  Passed flags port grant c final te =
      (TokenExchange.finalize host.read_file flags.explicit grant ≡ ok te)
      × (validate c grant_names ≡ ok tt)
      × (validate_grant c te ≡ ok tt)
      × (resolve_private_key host.parsers host.read_file (copy_bridges port te c) ≡ ok final)

  pub finish-Passed :
      (flags : Flags) (port : ℤ) (grant : TokenExchange W) (c final : Config K)
      (te : TokenExchange W)
      → finish host flags port grant c ≡ ok (final, te)
      → Passed flags port grant c final te
  unfolding finish
  finish-Passed flags port grant c final te h =
      let key = λ (t : TokenExchange W).
        resolve_private_key host.parsers host.read_file (copy_bridges port t c) in
      let after_key = λ (t : TokenExchange W) (f : Config K). ok (f, t) in
      let after_grant = λ (t : TokenExchange W) (o : Unit {0}). key t >>= after_key t in
      let after_config =
        λ (t : TokenExchange W) (o : Unit {0}). validate_grant c t >>= after_grant t in
      let (t, finalized, h1) =
        bind-ok (TokenExchange.finalize host.read_file flags.explicit grant)
          (λ t. validate c grant_names >>= after_config t) h in
      let (o, valid, h2) = bind-ok (validate c grant_names) (after_config t) h1 in
      let (o', selected, h3) = bind-ok (validate_grant c t) (after_grant t) h2 in
      let (f, resolved_key, h4) = bind-ok (key t) (after_key t) h3 in
      subst₂ (λ x y. Passed flags port grant c x y) {x = f} {y = final} {u = t} {v = te}
        (ground arith) (ground arith) (finalized, valid, selected, resolved_key)

  copied-IsValid :
      (port : ℤ) (te : TokenExchange W) (c : Config K)
      → IsValid c grant_names
      → IsValid (copy_bridges port te c) grant_names
  unfolding copy_bridges
  copied-IsValid port te c v = record {
    has_issuer = v.has_issuer;
    has_client_id = v.has_client_id;
    known_grant = v.known_grant;
    known_token_type = v.known_token_type;
    known_format = v.known_format;
    known_store = v.known_store;
    has_client_auth = v.has_client_auth;
  }

  copied-private_key :
      (port : ℤ) (te : TokenExchange W) (c : Config K)
      → (copy_bridges port te c).private_key ≡ c.private_key
  unfolding copy_bridges
  copied-private_key port te c = refl

  copied-grant_type :
      (port : ℤ) (te : TokenExchange W) (c : Config K)
      → (copy_bridges port te c).grant_type ≡ c.grant_type
  unfolding copy_bridges
  copied-grant_type port te c = refl

  -- The way of an accepted configuration through Parse.
  abbrev Parsed : Flags → Config K → TokenExchange W → Type 0
  Parsed flags final te =
      (port : ℤ) × (grant : TokenExchange W) × (c : Config K) × (c.private_key ≡ none)
      × Passed flags port grant c final te

  parse_with-Parsed :
      (sources : List (TokenOrigin W)) (flags : Flags) (final : Config K) (te : TokenExchange W)
      → parse_with host sources flags ≡ ok (final, te)
      → Parsed flags final te
  unfolding parse_with
  parse_with-Parsed sources flags final te h =
      let end = λ (fc : Option (List (String × Json))) (c : Config K).
        finish host flags (callback_port host flags fc) (resolved_grant host flags fc sources) c in
      let middle =
        λ (fc : Option (List (String × Json))) (c : Config K). with_store_dir host c >>= end fc in
      let (fc, _, h1) =
        bind-ok (read_config host flags)
          (λ fc. secret_from_file host flags (resolved host flags fc) >>= middle fc) h in
      let (c1, secret, h2) =
        bind-ok (secret_from_file host flags (resolved host flags fc)) (middle fc) h1 in
      let (c2, stored, h3) = bind-ok (with_store_dir host c1) (end fc) h2 in
      (
        callback_port host flags fc,
        resolved_grant host flags fc sources,
        c2,
        store_dir-private_key host c1 c2 stored
            ∙ secret-private_key host flags (resolved host flags fc) c1 secret
            ∙ resolved-private_key host flags fc,
        finish-Passed flags (callback_port host flags fc) (resolved_grant host flags fc sources) c2
            final te h3,
      )

  -- Every configuration that Parse returns is valid.
  pub parse_with-IsValid :
      (sources : List (TokenOrigin W)) (flags : Flags) (final : Config K) (te : TokenExchange W)
      → parse_with host sources flags ≡ ok (final, te)
      → IsValid final grant_names
  parse_with-IsValid sources flags final te h =
      let (port, _, c, _, passed) = parse_with-Parsed sources flags final te h in
      keyed-IsValid host (copy_bridges port te c) final passed.3
        (copied-IsValid port te c ((validate_iff c grant_names).0 passed.1))

  -- The private key of a configuration that Parse returns is there exactly if the client
  -- authenticates by it.
  pub parse_with-HasKey :
      (sources : List (TokenOrigin W)) (flags : Flags) (final : Config K) (te : TokenExchange W)
      → parse_with host sources flags ≡ ok (final, te)
      → HasKey final
  parse_with-HasKey sources flags final te h =
      let (port, _, c, no_key, passed) = parse_with-Parsed sources flags final te h in
      let copied = copied-private_key port te c ∙ no_key in
      elim (private_key_of host (copy_bridges port te c) final passed.3) [
        | inl (other, same) ↦ subst HasKey (sym same) ((λ jwt. absurd (other jwt)), (λ _. copied))
        | inr (jwt, (key, same)) ↦
            subst HasKey (sym same) ((λ _. (key, refl)), (λ other. absurd (other jwt)))
      ]

  -- Where Parse selects the token exchange, its subject token has exactly one origin: it is given,
  -- or fetched from a known source.
  pub parse_with-HasOneOrigin :
      (sources : List (TokenOrigin W)) (flags : Flags) (final : Config K) (te : TokenExchange W)
      → parse_with host sources flags ≡ ok (final, te)
      → final.grant_type ≡ "token-exchange"
      → HasOneOrigin te
  unfolding validate_grant
  parse_with-HasOneOrigin sources flags final te h selected =
      let (port, _, c, _, passed) = parse_with-Parsed sources flags final te h in
      let kind : c.grant_type ≡ "token-exchange" =
        sym (copied-grant_type port te c)
        ∙ sym (keyed-grant_type host (copy_bridges port te c) final passed.3)
        ∙ selected in
      let test = (eq_iff c.grant_type "token-exchange").1 kind in
      ((validate-HasOneOrigin_iff te).0 (rw test at (passed.2))).0
