-- ===== src/Config/Parse/Kept.antt =====
-- What the second half of Parse of internal/config/config.go leaves as it was resolved.
use oidc_token_cli.Base.{
  String, ◌≡◌, ◌≢◌, refl, sym, ap, ◌∙◌, ◌⊎◌, inl, inr, Option, none, some, List, Result, ok, err,
  if_cases, Bool-cases, ◌==◌, is_empty, not, ◌&&◌, arith,
}
use oidc_token_cli.Base.Json.{Json, ℤ}
use oidc_token_cli.Config.{Config}
use oidc_token_cli.Config.Resolve.{
  Flags, Host, read_config, resolved, callback_port, resolved_grant,
}
use oidc_token_cli.Config.Parse.{
  ◌>>=◌, copy_bridges, resolve_private_key, secret_from_file, with_store_dir, parse_with,
  default_dir, finish,
}
use oidc_token_cli.Config.Parse.Laws.{bind-ok, private_key_of, finish-Passed}
use oidc_token_cli.Grant.TokenExchange.{TokenExchange}
use oidc_token_cli.Subjecttoken.{TokenOrigin}

-- A field that no special case, no grant and no key changes.
pub record IsKept (W : Type 0) {K A : Type 0} (field : Config K → A) : Type 0 where
  pub by_secret : (c : Config K) (s : String) → field (record c { client_secret = s }) ≡ field c
  pub by_dir : (c : Config K) (s : String) → field (record c { token_store_dir = s }) ≡ field c
  pub by_key : (c : Config K) (k : K) → field (record c { private_key = some k }) ≡ field c
  pub by_grants :
      (port : ℤ) (te : TokenExchange W) (c : Config K) → field (copy_bridges port te c) ≡ field c

module _ {W K A : Type 0} (host : Host K) (field : Config K → A) (kept : IsKept W field) where
  open kept use {by_secret, by_dir, by_key, by_grants}

  secret-kept :
      (flags : Flags) (c c' : Config K) → secret_from_file host flags c ≡ ok c' → field c' ≡ field c
  unfolding secret_from_file
  secret-kept flags c c' h = go (host.read_file (flags.string_flag "client-secret-file")) refl
    where
      go :
          (x : Result String)
          → host.read_file (flags.string_flag "client-secret-file") ≡ x
          → field c' ≡ field c
      go (ok secret) e = ground (arith, by_secret c (oidc_token_cli.Base.trim_newlines secret))
      go (err x) e = ground arith

  dir-kept : (c c' : Config K) → with_store_dir host c ≡ ok c' → field c' ≡ field c
  unfolding with_store_dir
  dir-kept c c' h = go (default_dir host.getenv host.home host.join) refl
    where
      go :
          (x : Result String) → default_dir host.getenv host.home host.join ≡ x → field c' ≡ field c
      go (ok dir) e = ground (arith, by_dir c dir)
      go (err x) e = ground arith

  key-kept :
      (c final : Config K)
      → resolve_private_key host.parsers host.read_file c ≡ ok final
      → field final ≡ field c
  key-kept c final h = elim (private_key_of host c final h) [
    | inl (_, same) ↦ ap field same
    | inr (_, (key, same)) ↦ ap field same ∙ by_key c key
  ]

  -- A field that is kept is, in a configuration that Parse returns, as it was resolved.
  pub parse_with-kept :
      (sources : List (TokenOrigin W)) (flags : Flags) (final : Config K) (te : TokenExchange W)
      → parse_with host sources flags ≡ ok (final, te)
      → (fc : Option (List (String × Json))) × (read_config host flags ≡ ok fc)
        × (field final ≡ field (resolved host flags fc))
  unfolding parse_with
  parse_with-kept sources flags final te h =
      let end = λ (fc : Option (List (String × Json))) (c : Config K).
        finish host flags (callback_port host flags fc) (resolved_grant host flags fc sources) c in
      let middle =
        λ (fc : Option (List (String × Json))) (c : Config K). with_store_dir host c >>= end fc in
      let (fc, read, h1) =
        bind-ok (read_config host flags)
          (λ fc. secret_from_file host flags (resolved host flags fc) >>= middle fc) h in
      let (c1, secret, h2) =
        bind-ok (secret_from_file host flags (resolved host flags fc)) (middle fc) h1 in
      let (c2, stored, h3) = bind-ok (with_store_dir host c1) (end fc) h2 in
      let port = callback_port host flags fc in
      let passed =
        finish-Passed host flags port (resolved_grant host flags fc sources) c2 final te h3 in
      (
        fc,
        read,
        key-kept (copy_bridges port te c2) final passed.3
            ∙ by_grants port te c2
            ∙ dir-kept c1 c2 stored
            ∙ secret-kept flags (resolved host flags fc) c1 secret,
      )
