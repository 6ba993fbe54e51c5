-- ===== src/Runner/Failure.antt =====
-- How a run of internal/runner/runner.go fails.
use oidc_token_cli.Base.{
  String, ◌≡◌, inl, inr, true, ◌||◌, Option, none, some, is_empty, Bool-cases, Error, sentinel,
  join, is_error, Result, ok, err, arith, >>=-err, map_err-err, map_err, ◌>>◌, pure, cache_read,
  cache_write, login_failed, id_token_invalid,
}
use mathlib.Core.Path.{subst}
use oidc_token_cli.Output.{TokenResult}
use oidc_token_cli.Cache.{Entry}
use oidc_token_cli.Runner.{
  Runner, entry_valid, result_entry, check_id_token, note_missing, store_result, accept_login,
  login, or_login, after_load, run,
}

-- The failure classes that a caller of Run can meet.
abbrev pub IsRunFailure : Error → Type 0
IsRunFailure e =
    (is_error cache_read e
      || is_error login_failed e
      || is_error id_token_invalid e
      || is_error cache_write e)
    ≡ true

module _ {W K : Type 0} (r : Runner W K) where
  store_result-IsRunFailure :
      (i c : String) (res : TokenResult) (w v : W) (e : Error)
      → store_result r i c res w ≡ (err e, v)
      → IsRunFailure e
  unfolding store_result is_error
  store_result-IsRunFailure i c res w v e h =
      let save = r.cache.save (result_entry i c res) in
      let wrapped = map_err (join (sentinel cache_write)) save in
      elim (>>=-err wrapped (λ _. pure res) w h) [
        | inl failed ↦
            let (e', _, same) = map_err-err (join (sentinel cache_write)) save w failed in
            subst IsRunFailure same (ground arith)
        | inr (_, u, _, done) ↦ absurd (ground arith)
      ]

  check_id_token-IsRunFailure :
      (res : TokenResult) (w v : W) (e : Error)
      → check_id_token r res w ≡ (err e, v)
      → IsRunFailure e
  unfolding check_id_token is_error
  check_id_token-IsRunFailure res w v e h = ground arith

  note_missing-ne-err :
      (res : TokenResult) (w v : W) (e : Error) → ¬ (note_missing r res w ≡ (err e, v))
  unfolding note_missing
  note_missing-ne-err res w v e h = ground arith

  accept_login-IsRunFailure :
      (i c : String) (res : TokenResult) (w v : W) (e : Error)
      → accept_login r i c res w ≡ (err e, v)
      → IsRunFailure e
  unfolding accept_login
  accept_login-IsRunFailure i c res w v e h =
      let rest = store_result r i c res in
      elim (>>=-err (check_id_token r res) (λ _. note_missing r res >> rest) w h) [
        | inl refused ↦ check_id_token-IsRunFailure res w v e refused
        | inr (_, u, _, later) ↦ elim (>>=-err (note_missing r res) (λ _. rest) u later) [
          | inl broken ↦ absurd (note_missing-ne-err res u v e broken)
          | inr (_, u', _, last) ↦ store_result-IsRunFailure i c res u' v e last
        ]
      ]

  login-IsRunFailure :
      (i c : String) (w v : W) (e : Error) → login r i c w ≡ (err e, v) → IsRunFailure e
  unfolding login is_error
  login-IsRunFailure i c w v e h =
      let class = join (sentinel login_failed) in
      elim (>>=-err (map_err class r.source.login) (accept_login r i c) w h) [
        | inl failed ↦
            let (e', _, same) = map_err-err class r.source.login w failed in
            subst IsRunFailure same (ground arith)
        | inr (res, u, _, later) ↦ accept_login-IsRunFailure i c res u v e later
      ]

  or_login-IsRunFailure :
      (x : Result TokenResult × W) (v : W) (e : Error) → or_login r x ≡ (err e, v) → IsRunFailure e
  or_login-IsRunFailure (ok got, u) v e h = cc
  or_login-IsRunFailure (err e', u) v e h = login-IsRunFailure _ _ u v e h

  after_load-IsRunFailure :
      (x : Result (Option Entry) × W) (v : W) (e : Error)
      → after_load r x ≡ (err e, v)
      → IsRunFailure e
  unfolding after_load is_error
  after_load-IsRunFailure (err e', u) v e h =
      subst IsRunFailure {x = join (sentinel cache_read) e'} {y = e} (ground arith) (ground arith)
  after_load-IsRunFailure (ok none, u) v e h = login-IsRunFailure _ _ u v e h
  after_load-IsRunFailure (ok (some entry), u) v e h =
      elim (Bool-cases (entry_valid (r.now u) entry)) [
        | inl valid ↦ absurd (cc (rw valid at h))
        | inr invalid ↦ elim (Bool-cases (is_empty entry.refresh_token)) [
          | inl unset ↦ login-IsRunFailure _ _ u v e (rw (invalid, unset) at h)
          | inr is_set ↦ or_login-IsRunFailure _ v e (rw (invalid, is_set) at h)
        ]
      ]

  -- A run fails only in one of four classes: the cache could not be read, the interactive login
  -- failed, a demanded id_token was not valid, or the cache could not be written.
  pub run-IsRunFailure : (w v : W) (e : Error) → run r w ≡ (err e, v) → IsRunFailure e
  unfolding run
  run-IsRunFailure w v e h =
      after_load-IsRunFailure (r.cache.load r.config.issuer r.config.client_id w) v e h
