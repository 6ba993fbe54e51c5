-- ===== src/Runner/Process.antt =====
-- internal/runner/runner.go, one operation at a time: what a run is about to do, and where the
-- answer of each operation of the store and of the token source takes it.
pub mod Laws
use oidc_token_cli.Base.{
  ℕ, zero, suc, String, Bool, true, false, Option, none, some, ◌==◌, is_empty, if◌then◌else◌, Error,
  sentinel, wrap, message, join, login_failed, refresh_failed, cache_read, cache_write,
  id_token_invalid, Result, ok, err, M,
}
use oidc_token_cli.Output.{TokenResult, token_type_id_token}
use oidc_token_cli.Cache.{Entry, Store}
use oidc_token_cli.Runner.{
  Runner, entry_valid, entry_result, result_entry, keep_refresh_token, check_id_token, note_missing,
}

pub data Phase : Type 0 where
  -- `r.Cache.Load`
  loading : Phase
  -- `r.Cache.WithLock`, with the entry that was loaded
  waiting : Entry → Phase
  -- under the lock: Load, `r.Source.Refresh`, Save and the return to WithLock
  reloading : Entry → Phase
  refreshing : String → Phase
  saving : TokenResult → Phase
  leaving : Result TokenResult → Phase
  -- `r.Source.Login` and Save
  logging_in : Phase
  saving_login : TokenResult → Phase
  ended : Result TokenResult → Phase

-- Run, from Load to the first call after it.
unfoldable pub after_loading : ℕ → Result (Option Entry) → Phase
unfolding entry_valid entry_result
after_loading now (err e) = ended (err (join (sentinel cache_read) e))
after_loading now (ok none) = logging_in
after_loading now (ok (some entry)) =
    if entry_valid now entry
    then ended (ok (entry_result entry))
    else if is_empty entry.refresh_token
    then logging_in
    else waiting entry

-- `if refreshToken == ""`
unfoldable pub offer : String → Phase
offer token =
    if is_empty token
    then leaving (err (wrap "no refresh_token available" (sentinel refresh_failed)))
    else refreshing token

-- The critical section, from its Load to Refresh.
unfoldable pub after_reloading : ℕ → Entry → Result (Option Entry) → Phase
unfolding entry_valid entry_result offer
after_reloading now stale (ok (some fresh)) =
    if entry_valid now fresh then leaving (ok (entry_result fresh)) else offer fresh.refresh_token
after_reloading now stale (ok none) = offer stale.refresh_token
after_reloading now stale (err e) = offer stale.refresh_token

-- What checkIDToken returns, for a token type.
unfoldable pub id_token_failure : String → TokenResult → Option Error
id_token_failure token_type res = elim res.id_token_error [
  | none ↦ none
  | some e ↦
      if token_type == token_type_id_token then some (join (sentinel id_token_invalid) e) else none
]

abbrev pub refused_or : (Error → Phase) → Phase → Option Error → Phase
refused_or refused next none = next
refused_or refused next (some e) = refused e

-- The critical section, from Refresh to Save.
unfoldable pub after_refreshing : String → String → Result TokenResult → Phase
unfolding id_token_failure keep_refresh_token
after_refreshing token_type token (err e) = leaving (err (join (sentinel refresh_failed) e))
after_refreshing token_type token (ok res) =
    refused_or (λ e. leaving (err e)) (saving (keep_refresh_token token res))
      (id_token_failure token_type res)

unfoldable pub after_saving : TokenResult → Result (Unit {0}) → Phase
after_saving res (ok _) = leaving (ok res)
after_saving res (err e) = leaving (err (join (sentinel cache_write) e))

-- Run, behind WithLock: a refresh that failed falls through to the login.
unfoldable pub after_leaving : Result TokenResult → Phase
after_leaving (ok res) = ended (ok res)
after_leaving (err e) = logging_in

-- login, from Login to Save.
unfoldable pub after_login : String → Result TokenResult → Phase
unfolding id_token_failure
after_login token_type (err e) = ended (err (join (sentinel login_failed) e))
after_login token_type (ok res) =
    refused_or (λ e. ended (err e)) (saving_login res) (id_token_failure token_type res)

unfoldable pub after_saving_login : TokenResult → Result (Unit {0}) → Phase
after_saving_login res (ok _) = ended (ok res)
after_saving_login res (err e) = ended (err (join (sentinel cache_write) e))

module _ {W K : Type 0} (r : Runner W K) where
  open r use {cache, source, config, now}

  abbrev pub save : TokenResult → M W (Unit {0})
  save res = cache.save (result_entry config.issuer config.client_id res)

  -- The warnings of checkIDToken, and that of a login without a refresh token.
  abbrev pub warned : Result TokenResult → W → W
  warned (err e) w = w
  warned (ok res) w = (check_id_token r res w).1

  abbrev pub noted : Phase → W → W
  noted (saving_login res) w = (note_missing r res w).1
  noted p w = w

  -- One operation. WithLock itself is not among them.
  unfoldable pub act : Phase → W → Phase × W
  unfolding after_loading after_reloading after_refreshing after_saving after_login
      after_saving_login check_id_token note_missing result_entry
  act loading w =
      let (x, v) = cache.load config.issuer config.client_id w in (after_loading (now v) x, v)
  act (reloading stale) w =
      let (x, v) = cache.load config.issuer config.client_id w in
      (after_reloading (now v) stale x, v)
  act (refreshing token) w =
      let (x, v) = source.refresh token w in
      (after_refreshing config.token_type token x, warned x v)
  act (saving res) w = let (x, v) = save res w in (after_saving res x, v)
  act logging_in w =
      let (x, v) = source.login w in
      let p = after_login config.token_type x in (p, noted p (warned x v))
  act (saving_login res) w = let (x, v) = save res w in (after_saving_login res x, v)
  act p w = (p, w)

  abbrev pub acts : ℕ → Phase × W → Phase × W
  acts zero x = x
  acts (suc n) (p, w) = acts n (act p w)

  abbrev pub left_with : Phase × W → Result (Result TokenResult) × W
  left_with (leaving x, w) = (ok x, w)
  left_with (p, w) = (ok (err (message "not at the end")), w)

  -- The three operations under the lock.
  unfoldable pub locked : Entry → M W (Result TokenResult)
  unfolding act
  locked stale w = left_with (acts 3 (reloading stale, w))

  abbrev pub unlocked : Result (Result TokenResult) × W → Phase × W
  unlocked (ok x, w) = (after_leaving x, w)
  unlocked (err e, w) = (logging_in, w)

  abbrev pub refreshed : Phase × W → Phase × W
  refreshed (waiting stale, w) =
      unlocked (cache.with_lock config.issuer config.client_id (locked stale) w)
  refreshed x = x

  abbrev pub ended_with : Phase × W → Result TokenResult × W
  ended_with (ended x, w) = (x, w)
  ended_with (p, w) = (err (message "not at the end"), w)

  -- All operations of one run, with nothing in between.
  unfoldable pub alone : M W TokenResult
  unfolding act locked after_leaving
  alone w = ended_with (acts 2 (refreshed (act loading w)))
