-- ===== src/Runner.antt =====
-- internal/runner/runner.go: cache hit, then silent refresh under the lock, then login.
-- The world `W` holds what the store, the token source, the clock and standard error act on.
-- `Store W (Result TokenResult)`: the function under the lock leaves `result` and `outErr` there.
-- Deadlines (`context`) are part of what the source does, so they are not arguments here.
pub mod Laws
pub mod Failure
pub mod Reuse
pub mod Process
pub mod Concurrent
use oidc_token_cli.Base.{
  ℕ, String, ◌+◌, ◌*◌, ◌^◌, Bool, true, false, not, ◌&&◌, Option, none, some, List, [], ◌==◌,
  is_empty, ltb, if◌then◌else◌, Error, sentinel, wrap, join, login_failed, refresh_failed,
  cache_read, cache_write, id_token_invalid, Result, ok, err, M, ◌>>=◌, ◌>>◌, pure, map_err, ◌-◌,
}
use oidc_token_cli.Output.{TokenResult, is_zero, token_type_id_token}
use oidc_token_cli.Cache.{Entry, Store}
use oidc_token_cli.Config.{Config}

-- TokenSource
pub record TokenSource (W : Type 0) : Type 0 where
  pub refresh : String → M W TokenResult
  pub login : M W TokenResult

-- Runner. `warn` is nil where Stderr is.
pub record Runner (W K : Type 0) : Type 0 where
  pub cache : Store W (Result TokenResult)
  pub source : TokenSource W
  pub config : Config K
  pub now : W → ℕ
  pub warn : Option (String → W → W)

-- 30 seconds in nanoseconds.
abbrev pub skew : ℕ
skew = 30000000000

-- `r.now().Before(e.Expiry.Add(-Skew))` as the last case. A time is not before zero, so the
-- subtraction that stops at zero gives the same answer.
unfoldable pub entry_valid : ℕ → Entry → Bool
entry_valid now e =
    if is_empty e.access_token && is_empty e.id_token
    then false
    else if is_zero e.expiry
    then is_empty e.refresh_token
    else ltb now (e.expiry - skew)

unfoldable pub entry_result : Entry → TokenResult
entry_result e = record {
  access_token = e.access_token;
  id_token = e.id_token;
  refresh_token = e.refresh_token;
  expiry = e.expiry;
  id_token_error = none;
  issued_token_type = "";
  extra = [];
}

-- The entry that `persist` saves.
unfoldable pub result_entry : String → String → TokenResult → Entry
result_entry issuer client_id res = record {
  issuer = issuer;
  client_id = client_id;
  access_token = res.access_token;
  id_token = res.id_token;
  refresh_token = res.refresh_token;
  expiry = res.expiry;
}

abbrev pub print : {W : Type 0} → Option (String → W → W) → String → W → W
print none s w = w
print (some write) s w = write s w

-- The refresh token that goes into the cache: the issuer may omit it without revoking it.
unfoldable pub keep_refresh_token : String → TokenResult → TokenResult
keep_refresh_token token res =
    if is_empty res.refresh_token then record res { refresh_token = token } else res

module _ {W K : Type 0} (r : Runner W K) where
  open r use {cache, source, config, now, warn}

  abbrev persist : String → String → TokenResult → M W (Unit {0})
  persist issuer client_id res = cache.save (result_entry issuer client_id res)

  -- checkIDToken
  unfoldable pub check_id_token : TokenResult → M W (Unit {0})
  check_id_token res w = elim res.id_token_error [
    | none ↦ (ok tt, w)
    | some e ↦
        if config.token_type == token_type_id_token
        then (err (join (sentinel id_token_invalid) e), w)
        else (ok tt, print warn "warning: id_token verification failed" w)
  ]

  -- The last steps of a refresh and of a login.
  unfoldable pub store_result : String → String → TokenResult → M W TokenResult
  store_result issuer client_id res = do
    map_err (join (sentinel cache_write)) (persist issuer client_id res)
    pure res

  unfoldable pub accept_refresh : String → String → String → TokenResult → M W TokenResult
  unfolding check_id_token keep_refresh_token store_result
  accept_refresh issuer client_id token res = do
    check_id_token res
    store_result issuer client_id (keep_refresh_token token res)

  -- The part of the critical section from `if refreshToken == ""` on.
  unfoldable pub refresh_with : String → String → String → M W TokenResult
  unfolding accept_refresh
  refresh_with issuer client_id token w =
      if is_empty token
      then (err (wrap "no refresh_token available" (sentinel refresh_failed)), w)
      else (map_err (join (sentinel refresh_failed)) (source.refresh token)
            >>= accept_refresh issuer client_id token)
          w

  -- What the critical section does with the entry that it reads again.
  unfoldable pub after_reload :
      String → String → Entry → Result (Option Entry) × W → Result TokenResult × W
  unfolding refresh_with entry_valid entry_result
  after_reload issuer client_id stale (ok (some fresh), w) =
      if entry_valid (now w) fresh
      then (ok (entry_result fresh), w)
      else refresh_with issuer client_id fresh.refresh_token w
  after_reload issuer client_id stale (ok none, w) =
      refresh_with issuer client_id stale.refresh_token w
  after_reload issuer client_id stale (err e, w) =
      refresh_with issuer client_id stale.refresh_token w

  -- The function that runs under the lock: it never fails itself, and leaves its outcome behind.
  unfoldable pub critical_section : String → String → Entry → M W (Result TokenResult)
  unfolding after_reload
  critical_section issuer client_id stale w =
      let (outcome, v) = after_reload issuer client_id stale (cache.load issuer client_id w) in
      (ok outcome, v)

  -- `if lockErr != nil`, `if outErr != nil`, `return result`.
  abbrev pub after_lock : Result (Result TokenResult) × W → Result TokenResult × W
  after_lock (ok outcome, w) = (outcome, w)
  after_lock (err lock_err, w) = (err lock_err, w)

  unfoldable pub try_refresh : String → String → Entry → M W TokenResult
  unfolding critical_section
  try_refresh issuer client_id stale w =
      after_lock (cache.with_lock issuer client_id (critical_section issuer client_id stale) w)

  -- `if res.RefreshToken == "" && r.Stderr != nil`
  unfoldable pub note_missing : TokenResult → M W (Unit {0})
  note_missing res w = (
    ok tt,
    (if is_empty res.refresh_token
        then print warn "warning: issuer did not return a refresh_token" w
        else w),
  )

  unfoldable pub accept_login : String → String → TokenResult → M W TokenResult
  unfolding check_id_token note_missing store_result
  accept_login issuer client_id res = do
    check_id_token res
    note_missing res
    store_result issuer client_id res

  unfoldable pub login : String → String → M W TokenResult
  unfolding accept_login
  login issuer client_id =
      map_err (join (sentinel login_failed)) source.login >>= accept_login issuer client_id

  abbrev pub or_login : Result TokenResult × W → Result TokenResult × W
  or_login (ok res, w) = (ok res, w)
  or_login (err e, w) = login config.issuer config.client_id w

  unfoldable pub after_load : Result (Option Entry) × W → Result TokenResult × W
  unfolding try_refresh login entry_valid entry_result
  after_load (err e, w) = (err (join (sentinel cache_read) e), w)
  after_load (ok none, w) = login config.issuer config.client_id w
  after_load (ok (some entry), w) =
      let refreshed = or_login (try_refresh config.issuer config.client_id entry w) in
      if entry_valid (now w) entry
      then (ok (entry_result entry), w)
      else if not (is_empty entry.refresh_token)
      then refreshed
      else login config.issuer config.client_id w

  unfoldable pub run : M W TokenResult
  unfolding after_load
  run w = after_load (cache.load config.issuer config.client_id w)

  -- Logout
  unfoldable pub logout : M W (Unit {0})
  logout = cache.delete config.issuer config.client_id
