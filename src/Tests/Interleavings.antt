-- ===== src/Tests/Interleavings.antt =====
-- Two runs that find the same expired entry, interleaved.
use oidc_token_cli.Base.{ℕ, ◌≡◌, refl, true, false, some, [], ◌∷◌, arith, eq_iff, Listed}
use oidc_token_cli.Output.{TokenResult}
use oidc_token_cli.Runner.{run, keep_refresh_token, result_entry}
use oidc_token_cli.Runner.Process.{Phase, alone}
use oidc_token_cli.Runner.Concurrent.{
  System, start, Step, Reach, here, later, load, lock, reload, refresh, save, leave, log_out,
}
use oidc_token_cli.Runner.Concurrent.Tokens.{offered, stored_token}
use oidc_token_cli.Tests.World.{stale_entry, refreshed}

-- All runs take one lock.
abbrev one_lock : ℕ → ℕ
one_lock i = 0

-- The issuer grants these tokens only.
abbrev IsAnswer : System → TokenResult → Type 0
IsAnswer s res = res ≡ refreshed

abbrev Interleaved : System → Type 0
Interleaved =
    Reach "access_token" "https://issuer" "cli" one_lock IsAnswer true
      (start (some stale_entry) 1000000000000)

abbrev InSystem : System → System → Type 0
InSystem = Step "access_token" "https://issuer" "cli" one_lock IsAnswer true

abbrev then_step : {s t : System} → Interleaved s → InSystem s t → Interleaved t
then_step r st = later r st

-- Both read the cache and wait; the first takes the lock, finds the entry still expired and has it
-- refreshed.
reach_refreshed : (s : System) × Interleaved s
unfolding oidc_token_cli.Runner.Process.after_loading oidc_token_cli.Runner.Process.after_reloading
reach_refreshed =
    let r1 = then_step here (load 0 refl) in
    let r2 = then_step r1 (load 1 refl) in
    let r3 = then_step r2 (lock 0 refl refl) in
    let r4 = then_step r3 (reload 0 refl) in
    let r5 = then_step r4 (refresh 0 refreshed refl refl) in (_, r5)

abbrev horizon : ℕ
horizon = 4000000000000

-- The first saves the tokens and leaves; the second finds them, and refreshes nothing.
reach_reused : (s : System) × Interleaved s
unfolding reach_refreshed oidc_token_cli.Runner.Process.after_refreshing
    oidc_token_cli.Runner.Process.after_loading oidc_token_cli.Runner.Process.after_reloading
    oidc_token_cli.Runner.Process.after_saving oidc_token_cli.Runner.keep_refresh_token
    oidc_token_cli.Runner.result_entry
reach_reused =
    let r6 = then_step reach_refreshed.1 (save 0 {res = keep_refresh_token "r1" refreshed} refl) in
    let r7 = then_step r6 (leave 0 refl) in
    let r8 = then_step r7 (lock 1 refl refl) in
    let r9 = then_step r8 (reload 1 refl) in (_, then_step r9 (leave 1 refl))

-- Where a logout comes between the two critical sections, the second run finds no entry, offers the
-- refresh token that it loaded before, and the profile has an entry again.
reach_revived :
    (s : System) × Reach "access_token" "https://issuer" "cli" one_lock IsAnswer false
      (start (some stale_entry) 1000000000000)
      s
unfolding oidc_token_cli.Runner.Process.after_refreshing oidc_token_cli.Runner.Process.after_loading
    oidc_token_cli.Runner.Process.after_reloading oidc_token_cli.Runner.Process.after_saving
    oidc_token_cli.Runner.keep_refresh_token oidc_token_cli.Runner.result_entry
reach_revived =
    let r2 = later (later here (load 0 refl)) (load 1 refl) in
    let r4 = later (later r2 (lock 0 refl refl)) (reload 0 refl) in
    let r5 = later r4 (refresh 0 refreshed refl refl) in
    let r7 =
      later (later r5 (save 0 {res = keep_refresh_token "r1" refreshed} refl)) (leave 0 refl) in
    let r8 = later r7 (log_out refl) in
    let r10 = later (later r8 (lock 1 refl refl)) (reload 1 refl) in
    let r11 = later r10 (refresh 1 refreshed refl refl) in
    (_, later r11 (save 1 {res = keep_refresh_token "r1" refreshed} refl))

revived :
    (reach_revived.0.granted ≡ ("r1", refreshed) ∷ ("r1", refreshed) ∷ [])
    × (reach_revived.0.stored
        ≡ some (result_entry "https://issuer" "cli" (keep_refresh_token "r1" refreshed)))
unfolding reach_revived oidc_token_cli.Runner.Process.after_refreshing
    oidc_token_cli.Runner.Process.after_loading oidc_token_cli.Runner.Process.after_reloading
    oidc_token_cli.Runner.Process.after_saving oidc_token_cli.Runner.keep_refresh_token
    oidc_token_cli.Runner.result_entry
revived = (refl, refl)

-- Over the keychain alone two processes take locks of their own, and both refresh.
reach_both :
    (s : System) × Reach "access_token" "https://issuer" "cli"
      (λ i. i)
      IsAnswer
      true
      (start (some stale_entry) 1000000000000)
      s
unfolding oidc_token_cli.Runner.Process.after_loading oidc_token_cli.Runner.Process.after_reloading
reach_both =
    let r2 = later (later here (load 0 refl)) (load 1 refl) in
    let r4 = later (later r2 (lock 0 refl refl)) (lock 1 refl refl) in
    let r6 = later (later r4 (reload 0 refl)) (reload 1 refl) in
    (_, later (later r6 (refresh 0 refreshed refl refl)) (refresh 1 refreshed refl refl))

both : reach_both.0.granted ≡ ("r1", refreshed) ∷ ("r1", refreshed) ∷ []
unfolding reach_both
both = refl

-- An issuer that rotates, with tokens that expire at once.
abbrev short : TokenResult
short = record refreshed { refresh_token = "r2"; expiry = 940000000000 }

abbrev IsRotated : System → TokenResult → Type 0
IsRotated s res = (res ≡ short) × (¬ Listed "r2" (stored_token s.stored ∷ offered s.granted))

-- The first run has the entry refreshed and saves it; the second reads it again, and is about to
-- offer the new refresh token.
reach_rotated :
    (s : System) × Reach "access_token" "https://issuer" "cli" one_lock IsRotated true
      (start (some stale_entry) 1000000000000)
      s
unfolding oidc_token_cli.Runner.Process.after_refreshing oidc_token_cli.Runner.Process.after_loading
    oidc_token_cli.Runner.Process.after_reloading oidc_token_cli.Runner.Process.after_saving
    oidc_token_cli.Runner.keep_refresh_token oidc_token_cli.Runner.result_entry
reach_rotated =
    let r2 = later (later here (load 0 refl)) (load 1 refl) in
    let r4 = later (later r2 (lock 0 refl refl)) (reload 0 refl) in
    let r5 = later r4 (refresh 0 short refl (refl, λ listed. ground (arith, eq_iff "r1" "r2"))) in
    let r7 = later (later r5 (save 0 {res = short} refl)) (leave 0 refl) in
    let r9 = later (later r7 (lock 1 refl refl)) (reload 1 refl) in (_, r9)
