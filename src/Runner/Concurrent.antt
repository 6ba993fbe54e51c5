-- ===== src/Runner/Concurrent.antt =====
-- Runs of internal/runner/runner.go that share one profile, in any interleaving of their
-- operations: the store holds one entry, every lock has one holder at most, the issuer answers as
-- it is allowed to, and time goes on. A process that has not begun is `loading`. Which lock a run
-- takes depends on its store: the lock file of the profile with the file store or the chain, and
-- the mutex of its own operating-system process with the keychain alone.
pub mod Exclusion
pub mod Lasting
pub mod Invariant
pub mod Once
pub mod Tokens
pub mod Rotation
pub mod Verified
use oidc_token_cli.Base.{
  ℕ, suc, String, ◌≡◌, Bool, true, false, Option, none, some, List, [], ◌∷◌, nat_eq, if◌then◌else◌,
  Error, Result, ok, err,
}
use oidc_token_cli.Output.{TokenResult}
use oidc_token_cli.Cache.{Entry}
use oidc_token_cli.Runner.{result_entry}
use oidc_token_cli.Runner.Process.{
  Phase, loading, waiting, reloading, refreshing, saving, leaving, logging_in, saving_login, ended,
  after_loading, after_reloading, after_refreshing, after_saving, after_leaving, after_login,
  after_saving_login,
}

pub record System : Type 0 where
  pub phase : ℕ → Phase
  pub stored : Option Entry
  -- of each lock
  pub holder : ℕ → Option ℕ
  pub time : ℕ
  -- what the issuer has granted: for a refresh token, and at a login
  pub granted : List (String × TokenResult)
  pub logins : List TokenResult

abbrev pub update : {A : Type 0} → (ℕ → A) → ℕ → A → ℕ → A
update f i p j = if nat_eq i j then p else f j

abbrev pub at : System → ℕ → Phase → System
at s i p = record s { phase = update s.phase i p }

-- Every process is about to begin.
abbrev pub start : Option Entry → ℕ → System
start stored time = record {
  phase = λ i. loading;
  stored = stored;
  holder = λ l. none;
  time = time;
  granted = [];
  logins = [];
}

-- Between the return of WithLock's acquisition and the release.
abbrev pub is_critical : Phase → Bool
is_critical (reloading stale) = true
is_critical (refreshing token) = true
is_critical (saving res) = true
is_critical (leaving x) = true
is_critical p = false

-- `lock_of i`: the lock that run `i` takes; runs with the same lock exclude each other.
-- `IsGranted s res`: the issuer may answer `res` in `s`. In a calm system no Load or Save under
-- the lock fails, no process dies under the lock, and nobody logs out.
module _ (token_type issuer client_id : String) (lock_of : ℕ → ℕ)
    (IsGranted : System → TokenResult → Type 0) (calm : Bool) where
  pub data Step (s : System) : System → Type 0 where
    tick : Step s (record s { time = suc s.time })
    load : (i : ℕ) → s.phase i ≡ loading → Step s (at s i (after_loading s.time (ok s.stored)))
    load_fails :
        (i : ℕ) (e : Error) → s.phase i ≡ loading → Step s (at s i (after_loading s.time (err e)))
    lock :
        (i : ℕ) {stale : Entry}
        → s.phase i ≡ waiting stale
        → s.holder (lock_of i) ≡ none
        → Step s
            (record (at s i (reloading stale)) { holder = update s.holder (lock_of i) (some i) })
    lock_fails : (i : ℕ) {stale : Entry} → s.phase i ≡ waiting stale → Step s (at s i logging_in)
    reload :
        (i : ℕ) {stale : Entry}
        → s.phase i ≡ reloading stale
        → Step s (at s i (after_reloading s.time stale (ok s.stored)))
    reload_fails :
        (i : ℕ) {stale : Entry} (e : Error)
        → calm ≡ false
        → s.phase i ≡ reloading stale
        → Step s (at s i (after_reloading s.time stale (err e)))
    refresh :
        (i : ℕ) {token : String} (res : TokenResult)
        → s.phase i ≡ refreshing token
        → IsGranted s res
        → Step s (record (at s i (after_refreshing token_type token (ok res))) {
          granted = (token, res) ∷ s.granted;
        })
    refresh_fails :
        (i : ℕ) {token : String} (e : Error)
        → s.phase i ≡ refreshing token
        → Step s (at s i (after_refreshing token_type token (err e)))
    save :
        (i : ℕ) {res : TokenResult}
        → s.phase i ≡ saving res
        → Step s (record (at s i (after_saving res (ok tt))) {
          stored = some (result_entry issuer client_id res);
        })
    save_fails :
        (i : ℕ) {res : TokenResult} (e : Error)
        → calm ≡ false
        → s.phase i ≡ saving res
        → Step s (at s i (after_saving res (err e)))
    leave :
        (i : ℕ) {x : Result TokenResult}
        → s.phase i ≡ leaving x
        → Step s (record (at s i (after_leaving x)) { holder = update s.holder (lock_of i) none })
    log_in :
        (i : ℕ) (res : TokenResult)
        → s.phase i ≡ logging_in
        → IsGranted s res
        → Step s (record (at s i (after_login token_type (ok res))) { logins = res ∷ s.logins })
    login_fails :
        (i : ℕ) (e : Error)
        → s.phase i ≡ logging_in
        → Step s (at s i (after_login token_type (err e)))
    save_login :
        (i : ℕ) {res : TokenResult}
        → s.phase i ≡ saving_login res
        → Step s (record (at s i (after_saving_login res (ok tt))) {
          stored = some (result_entry issuer client_id res);
        })
    save_login_fails :
        (i : ℕ) {res : TokenResult} (e : Error)
        → s.phase i ≡ saving_login res
        → Step s (at s i (after_saving_login res (err e)))
    -- Another process logs out.
    log_out : calm ≡ false → Step s (record s { stored = none })
    -- A process dies under the lock; the operating system releases it.
    killed :
        (i : ℕ) (e : Error)
        → calm ≡ false
        → is_critical (s.phase i) ≡ true
        → Step s (record (at s i (ended (err e))) { holder = update s.holder (lock_of i) none })

  pub data Reach (s : System) : System → Type 0 where
    here : Reach s s
    later : {t u : System} → Reach s t → Step t u → Reach s u
