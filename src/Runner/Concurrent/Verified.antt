-- ===== src/Runner/Concurrent/Verified.antt =====
-- That runs which ask for an id_token never return or save tokens whose id_token was refused.
use oidc_token_cli.Base.{
  ℕ, String, ◌≡◌, refl, inl, inr, Bool, Option, none, some, is_empty, if_cases, Error, Result, ok,
  err,
}
use oidc_token_cli.Output.{TokenResult}
use oidc_token_cli.Cache.{Entry}
use oidc_token_cli.Runner.{entry_valid, entry_result, result_entry, keep_refresh_token}
use oidc_token_cli.Runner.Process.{
  Phase, reloading, saving, leaving, logging_in, saving_login, ended, after_loading,
  after_reloading, offer, after_refreshing, after_saving, after_leaving, after_login,
  after_saving_login, refused_or, id_token_failure,
}
use oidc_token_cli.Runner.Concurrent.{
  System, update, start, Step, Reach, tick, load, load_fails, lock, lock_fails, reload,
  reload_fails, refresh, refresh_fails, save, save_fails, leave, log_in, login_fails, save_login,
  save_login_fails, log_out, killed, here, later,
}
use oidc_token_cli.Runner.Concurrent.Exclusion.{update-cases}

-- What checkIDToken lets pass under --token-type=id_token has an id_token that was not refused.
let_pass : (res : TokenResult) → id_token_failure "id_token" res ≡ none → res.id_token_error ≡ none
unfolding id_token_failure
let_pass res h = go res.id_token_error refl
  where
    go : (o : Option Error) → res.id_token_error ≡ o → res.id_token_error ≡ none
    go none e = e
    go (some x) e = absurd (cc (rw (e, id_token_failure) at h))

-- `Good access id`: these tokens are in the collection of those that may be returned.
module _ (Good : String → String → Type 0) where
  abbrev pub GoodResult : TokenResult → Type 0
  GoodResult res = Good res.access_token res.id_token

  abbrev pub GoodStored : Option Entry → Type 0
  GoodStored none = Unit
  GoodStored (some e) = Good e.access_token e.id_token

  abbrev GoodLoaded : Result (Option Entry) → Type 0
  GoodLoaded (ok o) = GoodStored o
  GoodLoaded (err e) = Unit

  -- The tokens that a process is about to save or to return.
  abbrev GoodPhase : Phase → Type 0
  GoodPhase (saving res) = GoodResult res
  GoodPhase (leaving (ok res)) = GoodResult res
  GoodPhase (saving_login res) = GoodResult res
  GoodPhase (ended (ok res)) = GoodResult res
  GoodPhase p = Unit

  record AllGood (s : System) : Type 0 where
    held : GoodStored s.stored
    phases : (i : ℕ) → GoodPhase (s.phase i)

  moved :
      (s t : System) (i : ℕ) (p : Phase)
      → t.phase ≡ update s.phase i p
      → GoodStored t.stored
      → GoodPhase p
      → AllGood s
      → AllGood t
  moved s t i p phase held good inv = record {
    held = held;
    phases = λ j. rw phase (elim (update-cases s.phase i p j) [
      | inl (same, now) ↦ rw now good
      | inr (other, now) ↦ rw now (inv.phases j)
    ]);
  }

  after_loading-Good :
      (now : ℕ) (x : Result (Option Entry)) → GoodLoaded x → GoodPhase (after_loading now x)
  unfolding after_loading entry_result
  after_loading-Good now (err e) good = tt
  after_loading-Good now (ok none) good = tt
  after_loading-Good now (ok (some entry)) good =
      if_cases GoodPhase (entry_valid now entry) _ _ (λ _. good)
        (λ _. if_cases GoodPhase (is_empty entry.refresh_token) _ _ (λ _. tt) (λ _. tt))

  offer-Good : (token : String) → GoodPhase (offer token)
  unfolding offer
  offer-Good token = if_cases GoodPhase (is_empty token) _ _ (λ _. tt) (λ _. tt)

  after_reloading-Good :
      (now : ℕ) (stale : Entry) (x : Result (Option Entry))
      → GoodLoaded x
      → GoodPhase (after_reloading now stale x)
  unfolding after_reloading entry_result
  after_reloading-Good now stale (err e) good = offer-Good stale.refresh_token
  after_reloading-Good now stale (ok none) good = offer-Good stale.refresh_token
  after_reloading-Good now stale (ok (some fresh)) good =
      if_cases GoodPhase (entry_valid now fresh) _ _ (λ _. good)
        (λ _. offer-Good fresh.refresh_token)

  keep_refresh_token-Good :
      (token : String) (res : TokenResult)
      → GoodResult res
      → GoodResult (keep_refresh_token token res)
  unfolding keep_refresh_token
  keep_refresh_token-Good token res good =
      if_cases GoodResult (is_empty res.refresh_token) _ _ (λ _. good) (λ _. good)

  after_refreshing-Good :
      (token : String) (res : TokenResult)
      → (res.id_token_error ≡ none → GoodResult res)
      → GoodPhase (after_refreshing "id_token" token (ok res))
  unfolding after_refreshing
  after_refreshing-Good token res good =
      go (id_token_failure "id_token" res)
        (λ passed. keep_refresh_token-Good token res (good (let_pass res passed)))
    where
      go :
          (failure : Option Error)
          → (failure ≡ none → GoodResult (keep_refresh_token token res))
          → GoodPhase
              (refused_or (λ e. leaving (err e)) (saving (keep_refresh_token token res)) failure)
      go none good = good refl
      go (some e) good = tt

  after_login-Good :
      (res : TokenResult)
      → (res.id_token_error ≡ none → GoodResult res)
      → GoodPhase (after_login "id_token" (ok res))
  unfolding after_login
  after_login-Good res good =
      go (id_token_failure "id_token" res) (λ passed. good (let_pass res passed))
    where
      go :
          (failure : Option Error)
          → (failure ≡ none → GoodResult res)
          → GoodPhase (refused_or (λ e. ended (err e)) (saving_login res) failure)
      go none good = good refl
      go (some e) good = tt

  after_leaving-Good :
      (x : Result TokenResult) → GoodPhase (leaving x) → GoodPhase (after_leaving x)
  unfolding after_leaving
  after_leaving-Good (ok res) good = good
  after_leaving-Good (err e) good = tt

  module _ (issuer client_id : String) (lock_of : ℕ → ℕ) (IsGranted : System → TokenResult → Type 0)
      (calm : Bool)
      (verified : (s : System) (res : TokenResult)
        → IsGranted s res
        → res.id_token_error ≡ none
        → GoodResult res) where
    Step-AllGood :
        {s t : System}
        → Step "id_token" issuer client_id lock_of IsGranted calm s t
        → AllGood s
        → AllGood t
    unfolding after_refreshing after_saving after_login after_saving_login result_entry
    Step-AllGood tick inv = record { held = inv.held; phases = inv.phases }
    Step-AllGood {s} {t} (load i e) inv =
        moved s t i _ refl inv.held (after_loading-Good s.time (ok s.stored) inv.held) inv
    Step-AllGood {s} {t} (load_fails i f e) inv =
        moved s t i _ refl inv.held (after_loading-Good s.time (err f) tt) inv
    Step-AllGood {s} {t} (lock i {stale} e free) inv =
        moved s t i (reloading stale) refl inv.held tt inv
    Step-AllGood {s} {t} (lock_fails i e) inv = moved s t i logging_in refl inv.held tt inv
    Step-AllGood {s} {t} (reload i {stale} e) inv =
        moved s t i _ refl inv.held (after_reloading-Good s.time stale (ok s.stored) inv.held) inv
    Step-AllGood {s} {t} (reload_fails i {stale} f d e) inv =
        moved s t i _ refl inv.held (after_reloading-Good s.time stale (err f) tt) inv
    Step-AllGood {s} {t} (refresh i {token} res e g) inv =
        moved s t i _ refl inv.held (after_refreshing-Good token res (verified s res g)) inv
    Step-AllGood {s} {t} (refresh_fails i f e) inv = moved s t i _ refl inv.held tt inv
    Step-AllGood {s} {t} (save i {res} e) inv =
        let good : GoodResult res = rw e at (inv.phases i) in
        moved s t i (leaving (ok res)) refl good good inv
    Step-AllGood {s} {t} (save_fails i f d e) inv = moved s t i _ refl inv.held tt inv
    Step-AllGood {s} {t} (leave i {x} e) inv =
        moved s t i _ refl inv.held (after_leaving-Good x (rw e at (inv.phases i))) inv
    Step-AllGood {s} {t} (log_in i res e g) inv =
        moved s t i _ refl inv.held (after_login-Good res (verified s res g)) inv
    Step-AllGood {s} {t} (login_fails i f e) inv = moved s t i _ refl inv.held tt inv
    Step-AllGood {s} {t} (save_login i {res} e) inv =
        let good : GoodResult res = rw e at (inv.phases i) in
        moved s t i (ended (ok res)) refl good good inv
    Step-AllGood {s} {t} (save_login_fails i f e) inv = moved s t i _ refl inv.held tt inv
    Step-AllGood (log_out d) inv = record { held = tt; phases = inv.phases }
    Step-AllGood {s} {t} (killed i f d c) inv = moved s t i (ended (err f)) refl inv.held tt inv

    Reach-AllGood :
        {s t : System}
        → Reach "id_token" issuer client_id lock_of IsGranted calm s t
        → AllGood s
        → AllGood t
    Reach-AllGood here inv = inv
    Reach-AllGood (later r st) inv = Step-AllGood st (Reach-AllGood r inv)

    -- Take any collection of pairs of an access token and an id_token that has in it those of every
    -- answer of the issuer whose id_token was not refused, and those of the entry that the profile
    -- begins with, if any. Where all runs that share the profile ask for an id_token: however they
    -- interleave, whichever locks they take, whatever fails, dies under a lock or logs out, the
    -- tokens that a run returns are in the collection, and so are those that the store holds.
    pub only_verified :
        (stored : Option Entry) (time : ℕ) {s : System}
        → GoodStored stored
        → Reach "id_token" issuer client_id lock_of IsGranted calm (start stored time) s
        → GoodStored s.stored
          × ((i : ℕ) (res : TokenResult) → s.phase i ≡ ended (ok res) → GoodResult res)
    only_verified stored time good r =
        let inv = Reach-AllGood r (record { held = good; phases = λ i. tt }) in
        (inv.held, λ i res e. rw e at (inv.phases i))
