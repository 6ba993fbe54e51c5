-- ===== src/Runner/Concurrent/Lasting.antt =====
-- Tokens that outlast a stretch of time, and what is known of the process that gets or saves them.
use oidc_token_cli.Base.{
  true-ne-false, ℕ, ◌-◌, ◌≤◌, String, ◌≡◌, true, false, ◌&&◌, inl, inr, Option, none, some, List,
  [], length, ltb, is_empty, if_cases, Error, Result, ok, err, arith,
}
use oidc_token_cli.Output.{TokenResult, is_zero}
use oidc_token_cli.Cache.{Entry}
use oidc_token_cli.Runner.{skew, entry_valid, result_entry, keep_refresh_token}
use oidc_token_cli.Runner.Process.{
  Phase, loading, waiting, reloading, refreshing, saving, leaving, logging_in, saving_login, ended,
  after_loading, after_reloading, offer, after_leaving, after_login, refused_or, id_token_failure,
}
use oidc_token_cli.Runner.Concurrent.{update, is_critical}
use oidc_token_cli.Runner.Concurrent.Exclusion.{update-cases}

-- There is a token, and it is not to be refreshed up to the horizon.
abbrev pub Lasts : ℕ → String → String → ℕ → Type 0
Lasts horizon access id expiry =
    ((is_empty access && is_empty id) ≡ false)
    × (is_zero expiry ≡ false)
    × (ltb horizon (expiry - skew) ≡ true)

abbrev pub LastingResult : ℕ → TokenResult → Type 0
LastingResult horizon res = Lasts horizon res.access_token res.id_token res.expiry

abbrev pub LastingEntry : ℕ → Entry → Type 0
LastingEntry horizon e = Lasts horizon e.access_token e.id_token e.expiry

-- A lasting entry is valid at every time up to the horizon.
pub LastingEntry-valid :
    (horizon now : ℕ) (e : Entry)
    → now ≤ horizon
    → LastingEntry horizon e
    → entry_valid now e ≡ true
unfolding entry_valid
LastingEntry-valid horizon now e early (there, dated, late) =
    let before : ltb now (e.expiry - skew) ≡ true = ground arith in
    rw (entry_valid, there, dated) before

pub keep-LastingResult :
    (horizon : ℕ) (token : String) (res : TokenResult)
    → LastingResult horizon res
    → LastingResult horizon (keep_refresh_token token res)
unfolding keep_refresh_token
keep-LastingResult horizon token res lasts =
    if_cases (LastingResult horizon) (is_empty res.refresh_token) _ _ (λ _. lasts) (λ _. lasts)

pub result_entry-LastingEntry :
    (horizon : ℕ) (issuer client_id : String) (res : TokenResult)
    → LastingResult horizon res
    → LastingEntry horizon (result_entry issuer client_id res)
unfolding result_entry
result_entry-LastingEntry horizon issuer client_id res lasts = lasts

-- What is known of a process that is about to refresh or to save.
abbrev pub Fine : ℕ → List (String × TokenResult) → Phase → Type 0
Fine horizon granted (refreshing token) = granted ≡ []
Fine horizon granted (saving res) = LastingResult horizon res × (length granted ≡ 1)
Fine horizon granted (saving_login res) = LastingResult horizon res
Fine horizon granted p = Unit

module _ (horizon : ℕ) (granted : List (String × TokenResult)) where
  pub at-Fine :
      (phase : ℕ → Phase) (i : ℕ) (p : Phase)
      → Fine horizon granted p
      → ((j : ℕ) → Fine horizon granted (phase j))
      → (j : ℕ) → Fine horizon granted (update phase i p j)
  at-Fine phase i p fine others j = elim (update-cases phase i p j) [
    | inl (same, now) ↦ rw now fine
    | inr (other, now) ↦ rw now (others j)
  ]

  pub after_loading-Fine :
      (now : ℕ) (x : Result (Option Entry)) → Fine horizon granted (after_loading now x)
  unfolding after_loading
  after_loading-Fine now (err e) = tt
  after_loading-Fine now (ok none) = tt
  after_loading-Fine now (ok (some entry)) =
      if_cases (Fine horizon granted) (entry_valid now entry) _ _ (λ _. tt)
        (λ _.
          if_cases (Fine horizon granted) (is_empty entry.refresh_token) _ _ (λ _. tt) (λ _. tt))

  offer-Fine : (token : String) → granted ≡ [] → Fine horizon granted (offer token)
  unfolding offer
  offer-Fine token unused =
      if_cases (Fine horizon granted) (is_empty token) _ _ (λ _. tt) (λ _. unused)

  pub after_reloading-Fine :
      (now : ℕ) (stale : Entry) (x : Result (Option Entry))
      → granted ≡ []
      → Fine horizon granted (after_reloading now stale x)
  unfolding after_reloading
  after_reloading-Fine now stale (err e) unused = offer-Fine stale.refresh_token unused
  after_reloading-Fine now stale (ok none) unused = offer-Fine stale.refresh_token unused
  after_reloading-Fine now stale (ok (some fresh)) unused =
      if_cases (Fine horizon granted) (entry_valid now fresh) _ _ (λ _. tt)
        (λ _. offer-Fine fresh.refresh_token unused)

  pub valid-Fine :
      (now : ℕ) (stale fresh : Entry)
      → entry_valid now fresh ≡ true
      → Fine horizon granted (after_reloading now stale (ok (some fresh)))
  unfolding after_reloading
  valid-Fine now stale fresh valid = rw (after_reloading, valid) tt

  pub after_leaving-Fine : (x : Result TokenResult) → Fine horizon granted (after_leaving x)
  unfolding after_leaving
  after_leaving-Fine (ok res) = tt
  after_leaving-Fine (err e) = tt

  pub after_login-Fine :
      (token_type : String) (res : TokenResult)
      → LastingResult horizon res
      → Fine horizon granted (after_login token_type (ok res))
  unfolding after_login
  after_login-Fine token_type res lasts = go (id_token_failure token_type res)
    where
      go :
          (failure : Option Error)
          → Fine horizon granted (refused_or (λ e. ended (err e)) (saving_login res) failure)
      go none = lasts
      go (some e) = tt

  -- A process outside the lock is fine whatever is granted.
  pub outside-Fine :
      (before : List (String × TokenResult)) (p : Phase)
      → is_critical p ≡ false
      → Fine horizon before p
      → Fine horizon granted p
  outside-Fine before loading c fine = tt
  outside-Fine before (waiting stale) c fine = tt
  outside-Fine before (reloading stale) c fine = tt
  outside-Fine before (refreshing token) c fine = absurd (true-ne-false c)
  outside-Fine before (saving res) c fine = absurd (true-ne-false c)
  outside-Fine before (leaving x) c fine = tt
  outside-Fine before logging_in c fine = tt
  outside-Fine before (saving_login res) c fine = fine
  outside-Fine before (ended x) c fine = tt
