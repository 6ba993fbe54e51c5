-- ===== src/Runner/Process/Laws.antt =====
-- That the operations of a run, one after another, are the run.
use oidc_token_cli.Base.{
  String, ◌≡◌, refl, sym, ap, ◌∙◌, Bool, true, false, inl, inr, Option, none, some, Bool-cases,
  ◌==◌, is_empty, if◌then◌else◌, Result, ok, err, M, continue, ◌>>◌, on_err, pure, login_failed,
  Error, sentinel, join, cache_write, refresh_failed, id_token_invalid,
}
use oidc_token_cli.Output.{TokenResult, token_type_id_token}
use oidc_token_cli.Cache.{Entry}
use oidc_token_cli.Runner.{
  Runner, run, critical_section, try_refresh, login, store_result, accept_refresh, check_id_token,
  keep_refresh_token, refresh_with, after_reload, entry_valid, accept_login, note_missing, or_login,
  after_lock, after_load,
}
use oidc_token_cli.Runner.Process.{
  waiting, logging_in, saving_login, ended, after_loading, after_saving_login, after_login,
  after_leaving, unlocked, refreshed, ended_with, noted, leaving, saving, after_saving,
  after_refreshing, id_token_failure, refused_or, offer, after_reloading, act, acts, left_with,
  save, warned, alone, locked,
}

module _ {W K : Type 0} (r : Runner W K) where
  abbrev issuer : String
  issuer = r.config.issuer

  abbrev client_id : String
  client_id = r.config.client_id

  -- The outcome of the critical section, as the function under the lock leaves it.
  abbrev settled : Result TokenResult × W → Result (Result TokenResult) × W
  settled (x, w) = (ok x, w)

  saved :
      (res : TokenResult) (x : Result (Unit {0}) × W)
      → left_with r (after_saving res x.0, x.1)
        ≡ settled (continue (on_err (join (sentinel cache_write)) x) (λ _. pure res))
  unfolding after_saving
  saved res (ok _, v) = refl
  saved res (err e, v) = refl

  saving_lem :
      (res : TokenResult) (w : W)
      → left_with r (act r (saving res) w) ≡ settled (store_result r issuer client_id res w)
  unfolding act store_result
  saving_lem res w = saved res (save r res w)

  -- What checkIDToken answers.
  abbrev Answers : Result (Unit {0}) × W → Option Error → Type 0
  Answers x none = x ≡ (ok tt, x.1)
  Answers x (some e) = x ≡ (err e, x.1)

  abbrev Checks : TokenResult → W → Option Error → Type 0
  Checks res v failure = Answers (check_id_token r res v) failure

  by_token_type :
      (strict : Bool) (e : Error) (v u : W)
      → Answers (if strict then (err e, v) else (ok tt, u)) (if strict then some e else none)
  by_token_type true e v u = refl
  by_token_type false e v u = refl

  check_id_token-Checks :
      (res : TokenResult) (v : W) → Checks res v (id_token_failure r.config.token_type res)
  unfolding check_id_token id_token_failure
  check_id_token-Checks res v = go res.id_token_error refl
    where
      go :
          (failure : Option Error)
          → res.id_token_error ≡ failure
          → Checks res v (id_token_failure r.config.token_type res)
      go none e = rw e refl
      go (some f) e =
          rw (check_id_token, id_token_failure, e)
            (by_token_type (r.config.token_type == token_type_id_token)
              (join (sentinel id_token_invalid) f) v _)

  checked :
      (token : String) (res : TokenResult) (v : W) (failure : Option Error)
      → Checks res v failure
      → left_with r (
          act r
            (refused_or (λ e. leaving (err e)) (saving (keep_refresh_token token res)) failure)
            (check_id_token r res v).1)
        ≡ settled (accept_refresh r issuer client_id token res v)
  unfolding act accept_refresh
  checked token res v none e =
      saving_lem (keep_refresh_token token res) (check_id_token r res v).1
      ∙ ap settled (
          sym (
            ap
              (λ x.
                continue x (λ _. store_result r issuer client_id (keep_refresh_token token res)))
              e))
  checked token res v (some f) e = ap settled (
      sym (
        ap (λ x. continue x (λ _. store_result r issuer client_id (keep_refresh_token token res)))
          e))

  refreshed_with :
      (token : String) (x : Result TokenResult × W)
      → left_with r (act r (after_refreshing r.config.token_type token x.0) (warned r x.0 x.1))
        ≡ settled (
            continue
              (on_err (join (sentinel refresh_failed)) x)
              (accept_refresh r issuer client_id token))
  unfolding act after_refreshing
  refreshed_with token (ok res, v) =
      checked token res v (id_token_failure r.config.token_type res) (check_id_token-Checks res v)
  refreshed_with token (err e, v) = refl

  offer_lem :
      (token : String) (w : W)
      → left_with r (acts r 2 (offer token, w)) ≡ settled (refresh_with r issuer client_id token w)
  unfolding offer act refresh_with
  offer_lem token w = elim (Bool-cases (is_empty token)) [
    | inl missing ↦ rw (missing, offer, refresh_with) refl
    | inr there ↦ rw (there, offer, refresh_with) (refreshed_with token (r.source.refresh token w))
  ]

  reloaded :
      (stale : Entry) (x : Result (Option Entry) × W)
      → left_with r (acts r 2 (after_reloading (r.now x.1) stale x.0, x.1))
        ≡ settled (after_reload r issuer client_id stale x)
  unfolding after_reloading act after_reload
  reloaded stale (err e, v) = offer_lem stale.refresh_token v
  reloaded stale (ok none, v) = offer_lem stale.refresh_token v
  reloaded stale (ok (some fresh), v) = elim (Bool-cases (entry_valid (r.now v) fresh)) [
    | inl valid ↦ rw (valid, after_reload, after_reloading) refl
    | inr stale' ↦ rw (stale', after_reload, after_reloading) (offer_lem fresh.refresh_token v)
  ]

  locked-critical_section :
      (stale : Entry) (w : W) → locked r stale w ≡ critical_section r issuer client_id stale w
  unfolding locked critical_section act
  locked-critical_section stale w = reloaded stale (r.cache.load issuer client_id w)

  saved_login :
      (res : TokenResult) (x : Result (Unit {0}) × W)
      → ended_with r (after_saving_login res x.0, x.1)
        ≡ continue (on_err (join (sentinel cache_write)) x) (λ _. pure res)
  unfolding after_saving_login
  saved_login res (ok _, v) = refl
  saved_login res (err e, v) = refl

  abbrev after_check : TokenResult → Unit {0} → M W TokenResult
  after_check res _ = note_missing r res >> store_result r issuer client_id res

  -- What is left of a login whose id_token was checked.
  checked_login :
      (res : TokenResult) (v : W) (failure : Option Error)
      → Checks res v failure
      → (let p = refused_or (λ e. ended (err e)) (saving_login res) failure in
          ended_with r (act r p (noted r p (check_id_token r res v).1)))
        ≡ accept_login r issuer client_id res v
  unfolding act accept_login store_result
  checked_login res v none e =
      saved_login res (save r res (note_missing r res (check_id_token r res v).1).1)
      ∙ sym (ap (λ x. continue x (after_check res)) e)
  checked_login res v (some f) e = sym (ap (λ x. continue x (after_check res)) e)

  logged_in :
      (x : Result TokenResult × W)
      → (let p = after_login r.config.token_type x.0 in
          ended_with r (act r p (noted r p (warned r x.0 x.1))))
        ≡ continue (on_err (join (sentinel login_failed)) x) (accept_login r issuer client_id)
  unfolding act after_login
  logged_in (err e, v) = refl
  logged_in (ok res, v) =
      checked_login res v (id_token_failure r.config.token_type res) (check_id_token-Checks res v)

  login_lem : (w : W) → ended_with r (acts r 2 (logging_in, w)) ≡ login r issuer client_id w
  unfolding act login
  login_lem w = logged_in (r.source.login w)

  left_unlocked :
      (x : Result (Result TokenResult) × W)
      → ended_with r (acts r 2 (unlocked r x)) ≡ or_login r (after_lock r x)
  unfolding act after_leaving
  left_unlocked (ok (ok res), w) = refl
  left_unlocked (ok (err e), w) = login_lem w
  left_unlocked (err e, w) = login_lem w

  waited :
      (stale : Entry) (w : W)
      → ended_with r (acts r 2 (refreshed r (waiting stale, w)))
        ≡ or_login r (try_refresh r issuer client_id stale w)
  unfolding try_refresh
  waited stale w =
      left_unlocked (r.cache.with_lock issuer client_id (locked r stale) w)
      ∙ ap (λ f. or_login r (after_lock r (r.cache.with_lock issuer client_id f w)))
          (λ i v. locked-critical_section stale v i)

  loaded :
      (x : Result (Option Entry) × W)
      → ended_with r (acts r 2 (refreshed r (after_loading (r.now x.1) x.0, x.1))) ≡ after_load r x
  unfolding after_loading act after_load
  loaded (err e, v) = refl
  loaded (ok none, v) = login_lem v
  loaded (ok (some entry), v) = elim (Bool-cases (entry_valid (r.now v) entry)) [
    | inl valid ↦ rw (valid, after_load, after_loading) refl
    | inr stale ↦ elim (Bool-cases (is_empty entry.refresh_token)) [
      | inl bare ↦ rw (stale, bare, after_load, after_loading) (login_lem v)
      | inr there ↦ rw (stale, there, after_load, after_loading) (waited entry v)
    ]
  ]

  -- For every store, source and state: the operations of a run one after another, with the three
  -- under the lock as the function that the lock runs, give what the run gives.
  pub alone-run : (w : W) → alone r w ≡ run r w
  unfolding alone run act
  alone-run w = loaded (r.cache.load issuer client_id w)
