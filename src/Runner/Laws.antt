-- ===== src/Runner/Laws.antt =====
-- What a run of internal/runner/runner.go leaves in the store, over a store that keeps its contract.
use oidc_token_cli.Base.{
  String, ◌≡◌, refl, sym, ap, ◌∙◌, inl, inr, Option, none, some, is_empty, Bool-cases, sentinel,
  join, Result, ok, err, M, arith, pure, map_err, >>=-ok, map_err-ok, ◌>>◌, cache_write,
  login_failed, refresh_failed,
}
use mathlib.Core.Path.{subst₂}
use oidc_token_cli.Output.{TokenResult}
use oidc_token_cli.Cache.{Entry}
use oidc_token_cli.Cache.Lawful.{View, IsLawful}
use oidc_token_cli.Runner.{
  Runner, entry_valid, entry_result, result_entry, check_id_token, keep_refresh_token, store_result,
  accept_refresh, accept_login, refresh_with, after_reload, critical_section, try_refresh,
  after_lock, note_missing, login, or_login, after_load, run,
}

-- The entry holds the tokens of the result.
abbrev pub Agrees : Entry → TokenResult → Type 0
Agrees e res =
    (e.access_token ≡ res.access_token)
    × (e.id_token ≡ res.id_token)
    × (e.refresh_token ≡ res.refresh_token)
    × (e.expiry ≡ res.expiry)

-- The store holds the tokens of the result for the profile.
abbrev pub Holds : {W : Type 0} → View W → W → String → String → TokenResult → Type 0
Holds view w i c res = (e : Entry) × (view w i c ≡ some e) × Agrees e res

module _ {W K : Type 0} (r : Runner W K) (view : View W) (lawful : IsLawful view r.cache) where
  saved :
      (i c : String) (res : TokenResult) (w v : W)
      → r.cache.save (result_entry i c res) w ≡ (ok tt, v)
      → Holds view v i c res
  unfolding result_entry
  saved i c res w v h = (result_entry i c res, lawful.save-ok _ w v h, (refl, refl, refl, refl))

  Holds-same :
      (i c : String) (kept res : TokenResult) (u v : W)
      → ◌≡◌ {A = Result TokenResult × W} (ok kept, u) (ok res, v)
      → Holds view u i c kept
      → Holds view v i c res
  Holds-same i c kept res u v same held =
      subst₂ (λ x t. Holds view x i c t) {x = u} {y = v} {u = kept} {v = res} (ap (λ p. p.1) same)
        (ground arith) held

  store_result-Holds :
      (i c : String) (kept res : TokenResult) (w v : W)
      → store_result r i c kept w ≡ (ok res, v)
      → Holds view v i c res
  unfolding store_result
  store_result-Holds i c kept res w v h =
      let save = r.cache.save (result_entry i c kept) in
      let (_, u, stored, same) =
        >>=-ok (map_err (join (sentinel cache_write)) save) (λ _. pure kept) w h in
      Holds-same i c kept res u v same
        (saved i c kept w u (map_err-ok (join (sentinel cache_write)) save w stored))

  accept_login-Holds :
      (i c : String) (got res : TokenResult) (w v : W)
      → accept_login r i c got w ≡ (ok res, v)
      → Holds view v i c res
  unfolding accept_login
  accept_login-Holds i c got res w v h =
      let (_, w1, _, h1) =
        >>=-ok (check_id_token r got) (λ _. note_missing r got >> store_result r i c got) w h in
      let (_, w2, _, h2) = >>=-ok (note_missing r got) (λ _. store_result r i c got) w1 h1 in
      store_result-Holds i c got res w2 v h2

  login-Holds :
      (i c : String) (w v : W) (res : TokenResult)
      → login r i c w ≡ (ok res, v)
      → Holds view v i c res
  unfolding login
  login-Holds i c w v res h =
      let (got, w1, _, h1) =
        >>=-ok (map_err (join (sentinel login_failed)) r.source.login) (accept_login r i c) w h in
      accept_login-Holds i c got res w1 v h1

  accept_refresh-Holds :
      (i c token : String) (got res : TokenResult) (w v : W)
      → accept_refresh r i c token got w ≡ (ok res, v)
      → Holds view v i c res
  unfolding accept_refresh
  accept_refresh-Holds i c token got res w v h =
      let kept = keep_refresh_token token got in
      let (_, w1, _, h1) = >>=-ok (check_id_token r got) (λ _. store_result r i c kept) w h in
      store_result-Holds i c kept res w1 v h1

  refresh_with-Holds :
      (i c token : String) (w v : W) (res : TokenResult)
      → refresh_with r i c token w ≡ (ok res, v)
      → Holds view v i c res
  unfolding refresh_with
  refresh_with-Holds i c token w v res h = elim (Bool-cases (is_empty token)) [
    | inl unset ↦ absurd (cc (rw unset at h))
    | inr is_set ↦
        let ask = map_err (join (sentinel refresh_failed)) (r.source.refresh token) in
        let (got, w1, _, h1) = >>=-ok ask (accept_refresh r i c token) w (rw is_set at h) in
        accept_refresh-Holds i c token got res w1 v h1
  ]

  reuse-Holds :
      (i c : String) (e : Entry) (w : W) → view w i c ≡ some e → Holds view w i c (entry_result e)
  unfolding entry_result
  reuse-Holds i c e w h = (e, h, (refl, refl, refl, refl))

  pub after_reload-Holds :
      (i c : String) (stale : Entry) (w v : W) (res : TokenResult)
      → after_reload r i c stale (r.cache.load i c w) ≡ (ok res, v)
      → Holds view v i c res
  unfolding after_reload
  after_reload-Holds i c stale w v res h = go (r.cache.load i c w) refl h
    where
      go :
          (x : Result (Option Entry) × W)
          → r.cache.load i c w ≡ x
          → after_reload r i c stale x ≡ (ok res, v)
          → Holds view v i c res
      go (ok none, u) loaded h = refresh_with-Holds i c _ u v res h
      go (err e, u) loaded h = refresh_with-Holds i c _ u v res h
      go (ok (some fresh), u) loaded h = elim (Bool-cases (entry_valid (r.now u) fresh)) [
        | inl valid ↦
            Holds-same i c (entry_result fresh) res u v (rw valid at h)
              (reuse-Holds i c fresh u (lawful.load-ok i c w u (some fresh) loaded).1)
        | inr invalid ↦ refresh_with-Holds i c _ u v res (rw invalid at h)
      ]

  pub critical_section-ok :
      (i c : String) (stale : Entry) (w v : W) (outcome : Result TokenResult)
      → critical_section r i c stale w ≡ (ok outcome, v)
      → after_reload r i c stale (r.cache.load i c w) ≡ (outcome, v)
  unfolding critical_section
  critical_section-ok i c stale w v outcome h = ground arith

  try_refresh-Holds :
      (i c : String) (stale : Entry) (w v : W) (res : TokenResult)
      → try_refresh r i c stale w ≡ (ok res, v)
      → Holds view v i c res
  unfolding try_refresh
  try_refresh-Holds i c stale w v res h = go (r.cache.with_lock i c section w) refl h
    where
      section : M W (Result TokenResult)
      section = critical_section r i c stale

      go :
          (x : Result (Result TokenResult) × W)
          → r.cache.with_lock i c section w ≡ x
          → after_lock r x ≡ (ok res, v)
          → Holds view v i c res
      go (err e, u) locked h = cc
      go (ok outcome, u) locked h =
          let (w', v', ran, kept) = lawful.with_lock-ok i c section w u outcome locked in
          let done = critical_section-ok i c stale w' v' outcome ran in
          let (e, held, agrees) =
            after_reload-Holds i c stale w' v' res (done ∙ ap (λ p. (p.0, v')) h) in
          (e, ap (λ x. view x i c) (sym (ap (λ p. p.1) h)) ∙ kept ∙ held, agrees)

  or_login-Holds :
      (x : Result TokenResult × W) (v : W) (res : TokenResult)
      → or_login r x ≡ (ok res, v)
      → ((u : W) (got : TokenResult)
          → x ≡ (ok got, u)
          → Holds view u r.config.issuer r.config.client_id got)
      → Holds view v r.config.issuer r.config.client_id res
  or_login-Holds (ok got, u) v res h held =
      subst₂ (λ x t. Holds view x r.config.issuer r.config.client_id t) {x = u} {y = v} {u = got}
        {v = res} (ap (λ p. p.1) h) (ground arith) (held u got refl)
  or_login-Holds (err e, u) v res h held = login-Holds _ _ u v res h

  -- Whatever way a run took, if it succeeds then the store holds, for the profile of the
  -- configuration, the very tokens that the run returns. The store keeps its contract.
  pub run-Holds :
      (w v : W) (res : TokenResult)
      → run r w ≡ (ok res, v)
      → Holds view v r.config.issuer r.config.client_id res
  unfolding run after_load
  run-Holds w v res h = go (r.cache.load r.config.issuer r.config.client_id w) refl h
    where
      i : String
      i = r.config.issuer

      c : String
      c = r.config.client_id

      go :
          (x : Result (Option Entry) × W)
          → r.cache.load i c w ≡ x
          → after_load r x ≡ (ok res, v)
          → Holds view v i c res
      go (err e, u) loaded h = cc
      go (ok none, u) loaded h = login-Holds i c u v res h
      go (ok (some entry), u) loaded h = elim (Bool-cases (entry_valid (r.now u) entry)) [
        | inl valid ↦
            Holds-same i c (entry_result entry) res u v (rw valid at h)
              (reuse-Holds i c entry u (lawful.load-ok i c w u (some entry) loaded).1)
        | inr invalid ↦ elim (Bool-cases (is_empty entry.refresh_token)) [
          | inl unset ↦ login-Holds i c u v res (rw (invalid, unset) at h)
          | inr is_set ↦
              or_login-Holds (try_refresh r i c entry u) v res (rw (invalid, is_set) at h)
                (λ x got. try_refresh-Holds i c entry u x got)
        ]
      ]
