-- ===== src/Runner/Concurrent/Tokens.antt =====
-- The refresh tokens that were offered and used up, and the one in the hands of a process.
use oidc_token_cli.Base.{
  true-ne-false, ℕ, String, ◌≡◌, sym, ap, ◌∙◌, true, false, Bool-cases, inl, inr, ◌⊎◌, Option, none,
  some, List, [], ◌∷◌, Listed, is_empty, if◌then◌else◌, if_cases, Result, ok, err,
}
use oidc_token_cli.Output.{TokenResult}
use oidc_token_cli.Cache.{Entry}
use oidc_token_cli.Runner.{entry_valid, keep_refresh_token}
use oidc_token_cli.Runner.Process.{
  Phase, loading, waiting, reloading, refreshing, saving, leaving, logging_in, saving_login, ended,
  after_loading, after_reloading, offer, after_leaving,
}
use oidc_token_cli.Runner.Concurrent.{System, is_critical}

-- The refresh tokens that were offered, and those of them for which the issuer gave a new one.
abbrev pub offered : List (String × TokenResult) → List String
offered [] = []
offered ((token, res) ∷ granted) = token ∷ offered granted

abbrev pub used_up : List (String × TokenResult) → List String
used_up [] = []
used_up ((token, res) ∷ granted) =
    if is_empty res.refresh_token then used_up granted else token ∷ used_up granted

abbrev pub stored_token : Option Entry → String
stored_token none = ""
stored_token (some e) = e.refresh_token

-- The issuer keeps the refresh token, or gives one that is neither stored nor was ever offered.
abbrev pub IsFresh : System → TokenResult → Type 0
IsFresh s res =
    (is_empty res.refresh_token ≡ true)
    ⊎ (¬ Listed res.refresh_token (stored_token s.stored ∷ offered s.granted))

pub used_up-offered :
    (t : String) (granted : List (String × TokenResult))
    → Listed t (used_up granted)
    → Listed t (offered granted)
used_up-offered t [] h = h
used_up-offered t ((token, res) ∷ granted) h = elim (Bool-cases (is_empty res.refresh_token)) [
  | inl kept ↦ inr (used_up-offered t granted (rw (kept, used_up) at h))
  | inr rotated ↦ elim (rw (rotated, used_up) at h) [
    | inl same ↦ inl same
    | inr rest ↦ inr (used_up-offered t granted rest)
  ]
]

-- What is known of the token in the hands of a process.
abbrev pub Sound : List (String × TokenResult) → Option Entry → Phase → Type 0
Sound granted stored (refreshing token) =
    (stored_token stored ≡ token) × (¬ Listed token (used_up granted))
Sound granted stored (saving res) = ¬ Listed res.refresh_token (used_up granted)
Sound granted stored (saving_login res) = ⊥
Sound granted stored p = Unit

module _ (granted : List (String × TokenResult)) (stored : Option Entry) where
  pub after_loading-Sound :
      (now : ℕ) (x : Result (Option Entry)) → Sound granted stored (after_loading now x)
  unfolding after_loading
  after_loading-Sound now (err e) = tt
  after_loading-Sound now (ok none) = tt
  after_loading-Sound now (ok (some entry)) =
      if_cases (Sound granted stored) (entry_valid now entry) _ _ (λ _. tt)
        (λ _.
          if_cases (Sound granted stored) (is_empty entry.refresh_token) _ _ (λ _. tt) (λ _. tt))

  pub after_reloading-Sound :
      (now : ℕ) (stale fresh : Entry)
      → stored ≡ some fresh
      → ¬ Listed (stored_token stored) (used_up granted)
      → Sound granted stored (after_reloading now stale (ok (some fresh)))
  unfolding after_reloading offer
  after_reloading-Sound now stale fresh there unused =
      if_cases (Sound granted stored) (entry_valid now fresh) _ _ (λ _. tt)
        (λ _.
          if_cases (Sound granted stored) (is_empty fresh.refresh_token) _ _ (λ _. tt)
            (λ _. (ap stored_token there, (λ listed. unused (rw (ap stored_token there) listed)))))

  pub after_leaving-Sound : (x : Result TokenResult) → Sound granted stored (after_leaving x)
  unfolding after_leaving
  after_leaving-Sound (ok res) = tt
  after_leaving-Sound (err e) = tt

  pub outside-Sound :
      (before : List (String × TokenResult)) (old : Option Entry) (p : Phase)
      → is_critical p ≡ false
      → Sound before old p
      → Sound granted stored p
  outside-Sound before old loading c sound = tt
  outside-Sound before old (waiting stale) c sound = tt
  outside-Sound before old (reloading stale) c sound = tt
  outside-Sound before old (refreshing token) c sound = absurd (true-ne-false c)
  outside-Sound before old (saving res) c sound = absurd (true-ne-false c)
  outside-Sound before old (leaving x) c sound = tt
  outside-Sound before old logging_in c sound = tt
  outside-Sound before old (saving_login res) c sound = sound
  outside-Sound before old (ended x) c sound = tt

-- The token that is saved after a refresh was not used up, also not by this refresh.
pub keep-unused :
    (token : String) (res : TokenResult) (granted : List (String × TokenResult))
    → ¬ Listed token (used_up granted)
    → (is_empty res.refresh_token ≡ true) ⊎ (¬ Listed res.refresh_token (token ∷ offered granted))
    → ¬ Listed (keep_refresh_token token res).refresh_token (used_up ((token, res) ∷ granted))
unfolding keep_refresh_token
keep-unused token res granted unused fresh = elim (Bool-cases (is_empty res.refresh_token)) [
  | inl kept ↦ rw (kept, keep_refresh_token, used_up) unused
  | inr rotated ↦
      rw (rotated, keep_refresh_token, used_up)
        (λ listed. elim fresh [
          | inl kept ↦ true-ne-false (sym kept ∙ rotated)
          | inr new ↦ elim listed [
            | inl same ↦ new (inl same)
            | inr old ↦ new (inr (used_up-offered res.refresh_token granted old))
          ]
        ])
]
