-- ===== src/Runner/Concurrent/Invariant.antt =====
-- What holds between runs that share a profile, while at most one refresh has been granted.
use oidc_token_cli.Base.{
  true-ne-false, ℕ, ◌≤◌, String, ◌≡◌, refl, sym, ap, ◌∙◌, Bool, true, false, Bool-cases, inl, inr,
  ◌⊎◌, Option, none, some, List, [], length, ok,
}
use oidc_token_cli.Output.{TokenResult}
use oidc_token_cli.Cache.{Entry}
use oidc_token_cli.Runner.{keep_refresh_token}
use oidc_token_cli.Runner.Process.{
  Phase, reloading, saving, after_reloading, after_refreshing, id_token_failure,
}
use oidc_token_cli.Runner.Concurrent.{System, update, is_critical}
use oidc_token_cli.Runner.Concurrent.Exclusion.{OneCritical, update-cases}
use oidc_token_cli.Runner.Concurrent.Lasting.{
  LastingResult, LastingEntry, LastingEntry-valid, keep-LastingResult, Fine, at-Fine,
  after_reloading-Fine, valid-Fine, outside-Fine,
}

-- Either nothing was refreshed, or one refresh was granted and its tokens, or later ones, are in
-- the store or about to be saved.
abbrev pub HasLasting : ℕ → Option Entry → Type 0
HasLasting horizon stored = (e : Entry) × (stored ≡ some e) × LastingEntry horizon e

abbrev pub IsSaving : (ℕ → Phase) → Type 0
IsSaving phase = (i : ℕ) × (res : TokenResult) × (phase i ≡ saving res)

abbrev pub AtMostOnce : ℕ → List (String × TokenResult) → Option Entry → (ℕ → Phase) → Type 0
AtMostOnce horizon granted stored phase =
    (granted ≡ []) ⊎ ((length granted ≡ 1) × (HasLasting horizon stored ⊎ IsSaving phase))

abbrev pub is_saving : Phase → Bool
is_saving (saving res) = true
is_saving p = false

-- A process that is not saving moves on.
at-AtMostOnce :
    (horizon : ℕ) (granted : List (String × TokenResult)) (stored : Option Entry)
    (phase : ℕ → Phase) (i : ℕ) (p : Phase)
    → is_saving (phase i) ≡ false
    → AtMostOnce horizon granted stored phase
    → AtMostOnce horizon granted stored (update phase i p)
at-AtMostOnce horizon granted stored phase i p e (inl unused) = inl unused
at-AtMostOnce horizon granted stored phase i p e (inr (one, inl lasting)) = inr (one, inl lasting)
at-AtMostOnce horizon granted stored phase i p e (inr (one, inr (j, res, at_j))) = inr (
  one,
  inr (
    j,
    res,
    elim (update-cases phase i p j) [
      | inl (same, now) ↦ absurd (true-ne-false (sym (ap is_saving (ap phase same ∙ at_j)) ∙ e))
      | inr (other, now) ↦ now ∙ at_j
    ],
  ),
)

pub record Once (horizon : ℕ) (s : System) : Type 0 where
  pub exclusive : OneCritical s
  pub fine : (i : ℕ) → Fine horizon s.granted (s.phase i)
  pub at_most : AtMostOnce horizon s.granted s.stored s.phase

module _ (horizon : ℕ) where
  -- A step of one process that leaves the store and what is granted.
  pub quiet :
      (s t : System) (i : ℕ) (p : Phase)
      → OneCritical t
      → t.granted ≡ s.granted
      → t.stored ≡ s.stored
      → t.phase ≡ update s.phase i p
      → Fine horizon s.granted p
      → is_saving (s.phase i) ≡ false
      → Once horizon s
      → Once horizon t
  quiet s t i p exclusive granted stored phase fine e inv = record {
    exclusive = exclusive;
    fine = λ j. rw (granted, phase) (at-Fine horizon s.granted s.phase i p fine inv.fine j);
    at_most =
        rw (granted, stored, phase)
          (at-AtMostOnce horizon s.granted s.stored s.phase i p e inv.at_most);
  }

  -- The holder of the lock reads the store again.
  pub reload-Fine :
      (s : System) (i : ℕ) (stale : Entry)
      → s.phase i ≡ reloading stale
      → s.time ≤ horizon
      → Once horizon s
      → Fine horizon s.granted (after_reloading s.time stale (ok s.stored))
  reload-Fine s i stale e early inv = elim inv.at_most [
    | inl unused ↦ after_reloading-Fine horizon s.granted s.time stale (ok s.stored) unused
    | inr (one, inl (entry, there, lasting)) ↦ rw there (
        valid-Fine horizon s.granted s.time stale entry
          (LastingEntry-valid horizon s.time entry early lasting))
    | inr (one, inr (j, res, at_j)) ↦
        let same : i ≡ j = inv.exclusive i j (ap is_critical e) (ap is_critical at_j) in
        absurd (true-ne-false (sym (ap is_saving (ap s.phase same ∙ at_j)) ∙ ap is_saving e))
  ]

  -- The issuer grants a refresh.
  pub refresh-Fine :
      (token_type : String) (granted : List (String × TokenResult)) (token : String)
      (res : TokenResult)
      → LastingResult horizon res
      → id_token_failure token_type res ≡ none
      → length granted ≡ 1
      → Fine horizon granted (after_refreshing token_type token (ok res))
  unfolding after_refreshing
  refresh-Fine token_type granted token res lasts verified one =
      rw (after_refreshing, verified) (keep-LastingResult horizon token res lasts, one)

  pub refresh-saving :
      (token_type token : String) (res : TokenResult)
      → id_token_failure token_type res ≡ none
      → after_refreshing token_type token (ok res) ≡ saving (keep_refresh_token token res)
  unfolding after_refreshing
  refresh-saving token_type token res verified = rw (after_refreshing, verified) refl

  pub others-Fine :
      (s : System) (i : ℕ) (p : Phase) (granted : List (String × TokenResult))
      → is_critical (s.phase i) ≡ true
      → Fine horizon granted p
      → Once horizon s
      → (j : ℕ) → Fine horizon granted (update s.phase i p j)
  others-Fine s i p granted c fine inv j = elim (update-cases s.phase i p j) [
    | inl (same, now) ↦ rw now fine
    | inr (other, now) ↦ elim (Bool-cases (is_critical (s.phase j))) [
      | inl d ↦ absurd (other (inv.exclusive i j c d))
      | inr d ↦ rw now (outside-Fine horizon granted s.granted (s.phase j) d (inv.fine j))
    ]
  ]

  pub stored-AtMostOnce :
      (granted : List (String × TokenResult)) (stored : Option Entry) (phase after : ℕ → Phase)
      (e : Entry)
      → LastingEntry horizon e
      → AtMostOnce horizon granted stored phase
      → AtMostOnce horizon granted (some e) after
  stored-AtMostOnce granted stored phase after e lasting (inl unused) = inl unused
  stored-AtMostOnce granted stored phase after e lasting (inr (one, _)) =
      inr (one, inl (e, refl, lasting))
