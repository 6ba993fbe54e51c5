-- ===== src/Tests/Refusals.antt =====
-- A run that asks for an id_token, whose refresh is answered with one that is refused.
use oidc_token_cli.Base.{
  ℕ, String, ◌≡◌, ◌⊎◌, inl, inr, refl, ap, sym, ◌∙◌, false, none, some, message, ok, [], ◌∷◌,
}
use oidc_token_cli.Output.{TokenResult}
use oidc_token_cli.Runner.{result_entry}
use oidc_token_cli.Runner.Process.{ended}
use oidc_token_cli.Runner.Concurrent.{
  System, start, Reach, here, later, load, lock, reload, refresh, leave, log_in, save_login,
}
use oidc_token_cli.Runner.Concurrent.Verified.{GoodStored, GoodResult, only_verified}
use oidc_token_cli.Tests.World.{stale_entry, refreshed}

-- Its id_token failed verification, so the result has none.
abbrev refused : TokenResult
refused = record refreshed {
  access_token = "unverified";
  id_token = "";
  id_token_error = some (message "bad signature");
}

-- The issuer answers with either.
abbrev IsEither : System → TokenResult → Type 0
IsEither s res = (res ≡ refreshed) ⊎ (res ≡ refused)

-- The tokens of the entry at the beginning and those that are not refused.
abbrev Known : String → String → Type 0
Known access id = ((access ≡ "old") × (id ≡ "old-id")) ⊎ ((access ≡ "new") × (id ≡ "new-id"))

answers-Known :
    (s : System) (res : TokenResult)
    → IsEither s res
    → res.id_token_error ≡ none
    → GoodResult Known res
answers-Known s res (inl e) passed = inr (ap (λ r. r.access_token) e, ap (λ r. r.id_token) e)
answers-Known s res (inr e) passed = absurd (cc (sym passed ∙ ap (λ r. r.id_token_error) e))

-- The refresh is refused, so the run logs in.
reach_again :
    (s : System) × Reach "id_token" "https://issuer" "cli"
      (λ i. i)
      IsEither
      false
      (start (some stale_entry) 1000000000000)
      s
unfolding oidc_token_cli.Runner.Process.after_refreshing oidc_token_cli.Runner.Process.after_loading
    oidc_token_cli.Runner.Process.after_reloading oidc_token_cli.Runner.Process.after_leaving
    oidc_token_cli.Runner.Process.after_login
reach_again =
    let r3 = later (later (later here (load 0 refl)) (lock 0 refl refl)) (reload 0 refl) in
    let r5 = later (later r3 (refresh 0 refused refl (inr refl))) (leave 0 refl) in
    let r6 = later r5 (log_in 0 refreshed refl (inl refl)) in
    (_, later r6 (save_login 0 {res = refreshed} refl))

run_ended :
    (reach_again.0.phase 0 ≡ ended (ok refreshed)) × (reach_again.0.granted ≡ ("r1", refused) ∷ [])
unfolding reach_again oidc_token_cli.Runner.Process.after_saving_login
run_ended = (refl, refl)

only_verified_example :
    GoodStored Known reach_again.0.stored
    × ((i : ℕ) (res : TokenResult) → reach_again.0.phase i ≡ ended (ok res) → GoodResult Known res)
only_verified_example =
    only_verified Known "https://issuer" "cli" (λ i. i) IsEither false answers-Known
      (some stale_entry) 1000000000000 (inl (refl, refl)) reach_again.1
