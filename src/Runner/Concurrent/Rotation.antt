-- ===== src/Runner/Concurrent/Rotation.antt =====
-- That runs which share a profile never offer a refresh token that was rotated away.
use oidc_token_cli.Base.{ℕ, String, ◌≡◌, true, ◌⊎◌, none, some, Listed}
use oidc_token_cli.Output.{TokenResult}
use oidc_token_cli.Cache.{Entry}
use oidc_token_cli.Runner.Process.{id_token_failure}
use oidc_token_cli.Runner.Concurrent.{System, Step}
use oidc_token_cli.Runner.Concurrent.Exclusion.{OneCritical}
use oidc_token_cli.Runner.Concurrent.Invariant.{IsSaving}
use oidc_token_cli.Runner.Concurrent.Tokens.{used_up, stored_token, IsFresh, Sound}

record Rotation (s : System) : Type 0 where
  exclusive : OneCritical s
  holds : (i : ℕ) → Sound s.granted s.stored (s.phase i)
  unused : (¬ Listed (stored_token s.stored) (used_up s.granted)) ⊎ IsSaving s.phase
  there : (e : Entry) × (s.stored ≡ some e)

module _ (token_type issuer client_id : String) (lock_of : ℕ → ℕ)
    (IsGranted : System → TokenResult → Type 0)
    (answers : (s : System) (res : TokenResult)
      → IsGranted s res
      → IsFresh s res × (id_token_failure token_type res ≡ none)) where
  abbrev CalmStep : System → System → Type 0
  CalmStep = Step token_type issuer client_id lock_of IsGranted true
