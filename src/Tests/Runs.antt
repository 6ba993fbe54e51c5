-- ===== src/Tests/Runs.antt =====
-- Runs over the store in memory: a silent refresh, and what follows it.
use oidc_token_cli.Base.{
  ◌≡◌, refl, true, false, none, some, [], ◌∷◌, Error, message, sentinel, join, login_failed,
  backend_unavailable, Result, ok, err, wrap, if◌then◌else◌, is_error,
}
use oidc_token_cli.Output.{TokenResult}
use oidc_token_cli.Cache.{Store}
use oidc_token_cli.Cache.Lawful.{View}
use oidc_token_cli.Cache.Chain.{Backend, ChainStore, chain}
use oidc_token_cli.Cache.Chain.Laws.{Clears, Spares, IsCleared, chain-delete-IsCleared}
use oidc_token_cli.Runner.{TokenSource, run, entry_valid, result_entry, critical_section}
use oidc_token_cli.Runner.Laws.{Holds, run-Holds}
use oidc_token_cli.Runner.Reuse.{reused, with_source, run_twice}
use oidc_token_cli.Runner.Failure.{IsRunFailure, run-IsRunFailure}
use oidc_token_cli.Tests.World.{
  World, set, view, memory_store, memory_store-IsLawful, stale_entry, refreshed, runner,
}

abbrev pub before : World
before = set "https://issuer" "cli" (some stale_entry) (λ i c. none)

-- The result keeps the refresh token that the issuer did not rotate.
abbrev pub kept : TokenResult
kept = record refreshed { refresh_token = "r1" }

abbrev pub after : World
after = set "https://issuer" "cli" (some (result_entry "https://issuer" "cli" kept)) before

ran : run runner before ≡ (ok kept, after)
unfolding run result_entry
ran = refl

run-Holds_example : Holds view after "https://issuer" "cli" kept
run-Holds_example = run-Holds runner view memory_store-IsLawful before after kept ran

-- A source that never answers.
abbrev silent : TokenSource World
silent = record {
  refresh = λ token w. (err (message "unreachable"), w);
  login = λ w. (err (message "unreachable"), w);
}

still_valid : entry_valid 1000000000000 (result_entry "https://issuer" "cli" kept) ≡ true
unfolding entry_valid result_entry
still_valid = refl

run_twice_example :
    run (with_source runner silent) after ≡ (ok (reused "https://issuer" "cli" kept), after)
run_twice_example =
    run_twice runner view memory_store-IsLawful silent before after after kept
      (some (result_entry "https://issuer" "cli" kept)) ran refl still_valid

refreshed_once :
    critical_section runner "https://issuer" "cli" stale_entry before ≡ (ok (ok kept), after)
unfolding critical_section result_entry
refreshed_once = refl

-- A refresh that fails leads to a login; the failure of that is what the caller sees.
abbrev empty : World
empty i c = none

failed :
    run (with_source runner silent) empty
    ≡ (err (join (sentinel login_failed) (message "unreachable")), empty)
unfolding run
failed = refl

run-IsRunFailure_example : IsRunFailure (join (sentinel login_failed) (message "unreachable"))
run-IsRunFailure_example = run-IsRunFailure (with_source runner silent) empty empty _ failed

-- A chain of a keychain that cannot be used and the store in memory.
abbrev away : Error
away = wrap "cache: keychain" (sentinel backend_unavailable)

abbrev no_keychain : Store World (Result TokenResult)
no_keychain = record {
  load = λ i c w. (err away, w);
  save = λ e w. (err away, w);
  delete = λ i c w. (err away, w);
  with_lock = λ i c f. f;
}

abbrev two_backends : ChainStore World (Result TokenResult)
two_backends = record {
  backends =
      record { is_file = false; store = no_keychain }
      ∷ record { is_file = true; store = memory_store }
      ∷ [];
  notice = record { told = λ w. true; tell = λ w. w; logger = none };
}

-- The keychain holds nothing, as it cannot be used.
abbrev view_of : Backend World (Result TokenResult) → View World
view_of b = if b.is_file then view else λ w i c. none

no_keychain-Clears :
    Clears view_of "https://issuer" "cli" (record { is_file = false; store = no_keychain })
no_keychain-Clears w v h = refl

memory_store-Clears :
    Clears view_of "https://issuer" "cli" (record { is_file = true; store = memory_store })
memory_store-Clears w v h = memory_store-IsLawful.delete-ok "https://issuer" "cli" w v h

memory_store-Spares :
    Spares view_of "https://issuer" "cli"
      (record { is_file = false; store = no_keychain })
      (record { is_file = true; store = memory_store })
memory_store-Spares w h = refl

logged_out :
    (chain two_backends).delete "https://issuer" "cli" before
    ≡ (ok tt, set "https://issuer" "cli" none before)
unfolding chain is_error
logged_out = refl

chain-delete-IsCleared_example :
    IsCleared view_of "https://issuer" "cli"
      (set "https://issuer" "cli" none before)
      two_backends.backends
      before
chain-delete-IsCleared_example =
    chain-delete-IsCleared view_of "https://issuer" "cli" two_backends before
      (set "https://issuer" "cli" none before) (no_keychain-Clears, (memory_store-Clears, tt))
      ((memory_store-Spares, tt), (tt, tt)) logged_out
