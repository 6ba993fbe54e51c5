-- ===== src/Tests/Chains.antt =====
-- The chain of a keychain and a file store, and a process that runs over it.
use oidc_token_cli.Base.{
  String, ◌≡◌, refl, true, none, [], ◌∷◌, Error, sentinel, backend_unavailable, is_error, Result,
  ok, err,
}
use oidc_token_cli.Output.{TokenResult, select}
use oidc_token_cli.Config.{Config}
use oidc_token_cli.Cache.{Store}
use oidc_token_cli.Cache.Lawful.{IsLawful}
use oidc_token_cli.Cache.Noop.{noop_store}
use oidc_token_cli.Cache.Chain.{chain, Notice, log_fallback}
use oidc_token_cli.Cache.Chain.Contract.{
  auto_chain, IsReady, IsAway, LeavesAlone, chain_ready-IsLawful, chain_away-IsLawful,
}
use oidc_token_cli.Runner.{run, result_entry}
use oidc_token_cli.Main.{Process, build_store, execute, main, render, write_result}
use oidc_token_cli.Tests.World.{World, view, memory_store, memory_store-IsLawful, config}
use oidc_token_cli.Tests.Runs.{before, after}
use oidc_token_cli.Tests.Process.{process, no_exchange}

abbrev notice : Notice World
notice = record { told = λ w. true; tell = λ w. w; logger = none }

abbrev files : Store World (Result TokenResult)
files = noop_store

memory-IsReady : IsReady memory_store
memory-IsReady = record {
  load-ready = λ i c w v e h. absurd (cc h);
  save-ready = λ entry w v e h. absurd (cc h);
  delete-ready = λ i c w v e h. absurd (cc h);
}

files-LeavesAlone : LeavesAlone files view
unfolding noop_store
files-LeavesAlone = record {
  delete-leaves = λ i c w. refl;
  with_lock-leaves = λ i c f w v a h. (w, v, h, refl);
}

chain_ready-IsLawful_example : IsLawful view (chain (auto_chain notice memory_store files))
chain_ready-IsLawful_example =
    chain_ready-IsLawful notice memory_store files view memory_store-IsLawful memory-IsReady
      files-LeavesAlone

-- A keychain that cannot be used.
abbrev locked : Error
locked = sentinel backend_unavailable

abbrev away : Store World (Result TokenResult)
away = record {
  load = λ i c w. (err locked, w);
  save = λ e w. (err locked, w);
  delete = λ i c w. (err locked, w);
  with_lock = λ i c f w. (err locked, w);
}

away-IsAway : IsAway away view
unfolding is_error
away-IsAway = record {
  load-away = λ i c w. (locked, w, refl, refl, refl);
  save-away = λ entry w. (locked, w, refl, refl);
  delete-away = λ i c w. (locked, w, refl, refl);
}

chain_away-IsLawful_example : IsLawful view (chain (auto_chain notice away memory_store))
unfolding log_fallback
chain_away-IsLawful_example =
    chain_away-IsLawful notice away memory_store view memory_store-IsLawful memory-IsReady
      away-IsAway (λ e w i c. refl)

abbrev auto_config : Config (Unit {0})
auto_config = record config { token_store = "auto" }

abbrev auto_process : Process World (Unit {0}) String
auto_process = record process {
  parse = λ args w. ok (auto_config, no_exchange);
  keychain_store = away;
}

-- The tokens of the file are refreshed and saved there.
printed : main auto_process ("--token-store=auto" ∷ []) before "" ≡ (0, after, "new-id")
unfolding main execute build_store run result_entry write_result render select chain is_error
    log_fallback
printed = refl
