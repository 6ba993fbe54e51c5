-- ===== src/Tests/Process.antt =====
-- A process that refreshes the tokens in the store in memory and prints the id_token.
use oidc_token_cli.Base.{
  String, ◌≡◌, ◌≢◌, refl, eq_iff, true, none, [], ◌∷◌, message, ok, err, arith,
}
use oidc_token_cli.Output.{no_result, select}
use oidc_token_cli.Grant.TokenExchange.{TokenExchange}
use oidc_token_cli.Runner.{run, result_entry}
use oidc_token_cli.Main.{Process, append, build_store, execute, main, render, write_result}
use oidc_token_cli.Main.Laws.{IsCleanMain, main-IsClean}
use oidc_token_cli.Tests.World.{World, memory_store, config, source}
use oidc_token_cli.Tests.Runs.{before, after}

abbrev pub no_exchange : TokenExchange World
no_exchange = record {
  subject_token = "";
  subject_token_type = "";
  requested_token_type = "";
  resources = [];
  subject_token_source = "";
  audience = "";
  subject_token_file = "";
  sources = [];
}

abbrev pub process : Process World (Unit {0}) String
process = record {
  parse = λ args w. ok (config, no_exchange);
  keychain_store = memory_store;
  keychain_probe = λ w. (ok tt, w);
  file_store = λ dir. memory_store;
  notice = record { told = λ w. true; tell = λ w. w; logger = none };
  new_source = λ c. source;
  exchange = λ c token kind requested resources w. (ok no_result, w);
  now = λ w. 1000000000000;
  stderr = λ s w. w;
  stdout = append;
  getenv = λ k. "";
  marshal = λ doc. err (message "no JSON here");
  format_time = λ t. "";
  parse_exec_info = λ s. err (message "no JSON here");
}

-- The id_token of the refreshed tokens, and nothing else, is what standard output gets.
printed : main process ("--token-type=id_token" ∷ []) before "" ≡ (0, after, "new-id")
unfolding main execute build_store run result_entry write_result render select
printed = refl

main-IsClean_example :
    IsCleanMain process
      ("--token-type=id_token" ∷ [])
      before
      ""
      (main process ("--token-type=id_token" ∷ []) before "")
main-IsClean_example = main-IsClean process ("--token-type=id_token" ∷ []) before ""

auto-ne-token_exchange : ◌≢◌ {A = String} "auto" "token-exchange"
auto-ne-token_exchange = ground (arith, eq_iff "auto" "token-exchange")

built : build_store process config before ≡ (ok memory_store, before)
unfolding build_store
built = refl
