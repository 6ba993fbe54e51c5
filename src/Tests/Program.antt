-- ===== src/Tests/Program.antt =====
-- A process over a directory in memory, which prints the tokens that it finds there.
use oidc_token_cli.Base.{
  String, ◌≡◌, ◌≢◌, refl, ◌⊎◌, eq_iff, none, List, [], ◌∷◌, message, ok, err, arith, true,
}
use oidc_token_cli.Output.{no_result, select}
use oidc_token_cli.Grant.TokenExchange.{TokenExchange}
use oidc_token_cli.Cache.File.{Layout, path, profile_key, load, file_store}
use oidc_token_cli.Runner.{run, result_entry}
use oidc_token_cli.Main.{Process, append, build_store, execute, main, render, write_result}
use oidc_token_cli.Main.Stored.{IsDelivered}
use oidc_token_cli.Main.Program.{with_stores, in_keychain, in_files, with_stores-IsDelivered}
use oidc_token_cli.Tests.World.{config}
use oidc_token_cli.Tests.Stores.{
  Disk, disk, keyring, in_time, layout, content, item, disk-IsFileSystem, keyring-IsKeyring,
  temps_apart, trips, filled,
}

abbrev no_exchange : TokenExchange Disk
no_exchange = record {
  subject_token = "";
  subject_token_type = "";
  requested_token_type = "";
  resources = [];
  subject_token_source = "";
  audience = "";
  subject_token_file = "";
  sources = [];
}

-- Its own stores are replaced; its source is offline, so that the tokens can only come from the disk.
abbrev process : Process Disk (Unit {0}) String
process = record {
  parse = λ args w. ok (config, no_exchange);
  keychain_store = record {
    load = λ i c w. (ok none, w);
    save = λ e w. (ok tt, w);
    delete = λ i c w. (ok tt, w);
    with_lock = λ i c f. f;
  };
  keychain_probe = λ w. (ok tt, w);
  file_store = λ dir. record {
    load = λ i c w. (ok none, w);
    save = λ e w. (ok tt, w);
    delete = λ i c w. (ok tt, w);
    with_lock = λ i c f. f;
  };
  notice = record { told = λ w. true; tell = λ w. w; logger = none };
  new_source = λ c. record {
    refresh = λ token w. (err (message "offline"), w);
    login = λ w. (err (message "offline"), w);
  };
  exchange = λ c token kind requested resources w. (ok no_result, w);
  now = λ w. 800000000000;
  stderr = λ s w. w;
  stdout = append;
  getenv = λ k. "";
  marshal = λ doc. err (message "no JSON here");
  format_time = λ t. "";
  parse_exec_info = λ s. err (message "no JSON here");
}

abbrev args : List String
args = "--token-type=id_token" ∷ []

abbrev layouts : String → Layout
layouts dir = layout

-- The id_token on disk is what is printed.
printed :
    main (with_stores disk keyring in_time layouts process) args filled "" ≡ (0, filled, "old-id")
unfolding main execute build_store run result_entry write_result render select path profile_key load
    file_store
printed = refl

auto-ne-token_exchange : ◌≢◌ {A = String} "auto" "token-exchange"
auto-ne-token_exchange = ground (arith, eq_iff "auto" "token-exchange")

file-ne-none : ◌≢◌ {A = String} "file" "none"
file-ne-none = ground (arith, eq_iff "file" "none")

with_stores-IsDelivered_example :
    IsDelivered
      (with_stores disk keyring in_time layouts process)
      (in_keychain disk keyring in_time layouts process content item disk-IsFileSystem
        keyring-IsKeyring
        (λ dir. temps_apart)
        (λ dir. trips))
      config
      filled
      ""
      "old-id"
    ⊎ IsDelivered
        (with_stores disk keyring in_time layouts process)
        (in_files disk keyring in_time layouts process content item disk-IsFileSystem
          keyring-IsKeyring
          (λ dir. temps_apart)
          (λ dir. trips)
          "/cache")
        config
        filled
        ""
        "old-id"
with_stores-IsDelivered_example =
    with_stores-IsDelivered disk keyring in_time layouts process content item disk-IsFileSystem
      keyring-IsKeyring (λ dir. temps_apart) (λ dir. trips) args config no_exchange filled filled ""
      "old-id" refl auto-ne-token_exchange refl file-ne-none
      (λ no_file no_keychain. absurd (no_file refl)) printed
