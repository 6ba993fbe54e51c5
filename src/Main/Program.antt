-- ===== src/Main/Program.antt =====
-- The process of cmd/oidc-token/main.go with the stores that buildStore makes: the file store of
-- internal/cache/cache.go and the keychain store of keychain.go.
use oidc_token_cli.Base.{Option, String, ◌≡◌, ◌≢◌, ◌⊎◌, Bool, false, List, ok}
use oidc_token_cli.Config.{Config}
use oidc_token_cli.Grant.TokenExchange.{TokenExchange}
use oidc_token_cli.Cache.{Entry}
use oidc_token_cli.Cache.File.{FileSystem, Layout, file_store}
use oidc_token_cli.Cache.File.Atomic.{Contents, IsFileSystem}
use oidc_token_cli.Cache.File.Whole.{TempsApart}
use oidc_token_cli.Cache.File.Laws.{RoundTrips, file_view, file_store-IsLawful}
use oidc_token_cli.Cache.Keychain.{Keyring, keychain_store, probe}
use oidc_token_cli.Cache.Keychain.Laws.{Items, IsKeyring, keychain_view, keychain_store-IsLawful}
use oidc_token_cli.Main.{Process, main}
use oidc_token_cli.Main.Stored.{IsDelivered}
use oidc_token_cli.Main.Kept.{IsSettledFor, main-IsKept}

module _ {W K O : Type 0} (fs : FileSystem W) (keyring : Keyring W) (ended : W → Bool)
    (layout : String → Layout) (env : Process W K O) where
  -- The layout of a directory also names and encodes the items of the keychain.
  abbrev pub with_stores : Process W K O
  with_stores = record env {
    keychain_store = keychain_store keyring ended (layout "");
    keychain_probe = probe keyring ended (layout "");
    file_store = λ dir. file_store fs (layout dir);
  }

  module _ (content : Contents W) (item : Items W) (files : IsFileSystem content fs)
      (items : IsKeyring item keyring)
      (temps : (dir : String) → TempsApart fs (layout dir) content files)
      (trips : (dir : String) → RoundTrips (layout dir)) where
    abbrev pub in_keychain : W → String → String → Option Entry
    in_keychain = keychain_view (layout "") item

    abbrev pub in_files : String → W → String → String → Option Entry
    in_files dir = file_view (layout dir) content

    -- Where the file system and the keychain do what they document, entries decode to themselves, and
    -- no temporary file bears the name of a file of a profile: if a run that asks for a login grant,
    -- no logout and a store exits with 0, and, where it chains the two stores, the keychain was
    -- available or not for all of it, then standard output got one successful write, the rendering of
    -- tokens that the item or the file of the issuer and client of the configuration decodes to.
    pub with_stores-IsDelivered :
        (args : List String) (c : Config K) (te : TokenExchange W) (w v : W) (o o' : O)
        → env.parse args w ≡ ok (c, te)
        → c.grant_type ≢ "token-exchange"
        → c.logout ≡ false
        → c.token_store ≢ "none"
        → IsSettledFor with_stores in_keychain in_files
            (keychain_store-IsLawful keyring ended (layout "") item items (trips ""))
            (λ dir. file_store-IsLawful fs (layout dir) content files (temps dir) (trips dir))
            c
        → main with_stores args w o ≡ (0, v, o')
        → IsDelivered with_stores in_keychain c v o o'
          ⊎ IsDelivered with_stores (in_files c.token_store_dir) c v o o'
    with_stores-IsDelivered args c te w v o o' parsed grant no_logout kept settled h =
        main-IsKept with_stores in_keychain in_files
          (keychain_store-IsLawful keyring ended (layout "") item items (trips ""))
          (λ dir. file_store-IsLawful fs (layout dir) content files (temps dir) (trips dir)) args c
          te w v o o' parsed grant no_logout kept settled h
