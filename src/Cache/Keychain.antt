-- ===== src/Cache/Keychain.antt =====
-- internal/cache/keychain.go: the store that keeps one keychain item for each profile.
-- Parameters: the keychain (zalando/go-keyring), whether the context has ended, and what `Layout`
-- holds: the digest and the JSON encoding of an entry.
pub mod Laws
use oidc_token_cli.Base.{
  String, ◌<>◌, Bool, true, false, ◌||◌, Option, none, some, if◌then◌else◌, Error, sentinel, wrap,
  join, is_error, key_not_found, unsupported_platform, exec_error, backend_unavailable,
  deadline_exceeded, Result, ok, err, M, ◌>>=◌, map_err, pure,
}
use oidc_token_cli.Cache.{Entry, Store}
use oidc_token_cli.Cache.File.{Layout, profile_key, encoded}

-- keyring.Get, keyring.Set, keyring.Delete: a service, a user, and for Set the secret.
pub record Keyring (W : Type 0) : Type 0 where
  pub get : String → String → M W String
  pub set : String → String → String → M W (Unit {0})
  pub delete : String → String → M W (Unit {0})

abbrev pub keychain_user : String
keychain_user = "token"

abbrev pub keychain_probe_service : String
keychain_probe_service = "oidc-token:__probe__"

unfoldable pub keychain_service : Layout → String → String → String
unfolding profile_key
keychain_service l issuer client_id = "oidc-token:" <> profile_key l issuer client_id

unfoldable pub is_unavailable : Error → Bool
unfolding is_error
is_unavailable e = if is_error unsupported_platform e then true else is_error exec_error e

-- fmt.Errorf("%w: %w", ErrBackendUnavailable, err)
abbrev pub unavailable : Error → Error
unavailable e = join (sentinel backend_unavailable) e

module _ {W : Type 0} (keyring : Keyring W) (ended : W → Bool) (l : Layout) where
  -- runKeyringOp: the operation goes on and has its effect also if the context ends first, but the
  -- caller then gets the error of the context.
  abbrev pub answered : {A : Type 0} → Result A × W → Result A × W
  answered (r, w) = if ended w then (err (sentinel deadline_exceeded), w) else (r, w)

  unfoldable pub run_keyring_op : {A : Type 0} → M W A → M W A
  run_keyring_op op w = answered (op w)

  -- `k.Probe`
  abbrev pub probed : Result String × W → Result (Unit {0}) × W
  probed (ok s, w) = (ok tt, w)
  probed (err e, w) = (if is_error key_not_found e then ok tt else err (unavailable e), w)

  unfoldable pub probe : M W (Unit {0})
  unfolding run_keyring_op
  probe w = probed (run_keyring_op (keyring.get keychain_probe_service keychain_user) w)

  -- How a failure of an item is reported, where a missing item is `a`.
  abbrev pub missing_or : {A : Type 0} → A → String → Error → Result A
  missing_or a text e =
      if is_error key_not_found e
      then ok a
      else if is_unavailable e
      then err (unavailable e)
      else err (wrap text e)

  abbrev pub loaded : Result String × W → Result (Option Entry) × W
  loaded (ok raw, w) = (ok (l.decode raw), w)
  loaded (err e, w) = (missing_or none "cache: keychain read" e, w)

  unfoldable pub load : String → String → M W (Option Entry)
  unfolding run_keyring_op is_unavailable
  load issuer client_id w =
      loaded (run_keyring_op (keyring.get (keychain_service l issuer client_id) keychain_user) w)

  abbrev pub write_error : Error → Error
  write_error e = if is_unavailable e then unavailable e else wrap "cache: keychain write" e

  abbrev pub marshalled : Result String → M W String
  marshalled (ok b) w = (ok b, w)
  marshalled (err e) w = (err (wrap "cache: marshal" e), w)

  unfoldable pub save : Entry → M W (Unit {0})
  unfolding run_keyring_op is_unavailable
  save e = do
    b ← marshalled (l.encode e)
    map_err write_error
        (run_keyring_op (keyring.set (keychain_service l e.issuer e.client_id) keychain_user b))

  abbrev pub removed : Result (Unit {0}) × W → Result (Unit {0}) × W
  removed (ok o, w) = (ok o, w)
  removed (err e, w) = (missing_or tt "cache: keychain delete" e, w)

  unfoldable pub delete : String → String → M W (Unit {0})
  unfolding run_keyring_op is_unavailable
  delete issuer client_id w =
      removed
        (run_keyring_op (keyring.delete (keychain_service l issuer client_id) keychain_user) w)

  -- The mutex is of this process, which has one holder at a time.
  unfoldable pub keychain_store : {A : Type 0} → Store W A
  unfolding load save delete
  keychain_store = record {
    load = load;
    save = save;
    delete = delete;
    with_lock = λ issuer client_id f. f;
  }
