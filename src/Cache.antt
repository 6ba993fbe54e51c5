-- ===== src/Cache.antt =====
-- internal/cache/store.go: the cache record and the interface of its backends.
-- `Store W A` acts on the world `W`; `A` is what the function that runs under the lock leaves in
-- its caller's variables.
pub mod Lawful
pub mod Chain
pub mod Noop
pub mod File
pub mod Keychain
use oidc_token_cli.Base.{ℕ, String, Option, M}

-- Entry. `expiry` counts nanoseconds from Go's zero time.
pub record Entry : Type 0 where
  pub issuer : String
  pub client_id : String
  pub access_token : String
  pub id_token : String
  pub refresh_token : String
  pub expiry : ℕ

-- Store. `none` is ok == false with a nil error: no usable entry.
pub record Store (W A : Type 0) : Type 0 where
  pub load : String → String → M W (Option Entry)
  pub save : Entry → M W (Unit {0})
  pub delete : String → String → M W (Unit {0})
  pub with_lock : String → String → M W A → M W A
