-- ===== src/Base/Errors.antt =====
-- Go's `error` values: sentinels made by `errors.New`, the chains that `fmt.Errorf` builds with
-- `%w`, and the two error types that the program looks for with `errors.As`.
use Prim.Native.Nat.{ℕ}
use Prim.Native.String.{String}
use mathlib.Core.Bool.{Bool, false, ◌||◌}
use mathlib.Core.Option.{Option, none, some}
use oidc_token_cli.Base.Tests.{nat_eq}

pub data Sentinel : Type 0 where
  -- internal/cache: ErrBackendUnavailable, ErrLockTimeout
  backend_unavailable lock_timeout : Sentinel
  -- internal/runner: the five failure classes
  login_failed refresh_failed cache_read cache_write id_token_invalid : Sentinel
  -- internal/authflow: ErrInteractionUnavailable
  interaction_unavailable : Sentinel
  -- os.ErrNotExist, flag.ErrHelp, context.DeadlineExceeded
  not_exist help deadline_exceeded : Sentinel
  -- go-keyring: ErrNotFound and ErrUnsupportedPlatform; any *exec.Error
  key_not_found unsupported_platform exec_error : Sentinel

pub data Error : Type 0 where
  sentinel : Sentinel → Error
  -- an error with no error inside it
  message : String → Error
  -- fmt.Errorf("text: %w", err)
  wrap : String → Error → Error
  -- fmt.Errorf("%w: %w", first, second)
  join : Error → Error → Error
  -- *oauth2.RetrieveError, with its ErrorCode
  retrieve : String → Error
  -- *oidc.AuthorizationError, with its Code and Description
  authorization : String → String → Error

abbrev rank : Sentinel → ℕ
rank backend_unavailable = 0
rank lock_timeout = 1
rank login_failed = 2
rank refresh_failed = 3
rank cache_read = 4
rank cache_write = 5
rank id_token_invalid = 6
rank interaction_unavailable = 7
rank not_exist = 8
rank help = 9
rank deadline_exceeded = 10
rank key_not_found = 11
rank unsupported_platform = 12
rank exec_error = 13

-- `errors.Is(err, sentinel)`
unfoldable pub is_error : Sentinel → Error → Bool
is_error s (sentinel t) = nat_eq (rank s) (rank t)
is_error s (message m) = false
is_error s (wrap m e) = is_error s e
is_error s (join a b) = is_error s a || is_error s b
is_error s (retrieve c) = false
is_error s (authorization c d) = false

abbrev or_else {ℓ} : {A : Type ℓ} → Option A → Option A → Option A
or_else none b = b
or_else (some a) b = some a

-- `errors.As(err, &re)` for *oauth2.RetrieveError, depth first: its ErrorCode.
unfoldable pub as_retrieve : Error → Option String
as_retrieve (sentinel t) = none
as_retrieve (message m) = none
as_retrieve (wrap m e) = as_retrieve e
as_retrieve (join a b) = or_else (as_retrieve a) (as_retrieve b)
as_retrieve (retrieve c) = some c
as_retrieve (authorization c d) = none

-- `errors.As(err, &ae)` for *oidc.AuthorizationError: its Code.
unfoldable pub as_authorization : Error → Option String
as_authorization (sentinel t) = none
as_authorization (message m) = none
as_authorization (wrap m e) = as_authorization e
as_authorization (join a b) = or_else (as_authorization a) (as_authorization b)
as_authorization (retrieve c) = none
as_authorization (authorization c d) = some c
