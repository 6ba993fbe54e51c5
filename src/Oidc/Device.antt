-- ===== src/Oidc/Device.antt =====
-- deviceAssertionLifetime of internal/oidc/device.go: how long the one client assertion lives that a
-- whole device-code login uses.
pub mod Login
use oidc_token_cli.Base.{ℕ, ◌+◌, ◌-◌, ◌≡◌, ◌≤◌, ◌<◌, ◌⊎◌, ltb, leb, if◌then◌else◌, arith}
use oidc_token_cli.Output.{is_zero}
use oidc_token_cli.Oidc.Request.{client_assertion_lifetime}

-- 15 minutes.
abbrev pub max_device_assertion_lifetime : ℕ
max_device_assertion_lifetime = 900000000000

-- `time.Until(expiry)` is `expiry - now`, or not positive where the expiry has passed.
unfoldable pub device_assertion_lifetime : ℕ → ℕ → ℕ
device_assertion_lifetime now expiry =
    let remaining = expiry - now in
    if is_zero expiry
    then client_assertion_lifetime
    else if leb expiry now
    then client_assertion_lifetime
    else if ltb max_device_assertion_lifetime remaining
    then max_device_assertion_lifetime
    else remaining

-- The assertion lives for some time and at most 15 minutes; where the device code expires in the
-- future, it lives until that very time or for 15 minutes, whichever is sooner, and where the
-- expiry is unknown or past, for 5 minutes.
pub device_assertion_lifetime-bounded :
    (now expiry : ℕ)
    → (0 < device_assertion_lifetime now expiry)
      × (device_assertion_lifetime now expiry ≤ 900000000000)
      × (now < expiry
          → (now + device_assertion_lifetime now expiry ≤ expiry)
            × ((now + device_assertion_lifetime now expiry ≡ expiry)
                ⊎ (device_assertion_lifetime now expiry ≡ 900000000000)))
      × (expiry ≤ now → device_assertion_lifetime now expiry ≡ 300000000000)
unfolding device_assertion_lifetime
device_assertion_lifetime-bounded now expiry = ground arith
