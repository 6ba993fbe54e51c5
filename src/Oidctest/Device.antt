-- ===== src/Oidctest/Device.antt =====
-- How often a device code of the issuer of the tests has to be polled.
use oidc_token_cli.Base.{
  ℕ, zero, suc, ◌+◌, ◌-◌, String, ◌≡◌, refl, ap, ◌∙◌, eq_refl, Bool-cases, leb, inl, inr, some,
  lookup, insert, lookup-insert, Result, arith,
}
use oidc_token_cli.Oidc.Request.{Claims, Form}
use oidc_token_cli.Oidctest.{
  MockIssuer, MockDeviceCode, get, next_device_code, handle_device_authorization,
}
use oidc_token_cli.Oidctest.Token.{handle_device_token, write_token_success}

module _ {J : Type 0} (itoa : ℕ → String) (url : String) (parse_signed : String → Result J)
    (verified_claims : J → Result Claims) (validate : Claims → Result (Unit {0}))
    (sign : String → String → String → Result String) where
  -- The issuer after a device code was polled so often.
  abbrev pub after_polls : ℕ → MockIssuer → Form → MockIssuer
  after_polls zero m form = m
  after_polls (suc n) m form =
      (handle_device_token itoa url parse_signed verified_claims validate sign
        (after_polls n m form) form).1

  -- A code that was polled so often, and the tokens that were issued meanwhile.
  abbrev Polled : MockIssuer → String → ℕ → MockIssuer → Type 0
  Polled m code n s =
      (dc : MockDeviceCode) × (lookup code s.device_codes ≡ some dc)
      × (dc.polls ≡ n)
      × (s.pending_polls ≡ m.pending_polls)
      × (s.refresh_seq ≡ m.refresh_seq + (n - m.pending_polls))

  poll-Polled :
      (m s : MockIssuer) (form : Form) (n : ℕ)
      → Polled m (get form "device_code") n s
      → Polled m
          (get form "device_code")
          (suc n)
          (handle_device_token itoa url parse_signed verified_claims validate sign s form).1
  unfolding handle_device_token write_token_success
  poll-Polled m s form n (dc, found, polled, pending, issued) =
      let code = get form "device_code" in
      let next : MockDeviceCode = record dc { polls = suc dc.polls } in
      let there : lookup code (insert code next s.device_codes) ≡ some next =
        lookup-insert code code next s.device_codes ∙ rw (eq_refl code) refl in
      rw (handle_device_token, found)
        (elim (Bool-cases (leb (suc dc.polls) s.pending_polls)) [
          | inl wait ↦ rw wait (next, there, omega arith, pending, ground arith)
          | inr done ↦ rw done (next, there, omega arith, pending, ground arith)
        ])

  after_polls-Polled :
      (m m0 : MockIssuer) (form : Form) (n : ℕ)
      → Polled m0 (get form "device_code") 0 m
      → Polled m0 (get form "device_code") n (after_polls n m form)
  after_polls-Polled m m0 form zero start = start
  after_polls-Polled m m0 form (suc n) start =
      poll-Polled m0 (after_polls n m form) form n (after_polls-Polled m m0 form n start)

  -- Of a device code that the issuer has just given: the polls up to the configured count issue no
  -- token, and every poll after them issues one.
  pub after_polls-issued :
      (m : MockIssuer) (form : Form) (n : ℕ)
      → get form "device_code" ≡ next_device_code url itoa m
      → (after_polls n (handle_device_authorization url itoa m).1 form).refresh_seq
        ≡ m.refresh_seq + (n - m.pending_polls)
  unfolding handle_device_authorization
  after_polls-issued m form n asked =
      let code = next_device_code url itoa m in
      let fresh : MockDeviceCode = record { user_code = "USER-CODE"; polls = 0 } in
      let given = (handle_device_authorization url itoa m).1 in
      let there : lookup (get form "device_code") given.device_codes ≡ some fresh =
        ap (λ c. lookup c given.device_codes) asked
        ∙ lookup-insert code code fresh m.device_codes
        ∙ rw (eq_refl code) refl in
      (after_polls-Polled given m form n (fresh, there, refl, refl, omega arith)).4
