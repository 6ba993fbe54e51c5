-- ===== src/Oidc/Callback/Laws.antt =====
-- What awaitCallback of internal/oidc/callback.go returns, for every order of events.
use oidc_token_cli.Base.{
  String, ◌≡◌, refl, sym, ap, ◌∙◌, ◌⊎◌, inl, inr, true, false, eq_iff, Option, none, some, List, [],
  ◌∷◌, ◌++◌, All, Bool-cases, Error, ok, arith,
}
use mathlib.Core.Option.{some-injective}
use oidc_token_cli.Oidc.Callback.{
  CallbackRequest, CallbackResult, callback_result, is_genuine, Callback, listening, Event, request,
  receive, expire, handle, timed_out, on_expire, step, run, returned_or, await_callback,
}

module _ (expected_state : String) where
  -- The request went to /callback and bears the expected state.
  abbrev pub IsGenuine : CallbackRequest → Type 0
  IsGenuine r = (r.path ≡ "/callback") × (r.state ≡ expected_state)

  is_genuine-IsGenuine : (r : CallbackRequest) → is_genuine expected_state r ≡ true → IsGenuine r
  unfolding is_genuine
  is_genuine-IsGenuine r h =
      ground (arith, eq_iff r.path "/callback", eq_iff r.state expected_state)

  IsGenuine-is_genuine : (r : CallbackRequest) → IsGenuine r → is_genuine expected_state r ≡ true
  unfolding is_genuine
  IsGenuine-is_genuine r h =
      ground (arith, eq_iff r.path "/callback", eq_iff r.state expected_state)

  abbrev pub IsOther : Event → Type 0
  IsOther (request r) = ¬ IsGenuine r
  IsOther receive = Unit
  IsOther (expire e) = ⊥

  -- Any event but a genuine request.
  abbrev pub IsUngenuine : Event → Type 0
  IsUngenuine (request r) = ¬ IsGenuine r
  IsUngenuine receive = Unit
  IsUngenuine (expire e) = Unit

  abbrev pub IsNoEnd : Event → Type 0
  IsNoEnd (request r) = Unit
  IsNoEnd receive = Unit
  IsNoEnd (expire e) = ⊥

  run-returned :
      (events : List Event) (channel : Option CallbackResult) (x : CallbackResult)
      → (run expected_state (record { channel = channel; returned = some x }) events).returned
        ≡ some x
  unfolding run
  run-returned [] channel x = refl
  run-returned (request r ∷ events) channel x = run-returned events _ x
  run-returned (receive ∷ events) none x = run-returned events none x
  run-returned (receive ∷ events) (some y) x = run-returned events (some y) x
  run-returned (expire e ∷ events) channel x = run-returned events channel x

  -- A filled channel is only ever emptied into the return.
  handle_filled :
      (r : CallbackRequest) (y : CallbackResult) → handle expected_state r (some y) ≡ some y
  unfolding handle
  handle_filled r y = ground arith

  run-same :
      (events : List Event) {c c' : Option CallbackResult}
      → c ≡ c'
      → (run expected_state (record { channel = c'; returned = none }) events).returned
        ≡ (run expected_state (record { channel = c; returned = none }) events).returned
  run-same events same =
      ap (λ c. (run expected_state (record { channel = c; returned = none }) events).returned)
        (sym same)

  run_filled :
      (events : List Event) (x y : CallbackResult)
      → (run expected_state (record { channel = some y; returned = none }) events).returned ≡ some x
      → (x ≡ y) ⊎ ((e : Error) × (x ≡ timed_out e))
  unfolding run
  run_filled [] x y h = cc
  run_filled (request r ∷ events) x y h =
      run_filled events x y (run-same events (handle_filled r y) ∙ h)
  run_filled (receive ∷ events) x y h =
      inl (some-injective _ _ (sym h ∙ run-returned events none y))
  run_filled (expire e ∷ events) x y h =
      inr (e, some-injective _ _ (sym h ∙ run-returned events (some y) (timed_out e)))

  -- The first genuine request among events, with what stood before and after it.
  abbrev pub FirstGenuine : List Event → CallbackResult → Type 0
  FirstGenuine events x =
      (before : List Event) × (r : CallbackRequest) × (after : List Event) × (events
        ≡ before ++ (request r ∷ after))
      × All IsUngenuine before
      × IsGenuine r
      × (callback_result r ≡ x)

  handle_genuine :
      (r : CallbackRequest)
      → is_genuine expected_state r ≡ true
      → handle expected_state r none ≡ some (callback_result r)
  unfolding handle
  handle_genuine r h = rw (h, handle) refl

  handle_ungenuine :
      (r : CallbackRequest) (channel : Option CallbackResult)
      → is_genuine expected_state r ≡ false
      → handle expected_state r channel ≡ channel
  unfolding handle
  handle_ungenuine r channel h = rw (h, handle) refl

  FirstGenuine-later :
      (e : Event) (events : List Event) (x : CallbackResult)
      → IsUngenuine e
      → FirstGenuine events x ⊎ ((d : Error) × (x ≡ timed_out d))
      → FirstGenuine (e ∷ events) x ⊎ ((d : Error) × (x ≡ timed_out d))
  FirstGenuine-later e events x other
        (inl (before, r, after, split, none_before, genuine, result)) =
      inl (e ∷ before, r, after, ap (λ l. e ∷ l) split, (other, none_before), genuine, result)
  FirstGenuine-later e events x other (inr late) = inr late

  -- What is returned while events happen is the result of the first genuine request among them, or
  -- says that the time is over: a request with another path or another state never ends the wait,
  -- and neither does a second genuine one.
  pub run-FirstGenuine :
      (events : List Event) (x : CallbackResult)
      → (run expected_state listening events).returned ≡ some x
      → FirstGenuine events x ⊎ ((e : Error) × (x ≡ timed_out e))
  unfolding run
  run-FirstGenuine [] x h = cc
  run-FirstGenuine (request r ∷ events) x h = elim (Bool-cases (is_genuine expected_state r)) [
    | inl genuine ↦
        elim (run_filled events x (callback_result r)
          (run-same events (handle_genuine r genuine) ∙ h)) [
            | inl same ↦ inl ([], r, events, refl, tt, is_genuine-IsGenuine r genuine, sym same)
            | inr late ↦ inr late
          ]
    | inr other ↦
        FirstGenuine-later (request r) events x
          (λ g. absurd (cc (sym other ∙ IsGenuine-is_genuine r g)))
          (run-FirstGenuine events x (run-same events (handle_ungenuine r none other) ∙ h))
  ]
  run-FirstGenuine (receive ∷ events) x h =
      FirstGenuine-later receive events x tt (run-FirstGenuine events x h)
  run-FirstGenuine (expire e ∷ events) x h =
      inr (e, some-injective _ _ (sym h ∙ run-returned events none (timed_out e)))

  -- With a result in the channel, whatever happens but the end of the time, the next receive
  -- returns it.
  run_filled-receive :
      (mid after : List Event) (y : CallbackResult)
      → All IsNoEnd mid
      → (run expected_state
          (record { channel = some y; returned = none })
          (mid ++ (receive ∷ after))).returned
        ≡ some y
  unfolding run
  run_filled-receive [] after y h = run-returned after none y
  run_filled-receive (request r ∷ mid) after y (h, rest) =
      run-same (mid ++ (receive ∷ after)) (sym (handle_filled r y))
      ∙ run_filled-receive mid after y rest
  run_filled-receive (receive ∷ mid) after y (h, rest) =
      run-returned (mid ++ (receive ∷ after)) none y
  run_filled-receive (expire e ∷ mid) after y (h, rest) = absurd h

  -- The genuine redirect gets through: whatever other requests come before it, and whatever
  -- happens after it but the end of the time, the next receive returns its result, for good.
  pub run_redirected :
      (before mid after : List Event) (r : CallbackRequest)
      → All IsOther before
      → IsGenuine r
      → All IsNoEnd mid
      → (run expected_state listening (before ++ (request r ∷ (mid ++ (receive ∷ after))))).returned
        ≡ some (callback_result r)
  unfolding run
  run_redirected [] mid after r others genuine open_ =
      run-same (mid ++ (receive ∷ after)) (sym (handle_genuine r (IsGenuine-is_genuine r genuine)))
      ∙ run_filled-receive mid after (callback_result r) open_
  run_redirected (request q ∷ before) mid after r (other, others) genuine open_ =
      elim (Bool-cases (is_genuine expected_state q)) [
        | inl same ↦ absurd (other (is_genuine-IsGenuine q same))
        | inr not_same ↦
            run-same (before ++ (request r ∷ (mid ++ (receive ∷ after))))
              (sym (handle_ungenuine q none not_same))
            ∙ run_redirected before mid after r others genuine open_
      ]
  run_redirected (receive ∷ before) mid after r (other, others) genuine open_ =
      run_redirected before mid after r others genuine open_
  run_redirected (expire e ∷ before) mid after r (other, others) genuine open_ = absurd other

  expired :
      (channel o : Option CallbackResult) (e : Error)
      → returned_or e (on_expire e (record { channel = channel; returned = o })).returned
        ≡ returned_or e o
  expired channel none e = refl
  expired channel (some x) e = refl

  -- The end of the time adds nothing to what was returned before it.
  returned_or-run :
      (events : List Event) (s : Callback) (e : Error)
      → returned_or e (run expected_state s (events ++ (expire e ∷ []))).returned
        ≡ returned_or e (run expected_state s events).returned
  unfolding run step
  returned_or-run [] s e = expired s.channel s.returned e
  returned_or-run (d ∷ events) s e = returned_or-run events (step expected_state s d) e

  returned_or-ok :
      (o : Option CallbackResult) (e : Error) (code : String)
      → returned_or e o ≡ ok code
      → o ≡ some (ok code)
  returned_or-ok none e code h = cc
  returned_or-ok (some x) e code h = ap some h

  -- A code that is awaited is that of the first genuine request: no request with another path or
  -- another state ends the wait, and neither does a second genuine one.
  pub await_callback-FirstGenuine :
      (events : List Event) (e : Error) (code : String)
      → await_callback expected_state events e ≡ ok code
      → FirstGenuine events (ok code)
  unfolding await_callback
  await_callback-FirstGenuine events e code h =
      elim (run-FirstGenuine events (ok code)
        (returned_or-ok _ e code (sym (returned_or-run events listening e) ∙ h))) [
          | inl first ↦ first
          | inr (d, late) ↦ absurd (cc late)
        ]

  -- The genuine redirect gets through: whatever other requests come before it and whatever happens
  -- after it but the end of the time, once the result is received it is what the wait gives.
  pub await_callback_redirected :
      (before mid after : List Event) (r : CallbackRequest) (e : Error)
      → All IsOther before
      → IsGenuine r
      → All IsNoEnd mid
      → await_callback expected_state (before ++ (request r ∷ (mid ++ (receive ∷ after)))) e
        ≡ callback_result r
  unfolding await_callback
  await_callback_redirected before mid after r e others genuine open_ =
      returned_or-run (before ++ (request r ∷ (mid ++ (receive ∷ after)))) listening e
      ∙ ap (returned_or e) (run_redirected before mid after r others genuine open_)
