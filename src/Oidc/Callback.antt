-- ===== src/Oidc/Callback.antt =====
-- awaitCallback of internal/oidc/callback.go: the one-shot server that waits for the redirect of the
-- authorization server. Its requests, the two cases of its `select` and their order are events. A
-- request is what the handler reads of it; a missing query parameter is "".
pub mod Laws
use oidc_token_cli.Base.{
  ℕ, String, Bool, true, false, not, ◌&&◌, Option, none, some, List, [], ◌∷◌, ◌++◌, ◌==◌, is_empty,
  if◌then◌else◌, Error, message, wrap, authorization, Result, ok, err,
}

pub record CallbackRequest : Type 0 where
  pub path : String
  pub state : String
  pub error : String
  pub error_description : String
  pub code : String

-- What a browser is shown: the 404 of the mux, the 400 of the handler, and its two pages.
pub data Page : Type 0 where
  not_found invalid_state login_failed_page login_complete_page : Page

-- callbackResult
abbrev pub CallbackResult : Type 0
CallbackResult = Result String

unfoldable pub callback_result : CallbackRequest → CallbackResult
callback_result r =
    if not (is_empty r.error) then err (authorization r.error r.error_description) else ok r.code

-- Whether the mux routes a request to the handler, and its state is the expected one.
unfoldable pub is_genuine : String → CallbackRequest → Bool
is_genuine expected_state r = r.path == "/callback" && r.state == expected_state

unfoldable pub page : String → CallbackRequest → Page
page expected_state r =
    if not (r.path == "/callback")
    then not_found
    else if not (r.state == expected_state)
    then invalid_state
    else if not (is_empty r.error)
    then login_failed_page
    else login_complete_page

-- `resultCh`, which holds one result, and what `awaitCallback` has returned.
pub record Callback : Type 0 where
  pub channel : Option CallbackResult
  pub returned : Option CallbackResult

abbrev pub listening : Callback
listening = record { channel = none; returned = none }

pub data Event : Type 0 where
  -- a request is handled
  request : CallbackRequest → Event
  -- `case res := <-resultCh`
  receive : Event
  -- `case <-ctx.Done()`, with ctx.Err()
  expire : Error → Event

-- `select { case resultCh <- res: default: }`
abbrev pub offer : Option CallbackResult → CallbackResult → Option CallbackResult
offer none res = some res
offer (some first) res = some first

unfoldable pub handle : String → CallbackRequest → Option CallbackResult → Option CallbackResult
unfolding is_genuine callback_result
handle expected_state r channel =
    if is_genuine expected_state r then offer channel (callback_result r) else channel

abbrev pub timed_out : Error → CallbackResult
timed_out e = err (wrap "oidc: timed out waiting for the authorization callback" e)

-- A `select` that has returned does so once; one with an empty channel waits.
abbrev pub on_receive : Option CallbackResult → Option CallbackResult → Callback
on_receive channel (some res) = record { channel = channel; returned = some res }
on_receive none none = listening
on_receive (some res) none = record { channel = none; returned = some res }

abbrev pub on_expire : Error → Callback → Callback
on_expire e s = elim s.returned [ none ↦ record s { returned = some (timed_out e) } | some res ↦ s ]

unfoldable pub step : String → Callback → Event → Callback
unfolding handle
step expected_state s (request r) = record s { channel = handle expected_state r s.channel }
step expected_state s receive = on_receive s.channel s.returned
step expected_state s (expire e) = on_expire e s

unfoldable pub run : String → Callback → List Event → Callback
unfolding step
run expected_state s [] = s
run expected_state s (e ∷ events) = run expected_state (step expected_state s e) events

-- What awaitCallback returns if these are the events until its context ends with `e`.
abbrev pub returned_or : Error → Option CallbackResult → CallbackResult
returned_or e none = timed_out e
returned_or e (some res) = res

unfoldable pub await_callback : String → List Event → Error → CallbackResult
unfolding run
await_callback expected_state events e =
    returned_or e (run expected_state listening (events ++ expire e ∷ [])).returned
