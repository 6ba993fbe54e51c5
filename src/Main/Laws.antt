-- ===== src/Main/Laws.antt =====
-- What reaches standard output from cmd/oidc-token/main.go, and with which exit status.
use oidc_token_cli.Base.{
  String, ◌≡◌, refl, ◌⊎◌, inl, inr, true, List, ◌==◌, if◌then◌else◌, Bool-cases, if_cases, Error,
  is_error, help, Result, ok, err, arith,
}
use oidc_token_cli.Output.{TokenResult}
use oidc_token_cli.Config.{Config}
use oidc_token_cli.Grant.TokenExchange.{TokenExchange, resolve_subject_token}
use oidc_token_cli.Main.{
  Process, render, write_result, execute, main, finish, with_store, exchanged, logged_out, written,
  runner_of, build_store, Exit,
}
use oidc_token_cli.Cache.{Store}
use oidc_token_cli.Runner.{run, logout}

module _ {W K O : Type 0} (env : Process W K O) where
  -- Standard output got exactly one successful write, of the rendering of a result.
  abbrev pub Printed : Config K → O → O → Type 0
  Printed c o o' =
      (res : TokenResult) × (bytes : String) × (render env c res ≡ ok bytes)
      × (env.stdout bytes o ≡ (ok tt, o'))

  -- The one write to standard output failed.
  abbrev pub WriteFailed : O → O → Type 0
  WriteFailed o o' = (bytes : String) × (e : Error) × (env.stdout bytes o ≡ (err e, o'))

  -- How an exit status and the state of standard output go together.
  abbrev pub IsClean : Config K → O → Exit env → Type 0
  IsClean c o x =
      ((x.0 ≡ 0) × (Printed c o x.2 ⊎ ((c.logout ≡ true) × (x.2 ≡ o))))
      ⊎ ((x.0 ≡ 1) × ((x.2 ≡ o) ⊎ WriteFailed o x.2))

  write_result-IsClean :
      (c : Config K) (res : TokenResult) (w : W) (o : O) → IsClean c o (write_result env c res w o)
  unfolding write_result
  write_result-IsClean c res w o = go (render env c res) refl
    where
      sent :
          (bytes : String) (x : Result (Unit {0}) × O)
          → render env c res ≡ ok bytes
          → env.stdout bytes o ≡ x
          → IsClean c o (written env w x)
      sent bytes (ok t, o') rendered done = inl (refl, inl (res, bytes, rendered, done))
      sent bytes (err e, o') rendered failed = inr (refl, inr (bytes, e, failed))

      go : (x : Result String) → render env c res ≡ x → IsClean c o (write_result env c res w o)
      go (err e) rendered = rw (rendered, write_result) (inr (refl, inl refl))
      go (ok bytes) rendered =
          rw (rendered, write_result) (sent bytes (env.stdout bytes o) rendered refl)

  finish-IsClean :
      (c : Config K) (o : O) (x : Result TokenResult × W) → IsClean c o (finish env c o x)
  finish-IsClean c o (ok res, w) = write_result-IsClean c res w o
  finish-IsClean c o (err e, w) = inr (refl, inl refl)

  exchanged-IsClean :
      (c : Config K) (o : O) (x : Result String × W) → IsClean c o (exchanged env c o x)
  exchanged-IsClean c o (ok token, w) = finish-IsClean c o _
  exchanged-IsClean c o (err e, w) = inr (refl, inl refl)

  with_store-IsClean :
      (c : Config K) (o : O) (x : Result (Store W (Result TokenResult)) × W)
      → IsClean c o (with_store env c o x)
  with_store-IsClean c o (err e, w) = inr (refl, inl refl)
  with_store-IsClean c o (ok store, w) =
      if_cases (IsClean c o) c.logout (logged_out env o (logout (runner_of env c store) w))
        (finish env c o (run (runner_of env c store) w)) (out (logout (runner_of env c store) w))
        (λ _. finish-IsClean c o (run (runner_of env c store) w))
    where
      out : (x : Result (Unit {0}) × W) → c.logout ≡ true → IsClean c o (logged_out env o x)
      out (ok t, v) h = inl (refl, inr (h, refl))
      out (err e, v) h = inr (refl, inl refl)

  execute-IsClean :
      (c : Config K) (te : TokenExchange W) (w : W) (o : O) → IsClean c o (execute env c te w o)
  unfolding execute
  execute-IsClean c te w o = elim (Bool-cases (c.grant_type == "token-exchange")) [
    | inl exchange ↦
        rw exchange
          (exchanged-IsClean c o (resolve_subject_token (record te { audience = c.audience }) w))
    | inr other ↦ rw other (with_store-IsClean c o (build_store env c w))
  ]

  -- What `main` leaves: a parse that failed changes no byte of standard output and exits with 1, or
  -- with 0 where it was a request for help; else the exit of `execute` is clean.
  abbrev pub IsCleanMain : List String → W → O → Exit env → Type 0
  IsCleanMain args w o x =
      ((c : Config K) × (te : TokenExchange W) × (env.parse args w ≡ ok (c, te)) × IsClean c o x)
      ⊎ ((e : Error) × (env.parse args w ≡ err e)
          × (x.2 ≡ o)
          × (x.0 ≡ (if is_error help e then 0 else 1)))

  -- For all arguments, the exit status is 0 or 1. It is 0 only if standard output got exactly one
  -- successful write, of the rendering of a result, or if nothing was written to it at a logout or
  -- a request for help. It is 1 only if nothing was written to it, or if the one write failed.
  pub main-IsClean : (args : List String) (w : W) (o : O) → IsCleanMain args w o (main env args w o)
  unfolding main
  main-IsClean args w o = go (env.parse args w) refl
    where
      go :
          (x : Result (Config K × TokenExchange W))
          → env.parse args w ≡ x
          → IsCleanMain args w o (main env args w o)
      go (ok (c, te)) parsed = inl (c, te, parsed, rw (main, parsed) (execute-IsClean c te w o))
      go (err e) parsed = inr (e, parsed, ground arith, ground arith)
