-- ===== src/Main/Stored.antt =====
-- What a successful run of cmd/oidc-token/main.go, from the arguments to standard output, has left
-- in the token store.
use oidc_token_cli.Base.{
  String, ◌≡◌, ◌≢◌, refl, sym, ap, ◌∙◌, Bool, false, List, ◌==◌, eq_iff, if◌then◌else◌, Result, ok,
  err, arith,
}
use mathlib.Core.Path.{subst}
use oidc_token_cli.Output.{TokenResult}
use oidc_token_cli.Config.{Config}
use oidc_token_cli.Grant.TokenExchange.{TokenExchange}
use oidc_token_cli.Cache.{Store}
use oidc_token_cli.Cache.Lawful.{View, IsLawful}
use oidc_token_cli.Runner.{run, logout}
use oidc_token_cli.Runner.Laws.{Holds, run-Holds}
use oidc_token_cli.Main.{
  Process, render, write_result, execute, main, finish, logged_out, with_store, written, runner_of,
  build_store,
}

if_false : {A : Type 0} {b : Bool} (x y : A) → b ≡ false → (if b then x else y) ≡ y
if_false x y h = ap (λ b. if b then x else y) h

module _ {W K O : Type 0} (env : Process W K O) (view : View W) where
  -- The store holds the tokens of a result, and standard output got its rendering.
  abbrev pub IsDelivered : Config K → W → O → O → Type 0
  IsDelivered c v o o' =
      (res : TokenResult) × (bytes : String) × Holds view v c.issuer c.client_id res
      × (render env c res ≡ ok bytes)
      × (env.stdout bytes o ≡ (ok tt, o'))

  write_result-IsDelivered :
      (c : Config K) (res : TokenResult) (w v : W) (o o' : O)
      → Holds view w c.issuer c.client_id res
      → write_result env c res w o ≡ (0, v, o')
      → IsDelivered c v o o'
  unfolding write_result
  write_result-IsDelivered c res w v o o' held h = go (render env c res) refl
    where
      sent :
          (bytes : String) (x : Result (Unit {0}) × O)
          → render env c res ≡ ok bytes
          → env.stdout bytes o ≡ x
          → written env w x ≡ (0, v, o')
          → IsDelivered c v o o'
      sent bytes (ok t, o1) rendered done h = (
        res,
        bytes,
        subst (λ u. Holds view u c.issuer c.client_id res) (ap (λ p. p.1) h) held,
        rendered,
        done ∙ ap (λ p. (ok tt, p.2)) h,
      )
      sent bytes (err e, o1) rendered failed h = absurd (ground arith)

      go : (x : Result String) → render env c res ≡ x → IsDelivered c v o o'
      go (err e) rendered = absurd (ground arith)
      go (ok bytes) rendered =
          sent bytes (env.stdout bytes o) rendered refl (rw (write_result, rendered) at h)

  finish-IsDelivered :
      (c : Config K) (store : Store W (Result TokenResult)) (w v : W) (o o' : O)
      → IsLawful view store
      → finish env c o (run (runner_of env c store) w) ≡ (0, v, o')
      → IsDelivered c v o o'
  finish-IsDelivered c store w v o o' lawful h = go (run (runner_of env c store) w) refl h
    where
      go :
          (x : Result TokenResult × W)
          → run (runner_of env c store) w ≡ x
          → finish env c o x ≡ (0, v, o')
          → IsDelivered c v o o'
      go (ok res, u) ran h =
          write_result-IsDelivered c res u v o o'
            (run-Holds (runner_of env c store) view lawful w u res ran) h
      go (err e, u) ran h = absurd (ground arith)

  with_store-IsDelivered :
      (c : Config K) (store : Store W (Result TokenResult)) (w v : W) (o o' : O)
      → IsLawful view store
      → c.logout ≡ false
      → with_store env c o (ok store, w) ≡ (0, v, o')
      → IsDelivered c v o o'
  with_store-IsDelivered c store w v o o' lawful login h =
      finish-IsDelivered c store w v o o' lawful (
        sym (
          if_false (logged_out env o (logout (runner_of env c store) w))
            (finish env c o (run (runner_of env c store) w)) login)
        ∙ h)

  -- Where the parsed configuration asks for a login grant and no logout, and its store is built and
  -- keeps its contract: if `main` exits with 0 then standard output got one successful write, the
  -- rendering of tokens which the store holds for the issuer and the client of the configuration.
  pub main-IsDelivered :
      (args : List String) (c : Config K) (te : TokenExchange W)
      (store : Store W (Result TokenResult)) (w w1 v : W) (o o' : O)
      → env.parse args w ≡ ok (c, te)
      → c.grant_type ≢ "token-exchange"
      → c.logout ≡ false
      → build_store env c w ≡ (ok store, w1)
      → IsLawful view store
      → main env args w o ≡ (0, v, o')
      → IsDelivered c v o o'
  unfolding main execute
  main-IsDelivered args c te store w w1 v o o' parsed grant no_logout built lawful h =
      let other : (c.grant_type == "token-exchange") ≡ false =
        ground (arith, eq_iff c.grant_type "token-exchange") in
      with_store-IsDelivered c store w1 v o o' lawful no_logout
        (rw (main, parsed, execute, other, built) at h)
