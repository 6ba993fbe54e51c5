-- ===== src/Main/Kept.antt =====
-- What a successful run of cmd/oidc-token/main.go has left behind, with the store that `buildStore`
-- of the same file has chosen.
use oidc_token_cli.Base.{
  String, ◌≡◌, ◌≢◌, refl, ap, ◌⊎◌, inl, inr, false, List, ◌==◌, eq_iff, if_cases, Error, Result, ok,
  err, arith,
}
use mathlib.Core.Path.{subst}
use oidc_token_cli.Output.{TokenResult}
use oidc_token_cli.Config.{Config}
use oidc_token_cli.Grant.TokenExchange.{TokenExchange}
use oidc_token_cli.Cache.{Store}
use oidc_token_cli.Cache.Lawful.{View, IsLawful}
use oidc_token_cli.Cache.Noop.{noop_store}
use oidc_token_cli.Cache.Chain.{chain, log_fallback}
use oidc_token_cli.Cache.Chain.Contract.{
  auto_chain, IsReady, IsAway, LeavesAlone, chain_ready-IsLawful, chain_away-IsLawful,
}
use oidc_token_cli.Main.{Process, main, execute, build_store, probed}
use oidc_token_cli.Main.Stored.{IsDelivered, main-IsDelivered}

not_equal : (s t : String) → (s == t) ≡ false → s ≢ t
not_equal s t h same = ground (arith, eq_iff s t)

module _ {W K O : Type 0} (env : Process W K O) (in_keychain : View W) (in_files : String → View W)
    (keychain-IsLawful : IsLawful in_keychain env.keychain_store)
    (files-IsLawful : (dir : String) → IsLawful (in_files dir) (env.file_store dir)) where
  -- The keychain can be used all the time, and the file store leaves it alone; or it cannot be used
  -- all the time, the file store can, and its refusals and the notice leave the files alone.
  abbrev pub IsSettled : String → Type 0
  IsSettled dir =
      (IsReady env.keychain_store × LeavesAlone (env.file_store dir) in_keychain)
      ⊎ (IsAway env.keychain_store (in_files dir)
          × IsReady (env.file_store dir)
          × ((e : Error) (w : W) (i c : String)
              → in_files dir (log_fallback env.notice e w) i c ≡ in_files dir w i c))

  -- A store that keeps its contract over the keychain or over the files of a directory.
  abbrev KeepsIn : String → Store W (Result TokenResult) → Type 0
  KeepsIn dir store = IsLawful in_keychain store ⊎ IsLawful (in_files dir) store

  chain-KeepsIn :
      (dir : String)
      → IsSettled dir
      → KeepsIn dir (chain (auto_chain env.notice env.keychain_store (env.file_store dir)))
  chain-KeepsIn dir (inl (ready, alone)) = inl (
      chain_ready-IsLawful env.notice env.keychain_store (env.file_store dir) in_keychain
        keychain-IsLawful ready alone)
  chain-KeepsIn dir (inr (away, ready, kept)) = inr (
      chain_away-IsLawful env.notice env.keychain_store (env.file_store dir) (in_files dir)
        (files-IsLawful dir) ready away kept)

  -- The store of an answer.
  abbrev chosen : Result (Store W (Result TokenResult)) × W → Store W (Result TokenResult)
  chosen (ok store, w) = store
  chosen (err e, w) = env.keychain_store

  -- An answer, if it is a store, is one that keeps its contract.
  abbrev Answers : String → Result (Store W (Result TokenResult)) × W → Type 0
  Answers dir x =
      (store : Store W (Result TokenResult)) (w1 : W) → x ≡ (ok store, w1) → KeepsIn dir store

  answer-Answers :
      (dir : String) (s : Store W (Result TokenResult)) (w : W)
      → KeepsIn dir s
      → Answers dir (ok s, w)
  answer-Answers dir s w keeps store w1 h = subst (KeepsIn dir) (ap chosen h) keeps

  probed-Answers : (dir : String) (x : Result (Unit {0}) × W) → Answers dir (probed env x)
  probed-Answers dir (ok o, w) = answer-Answers dir env.keychain_store w (inl keychain-IsLawful)
  probed-Answers dir (err e, w) = λ store w1 h. cc

  -- This is asked only where the configuration chains the two.
  abbrev pub IsSettledFor : Config K → Type 0
  IsSettledFor c = c.token_store ≢ "file" → c.token_store ≢ "keychain" → IsSettled c.token_store_dir

  build_store-KeepsIn :
      (c : Config K) (store : Store W (Result TokenResult)) (w w1 : W)
      → IsSettledFor c
      → c.token_store ≢ "none"
      → build_store env c w ≡ (ok store, w1)
      → KeepsIn c.token_store_dir store
  unfolding build_store
  build_store-KeepsIn c store w w1 settled kept h =
      let dir = c.token_store_dir in
      let none_or_auto : (Store W (Result TokenResult)) =
        chain (auto_chain env.notice env.keychain_store (env.file_store dir)) in
      if_cases (Answers dir) (c.token_store == "file") (ok (env.file_store dir), w) _
        (λ _. answer-Answers dir (env.file_store dir) w (inr (files-IsLawful dir)))
        (λ no_file.
          if_cases (Answers dir) (c.token_store == "keychain") (probed env (env.keychain_probe w)) _
            (λ _. probed-Answers dir (env.keychain_probe w))
            (λ no_keychain.
              if_cases (Answers dir) (c.token_store == "none") (ok noop_store, w)
                (ok none_or_auto, w) (λ off. absurd (kept ((eq_iff c.token_store "none").0 off)))
                (λ _. answer-Answers dir none_or_auto w (
                  chain-KeepsIn dir (
                    settled (not_equal c.token_store "file" no_file)
                      (not_equal c.token_store "keychain" no_keychain))))))
        store w1 h

  -- Where the configuration asks for a login grant, no logout and a store, the keychain and file
  -- stores keep their contracts, and, if the two are chained, the keychain is available or not for
  -- all of the run: if `main` exits with 0 then standard output got one successful write, the rendering of tokens that the
  -- keychain or the directory of the configuration holds for its issuer and client.
  pub main-IsKept :
      (args : List String) (c : Config K) (te : TokenExchange W) (w v : W) (o o' : O)
      → env.parse args w ≡ ok (c, te)
      → c.grant_type ≢ "token-exchange"
      → c.logout ≡ false
      → c.token_store ≢ "none"
      → IsSettledFor c
      → main env args w o ≡ (0, v, o')
      → IsDelivered env in_keychain c v o o' ⊎ IsDelivered env (in_files c.token_store_dir) c v o o'
  unfolding main execute
  main-IsKept args c te w v o o' parsed grant no_logout kept settled h =
      go (build_store env c w) refl
    where
      other : (c.grant_type == "token-exchange") ≡ false
      other = ground (arith, eq_iff c.grant_type "token-exchange")

      go :
          (x : Result (Store W (Result TokenResult)) × W)
          → build_store env c w ≡ x
          → IsDelivered env in_keychain c v o o'
            ⊎ IsDelivered env (in_files c.token_store_dir) c v o o'
      go (err e, u) built = absurd (cc (rw (main, parsed, execute, other, built) at h))
      go (ok store, u) built = elim (build_store-KeepsIn c store w u settled kept built) [
        | inl lawful ↦ inl (
            main-IsDelivered env in_keychain args c te store w u v o o' parsed grant no_logout built
              lawful h)
        | inr lawful ↦ inr (
            main-IsDelivered env (in_files c.token_store_dir) args c te store w u v o o' parsed
              grant no_logout built lawful h)
      ]
