-- ===== src/Runner/Concurrent/Exclusion.antt =====
-- That at most one run is between the acquisition and the release of a lock.
use oidc_token_cli.Base.{
  some-inj, none-ne-some, true-ne-false, ℕ, String, ◌≡◌, ◌≢◌, refl, sym, ap, ◌∙◌, Bool, true, false,
  Bool-cases, inl, inr, ◌⊎◌, Option, none, some, nat_eq, is_empty, if_cases, Error, Result, ok, err,
  arith,
}
use oidc_token_cli.Output.{TokenResult}
use oidc_token_cli.Cache.{Entry}
use oidc_token_cli.Runner.{entry_valid}
use oidc_token_cli.Runner.Process.{
  Phase, logging_in, saving_login, ended, after_loading, after_leaving, after_login,
  after_saving_login, refused_or, id_token_failure,
}
use oidc_token_cli.Runner.Concurrent.{
  System, update, at, is_critical, Step, Reach, tick, load, load_fails, lock, lock_fails, reload,
  reload_fails, refresh, refresh_fails, save, save_fails, leave, log_in, login_fails, save_login,
  save_login_fails, log_out, killed, here, later,
}

-- At most one process is critical.
abbrev pub OneCritical : System → Type 0
OneCritical s = (i j : ℕ) → is_critical (s.phase i) ≡ true → is_critical (s.phase j) ≡ true → i ≡ j

pub update-cases :
    {A : Type 0} (f : ℕ → A) (i : ℕ) (p : A) (j : ℕ)
    → ((i ≡ j) × (update f i p j ≡ p)) ⊎ ((i ≢ j) × (update f i p j ≡ f j))
update-cases f i p j = elim (Bool-cases (nat_eq i j)) [
  | inl e ↦ inl (ground arith, rw e refl)
  | inr e ↦ inr ((λ same. ground arith), rw e refl)
]

pub update_self : {A : Type 0} (f : ℕ → A) (i : ℕ) (p : A) → update f i p i ≡ p
update_self f i p = elim (update-cases f i p i) [
  | inl (_, now) ↦ now
  | inr (other, _) ↦ absurd (other refl)
]

module _ (lock_of : ℕ → ℕ) where
  -- Where a process is critical, it holds its lock.
  abbrev pub Exclusive : System → Type 0
  Exclusive s = (j : ℕ) → is_critical (s.phase j) ≡ true → s.holder (lock_of j) ≡ some j

  -- A process stays in the critical section, or moves on without the lock.
  at-Exclusive :
      (s : System) (i : ℕ) (p : Phase)
      → (is_critical p ≡ true → is_critical (s.phase i) ≡ true)
      → Exclusive s
      → Exclusive (at s i p)
  at-Exclusive s i p moved inv j c = elim (update-cases s.phase i p j) [
    | inl (same, now) ↦ inv j (rw same at (moved (sym (ap is_critical now) ∙ c)))
    | inr (other, now) ↦ inv j (sym (ap is_critical now) ∙ c)
  ]

  -- The lock is taken while nobody has it, and released by the process that has it.
  lock-Exclusive :
      (s : System) (i : ℕ) (p : Phase)
      → s.holder (lock_of i) ≡ none
      → Exclusive s
      → Exclusive (record (at s i p) { holder = update s.holder (lock_of i) (some i) })
  lock-Exclusive s i p free inv j c = elim (update-cases s.phase i p j) [
    | inl (same, now) ↦
        ap (λ k. update s.holder (lock_of i) (some i) (lock_of k)) (sym same)
        ∙ (update_self s.holder (lock_of i) (some i) ∙ ap some same)
    | inr (other, now) ↦
        let held = inv j (sym (ap is_critical now) ∙ c) in
        elim (update-cases s.holder (lock_of i) (some i) (lock_of j)) [
          | inl (shared, _) ↦ absurd (none-ne-some (sym free ∙ (ap s.holder shared ∙ held)))
          | inr (_, kept) ↦ kept ∙ held
        ]
  ]

  release-Exclusive :
      (s : System) (i : ℕ) (p : Phase)
      → is_critical (s.phase i) ≡ true
      → is_critical p ≡ false
      → Exclusive s
      → Exclusive (record (at s i p) { holder = update s.holder (lock_of i) none })
  release-Exclusive s i p before after inv j c = elim (update-cases s.phase i p j) [
    | inl (same, now) ↦ absurd (true-ne-false (sym (sym (ap is_critical now) ∙ c) ∙ after))
    | inr (other, now) ↦
        let held = inv j (sym (ap is_critical now) ∙ c) in
        elim (update-cases s.holder (lock_of i) none (lock_of j)) [
          | inl (shared, _) ↦
              absurd (other (some-inj (sym (inv i before) ∙ (ap s.holder shared ∙ held))))
          | inr (_, kept) ↦ kept ∙ held
        ]
  ]

after_loading-critical :
    (now : ℕ) (x : Result (Option Entry)) → is_critical (after_loading now x) ≡ false
unfolding after_loading
after_loading-critical now (err e) = refl
after_loading-critical now (ok none) = refl
after_loading-critical now (ok (some entry)) =
    if_cases (λ p. is_critical p ≡ false) (entry_valid now entry) _ _ (λ _. refl)
      (λ _.
        if_cases (λ p. is_critical p ≡ false) (is_empty entry.refresh_token) _ _ (λ _. refl)
          (λ _. refl))

after_login-critical :
    (token_type : String) (x : Result TokenResult) → is_critical (after_login token_type x) ≡ false
unfolding after_login
after_login-critical token_type (err e) = refl
after_login-critical token_type (ok res) = go (id_token_failure token_type res)
  where
    go :
        (failure : Option Error)
        → is_critical (refused_or (λ e. ended (err e)) (saving_login res) failure) ≡ false
    go none = refl
    go (some e) = refl

after_leaving-critical : (x : Result TokenResult) → is_critical (after_leaving x) ≡ false
unfolding after_leaving
after_leaving-critical (ok res) = refl
after_leaving-critical (err e) = refl

after_saving_login-critical :
    (res : TokenResult) (x : Result (Unit {0})) → is_critical (after_saving_login res x) ≡ false
unfolding after_saving_login
after_saving_login-critical res (ok _) = refl
after_saving_login-critical res (err e) = refl

outside : (p q : Phase) → is_critical p ≡ false → is_critical p ≡ true → is_critical q ≡ true
outside p q e c = absurd (true-ne-false (sym c ∙ e))

module _ {token_type issuer client_id : String} {lock_of : ℕ → ℕ}
    {IsGranted : System → TokenResult → Type 0} {calm : Bool} where
  pub Step-Exclusive :
      {s t : System}
      → Step token_type issuer client_id lock_of IsGranted calm s t
      → Exclusive lock_of s
      → Exclusive lock_of t
  Step-Exclusive tick inv = inv
  Step-Exclusive {s} (load i e) inv =
      at-Exclusive lock_of s i _ (outside _ _ (after_loading-critical s.time (ok s.stored))) inv
  Step-Exclusive {s} (load_fails i f e) inv =
      at-Exclusive lock_of s i _ (outside _ _ (after_loading-critical s.time (err f))) inv
  Step-Exclusive {s} (lock i e free) inv = lock-Exclusive lock_of s i _ free inv
  Step-Exclusive {s} (lock_fails i e) inv =
      at-Exclusive lock_of s i _ (outside logging_in _ refl) inv
  Step-Exclusive {s} (reload i e) inv = at-Exclusive lock_of s i _ (λ _. ap is_critical e) inv
  Step-Exclusive {s} (reload_fails i f d e) inv =
      at-Exclusive lock_of s i _ (λ _. ap is_critical e) inv
  Step-Exclusive {s} (refresh i res e g) inv =
      at-Exclusive lock_of s i _ (λ _. ap is_critical e) inv
  Step-Exclusive {s} (refresh_fails i f e) inv =
      at-Exclusive lock_of s i _ (λ _. ap is_critical e) inv
  Step-Exclusive {s} (save i e) inv = at-Exclusive lock_of s i _ (λ _. ap is_critical e) inv
  Step-Exclusive {s} (save_fails i f d e) inv =
      at-Exclusive lock_of s i _ (λ _. ap is_critical e) inv
  Step-Exclusive {s} (leave i {x} e) inv =
      release-Exclusive lock_of s i _ (ap is_critical e) (after_leaving-critical x) inv
  Step-Exclusive {s} (log_in i res e g) inv =
      at-Exclusive lock_of s i _ (outside _ _ (after_login-critical token_type (ok res))) inv
  Step-Exclusive {s} (login_fails i f e) inv =
      at-Exclusive lock_of s i _ (outside _ _ (after_login-critical token_type (err f))) inv
  Step-Exclusive {s} (save_login i {res} e) inv =
      at-Exclusive lock_of s i _ (outside _ _ (after_saving_login-critical res (ok tt))) inv
  Step-Exclusive {s} (save_login_fails i {res} f e) inv =
      at-Exclusive lock_of s i _ (outside _ _ (after_saving_login-critical res (err f))) inv
  Step-Exclusive (log_out d) inv = inv
  Step-Exclusive {s} (killed i f d c) inv = release-Exclusive lock_of s i _ c refl inv

  pub Reach-Exclusive :
      {s t : System}
      → Reach token_type issuer client_id lock_of IsGranted calm s t
      → Exclusive lock_of s
      → Exclusive lock_of t
  Reach-Exclusive here inv = inv
  Reach-Exclusive (later r st) inv = Step-Exclusive st (Reach-Exclusive r inv)

  -- Runs that all take one lock: at most one of them is between its acquisition and its release.
  pub Reach-OneCritical :
      {s t : System}
      → ((i j : ℕ) → lock_of i ≡ lock_of j)
      → Reach token_type issuer client_id lock_of IsGranted calm s t
      → Exclusive lock_of s
      → OneCritical t
  Reach-OneCritical {s} {t} shared r begun i j in_i in_j =
      let inv = Reach-Exclusive r begun in
      some-inj (sym (inv i in_i) ∙ (ap t.holder (shared i j) ∙ inv j in_j))
