-- ===== src/Runner/Concurrent/Once.antt =====
-- That runs which find the same expired entry have it refreshed once between them.
use oidc_token_cli.Base.{
  true-ne-false, ℕ, ◌≤◌, String, ◌≡◌, refl, sym, ap, ◌∙◌, true, inl, inr, Option, none, some, [],
  ◌∷◌, length, ok, err, arith,
}
use oidc_token_cli.Output.{TokenResult}
use oidc_token_cli.Cache.{Entry}
use oidc_token_cli.Runner.{result_entry, keep_refresh_token}
use oidc_token_cli.Runner.Process.{
  Phase, reloading, refreshing, leaving, logging_in, ended, after_refreshing, after_saving,
  after_login, after_saving_login, id_token_failure,
}
use oidc_token_cli.Runner.Concurrent.{
  System, update, at, start, is_critical, Step, Reach, tick, load, load_fails, lock, lock_fails,
  reload, reload_fails, refresh, refresh_fails, save, save_fails, leave, log_in, login_fails,
  save_login, save_login_fails, log_out, killed, here, later,
}
use oidc_token_cli.Runner.Concurrent.Exclusion.{
  Exclusive, OneCritical, update_self, Reach-OneCritical,
}
use oidc_token_cli.Runner.Concurrent.Lasting.{
  LastingResult, result_entry-LastingEntry, Fine, at-Fine, after_loading-Fine, after_leaving-Fine,
  after_login-Fine,
}
use oidc_token_cli.Runner.Concurrent.Invariant.{
  AtMostOnce, is_saving, Once, quiet, reload-Fine, refresh-Fine, refresh-saving, others-Fine,
  stored-AtMostOnce,
}

module _ (horizon : ℕ) where
  module _ (token_type issuer client_id : String) (lock_of : ℕ → ℕ)
      (IsGranted : System → TokenResult → Type 0)
      (lasting : (s : System) (res : TokenResult)
        → IsGranted s res
        → LastingResult horizon res × (id_token_failure token_type res ≡ none)) where
    abbrev CalmStep : System → System → Type 0
    CalmStep = Step token_type issuer client_id lock_of IsGranted true

    saved-Once :
        (s : System) (i : ℕ) (res : TokenResult) (p : Phase)
        → LastingResult horizon res
        → Fine horizon s.granted p
        → OneCritical (at s i p)
        → Once horizon s
        → Once horizon (record (at s i p) { stored = some (result_entry issuer client_id res) })
    saved-Once s i res p lasts fine exclusive inv = record {
      exclusive = exclusive;
      fine = at-Fine horizon s.granted s.phase i p fine inv.fine;
      at_most =
          stored-AtMostOnce horizon s.granted s.stored s.phase (update s.phase i p)
            (result_entry issuer client_id res)
            (result_entry-LastingEntry horizon issuer client_id res lasts) inv.at_most;
    }

    refreshed-Once :
        (s : System) (i : ℕ) (token : String) (res : TokenResult)
        → s.phase i ≡ refreshing token
        → IsGranted s res
        → OneCritical (at s i (after_refreshing token_type token (ok res)))
        → Once horizon s
        → Once horizon (record (at s i (after_refreshing token_type token (ok res))) {
          granted = (token, res) ∷ s.granted;
        })
    refreshed-Once s i token res e g exclusive inv =
        let p = after_refreshing token_type token (ok res) in
        let now = (token, res) ∷ s.granted in
        let unused : s.granted ≡ [] = rw e at (inv.fine i) in
        let one : length now ≡ 1 = rw unused refl in
        let (lasts, verified) = lasting s res g in
        record {
          exclusive = exclusive;
          fine =
              others-Fine horizon s i p now (ap is_critical e)
                (refresh-Fine horizon token_type now token res lasts verified one) inv;
          at_most = inr (
            one,
            inr (
              i,
              keep_refresh_token token res,
              update_self s.phase i p ∙ refresh-saving horizon token_type token res verified,
            ),
          );
        }

    Step-Once_of :
        {s t : System}
        → CalmStep s t
        → OneCritical t
        → s.time ≤ horizon
        → Once horizon s
        → Once horizon t
    unfolding after_saving after_saving_login after_refreshing after_login
    Step-Once_of tick exclusive early inv = record {
      exclusive = exclusive;
      fine = inv.fine;
      at_most = inv.at_most;
    }
    Step-Once_of {s} {t} (load i e) exclusive early inv =
        quiet horizon s t i _ exclusive refl refl refl
          (after_loading-Fine horizon s.granted s.time (ok s.stored)) (ap is_saving e) inv
    Step-Once_of {s} {t} (load_fails i f e) exclusive early inv =
        quiet horizon s t i _ exclusive refl refl refl
          (after_loading-Fine horizon s.granted s.time (err f)) (ap is_saving e) inv
    Step-Once_of {s} {t} (lock i {stale} e free) exclusive early inv =
        quiet horizon s t i (reloading stale) exclusive refl refl refl tt (ap is_saving e) inv
    Step-Once_of {s} {t} (lock_fails i e) exclusive early inv =
        quiet horizon s t i logging_in exclusive refl refl refl tt (ap is_saving e) inv
    Step-Once_of {s} {t} (reload i {stale} e) exclusive early inv =
        quiet horizon s t i _ exclusive refl refl refl (reload-Fine horizon s i stale e early inv)
          (ap is_saving e) inv
    Step-Once_of (reload_fails i f d e) exclusive early inv = absurd (true-ne-false d)
    Step-Once_of {s} (refresh i {token} res e g) exclusive early inv =
        refreshed-Once s i token res e g exclusive inv
    Step-Once_of {s} {t} (refresh_fails i f e) exclusive early inv =
        quiet horizon s t i _ exclusive refl refl refl tt (ap is_saving e) inv
    Step-Once_of {s} (save i {res} e) exclusive early inv =
        let fine = rw e at (inv.fine i) in
        saved-Once s i res (leaving (ok res)) fine.0 tt exclusive inv
    Step-Once_of (save_fails i f d e) exclusive early inv = absurd (true-ne-false d)
    Step-Once_of {s} {t} (leave i {x} e) exclusive early inv =
        quiet horizon s t i _ exclusive refl refl refl (after_leaving-Fine horizon s.granted x)
          (ap is_saving e) inv
    Step-Once_of {s} {t} (log_in i res e g) exclusive early inv =
        quiet horizon s t i _ exclusive refl refl refl
          (after_login-Fine horizon s.granted token_type res (lasting s res g).0) (ap is_saving e)
          inv
    Step-Once_of {s} {t} (login_fails i f e) exclusive early inv =
        quiet horizon s t i _ exclusive refl refl refl tt (ap is_saving e) inv
    Step-Once_of {s} (save_login i {res} e) exclusive early inv =
        let lasts : LastingResult horizon res = rw e at (inv.fine i) in
        saved-Once s i res (ended (ok res)) lasts tt exclusive inv
    Step-Once_of {s} {t} (save_login_fails i f e) exclusive early inv =
        quiet horizon s t i _ exclusive refl refl refl tt (ap is_saving e) inv
    Step-Once_of (log_out d) exclusive early inv = absurd (true-ne-false d)
    Step-Once_of (killed i f d c) exclusive early inv = absurd (true-ne-false d)

    Step-time : {s t : System} → CalmStep s t → s.time ≤ t.time
    Step-time tick = omega arith
    Step-time (load i e) = omega arith
    Step-time (load_fails i f e) = omega arith
    Step-time (lock i e free) = omega arith
    Step-time (lock_fails i e) = omega arith
    Step-time (reload i e) = omega arith
    Step-time (reload_fails i f d e) = omega arith
    Step-time (refresh i res e g) = omega arith
    Step-time (refresh_fails i f e) = omega arith
    Step-time (save i e) = omega arith
    Step-time (save_fails i f d e) = omega arith
    Step-time (leave i e) = omega arith
    Step-time (log_in i res e g) = omega arith
    Step-time (login_fails i f e) = omega arith
    Step-time (save_login i e) = omega arith
    Step-time (save_login_fails i f e) = omega arith
    Step-time (log_out d) = omega arith
    Step-time (killed i f d c) = omega arith

    Reach-Once :
        {s t : System}
        → ((i j : ℕ) → lock_of i ≡ lock_of j)
        → Exclusive lock_of s
        → Reach token_type issuer client_id lock_of IsGranted true s t
        → t.time ≤ horizon
        → Once horizon s
        → Once horizon t
    Reach-Once shared free here early inv = inv
    Reach-Once shared free (later {t} r st) early inv =
        let before : t.time ≤ horizon = omega (arith, Step-time st) in
        let one = Reach-OneCritical shared (later r st) free in
        Step-Once_of st one before (Reach-Once shared free r before inv)

    pub refreshed_once :
        ((i j : ℕ) → lock_of i ≡ lock_of j)
        → (stored : Option Entry) (time : ℕ) {s : System}
        → Reach token_type issuer client_id lock_of IsGranted true (start stored time) s
        → s.time ≤ horizon
        → AtMostOnce horizon s.granted s.stored s.phase
    refreshed_once shared stored time r early =
        let begun : Once horizon (start stored time) = record {
          exclusive = λ i j c d. absurd (true-ne-false (sym c));
          fine = λ i. tt;
          at_most = inl refl;
        } in
        (Reach-Once shared (λ k c. absurd (true-ne-false (sym c))) r early begun).at_most
