-- ===== src/Cache/File/Atomic.antt =====
-- How the steps of a save of internal/cache/cache.go come out, whichever of them fails: what each
-- leaves in the destination, and in the other files.
use oidc_token_cli.Base.{
  ℕ, String, ◌≡◌, ◌≢◌, refl, sym, ap, ◌∙◌, true, Option, none, some, Error, wrap, is_error,
  not_exist, Result, ok, err, ◌>>◌, map_err, result_rule, on_err_rule, step_rule, renamed_step_rule,
}
use oidc_token_cli.Cache.File.{
  FileSystem, Layout, file_mode, cleanup, close_failed, write_temp, fill_and_rename,
}

-- What a file holds, `none` where there is no file.
abbrev pub Contents : Type 0 → Type 0
Contents W = W → String → Option String

-- The documented behaviour of the operating system that the store relies on. Each operation may
-- fail at any time; a write that fails may leave anything in the file that it writes.
pub record IsFileSystem {W : Type 0} (content : Contents W) (fs : FileSystem W) : Type 0 where
  pub make_dir-keeps : (p q : String) (w : W) → content (fs.make_dir p w).1 q ≡ content w q
  pub chmod-keeps :
      (p : String) (mode : ℕ) (q : String) (w : W) → content (fs.chmod p mode w).1 q ≡ content w q
  pub close-keeps : (p q : String) (w : W) → content (fs.close p w).1 q ≡ content w q
  pub unlock-keeps : (p q : String) (w : W) → content (fs.unlock p w) q ≡ content w q
  pub read-keeps : (p q : String) (w : W) → content (fs.read_file p w).1 q ≡ content w q
  pub read-ok : (p s : String) (w v : W) → fs.read_file p w ≡ (ok s, v) → content w p ≡ some s
  pub read-absent :
      (p : String) (e : Error) (w v : W)
      → fs.read_file p w ≡ (err e, v)
      → is_error not_exist e ≡ true
      → content w p ≡ none
  -- A new, empty file.
  pub create_temp-ok :
      (d n : String) (w v : W)
      → fs.create_temp d w ≡ (ok n, v)
      → (content w n ≡ none)
        × (content v n ≡ some "")
        × ((q : String) → q ≢ n → content v q ≡ content w q)
  pub create_temp-err :
      (d q : String) (e : Error) (w v : W)
      → fs.create_temp d w ≡ (err e, v)
      → content v q ≡ content w q
  pub write-ok :
      (n b : String) (w v : W)
      → fs.write n b w ≡ (ok tt, v)
      → content w n ≡ some ""
      → content v n ≡ some b
  pub write-others : (n b q : String) (w : W) → q ≢ n → content (fs.write n b w).1 q ≡ content w q
  -- A rename takes place as a whole or not at all.
  pub rename-ok :
      (a b : String) (w v : W)
      → fs.rename a b w ≡ (ok tt, v)
      → (content v b ≡ content w a) × ((q : String) → q ≢ a → q ≢ b → content v q ≡ content w q)
  pub rename-err :
      (a b q : String) (e : Error) (w v : W)
      → fs.rename a b w ≡ (err e, v)
      → content v q ≡ content w q
  pub remove-ok : (p : String) (w v : W) → fs.remove p w ≡ (ok tt, v) → content v p ≡ none
  pub remove-absent :
      (p : String) (e : Error) (w v : W)
      → fs.remove p w ≡ (err e, v)
      → is_error not_exist e ≡ true
      → content v p ≡ none
  pub remove-others : (p q : String) (w : W) → q ≢ p → content (fs.remove p w).1 q ≡ content w q

module _ {W : Type 0} (fs : FileSystem W) (l : Layout) (content : Contents W)
    (files : IsFileSystem content fs) where
  -- How a step from `w` to a result came out that is to put `b` into `dest`: it holds `b`, or, where
  -- the step has failed, what it held. `touched` is the one other file that may have changed.
  abbrev pub Outcome : String → String → String → W → Result (Unit {0}) × W → Type 0
  Outcome dest b touched w (ok o, v) =
      (content v dest ≡ some b)
      × ((q : String) → q ≢ touched → q ≢ dest → content v q ≡ content w q)
  Outcome dest b touched w (err e, v) =
      (content v dest ≡ content w dest)
      × ((q : String) → q ≢ touched → q ≢ dest → content v q ≡ content w q)

  write_temp-others :
      (temp b q : String) (w : W) → q ≢ temp → content (write_temp fs l temp b w).1 q ≡ content w q
  unfolding write_temp
  write_temp-others temp b q w other =
      result_rule (λ x. content (close_failed fs l temp x).1 q ≡ content x.1 q) (fs.write temp b w)
        (λ o v _. refl) (λ e v _. files.close-keeps temp q v)
      ∙ files.write-others temp b q w other

  -- Nothing but the temporary file has changed.
  abbrev pub OnlyTouched : String → W → W → Type 0
  OnlyTouched temp w v = (q : String) → q ≢ temp → content v q ≡ content w q

  pub failed-Outcome :
      (dest b temp : String) (w v : W) (e : Error)
      → dest ≢ temp
      → OnlyTouched temp w v
      → Outcome dest b temp w (err e, v)
  failed-Outcome dest b temp w v e apart only = (only dest apart, λ q p _. only q p)

  -- A step that changes no file.
  OnlyTouched-kept :
      (temp : String) (w u v : W)
      → ((q : String) → content v q ≡ content u q)
      → OnlyTouched temp w u
      → OnlyTouched temp w v
  OnlyTouched-kept temp w u v kept only q other = kept q ∙ only q other

  rename-Outcome :
      (dest b temp : String) (w u : W)
      → dest ≢ temp
      → content u temp ≡ some b
      → OnlyTouched temp w u
      → Outcome dest b temp w (map_err (wrap "cache: rename temp file") (fs.rename temp dest) u)
  rename-Outcome dest b temp w u apart filled only =
      on_err_rule (Outcome dest b temp w) (wrap "cache: rename temp file") (fs.rename temp dest u)
        (λ o v h.
          let (moved, others) = files.rename-ok temp dest u v h in
          (moved ∙ filled, λ q p p'. others q p p' ∙ only q p))
        (λ e v h.
          failed-Outcome dest b temp w v (wrap "cache: rename temp file" e) apart
            (OnlyTouched-kept temp w u v (λ q. files.rename-err temp dest q e u v h) only))

  chmod-Outcome :
      (dest b temp : String) (w u : W)
      → dest ≢ temp
      → content u temp ≡ some b
      → OnlyTouched temp w u
      → Outcome dest b temp w (
          (map_err (wrap "cache: chmod temp file") (fs.chmod temp file_mode)
              >> map_err (wrap "cache: rename temp file") (fs.rename temp dest))
            u)
  chmod-Outcome dest b temp w u apart filled only =
      renamed_step_rule (Outcome dest b temp w) (wrap "cache: chmod temp file")
        (fs.chmod temp file_mode u)
        (λ _. map_err (wrap "cache: rename temp file") (fs.rename temp dest))
        (λ o v h.
          rename-Outcome dest b temp w v apart (kept v h temp ∙ filled)
            (OnlyTouched-kept temp w u v (kept v h) only))
        (λ e v h.
          failed-Outcome dest b temp w v (wrap "cache: chmod temp file" e) apart
            (OnlyTouched-kept temp w u v (kept v h) only))
    where
      kept :
          {r : Result (Unit {0})} (v : W)
          → fs.chmod temp file_mode u ≡ (r, v)
          → (q : String) → content v q ≡ content u q
      kept v h q = ap (λ p. content p.1 q) (sym h) ∙ files.chmod-keeps temp file_mode q u

  finish_temp-Outcome :
      (dest b temp : String) (w u : W)
      → dest ≢ temp
      → content u temp ≡ some b
      → OnlyTouched temp w u
      → Outcome dest b temp w (
          (map_err (wrap "cache: close temp file") (fs.close temp)
              >> (map_err (wrap "cache: chmod temp file") (fs.chmod temp file_mode)
                  >> map_err (wrap "cache: rename temp file") (fs.rename temp dest)))
            u)
  finish_temp-Outcome dest b temp w u apart filled only =
      renamed_step_rule (Outcome dest b temp w) (wrap "cache: close temp file") (fs.close temp u)
        (λ _.
          map_err (wrap "cache: chmod temp file") (fs.chmod temp file_mode)
          >> map_err (wrap "cache: rename temp file") (fs.rename temp dest))
        (λ o v h.
          chmod-Outcome dest b temp w v apart (kept v h temp ∙ filled)
            (OnlyTouched-kept temp w u v (kept v h) only))
        (λ e v h.
          failed-Outcome dest b temp w v (wrap "cache: close temp file" e) apart
            (OnlyTouched-kept temp w u v (kept v h) only))
    where
      kept :
          {r : Result (Unit {0})} (v : W)
          → fs.close temp u ≡ (r, v)
          → (q : String) → content v q ≡ content u q
      kept v h q = ap (λ p. content p.1 q) (sym h) ∙ files.close-keeps temp q u

  write_temp-ok :
      (temp b : String) (w v : W)
      → write_temp fs l temp b w ≡ (ok tt, v)
      → content w temp ≡ some ""
      → content v temp ≡ some b
  unfolding write_temp
  write_temp-ok temp b w v h fresh = go (fs.write temp b w) refl h
    where
      go :
          (x : Result (Unit {0}) × W)
          → fs.write temp b w ≡ x
          → close_failed fs l temp x ≡ (ok tt, v)
          → content v temp ≡ some b
      go (ok o, u) written h = files.write-ok temp b w v (written ∙ h) fresh
      go (err e, u) written h = cc

  pub fill_and_rename-Outcome :
      (dest b temp : String) (w : W)
      → dest ≢ temp
      → content w temp ≡ some ""
      → Outcome dest b temp w (fill_and_rename fs l dest b temp w)
  unfolding fill_and_rename
  fill_and_rename-Outcome dest b temp w apart fresh =
      step_rule (Outcome dest b temp w) (write_temp fs l temp b w)
        (λ _.
          map_err (wrap "cache: close temp file") (fs.close temp)
          >> (map_err (wrap "cache: chmod temp file") (fs.chmod temp file_mode)
              >> map_err (wrap "cache: rename temp file") (fs.rename temp dest)))
        (λ o v h.
          finish_temp-Outcome dest b temp w v apart (write_temp-ok temp b w v h fresh) (only v h))
        (λ e v h. failed-Outcome dest b temp w v e apart (only v h))
    where
      only :
          {r : Result (Unit {0})} (v : W) → write_temp fs l temp b w ≡ (r, v) → OnlyTouched temp w v
      only v h q other = ap (λ p. content p.1 q) (sym h) ∙ write_temp-others temp b q w other

  pub cleanup-Outcome :
      (dest b temp : String) (w : W) (x : Result (Unit {0}) × W)
      → dest ≢ temp
      → Outcome dest b temp w x
      → Outcome dest b temp w (cleanup fs l temp x)
  cleanup-Outcome dest b temp w (ok o, v) apart out = out
  cleanup-Outcome dest b temp w (err e, v) apart (kept, others) = (
    files.remove-others temp dest v apart ∙ kept,
    λ q p p'. files.remove-others temp q v p ∙ others q p p',
  )
