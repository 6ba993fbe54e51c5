-- ===== src/Cache/File/Whole.antt =====
-- What a save of internal/cache/cache.go leaves on disk.
use oidc_token_cli.Base.{
  String, ◌≡◌, ◌≢◌, refl, sym, ap, ◌∙◌, none, some, Error, wrap, Result, ok, err, ◌>>=◌, map_err,
  on_err_rule, step_rule, renamed_step_rule,
}
use oidc_token_cli.Cache.{Entry}
use oidc_token_cli.Cache.File.{
  FileSystem, Layout, path, dir_mode, ensure_dir, cleanup, fill_and_rename, replace, encoded, save,
}
use oidc_token_cli.Cache.File.Atomic.{
  Contents, IsFileSystem, Outcome, OnlyTouched, fill_and_rename-Outcome, cleanup-Outcome,
}

module _ {W : Type 0} (fs : FileSystem W) (l : Layout) (content : Contents W)
    (files : IsFileSystem content fs) where
  -- A save of `e` from `w` came out whole: either the file of its profile holds its encoding, or the
  -- save has failed and that file is as it was. Every other file that was there is as it was.
  abbrev pub IsWhole : Entry → W → Result (Unit {0}) × W → Type 0
  IsWhole e w (ok o, v) =
      (b : String) × (l.encode e ≡ ok b)
      × (content v (path l e.issuer e.client_id) ≡ some b)
      × ((q : String)
          → q ≢ path l e.issuer e.client_id
          → content w q ≢ none
          → content v q ≡ content w q)
  IsWhole e w (err x, v) =
      (content v (path l e.issuer e.client_id) ≡ content w (path l e.issuer e.client_id))
      × ((q : String)
          → q ≢ path l e.issuer e.client_id
          → content w q ≢ none
          → content v q ≡ content w q)

  -- No temporary file bears the name of a profile's file.
  abbrev pub TempsApart : Type 0
  TempsApart =
      (issuer client_id n : String) (w v : W)
      → fs.create_temp l.dir w ≡ (ok n, v)
      → path l issuer client_id ≢ n

  module _ (temps : TempsApart) (e : Entry) where
    unchanged-IsWhole :
        (w v : W) (x : Error) → ((q : String) → content v q ≡ content w q) → IsWhole e w (err x, v)
    unchanged-IsWhole w v x kept = (kept (path l e.issuer e.client_id), λ q _ _. kept q)

    Outcome-IsWhole :
        (b temp : String) (w u : W) (x : Result (Unit {0}) × W)
        → l.encode e ≡ ok b
        → path l e.issuer e.client_id ≢ temp
        → content w temp ≡ none
        → OnlyTouched fs l content files temp w u
        → Outcome fs l content files (path l e.issuer e.client_id) b temp u x
        → IsWhole e w x
    Outcome-IsWhole b temp w u (ok o, v) encodes apart absent only (placed, others) = (
      b,
      encodes,
      placed,
      λ q p there.
          let other : q ≢ temp = λ same. there (ap (content w) same ∙ absent) in
          others q other p ∙ only q other,
    )
    Outcome-IsWhole b temp w u (err x, v) encodes apart absent only (kept, others) = (
      kept ∙ only (path l e.issuer e.client_id) apart,
      λ q p there.
          let other : q ≢ temp = λ same. there (ap (content w) same ∙ absent) in
          others q other p ∙ only q other,
    )

    replace-IsWhole :
        (b : String) (w : W)
        → l.encode e ≡ ok b
        → IsWhole e w (replace fs l (path l e.issuer e.client_id) b w)
    unfolding replace
    replace-IsWhole b w encodes =
        renamed_step_rule (IsWhole e w) (wrap "cache: create temp file") (fs.create_temp l.dir w)
          (λ temp u.
            cleanup fs l temp (fill_and_rename fs l (path l e.issuer e.client_id) b temp u))
          (λ temp u h.
            let (absent, fresh, only) = files.create_temp-ok l.dir temp w u h in
            let apart = temps e.issuer e.client_id temp w u h in
            let filled =
              fill_and_rename-Outcome fs l content files (path l e.issuer e.client_id) b temp u
                apart fresh in
            Outcome-IsWhole b temp w u
              (cleanup fs l temp (fill_and_rename fs l (path l e.issuer e.client_id) b temp u))
              encodes apart absent only
              (cleanup-Outcome fs l content files (path l e.issuer e.client_id) b temp u
                (fill_and_rename fs l (path l e.issuer e.client_id) b temp u) apart filled))
          (λ x v h.
            unchanged-IsWhole w v (wrap "cache: create temp file" x)
              (λ q. files.create_temp-err l.dir q x w v h))

    -- From a world with the same files.
    IsWhole-from :
        (w u : W) (x : Result (Unit {0}) × W)
        → ((q : String) → content u q ≡ content w q)
        → IsWhole e u x
        → IsWhole e w x
    IsWhole-from w u (ok o, v) kept (b, encodes, placed, others) =
        (b, encodes, placed, λ q p there. others q p (λ gone. there (sym (kept q) ∙ gone)) ∙ kept q)
    IsWhole-from w u (err x, v) kept (same, others) = (
      same ∙ kept (path l e.issuer e.client_id),
      λ q p there. others q p (λ gone. there (sym (kept q) ∙ gone)) ∙ kept q,
    )

  pub ensure_dir-keeps : (q : String) (w : W) → content (ensure_dir fs l w).1 q ≡ content w q
  unfolding ensure_dir
  ensure_dir-keeps q w =
      renamed_step_rule (λ x. content x.1 q ≡ content w q) (wrap "cache: create dir")
        (fs.make_dir l.dir w) (λ _. map_err (wrap "cache: chmod dir") (fs.chmod l.dir dir_mode))
        (λ o u h.
          on_err_rule (λ x. content x.1 q ≡ content w q) (wrap "cache: chmod dir")
            (fs.chmod l.dir dir_mode u)
            (λ o' v h'.
              ap (λ p. content p.1 q) (sym h') ∙ files.chmod-keeps l.dir dir_mode q u ∙ made u h)
            (λ e v h'.
              ap (λ p. content p.1 q) (sym h') ∙ files.chmod-keeps l.dir dir_mode q u ∙ made u h))
        (λ e v h. made v h)
    where
      made :
          {r : Result (Unit {0})} (v : W) → fs.make_dir l.dir w ≡ (r, v) → content v q ≡ content w q
      made v h = ap (λ p. content p.1 q) (sym h) ∙ files.make_dir-keeps l.dir q w

  -- Where no temporary file bears the name of a profile's file: whichever steps of a save fail, the
  -- file of the profile is never partly written. It holds the encoding of the entry if the save
  -- reports no error, and else what it held before; every other file that was there is untouched.
  pub save-IsWhole : TempsApart → (e : Entry) (w : W) → IsWhole e w (save fs l e w)
  unfolding save
  save-IsWhole temps e w =
      step_rule (IsWhole e w) (ensure_dir fs l w)
        (λ _. encoded fs l (l.encode e) >>= replace fs l (path l e.issuer e.client_id))
        (λ o u h.
          IsWhole-from temps e w u
            ((encoded fs l (l.encode e) >>= replace fs l (path l e.issuer e.client_id)) u)
            (kept u h) (marshalled u (l.encode e) refl))
        (λ x v h. unchanged-IsWhole temps e w v x (kept v h))
    where
      kept :
          {r : Result (Unit {0})} (u : W)
          → ensure_dir fs l w ≡ (r, u)
          → (q : String) → content u q ≡ content w q
      kept u h q = ap (λ p. content p.1 q) (sym h) ∙ ensure_dir-keeps q w

      marshalled :
          (u : W) (r : Result String)
          → l.encode e ≡ r
          → IsWhole e u
              ((encoded fs l (l.encode e) >>= replace fs l (path l e.issuer e.client_id)) u)
      marshalled u (ok b) encodes = rw encodes (replace-IsWhole temps e b u encodes)
      marshalled u (err x) encodes =
          rw encodes (unchanged-IsWhole temps e u u (wrap "cache: marshal" x) (λ q. refl))
