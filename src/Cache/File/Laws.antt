-- ===== src/Cache/File/Laws.antt =====
-- The file store of internal/cache/cache.go keeps the contract of a store.
use oidc_token_cli.Base.{
  String, ◌≡◌, refl, sym, ap, ◌∙◌, Bool, true, false, Bool-cases, inl, inr, Option, none, some,
  is_error, not_exist, Result, ok, err, M, arith, ◌>>=◌, map_err, >>=-ok, join, sentinel,
  lock_timeout,
}
use oidc_token_cli.Cache.{Entry}
use oidc_token_cli.Cache.Lawful.{View, IsLawful}
use oidc_token_cli.Cache.File.{
  FileSystem, Layout, path, lock_path, ensure_dir, load, loaded, save, delete, removed, with_lock,
  holding, unlocking, file_store,
}
use oidc_token_cli.Cache.File.Atomic.{Contents, IsFileSystem}
use oidc_token_cli.Cache.File.Whole.{IsWhole, TempsApart, save-IsWhole}

abbrev pub decoded : Layout → Option String → Option Entry
decoded l none = none
decoded l (some b) = l.decode b

-- What the directory holds for a profile: the entry that its file decodes to.
abbrev pub file_view : {W : Type 0} → Layout → Contents W → View W
file_view l content w i c = decoded l (content w (path l i c))

-- What was encoded decodes to itself (encoding/json).
abbrev pub RoundTrips : Layout → Type 0
RoundTrips l = (e : Entry) (b : String) → l.encode e ≡ ok b → l.decode b ≡ some e

module _ {W : Type 0} (fs : FileSystem W) (l : Layout) (content : Contents W)
    (files : IsFileSystem content fs) (temps : TempsApart fs l content files)
    (trips : RoundTrips l) where
  load-file_view :
      (i c : String) (w v : W) (o : Option Entry)
      → load fs l i c w ≡ (ok o, v)
      → (file_view l content w i c ≡ o) × (file_view l content v i c ≡ o)
  unfolding load
  load-file_view i c w v o h = go (fs.read_file (path l i c) w) refl h
    where
      both :
          (u : W)
          → content u (path l i c) ≡ content w (path l i c)
          → decoded l (content w (path l i c)) ≡ o
          → u ≡ v
          → (file_view l content w i c ≡ o) × (file_view l content v i c ≡ o)
      both u kept found same = (
        found,
        ap (λ x. decoded l (content x (path l i c))) (sym same) ∙ ap (decoded l) kept ∙ found,
      )

      kept :
          {r : Result String} (u : W)
          → fs.read_file (path l i c) w ≡ (r, u)
          → content u (path l i c) ≡ content w (path l i c)
      kept u read =
          ap (λ p. content p.1 (path l i c)) (sym read)
          ∙ files.read-keeps (path l i c) (path l i c) w

      go :
          (x : Result String × W)
          → fs.read_file (path l i c) w ≡ x
          → loaded fs l x ≡ (ok o, v)
          → (file_view l content w i c ≡ o) × (file_view l content v i c ≡ o)
      go (ok b, u) read h =
          both u (kept u read)
            (ap (decoded l) (files.read-ok (path l i c) b w u read) ∙ ground arith)
            (ap (λ p. p.1) h)
      go (err e, u) read h = elim (Bool-cases (is_error not_exist e)) [
        | inl absent ↦
            both u (kept u read)
              (ap (decoded l) (files.read-absent (path l i c) e w u read absent) ∙ ground arith)
              (ap (λ p. p.1) h)
        | inr other ↦ absurd (ground arith)
      ]

  save-file_view :
      (e : Entry) (w v : W)
      → save fs l e w ≡ (ok tt, v)
      → file_view l content v e.issuer e.client_id ≡ some e
  save-file_view e w v h = go (save fs l e w) h (save-IsWhole fs l content files temps e w)
    where
      go :
          (x : Result (Unit {0}) × W)
          → x ≡ (ok tt, v)
          → IsWhole fs l content files e w x
          → file_view l content v e.issuer e.client_id ≡ some e
      go (ok o, u) h (b, encodes, placed, _) =
          ap (λ p. decoded l (content p.1 (path l e.issuer e.client_id))) (sym h)
          ∙ ap (decoded l) placed
          ∙ trips e b encodes
      go (err x, u) h whole = cc

  delete-file_view :
      (i c : String) (w v : W) → delete fs l i c w ≡ (ok tt, v) → file_view l content v i c ≡ none
  unfolding delete
  delete-file_view i c w v h = go (fs.remove (path l i c) w) refl h
    where
      gone : (u : W) → content u (path l i c) ≡ none → u ≡ v → file_view l content v i c ≡ none
      gone u empty same =
          ap (λ x. decoded l (content x (path l i c))) (sym same) ∙ ap (decoded l) empty

      go :
          (x : Result (Unit {0}) × W)
          → fs.remove (path l i c) w ≡ x
          → removed fs l x ≡ (ok tt, v)
          → file_view l content v i c ≡ none
      go (ok o, u) did h = gone u (files.remove-ok (path l i c) w u did) (ap (λ p. p.1) h)
      go (err e, u) did h = elim (Bool-cases (is_error not_exist e)) [
        | inl absent ↦ gone u (files.remove-absent (path l i c) e w u did absent) (ap (λ p. p.1) h)
        | inr other ↦ absurd (ground arith)
      ]

  with_lock-file_view :
      {A : Type 0} (i c : String) (f : M W A) (w v : W) (a : A)
      → with_lock fs l i c f w ≡ (ok a, v)
      → (w' : W) × (v' : W) × (f w' ≡ (ok a, v'))
        × (file_view l content v i c ≡ file_view l content v' i c)
  unfolding with_lock
  with_lock-file_view {A} i c f w v a h =
      let lock = map_err (join (sentinel lock_timeout)) (fs.try_lock (lock_path l i c)) in
      let (_, u, _, h1) =
        >>=-ok (ensure_dir fs l) (λ _. lock >>= holding fs l (lock_path l i c) f) w h in
      let (got, u', _, h2) = >>=-ok lock (holding fs l (lock_path l i c) f) u h1 in go got u' h2
    where
      released :
          (u' : W) (x : Result A × W)
          → f u' ≡ x
          → unlocking fs l (lock_path l i c) x ≡ (ok a, v)
          → (w' : W) × (v' : W) × (f w' ≡ (ok a, v'))
            × (file_view l content v i c ≡ file_view l content v' i c)
      released u' (r, v') ran h = (
        u',
        v',
        ran ∙ ap (λ p. (p.0, v')) h,
        ap (λ p. decoded l (content p.1 (path l i c))) (sym h)
            ∙ ap (decoded l) (files.unlock-keeps (lock_path l i c) (path l i c) v'),
      )

      go :
          (got : Bool) (u' : W)
          → holding fs l (lock_path l i c) f got u' ≡ (ok a, v)
          → (w' : W) × (v' : W) × (f w' ≡ (ok a, v'))
            × (file_view l content v i c ≡ file_view l content v' i c)
      go true u' h = released u' (f u') refl h
      go false u' h = cc

  -- Where what is encoded decodes to itself: the file store keeps the contract of a store.
  pub file_store-IsLawful : {A : Type 0} → IsLawful (file_view l content) (file_store fs l {A = A})
  unfolding file_store
  file_store-IsLawful = record {
    load-ok = load-file_view;
    save-ok = save-file_view;
    delete-ok = delete-file_view;
    with_lock-ok = with_lock-file_view;
  }

  -- Where what is encoded decodes to itself: after a save that reports no error, a load that reports
  -- none finds the very entry that was saved, and so does the load after that.
  pub load-save :
      (e : Entry) (w v u u' : W) (o o' : Option Entry)
      → save fs l e w ≡ (ok tt, v)
      → load fs l e.issuer e.client_id v ≡ (ok o, u)
      → load fs l e.issuer e.client_id u ≡ (ok o', u')
      → (o ≡ some e) × (o' ≡ some e)
  load-save e w v u u' o o' saved found again =
      let (held, left) = load-file_view e.issuer e.client_id v u o found in
      let first = sym held ∙ save-file_view e w v saved in
      (first, sym (load-file_view e.issuer e.client_id u u' o' again).0 ∙ left ∙ first)
