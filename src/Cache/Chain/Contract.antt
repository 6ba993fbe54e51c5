-- ===== src/Cache/Chain/Contract.antt =====
-- The chain of a keychain and a file store that `--token-store=auto` uses keeps the contract of a
-- store: that of the keychain while this is available, and that of the files while it is not.
use oidc_token_cli.Base.{
  String, ◌≡◌, refl, sym, ap, ◌∙◌, true, false, Option, [], ◌∷◌, Error, backend_unavailable,
  is_error, Result, ok, err, M, arith,
}
use oidc_token_cli.Cache.{Entry, Store}
use oidc_token_cli.Cache.Lawful.{View, IsLawful}
use oidc_token_cli.Cache.Chain.{Notice, ChainStore, log_fallback, chain}

-- The chain that `buildStore` makes.
abbrev pub auto_chain : {W A : Type 0} → Notice W → Store W A → Store W A → ChainStore W A
auto_chain notice keychain files = record {
  backends =
      record { is_file = false; store = keychain } ∷ record { is_file = true; store = files } ∷ [];
  notice = notice;
}

module _ {W A : Type 0} (keychain : Store W A) where
  -- No operation says that the keychain cannot be used.
  pub record IsReady : Type 0 where
    pub load-ready :
        (i c : String) (w v : W) (e : Error)
        → keychain.load i c w ≡ (err e, v)
        → is_error backend_unavailable e ≡ false
    pub save-ready :
        (entry : Entry) (w v : W) (e : Error)
        → keychain.save entry w ≡ (err e, v)
        → is_error backend_unavailable e ≡ false
    pub delete-ready :
        (i c : String) (w v : W) (e : Error)
        → keychain.delete i c w ≡ (err e, v)
        → is_error backend_unavailable e ≡ false

  -- Every operation says that the keychain cannot be used, and leaves the files alone.
  pub record IsAway (view : View W) : Type 0 where
    pub load-away :
        (i c : String) (w : W)
        → (e : Error) × (v : W) × (keychain.load i c w ≡ (err e, v))
          × (is_error backend_unavailable e ≡ true)
          × (view v i c ≡ view w i c)
    pub save-away :
        (entry : Entry) (w : W)
        → (e : Error) × (v : W) × (keychain.save entry w ≡ (err e, v))
          × (is_error backend_unavailable e ≡ true)
    pub delete-away :
        (i c : String) (w : W)
        → (e : Error) × (v : W) × (keychain.delete i c w ≡ (err e, v))
          × (is_error backend_unavailable e ≡ true)

module _ {W A : Type 0} (files : Store W A) (view : View W) where
  -- What the file store does leaves the keychain alone: a delete, and the lock, which the chain
  -- takes from it.
  pub record LeavesAlone : Type 0 where
    pub delete-leaves : (i c : String) (w : W) → view (files.delete i c w).1 i c ≡ view w i c
    pub with_lock-leaves :
        (i c : String) (f : M W A) (w v : W) (a : A)
        → files.with_lock i c f w ≡ (ok a, v)
        → (w' : W) × (v' : W) × (f w' ≡ (ok a, v')) × (view v i c ≡ view v' i c)

module _ {W A : Type 0} (notice : Notice W) (keychain files : Store W A) (view : View W) where
  abbrev chained : Store W A
  chained = chain (auto_chain notice keychain files)

  module _ (lawful : IsLawful view keychain) (ready : IsReady keychain) where
    load_ready-ok :
        (i c : String) (w v : W) (o : Option Entry)
        → chained.load i c w ≡ (ok o, v)
        → keychain.load i c w ≡ (ok o, v)
    unfolding chain
    load_ready-ok i c w v o h = go (keychain.load i c w) refl
      where
        go :
            (x : Result (Option Entry) × W)
            → keychain.load i c w ≡ x
            → keychain.load i c w ≡ (ok o, v)
        go (ok o', u) asked = ground arith
        go (err e, u) asked = absurd (ground (arith, ready.load-ready i c w u e asked))

    save_ready-ok :
        (entry : Entry) (w v : W)
        → chained.save entry w ≡ (ok tt, v)
        → keychain.save entry w ≡ (ok tt, v)
    unfolding chain
    save_ready-ok entry w v h = go (keychain.save entry w) refl
      where
        go :
            (x : Result (Unit {0}) × W)
            → keychain.save entry w ≡ x
            → keychain.save entry w ≡ (ok tt, v)
        go (ok o, u) asked = ground arith
        go (err e, u) asked = absurd (ground (arith, ready.save-ready entry w u e asked))

    delete_ready-ok :
        (i c : String) (w v : W)
        → chained.delete i c w ≡ (ok tt, v)
        → (u : W) × (keychain.delete i c w ≡ (ok tt, u)) × ((files.delete i c u).1 ≡ v)
    unfolding chain
    delete_ready-ok i c w v h = go (keychain.delete i c w) refl
      where
        go :
            (x : Result (Unit {0}) × W)
            → keychain.delete i c w ≡ x
            → (u : W) × (keychain.delete i c w ≡ (ok tt, u)) × ((files.delete i c u).1 ≡ v)
        go (ok o, u) asked = (u, asked, ground arith)
        go (err e, u) asked = absurd (ground (arith, ready.delete-ready i c w u e asked))

    -- Where the keychain can be used all the time, and the file store leaves it alone: the chain
    -- keeps the contract of a store over what the keychain holds.
    pub chain_ready-IsLawful : LeavesAlone files view → IsLawful view chained
    unfolding chain
    chain_ready-IsLawful alone = record {
      load-ok = λ i c w v o h. lawful.load-ok i c w v o (load_ready-ok i c w v o h);
      save-ok = λ e w v h. lawful.save-ok e w v (save_ready-ok e w v h);
      delete-ok = λ i c w v h.
          let (u, deleted, then_files) = delete_ready-ok i c w v h in
          ap (λ x. view x i c) (sym then_files)
          ∙ alone.delete-leaves i c u
          ∙ lawful.delete-ok i c w u deleted;
      with_lock-ok = with_lock_ready;
    }
      where
        with_lock_ready :
            (i c : String) (f : M W A) (w v : W) (a : A)
            → chained.with_lock i c f w ≡ (ok a, v)
            → (w' : W) × (v' : W) × (f w' ≡ (ok a, v')) × (view v i c ≡ view v' i c)
        with_lock_ready i c f w v a h = alone.with_lock-leaves i c f w v a h

  module _ (lawful : IsLawful view files) (ready : IsReady files) (away : IsAway keychain view)
      (notice-keeps : (e : Error) (w : W) (i c : String)
        → view (log_fallback notice e w) i c ≡ view w i c) where
    load_away-ok :
        (i c : String) (w v : W) (o : Option Entry)
        → chained.load i c w ≡ (ok o, v)
        → (u : W) × (files.load i c u ≡ (ok o, v)) × (view u i c ≡ view w i c)
    unfolding chain
    load_away-ok i c w v o h =
        let (e, u, asked, refused, same) = away.load-away i c w in
        (log_fallback notice e u, go e u asked refused, notice-keeps e u i c ∙ same)
      where
        go :
            (e : Error) (u : W)
            → keychain.load i c w ≡ (err e, u)
            → is_error backend_unavailable e ≡ true
            → files.load i c (log_fallback notice e u) ≡ (ok o, v)
        go e u asked refused = last (files.load i c (log_fallback notice e u)) refl
          where
            last :
                (x : Result (Option Entry) × W)
                → files.load i c (log_fallback notice e u) ≡ x
                → files.load i c (log_fallback notice e u) ≡ (ok o, v)
            last (ok o', u') read = ground arith
            last (err e', u') read = absurd (ground arith)

    save_away-ok :
        (entry : Entry) (w v : W)
        → chained.save entry w ≡ (ok tt, v)
        → (u : W) × (files.save entry u ≡ (ok tt, v))
    unfolding chain
    save_away-ok entry w v h =
        let (e, u, asked, refused) = away.save-away entry w in
        (log_fallback notice e u, go e u asked refused)
      where
        go :
            (e : Error) (u : W)
            → keychain.save entry w ≡ (err e, u)
            → is_error backend_unavailable e ≡ true
            → files.save entry (log_fallback notice e u) ≡ (ok tt, v)
        go e u asked refused = last (files.save entry (log_fallback notice e u)) refl
          where
            last :
                (x : Result (Unit {0}) × W)
                → files.save entry (log_fallback notice e u) ≡ x
                → files.save entry (log_fallback notice e u) ≡ (ok tt, v)
            last (ok o, u') saved = ground arith
            last (err e', u') saved = absurd (ground arith)

    delete_away-ok :
        (i c : String) (w v : W)
        → chained.delete i c w ≡ (ok tt, v)
        → (u : W) × (files.delete i c u ≡ (ok tt, v))
    unfolding chain
    delete_away-ok i c w v h =
        let (e, u, asked, refused) = away.delete-away i c w in (u, go e u asked refused)
      where
        go :
            (e : Error) (u : W)
            → keychain.delete i c w ≡ (err e, u)
            → is_error backend_unavailable e ≡ true
            → files.delete i c u ≡ (ok tt, v)
        go e u asked refused = last (files.delete i c u) refl
          where
            last :
                (x : Result (Unit {0}) × W)
                → files.delete i c u ≡ x
                → files.delete i c u ≡ (ok tt, v)
            last (ok o, u') deleted = ground arith
            last (err e', u') deleted =
                absurd (ground (arith, ready.delete-ready i c u u' e' deleted))

    -- Where the keychain cannot be used all the time, the file store can, and neither a refused load
    -- nor the notice touches the files: the chain keeps the contract of a store over what the files
    -- hold.
    pub chain_away-IsLawful : IsLawful view chained
    unfolding chain
    chain_away-IsLawful = record {
      load-ok = λ i c w v o h.
          let (u, read, same) = load_away-ok i c w v o h in
          let (before, after) = lawful.load-ok i c u v o read in (sym same ∙ before, after);
      save-ok = λ e w v h. let (u, saved) = save_away-ok e w v h in lawful.save-ok e u v saved;
      delete-ok = λ i c w v h.
          let (u, deleted) = delete_away-ok i c w v h in lawful.delete-ok i c u v deleted;
      with_lock-ok = λ i c f w v a h. lawful.with_lock-ok i c f w v a h;
    }
