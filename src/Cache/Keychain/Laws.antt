-- ===== src/Cache/Keychain/Laws.antt =====
-- The keychain store of internal/cache/keychain.go keeps the contract of a store, and which of its
-- failures let a chain go on to the next backend.
use oidc_token_cli.Base.{
  String, ◌≡◌, refl, sym, ap, ◌∙◌, Bool, true, Bool-cases, inl, inr, Option, none, some, Error,
  is_error, key_not_found, Result, ok, err, M, arith, map_err, >>=-ok, map_err-ok,
}
use oidc_token_cli.Cache.{Entry}
use oidc_token_cli.Cache.Lawful.{View, IsLawful}
use oidc_token_cli.Cache.File.{Layout}
use oidc_token_cli.Cache.File.Laws.{decoded, RoundTrips}
use oidc_token_cli.Cache.Keychain.{
  Keyring, keychain_service, keychain_user, is_unavailable, answered, run_keyring_op, missing_or,
  loaded, load, marshalled, write_error, save, removed, delete, keychain_store,
}

-- The secret of a service and a user, `none` where there is no item.
abbrev pub Items : Type 0 → Type 0
Items W = W → String → String → Option String

-- The documented behaviour of the keychain that the store relies on.
pub record IsKeyring {W : Type 0} (item : Items W) (keyring : Keyring W) : Type 0 where
  pub get-keeps : (s u : String) (w : W) → item (keyring.get s u w).1 s u ≡ item w s u
  pub get-ok : (s u x : String) (w v : W) → keyring.get s u w ≡ (ok x, v) → item w s u ≡ some x
  pub get-missing :
      (s u : String) (e : Error) (w v : W)
      → keyring.get s u w ≡ (err e, v)
      → is_error key_not_found e ≡ true
      → item w s u ≡ none
  pub set-ok : (s u x : String) (w v : W) → keyring.set s u x w ≡ (ok tt, v) → item v s u ≡ some x
  pub delete-ok : (s u : String) (w v : W) → keyring.delete s u w ≡ (ok tt, v) → item v s u ≡ none
  pub delete-missing :
      (s u : String) (e : Error) (w v : W)
      → keyring.delete s u w ≡ (err e, v)
      → is_error key_not_found e ≡ true
      → item v s u ≡ none

-- The entry that the item of a profile decodes to.
abbrev pub keychain_view : {W : Type 0} → Layout → Items W → View W
keychain_view l item w i c = decoded l (item w (keychain_service l i c) keychain_user)

module _ {W : Type 0} (keyring : Keyring W) (ended : W → Bool) (l : Layout) (item : Items W)
    (items : IsKeyring item keyring) (trips : RoundTrips l) where
  -- An operation that was answered in time.
  run_keyring_op-ok :
      {A : Type 0} (op : M W A) (w v : W) (a : A)
      → run_keyring_op keyring ended l op w ≡ (ok a, v)
      → op w ≡ (ok a, v)
  unfolding run_keyring_op
  run_keyring_op-ok {A} op w v a h = go (op w) refl h
    where
      go : (x : Result A × W) → op w ≡ x → answered keyring ended l x ≡ (ok a, v) → op w ≡ (ok a, v)
      go (r, u) ran h = elim (Bool-cases (ended u)) [
        | inl late ↦ absurd (cc (rw late at h))
        | inr timely ↦ ran ∙ rw timely at h
      ]

  -- A missing item is reported by the keychain itself.
  run_keyring_op-missing :
      {A : Type 0} (op : M W A) (w v : W) (e : Error)
      → run_keyring_op keyring ended l op w ≡ (err e, v)
      → is_error key_not_found e ≡ true
      → op w ≡ (err e, v)
  unfolding run_keyring_op is_error
  run_keyring_op-missing {A} op w v e h missing = go (op w) refl h
    where
      go :
          (x : Result A × W)
          → op w ≡ x
          → answered keyring ended l x ≡ (err e, v)
          → op w ≡ (err e, v)
      go (r, u) ran h = elim (Bool-cases (ended u)) [
        | inl late ↦ absurd (ground arith)
        | inr timely ↦ ran ∙ rw timely at h
      ]

  -- Reading and removing report a missing item as success, and no other failure.
  missing_or-ok :
      {A : Type 0} (a a' : A) (text : String) (e : Error)
      → missing_or keyring ended l a text e ≡ ok a'
      → (is_error key_not_found e ≡ true) × (a ≡ a')
  missing_or-ok a a' text e h = elim (Bool-cases (is_error key_not_found e)) [
    | inl missing ↦ (missing, ground arith)
    | inr other ↦ elim (Bool-cases (is_unavailable e)) [
      | inl away ↦ absurd (cc (rw (other, away) at h))
      | inr here ↦ absurd (cc (rw (other, here) at h))
    ]
  ]

  load-keychain_view :
      (i c : String) (w v : W) (o : Option Entry)
      → load keyring ended l i c w ≡ (ok o, v)
      → (keychain_view l item w i c ≡ o) × (keychain_view l item v i c ≡ o)
  unfolding load
  load-keychain_view i c w v o h = go (run_keyring_op keyring ended l op w) refl h
    where
      op : M W String
      op = keyring.get (keychain_service l i c) keychain_user

      both :
          (r : Result String)
          → op w ≡ (r, v)
          → decoded l (item w (keychain_service l i c) keychain_user) ≡ o
          → (keychain_view l item w i c ≡ o) × (keychain_view l item v i c ≡ o)
      both r got found = (
        found,
        ap (λ p. decoded l (item p.1 (keychain_service l i c) keychain_user)) (sym got)
            ∙ ap (decoded l) (items.get-keeps (keychain_service l i c) keychain_user w)
            ∙ found,
      )

      go :
          (x : Result String × W)
          → run_keyring_op keyring ended l op w ≡ x
          → loaded keyring ended l x ≡ (ok o, v)
          → (keychain_view l item w i c ≡ o) × (keychain_view l item v i c ≡ o)
      go (ok raw, u) ran h =
          let got = run_keyring_op-ok op w v raw (ran ∙ ap (λ p. (ok raw, p.1)) h) in
          both (ok raw) got (
            ap (decoded l) (items.get-ok (keychain_service l i c) keychain_user raw w v got)
            ∙ ground arith)
      go (err e, u) ran h =
          let (missing, same) = missing_or-ok none o "cache: keychain read" e (ap (λ p. p.0) h) in
          let got = run_keyring_op-missing op w v e (ran ∙ ap (λ p. (err e, p.1)) h) missing in
          both (err e) got (
            ap (decoded l)
              (items.get-missing (keychain_service l i c) keychain_user e w v got missing)
            ∙ same)

  save-keychain_view :
      (e : Entry) (w v : W)
      → save keyring ended l e w ≡ (ok tt, v)
      → keychain_view l item v e.issuer e.client_id ≡ some e
  unfolding save
  save-keychain_view e w v h =
      let service = keychain_service l e.issuer e.client_id in
      let store : String → M W (Unit {0}) = λ b.
        map_err (write_error keyring ended l)
          (run_keyring_op keyring ended l (keyring.set service keychain_user b)) in
      let (b, u, encodes, h1) = >>=-ok (marshalled keyring ended l (l.encode e)) store w h in
      let did = run_keyring_op-ok (keyring.set service keychain_user b) u v tt (
        map_err-ok (write_error keyring ended l)
          (run_keyring_op keyring ended l (keyring.set service keychain_user b)) u h1) in
      ap (decoded l) (items.set-ok service keychain_user b u v did)
      ∙ trips e b (encoded_as b u encodes)
    where
      encoded_as :
          (b : String) (u : W)
          → marshalled keyring ended l (l.encode e) w ≡ (ok b, u)
          → l.encode e ≡ ok b
      encoded_as b u p = go (l.encode e) refl p
        where
          go :
              (r : Result String)
              → l.encode e ≡ r
              → marshalled keyring ended l r w ≡ (ok b, u)
              → l.encode e ≡ ok b
          go (ok x) q p = q ∙ ap (λ x. x.0) p
          go (err x) q p = cc

  delete-keychain_view :
      (i c : String) (w v : W)
      → delete keyring ended l i c w ≡ (ok tt, v)
      → keychain_view l item v i c ≡ none
  unfolding delete
  delete-keychain_view i c w v h = go (run_keyring_op keyring ended l op w) refl h
    where
      op : M W (Unit {0})
      op = keyring.delete (keychain_service l i c) keychain_user

      go :
          (x : Result (Unit {0}) × W)
          → run_keyring_op keyring ended l op w ≡ x
          → removed keyring ended l x ≡ (ok tt, v)
          → keychain_view l item v i c ≡ none
      go (ok o, u) ran h = ap (decoded l) (
          items.delete-ok (keychain_service l i c) keychain_user w v
            (run_keyring_op-ok op w v tt (ran ∙ h)))
      go (err e, u) ran h =
          let (missing, _) = missing_or-ok tt tt "cache: keychain delete" e (ap (λ p. p.0) h) in
          let got = run_keyring_op-missing op w v e (ran ∙ ap (λ p. (err e, p.1)) h) missing in
          ap (decoded l)
            (items.delete-missing (keychain_service l i c) keychain_user e w v got missing)

  -- Where what is encoded decodes to itself: the keychain store keeps the contract of a store, also
  -- where its operations may be cut off by the end of the context.
  pub keychain_store-IsLawful :
      {A : Type 0} → IsLawful (keychain_view l item) (keychain_store keyring ended l {A = A})
  unfolding keychain_store
  keychain_store-IsLawful = record {
    load-ok = load-keychain_view;
    save-ok = save-keychain_view;
    delete-ok = delete-keychain_view;
    with_lock-ok = λ i c f w v a h. (w, v, h, refl);
  }
