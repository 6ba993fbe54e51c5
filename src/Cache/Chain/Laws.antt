-- ===== src/Cache/Chain/Laws.antt =====
-- The chain of two backends that `--token-store=auto` uses, against the contract of a store.
use oidc_token_cli.Base.{
  String, ◌≡◌, refl, ap, ◌⊎◌, inl, inr, true, none, List, [], ◌∷◌, All, Error, backend_unavailable,
  is_error, Result, ok, err, arith,
}
use mathlib.Core.Path.{subst}
use oidc_token_cli.Cache.Lawful.{View}
use oidc_token_cli.Cache.Chain.{Backend, ChainStore, delete_from, keep_first, chain}

keep_first-ok :
    (first answer : Result (Unit {0}))
    → keep_first first answer ≡ ok tt
    → (first ≡ ok tt)
      × ((answer ≡ ok tt)
          ⊎ ((e : Error) × (answer ≡ err e) × (is_error backend_unavailable e ≡ true)))
keep_first-ok (err f) answer h = cc
keep_first-ok (ok o) (ok p) h = (refl, inl refl)
keep_first-ok (ok o) (err e) h = (refl, inr (e, refl, ground arith))

module _ {W A : Type 0} (view : Backend W A → View W) (i c : String) where
  -- A delete that reports no error leaves nothing for the profile.
  abbrev pub Clears : Backend W A → Type 0
  Clears b = (w v : W) → b.store.delete i c w ≡ (ok tt, v) → view b v i c ≡ none

  -- A delete in `b` brings nothing back in `b'`.
  abbrev pub Spares : Backend W A → Backend W A → Type 0
  Spares b' b = (w : W) → view b' w i c ≡ none → view b' (b.store.delete i c w).1 i c ≡ none

  -- No delete in a later backend brings anything back in an earlier one.
  abbrev pub SpareEarlier : List (Backend W A) → Type 0
  SpareEarlier [] = Unit
  SpareEarlier (b ∷ bs) = All (Spares b) bs × SpareEarlier bs

  -- The backend says at `w` that it cannot be used at all.
  abbrev pub IsUnavailable : W → Backend W A → Type 0
  IsUnavailable w b =
      (e : Error) × ((b.store.delete i c w).0 ≡ err e) × (is_error backend_unavailable e ≡ true)

  -- `IsCleared v bs w`: the deletes of the backends follow one another from `w` on, and each backend
  -- holds nothing at `v` or says, at its own delete among these, that it cannot be used at all.
  abbrev pub IsCleared : W → List (Backend W A) → W → Type 0
  IsCleared v [] w = Unit
  IsCleared v (b ∷ bs) w =
      ((view b v i c ≡ none) ⊎ IsUnavailable w b) × IsCleared v bs (b.store.delete i c w).1

  delete_from-stays :
      (b' : Backend W A) (bs : List (Backend W A)) (first : Result (Unit {0})) (w : W)
      → All (Spares b') bs
      → view b' w i c ≡ none
      → view b' (delete_from i c first bs w).1 i c ≡ none
  unfolding delete_from
  delete_from-stays b' [] first w spare h = h
  delete_from-stays b' (b ∷ bs) first w (spares, spare) h =
      delete_from-stays b' bs _ _ spare (spares w h)

  delete_from-IsCleared :
      (bs : List (Backend W A)) (first : Result (Unit {0})) (w : W)
      → All Clears bs
      → SpareEarlier bs
      → (delete_from i c first bs w).0 ≡ ok tt
      → (first ≡ ok tt) × IsCleared (delete_from i c first bs w).1 bs w
  unfolding delete_from
  delete_from-IsCleared [] first w clear spare h = (h, tt)
  delete_from-IsCleared (b ∷ bs) first w (clears, clear) (spares, spare) h =
      let (none_before, cleared) = delete_from-IsCleared bs _ _ clear spare h in
      let (none_first, answered) = keep_first-ok first (b.store.delete i c w).0 none_before in
      (none_first, (deleted answered, cleared))
    where
      deleted :
          ((b.store.delete i c w).0 ≡ ok tt)
            ⊎ ((e : Error) × ((b.store.delete i c w).0 ≡ err e)
                × (is_error backend_unavailable e ≡ true))
          → (view b (delete_from i c first (b ∷ bs) w).1 i c ≡ none) ⊎ IsUnavailable w b
      deleted (inl e) =
          inl
            (delete_from-stays b bs _ _ spares (clears w _ (λ t. (e t, (b.store.delete i c w).1))))
      deleted (inr (e, failed, away)) = inr (e, failed, away)

  -- Where each backend deletes as it reports, and a later one brings nothing back in an earlier
  -- one: after a logout through the chain that reports no error, every backend holds nothing for
  -- the profile or has said, at its delete in this logout, that it could not be used at all. None is
  -- left out.
  pub chain-delete-IsCleared :
      (s : ChainStore W A) (w v : W)
      → All Clears s.backends
      → SpareEarlier s.backends
      → (chain s).delete i c w ≡ (ok tt, v)
      → IsCleared v s.backends w
  unfolding chain
  chain-delete-IsCleared s w v clear spare h =
      subst (λ u. IsCleared u s.backends w) (ap (λ x. x.1) h)
        (delete_from-IsCleared s.backends (ok tt) w clear spare (ap (λ x. x.0) h)).1
