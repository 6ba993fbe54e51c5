-- ===== src/Authflow/Fallback.antt =====
-- The bounded fallback of Login in internal/authflow/select.go.
use oidc_token_cli.Base.{
  String, ◌≡◌, ◌≢◌, refl, ap, ◌↔◌, ◌⊎◌, inl, inr, true, not, ◌||◌, Option, none, some, List, [],
  ◌∷◌, ◌++◌, eq_iff, is_nil, Listed, Error, as_retrieve, as_authorization, Result, ok, err, M,
  arith, Bool-cases,
}
use mathlib.Core.List.{append_assoc, append-nil}
use oidc_token_cli.Output.{TokenResult}
use oidc_token_cli.Authflow.{is_per_client_rejection, login_loop}

-- A failure means that this client may not use the grant exactly when the token endpoint said
-- unauthorized_client, or, where the token endpoint said nothing, the authorization endpoint said
-- unauthorized_client or invalid_grant.
pub is_per_client_rejection_iff :
    (e : Error)
    → (is_per_client_rejection e ≡ true) ↔ (
        (as_retrieve e ≡ some "unauthorized_client")
        ⊎ ((as_retrieve e ≡ none)
            × ((as_authorization e ≡ some "unauthorized_client")
                ⊎ (as_authorization e ≡ some "invalid_grant"))))
unfolding is_per_client_rejection
is_per_client_rejection_iff e = go (as_retrieve e) (as_authorization e) refl refl
  where
    go :
        (re ae : Option String)
        → as_retrieve e ≡ re
        → as_authorization e ≡ ae
        → (is_per_client_rejection e ≡ true) ↔ (
            (as_retrieve e ≡ some "unauthorized_client")
            ⊎ ((as_retrieve e ≡ none)
                × ((as_authorization e ≡ some "unauthorized_client")
                    ⊎ (as_authorization e ≡ some "invalid_grant"))))
    go (some code) ae p q = ground (arith, eq_iff code "unauthorized_client")
    go none (some code) p q =
        ground (arith, eq_iff code "unauthorized_client", eq_iff code "invalid_grant")
    go none none p q = ground arith

module _ {W : Type 0} (attempt : String → M W TokenResult) (warn : String → Error → W → W) where
  -- The same attempts and warnings in a world that also lists the grants attempted so far.
  abbrev pub recorded_attempt : String → M (List String × W) TokenResult
  recorded_attempt grant (tried, w) =
      ((attempt grant w).0, (tried ++ grant ∷ [], (attempt grant w).1))

  abbrev pub recorded_warn : String → Error → List String × W → List String × W
  recorded_warn grant e (tried, w) = (tried, warn grant e w)

  -- The two runs of the loop agree, and `new` is what the recording run has added.
  abbrev pub Records : Result TokenResult → List String → List String → W → List String → Type 0
  Records last order tried w new =
      login_loop recorded_attempt recorded_warn last order (tried, w) ≡ (
        (login_loop attempt warn last order w).0,
        (tried ++ new, (login_loop attempt warn last order w).1),
      )

  -- The loop attempts the grants of the order from its beginning, each place of it at most once,
  -- and at least one grant if there is any; recording them changes nothing else.
  pub login_loop-Records :
      (last : Result TokenResult) (order tried : List String) (w : W)
      → (new later : List String) × (order ≡ new ++ later)
        × (new ≡ [] → order ≡ [])
        × Records last order tried w new
  unfolding login_loop
  login_loop-Records last [] tried w = ([], [], refl, (λ _. refl), rw append-nil refl)
  login_loop-Records last (grant ∷ order) tried w =
      go (attempt grant w) refl
        (λ e u. login_loop-Records (err e) order (tried ++ grant ∷ []) (warn grant e u))
    where
      go :
          (x : Result TokenResult × W)
          → attempt grant w ≡ x
          → ((e : Error) (u : W)
              → (new later : List String) × (order ≡ new ++ later)
                × (new ≡ [] → order ≡ [])
                × Records (err e) order (tried ++ grant ∷ []) (warn grant e u) new)
          → (new later : List String) × (grant ∷ order ≡ new ++ later)
            × (new ≡ [] → grant ∷ order ≡ [])
            × Records last (grant ∷ order) tried w new
      go (ok res, u) p rec = (grant ∷ [], order, refl, (λ h. cc), ground arith)
      go (err e, u) p rec = elim (Bool-cases (is_nil order || not (is_per_client_rejection e))) [
        | inl stop ↦ (grant ∷ [], order, refl, (λ h. cc), ground arith)
        | inr more ↦
            let (new, later, split, _, same) = rec e u in
            (
              grant ∷ new,
              later,
              ap (λ l. grant ∷ l) split,
              (λ h. cc),
              ground (arith, same, append_assoc tried (grant ∷ []) new),
            )
      ]

  -- If the loop ends well, its tokens are those of an attempt of a grant in the order, in the
  -- world that this attempt left.
  pub login_loop-ok :
      (last : Result TokenResult) (order : List String) (w v : W) (res : TokenResult)
      → order ≢ []
      → login_loop attempt warn last order w ≡ (ok res, v)
      → (grant : String) × (u : W) × Listed grant order × (attempt grant u ≡ (ok res, v))
  unfolding login_loop
  login_loop-ok last [] w v res some_grant h = absurd (some_grant refl)
  login_loop-ok last (grant ∷ order) w v res _ h =
      go (attempt grant w) refl h (λ e u. login_loop-ok (err e) order (warn grant e u) v res)
    where
      go :
          (x : Result TokenResult × W)
          → attempt grant w ≡ x
          → login_loop attempt warn last (grant ∷ order) w ≡ (ok res, v)
          → ((e : Error) (u : W)
              → order ≢ []
              → login_loop attempt warn (err e) order (warn grant e u) ≡ (ok res, v)
              → (g : String) × (u' : W) × Listed g order × (attempt g u' ≡ (ok res, v)))
          → (g : String) × (u' : W) × Listed g (grant ∷ order) × (attempt g u' ≡ (ok res, v))
      go (ok got, u) p h rec = (grant, w, inl refl, ground arith)
      go (err e', u) p h rec =
          elim (Bool-cases (is_nil order || not (is_per_client_rejection e'))) [
            | inl stop ↦ absurd (ground arith)
            | inr more ↦
                let (g, u', listed, answered) = rec e' u (ground arith) (ground arith) in
                (g, u', inr listed, answered)
          ]
