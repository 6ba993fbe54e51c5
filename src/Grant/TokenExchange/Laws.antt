-- ===== src/Grant/TokenExchange/Laws.antt =====
-- What a validated token-exchange grant can rely on.
use oidc_token_cli.Base.{
  String, ◌≡◌, ◌≢◌, refl, ◌↔◌, ◌⊎◌, inl, inr, Bool, true, false, Option, none, some, List, [], ◌∷◌,
  eq_iff, is_empty, Result, ok, err, arith, All, Bool-cases, trim_newlines,
}
use mathlib.Core.Path.{subst}
use oidc_token_cli.Subjecttoken.{TokenOrigin, find_source}
use oidc_token_cli.Grant.TokenExchange.{
  TokenExchange, default_type, finalize, validate, resolve_subject_token, source_type,
  default_subject_token_type,
}

module _ {W : Type 0} (g : TokenExchange W) where
  -- Exactly one way to get a subject token is configured, and a source that is named is known.
  abbrev pub HasOneOrigin : Type 0
  HasOneOrigin =
      ((g.subject_token_source ≡ "") × (g.subject_token ≢ ""))
      ⊎ ((src : TokenOrigin W) × (g.subject_token_source ≢ "")
          × (g.subject_token ≡ "")
          × (find_source g.sources g.subject_token_source ≡ some src))

  -- The grant is accepted exactly when its subject token has one origin, given or fetched from a
  -- known source, and its type is set.
  pub validate-HasOneOrigin_iff :
      (validate g ≡ ok tt) ↔ (HasOneOrigin × (g.subject_token_type ≢ ""))
  unfolding validate
  validate-HasOneOrigin_iff = go (find_source g.sources g.subject_token_source) refl
    where
      go :
          (o : Option (TokenOrigin W))
          → find_source g.sources g.subject_token_source ≡ o
          → (validate g ≡ ok tt) ↔ (HasOneOrigin × (g.subject_token_type ≢ ""))
      go none found = ground (
        arith,
        eq_iff g.subject_token_source "",
        eq_iff g.subject_token "",
        eq_iff g.subject_token_type "",
      )
      go (some src) found = (
        (λ h. (
          elim (Bool-cases (is_empty g.subject_token_source)) [
            | inl manual ↦
                inl (ground (arith, eq_iff g.subject_token_source "", eq_iff g.subject_token ""))
            | inr named ↦ inr (
              src,
              ground (arith, eq_iff g.subject_token_source "", eq_iff g.subject_token ""),
              ground (arith, eq_iff g.subject_token_source "", eq_iff g.subject_token ""),
              found,
            )
          ],
          ground (arith, eq_iff g.subject_token_type ""),
        )),
        ground (
          arith,
          eq_iff g.subject_token_source "",
          eq_iff g.subject_token "",
          eq_iff g.subject_token_type "",
        ),
      )

  -- The subject token of an accepted grant is the one that was given, or what its source fetches
  -- for the audience of the grant; looking for it cannot fail for want of a source.
  pub resolve_subject_token-validated :
      (w : W)
      → validate g ≡ ok tt
      → ((g.subject_token ≢ "") × (resolve_subject_token g w ≡ (ok g.subject_token, w)))
        ⊎ ((src : TokenOrigin W) × (find_source g.sources g.subject_token_source ≡ some src)
            × (resolve_subject_token g w ≡ src.fetch g.audience w))
  unfolding resolve_subject_token
  resolve_subject_token-validated w h = elim (validate-HasOneOrigin_iff.0 h).0 [
    | inl (manual, given) ↦ inl (given, ground (arith, eq_iff g.subject_token_source ""))
    | inr (src, named, unset, found) ↦
        inr (src, found, ground (arith, eq_iff g.subject_token_source ""))
  ]

module _ {W : Type 0} where
  find_source-typed :
      (sources : List (TokenOrigin W)) (name : String)
      → All (λ s. s.default_token_type ≢ "") sources
      → source_type (find_source sources name) ≢ ""
  unfolding find_source
  find_source-typed [] name h = ground (arith, eq_iff default_subject_token_type "")
  find_source-typed (s ∷ sources) name (typed, h) = ground (arith, find_source-typed sources name h)

  default_type-typed :
      (g : TokenExchange W)
      → All (λ s. s.default_token_type ≢ "") g.sources
      → (default_type g).subject_token_type ≢ ""
  unfolding default_type
  default_type-typed g h =
      ground (
        arith,
        eq_iff g.subject_token_type "",
        find_source-typed g.sources g.subject_token_source h,
      )

  -- A finalized grant has a subject token type, so the check for a missing one never fails after
  -- it. Every source has a default type.
  pub finalize-typed :
      (read_file : String → Result String) (explicit : String → Bool) (g g' : TokenExchange W)
      → All (λ s. s.default_token_type ≢ "") g.sources
      → finalize read_file explicit g ≡ ok g'
      → g'.subject_token_type ≢ ""
  unfolding finalize
  finalize-typed read_file explicit g g' typed h =
      go (explicit "subject-token-file") (read_file g.subject_token_file) refl refl
    where
      go :
          (b : Bool) (x : Result String)
          → explicit "subject-token-file" ≡ b
          → read_file g.subject_token_file ≡ x
          → g'.subject_token_type ≢ ""
      go false x p q =
          subst (λ t. t.subject_token_type ≢ "") {x = default_type g} {y = g'} (ground arith)
            (default_type-typed g typed)
      go true (err e) p q = absurd (ground arith)
      go true (ok tok) p q =
          let read = record g { subject_token = trim_newlines tok } in
          subst (λ t. t.subject_token_type ≢ "") {x = default_type read} {y = g'} (ground arith)
            (default_type-typed read typed)
