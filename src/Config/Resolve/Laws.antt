-- ===== src/Config/Resolve/Laws.antt =====
-- The `extra` fields of internal/config/config.go, from the flags and the config file.
use oidc_token_cli.Base.{
  String, ◌≡◌, refl, Option, none, some, List, [], ◌∷◌, eq_iff, lookup, insert, lookup-insert,
  arith, NodupKeys,
}
use oidc_token_cli.Base.Json.{Json, text}
use oidc_token_cli.Config.Resolve.{Flags, Host, resolved, set_texts, file_extra}

module _ (k s : String) where
  lookup-set_texts_of_none :
      (m : List (String × Json)) (form : List (String × List String))
      → lookup k m ≡ none
      → lookup k (set_texts m form) ≡ lookup k form
  unfolding set_texts lookup
  lookup-set_texts_of_none [] form h = refl
  lookup-set_texts_of_none ((j, text t) ∷ m) form h = ground (
    arith,
    eq_iff j k,
    lookup-set_texts_of_none m (insert j (t ∷ []) form),
    lookup-insert k j (t ∷ []) form,
  )
  lookup-set_texts_of_none ((j, v) ∷ m) form h =
      ground (arith, eq_iff j k, lookup-set_texts_of_none m form)

  lookup-set_texts :
      (m : List (String × Json)) (form : List (String × List String))
      → NodupKeys m
      → lookup k m ≡ some (text s)
      → lookup k (set_texts m form) ≡ some (s ∷ [])
  unfolding set_texts lookup
  lookup-set_texts [] form u h = cc
  lookup-set_texts ((j, text t) ∷ m) form (fresh, u) h = ground (
    arith,
    eq_iff j k,
    lookup-set_texts_of_none m (insert j (t ∷ []) form),
    lookup-set_texts m (insert j (t ∷ []) form) u,
    lookup-insert k j (t ∷ []) form,
  )
  lookup-set_texts ((j, v) ∷ m) form (fresh, u) h =
      ground (arith, eq_iff j k, lookup-set_texts m form u)

  -- A text in the `extra` object of the config file is what is sent under its key, whatever
  -- `--extra` flags were given for that key: here a flag does not win over the file. No key of the
  -- object stands twice.
  pub resolved-extra_file :
      {K : Type 0} (host : Host K) (flags : Flags) (fc : Option (List (String × Json)))
      → NodupKeys (file_extra fc)
      → lookup k (file_extra fc) ≡ some (text s)
      → lookup k (resolved host flags fc).extra_fields ≡ some (s ∷ [])
  unfolding resolved
  resolved-extra_file host flags fc u h = lookup-set_texts (file_extra fc) _ u h
