-- ===== src/Output/Laws.antt =====
-- What the renderings of internal/output/output.go hold.
use oidc_token_cli.Base.{
  ℕ, String, ◌≡◌, refl, sym, ◌≢◌, ◌⊎◌, ◌↔◌, ◌∙◌, Bool, true, false, not, Option, none, some, List,
  [], ◌∷◌, ◌==◌, eq_iff, is_empty, if◌then◌else◌, lookup, insert, lookup-insert, arith, NodupKeys,
}
use oidc_token_cli.Base.Json.{Json, text}
use oidc_token_cli.Output.{
  TokenResult, is_zero, select, insert_if, insert_all, credential_fields, document,
}

names_differ : ◌≢◌ {A = String} "id_token" "access_token"
names_differ = ground (arith, eq_iff "id_token" "access_token")

id_token-ne-access_token : (s : String) → s ≡ "id_token" → s ≢ "access_token"
id_token-ne-access_token s p q = names_differ (sym p ∙ q)

-- `select` offers a token exactly when the type is one of the two known ones and the field that
-- it names is set, and the token is then that field.
pub select-true_iff :
    (r : TokenResult) (tt token : String)
    → (select r tt ≡ (token, true)) ↔ (
        (token ≢ "")
        × (((tt ≡ "id_token") × (r.id_token ≡ token))
            ⊎ ((tt ≡ "access_token") × (r.access_token ≡ token))))
unfolding select
select-true_iff r tt token = ground (
  arith,
  eq_iff tt "id_token",
  eq_iff tt "access_token",
  eq_iff r.id_token "",
  eq_iff r.access_token "",
  id_token-ne-access_token tt,
)

module _ (k : String) where
  lookup-insert_if :
      (test : Bool) (j : String) (v : Json) (doc : List (String × Json))
      → lookup k (insert_if test j v doc)
        ≡ (if test then (if j == k then some v else lookup k doc) else lookup k doc)
  lookup-insert_if true j v doc = lookup-insert k j v doc
  lookup-insert_if false j v doc = refl

  lookup-insert_all_of_none :
      (extra doc : List (String × Json))
      → lookup k extra ≡ none
      → lookup k (insert_all extra doc) ≡ lookup k doc
  unfolding insert_all lookup
  lookup-insert_all_of_none [] doc h = refl
  lookup-insert_all_of_none ((j, v) ∷ extra) doc h =
      ground (arith, lookup-insert_all_of_none extra (insert j v doc), lookup-insert k j v doc)

  lookup-insert_all_of_some :
      (extra doc : List (String × Json)) (v : Json)
      → NodupKeys extra
      → lookup k extra ≡ some v
      → lookup k (insert_all extra doc) ≡ some v
  unfolding insert_all lookup
  lookup-insert_all_of_some ((j, w) ∷ extra) doc v (fresh, u) h = ground (
    arith,
    eq_iff j k,
    lookup-insert_all_of_none extra (insert j w doc),
    lookup-insert_all_of_some extra (insert j w doc) v u,
    lookup-insert k j w doc,
  )
  lookup-insert_all_of_some [] doc v u h = cc

-- A set credential `v` of the name `j`, if that is the name asked for, or else `other`.
abbrev pub credential_or : String → Bool → String → Json → Option Json → Option Json
credential_or k is_set j v other = if is_set then (if j == k then some v else other) else other

-- The field that the document of a result has under a key, if no extension field replaces it: a
-- credential that is set, or nothing.
abbrev pub expected : (ℕ → String) → TokenResult → String → Option Json
expected format r k =
    credential_or k (not (is_empty r.issued_token_type)) "issued_token_type"
      (text r.issued_token_type)
      (credential_or k (not (is_zero r.expiry)) "expiry" (text (format r.expiry)) (
        credential_or k (not (is_empty r.refresh_token)) "refresh_token" (text r.refresh_token) (
          credential_or k (not (is_empty r.id_token)) "id_token" (text r.id_token) (
            credential_or k (not (is_empty r.access_token)) "access_token" (text r.access_token)
              none))))

lookup-credential_fields :
    (format : ℕ → String) (r : TokenResult) (k : String)
    → lookup k (credential_fields format r) ≡ expected format r k
unfolding credential_fields lookup
lookup-credential_fields format r k = simp lookup-insert_if

-- The document of a result holds, under every key that is no extension field, exactly the
-- credential that is set under that key.
pub lookup-document :
    (format : ℕ → String) (r : TokenResult) (k : String)
    → lookup k r.extra ≡ none
    → lookup k (document format r) ≡ expected format r k
unfolding document
lookup-document format r k h =
    lookup-insert_all_of_none k r.extra _ h ∙ lookup-credential_fields format r k

-- An extension field of the issuer, where no name stands twice, stands in the document as it came,
-- also where it bears the name of a credential.
pub lookup-document_extra :
    (format : ℕ → String) (r : TokenResult) (k : String) (v : Json)
    → NodupKeys r.extra
    → lookup k r.extra ≡ some v
    → lookup k (document format r) ≡ some v
unfolding document
lookup-document_extra format r k v u h = lookup-insert_all_of_some k r.extra _ v u h
