-- ===== src/Oidc/Exchange/Laws.antt =====
-- What the request of a token exchange, internal/oidc/tokenexchange.go, carries under each name.
use oidc_token_cli.Base.{
  String, ◌≡◌, sym, ap, ◌∙◌, List, [], ◌∷◌, ◌++◌, ◌==◌, eq_iff, is_empty, if◌then◌else◌, lookup,
  insert, lookup-insert, arith, Bool-cases, inl, inr,
}
use mathlib.Core.List.{append_assoc, append-nil}
use oidc_token_cli.Oidc.Request.{Form}
use oidc_token_cli.Oidc.Exchange.{
  values_of, add_value, add_values, add_fields, set_nonempty, exchange_form,
  token_exchange_grant_type,
}

-- The values if the names agree.
abbrev pub under : String → String → List String → List String
under name key values = if key == name then values else []

-- A value that is set, if its name is the one asked for, or else the other values.
abbrev pub value_or : String → String → String → List String → List String
value_or name key value other =
    if is_empty value then other else (if key == name then value ∷ [] else other)

-- The parameters of a token exchange under a name, less the extra fields.
abbrev pub parameters :
    String → String → String → String → String → String → List String → List String
parameters name audience scope subject_token subject_token_type requested_token_type resources =
    value_or name "requested_token_type" requested_token_type (
      value_or name "scope" scope (
        value_or name "audience" audience (
          if "grant_type" == name
          then "urn:ietf:params:oauth:grant-type:token-exchange" ∷ []
          else if "subject_token" == name
          then subject_token ∷ []
          else if "subject_token_type" == name
          then subject_token_type ∷ []
          else [])))
    ++ under name "resource" resources

module _ (name : String) where
  values_of-insert :
      (key : String) (values : List String) (form : Form)
      → values_of name (insert key values form)
        ≡ (if key == name then values else values_of name form)
  unfolding values_of
  values_of-insert key values form = ground (arith, lookup-insert name key values form)

  nil_under :
      (key : String) (form : Form) → values_of name form ++ under name key [] ≡ values_of name form
  nil_under key form = elim (Bool-cases (key == name)) [
    | inl same ↦ rw same (append-nil (values_of name form))
    | inr other ↦ rw other (append-nil (values_of name form))
  ]

  pub values_of-add_values :
      (key : String) (values : List String) (form : Form)
      → values_of name (add_values key values form) ≡ values_of name form ++ under name key values
  unfolding add_values add_value
  values_of-add_values key [] form = sym (nil_under key form)
  values_of-add_values key (value ∷ values) form = ground (
    arith,
    eq_iff name key,
    eq_iff key name,
    values_of-add_values key values (add_value key value form),
    values_of-insert key (values_of key form ++ value ∷ []) form,
    append_assoc (values_of name form) (value ∷ []) values,
  )

  -- The values under the name, of a form whose keys may repeat.
  abbrev pub all_values : Form → List String
  all_values [] = []
  all_values ((key, values) ∷ extra) = under name key values ++ all_values extra

  values_of-add_fields :
      (extra form : Form)
      → values_of name (add_fields extra form) ≡ values_of name form ++ all_values extra
  unfolding add_fields
  values_of-add_fields [] form = sym (append-nil (values_of name form))
  values_of-add_fields ((key, values) ∷ extra) form =
      values_of-add_fields extra (add_values key values form)
      ∙ ap (λ l. l ++ all_values extra) (values_of-add_values key values form)
      ∙ append_assoc (values_of name form) (under name key values) (all_values extra)

  values_of-set_nonempty :
      (key value : String) (form : Form)
      → values_of name (set_nonempty key value form) ≡ value_or name key value (values_of name form)
  unfolding set_nonempty
  values_of-set_nonempty key value form = ground (arith, values_of-insert key (value ∷ []) form)

  abbrev base : String → String → Form
  base subject_token subject_token_type =
      ("grant_type", token_exchange_grant_type ∷ [])
      ∷ ("subject_token", subject_token ∷ [])
      ∷ ("subject_token_type", subject_token_type ∷ [])
      ∷ []

  values_of-base :
      (subject_token subject_token_type : String)
      → values_of name (base subject_token subject_token_type) ≡ (
          if "grant_type" == name
          then "urn:ietf:params:oauth:grant-type:token-exchange" ∷ []
          else if "subject_token" == name
          then subject_token ∷ []
          else if "subject_token_type" == name
          then subject_token_type ∷ []
          else [])
  unfolding values_of lookup
  values_of-base subject_token subject_token_type = ground arith

  -- The form of a token exchange carries, under every name, the parameter of the exchange that has
  -- this name, if it is set, or each resource under `resource`, and after it the extra fields of
  -- that name: an extra field never replaces or precedes a parameter.
  pub exchange_form-parameters :
      (audience scope subject_token subject_token_type requested_token_type : String)
      (resources : List String) (extra : Form)
      → values_of name (
          exchange_form audience scope subject_token subject_token_type requested_token_type
            resources extra)
        ≡ parameters name audience scope subject_token subject_token_type requested_token_type
            resources
          ++ all_values extra
  unfolding exchange_form
  exchange_form-parameters audience scope subject_token subject_token_type requested_token_type
        resources extra =
      let f0 = base subject_token subject_token_type in
      let f1 = set_nonempty "audience" audience f0 in
      let f2 = set_nonempty "scope" scope f1 in
      let f3 = set_nonempty "requested_token_type" requested_token_type f2 in
      let with_audience =
        values_of-set_nonempty "audience" audience f0
        ∙ ap (value_or name "audience" audience)
            (values_of-base subject_token subject_token_type) in
      let with_scope =
        values_of-set_nonempty "scope" scope f1 ∙ ap (value_or name "scope" scope) with_audience in
      let with_type =
        values_of-set_nonempty "requested_token_type" requested_token_type f2
        ∙ ap (value_or name "requested_token_type" requested_token_type) with_scope in
      let with_resources =
        values_of-add_values "resource" resources f3
        ∙ ap (λ l. l ++ under name "resource" resources) with_type in
      values_of-add_fields extra (add_values "resource" resources f3)
      ∙ ap (λ l. l ++ all_values extra) with_resources
