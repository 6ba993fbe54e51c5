-- ===== src/Config/Arguments/Spelling/Values.antt =====
-- The values that the flags have after a command line that spells out settings.
use oidc_token_cli.Base.{
  some-inj, none-ne-some, ok-inj, String, ◌≡◌, refl, sym, ap, ◌∙◌, Bool, true, false, ◌||◌, inl,
  inr, ◌⊎◌, Option, some, Option-cases, List, [], ◌∷◌, ◌++◌, ◌==◌, eq_iff, lookup, lookup-insert,
  if◌then◌else◌, Bool-cases, any, contains, ok, arith,
}
use mathlib.Core.List.{append_assoc, append-nil}
use oidc_token_cli.Base.Json.{ℤ}
use oidc_token_cli.Flagbinding.Registration.{Value, string_value, slice_value, slice_set}
use oidc_token_cli.Config.Arguments.{set_value}
use oidc_token_cli.Config.Arguments.Spelling.{
  Setting, name_of, text_of, apply, apply_all, apply-Accepted, set_names,
}

-- Whether a setting of the flag is among the settings.
abbrev pub is_given : String → List Setting → Bool
is_given n settings = any (λ s. name_of s == n) settings

-- The text of the last setting of a flag.
abbrev pub last_given : String → List Setting → String → String
last_given n [] default = default
last_given n (s ∷ later) default =
    last_given n later (if name_of s == n then text_of s else default)

-- The texts of all settings of a flag.
abbrev pub all_given : String → List Setting → List String
all_given n [] = []
all_given n (s ∷ later) = (if name_of s == n then text_of s ∷ [] else []) ++ all_given n later

module _ (parse_int : String → Option ℤ) where
  -- What a setting does to one flag.
  lookup-apply :
      (n : String) (s : Setting) (fs hs : List (String × Value)) (v : Value)
      → apply parse_int s fs ≡ some hs
      → lookup n fs ≡ some v
      → ((name_of s == n) ≡ false) × (lookup n hs ≡ some v)
        ⊎ (new : Value) × ((name_of s == n) ≡ true)
          × (set_value parse_int v (text_of s) ≡ ok new)
          × (lookup n hs ≡ some new)
  lookup-apply n s fs hs v h at =
      let (old, new, found, fit, set, same) = apply-Accepted parse_int s fs hs h in
      let after : lookup n hs ≡ (if name_of s == n then some new else lookup n fs) =
        ap (lookup n) (sym same) ∙ lookup-insert n (name_of s) new fs in
      elim (Bool-cases (name_of s == n)) [
        | inl e ↦
            let one : name_of s ≡ n = (eq_iff (name_of s) n).0 e in
            let known : v ≡ old = some-inj (sym at ∙ ap (λ k. lookup k fs) (sym one) ∙ found) in
            inr (new, e, rw known set, after ∙ rw e refl)
        | inr e ↦ inl (e, after ∙ rw e at)
      ]

  -- A string flag has the text of its last setting.
  pub string-apply_all :
      (n : String) (settings : List Setting) (fs gs : List (String × Value)) (v : String)
      → apply_all parse_int settings fs ≡ some gs
      → lookup n fs ≡ some (string_value v)
      → lookup n gs ≡ some (string_value (last_given n settings v))
  unfolding set_value
  string-apply_all n [] fs gs v h at = ap (lookup n) (sym (some-inj h)) ∙ at
  string-apply_all n (s ∷ later) fs gs v h at = elim (Option-cases (apply parse_int s fs)) [
    | inl e ↦ absurd (none-ne-some (rw (e, apply_all) at h))
    | inr (hs, e) ↦
        let rest = rw (e, apply_all) at h in
        elim (lookup-apply n s fs hs (string_value v) e at) [
          | inl (other, kept) ↦ rw other (string-apply_all n later hs gs v rest kept)
          | inr (new, same, set, now) ↦
              rw same
                (string-apply_all n later hs gs (text_of s) rest (now ∙ ap some (ok-inj (sym set))))
        ]
  ]

  -- A repeatable flag has the texts of all its settings, in order, after those it had.
  pub slice-apply_all :
      (n : String) (settings : List Setting) (fs gs : List (String × Value)) (vs : List String)
      → apply_all parse_int settings fs ≡ some gs
      → lookup n fs ≡ some (slice_value vs)
      → lookup n gs ≡ some (slice_value (vs ++ all_given n settings))
  unfolding set_value slice_set
  slice-apply_all n [] fs gs vs h at =
      ap (lookup n) (sym (some-inj h)) ∙ at ∙ ap (λ l. some (slice_value l)) (sym (append-nil vs))
  slice-apply_all n (s ∷ later) fs gs vs h at = elim (Option-cases (apply parse_int s fs)) [
    | inl e ↦ absurd (none-ne-some (rw (e, apply_all) at h))
    | inr (hs, e) ↦
        let rest = rw (e, apply_all) at h in
        elim (lookup-apply n s fs hs (slice_value vs) e at) [
          | inl (other, kept) ↦ rw other (slice-apply_all n later hs gs vs rest kept)
          | inr (new, same, set, now) ↦
              let moved =
                slice-apply_all n later hs gs (vs ++ (text_of s ∷ [])) rest
                  (now ∙ ap some (ok-inj (sym set))) in
              rw same (
                moved
                ∙ ap (λ l. some (slice_value l))
                    (append_assoc vs (text_of s ∷ []) (all_given n later)))
        ]
  ]

-- The names that are set are those of the settings, and those that were set before.
pub contains-set_names :
    (n : String) (settings : List Setting) (actual : List String)
    → contains (set_names settings actual) n ≡ (is_given n settings || contains actual n)
contains-set_names n [] actual = refl
contains-set_names n (s ∷ later) actual =
    ground (arith, contains-set_names n later (name_of s ∷ actual))
