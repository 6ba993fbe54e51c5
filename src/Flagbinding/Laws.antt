-- ===== src/Flagbinding/Laws.antt =====
-- The precedence stack of internal/flagbinding/binding.go: default < env < file < explicit flag.
use oidc_token_cli.Base.{
  String, ◌≡◌, refl, Bool, ◌||◌, Option, none, some, List, [], ◌∷◌, ◌==◌, if◌then◌else◌, arith,
}
use oidc_token_cli.Base.Json.{Json, ℤ, bool, number, text, array}
use oidc_token_cli.Flagbinding.{
  Binding, Layers, file_value, env_value, resolve_string, resolve_bool, resolve_int, resolve_slice,
  texts,
}

-- The value of the first layer that has one.
abbrev pub first_of_layers : {A : Type 0} → Option A → Option A → Option A → A → A
first_of_layers (some flag) file env default = flag
first_of_layers none (some file) env default = file
first_of_layers none none (some env) default = env
first_of_layers none none none default = default

abbrev pub flag_layer : {A : Type 0} → Binding → Layers → A → Option A
flag_layer b l flag_val = if l.explicit b.flag_name then some flag_val else none

-- What the config file holds under the key of the field, if it has the type of the field.
abbrev pub typed : {A : Type 0} → (Json → Option A) → Option Json → Option A
typed read none = none
typed read (some v) = read v

abbrev pub as_string : Json → Option String
as_string (text s) = some s
as_string _ = none

abbrev pub as_bool : Json → Option Bool
as_bool (bool b) = some b
as_bool _ = none

abbrev pub as_int : Json → Option ℤ
as_int (number n) = some n
as_int _ = none

abbrev pub nonempty : List String → Option (List String)
nonempty [] = none
nonempty (x ∷ xs) = some (x ∷ xs)

abbrev pub as_slice : Json → Option (List String)
as_slice (array xs) = nonempty (texts xs)
as_slice _ = none

abbrev pub parsed : {A : Type 0} → (String → Option A) → Option String → Option A
parsed read none = none
parsed read (some v) = read v

module _ (b : Binding) (l : Layers) where
  -- A string field takes the explicit flag, or else the text in the config file, or else the
  -- non-empty environment variable, or else keeps its default.
  pub resolve_string-layers :
      (flag_val default : String)
      → resolve_string b l flag_val default
        ≡ first_of_layers
            (flag_layer b l flag_val)
            (typed as_string (file_value b l))
            (env_value b l)
            default
  unfolding resolve_string
  resolve_string-layers flag_val default = go (file_value b l) refl
    where
      go :
          (o : Option Json)
          → file_value b l ≡ o
          → resolve_string b l flag_val default
            ≡ first_of_layers
                (flag_layer b l flag_val)
                (typed as_string (file_value b l))
                (env_value b l)
                default
      go none e = ground arith
      go (some (text s)) e = ground arith
      go (some v) e = ground arith

  -- A Boolean field takes the explicit flag, or else the Boolean in the config file, or else
  -- whether the non-empty environment variable is 1 or true, or else keeps its default.
  pub resolve_bool-layers :
      (flag_val default : Bool)
      → resolve_bool b l flag_val default
        ≡ first_of_layers
            (flag_layer b l flag_val)
            (typed as_bool (file_value b l))
            (parsed (λ v. some (v == "1" || v == "true")) (env_value b l))
            default
  unfolding resolve_bool
  resolve_bool-layers flag_val default = go (file_value b l) refl
    where
      go :
          (o : Option Json)
          → file_value b l ≡ o
          → resolve_bool b l flag_val default
            ≡ first_of_layers
                (flag_layer b l flag_val)
                (typed as_bool (file_value b l))
                (parsed (λ v. some (v == "1" || v == "true")) (env_value b l))
                default
      go none e = ground arith
      go (some (bool x)) e = ground arith
      go (some v) e = ground arith

  -- An int field takes the explicit flag, or else the number in the config file, or else the
  -- number that the environment variable reads as, or else keeps its default.
  pub resolve_int-layers :
      (atoi : String → Option ℤ) (flag_val default : ℤ)
      → resolve_int atoi b l flag_val default
        ≡ first_of_layers
            (flag_layer b l flag_val)
            (typed as_int (file_value b l))
            (parsed atoi (env_value b l))
            default
  unfolding resolve_int
  resolve_int-layers atoi flag_val default = go (file_value b l) refl
    where
      go :
          (o : Option Json)
          → file_value b l ≡ o
          → resolve_int atoi b l flag_val default
            ≡ first_of_layers
                (flag_layer b l flag_val)
                (typed as_int (file_value b l))
                (parsed atoi (env_value b l))
                default
      go none e = ground arith
      go (some (number x)) e = ground arith
      go (some v) e = ground arith

  -- A list field takes the explicit flag, or else the texts in the array of the config file if it
  -- has any, or else the parts of the non-empty environment variable, or else keeps its default.
  pub resolve_slice-layers :
      (split : String → List String) (flag_val default : List String)
      → resolve_slice split b l flag_val default
        ≡ first_of_layers
            (flag_layer b l flag_val)
            (typed as_slice (file_value b l))
            (parsed (λ v. some (split v)) (env_value b l))
            default
  unfolding resolve_slice
  resolve_slice-layers split flag_val default = go (file_value b l) refl
    where
      go :
          (o : Option Json)
          → file_value b l ≡ o
          → resolve_slice split b l flag_val default
            ≡ first_of_layers
                (flag_layer b l flag_val)
                (typed as_slice (file_value b l))
                (parsed (λ v. some (split v)) (env_value b l))
                default
      go none e = ground arith
      go (some (array xs)) e = ground arith
      go (some v) e = ground arith
