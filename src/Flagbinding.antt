-- ===== src/Flagbinding.antt =====
-- internal/flagbinding/binding.go: how one configuration value is resolved from its default, the
-- environment, the config file and an explicit flag. The pointer `Target` is the value that is
-- threaded through; `flag_val` is what flag parsing left in the field. `strconv.Atoi` and
-- `strings.Split(v, ",")` are the parameters `atoi` and `split`.
pub mod Laws
pub mod Registration
use oidc_token_cli.Base.{
  String, Bool, true, false, ◌||◌, Option, none, some, List, [], ◌∷◌, ◌==◌, is_empty, if◌then◌else◌,
  is_nil, lookup,
}
use oidc_token_cli.Base.Json.{Json, ℤ, bool, number, text, array, Items, done, item}

-- The three names of a field; an empty one is absent. StringField, BoolField, IntField and
-- StringSliceField share them.
pub record Binding : Type 0 where
  pub flag_name : String
  pub env_key : String
  pub json_key : String

-- The sources of a resolution: the environment, the config file (nil if there is none), and the
-- flags that were set on the command line.
pub record Layers : Type 0 where
  pub getenv : String → String
  pub file : Option (List (String × Json))
  pub explicit : String → Bool

-- `fc[key]` behind the two guards of ApplyFile.
unfoldable pub file_value : Binding → Layers → Option Json
file_value b l =
    if is_empty b.json_key
    then none
    else elim l.file [ none ↦ none | some fc ↦ lookup b.json_key fc ]

-- `env(key)` behind the two guards of ApplyEnv.
unfoldable pub env_value : Binding → Layers → Option String
env_value b l =
    let v = l.getenv b.env_key in
    if is_empty b.env_key then none else if is_empty v then none else some v

abbrev pub apply_flag {ℓ} : {A : Type ℓ} → Binding → Layers → A → A → A
apply_flag b l flag_val target = if l.explicit b.flag_name then flag_val else target

module _ (b : Binding) (l : Layers) where
  -- StringField
  unfoldable pub string_env : String → String
  unfolding env_value
  string_env target = elim (env_value b l) [ none ↦ target | some v ↦ v ]

  unfoldable pub string_file : String → String
  unfolding file_value
  string_file target = elim (file_value b l) [ some (text s) ↦ s | _ ↦ target ]

  unfoldable pub resolve_string : String → String → String
  unfolding string_env string_file
  resolve_string flag_val target = apply_flag b l flag_val (string_file (string_env target))

  -- BoolField
  unfoldable pub bool_env : Bool → Bool
  unfolding env_value
  bool_env target = elim (env_value b l) [ none ↦ target | some v ↦ v == "1" || v == "true" ]

  unfoldable pub bool_file : Bool → Bool
  unfolding file_value
  bool_file target = elim (file_value b l) [ some (bool x) ↦ x | _ ↦ target ]

  unfoldable pub resolve_bool : Bool → Bool → Bool
  unfolding bool_env bool_file
  resolve_bool flag_val target = apply_flag b l flag_val (bool_file (bool_env target))

module _ (atoi : String → Option ℤ) (b : Binding) (l : Layers) where
  abbrev or_target : Option ℤ → ℤ → ℤ
  or_target none target = target
  or_target (some n) target = n

  -- IntField
  unfoldable pub int_env : ℤ → ℤ
  unfolding env_value
  int_env target = elim (env_value b l) [ none ↦ target | some v ↦ or_target (atoi v) target ]

  unfoldable pub int_file : ℤ → ℤ
  unfolding file_value
  int_file target = elim (file_value b l) [ some (number n) ↦ n | _ ↦ target ]

  unfoldable pub resolve_int : ℤ → ℤ → ℤ
  unfolding int_env int_file
  resolve_int flag_val target = apply_flag b l flag_val (int_file (int_env target))

-- The texts among the items of an array.
unfoldable pub texts : Items → List String
texts done = []
texts (item (text s) xs) = s ∷ texts xs
texts (item v xs) = texts xs

module _ (split : String → List String) (b : Binding) (l : Layers) where
  -- StringSliceField
  unfoldable pub slice_env : List String → List String
  unfolding env_value
  slice_env target = elim (env_value b l) [ none ↦ target | some v ↦ split v ]

  abbrev or_nonempty : List String → List String → List String
  or_nonempty [] target = target
  or_nonempty (x ∷ xs) target = x ∷ xs

  unfoldable pub slice_file : List String → List String
  unfolding file_value texts
  slice_file target = elim (file_value b l) [
    | some (array xs) ↦ or_nonempty (texts xs) target
    | _ ↦ target
  ]

  unfoldable pub resolve_slice : List String → List String → List String
  unfolding slice_env slice_file
  resolve_slice flag_val target = apply_flag b l flag_val (slice_file (slice_env target))
