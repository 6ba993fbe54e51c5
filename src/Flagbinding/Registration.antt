-- ===== src/Flagbinding/Registration.antt =====
-- The first half of internal/flagbinding/binding.go: the four kinds of field, the flag that each
-- registers, and the value of a repeatable flag. `--extra` of internal/config/config.go registers
-- a kind of its own.
use oidc_token_cli.Base.{
  String, ◌<>◌, Bool, Option, none, some, List, [], ◌∷◌, ◌++◌, is_empty, if◌then◌else◌, lookup,
}
use oidc_token_cli.Base.Json.{ℤ}
use oidc_token_cli.Oidc.Request.{Form}
use oidc_token_cli.Flagbinding.{Binding}

-- usageWithEnv
unfoldable pub usage_with_env : String → String → String
usage_with_env usage key = if is_empty key then usage else usage <> " [$" <> key <> "]"

-- What a flag points to: `flagVal` of a field with what parsing has left in it, or the form of
-- `--extra`.
pub data Value : Type 0 where
  string_value : String → Value
  bool_value : Bool → Value
  int_value : ℤ → Value
  slice_value : List String → Value
  extra_value : Form → Value

-- Set of sliceValue
unfoldable pub slice_set : List String → String → List String
slice_set s v = s ++ (v ∷ [])

-- String of sliceValue, `strings.Join(*s, ",")`
unfoldable pub slice_string : List String → String
slice_string [] = ""
slice_string (x ∷ []) = x
slice_string (x ∷ (y ∷ ys)) = x <> "," <> slice_string (y ∷ ys)

-- String of the value of a flag; `strconv.Itoa` is a parameter. That of `--extra` is empty.
unfoldable pub value_string : (ℤ → String) → Value → String
unfolding slice_string
value_string itoa (string_value s) = s
value_string itoa (bool_value b) = if b then "true" else "false"
value_string itoa (int_value n) = itoa n
value_string itoa (slice_value xs) = slice_string xs
value_string itoa (extra_value form) = ""

-- StringField, BoolField, IntField and StringSliceField, each with its names, its usage and, but
-- for the last, its default.
pub data Field : Type 0 where
  string_field : Binding → String → String → Field
  bool_field : Binding → String → Bool → Field
  int_field : Binding → String → ℤ → Field
  slice_field : Binding → String → Field

-- A flag of a `flag.FlagSet`: its usage and its value.
pub record Registered : Type 0 where
  pub usage : String
  pub value : Value

-- `fs.Var(value, name, usage)`; `none` is the panic for a name that is defined already.
unfoldable pub register_var :
    String → String → Value → List (String × Registered) → Option (List (String × Registered))
register_var name usage value fs = elim (lookup name fs) [
  | some old ↦ none
  | none ↦ some (fs ++ ((name, record { usage = usage; value = value }) ∷ []))
]

-- Register of StringField, BoolField, IntField and StringSliceField
unfoldable pub register_string :
    Binding → String → String → List (String × Registered) → Option (List (String × Registered))
unfolding register_var usage_with_env
register_string b usage def fs =
    register_var b.flag_name (usage_with_env usage b.env_key) (string_value def) fs

unfoldable pub register_bool :
    Binding → String → Bool → List (String × Registered) → Option (List (String × Registered))
unfolding register_var usage_with_env
register_bool b usage def fs =
    register_var b.flag_name (usage_with_env usage b.env_key) (bool_value def) fs

unfoldable pub register_int :
    Binding → String → ℤ → List (String × Registered) → Option (List (String × Registered))
unfolding register_var usage_with_env
register_int b usage def fs =
    register_var b.flag_name (usage_with_env usage b.env_key) (int_value def) fs

unfoldable pub register_slice :
    Binding → String → List (String × Registered) → Option (List (String × Registered))
unfolding register_var usage_with_env
register_slice b usage fs =
    register_var b.flag_name (usage_with_env usage b.env_key) (slice_value []) fs

unfoldable pub register : Field → List (String × Registered) → Option (List (String × Registered))
unfolding register_string register_bool register_int register_slice
register (string_field b usage def) fs = register_string b usage def fs
register (bool_field b usage def) fs = register_bool b usage def fs
register (int_field b usage def) fs = register_int b usage def fs
register (slice_field b usage) fs = register_slice b usage fs

-- `for _, f := range fields { f.Register(fs) }`
unfoldable pub register_all :
    List Field → List (String × Registered) → Option (List (String × Registered))
unfolding register
register_all [] fs = some fs
register_all (f ∷ later) fs = elim (register f fs) [ none ↦ none | some gs ↦ register_all later gs ]
