-- ===== src/Config/Extra.antt =====
-- extraFieldsFlag of internal/config/config.go: the value of the repeatable flag --extra key=value.
pub mod Laws
use Prim.Native.Char.{code}
use oidc_token_cli.Base.{
  String, Option, none, some, List, [], ◌∷◌, if◌then◌else◌, nat_eq, message, Result, ok, err,
}
use oidc_token_cli.Oidc.Request.{Form}
use oidc_token_cli.Oidc.Exchange.{add_value}

-- `strings.Cut(v, "=")`: what is before and after the first "=", if there is one.
unfoldable pub cut : String → Option (String × String)
cut String.[] = none
cut (String.◌∷◌ c s) =
    let rest = cut s in
    if nat_eq (code c) 61
    then some (String.[], s)
    else elim rest [ none ↦ none | some (before, after) ↦ some (String.◌∷◌ c before, after) ]

-- Set
unfoldable pub set : String → Form → Result Form
unfolding cut add_value
set v f = elim (cut v) [
  | none ↦ err (message "--extra value must be key=value")
  | some (k, value) ↦ ok (add_value k value f)
]

-- The flag package sets the values in the order of the arguments, and stops at the first error.
unfoldable pub set_all : List String → Form → Result Form
unfolding set
set_all [] f = ok f
set_all (v ∷ vs) f = elim (set v f) [ err e ↦ err e | ok g ↦ set_all vs g ]
