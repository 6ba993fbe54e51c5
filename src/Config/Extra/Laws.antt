-- ===== src/Config/Extra/Laws.antt =====
-- That --extra key=value flags are read back as the values under each key.
use Prim.Native.Char.{code}
use oidc_token_cli.Base.{
  String, ◌<>◌, ◌≡◌, refl, sym, ap, ◌∙◌, Bool, false, ◌||◌, some, List, [], ◌∷◌, ◌++◌, ◌==◌,
  if◌then◌else◌, nat_eq, ok, All, arith,
}
use text.Mathlib.TextLemmas.{cons-append, nil-append}
use mathlib.Core.List.{append_assoc, append-nil}
use oidc_token_cli.Oidc.Request.{Form}
use oidc_token_cli.Oidc.Exchange.{values_of, add_value, add_values}
use oidc_token_cli.Oidc.Exchange.Laws.{values_of-add_values, under}
use oidc_token_cli.Config.Extra.{cut, set, set_all}

-- A text with an "=" in it.
abbrev pub has_equals : String → Bool
has_equals String.[] = false
has_equals (String.◌∷◌ c s) = nat_eq (code c) 61 || has_equals s

-- What --extra key=value is given for a key and a value.
abbrev pub rendered : String × String → String
rendered (k, value) = k <> ("=" <> value)

pub cut-equals :
    (k value : String) → has_equals k ≡ false → cut (k <> ("=" <> value)) ≡ some (k, value)
unfolding cut
cut-equals String.[] value h = ap cut (
    nil-append ("=" <> value)
    ∙ cons-append "=" "" value
    ∙ ap (λ t. String.◌∷◌ "=" t) (nil-append value))
cut-equals (String.◌∷◌ c k) value h =
    let plain : nat_eq (code c) 61 ≡ false = ground arith in
    let rest : cut (k <> ("=" <> value)) ≡ some (k, value) = cut-equals k value (ground arith) in
    ap cut (cons-append c k ("=" <> value)) ∙ rw (plain, rest) refl

set-equals :
    (k value : String) (f : Form)
    → has_equals k ≡ false
    → set (rendered (k, value)) f ≡ ok (add_value k value f)
unfolding set
set-equals k value f h = rw (cut-equals k value h, set) refl

abbrev pub all_rendered : List (String × String) → List String
all_rendered [] = []
all_rendered (pair ∷ pairs) = rendered pair ∷ all_rendered pairs

-- The values under a key, in order.
abbrev pub values_under : String → List (String × String) → List String
values_under n [] = []
values_under n ((k, value) ∷ pairs) = (if k == n then value ∷ [] else []) ++ values_under n pairs

-- No key has an "=" in it; a value may.
abbrev pub HasPlainKey : String × String → Type 0
HasPlainKey (k, value) = has_equals k ≡ false

-- Where no key has an "=" in it: --extra flags that spell out a list of pairs are accepted, and
-- under every key the form then has the values it had before and those of the pairs, in order.
pub set_all-all_rendered :
    (pairs : List (String × String)) (f : Form)
    → All HasPlainKey pairs
    → (g : Form) × (set_all (all_rendered pairs) f ≡ ok g)
      × ((n : String) → values_of n g ≡ values_of n f ++ values_under n pairs)
unfolding set_all add_values
set_all-all_rendered [] f plain = (f, refl, λ n. sym (append-nil (values_of n f)))
set_all-all_rendered ((k, value) ∷ pairs) f (plain, rest) =
    let (g, accepted, values) = set_all-all_rendered pairs (add_value k value f) rest in
    (
      g,
      rw (set_all, set-equals k value f plain) accepted,
      λ n.
          values n
          ∙ ap (λ l. l ++ values_under n pairs) (values_of-add_values n k (value ∷ []) f)
          ∙ append_assoc (values_of n f) (under n k (value ∷ [])) (values_under n pairs),
    )
