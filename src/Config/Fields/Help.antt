-- ===== src/Config/Fields/Help.antt =====
-- The registered flags as the help text of internal/config/usage.go sees them.
use oidc_token_cli.Base.{
  some-inj, none-ne-some, String, ◌≡◌, refl, sym, ap, Bool, true, false, inl, inr, ◌⊎◌, eq_iff,
  none, some, Option-cases, List, [], ◌∷◌, ◌++◌, lookup, Listed, Distinct, arith,
}
use oidc_token_cli.Base.Json.{ℤ, pos}
use oidc_token_cli.Flagbinding.Registration.{
  Value, string_value, bool_value, int_value, slice_value, extra_value, value_string, Field,
  string_field, bool_field, int_field, slice_field, Registered, register_var, register,
  register_all,
}
use oidc_token_cli.Config.Usage.{Flag, groups, print_grouped_usage, names}
use oidc_token_cli.Config.Usage.Laws.{shown, count, print_grouped_usage_once}

abbrev has_string : Value → Bool
has_string (string_value s) = true
has_string v = false

abbrev zero_of : Value → Value
zero_of (string_value s) = string_value ""
zero_of (bool_value b) = bool_value false
zero_of (int_value n) = int_value (pos 0)
zero_of (slice_value xs) = slice_value []
zero_of (extra_value form) = extra_value []

-- What isStringFlag and isZeroValue find by reflection.
unfoldable pub described : (ℤ → String) → String × Registered → Flag
unfolding value_string
described itoa (name, f) = record {
  name = name;
  usage = f.usage;
  def_value = value_string itoa f.value;
  is_string = has_string f.value;
  zero_value = some (value_string itoa (zero_of f.value));
}

unfoldable pub described_all : (ℤ → String) → List (String × Registered) → List Flag
unfolding described
described_all itoa [] = []
described_all itoa (f ∷ fs) = described itoa f ∷ described_all itoa fs

abbrev names_of : List (String × Registered) → List String
names_of [] = []
names_of ((name, f) ∷ fs) = name ∷ names_of fs

names-described_all :
    (itoa : ℤ → String) (fs : List (String × Registered))
    → names (described_all itoa fs) ≡ names_of fs
unfolding described_all described
names-described_all itoa [] = refl
names-described_all itoa ((name, f) ∷ fs) = ap (λ l. name ∷ l) (names-described_all itoa fs)

lookup-Listed :
    (name : String) (fs : List (String × Registered))
    → lookup name fs ≡ none
    → ¬ Listed name (names_of fs)
unfolding lookup
lookup-Listed name [] h = λ listed. listed
lookup-Listed name ((n, f) ∷ fs) h = ground (arith, eq_iff n name, lookup-Listed name fs)

Listed-append :
    (x name : String) (f : Registered) (fs : List (String × Registered))
    → Listed x (names_of (fs ++ ((name, f) ∷ [])))
    → Listed x (names_of fs) ⊎ (name ≡ x)
Listed-append x name f [] h = ground arith
Listed-append x name f ((n, g) ∷ fs) (inl same) = inl (inl same)
Listed-append x name f ((n, g) ∷ fs) (inr later) = ground (arith, Listed-append x name f fs later)

-- A name that is not there yet may stand at the end.
append-Distinct :
    (name : String) (f : Registered) (fs : List (String × Registered))
    → ¬ Listed name (names_of fs)
    → Distinct (names_of fs)
    → Distinct (names_of (fs ++ ((name, f) ∷ [])))
append-Distinct name f [] fresh h = ((λ listed. listed), tt)
append-Distinct name f ((n, g) ∷ fs) fresh (first, rest) = (
  (λ listed. elim (Listed-append n name f fs listed) [
    | inl there ↦ first there
    | inr same ↦ fresh (inl (sym same))
  ]),
  append-Distinct name f fs (λ listed. fresh (inr listed)) rest,
)

register_var-Distinct :
    (name usage : String) (v : Value) (fs gs : List (String × Registered))
    → register_var name usage v fs ≡ some gs
    → Distinct (names_of fs)
    → Distinct (names_of gs)
unfolding register_var
register_var-Distinct name usage v fs gs h distinct = elim (Option-cases (lookup name fs)) [
  | inr (old, e) ↦ absurd (none-ne-some (rw (e, register_var) at h))
  | inl e ↦ rw (← some-inj (rw (e, register_var) at h)) (
      append-Distinct name (record { usage = usage; value = v }) fs (lookup-Listed name fs e)
        distinct)
]

register-Distinct :
    (field : Field) (fs gs : List (String × Registered))
    → register field fs ≡ some gs
    → Distinct (names_of fs)
    → Distinct (names_of gs)
unfolding register
register-Distinct (string_field b usage def) fs gs h = register_var-Distinct _ _ _ fs gs h
register-Distinct (bool_field b usage def) fs gs h = register_var-Distinct _ _ _ fs gs h
register-Distinct (int_field b usage def) fs gs h = register_var-Distinct _ _ _ fs gs h
register-Distinct (slice_field b usage) fs gs h = register_var-Distinct _ _ _ fs gs h

register_all-Distinct :
    (fields : List Field) (fs gs : List (String × Registered))
    → register_all fields fs ≡ some gs
    → Distinct (names_of fs)
    → Distinct (names_of gs)
unfolding register_all
register_all-Distinct [] fs gs h distinct = rw (← some-inj h) distinct
register_all-Distinct (field ∷ later) fs gs h distinct = elim (Option-cases (register field fs)) [
  | inl e ↦ absurd (none-ne-some (rw (e, register_all) at h))
  | inr (hs, e) ↦
      register_all-Distinct later hs gs (rw (e, register_all) at h)
        (register-Distinct field fs hs e distinct)
]

-- Whatever fields are registered: where no registration panics, the help text shows every flag
-- exactly once.
pub register_all-shown :
    (itoa : ℤ → String) (fields : List Field) (fs : List (String × Registered)) (n : String)
    → register_all fields [] ≡ some fs
    → count n (shown (print_grouped_usage groups (described_all itoa fs)))
      ≡ count n (described_all itoa fs)
register_all-shown itoa fields fs n h =
    print_grouped_usage_once (described_all itoa fs) n
      (rw (names-described_all itoa fs) (register_all-Distinct fields [] fs h tt))
