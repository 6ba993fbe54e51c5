-- ===== src/Config/Arguments/Spelling.antt =====
-- That a command line which spells out settings of flags is read back as these settings.
pub mod Values
use Prim.Native.Char.{code}
use text.Mathlib.TextLemmas.{cons-append, nil-append}
use oidc_token_cli.Base.{
  some-inj, none-ne-some, String, ◌<>◌, ◌≡◌, refl, sym, ap, ◌∙◌, Bool, true, false, not, ◌&&◌, ◌||◌,
  inl, inr, ◌⊎◌, Option, none, some, Option-cases, List, [], ◌∷◌, ◌++◌, lookup, insert,
  if◌then◌else◌, nat_eq, Bool-cases, All, if_true, Error, Result, ok, err, Result-cases, arith,
}
use oidc_token_cli.Base.Json.{ℤ}
use oidc_token_cli.Flagbinding.Registration.{Value}
use oidc_token_cli.Config.Extra.{cut}
use oidc_token_cli.Config.Extra.Laws.{has_equals, cut-equals}
use oidc_token_cli.Config.Arguments.{
  FlagSet, Argument, operand, terminator, bad_syntax, named, read_name, read_argument, is_bool,
  Seen, seen, ended, failed, set_value, assign, give, parse_named, parse_first, parse_one, Parses,
  more, end, parse_all,
}
use oidc_token_cli.Config.Arguments.Termination.{parse_all_terminates}

-- A flag with its value in one argument or in two, or a flag alone; with two dashes or with one.
pub data Setting : Type 0 where
  attached : Bool → String → String → Setting
  separate : Bool → String → String → Setting
  alone : Bool → String → Setting

abbrev dashes : Bool → String → String
dashes true s = "--" <> s
dashes false s = "-" <> s

abbrev pub spell : Setting → List String → List String
spell (attached d name v) rest = dashes d (name <> ("=" <> v)) ∷ rest
spell (separate d name v) rest = dashes d name ∷ v ∷ rest
spell (alone d name) rest = dashes d name ∷ rest

abbrev pub spell_all : List Setting → List String → List String
spell_all [] rest = rest
spell_all (s ∷ later) rest = spell s (spell_all later rest)

abbrev pub name_of : Setting → String
name_of (attached d name v) = name
name_of (separate d name v) = name
name_of (alone d name) = name

abbrev pub text_of : Setting → String
text_of (attached d name v) = v
text_of (separate d name v) = v
text_of (alone d name) = "true"

-- A name that does not begin with a dash or an "=" and has no "=" in it.
abbrev pub is_plain : String → Bool
is_plain String.[] = false
is_plain (String.◌∷◌ c s) =
    not (nat_eq (code c) 45) && (not (nat_eq (code c) 61) && not (has_equals s))

abbrev pub IsPlain : Setting → Type 0
IsPlain s = is_plain (name_of s) ≡ true

-- A Boolean flag does not take the next argument, and only a Boolean flag may stand alone.
abbrev fits : Value → Setting → Bool
fits old (attached d name v) = true
fits old (separate d name v) = not (is_bool old)
fits old (alone d name) = is_bool old

-- What may be left when the last setting is read: nothing, an operand and all behind it, or all
-- behind a `--`.
abbrev left_at : Argument → List String → List String → Option (List String)
left_at operand all rest = some all
left_at terminator all rest = some rest
left_at bad_syntax all rest = none
left_at (named name given) all rest = none

abbrev pub left_after : List String → Option (List String)
left_after [] = some []
left_after (s ∷ rest) = left_at (read_argument s) (s ∷ rest) rest

module _ (parse_int : String → Option ℤ) where
  -- The values of the flags after a setting; `none` if it is refused.
  abbrev accepted : String → Result Value → List (String × Value) → Option (List (String × Value))
  accepted name (err e) fs = none
  accepted name (ok new) fs = some (insert name new fs)

  abbrev fitted : Setting → Option Value → List (String × Value) → Option (List (String × Value))
  fitted s none fs = none
  fitted s (some old) fs =
      if fits old s then accepted (name_of s) (set_value parse_int old (text_of s)) fs else none

  unfoldable pub apply : Setting → List (String × Value) → Option (List (String × Value))
  apply s fs = fitted s (lookup (name_of s) fs) fs

  abbrev pub apply_all : List Setting → List (String × Value) → Option (List (String × Value))
  apply_all [] fs = some fs
  apply_all (s ∷ later) fs = elim (apply s fs) [ none ↦ none | some gs ↦ apply_all later gs ]

-- The names of the settings, in front of those that were set before.
abbrev pub set_names : List Setting → List String → List String
set_names [] actual = actual
set_names (s ∷ later) actual = set_names later (name_of s ∷ actual)

cut-plain : (s : String) → has_equals s ≡ false → cut s ≡ none
unfolding cut
cut-plain String.[] h = refl
cut-plain (String.◌∷◌ c s) h =
    let plain : nat_eq (code c) 61 ≡ false = ground arith in
    let rest : cut s ≡ none = cut-plain s (ground arith) in rw (plain, rest) refl

read_name-plain : (name : String) → is_plain name ≡ true → read_name name ≡ named name none
unfolding read_name
read_name-plain String.[] h = cc
read_name-plain (String.◌∷◌ c s) h =
    let dash : nat_eq (code c) 45 ≡ false = ground arith in
    let equals : nat_eq (code c) 61 ≡ false = ground arith in
    rw (dash, equals, cut-plain s (ground arith)) refl

read_name-attached :
    (name v : String) → is_plain name ≡ true → read_name (name <> ("=" <> v)) ≡ named name (some v)
unfolding read_name
read_name-attached String.[] v h = cc
read_name-attached (String.◌∷◌ c s) v h =
    let dash : nat_eq (code c) 45 ≡ false = ground arith in
    let equals : nat_eq (code c) 61 ≡ false = ground arith in
    ap read_name (cons-append c s ("=" <> v))
    ∙ rw (read_name, dash, equals, cut-equals s v (ground arith)) refl

dash-append : (s : String) → "-" <> s ≡ String.◌∷◌ "-" s
dash-append s = cons-append "-" "" s ∙ ap (λ t. String.◌∷◌ "-" t) (nil-append s)

dashes-append : (s : String) → "--" <> s ≡ String.◌∷◌ "-" (String.◌∷◌ "-" s)
dashes-append s = cons-append "-" "-" s ∙ ap (λ t. String.◌∷◌ "-" t) (dash-append s)

-- A text that does not begin with a dash is a name behind the dashes.
read_argument-dashes :
    (d : Bool) (c : _) (s : String)
    → nat_eq (code c) 45 ≡ false
    → read_argument (dashes d (String.◌∷◌ c s)) ≡ read_name (String.◌∷◌ c s)
unfolding read_argument
read_argument-dashes true c s h = rw (dashes-append (String.◌∷◌ c s)) refl
read_argument-dashes false c s h = rw (dash-append (String.◌∷◌ c s), read_argument, h) refl

read-plain :
    (d : Bool) (name : String)
    → is_plain name ≡ true
    → read_argument (dashes d name) ≡ named name none
read-plain d String.[] h = cc
read-plain d (String.◌∷◌ c s) h =
    read_argument-dashes d c s (ground arith) ∙ read_name-plain (String.◌∷◌ c s) h

read-attached :
    (d : Bool) (name v : String)
    → is_plain name ≡ true
    → read_argument (dashes d (name <> ("=" <> v))) ≡ named name (some v)
read-attached d String.[] v h = cc
read-attached d (String.◌∷◌ c s) v h =
    let joined = cons-append c s ("=" <> v) in
    ap (λ t. read_argument (dashes d t)) joined
    ∙ read_argument-dashes d c (s <> ("=" <> v)) (ground arith)
    ∙ ap read_name (sym joined)
    ∙ read_name-attached (String.◌∷◌ c s) v h

module _ (parse_int : String → Option ℤ) where
  abbrev state : List (String × Value) → List String → List String → FlagSet
  state fs actual args = record { formal = fs; actual = actual; args = args }

  -- What an accepted setting has done.
  abbrev Accepted : Setting → Option Value → List (String × Value) → List (String × Value) → Type 0
  Accepted s o fs gs =
      (old : Value) × (new : Value) × (o ≡ some old)
      × (fits old s ≡ true)
      × (set_value parse_int old (text_of s) ≡ ok new)
      × (insert (name_of s) new fs ≡ gs)

  accepted-ok :
      (name : String) (x : Result Value) (fs gs : List (String × Value))
      → accepted parse_int name x fs ≡ some gs
      → (new : Value) × (x ≡ ok new) × (insert name new fs ≡ gs)
  accepted-ok name (err e) fs gs h = cc
  accepted-ok name (ok new) fs gs h = (new, refl, cc)

  fitted-Accepted :
      (s : Setting) (o : Option Value) (fs gs : List (String × Value))
      → fitted parse_int s o fs ≡ some gs
      → Accepted s o fs gs
  fitted-Accepted s none fs gs h = cc
  fitted-Accepted s (some old) fs gs h = elim (Bool-cases (fits old s)) [
    | inl fit ↦
        let (new, set, same) =
          accepted-ok (name_of s) (set_value parse_int old (text_of s)) fs gs
            (sym (if_true _ none fit) ∙ h) in
        (old, new, refl, fit, set, same)
    | inr misfit ↦ absurd (none-ne-some (rw misfit at h))
  ]

  pub apply-Accepted :
      (s : Setting) (fs gs : List (String × Value))
      → apply parse_int s fs ≡ some gs
      → Accepted s (lookup (name_of s) fs) fs gs
  unfolding apply
  apply-Accepted s fs gs h = fitted-Accepted s (lookup (name_of s) fs) fs gs h

  assign-ok :
      (fs gs : List (String × Value)) (actual rest args : List String) (name v : String)
      (old new : Value)
      → set_value parse_int old v ≡ ok new
      → insert name new fs ≡ gs
      → assign parse_int (state fs actual args) name old v rest
        ≡ seen (state gs (name ∷ actual) rest)
  unfolding assign
  assign-ok fs gs actual rest args name v old new set same =
      rw (set, assign) (ap (λ x. seen (state x (name ∷ actual) rest)) same)

  -- A round reads a setting.
  parse_one-spell :
      (s : Setting) (fs gs : List (String × Value)) (actual rest : List String)
      → IsPlain s
      → Accepted s (lookup (name_of s) fs) fs gs
      → parse_one parse_int (state fs actual (spell s rest))
        ≡ seen (state gs (name_of s ∷ actual) rest)
  unfolding parse_one parse_first parse_named give
  parse_one-spell (attached d name v) fs gs actual rest plain (old, new, found, fit, set, same) =
      rw (read-attached d name v plain, parse_first, parse_named, found, give)
        (assign-ok fs gs actual rest (dashes d (name <> ("=" <> v)) ∷ rest) name v old new set same)
  parse_one-spell (separate d name v) fs gs actual rest plain (old, new, found, fit, set, same) =
      let takes : is_bool old ≡ false = ground arith in
      rw (read-plain d name plain, parse_first, parse_named, found, give, takes)
        (assign-ok fs gs actual rest (dashes d name ∷ v ∷ rest) name v old new set same)
  parse_one-spell (alone d name) fs gs actual rest plain (old, new, found, fit, set, same) =
      rw (read-plain d name plain, parse_first, parse_named, found, give, fit)
        (assign-ok fs gs actual rest (dashes d name ∷ rest) name "true" old new set same)

  left_at-ended :
      (a : Argument) (fs : List (String × Value)) (actual all rest left : List String)
      → left_at a all rest ≡ some left
      → parse_first parse_int (state fs actual all) a rest ≡ ended (state fs actual left)
  unfolding parse_first
  left_at-ended operand fs actual all rest left h = ap (λ l. ended (state fs actual l)) (some-inj h)
  left_at-ended terminator fs actual all rest left h =
      ap (λ l. ended (state fs actual l)) (some-inj h)
  left_at-ended bad_syntax fs actual all rest left h = cc
  left_at-ended (named name given) fs actual all rest left h = cc

  left_after-ended :
      (fs : List (String × Value)) (actual rest left : List String)
      → left_after rest ≡ some left
      → parse_one parse_int (state fs actual rest) ≡ ended (state fs actual left)
  unfolding parse_one
  left_after-ended fs actual [] left h = ap (λ l. ended (state fs actual l)) (some-inj h)
  left_after-ended fs actual (s ∷ rest) left h =
      left_at-ended (read_argument s) fs actual (s ∷ rest) rest left h

  spell_all-Parses :
      (settings : List Setting) (fs gs : List (String × Value)) (actual rest left : List String)
      → All IsPlain settings
      → apply_all parse_int settings fs ≡ some gs
      → left_after rest ≡ some left
      → Parses parse_int
          (state fs actual (spell_all settings rest))
          (ok (state gs (set_names settings actual) left))
  spell_all-Parses [] fs gs actual rest left plain h stops =
      rw (← some-inj h) (end (left_after-ended fs actual rest left stops))
  spell_all-Parses (s ∷ later) fs gs actual rest left (plain, plains) h stops =
      elim (Option-cases (apply parse_int s fs)) [
        | inl e ↦ absurd (none-ne-some (rw (e, apply_all) at h))
        | inr (hs, e) ↦
            more
              (parse_one-spell s fs hs actual (spell_all later rest) plain
                (apply-Accepted s fs hs e))
              (spell_all-Parses later hs gs (name_of s ∷ actual) rest left plains
                (rw (e, apply_all) at h) stops)
      ]

  -- Where a command line spells out settings, each of a flag with a plain name and in a form that
  -- the flag takes, and nothing, an operand or a `--` follows: it is accepted, every flag then has
  -- the value that the settings give one after another, exactly their names are added to those of
  -- the flags that were set, and all from the operand on, or all behind the `--`, is left.
  pub parse_all-spell_all :
      (settings : List Setting) (fs gs : List (String × Value)) (actual rest left : List String)
      → All IsPlain settings
      → apply_all parse_int settings fs ≡ some gs
      → left_after rest ≡ some left
      → parse_all parse_int
          (record { formal = fs; actual = actual; args = spell_all settings rest })
        ≡ ok (record { formal = gs; actual = set_names settings actual; args = left })
  parse_all-spell_all settings fs gs actual rest left plain accepted stops = sym (
      (parse_all_terminates parse_int (state fs actual (spell_all settings rest))).2 _
        (spell_all-Parses settings fs gs actual rest left plain accepted stops))
