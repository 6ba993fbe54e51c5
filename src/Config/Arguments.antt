-- ===== src/Config/Arguments.antt =====
-- `fs.Parse(args)` in Parse of internal/config/config.go, with the values that the program's flags
-- have: the loop of Go's flag package, one argument or two at a time. `strconv.ParseInt(s, 0, 64)`
-- is the parameter `parse_int`. What the package writes to standard error is left out.
pub mod Termination
pub mod Spelling
use Prim.Native.Char.{code}
use oidc_token_cli.Base.{
  ℕ, zero, suc, String, ◌<>◌, ◌≡◌, Bool, true, false, ◌||◌, Option, none, some, List, [], ◌∷◌, ◌==◌,
  contains, if◌then◌else◌, nat_eq, length, lookup, insert, Sentinel, help, Error, sentinel, message,
  Result, ok, err,
}
use oidc_token_cli.Base.Json.{ℤ}
use oidc_token_cli.Config.Extra.{cut}
use oidc_token_cli.Config.Extra
use oidc_token_cli.Flagbinding.Registration.{
  Value, string_value, bool_value, int_value, slice_value, extra_value, slice_set,
}

-- What the loop changes of a `flag.FlagSet`.
pub record FlagSet : Type 0 where
  pub formal : List (String × Value)
  pub actual : List String
  pub args : List String

-- How an argument reads.
pub data Argument : Type 0 where
  -- no flag: the loop stops in front of it
  operand : Argument
  -- `--`
  terminator : Argument
  bad_syntax : Argument
  -- `-name`, `--name`, `-name=value` or `--name=value`
  named : String → Option String → Argument

-- A name may not begin with a dash or an "=", and ends in front of the first "=".
unfoldable pub read_name : String → Argument
unfolding cut
read_name String.[] = bad_syntax
read_name (String.◌∷◌ c s) =
    if nat_eq (code c) 45 || nat_eq (code c) 61 then bad_syntax else elim (cut s) [
      | none ↦ named (String.◌∷◌ c s) none
      | some (before, after) ↦ named (String.◌∷◌ c before) (some after)
    ]

abbrev after_dashes : String → Argument
after_dashes String.[] = terminator
after_dashes (String.◌∷◌ c s) = read_name (String.◌∷◌ c s)

unfoldable pub read_argument : String → Argument
unfolding read_name
read_argument String.[] = operand
read_argument (String.◌∷◌ c String.[]) = operand
read_argument (String.◌∷◌ c (String.◌∷◌ d s)) =
    if nat_eq (code c) 45
    then (if nat_eq (code d) 45 then after_dashes s else read_name (String.◌∷◌ d s))
    else operand

-- `strconv.ParseBool`
unfoldable pub parse_bool : String → Option Bool
parse_bool s =
    if contains ("1" ∷ "t" ∷ "T" ∷ "true" ∷ "TRUE" ∷ "True" ∷ []) s
    then some true
    else if contains ("0" ∷ "f" ∷ "F" ∷ "false" ∷ "FALSE" ∷ "False" ∷ []) s
    then some false
    else none

abbrev pub is_bool : Value → Bool
is_bool (bool_value b) = true
is_bool v = false

-- One round of the loop.
pub data Seen : Type 0 where
  seen : FlagSet → Seen
  ended : FlagSet → Seen
  failed : Error → Seen

module _ (parse_int : String → Option ℤ) where
  -- `flag.Value.Set`
  unfoldable pub set_value : Value → String → Result Value
  unfolding parse_bool slice_set Extra.set
  set_value (string_value old) v = ok (string_value v)
  set_value (bool_value old) v = elim (parse_bool v) [
    | none ↦ err (message "parse error")
    | some b ↦ ok (bool_value b)
  ]
  set_value (int_value old) v = elim (parse_int v) [
    | none ↦ err (message "parse error")
    | some n ↦ ok (int_value n)
  ]
  set_value (slice_value old) v = ok (slice_value (slice_set old v))
  set_value (extra_value old) v = elim (Extra.set v old) [
    | err e ↦ err e
    | ok form ↦ ok (extra_value form)
  ]

  -- Set, and `f.actual[name] = flag`.
  unfoldable pub assign : FlagSet → String → Value → String → List String → Seen
  unfolding set_value
  assign f name old v rest = elim (set_value old v) [
    | err e ↦ failed (message ("invalid value for flag -" <> name))
    | ok new ↦
        seen (record { formal = insert name new f.formal; actual = name ∷ f.actual; args = rest })
  ]

  abbrev assign_next : FlagSet → String → Value → List String → Seen
  assign_next f name old [] = failed (message ("flag needs an argument: -" <> name))
  assign_next f name old (v ∷ rest) = assign f name old v rest

  -- The value is in the argument, or "true" for a Boolean flag, or the next argument.
  unfoldable pub give : FlagSet → String → Value → Option String → List String → Seen
  unfolding assign
  give f name old (some v) rest = assign f name old v rest
  give f name old none rest =
      if is_bool old then assign f name old "true" rest else assign_next f name old rest

  unfoldable pub parse_named : FlagSet → String → Option String → List String → Seen
  unfolding give
  parse_named f name given rest = elim (lookup name f.formal) [
    | none ↦ failed (
        if name == "help" || name == "h"
        then sentinel help
        else message ("flag provided but not defined: -" <> name))
    | some old ↦ give f name old given rest
  ]

  unfoldable pub parse_first : FlagSet → Argument → List String → Seen
  unfolding parse_named
  parse_first f operand rest = ended f
  parse_first f terminator rest = ended (record f { args = rest })
  parse_first f bad_syntax rest = failed (message "bad flag syntax")
  parse_first f (named name given) rest = parse_named f name given rest

  abbrev pub first_of : FlagSet → List String → Seen
  first_of f [] = ended f
  first_of f (s ∷ rest) = parse_first f (read_argument s) rest

  -- parseOne
  unfoldable pub parse_one : FlagSet → Seen
  unfolding parse_first read_argument
  parse_one f = first_of f f.args

  -- The loop of Parse, for at most so many rounds; `none` if they are not enough.
  unfoldable pub rounds : ℕ → FlagSet → Option (Result FlagSet)
  unfolding parse_one
  rounds zero f = none
  rounds (suc n) f = elim (parse_one f) [
    | seen g ↦ rounds n g
    | ended g ↦ some (ok g)
    | failed e ↦ some (err e)
  ]

  -- The loop as it is written: it goes on while a flag was seen.
  pub data Parses : FlagSet → Result FlagSet → Type 0 where
    more : {f g : FlagSet} {r : Result FlagSet} → parse_one f ≡ seen g → Parses g r → Parses f r
    end : {f g : FlagSet} → parse_one f ≡ ended g → Parses f (ok g)
    failure : {f : FlagSet} {e : Error} → parse_one f ≡ failed e → Parses f (err e)

  abbrev enough : Option (Result FlagSet) → Result FlagSet
  enough none = err (message "too few rounds")
  enough (some r) = r

  -- One round for each argument, and one in which nothing is left.
  unfoldable pub parse_all : FlagSet → Result FlagSet
  unfolding rounds
  parse_all f = enough (rounds (suc (length f.args)) f)
