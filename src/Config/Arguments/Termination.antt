-- ===== src/Config/Arguments/Termination.antt =====
-- That the loop over the arguments ends, and that it computes what the loop is written to do.
use oidc_token_cli.Base.{
  some-inj, ℕ, zero, suc, ◌≤◌, ◌<◌, String, ◌≡◌, refl, sym, ◌∙◌, inl, inr, ◌⊎◌, Option, none, some,
  Option-cases, List, [], ◌∷◌, length, lookup, Error, Result, ok, err, arith, if_cases,
}
use oidc_token_cli.Base.Json.{ℤ}
use oidc_token_cli.Flagbinding.Registration.{Value}
use oidc_token_cli.Config.Arguments.{
  FlagSet, Argument, operand, terminator, bad_syntax, named, read_argument, first_of, is_bool, Seen,
  seen, ended, failed, assign, give, parse_named, parse_first, parse_one, rounds, Parses, more, end,
  failure, parse_all,
}

-- Where a round goes on, this holds of the flag set that it leaves.
abbrev pub Goes : (FlagSet → Type 0) → Seen → Type 0
Goes P (seen g) = P g
Goes P (ended g) = Unit
Goes P (failed e) = Unit

pub Goes-seen : (P : FlagSet → Type 0) (x : Seen) {g : FlagSet} → Goes P x → x ≡ seen g → P g
Goes-seen P (seen f) h e = ground (arith, h)
Goes-seen P (ended f) h e = cc
Goes-seen P (failed f) h e = cc

module _ (parse_int : String → Option ℤ) where
  -- At most the given arguments are left.
  abbrev Within : ℕ → FlagSet → Type 0
  Within n g = length g.args ≤ n

  assign-Within :
      (f : FlagSet) (name : String) (old : Value) (v : String) (rest : List String) (n : ℕ)
      → length rest ≤ n
      → Goes (Within n) (assign parse_int f name old v rest)
  unfolding assign
  assign-Within f name old v rest n h = ground arith

  give-Within :
      (f : FlagSet) (name : String) (old : Value) (given : Option String) (rest : List String)
      → Goes (Within (length rest)) (give parse_int f name old given rest)
  unfolding give
  give-Within f name old (some v) rest = assign-Within f name old v rest _ (omega arith)
  give-Within f name old none [] =
      if_cases (Goes (Within 0)) (is_bool old) _ _
        (λ _. assign-Within f name old "true" [] _ (omega arith)) (λ _. tt)
  give-Within f name old none (v ∷ rest) =
      if_cases (Goes (Within (suc (length rest)))) (is_bool old) _ _
        (λ _. assign-Within f name old "true" (v ∷ rest) _ (omega arith))
        (λ _. assign-Within f name old v rest _ (omega arith))

  parse_named-Within :
      (f : FlagSet) (name : String) (given : Option String) (rest : List String)
      → Goes (Within (length rest)) (parse_named parse_int f name given rest)
  unfolding parse_named
  parse_named-Within f name given rest = elim (Option-cases (lookup name f.formal)) [
    | inl missing ↦ rw (missing, parse_named) tt
    | inr (old, found) ↦ rw (found, parse_named) (give-Within f name old given rest)
  ]

  parse_first-Within :
      (f : FlagSet) (a : Argument) (rest : List String)
      → Goes (Within (length rest)) (parse_first parse_int f a rest)
  unfolding parse_first
  parse_first-Within f operand rest = tt
  parse_first-Within f terminator rest = tt
  parse_first-Within f bad_syntax rest = tt
  parse_first-Within f (named name given) rest = parse_named-Within f name given rest

  -- A round that goes on has used up an argument.
  first_of-shorter :
      (f g : FlagSet) (args : List String)
      → first_of parse_int f args ≡ seen g
      → length g.args < length args
  first_of-shorter f g [] h = cc
  first_of-shorter f g (s ∷ rest) h =
      let within : Within (length rest) g =
        Goes-seen (Within (length rest)) _ (parse_first-Within f (read_argument s) rest) h in
      omega arith

  abbrev Seen-cases :
      (x : Seen)
      → ((g : FlagSet) × (x ≡ seen g))
        ⊎ ((g : FlagSet) × (x ≡ ended g))
        ⊎ ((e : Error) × (x ≡ failed e))
  Seen-cases (seen g) = inl (g, refl)
  Seen-cases (ended g) = inr (inl (g, refl))
  Seen-cases (failed e) = inr (inr (e, refl))

  -- With more rounds than there are arguments, the loop ends as it is written to.
  rounds-Parses :
      (n : ℕ) (f : FlagSet)
      → length f.args < n
      → (r : Result FlagSet) × (rounds parse_int n f ≡ some r) × Parses parse_int f r
  unfolding rounds parse_one
  rounds-Parses zero f h = absurd (omega arith)
  rounds-Parses (suc n) f h = elim (Seen-cases (parse_one parse_int f)) [
    | inl (g, goes) ↦
        let (r, runs, parses) =
          rounds-Parses n g (omega (arith, first_of-shorter f g f.args goes)) in
        (r, rw (goes, rounds) runs, more goes parses)
    | inr (inl (g, ends)) ↦ (ok g, rw (ends, rounds) refl, end ends)
    | inr (inr (e, fails)) ↦ (err e, rw (fails, rounds) refl, failure fails)
  ]

  -- What the loop that is written gives, enough rounds give.
  Parses-rounds :
      {f : FlagSet} {r : Result FlagSet} (n : ℕ)
      → Parses parse_int f r
      → length f.args < n
      → rounds parse_int n f ≡ some r
  unfolding rounds parse_one
  Parses-rounds zero p h = absurd (omega arith)
  Parses-rounds {f} (suc n) (more {g = g} goes p) h =
      let rest = Parses-rounds n p (omega (arith, first_of-shorter f g f.args goes)) in
      rw (goes, rounds) rest
  Parses-rounds (suc n) (end ends) h = rw (ends, rounds) refl
  Parses-rounds (suc n) (failure fails) h = rw (fails, rounds) refl

  -- The loop over the arguments always ends: with one round for each argument and one more it has
  -- an outcome, which is that of the loop as it is written, and the only one that this has.
  pub parse_all_terminates :
      (f : FlagSet)
      → (rounds parse_int (suc (length f.args)) f ≡ some (parse_all parse_int f))
        × Parses parse_int f (parse_all parse_int f)
        × ((r : Result FlagSet) → Parses parse_int f r → r ≡ parse_all parse_int f)
  unfolding parse_all
  parse_all_terminates f =
      let (r, runs, parses) = rounds-Parses (suc (length f.args)) f (omega arith) in
      rw (runs, parse_all)
        (
          refl,
          parses,
          λ s other.
              some-inj (sym (Parses-rounds (suc (length f.args)) other (omega arith)) ∙ runs),
        )
