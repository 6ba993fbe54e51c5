-- ===== src/Base/Effects.antt =====
-- Fallible results `(T, error)`, and code that also acts on a world: files, keychain, network,
-- clock, standard error. An early `return …, err` is the bind of `M`.
use mathlib.Core.Path.{◌≡◌, refl}
use native.Mathlib.Omega.{arith}
use mathlib.Core.Logic.{◌⊎◌, inl, inr}
use oidc_token_cli.Base.Errors.{Error}

pub data Result {ℓ} (A : Type ℓ) : Type ℓ where
  ok : A → Result A
  err : Error → Result A

abbrev pub M : Type 0 → Type 0 → Type 0
M W A = W → Result A × W

abbrev pub continue : {W A B : Type 0} → Result A × W → (A → M W B) → Result B × W
continue (ok a, v) f = f a v
continue (err e, v) f = (err e, v)

infixl 5 ◌>>=◌ ◌>>◌
abbrev pub ◌>>=◌ : {W A B : Type 0} → M W A → (A → M W B) → M W B
◌>>=◌ m f w = continue (m w) f

abbrev pub ◌>>◌ : {W B : Type 0} → M W (Unit {0}) → M W B → M W B
m >> k = m >>= λ _. k

abbrev pub pure : {W A : Type 0} → A → M W A
pure a w = (ok a, w)

abbrev pub fail : {W A : Type 0} → Error → M W A
fail e w = (err e, w)

abbrev pub on_err : {W A : Type 0} → (Error → Error) → Result A × W → Result A × W
on_err f (ok a, v) = (ok a, v)
on_err f (err e, v) = (err (f e), v)

-- `if err != nil { return …, f(err) }`
abbrev pub map_err : {W A : Type 0} → (Error → Error) → M W A → M W A
map_err f m w = on_err f (m w)

pub Result-cases {ℓ} :
    {A : Type ℓ} (outcome : Result A)
    → ((value : A) × (outcome ≡ ok value)) ⊎ ((failure : Error) × (outcome ≡ err failure))
Result-cases (ok a) = inl (a, refl)
Result-cases (err e) = inr (e, refl)

-- Inversion of a bind, and of a renamed failure, that ended well.
module _ {W A : Type 0} where
  continue-ok :
      {B : Type 0} (x : Result A × W) (f : A → M W B) {b : B} {v : W}
      → continue x f ≡ (ok b, v)
      → (a : A) × (u : W) × (x ≡ (ok a, u)) × (f a u ≡ (ok b, v))
  continue-ok (ok a, u) f h = (a, u, refl, h)
  continue-ok (err e, u) f h = cc

  pub >>=-ok :
      {B : Type 0} (m : M W A) (f : A → M W B) (w : W) {b : B} {v : W}
      → (m >>= f) w ≡ (ok b, v)
      → (a : A) × (u : W) × (m w ≡ (ok a, u)) × (f a u ≡ (ok b, v))
  >>=-ok m f w h = continue-ok (m w) f h

  on_err-ok :
      (f : Error → Error) (x : Result A × W) {a : A} {v : W}
      → on_err f x ≡ (ok a, v)
      → x ≡ (ok a, v)
  on_err-ok f (ok a, u) h = h
  on_err-ok f (err e, u) h = cc

  pub map_err-ok :
      (f : Error → Error) (m : M W A) (w : W) {a : A} {v : W}
      → map_err f m w ≡ (ok a, v)
      → m w ≡ (ok a, v)
  map_err-ok f m w h = on_err-ok f (m w) h

  pub >>=-map_err-ok :
      {B : Type 0} (f : Error → Error) (m : M W A) (k : A → M W B) (w : W) {b : B} {v : W}
      → (map_err f m >>= k) w ≡ (ok b, v)
      → (a : A) × (u : W) × (m w ≡ (ok a, u)) × (k a u ≡ (ok b, v))
  >>=-map_err-ok f m k w h =
      let (a, u, first, rest) = >>=-ok (map_err f m) k w h in (a, u, map_err-ok f m w first, rest)

  -- A bind fails where its first part does, or where the rest does.
  continue-err :
      {B : Type 0} (x : Result A × W) (f : A → M W B) {e : Error} {v : W}
      → continue x f ≡ (err e, v)
      → (x ≡ (err e, v)) ⊎ ((a : A) × (u : W) × (x ≡ (ok a, u)) × (f a u ≡ (err e, v)))
  continue-err (ok a, u) f h = inr (a, u, refl, h)
  continue-err (err e', u) f h = inl (ground arith)

  pub >>=-err :
      {B : Type 0} (m : M W A) (f : A → M W B) (w : W) {e : Error} {v : W}
      → (m >>= f) w ≡ (err e, v)
      → (m w ≡ (err e, v)) ⊎ ((a : A) × (u : W) × (m w ≡ (ok a, u)) × (f a u ≡ (err e, v)))
  >>=-err m f w h = continue-err (m w) f h

  on_err-err :
      (f : Error → Error) (x : Result A × W) {e : Error} {v : W}
      → on_err f x ≡ (err e, v)
      → (e' : Error) × (x ≡ (err e', v)) × (f e' ≡ e)
  on_err-err f (ok a, u) h = cc
  on_err-err f (err e', u) h = (e', ground arith, ground arith)

  pub map_err-err :
      (f : Error → Error) (m : M W A) (w : W) {e : Error} {v : W}
      → map_err f m w ≡ (err e, v)
      → (e' : Error) × (m w ≡ (err e', v)) × (f e' ≡ e)
  map_err-err f m w h = on_err-err f (m w) h

-- What holds of a chain of steps, case by case: of a step whose failure is renamed and of what
-- follows it, and of a step alone.
module _ {ℓ} {W A : Type 0} where
  pub result_rule :
      (Q : Result A × W → Type ℓ) (x : Result A × W)
      → ((a : A) (v : W) → x ≡ (ok a, v) → Q (ok a, v))
      → ((e : Error) (v : W) → x ≡ (err e, v) → Q (err e, v))
      → Q x
  result_rule Q (ok a, v) good bad = good a v refl
  result_rule Q (err e, v) good bad = bad e v refl

  pub on_err_rule :
      (Q : Result A × W → Type ℓ) (f : Error → Error) (x : Result A × W)
      → ((a : A) (v : W) → x ≡ (ok a, v) → Q (ok a, v))
      → ((e : Error) (v : W) → x ≡ (err e, v) → Q (err (f e), v))
      → Q (on_err f x)
  on_err_rule Q f (ok a, v) good bad = good a v refl
  on_err_rule Q f (err e, v) good bad = bad e v refl

  pub step_rule :
      {B : Type 0} (Q : Result B × W → Type ℓ) (x : Result A × W) (k : A → M W B)
      → ((a : A) (v : W) → x ≡ (ok a, v) → Q (k a v))
      → ((e : Error) (v : W) → x ≡ (err e, v) → Q (err e, v))
      → Q (continue x k)
  step_rule Q (ok a, v) k good bad = good a v refl
  step_rule Q (err e, v) k good bad = bad e v refl

  pub renamed_step_rule :
      {B : Type 0} (Q : Result B × W → Type ℓ) (f : Error → Error) (x : Result A × W)
      (k : A → M W B)
      → ((a : A) (v : W) → x ≡ (ok a, v) → Q (k a v))
      → ((e : Error) (v : W) → x ≡ (err e, v) → Q (err (f e), v))
      → Q (continue (on_err f x) k)
  renamed_step_rule Q f (ok a, v) k good bad = good a v refl
  renamed_step_rule Q f (err e, v) k good bad = bad e v refl
