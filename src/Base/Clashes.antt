-- ===== src/Base/Clashes.antt =====
-- Constructors are injective, and different ones differ.
use mathlib.Core.Path.{◌≡◌}
use mathlib.Core.Bool.{true, false}
use mathlib.Core.Option.{none, some}
use oidc_token_cli.Base.Errors.{Error}
use oidc_token_cli.Base.Effects.{Result, ok, err}

pub some-inj : {A : Type 0} {a b : A} → some a ≡ some b → a ≡ b
some-inj h = cc

pub none-ne-some : {A : Type 0} {a : A} → ¬ (none ≡ some a)
none-ne-some h = cc

pub ok-inj : {A : Type 0} {a b : A} → ok a ≡ ok b → a ≡ b
ok-inj h = cc

pub err-ne-ok : {A : Type 0} {e : Error} {a : A} → ¬ (◌≡◌ {A = Result A} (err e) (ok a))
err-ne-ok h = cc

pub true-ne-false : ¬ (true ≡ false)
true-ne-false h = cc
