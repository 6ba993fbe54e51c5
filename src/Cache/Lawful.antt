-- ===== src/Cache/Lawful.antt =====
-- What the documentation of `Store` promises, as laws over an abstract view of the entries.
use oidc_token_cli.Base.{String, ◌≡◌, Option, none, some, ok, M}
use oidc_token_cli.Cache.{Entry, Store}

-- What a backend holds for a profile, (issuer, client ID).
abbrev pub View : Type 0 → Type 0
View W = W → String → String → Option Entry

pub record IsLawful {W A : Type 0} (view : View W) (s : Store W A) : Type 0 where
  -- A load that does not fail gives what is stored, and leaves it there.
  pub load-ok :
      (i c : String) (w v : W) (o : Option Entry)
      → s.load i c w ≡ (ok o, v)
      → (view w i c ≡ o) × (view v i c ≡ o)
  pub save-ok :
      (e : Entry) (w v : W) → s.save e w ≡ (ok tt, v) → view v e.issuer e.client_id ≡ some e
  pub delete-ok : (i c : String) (w v : W) → s.delete i c w ≡ (ok tt, v) → view v i c ≡ none
  -- If the lock is had, the function has run, in the world that the wait led to, and giving the
  -- lock back changes no entry.
  pub with_lock-ok :
      (i c : String) (f : M W A) (w v : W) (a : A)
      → s.with_lock i c f w ≡ (ok a, v)
      → (w' : W) × (v' : W) × (f w' ≡ (ok a, v')) × (view v i c ≡ view v' i c)
