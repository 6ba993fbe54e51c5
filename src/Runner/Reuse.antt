-- ===== src/Runner/Reuse.antt =====
-- Tokens that one run or one holder of the lock has stored serve the next one, whatever its source
-- would have answered.
use oidc_token_cli.Base.{ℕ, String, ◌≡◌, refl, sym, ap, ◌∙◌, true, Option, some, ok, arith}
use oidc_token_cli.Output.{TokenResult}
use oidc_token_cli.Cache.{Entry}
use oidc_token_cli.Cache.Lawful.{View, IsLawful}
use oidc_token_cli.Runner.Laws.{Agrees, Holds, critical_section-ok, after_reload-Holds, run-Holds}
use oidc_token_cli.Runner.{
  Runner, TokenSource, entry_valid, entry_result, result_entry, after_reload, critical_section,
  after_load, run,
}

-- The tokens of a result as a later run gives them back.
abbrev pub reused : String → String → TokenResult → TokenResult
reused i c res = entry_result (result_entry i c res)

-- Another runner over the same cache, clock and configuration.
abbrev pub with_source : {W K : Type 0} → Runner W K → TokenSource W → Runner W K
with_source r other = record r { source = other }

entry_result-Agrees :
    (i c : String) (e : Entry) (res : TokenResult) → Agrees e res → entry_result e ≡ reused i c res
unfolding entry_result result_entry
entry_result-Agrees i c e res h = ground arith

entry_valid-Agrees :
    (i c : String) (now : ℕ) (e : Entry) (res : TokenResult)
    → Agrees e res
    → entry_valid now e ≡ entry_valid now (result_entry i c res)
unfolding entry_valid result_entry
entry_valid-Agrees i c now e res (a, b, d, f) = rw (a, b, d, f) refl

module _ {W K : Type 0} (r : Runner W K) (view : View W) (lawful : IsLawful view r.cache) where
  -- What is held and valid is what a load that does not fail finds.
  found :
      (i c : String) (res : TokenResult) (o : Option Entry) (v u : W)
      → Holds view v i c res
      → r.cache.load i c v ≡ (ok o, u)
      → (e : Entry) × (r.cache.load i c v ≡ (ok (some e), u)) × Agrees e res
  found i c res o v u (e, held, agrees) loaded =
      let same : o ≡ some e = sym (lawful.load-ok i c v u o loaded).0 ∙ held in
      (e, loaded ∙ ap (λ x. (ok x, u)) same, agrees)

  -- Over a store that keeps its contract: after one holder of the lock has ended with tokens that
  -- are still valid, the next holder that can read the cache returns the same tokens, and changes
  -- nothing after it has read them. Its own source, whatever it is, is not asked.
  pub critical_section_once :
      (other : TokenSource W) (i c : String) (stale stale' : Entry) (w v u : W) (res : TokenResult)
      (o : Option Entry)
      → critical_section r i c stale w ≡ (ok (ok res), v)
      → r.cache.load i c v ≡ (ok o, u)
      → entry_valid (r.now u) (result_entry i c res) ≡ true
      → critical_section (with_source r other) i c stale' v ≡ (ok (ok (reused i c res)), u)
  unfolding critical_section after_reload
  critical_section_once other i c stale stale' w v u res o h loaded valid =
      let done = critical_section-ok r view lawful i c stale w v (ok res) h in
      let held = after_reload-Holds r view lawful i c stale w v res done in
      let (e, loaded', agrees) = found i c res o v u held loaded in
      rw (loaded', entry_valid-Agrees i c (r.now u) e res agrees, valid)
        (ap (λ x. (ok (ok x), u)) (entry_result-Agrees i c e res agrees))

  -- Over a store that keeps its contract: a run that follows a successful one, can read the cache
  -- and finds the tokens still valid returns the same tokens, and changes nothing after it has read
  -- them. Its own source, whatever it is, is not asked.
  pub run_twice :
      (other : TokenSource W) (w v u : W) (res : TokenResult) (o : Option Entry)
      → run r w ≡ (ok res, v)
      → r.cache.load r.config.issuer r.config.client_id v ≡ (ok o, u)
      → entry_valid (r.now u) (result_entry r.config.issuer r.config.client_id res) ≡ true
      → run (with_source r other) v ≡ (ok (reused r.config.issuer r.config.client_id res), u)
  unfolding run after_load
  run_twice other w v u res o h loaded valid =
      let i = r.config.issuer in
      let c = r.config.client_id in
      let (e, loaded', agrees) = found i c res o v u (run-Holds r view lawful w v res h) loaded in
      rw (loaded', entry_valid-Agrees i c (r.now u) e res agrees, valid)
        (ap (λ x. (ok x, u)) (entry_result-Agrees i c e res agrees))
