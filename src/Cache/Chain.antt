-- ===== src/Cache/Chain.antt =====
-- internal/cache/chain.go: a store that tries its backends in order.
pub mod Laws
pub mod Contract
use oidc_token_cli.Base.{
  String, Bool, true, false, not, ◌&&◌, Option, none, some, List, [], ◌∷◌, if◌then◌else◌, is_nil,
  Error, backend_unavailable, is_error, Result, ok, err, M,
}
use oidc_token_cli.Cache.{Entry, Store}

-- A backend, and whether its dynamic type is *Cache, which `b.(*Cache)` asks.
pub record Backend (W A : Type 0) : Type 0 where
  pub is_file : Bool
  pub store : Store W A

-- `logOnce`, kept in the world, and `Logger`, which may be nil.
pub record Notice (W : Type 0) : Type 0 where
  pub told : W → Bool
  pub tell : W → W
  pub logger : Option (Error → W → W)

-- ChainStore
pub record ChainStore (W A : Type 0) : Type 0 where
  pub backends : List (Backend W A)
  pub notice : Notice W

module _ {W : Type 0} where
  abbrev pub call_logger : Option (Error → W → W) → Error → W → W
  call_logger none e w = w
  call_logger (some log) e w = log e w

  unfoldable pub log_fallback : Notice W → Error → W → W
  log_fallback n e w = if n.told w then w else call_logger n.logger e (n.tell w)

-- `errors.Is(err, ErrBackendUnavailable) && i < len(c.Backends)-1`, with the backends after `i`.
abbrev pub skips {ℓ} : {A : Type ℓ} → Error → List A → Bool
skips e later = is_error backend_unavailable e && not (is_nil later)

module _ {W A : Type 0} (n : Notice W) where
  -- The loops of Load and Save. `last` is what the code returns after the loop.
  unfoldable pub load_from :
      String → String → Result (Option Entry) → List (Backend W A) → M W (Option Entry)
  load_from i c last [] w = (last, w)
  load_from i c last (b ∷ later) w =
      let (answer, v) = b.store.load i c w in
      elim answer [
        | ok o ↦ (ok o, v)
        | err e ↦
            let rest = load_from i c (err e) later (log_fallback n e v) in
            if skips e later then rest else (err e, v)
      ]

  unfoldable pub save_to : Entry → Result (Unit {0}) → List (Backend W A) → M W (Unit {0})
  save_to entry last [] w = (last, w)
  save_to entry last (b ∷ later) w =
      let (answer, v) = b.store.save entry w in
      elim answer [
        | ok o ↦ (ok o, v)
        | err e ↦
            let rest = save_to entry (err e) later (log_fallback n e v) in
            if skips e later then rest else (err e, v)
      ]

-- `firstErr` after one more backend.
abbrev pub keep_first : Result (Unit {0}) → Result (Unit {0}) → Result (Unit {0})
keep_first (err first) answer = err first
keep_first (ok o) (ok o') = ok o
keep_first (ok o) (err e) = if is_error backend_unavailable e then ok o else err e

module _ {W A : Type 0} where
  -- The loop of Delete: every backend is attempted.
  unfoldable pub delete_from :
      String → String → Result (Unit {0}) → List (Backend W A) → M W (Unit {0})
  delete_from i c first [] w = (first, w)
  delete_from i c first (b ∷ later) w =
      let (answer, v) = b.store.delete i c w in delete_from i c (keep_first first answer) later v

  -- The first file backend.
  unfoldable pub first_file : List (Backend W A) → Option (Backend W A)
  first_file [] = none
  first_file (b ∷ later) = let rest = first_file later in if b.is_file then some b else rest

  -- `c.Backends[0]`, or no lock at all where there is no backend.
  abbrev pub head_lock : List (Backend W A) → String → String → M W A → M W A
  head_lock [] i c f = f
  head_lock (b ∷ later) i c f = b.store.with_lock i c f

  abbrev pub lock_through :
      Option (Backend W A) → List (Backend W A) → String → String → M W A → M W A
  lock_through (some b) backends = b.store.with_lock
  lock_through none backends = head_lock backends

  unfoldable pub chain : ChainStore W A → Store W A
  unfolding load_from save_to delete_from first_file
  chain s = record {
    load = λ i c. load_from s.notice i c (ok none) s.backends;
    save = λ e. save_to s.notice e (ok tt) s.backends;
    delete = λ i c. delete_from i c (ok tt) s.backends;
    with_lock = lock_through (first_file s.backends) s.backends;
  }
