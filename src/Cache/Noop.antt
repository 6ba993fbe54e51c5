-- ===== src/Cache/Noop.antt =====
-- internal/cache/noop.go: a store that keeps nothing.
use oidc_token_cli.Base.{none, ok}
use oidc_token_cli.Cache.{Store}

unfoldable pub noop_store : {W A : Type 0} → Store W A
noop_store = record {
  load = λ i c w. (ok none, w);
  save = λ e w. (ok tt, w);
  delete = λ i c w. (ok tt, w);
  with_lock = λ i c f. f;
}
