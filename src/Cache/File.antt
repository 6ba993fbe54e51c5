-- ===== src/Cache/File.antt =====
-- internal/cache/cache.go: the store that keeps one JSON file for each profile.
-- Parameters: the file system and `flock` (`FileSystem`), SHA-256 in hexadecimal (`digest`),
-- `filepath.Join`, and the JSON encoding of an entry.
pub mod Laws
pub mod Atomic
pub mod Whole
use oidc_token_cli.Base.{
  ℕ, String, ◌<>◌, Bool, true, false, Option, none, some, if◌then◌else◌, Error, sentinel, wrap,
  join, is_error, not_exist, lock_timeout, Result, ok, err, M, ◌>>=◌, ◌>>◌, map_err, pure, fail,
}
use oidc_token_cli.Cache.{Entry, Store}

-- What the store calls of `os` and of gofrs/flock. A temporary file is known by its name, as the
-- store has but one open. `try_lock` waits, and is `ok false` if it ends without the lock.
pub record FileSystem (W : Type 0) : Type 0 where
  pub make_dir : String → M W (Unit {0})
  pub chmod : String → ℕ → M W (Unit {0})
  pub read_file : String → M W String
  pub create_temp : String → M W String
  pub write : String → String → M W (Unit {0})
  pub close : String → M W (Unit {0})
  pub rename : String → String → M W (Unit {0})
  pub remove : String → M W (Unit {0})
  pub try_lock : String → M W Bool
  pub unlock : String → W → W

-- 0700 and 0600.
abbrev pub dir_mode : ℕ
dir_mode = 448

abbrev pub file_mode : ℕ
file_mode = 384

-- Where a profile is kept: the directory, and what names and encodes are parameters of.
pub record Layout : Type 0 where
  pub dir : String
  pub join_path : String → String → String
  pub digest : String → String
  pub encode : Entry → Result String
  pub decode : String → Option Entry

module _ (l : Layout) where
  -- profileKey
  unfoldable pub profile_key : String → String → String
  profile_key issuer client_id = l.digest (issuer <> "\0" <> client_id)

  unfoldable pub path : String → String → String
  unfolding profile_key
  path issuer client_id = l.join_path l.dir (profile_key issuer client_id <> ".json")

  unfoldable pub lock_path : String → String → String
  unfolding profile_key
  lock_path issuer client_id = l.join_path l.dir (profile_key issuer client_id <> ".lock")

module _ {W : Type 0} (fs : FileSystem W) (l : Layout) where
  unfoldable pub ensure_dir : M W (Unit {0})
  ensure_dir = do
    map_err (wrap "cache: create dir") (fs.make_dir l.dir)
    map_err (wrap "cache: chmod dir") (fs.chmod l.dir dir_mode)

  -- `errors.Is(err, os.ErrNotExist)`
  abbrev pub absent_or : {A : Type 0} → A → String → Error → Result A
  absent_or a text e = if is_error not_exist e then ok a else err (wrap text e)

  abbrev pub loaded : Result String × W → Result (Option Entry) × W
  loaded (ok b, w) = (ok (l.decode b), w)
  loaded (err e, w) = (absent_or none "cache: read" e, w)

  unfoldable pub load : String → String → M W (Option Entry)
  load issuer client_id w = loaded (fs.read_file (path l issuer client_id) w)

  -- The deferred cleanup: the temporary file is removed if the save has failed.
  abbrev pub cleanup : String → Result (Unit {0}) × W → Result (Unit {0}) × W
  cleanup temp (ok o, w) = (ok o, w)
  cleanup temp (err e, w) = (err e, (fs.remove temp w).1)

  -- `tmp.Write`, with `tmp.Close` if it has failed.
  abbrev pub close_failed : String → Result (Unit {0}) × W → Result (Unit {0}) × W
  close_failed temp (ok o, w) = (ok o, w)
  close_failed temp (err e, w) = (err (wrap "cache: write temp file" e), (fs.close temp w).1)

  unfoldable pub write_temp : String → String → M W (Unit {0})
  write_temp temp b w = close_failed temp (fs.write temp b w)

  -- From the open temporary file to the rename.
  unfoldable pub fill_and_rename : String → String → String → M W (Unit {0})
  unfolding write_temp
  fill_and_rename dest b temp = do
    write_temp temp b
    map_err (wrap "cache: close temp file") (fs.close temp)
    map_err (wrap "cache: chmod temp file") (fs.chmod temp file_mode)
    map_err (wrap "cache: rename temp file") (fs.rename temp dest)

  unfoldable pub replace : String → String → M W (Unit {0})
  unfolding fill_and_rename
  replace dest b = do
    temp ← map_err (wrap "cache: create temp file") (fs.create_temp l.dir)
    λ w. cleanup temp (fill_and_rename dest b temp w)

  abbrev pub encoded : Result String → M W String
  encoded (ok b) w = (ok b, w)
  encoded (err e) w = (err (wrap "cache: marshal" e), w)

  unfoldable pub save : Entry → M W (Unit {0})
  unfolding ensure_dir replace path
  save e = do ensure_dir; b ← encoded (l.encode e); replace (path l e.issuer e.client_id) b

  abbrev pub removed : Result (Unit {0}) × W → Result (Unit {0}) × W
  removed (ok o, w) = (ok o, w)
  removed (err e, w) = (absent_or tt "cache: delete" e, w)

  unfoldable pub delete : String → String → M W (Unit {0})
  delete issuer client_id w = removed (fs.remove (path l issuer client_id) w)

  -- `defer func() { _ = fl.Unlock() }()`
  abbrev pub unlocking : {A : Type 0} → String → A × W → A × W
  unlocking p (a, w) = (a, fs.unlock p w)

  abbrev pub holding : {A : Type 0} → String → M W A → Bool → M W A
  holding p f true w = unlocking p (f w)
  holding p f false w = (err (sentinel lock_timeout), w)

  unfoldable pub with_lock : {A : Type 0} → String → String → M W A → M W A
  unfolding ensure_dir lock_path
  with_lock issuer client_id f = do
    ensure_dir
    locked ← map_err (join (sentinel lock_timeout)) (fs.try_lock (lock_path l issuer client_id))
    holding (lock_path l issuer client_id) f locked

  unfoldable pub file_store : {A : Type 0} → Store W A
  unfolding load save delete with_lock
  file_store = record { load = load; save = save; delete = delete; with_lock = with_lock }
