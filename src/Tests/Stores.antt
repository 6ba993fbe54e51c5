-- ===== src/Tests/Stores.antt =====
-- A directory in memory, which serves as a keychain as well, and the stores over it.
use oidc_token_cli.Base.{
  String, ◌<>◌, ◌≡◌, ◌≢◌, refl, sym, ap, ◌∙◌, eq_refl, eq_iff, nat_eq, ◌==◌, ◌&&◌, Bool, true,
  false, Option, none, some, if◌then◌else◌, Error, message, sentinel, not_exist, key_not_found,
  Result, ok, err, arith, inl, inr, Bool-cases,
}
use oidc_token_cli.Output.{TokenResult}
use oidc_token_cli.Cache.{Entry}
use oidc_token_cli.Cache.Lawful.{IsLawful}
use oidc_token_cli.Cache.File.{
  FileSystem, Layout, path, profile_key, ensure_dir, write_temp, fill_and_rename, replace, save,
  load, file_store,
}
use oidc_token_cli.Cache.File.Atomic.{IsFileSystem}
use oidc_token_cli.Cache.File.Whole.{IsWhole, TempsApart, save-IsWhole}
use oidc_token_cli.Cache.File.Laws.{RoundTrips, file_view, file_store-IsLawful}
use oidc_token_cli.Cache.Keychain.{Keyring, keychain_store}
use oidc_token_cli.Cache.Keychain.Laws.{IsKeyring, keychain_view, keychain_store-IsLawful}
use oidc_token_cli.Tests.World.{stale_entry}

abbrev pub Disk : Type 0
Disk = String → Option String

abbrev pub put : String → Option String → Disk → Disk
put p o w q = if p == q then o else w q

abbrev read : Option String → Error → Disk → Result String × Disk
read none e w = (err e, w)
read (some s) e w = (ok s, w)

abbrev make_temp : Option String → Disk → Result String × Disk
make_temp none w = (ok "tmp", put "tmp" (some "") w)
make_temp (some s) w = (err (message "exists"), w)

abbrev pub disk : FileSystem Disk
disk = record {
  make_dir = λ p w. (ok tt, w);
  chmod = λ p mode w. (ok tt, w);
  read_file = λ p w. read (w p) (sentinel not_exist) w;
  create_temp = λ d w. make_temp (w "tmp") w;
  write = λ n b w. (ok tt, put n (some b) w);
  close = λ p w. (ok tt, w);
  rename = λ a b w. (ok tt, put b (w a) (put a none w));
  remove = λ p w. (ok tt, put p none w);
  try_lock = λ p w. (ok true, w);
  unlock = λ p w. w;
}

put-same : (p : String) (o : Option String) (w : Disk) → put p o w p ≡ o
put-same p o w = ground (arith, eq_refl p)

put-other : (p q : String) (o : Option String) (w : Disk) → q ≢ p → put p o w q ≡ w q
put-other p q o w other = ground (arith, eq_iff p q)

read-keeps : (o : Option String) (e : Error) (w : Disk) → (read o e w).1 ≡ w
read-keeps none e w = refl
read-keeps (some s) e w = refl

read-ok :
    (o : Option String) (e : Error) (s : String) (w v : Disk) → read o e w ≡ (ok s, v) → o ≡ some s
read-ok none e s w v h = cc
read-ok (some x) e s w v h = ground arith

read-err : (o : Option String) (e e' : Error) (w v : Disk) → read o e w ≡ (err e', v) → o ≡ none
read-err none e e' w v h = refl
read-err (some x) e e' w v h = cc

make_temp-ok :
    (o : Option String) (n : String) (w v : Disk)
    → make_temp o w ≡ (ok n, v)
    → (o ≡ none) × (n ≡ "tmp") × (v ≡ put "tmp" (some "") w)
make_temp-ok none n w v h = (refl, ground arith, sym (ap (λ p. p.1) h))
make_temp-ok (some s) n w v h = cc

make_temp-err : (o : Option String) (e : Error) (w v : Disk) → make_temp o w ≡ (err e, v) → v ≡ w
make_temp-err none e w v h = cc
make_temp-err (some s) e w v h = sym (ap (λ p. p.1) h)

pub disk-IsFileSystem : IsFileSystem (λ w. w) disk
disk-IsFileSystem = record {
  make_dir-keeps = λ p q w. refl;
  chmod-keeps = λ p mode q w. refl;
  close-keeps = λ p q w. refl;
  unlock-keeps = λ p q w. refl;
  read-keeps = λ p q w. ap (λ v. v q) (read-keeps (w p) (sentinel not_exist) w);
  read-ok = λ p s w v h. read-ok (w p) (sentinel not_exist) s w v h;
  read-absent = λ p e w v h absent. read-err (w p) (sentinel not_exist) e w v h;
  create_temp-ok = λ d n w v h.
      let (absent, name, made) = make_temp-ok (w "tmp") n w v h in
      (
        ap w name ∙ absent,
        ap (λ x. x n) made ∙ ap (put "tmp" (some "") w) name ∙ put-same "tmp" (some "") w,
        λ q other.
            ap (λ x. x q) made ∙ put-other "tmp" q (some "") w (λ same. other (same ∙ sym name)),
      );
  create_temp-err = λ d q e w v h. ap (λ x. x q) (make_temp-err (w "tmp") e w v h);
  write-ok = λ n b w v h fresh. ap (λ x. x.1 n) (sym h) ∙ put-same n (some b) w;
  write-others = λ n b q w other. put-other n q (some b) w other;
  rename-ok = λ a b w v h. (
    ap (λ x. x.1 b) (sym h) ∙ put-same b (w a) (put a none w),
    λ q p p'.
        ap (λ x. x.1 q) (sym h) ∙ put-other b q (w a) (put a none w) p' ∙ put-other a q none w p,
  );
  rename-err = λ a b q e w v h. absurd (cc h);
  remove-ok = λ p w v h. ap (λ x. x.1 p) (sym h) ∙ put-same p none w;
  remove-absent = λ p e w v h absent. absurd (cc h);
  remove-others = λ p q w other. put-other p q none w other;
}

-- One entry has an encoding.
abbrev is_stale : Entry → Bool
is_stale e =
    e.issuer == "https://issuer"
    && (e.client_id == "cli"
        && (e.access_token == "old"
            && (e.id_token == "old-id"
                && (e.refresh_token == "r1" && nat_eq e.expiry 940000000000))))

abbrev pub layout : Layout
layout = record {
  dir = "/cache";
  join_path = λ d n. d <> "/" <> n;
  digest = λ s. "0f";
  encode = λ e. if is_stale e then ok "stale" else err (message "unknown");
  decode = λ b. if b == "stale" then some stale_entry else none;
}

file-ne-tmp : ◌≢◌ {A = String} "/cache/0f.json" "tmp"
file-ne-tmp = ground (arith, eq_iff "/cache/0f.json" "tmp")

pub temps_apart : TempsApart disk layout (λ w. w) disk-IsFileSystem
unfolding path profile_key
temps_apart issuer client_id n w v h same =
    let (_, name, _) = make_temp-ok (w "tmp") n w v h in file-ne-tmp (same ∙ name)

is_stale-eq : (e : Entry) → is_stale e ≡ true → e ≡ stale_entry
is_stale-eq e h =
    let issuer : e.issuer ≡ "https://issuer" = ground (arith, eq_iff e.issuer "https://issuer") in
    let client_id : e.client_id ≡ "cli" = ground (arith, eq_iff e.client_id "cli") in
    let access_token : e.access_token ≡ "old" = ground (arith, eq_iff e.access_token "old") in
    let id_token : e.id_token ≡ "old-id" = ground (arith, eq_iff e.id_token "old-id") in
    let refresh_token : e.refresh_token ≡ "r1" = ground (arith, eq_iff e.refresh_token "r1") in
    let expiry : e.expiry ≡ 940000000000 = ground arith in
    cc (issuer, client_id, access_token, id_token, refresh_token, expiry)

pub trips : RoundTrips layout
trips e b h = elim (Bool-cases (is_stale e)) [
  | inl known ↦
      let same : ◌≡◌ {A = String} "stale" b = cc (rw known at h) in
      ap layout.decode (sym same) ∙ ap some (sym (is_stale-eq e known))
  | inr other ↦ absurd (cc (rw other at h))
]

abbrev pub content : Disk → Disk
content w = w

abbrev empty : Disk
empty q = none

abbrev pub filled : Disk
filled =
    put "/cache/0f.json" (some "stale")
      (put "tmp" none (put "tmp" (some "stale") (put "tmp" (some "") empty)))

saved : save disk layout stale_entry empty ≡ (ok tt, filled)
unfolding save path profile_key ensure_dir replace fill_and_rename write_temp
saved = refl

found : load disk layout "https://issuer" "cli" filled ≡ (ok (some stale_entry), filled)
unfolding load path profile_key
found = refl

save-IsWhole_example :
    IsWhole disk layout content disk-IsFileSystem stale_entry empty
      (save disk layout stale_entry empty)
save-IsWhole_example =
    save-IsWhole disk layout content disk-IsFileSystem temps_apart stale_entry empty

file_store-IsLawful_example :
    IsLawful (file_view layout content) (file_store disk layout {A = Result TokenResult})
file_store-IsLawful_example =
    file_store-IsLawful disk layout content disk-IsFileSystem temps_apart trips
      {A = Result TokenResult}

abbrev pub item : Disk → String → String → Option String
item w service user = w service

abbrev pub keyring : Keyring Disk
keyring = record {
  get = λ service user w. read (w service) (sentinel key_not_found) w;
  set = λ service user secret w. (ok tt, put service (some secret) w);
  delete = λ service user w. (ok tt, put service none w);
}

pub keyring-IsKeyring : IsKeyring item keyring
keyring-IsKeyring = record {
  get-keeps = λ s u w. ap (λ v. v s) (read-keeps (w s) (sentinel key_not_found) w);
  get-ok = λ s u x w v h. read-ok (w s) (sentinel key_not_found) x w v h;
  get-missing = λ s u e w v h missing. read-err (w s) (sentinel key_not_found) e w v h;
  set-ok = λ s u x w v h. ap (λ r. r.1 s) (sym h) ∙ put-same s (some x) w;
  delete-ok = λ s u w v h. ap (λ r. r.1 s) (sym h) ∙ put-same s none w;
  delete-missing = λ s u e w v h missing. absurd (cc h);
}

-- The time of the context never ends.
abbrev pub in_time : Disk → Bool
in_time w = false

keychain_store-IsLawful_example :
    IsLawful
      (keychain_view layout item)
      (keychain_store keyring in_time layout {A = Result TokenResult})
keychain_store-IsLawful_example =
    keychain_store-IsLawful keyring in_time layout item keyring-IsKeyring trips
      {A = Result TokenResult}
