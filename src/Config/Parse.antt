-- ===== src/Config/Parse.antt =====
-- The second half of Parse in internal/config/config.go: the special cases, the grants, the
-- validation and the private key.
pub mod Laws
pub mod Kept
use oidc_token_cli.Base.{
  String, Bool, true, false, not, ◌&&◌, ◌||◌, Option, none, some, List, [], ◌∷◌, ◌==◌, is_empty,
  nat_eq, is_nil, if◌then◌else◌, trim_newlines, Error, message, wrap, Result, ok, err,
}
use oidc_token_cli.Base.Json.{ℤ, pos, negsuc}
use oidc_token_cli.Config.{Config}
use oidc_token_cli.Config.Resolve.{
  Flags, Host, KeyParsers, read_config, resolved, callback_port, resolved_grant,
}
use oidc_token_cli.Config.Fields.{parse_flags}
use oidc_token_cli.Config.Validate.{validate}
use oidc_token_cli.Grant.{ConfigBridge}
use oidc_token_cli.Grant.TokenExchange.{TokenExchange}
use oidc_token_cli.Grant.TokenExchange
use oidc_token_cli.Subjecttoken.{TokenOrigin}

infixl 5 ◌>>=◌
abbrev pub ◌>>=◌ : {A B : Type 0} → Result A → (A → Result B) → Result B
ok value >>= next = next value
err failure >>= next = err failure

abbrev keep_text : String → String → String
keep_text new old = if is_empty new then old else new

abbrev keep_list : List String → List String → List String
keep_list [] old = old
keep_list (x ∷ xs) old = x ∷ xs

abbrev keep_int : ℤ → ℤ → ℤ
keep_int (negsuc n) old = negsuc n
keep_int (pos n) old = if nat_eq n 0 then old else pos n

-- Step 9 of Parse, for one grant.
unfoldable pub copy_bridge : {K : Type 0} → Config K → ConfigBridge → Config K
copy_bridge c b = record c {
  subject_token = keep_text b.subject_token c.subject_token;
  subject_token_type = keep_text b.subject_token_type c.subject_token_type;
  requested_token_type = keep_text b.requested_token_type c.requested_token_type;
  resources = keep_list b.resources c.resources;
  subject_token_source = keep_text b.subject_token_source c.subject_token_source;
  redirect_port = keep_int b.redirect_port c.redirect_port;
}

-- Bridge of the authcode grant and of the device-code grant.
abbrev pub authcode_bridge : ℤ → ConfigBridge
authcode_bridge port = record {
  subject_token = "";
  subject_token_type = "";
  requested_token_type = "";
  resources = [];
  subject_token_source = "";
  redirect_port = port;
}

abbrev pub device_code_bridge : ConfigBridge
device_code_bridge = authcode_bridge (pos 0)

-- The names of the three registered grants, in their order.
abbrev pub grant_names : List String
grant_names = "authcode" ∷ "device-code" ∷ "token-exchange" ∷ []

module _ (getenv : String → String) (home : Result String) (join : String → String → String) where
  -- DefaultDir of internal/cache/cache.go
  unfoldable pub default_dir : Result String
  default_dir =
      let xdg = getenv "XDG_CACHE_HOME" in
      if not (is_empty xdg) then ok (join xdg "oidc-token") else elim home [
        | err e ↦ err (wrap "cache: resolve home directory" e)
        | ok dir ↦ ok (join (join dir ".cache") "oidc-token")
      ]

module _ {K : Type 0} (parsers : KeyParsers K) where
  abbrev unsupported : Result K
  unsupported =
      err (message "config: --private-key-file is not a supported PEM-encoded private key")

  abbrev parse_key : String → Result K
  parse_key block = elim (parsers.pkcs8 block) [
    | some (some key) ↦ ok key
    | some none ↦ err (message "config: --private-key-file does not contain a signing key")
    | none ↦ elim (parsers.pkcs1 block) [
      | some key ↦ ok key
      | none ↦ elim (parsers.ec block) [ some key ↦ ok key | none ↦ unsupported ]
    ]
  ]

  abbrev decode_key : Result String → Result K
  decode_key (err e) = err (wrap "config: read --private-key-file" e)
  decode_key (ok content) = elim (parsers.pem_decode content) [
    | none ↦ err (message "config: --private-key-file contains no PEM block")
    | some block ↦ parse_key block
  ]

  unfoldable pub resolve_private_key : (String → Result String) → Config K → Result (Config K)
  resolve_private_key read_file c =
      if not (c.client_auth_method == "private_key_jwt")
      then ok c
      else (decode_key (read_file c.private_key_path) >>= λ key.
          ok (record c { private_key = some key }))

module _ {W K : Type 0} where
  -- Step 8: the other two grants accept everything.
  unfoldable pub validate_grant : Config K → TokenExchange W → Result (Unit {0})
  unfolding TokenExchange.validate TokenExchange.validate_not_selected
  validate_grant c te =
      if c.grant_type == "token-exchange"
      then TokenExchange.validate te
      else TokenExchange.validate_not_selected te

  -- Step 9, for the three grants.
  unfoldable pub copy_bridges : ℤ → TokenExchange W → Config K → Config K
  unfolding copy_bridge TokenExchange.bridge
  copy_bridges port te c =
      copy_bridge (copy_bridge (copy_bridge c (authcode_bridge port)) device_code_bridge)
        (TokenExchange.bridge te)

module _ {K : Type 0} (host : Host K) where
  open host use {read_file, home, join, getenv}

  -- `--client-secret-file`
  unfoldable pub secret_from_file : Flags → Config K → Result (Config K)
  secret_from_file flags c =
      if not (flags.explicit "client-secret-file")
      then ok c
      else elim (read_file (flags.string_flag "client-secret-file")) [
        | err e ↦ err (wrap "config: read --client-secret-file" e)
        | ok secret ↦ ok (record c { client_secret = trim_newlines secret })
      ]

  -- The default of the token store directory.
  unfoldable pub with_store_dir : Config K → Result (Config K)
  unfolding default_dir
  with_store_dir c =
      if is_empty c.token_store_dir && not (c.token_store == "none")
      then elim (default_dir getenv home join) [
        | err e ↦ err (wrap "config" e)
        | ok dir ↦ ok (record c { token_store_dir = dir })
      ]
      else ok c

  -- Steps 6 to 9, and the private key.
  unfoldable pub finish :
      {W : Type 0} → Flags → ℤ → TokenExchange W → Config K → Result (Config K × TokenExchange W)
  unfolding validate validate_grant copy_bridges resolve_private_key TokenExchange.finalize
  finish flags port grant c = do
    te ← TokenExchange.finalize read_file flags.explicit grant
    _ ← validate c grant_names
    _ ← validate_grant c te
    final ← resolve_private_key host.parsers read_file (copy_bridges port te c)
    ok (final, te)

  -- Parse, after the flags.
  unfoldable pub parse_with :
      {W : Type 0} → List (TokenOrigin W) → Flags → Result (Config K × TokenExchange W)
  unfolding read_config resolved callback_port resolved_grant secret_from_file with_store_dir finish
  parse_with sources flags = do
    fc ← read_config host flags
    with_secret ← secret_from_file flags (resolved host flags fc)
    c ← with_store_dir with_secret
    finish flags (callback_port host flags fc) (resolved_grant host flags fc sources) c

  -- Parse; `parse_int` is `strconv.ParseInt(s, 0, 64)`.
  unfoldable pub parse :
      {W : Type 0}
      → (String → Option ℤ)
      → List (TokenOrigin W)
      → List String
      → Result (Config K × TokenExchange W)
  unfolding parse_with parse_flags
  parse parse_int sources args = parse_flags parse_int args >>= parse_with sources
