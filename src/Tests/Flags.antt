-- ===== src/Tests/Flags.antt =====
-- The help text and the start of a browser at concrete inputs.
use oidc_token_cli.Base.{
  String, ◌≡◌, refl, ◌⊎◌, true, some, List, [], ◌∷◌, Error, Result, ok, err, M,
}
use oidc_token_cli.Oidc.Discovery.{Url}
use oidc_token_cli.Config.Usage.{Flag, groups, print_grouped_usage, blank, section, flag_line}
use oidc_token_cli.Authflow.Browser.{
  IsWebUrl, IsStarted, open_browser, open_browser-IsWebUrl, is_web, browser_command,
}

abbrev flag : String → Flag
flag name = record {
  name = name;
  usage = "usage";
  def_value = "";
  is_string = true;
  zero_value = some "";
}

-- Two flags of the first and the fifth group, and one of none.
abbrev flag_set : List Flag
flag_set = flag "issuer" ∷ flag "resource" ∷ flag "zzz" ∷ []

help_lines : print_grouped_usage groups flag_set ≡ (
    section "Common"
    ∷ flag_line (flag "issuer")
    ∷ blank
    ∷ section "Advanced - Token Exchange (--grant-type=token-exchange)"
    ∷ flag_line (flag "resource")
    ∷ blank
    ∷ section "Other"
    ∷ flag_line (flag "zzz")
    ∷ [])
unfolding print_grouped_usage
help_lines = refl

-- The world is the list of the commands started.
abbrev parse_url : String → Result Url
parse_url raw = ok (record { scheme = "https"; hostname = "issuer" })

abbrev start : String → List String → M (List (List String)) (Unit {0})
start name args w = (ok tt, (name ∷ args) ∷ w)

abbrev nothing_started : List (List String)
nothing_started = []

abbrev login_url : String
login_url = "https://issuer/authorize"

open_browser-IsWebUrl_example :
    (IsWebUrl parse_url "linux" start login_url
      × IsStarted parse_url "linux" start login_url nothing_started
          (open_browser parse_url "linux" start login_url nothing_started))
    ⊎ ((¬ IsWebUrl parse_url "linux" start login_url)
        × (e : Error) × (open_browser parse_url "linux" start login_url nothing_started
            ≡ (err e, nothing_started)))
open_browser-IsWebUrl_example =
    open_browser-IsWebUrl parse_url "linux" start login_url nothing_started

started :
    open_browser parse_url "linux" start login_url nothing_started
    ≡ (ok tt, ("xdg-open" ∷ login_url ∷ []) ∷ [])
unfolding open_browser is_web browser_command
started = refl
