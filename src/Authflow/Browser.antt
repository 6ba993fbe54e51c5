-- ===== src/Authflow/Browser.antt =====
-- OpenBrowser of internal/authflow/browser.go.
-- Parameters: url.Parse, the name of the operating system, and the start of a process, by its
-- command and arguments.
use oidc_token_cli.Base.{
  String, ◌≡◌, refl, sym, ◌∙◌, ◌⊎◌, inl, inr, Bool, false, not, ◌||◌, ◌==◌, eq_iff, if◌then◌else◌,
  Bool-cases, List, [], ◌∷◌, ◌++◌, ◌≢◌, ap, true-ne-false, Error, message, wrap, Result, ok, err, M,
  map_err, arith,
}
use mathlib.Core.Path.{subst}
use oidc_token_cli.Oidc.Discovery.{Url}

unfoldable pub is_web : Url → Bool
is_web u = u.scheme == "http" || u.scheme == "https"

-- The switch on runtime.GOOS.
unfoldable pub browser_command : String → String → String × List String
browser_command goos raw_url =
    if goos == "darwin"
    then ("open", raw_url ∷ [])
    else if goos == "windows"
    then ("rundll32", "url.dll,FileProtocolHandler" ∷ raw_url ∷ [])
    else ("xdg-open", raw_url ∷ [])

-- The program that opens a URL on an operating system, and its arguments before the URL.
pub data Opens : String → String → List String → Type 0 where
  on_darwin : Opens "darwin" "open" []
  on_windows : Opens "windows" "rundll32" ("url.dll,FileProtocolHandler" ∷ [])
  elsewhere : (os : String) → os ≢ "darwin" → os ≢ "windows" → Opens os "xdg-open" []

browser_command-Opens :
    (goos raw_url : String)
    → (name : String) × (before : List String) × Opens goos name before
      × (browser_command goos raw_url ≡ (name, before ++ (raw_url ∷ [])))
unfolding browser_command
browser_command-Opens goos raw_url = elim (Bool-cases (goos == "darwin")) [
  | inl darwin ↦ (
    "open",
    [],
    subst (λ os. Opens os "open" []) (sym ((eq_iff goos "darwin").0 darwin)) on_darwin,
    rw darwin refl,
  )
  | inr not_darwin ↦ elim (Bool-cases (goos == "windows")) [
    | inl windows ↦ (
      "rundll32",
      "url.dll,FileProtocolHandler" ∷ [],
      subst (λ os. Opens os "rundll32" ("url.dll,FileProtocolHandler" ∷ []))
          (sym ((eq_iff goos "windows").0 windows)) on_windows,
      rw (not_darwin, windows) refl,
    )
    | inr not_windows ↦ (
      "xdg-open",
      [],
      elsewhere goos
          (λ same. absurd (true-ne-false (sym ((eq_iff goos "darwin").1 same) ∙ not_darwin)))
          (λ same. absurd (true-ne-false (sym ((eq_iff goos "windows").1 same) ∙ not_windows))),
      rw (not_darwin, not_windows) refl,
    )
  ]
]

module _ {W : Type 0} (parse : String → Result Url) (goos : String)
    (start : String → List String → M W (Unit {0})) where
  abbrev pub launch : String → M W (Unit {0})
  launch raw_url =
      let (name, args) = browser_command goos raw_url in
      map_err (wrap "authflow: open browser") (start name args)

  abbrev checked : String → Result Url → M W (Unit {0})
  checked raw_url (err e) w = (err (wrap "authflow: refusing to open browser: invalid URL" e), w)
  checked raw_url (ok u) w =
      if not (is_web u)
      then (err (message "authflow: refusing to open browser: URL scheme is not http/https"), w)
      else launch raw_url w

  unfoldable pub open_browser : String → M W (Unit {0})
  unfolding is_web browser_command
  open_browser raw_url = checked raw_url (parse raw_url)

  -- The URL parses, with scheme http or https.
  abbrev pub IsWebUrl : String → Type 0
  IsWebUrl raw_url =
      (u : Url) × (parse raw_url ≡ ok u) × ((u.scheme ≡ "http") ⊎ (u.scheme ≡ "https"))

  -- The one program of the platform is started, with the URL as its last argument.
  abbrev pub IsStarted : String → W → Result (Unit {0}) × W → Type 0
  IsStarted raw_url w outcome =
      (name : String) × (before : List String) × Opens goos name before
      × (outcome
          ≡ map_err (wrap "authflow: open browser") (start name (before ++ (raw_url ∷ []))) w)

  launch-IsStarted : (raw_url : String) (w : W) → IsStarted raw_url w (launch raw_url w)
  launch-IsStarted raw_url w =
      let (name, before, opens, e) = browser_command-Opens goos raw_url in
      (
        name,
        before,
        opens,
        ap (λ c. map_err (wrap "authflow: open browser") (start (c.0) (c.1)) w) e,
      )

  -- Either the URL parses with scheme http or https, and what is done is to start one program, which
  -- is open on darwin, rundll32 with url.dll,FileProtocolHandler on windows and xdg-open elsewhere,
  -- with the URL as its last argument; or it does not, and no process is started at all.
  pub open_browser-IsWebUrl :
      (raw_url : String) (w : W)
      → (IsWebUrl raw_url × IsStarted raw_url w (open_browser raw_url w))
        ⊎ ((¬ IsWebUrl raw_url) × (e : Error) × (open_browser raw_url w ≡ (err e, w)))
  unfolding open_browser
  open_browser-IsWebUrl raw_url w = go (parse raw_url) refl
    where
      unparsed : (e : Error) → parse raw_url ≡ err e → ¬ IsWebUrl raw_url
      unparsed e parsed (u, is, web) = cc (sym parsed ∙ is)

      not_web : (u : Url) → parse raw_url ≡ ok u → is_web u ≡ false → ¬ IsWebUrl raw_url
      not_web u parsed other (u', is, web) =
          let same : ok u ≡ ok u' = sym parsed ∙ is in
          let scheme : u.scheme ≡ u'.scheme = cc same in
          ground (arith, eq_iff u.scheme "http", eq_iff u.scheme "https")

      go :
          (x : Result Url)
          → parse raw_url ≡ x
          → (IsWebUrl raw_url × IsStarted raw_url w (checked raw_url x w))
            ⊎ ((¬ IsWebUrl raw_url) × (e : Error) × (checked raw_url x w ≡ (err e, w)))
      go (err e) parsed = inr (λ (u, is, web). cc (sym parsed ∙ is), _, refl)
      go (ok u) parsed = elim (Bool-cases (is_web u)) [
        | inl web ↦ inl (
          (u, parsed, ground (arith, eq_iff u.scheme "http", eq_iff u.scheme "https")),
          rw web (launch-IsStarted raw_url w),
        )
        | inr other ↦ inr (
          not_web u parsed other,
          message "authflow: refusing to open browser: URL scheme is not http/https",
          rw other refl,
        )
      ]
