-- ===== src/Config/Usage.antt =====
-- internal/config/usage.go: the help text, with the flags in groups.
-- A flag is what is read of a `flag.Flag`; of its value, whether its kind is a string, and the text
-- of its zero value. A flag set is the list of its flags in the order of VisitAll. Parameters:
-- flag.UnquoteUsage, `%q`, and strings.ReplaceAll(usage, "\n", ...).
pub mod Laws
use oidc_token_cli.Base.{
  String, ◌<>◌, Bool, true, false, not, Option, none, some, List, [], ◌∷◌, ◌++◌, ◌==◌, is_empty,
  is_nil, contains, if◌then◌else◌,
}

pub record Flag : Type 0 where
  pub name : String
  pub usage : String
  pub def_value : String
  pub is_string : Bool
  -- `none` where a new value of the type is no flag.Value
  pub zero_value : Option String

-- flagGroup
pub record FlagGroup : Type 0 where
  pub title : String
  pub flags : List String

abbrev pub groups : List FlagGroup
groups =
    record {
      title = "Common";
      flags =
          "issuer" ∷ "client-id" ∷ "scope" ∷ "audience" ∷ "grant-type" ∷ "token-type" ∷ "config"
          ∷ [];
    }
    ∷ record { title = "Output"; flags = "format" ∷ "all" ∷ "logout" ∷ "non-interactive" ∷ [] }
    ∷ record { title = "Token Storage"; flags = "token-store" ∷ "token-store-dir" ∷ [] }
    ∷ record {
      title = "Advanced - Client Authentication";
      flags =
          "client-auth-method" ∷ "client-secret" ∷ "client-secret-file" ∷ "private-key-file"
          ∷ "private-key-id" ∷ "private-key-alg" ∷ "client-assertion-audience" ∷ [];
    }
    ∷ record {
      title = "Advanced - Token Exchange (--grant-type=token-exchange)";
      flags =
          "subject-token" ∷ "subject-token-file" ∷ "subject-token-type" ∷ "subject-token-source"
          ∷ "requested-token-type" ∷ "resource" ∷ [];
    }
    ∷ record { title = "Advanced - Other"; flags = "redirect" ∷ "extra" ∷ [] }
    ∷ []

-- fs.Lookup
unfoldable pub find_flag : String → List Flag → Option Flag
find_flag name [] = none
find_flag name (f ∷ fs) = if f.name == name then some f else find_flag name fs

abbrev pub keep_found : Option Flag → List Flag → List Flag
keep_found none found = found
keep_found (some f) found = f ∷ found

unfoldable pub present : List Flag → List String → List Flag
unfolding find_flag
present fs [] = []
present fs (name ∷ names) = keep_found (find_flag name fs) (present fs names)

-- What one call that writes puts out: an empty line, the title of a section, a flag.
pub data Line : Type 0 where
  blank : Line
  section : String → Line
  flag_line : Flag → Line

abbrev pub flag_lines : List Flag → List Line
flag_lines [] = []
flag_lines (f ∷ fs) = flag_line f ∷ flag_lines fs

-- A section with a line between it and what is above; nothing if it has no flag.
unfoldable pub section_lines : Bool → String → List Flag → List Line
section_lines first title fs =
    if is_nil fs then [] else (if first then [] else blank ∷ []) ++ (section title ∷ flag_lines fs)

-- `for i, g := range groups`
unfoldable pub group_lines : List Flag → Bool → List FlagGroup → List Line
unfolding present section_lines
group_lines fs first [] = []
group_lines fs first (g ∷ gs) =
    section_lines first g.title (present fs g.flags) ++ group_lines fs false gs

abbrev pub names : List Flag → List String
names [] = []
names (f ∷ fs) = f.name ∷ names fs

-- The keys of `seen` after the loop.
unfoldable pub seen : List Flag → List FlagGroup → List String
unfolding present
seen fs [] = []
seen fs (g ∷ gs) = names (present fs g.flags) ++ seen fs gs

-- `fs.VisitAll(func(f) { if !seen[f.Name] { other = append(other, f) } })`
unfoldable pub unseen : List String → List Flag → List Flag
unseen known [] = []
unseen known (f ∷ fs) =
    let rest = unseen known fs in if not (contains known f.name) then f ∷ rest else rest

-- printGroupedUsage
unfoldable pub print_grouped_usage : List FlagGroup → List Flag → List Line
unfolding group_lines seen unseen section_lines
print_grouped_usage gs fs =
    group_lines fs true gs ++ section_lines false "Other" (unseen (seen fs gs) fs)

module _ (unquote_usage : Flag → String × String) (quote : String → String)
    (indented : String → String) where
  abbrev is_zero_text : Option String → String → Bool
  is_zero_text none value = false
  is_zero_text (some z) value = value == z

  -- isZeroValue
  unfoldable pub is_zero_value : Flag → String → Bool
  is_zero_value f value = is_zero_text f.zero_value value

  -- printFlag
  unfoldable pub print_flag : Flag → String
  unfolding is_zero_value
  print_flag f =
      let (name, usage) = unquote_usage f in
      "    -"
      <> f.name
      <> (if is_empty name then "" else " " <> name)
      <> "\n      \t"
      <> indented usage
      <> (if is_zero_value f f.def_value
          then ""
          else if f.is_string
          then " (default " <> quote f.def_value <> ")"
          else " (default " <> f.def_value <> ")")
      <> "\n"

  unfoldable pub line_text : Line → String
  unfolding print_flag
  line_text blank = "\n"
  line_text (section title) = "  " <> title <> ":\n"
  line_text (flag_line f) = print_flag f
