-- ===== src/Tests/Arguments.antt =====
-- Command lines, parsed at concrete inputs.
use oidc_token_cli.Base.{
  ℕ, suc, String, ◌<>◌, ◌≡◌, refl, Bool, true, false, Option, none, some, List, [], ◌∷◌, All,
  length, lookup, Result, ok, err,
}
use oidc_token_cli.Base.Json.{Json, ℤ}
use oidc_token_cli.Config.{Config}
use oidc_token_cli.Flagbinding.Registration.{
  Value, string_value, bool_value, slice_value, Field, string_field, slice_field, Registered,
  register_var, register_all,
}
use oidc_token_cli.Config.Usage.{groups, print_grouped_usage}
use oidc_token_cli.Config.Usage.Laws.{shown, count}
use oidc_token_cli.Config.Fields.{registered}
use oidc_token_cli.Config.Fields.Help.{described_all, register_all-shown}
use oidc_token_cli.Config.Arguments.{FlagSet, rounds, Parses, parse_all}
use oidc_token_cli.Config.Arguments.Spelling.{
  Setting, attached, separate, alone, spell_all, IsPlain, apply, apply_all, left_after, set_names,
  parse_all-spell_all,
}
use oidc_token_cli.Config.Fields.Laws.{
  starting, an_issuer, value_of, from_layers, after, parse-from_layers,
}
use oidc_token_cli.Config.Resolve.{binding, read_config}
use oidc_token_cli.Config.Parse.{parse}
use oidc_token_cli.Tests.Settings.{host, final_config, exchange, no_sources}

abbrev no_number : String → Option ℤ
no_number s = none

abbrev formal : List (String × Value)
formal = ("issuer", string_value "") ∷ ("all", bool_value false) ∷ ("resource", slice_value []) ∷ []

-- `--issuer=a --all -resource r1 --issuer b --resource=r2 stop --all`
abbrev settings : List Setting
settings =
    attached true "issuer" "a"
    ∷ alone true "all"
    ∷ separate false "resource" "r1"
    ∷ separate true "issuer" "b"
    ∷ attached true "resource" "r2"
    ∷ []

abbrev arguments : List String
arguments = spell_all settings ("stop" ∷ "--all" ∷ [])

abbrev flag_set : FlagSet
flag_set = record { formal = formal; actual = []; args = arguments }

abbrev formal_after : List (String × Value)
formal_after =
    ("issuer", string_value "b")
    ∷ ("all", bool_value true)
    ∷ ("resource", slice_value ("r1" ∷ "r2" ∷ []))
    ∷ []

abbrev flag_set_after : FlagSet
flag_set_after = record {
  formal = formal_after;
  actual = set_names settings [];
  args = "stop" ∷ "--all" ∷ [];
}

parsed : parse_all no_number flag_set ≡ ok flag_set_after
unfolding parse_all lookup oidc_token_cli.Base.insert
parsed = refl

applied : apply_all no_number settings formal ≡ some formal_after
unfolding apply lookup oidc_token_cli.Base.insert oidc_token_cli.Config.Arguments.set_value
applied = refl

stops : left_after ("stop" ∷ "--all" ∷ []) ≡ some ("stop" ∷ "--all" ∷ [])
unfolding oidc_token_cli.Config.Arguments.read_argument
stops = refl

settings-IsPlain : All IsPlain settings
settings-IsPlain = (refl, (refl, (refl, (refl, (refl, tt)))))

spelled : parse_all no_number flag_set ≡ ok flag_set_after
spelled =
    parse_all-spell_all no_number settings formal formal_after [] ("stop" ∷ "--all" ∷ [])
      ("stop" ∷ "--all" ∷ []) settings-IsPlain applied stops

-- A whole command line: the issuer is given twice.
abbrev command_line : List Setting
command_line =
    attached true "issuer" "old"
    ∷ separate true "client-id" "cli"
    ∷ separate false "grant-type" "token-exchange"
    ∷ attached true "subject-token" "st"
    ∷ separate true "config" "conf.json"
    ∷ separate true "extra" "tenant=flag"
    ∷ separate true "issuer" "https://issuer"
    ∷ []

abbrev values_after : Option (List (String × Value)) → List (String × Value)
values_after none = []
values_after (some gs) = gs

abbrev command_values : List (String × Value)
unfolding apply lookup oidc_token_cli.Base.insert oidc_token_cli.Config.Arguments.set_value
command_values = values_after (apply_all no_number command_line starting)

command_applied : apply_all no_number command_line starting ≡ some command_values
unfolding apply lookup oidc_token_cli.Base.insert oidc_token_cli.Config.Arguments.set_value
    command_values starting
command_applied = refl

command_parsed :
    parse host no_number no_sources (spell_all command_line []) ≡ ok (final_config, exchange)
unfolding parse lookup oidc_token_cli.Base.insert oidc_token_cli.Config.Arguments.set_value
    oidc_token_cli.Flagbinding.resolve_string oidc_token_cli.Flagbinding.resolve_bool
    oidc_token_cli.Flagbinding.resolve_int oidc_token_cli.Flagbinding.resolve_slice
    oidc_token_cli.Subjecttoken.find_source
command_parsed = refl

parse-from_layers_example :
    (fc : Option (List (String × Json))) × (read_config host
        (after host no_number command_line command_values [])
      ≡ ok fc)
    × (value_of an_issuer final_config ≡ from_layers host an_issuer command_line fc)
parse-from_layers_example =
    parse-from_layers host no_number an_issuer no_sources command_line command_values [] []
      final_config exchange (refl, (refl, (refl, (refl, (refl, (refl, (refl, tt)))))))
      command_applied refl command_parsed

-- Two fields, registered and shown in the help text.
abbrev two_fields : List Field
two_fields =
    string_field (binding "issuer" "OIDC_TOKEN_ISSUER" "issuer") "OIDC issuer URL" ""
    ∷ slice_field (binding "resource" "" "resource") "target resource URI (repeatable)"
    ∷ []

abbrev two_flags : List (String × Registered)
two_flags =
    ("issuer", record { usage = "OIDC issuer URL [$OIDC_TOKEN_ISSUER]"; value = string_value "" })
    ∷ ("resource", record { usage = "target resource URI (repeatable)"; value = slice_value [] })
    ∷ []

two_registered : register_all two_fields [] ≡ some two_flags
unfolding register_all register_var lookup
two_registered = refl

abbrev digits : ℤ → String
digits n = "0"

register_all-shown_example :
    count "issuer" (shown (print_grouped_usage groups (described_all digits two_flags)))
    ≡ count "issuer" (described_all digits two_flags)
register_all-shown_example = register_all-shown digits two_fields two_flags "issuer" two_registered

abbrev is_some : Option (List (String × Registered)) → Bool
is_some (some fs) = true
is_some none = false

-- No name comes twice among the flags of the program.
all_registered : ◌≡◌ {A = Bool} (is_some registered) true
unfolding registered register_all register_var lookup
all_registered = refl
