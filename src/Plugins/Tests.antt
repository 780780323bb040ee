-- ===== src/Plugins/Tests.antt =====
-- The theorems about src/plugins at inputs that meet their hypotheses.
use algo_engine.Prelude.{◌≡◌, ◌↔◌, refl, true, false, none, some, List, [], ◌∷◌, ◌++◌}
use algo_engine.Fix.Text.{Text}
use algo_engine.Plugins.Version.{is_suffix, parse_semver, check_version_satisfied}
use algo_engine.Plugins.Version.Print.{print_version, parse_semver-print_version}
use algo_engine.Plugins.Version.Order.{Version, ◌≼◌, text, check_version_satisfied_lem}
use algo_engine.Plugins.Registry.{PluginMetadata, PluginRegistry}
use algo_engine.Plugins.Loader.{Loading}
use algo_engine.Plugins.Loader.Reachable.{IsSound}
use algo_engine.Plugins.Loader.Run.{
  load, load_every, start, pause, stop_every, unload, Command, run_all, GotThrough, run_all-IsSound,
}

-- "-rc.1"
abbrev suffix : Text
suffix = b'-' ∷ b'r' ∷ b'c' ∷ b'.' ∷ b'1' ∷ []

suffix_is_valid : is_suffix suffix ≡ true
unfolding is_suffix
suffix_is_valid = refl

nothing_is_valid : is_suffix [] ≡ true
unfolding is_suffix
nothing_is_valid = refl

parse_semver-print_version_example :
    parse_semver (print_version 1 12 0 ++ suffix) ≡ some (1 ∷ 12 ∷ 0 ∷ [])
parse_semver-print_version_example = parse_semver-print_version 1 12 0 suffix suffix_is_valid

abbrev version : Version
version = record { major = 1; minor = 12; patch = 0 }

abbrev lowest : Version
lowest = record { major = 1; minor = 9; patch = 4 }

abbrev highest : Version
highest = record { major = 2; minor = 0; patch = 0 }

check_version_satisfied_lem_example :
    (check_version_satisfied
        (some (text version suffix))
        (some (text lowest []))
        (some (text highest []))
      ≡ true)
    ↔ ((lowest ≼ version) × (version ≼ highest))
check_version_satisfied_lem_example =
    check_version_satisfied_lem version lowest highest suffix [] [] suffix_is_valid nothing_is_valid
      nothing_is_valid

abbrev base : PluginMetadata
base = record { name = "base"; version = print_version 1 0 0; dependencies = [] }

abbrev top : PluginMetadata
top = record {
  name = "top";
  version = print_version 0 1 0;
  dependencies =
      record {
        name = "base";
        version_min = some (print_version 1 0 0);
        version_max = none;
        required = true;
      }
      ∷ [];
}

abbrev registry : PluginRegistry
registry = record {
  discovered_plugins = ("base", base) ∷ ("top", top) ∷ [];
  instances = [];
  factories = [];
  errors = [];
  called = [];
}

abbrev loading : Loading
loading = record {
  made = true;
  again = false;
  loads = true;
  validates = some true;
  initializes = true;
}

abbrev commands : List Command
commands =
    load loading "top"
    ∷ start true "top"
    ∷ pause false "top"
    ∷ load_every (λ _. loading)
    ∷ stop_every (λ _. true)
    ∷ unload true false "base"
    ∷ []

run_all-IsSound_example :
    IsSound (GotThrough commands) registry.discovered_plugins (run_all commands registry)
run_all-IsSound_example = run_all-IsSound commands registry refl
