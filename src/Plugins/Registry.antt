-- ===== src/Plugins/Registry.antt =====
-- `PluginRegistry` of src/plugins/loader.py with the metadata and states of interface.py. A plugin object
-- is its state; a factory is a number. Fields of the metadata that the loader does not read are left out.
use algo_engine.Prelude.{ℕ, ◌+◌, Bool, Option, List, [], ◌∷◌, ◌++◌, String, if◌then◌else◌, map}
use algo_engine.Prelude.Eq.{string_eq}
use algo_engine.Prelude.Dict.{Dict, lookup, contains, insert, erase}
use algo_engine.Fix.Text.{Text}

pub data PluginState : Type 0 where
  discovered loaded validated initialized running paused stopping stopped unloaded error :
      PluginState

pub record PluginDependency : Type 0 where
  pub name : String
  pub version_min : Option Text
  pub version_max : Option Text
  pub required : Bool

pub record PluginMetadata : Type 0 where
  pub name : String
  pub version : Text
  pub dependencies : List PluginDependency

-- The messages about dependencies.
pub data Unresolved : Type 0 where
  unknown_plugin : String → Unresolved
  not_found : String → Unresolved
  version_mismatch : String → Unresolved

-- The methods that the loader calls.
pub data Hook : Type 0 where
  on_load validate on_init on_start on_pause on_resume on_stop on_unload : Hook

pub record PluginRegistry : Type 0 where
  pub discovered_plugins : Dict String PluginMetadata
  pub instances : Dict String PluginState
  pub factories : Dict String ℕ
  pub errors : Dict String (List Unresolved)
  -- what is called on which plugin, the earliest first
  pub called : List (String × Hook)

-- `PluginRegistry.__init__` and `clear`
unfoldable pub new_registry : PluginRegistry
new_registry = record {
  discovered_plugins = [];
  instances = [];
  factories = [];
  errors = [];
  called = [];
}

unfoldable pub clear_registry : PluginRegistry → PluginRegistry
clear_registry r = record r { discovered_plugins = []; instances = []; factories = []; errors = [] }

-- `register_discovered`: the first plugin of a name stays.
unfoldable pub register_discovered : PluginMetadata → PluginRegistry → PluginRegistry
register_discovered m r =
    if contains m.name r.discovered_plugins
    then r
    else record r { discovered_plugins = insert m.name m r.discovered_plugins }

unfoldable pub register_instance : String → PluginState → PluginRegistry → PluginRegistry
register_instance n p r = record r { instances = insert n p r.instances }

unfoldable pub register_factory : String → ℕ → PluginRegistry → PluginRegistry
register_factory n f r = record r { factories = insert n f r.factories }

unfoldable pub set_error : String → List Unresolved → PluginRegistry → PluginRegistry
set_error n us r = record r { errors = insert n us r.errors }

unfoldable pub clear_error : String → PluginRegistry → PluginRegistry
clear_error n r = record r { errors = erase n r.errors }

unfoldable pub get_metadata : String → PluginRegistry → Option PluginMetadata
get_metadata n r = lookup n r.discovered_plugins

unfoldable pub get_instance : String → PluginRegistry → Option PluginState
get_instance n r = lookup n r.instances

unfoldable pub is_loaded : String → PluginRegistry → Bool
is_loaded n r = contains n r.instances

unfoldable pub list_discovered : PluginRegistry → List PluginMetadata
list_discovered r = map (λ p. p.1) r.discovered_plugins

unfoldable pub list_loaded : PluginRegistry → List String
list_loaded r = map (λ p. p.0) r.instances

abbrev pub note : String → Hook → PluginRegistry → PluginRegistry
note n h r = record r { called = r.called ++ ((n, h) ∷ []) }

-- The object that the registry has under a name is given a state.
abbrev pub put_state : String → PluginState → PluginRegistry → PluginRegistry
put_state n p r = record r { instances = insert n p r.instances }

-- The loop of `stop_all`; `stops` says whether the `on_stop` of a plugin returns.
unfoldable pub stop_each : (String → Bool) → List String → PluginRegistry → ℕ × PluginRegistry
stop_each stops [] r = (0, r)
stop_each stops (n ∷ ns) r =
    let s = note n on_stop r in
    if stops n
    then (let (k, t) = stop_each stops ns (put_state n stopped s) in (k + 1, t))
    else stop_each stops ns s

unfoldable pub stop_all : (String → Bool) → PluginRegistry → ℕ × PluginRegistry
unfolding stop_each list_loaded
stop_all stops r = stop_each stops (list_loaded r) r
