-- ===== src/Plugins/Loader.antt =====
-- `PluginLoader` of src/plugins/loader.py on a registry. What discovery finds is an argument, and so is
-- whether a call of a plugin returns; a plugin is taken to leave the registry and its own state
-- alone, and so is whether making a plugin gives back the object that is registered under its name;
-- no object is registered under two names. Import machinery and reading of manifests are left out.
pub mod Reachable
pub mod Run
use algo_engine.Prelude.{
  ℕ, ◌+◌, Bool, true, false, not, ◌&&◌, ◌||◌, Option, none, some, List, [], ◌∷◌, ◌++◌, String,
  if◌then◌else◌,
}
use algo_engine.Prelude.Eq.{◌=?◌, string_eq}
use algo_engine.Prelude.Dict.{Dict, lookup, contains, insert, erase}
use algo_engine.Plugins.Version.{check_version_satisfied}
use algo_engine.Plugins.Registry.{
  PluginState, loaded, validated, initialized, running, paused, stopped, unloaded, error,
  PluginDependency, PluginMetadata, Unresolved, unknown_plugin, not_found, version_mismatch, Hook,
  on_load, validate, on_init, on_start, on_pause, on_resume, on_stop, on_unload, PluginRegistry,
  register_discovered, register_instance, set_error, get_metadata, get_instance, list_discovered,
  list_loaded, note, put_state,
}

-- How making a plugin, and the calls on loading it, end: `validates` is `none` where it raises. A
-- factory may give back the object that is registered already, which is `again`.
pub record Loading : Type 0 where
  pub made : Bool
  pub again : Bool
  pub loads : Bool
  pub validates : Option Bool
  pub initializes : Bool

pub data LoadResult : Type 0 where
  plugin_loaded not_known dependency_error load_error validation_error init_error : LoadResult

-- The end of `discover`
unfoldable pub register_all : List PluginMetadata → PluginRegistry → PluginRegistry
unfolding register_discovered
register_all [] r = r
register_all (m ∷ ms) r = register_all ms (register_discovered m r)

-- One dependency, with the metadata that is found for it.
abbrev pub check_dependency : PluginDependency → Option PluginMetadata → List Unresolved
check_dependency d none = if d.required then not_found d.name ∷ [] else []
check_dependency d (some m) =
    if check_version_satisfied (some m.version) d.version_min d.version_max
    then []
    else version_mismatch d.name ∷ []

unfoldable pub check_each : List PluginDependency → Dict String PluginMetadata → List Unresolved
check_each [] known = []
check_each (d ∷ ds) known = check_dependency d (lookup d.name known) ++ check_each ds known

-- `check_dependencies`, among the plugins that are known.
unfoldable pub unresolved_among : String → Dict String PluginMetadata → List Unresolved
unfolding check_each
unresolved_among n known = elim (lookup n known) [
  | none ↦ unknown_plugin n ∷ []
  | some m ↦ check_each m.dependencies known
]

unfoldable pub check_dependencies : String → PluginRegistry → List Unresolved
unfolding unresolved_among
check_dependencies n r = unresolved_among n r.discovered_plugins

-- `plugin.state = …` on a plugin that is being loaded: the registry has it where it is the object
-- that is registered.
abbrev pub mark : Bool → String → PluginState → PluginRegistry → PluginRegistry
mark again n p r = if again && contains n r.instances then put_state n p r else r

-- `_initialize_plugin`; a plugin that does not get through is dropped.
unfoldable pub initialize_plugin : Loading → String → PluginRegistry → LoadResult × PluginRegistry
unfolding register_instance
initialize_plugin w n r =
    let s = note n on_load (mark w.again n loaded r) in
    if not w.loads
    then (load_error, s)
    else (let t = note n validate (mark w.again n validated s) in
        elim w.validates [
          | none ↦ (validation_error, t)
          | some false ↦ (validation_error, t)
          | some true ↦
              let u = note n on_init (mark w.again n initialized t) in
              if w.initializes
              then (plugin_loaded, register_instance n initialized u)
              else (init_error, u)
        ])

-- `load_plugin` of a plugin that is known, with what is unresolved.
abbrev pub load_resolved :
    Loading → String → List Unresolved → PluginRegistry → LoadResult × PluginRegistry
load_resolved w n [] r = if w.made then initialize_plugin w n r else (load_error, r)
load_resolved w n (u ∷ us) r = (dependency_error, set_error n (u ∷ us) r)

unfoldable pub load_plugin : Loading → String → PluginRegistry → LoadResult × PluginRegistry
unfolding initialize_plugin check_dependencies set_error get_metadata
load_plugin w n r = elim (get_metadata n r) [
  | none ↦ (not_known, r)
  | some m ↦ load_resolved w n (check_dependencies n r) r
]

-- `load_all`
unfoldable pub load_each :
    (String → Loading) → List PluginMetadata → PluginRegistry → List LoadResult × PluginRegistry
unfolding load_plugin
load_each w [] r = ([], r)
load_each w (m ∷ ms) r =
    let (x, s) = load_plugin (w m.name) m.name r in let (xs, t) = load_each w ms s in (x ∷ xs, t)

unfoldable pub load_all : (String → Loading) → PluginRegistry → List LoadResult × PluginRegistry
unfolding load_each list_discovered
load_all w r = load_each w (list_discovered r) r

-- The state after a call of a plugin that is loaded, by whether it returns.
abbrev pub after_call :
    Bool → PluginState → Option PluginState → String → PluginRegistry → Bool × PluginRegistry
after_call true then_state else_state n r = (true, put_state n then_state r)
after_call false then_state none n r = (false, r)
after_call false then_state (some p) n r = (false, put_state n p r)

abbrev pub call_plugin :
    Bool → Hook → PluginState → Option PluginState → String → PluginRegistry → Bool × PluginRegistry
call_plugin returns h then_state else_state n r = elim (get_instance n r) [
  | none ↦ (false, r)
  | some p ↦ after_call returns then_state else_state n (note n h r)
]

unfoldable pub start_plugin : Bool → String → PluginRegistry → Bool × PluginRegistry
unfolding get_instance
start_plugin returns n r = call_plugin returns on_start running (some error) n r

unfoldable pub start_each : (String → Bool) → List String → PluginRegistry → ℕ × PluginRegistry
unfolding start_plugin
start_each returns [] r = (0, r)
start_each returns (n ∷ ns) r =
    let (ok, s) = start_plugin (returns n) n r in
    let (k, t) = start_each returns ns s in (if ok then k + 1 else k, t)

unfoldable pub start_all : (String → Bool) → PluginRegistry → ℕ × PluginRegistry
unfolding start_each list_loaded
start_all returns r = start_each returns (list_loaded r) r

unfoldable pub pause_plugin : Bool → String → PluginRegistry → Bool × PluginRegistry
unfolding get_instance
pause_plugin returns n r = call_plugin returns on_pause paused none n r

unfoldable pub resume_plugin : Bool → String → PluginRegistry → Bool × PluginRegistry
unfolding get_instance
resume_plugin returns n r = call_plugin returns on_resume running none n r

unfoldable pub stop_plugin : Bool → String → PluginRegistry → Bool × PluginRegistry
unfolding get_instance
stop_plugin returns n r = call_plugin returns on_stop stopped (some error) n r

abbrev pub is_active : PluginState → Bool
is_active running = true
is_active paused = true
is_active _ = false

-- The call of `on_unload`, and what is done where it returns.
abbrev pub finish_unload : Bool → String → PluginRegistry → Bool × PluginRegistry
finish_unload unloads n r =
    let s = note n on_unload r in
    if unloads
    then (true, record s { instances = erase n s.instances; factories = erase n s.factories })
    else (false, s)

-- `unload_plugin` of a plugin by whether it is active, and whether its `on_stop` and its `on_unload`
-- return.
abbrev pub unload_loaded : Bool → Bool → Bool → String → PluginRegistry → Bool × PluginRegistry
unload_loaded true false unloads n r = (false, note n on_stop r)
unload_loaded true true unloads n r = finish_unload unloads n (note n on_stop r)
unload_loaded false stops unloads n r = finish_unload unloads n r

unfoldable pub unload_plugin : Bool → Bool → String → PluginRegistry → Bool × PluginRegistry
unfolding get_instance
unload_plugin stops unloads n r = elim (get_instance n r) [
  | none ↦ (false, r)
  | some p ↦ unload_loaded (is_active p) stops unloads n r
]
