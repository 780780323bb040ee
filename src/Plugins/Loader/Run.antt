-- ===== src/Plugins/Loader/Run.antt =====
-- Any sequence of calls of the loader and of `stop_all` (src/plugins/loader.py).
use algo_engine.Prelude.{
  ◌≡◌, ◌⊎◌, refl, sym, subst, Bool, true, false, Option, none, some, List, [], ◌∷◌, String, arith,
  Bool-cases, Option-cases, inl, inr, map,
}
use algo_engine.Prelude.Eq.{string_eq}
use algo_engine.Prelude.Dict.{Dict, lookup, erase, lookup-erase, IsDistinct, erase-IsDistinct}
use algo_engine.Plugins.Registry.{
  PluginState, running, paused, stopped, error, PluginMetadata, Hook, on_start, on_pause, on_resume,
  on_stop, on_unload, PluginRegistry, get_instance, list_discovered, list_loaded, note, stop_each,
  stop_all,
}
use algo_engine.Plugins.Loader.{
  finish_unload, unload_loaded, Loading, after_call, load_plugin, load_all, call_plugin,
  start_plugin, start_each, start_all, pause_plugin, resume_plugin, stop_plugin, is_active,
  unload_plugin,
}
use algo_engine.Plugins.Loader.Reachable.{
  Passes, IsMet, Holds, IsSound, note-IsSound, put_state-IsSound, load_plugin-IsSound,
  load_each-IsSound,
}

-- A call, with how the calls of plugins in it end.
pub data Command : Type 0 where
  load : Loading → String → Command
  load_every : (String → Loading) → Command
  start : Bool → String → Command
  start_every : (String → Bool) → Command
  pause : Bool → String → Command
  resume : Bool → String → Command
  stop : Bool → String → Command
  stop_every : (String → Bool) → Command
  unload : Bool → Bool → String → Command

unfoldable pub run : Command → PluginRegistry → PluginRegistry
unfolding load_plugin load_all start_plugin start_all pause_plugin resume_plugin stop_plugin
    stop_all unload_plugin
run (load w n) r = (load_plugin w n r).1
run (load_every w) r = (load_all w r).1
run (start returns n) r = (start_plugin returns n r).1
run (start_every returns) r = (start_all returns r).1
run (pause returns n) r = (pause_plugin returns n r).1
run (resume returns n) r = (resume_plugin returns n r).1
run (stop returns n) r = (stop_plugin returns n r).1
run (stop_every stops) r = (stop_all stops r).1
run (unload stops unloads n) r = (unload_plugin stops unloads n r).1

abbrev pub run_all : List Command → PluginRegistry → PluginRegistry
run_all [] r = r
run_all (c ∷ cs) r = run_all cs (run c r)

-- Some command of a sequence loads the plugin, and making it and all the calls of it on loading go
-- well.
abbrev Initializes : Command → String → Type 0
Initializes (load w n) m = (n ≡ m) × Passes w
Initializes (load_every w) m = Passes (w m)
Initializes _ m = ⊥

abbrev pub GotThrough : List Command → String → Type 0
GotThrough [] m = ⊥
GotThrough (c ∷ cs) m = Initializes c m ⊎ GotThrough cs m

call_plugin-IsSound :
    (G : String → Type 0) (d : Dict String PluginMetadata) (returns : Bool) (h : Hook)
    (p : PluginState) (q : Option PluginState) (n : String) (r : PluginRegistry)
    → IsSound G d r
    → IsSound G d (call_plugin returns h p q n r).1
unfolding get_instance
call_plugin-IsSound G d returns h p q n r s = elim (Option-cases (lookup n r.instances)) [
  | inl gone ↦ rw (gone, call_plugin, get_instance) s
  | inr (o, found) ↦
      rw (found, call_plugin, get_instance)
        (go returns q (s.holds n o found) (note-IsSound G d n h r s))
]
  where
    go :
        (b : Bool) (e : Option PluginState)
        → G n × IsMet d n
        → IsSound G d (note n h r)
        → IsSound G d (after_call b p e n (note n h r)).1
    go true e (g, met) t = put_state-IsSound G d n p _ g met t
    go false none h t = t
    go false (some x) (g, met) t = put_state-IsSound G d n x _ g met t

start_plugin-IsSound :
    (G : String → Type 0) (d : Dict String PluginMetadata) (returns : Bool) (n : String)
    (r : PluginRegistry)
    → IsSound G d r
    → IsSound G d (start_plugin returns n r).1
unfolding start_plugin
start_plugin-IsSound G d returns n r s =
    call_plugin-IsSound G d returns on_start running (some error) n r s

start_each-IsSound :
    (G : String → Type 0) (d : Dict String PluginMetadata) (returns : String → Bool)
    (ns : List String) (r : PluginRegistry)
    → IsSound G d r
    → IsSound G d (start_each returns ns r).1
unfolding start_each
start_each-IsSound G d returns [] r s = s
start_each-IsSound G d returns (n ∷ ns) r s =
    start_each-IsSound G d returns ns _ (start_plugin-IsSound G d (returns n) n r s)

-- Every plugin of a list has `G` and its dependencies met.
abbrev AllMet : (String → Type 0) → Dict String PluginMetadata → List String → Type 0
AllMet G d [] = Unit
AllMet G d (n ∷ ns) = (G n × IsMet d n) × AllMet G d ns

Holds-AllMet :
    (G : String → Type 0) (d : Dict String PluginMetadata) (ps : Dict String PluginState)
    → IsDistinct ps
    → Holds G d ps
    → AllMet G d (map (λ p. p.0) ps)
Holds-AllMet G d [] new h = tt
Holds-AllMet G d ((n, p) ∷ ps) (new, rest) h = (
  h n p (ground (arith, string_eq.beq_iff n n)),
  Holds-AllMet G d ps rest (λ m q found. h m q (ground (arith, string_eq.beq_iff n m, new, found))),
)

stop_each-IsSound :
    (G : String → Type 0) (d : Dict String PluginMetadata) (stops : String → Bool)
    (ns : List String) (r : PluginRegistry)
    → AllMet G d ns
    → IsSound G d r
    → IsSound G d (stop_each stops ns r).1
unfolding stop_each
stop_each-IsSound G d stops [] r met s = s
stop_each-IsSound G d stops (n ∷ ns) r ((g, met), rest) s = elim (Bool-cases (stops n)) [
  | inl returns ↦ rw returns (
      let a = note-IsSound G d n on_stop r s in
      let b = put_state-IsSound G d n stopped _ g met a in stop_each-IsSound G d stops ns _ rest b)
  | inr raises ↦ rw raises (stop_each-IsSound G d stops ns _ rest (note-IsSound G d n on_stop r s))
]

erase-IsSound :
    (G : String → Type 0) (d : Dict String PluginMetadata) (n : String) (r : PluginRegistry)
    → IsSound G d r
    → IsSound G d (record r { instances = erase n r.instances; factories = erase n r.factories })
erase-IsSound G d n r s = record {
  same = s.same;
  distinct = erase-IsDistinct n r.instances s.distinct;
  holds = λ m q found. s.holds m q (
      let f : lookup m r.instances ≡ some q =
        ground (arith, lookup-erase n m r.instances s.distinct, found) in
      f);
}

finish_unload-IsSound :
    (G : String → Type 0) (d : Dict String PluginMetadata) (unloads : Bool) (n : String)
    (r : PluginRegistry)
    → IsSound G d r
    → IsSound G d (finish_unload unloads n r).1
finish_unload-IsSound G d true n r s = erase-IsSound G d n _ (note-IsSound G d n on_unload r s)
finish_unload-IsSound G d false n r s = note-IsSound G d n on_unload r s

unload_loaded-IsSound :
    (G : String → Type 0) (d : Dict String PluginMetadata) (active stops unloads : Bool)
    (n : String) (r : PluginRegistry)
    → IsSound G d r
    → IsSound G d (unload_loaded active stops unloads n r).1
unload_loaded-IsSound G d true false unloads n r s = note-IsSound G d n on_stop r s
unload_loaded-IsSound G d true true unloads n r s =
    finish_unload-IsSound G d unloads n _ (note-IsSound G d n on_stop r s)
unload_loaded-IsSound G d false stops unloads n r s = finish_unload-IsSound G d unloads n r s

unload_plugin-IsSound :
    (G : String → Type 0) (d : Dict String PluginMetadata) (stops unloads : Bool) (n : String)
    (r : PluginRegistry)
    → IsSound G d r
    → IsSound G d (unload_plugin stops unloads n r).1
unfolding unload_plugin
unload_plugin-IsSound G d stops unloads n r s = elim (Option-cases (get_instance n r)) [
  | inl gone ↦ rw (gone, unload_plugin) s
  | inr (p, found) ↦
      rw (found, unload_plugin) (unload_loaded-IsSound G d (is_active p) stops unloads n r s)
]

run-IsSound :
    (G : String → Type 0) (d : Dict String PluginMetadata) (c : Command) (r : PluginRegistry)
    → ((m : String) → Initializes c m → G m)
    → IsSound G d r
    → IsSound G d (run c r)
unfolding run
run-IsSound G d (load w n) r good s = load_plugin-IsSound G d w n r (λ p. good n (refl, p)) s
run-IsSound G d (load_every w) r good s = load_each-IsSound G d w (list_discovered r) r good s
run-IsSound G d (start b n) r good s = start_plugin-IsSound G d b n r s
run-IsSound G d (start_every b) r good s = start_each-IsSound G d b (list_loaded r) r s
run-IsSound G d (pause b n) r good s = call_plugin-IsSound G d b on_pause paused none n r s
run-IsSound G d (resume b n) r good s = call_plugin-IsSound G d b on_resume running none n r s
run-IsSound G d (stop b n) r good s = call_plugin-IsSound G d b on_stop stopped (some error) n r s
run-IsSound G d (stop_every b) r good s =
    stop_each-IsSound G d b _ r (Holds-AllMet G d r.instances s.distinct s.holds) s
run-IsSound G d (unload b u n) r good s = unload_plugin-IsSound G d b u n r s

-- From a registry that has no instance, whatever is discovered in it, after any sequence of loads,
-- starts, pauses, resumes, stops and unloads of any plugins, whichever calls of the plugins
-- return: the plugins that are discovered are the same, no plugin is registered twice, and for each one
-- that is registered some load of the sequence made it, and its `on_load`, its `validate`, with the
-- answer that it is valid, and its `on_init` returned; and none of its dependencies is unresolved
-- among the plugins that are discovered.
pub run_all-IsSound :
    (cs : List Command) (r : PluginRegistry)
    → r.instances ≡ []
    → IsSound (GotThrough cs) r.discovered_plugins (run_all cs r)
run_all-IsSound cs r e =
    go cs r (λ m h. h)
      (record {
        same = refl;
        distinct = subst IsDistinct (sym e) tt;
        holds =
            subst (Holds (GotThrough cs) r.discovered_plugins) (sym e)
              (λ n p found. ground (arith, found));
      })
  where
    go :
        (ds : List Command) (s : PluginRegistry)
        → ((m : String) → GotThrough ds m → GotThrough cs m)
        → IsSound (GotThrough cs) r.discovered_plugins s
        → IsSound (GotThrough cs) r.discovered_plugins (run_all ds s)
    go [] s good h = h
    go (c ∷ ds) s good h =
        go ds _ (λ m g. good m (inr g))
          (run-IsSound (GotThrough cs) r.discovered_plugins c s (λ m g. good m (inl g)) h)
