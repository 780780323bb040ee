-- ===== src/Plugins/Loader/Reachable.antt =====
-- What the plugins in the registry have in common after any calls of the loader
-- (src/plugins/loader.py).
use algo_engine.Prelude.{
  ◌≡◌, ◌∙◌, sym, ap, subst, Bool, true, false, some, List, [], ◌∷◌, String, arith, Bool-cases,
  Option-cases, inl, inr,
}
use algo_engine.Prelude.Eq.{◌=?◌, string_eq}
use algo_engine.Prelude.Dict.{Dict, lookup, contains, lookup-insert, IsDistinct, insert-IsDistinct}
use algo_engine.Plugins.Registry.{
  PluginState, loaded, validated, initialized, PluginMetadata, Hook, on_load, validate, on_init,
  PluginRegistry, register_instance, set_error, get_metadata, note, put_state, Unresolved,
}
use algo_engine.Plugins.Loader.{
  mark, unresolved_among, Loading, check_dependencies, initialize_plugin, load_resolved,
  load_plugin, load_each,
}

-- Making the plugin and all the calls on loading it went well.
abbrev pub Passes : Loading → Type 0
Passes w = (w.made ≡ true) × (w.loads ≡ true) × (w.validates ≡ some true) × (w.initializes ≡ true)

-- No dependency of a plugin is unresolved among the plugins `d`.
abbrev pub IsMet : Dict String PluginMetadata → String → Type 0
IsMet known n = unresolved_among n known ≡ []

-- Every plugin of the dictionary has `G`, and has its dependencies met.
abbrev pub Holds : (String → Type 0) → Dict String PluginMetadata → Dict String PluginState → Type 0
Holds G d ps = (n : String) (p : PluginState) → lookup n ps ≡ some p → G n × IsMet d n

-- The discovered plugins are `d`, and every plugin that is loaded has `G` and has its dependencies
-- among them.
pub record IsSound (G : String → Type 0) (d : Dict String PluginMetadata) (r : PluginRegistry)
    : Type 0 where
  pub same : r.discovered_plugins ≡ d
  pub distinct : IsDistinct r.instances
  pub holds : Holds G d r.instances

pub note-IsSound :
    (G : String → Type 0) (d : Dict String PluginMetadata) (n : String) (h : Hook)
    (r : PluginRegistry)
    → IsSound G d r
    → IsSound G d (note n h r)
note-IsSound G d n h r s = record { same = s.same; distinct = s.distinct; holds = s.holds }

pub put_state-IsSound :
    (G : String → Type 0) (d : Dict String PluginMetadata) (n : String) (p : PluginState)
    (r : PluginRegistry)
    → G n
    → IsMet d n
    → IsSound G d r
    → IsSound G d (put_state n p r)
put_state-IsSound G d n p r ok met s = record {
  same = s.same;
  distinct = insert-IsDistinct n p r.instances s.distinct;
  holds = λ m q found. elim (Bool-cases (n =? m)) [
    | inl same ↦
        let e : p ≡ q = ground (arith, lookup-insert n m p r.instances) in
        (
          subst G ((string_eq.beq_iff n m).0 same) ok,
          subst (IsMet d) ((string_eq.beq_iff n m).0 same) met,
        )
    | inr other ↦ s.holds m q (
        let f : lookup m r.instances ≡ some q = ground (arith, lookup-insert n m p r.instances) in
        f)
  ];
}

register_instance-IsSound :
    (G : String → Type 0) (d : Dict String PluginMetadata) (n : String) (p : PluginState)
    (r : PluginRegistry)
    → G n
    → IsMet d n
    → IsSound G d r
    → IsSound G d (register_instance n p r)
unfolding register_instance
register_instance-IsSound G d n p r ok met s = put_state-IsSound G d n p r ok met s

mark-IsSound :
    (G : String → Type 0) (d : Dict String PluginMetadata) (again : Bool) (n : String)
    (p : PluginState) (r : PluginRegistry)
    → IsSound G d r
    → IsSound G d (mark again n p r)
mark-IsSound G d false n p r s = s
mark-IsSound G d true n p r s = elim (Option-cases (lookup n r.instances)) [
  | inl gone ↦ rw (gone, mark, contains) s
  | inr (q, found) ↦
      rw (found, mark, contains)
        (put_state-IsSound G d n p r (s.holds n q found).0 (s.holds n q found).1 s)
]

initialize_plugin-IsSound :
    (G : String → Type 0) (d : Dict String PluginMetadata) (w : Loading) (n : String)
    (r : PluginRegistry)
    → (Passes w → G n)
    → w.made ≡ true
    → IsMet d n
    → IsSound G d r
    → IsSound G d (initialize_plugin w n r).1
unfolding initialize_plugin
initialize_plugin-IsSound G d w n r good made met s =
    let a = note-IsSound G d n on_load _ (mark-IsSound G d w.again n loaded r s) in
    let b = note-IsSound G d n validate _ (mark-IsSound G d w.again n validated _ a) in
    let c = note-IsSound G d n on_init _ (mark-IsSound G d w.again n initialized _ b) in
    elim (Bool-cases w.loads) [
      | inr fails ↦ rw (fails, initialize_plugin) a
      | inl loads ↦ elim (Option-cases w.validates) [
        | inl raises ↦ rw (loads, raises, initialize_plugin) b
        | inr (v, answers) ↦ elim (Bool-cases v) [
          | inr invalid ↦ rw (loads, answers, invalid, initialize_plugin) b
          | inl valid ↦ elim (Bool-cases w.initializes) [
            | inr stuck ↦ rw (loads, answers, valid, stuck, initialize_plugin) c
            | inl done ↦
                rw (loads, answers, valid, done, initialize_plugin)
                  (register_instance-IsSound G d n initialized _
                    (good (made, loads, answers ∙ ap some valid, done)) met c)
          ]
        ]
      ]
    ]

load_resolved-IsSound :
    (G : String → Type 0) (d : Dict String PluginMetadata) (w : Loading) (n : String)
    (us : List Unresolved) (r : PluginRegistry)
    → us ≡ unresolved_among n d
    → (Passes w → G n)
    → IsSound G d r
    → IsSound G d (load_resolved w n us r).1
unfolding set_error initialize_plugin
load_resolved-IsSound G d w n [] r e good s = elim (Bool-cases w.made) [
  | inl makes ↦ rw makes (initialize_plugin-IsSound G d w n r good makes (sym e) s)
  | inr fails ↦ rw fails s
]
load_resolved-IsSound G d w n (u ∷ us) r e good s = record {
  same = s.same;
  distinct = s.distinct;
  holds = s.holds;
}

pub load_plugin-IsSound :
    (G : String → Type 0) (d : Dict String PluginMetadata) (w : Loading) (n : String)
    (r : PluginRegistry)
    → (Passes w → G n)
    → IsSound G d r
    → IsSound G d (load_plugin w n r).1
unfolding load_plugin check_dependencies
load_plugin-IsSound G d w n r good s = elim (Option-cases (get_metadata n r)) [
  | inl gone ↦ rw (gone, load_plugin) s
  | inr (m, known) ↦
      rw (known, load_plugin)
        (load_resolved-IsSound G d w n _ r (ap (unresolved_among n) s.same) good s)
]

pub load_each-IsSound :
    (G : String → Type 0) (d : Dict String PluginMetadata) (w : String → Loading)
    (ms : List PluginMetadata) (r : PluginRegistry)
    → ((n : String) → Passes (w n) → G n)
    → IsSound G d r
    → IsSound G d (load_each w ms r).1
unfolding load_each
load_each-IsSound G d w [] r good s = s
load_each-IsSound G d w (m ∷ ms) r good s =
    load_each-IsSound G d w ms _ good (load_plugin-IsSound G d (w m.name) m.name r (good m.name) s)
