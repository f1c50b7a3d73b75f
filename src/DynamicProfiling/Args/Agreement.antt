-- ===== src/DynamicProfiling/Args/Agreement.antt =====
-- Where `get_enabled_profiler_types` and `_apply_profiler_configs` of
-- gprofiler/dynamic_profiling_management/__init__.py read one configuration differently.
use gprofiler.Prelude.{
  String, ◌≡◌, refl, ◌∙◌, inl, inr, Bool, true, false, not, ◌||◌, ◌&&◌, some, List, [], ◌∷◌, ◌==◌,
  arith,
}
use gprofiler.Prelude.Tests.{if◌then◌else◌, Bool-cases}
use gprofiler.Prelude.Lists.{contains}
use gprofiler.Prelude.Dict.{lookup, lookup-insert}
use gprofiler.Prelude.Python.{add, contains-add}
use gprofiler.DynamicProfiling.Json.{Json, null, str, obj, Fields, get, is_text, is_false}
use gprofiler.DynamicProfiling.ProfilerTypes.{
  profiler_type_map, config_enables, enables, enabled_loop,
}
use gprofiler.DynamicProfiling.Args.{switch_off, apply_others}
use gprofiler.DynamicProfiling.Args.Perf.{Namespace}

-- Is a profiler named by a key that leaves it enabled?
unfoldable enabled_by : List (String × String) → Fields → String → Bool
enabled_by [] configs name = false
enabled_by ((key, n) ∷ more) configs name =
    (enables key configs && name == n) || enabled_by more configs name

contains-enabled_loop :
    (keys : List (String × String)) (configs : Fields) (acc : List String) (name : String)
    → contains name (enabled_loop keys configs acc)
      ≡ (contains name acc || enabled_by keys configs name)
unfolding enabled_loop enabled_by
contains-enabled_loop [] configs acc name = ground arith
contains-enabled_loop ((key, n) ∷ more) configs acc name = elim (Bool-cases (enables key configs)) [
  | inl on ↦
      simp on (
        ground
          (arith, contains-enabled_loop more configs (add n acc) name, contains-add n name acc))
  | inr off ↦ simp off (contains-enabled_loop more configs acc name)
]

-- The profilers other than perf, Java and Python: the key, the name, the mode and its value when off.
pub data Other : String → String → String → String → Type 0 where
  php : Other "phpspy" "php" "php_mode" "disabled"
  ruby : Other "rbspy" "ruby" "ruby_mode" "disabled"
  dotnet : Other "dotnet_trace" "dotnet" "dotnet_mode" "disabled"
  nodejs : Other "nodejs_perf" "nodejs" "nodejs_mode" "none"

enabled_by_one :
    {key name mode off : String} (o : Other key name mode off) (configs : Fields)
    → enabled_by profiler_type_map configs name ≡ enables key configs
unfolding enabled_by
enabled_by_one php configs = ground arith
enabled_by_one ruby configs = ground arith
enabled_by_one dotnet configs = ground arith
enabled_by_one nodejs configs = ground arith

listed :
    {key name mode off : String} (o : Other key name mode off) (configs : Fields)
    → contains name (enabled_loop profiler_type_map configs []) ≡ enables key configs
unfolding contains
listed {name} o configs =
    contains-enabled_loop profiler_type_map configs [] name ∙ enabled_by_one o configs

lookup-switch_off :
    (key mode off m : String) (configs : Fields) (args : Namespace)
    → lookup m (switch_off key mode off configs args) ≡ (
        if mode == m && is_text "disabled" (get key null configs)
        then some (str off)
        else lookup m args)
unfolding switch_off
lookup-switch_off key mode off m configs args =
    elim (Bool-cases (is_text "disabled" (get key null configs))) [
      | inl off' ↦ simp off' (ground (arith, lookup-insert mode m (str off) args))
      | inr on ↦ simp on (ground arith)
    ]

others_mode :
    {key name mode off : String} (o : Other key name mode off) (configs : Fields) (args : Namespace)
    → lookup mode (apply_others configs args)
      ≡ (if is_text "disabled" (get key null configs) then some (str off) else lookup mode args)
unfolding apply_others
others_mode php configs args = simp (lookup-switch_off)
others_mode ruby configs args = simp (lookup-switch_off)
others_mode dotnet configs args = simp (lookup-switch_off)
others_mode nodejs configs args = simp (lookup-switch_off)

abbrev pub is_dict : Json → Bool
is_dict (obj d) = true
is_dict v = false

enables_no_dict : (v : Json) → is_dict v ≡ false → config_enables v ≡ not (is_text "disabled" v)
unfolding config_enables
enables_no_dict (obj d) h = cc
enables_no_dict (str s) h = ground arith
enables_no_dict v h = refl

enables-get :
    (key : String) (configs : Fields) → enables key configs ≡ config_enables (get key null configs)
unfolding enables
enables-get key configs = refl

enables_dict :
    (d : Fields)
    → is_false (get "enabled" null d) || is_text "disabled" (get "mode" null d) ≡ true
    → config_enables (obj d) ≡ false
unfolding config_enables
enables_dict d off = simp off refl

-- For PHP, Ruby, .NET and Node.js, and a key whose value is no dict: the mode becomes the value
-- for off exactly where the profiler is not among the enabled types, and is unchanged elsewhere.
text_modes_agree :
    {key name mode off : String} (o : Other key name mode off) (configs : Fields) (args : Namespace)
    → is_dict (get key null configs) ≡ false
    → lookup mode (apply_others configs args) ≡ (
        if contains name (enabled_loop profiler_type_map configs [])
        then lookup mode args
        else some (str off))
text_modes_agree {key} {name} o configs args h =
    let on : enables key configs ≡ not (is_text "disabled" (get key null configs)) =
      enables-get key configs ∙ enables_no_dict (get key null configs) h in
    simp (others_mode o configs args, listed o configs, on) (ground arith)

-- For the same profilers, a dict that disables one takes it out of the enabled types,
-- and leaves its mode as it was.
dict_mode_ignored :
    {key name mode off : String} (o : Other key name mode off) (configs d : Fields)
    (args : Namespace)
    → get key null configs ≡ obj d
    → is_false (get "enabled" null d) || is_text "disabled" (get "mode" null d) ≡ true
    → (contains name (enabled_loop profiler_type_map configs []) ≡ false)
      × (lookup mode (apply_others configs args) ≡ lookup mode args)
dict_mode_ignored {key} {name} o configs d args h off =
    let off' : enables key configs ≡ false =
      enables-get key configs ∙ simp h (enables_dict d off) in
    (listed o configs ∙ off', simp (others_mode o configs args, h))
