-- ===== src/Helm/Watches.antt =====
-- internal/helm/watches/watches.go: the watches file of the Helm operator.
pub mod Loaded
use operator_sdk.Base.{
  String, Bool, true, false, ◌&&◌, ◌<>◌, Option, none, some, List, [], ◌∷◌, ◌==◌, any,
  if◌then◌else◌,
}
use operator_sdk.Errors.{Error, failure, wrap, message, Result, ok, err}

pub record Gvk : Type 0 where
  pub group : String
  pub version : String
  pub kind : String

unfoldable pub same_gvk : Gvk → Gvk → Bool
same_gvk a b = (a.group == b.group) && ((a.version == b.version) && (a.kind == b.kind))

-- The selector, the period and the option for dry runs are passed on as their texts. A map is the
-- list of its entries in the order in which they are visited.
pub record Watch : Type 0 where
  pub gvk : Gvk
  pub chart_dir : String
  pub watch_dependent_resources : Option Bool
  pub override_values : Option (List (String × String))
  pub selector : String
  pub reconcile_period : String
  pub dry_run_option : String

-- `os.ExpandEnv`, the templates with sprig's functions, and `chartutil.IsChartDir`.
pub record Env (Template : Type 0) : Type 0 where
  pub expand_env : String → String
  pub parse : String → String → Result Template
  pub execute : Template → Result String
  pub chart_dir_error : String → Option Error

unfoldable pub verify_gvk : Gvk → Option Error
verify_gvk gvk =
    if gvk.version == ""
    then some (failure "version must not be empty")
    else if gvk.kind == ""
    then some (failure "kind must not be empty")
    else none

module _ {Template : Type 0} (E : Env Template) where
  -- The value of a key.
  unfoldable pub expand_value : String → String → Result String
  expand_value k v =
      let expanded = E.expand_env v in
      elim (E.parse k expanded) [
        | err e ↦ err (failure ("invalid template string " <> expanded <> ": " <> message e))
        | ok t ↦ elim (E.execute t) [
          | err e ↦ err (failure ("failed to execute template " <> expanded <> ": " <> message e))
          | ok s ↦ ok s
        ]
      ]

  unfoldable pub expand_entries : List (String × String) → Result (List (String × String))
  unfolding expand_value
  expand_entries [] = ok []
  expand_entries ((k, v) ∷ kvs) =
      let rest = expand_entries kvs in
      elim (expand_value k v) [
        | err e ↦ err e
        | ok s ↦ elim rest [ err e ↦ err e | ok out ↦ ok ((k, s) ∷ out) ]
      ]

  unfoldable pub expand_override_values :
      Option (List (String × String)) → Result (Option (List (String × String)))
  unfolding expand_entries
  expand_override_values none = ok none
  expand_override_values (some kvs) = elim (expand_entries kvs) [
    | err e ↦ err e
    | ok out ↦ ok (some out)
  ]

  -- The checks of a watch, against the kinds that were seen.
  unfoldable pub watch_error : List Gvk → Watch → Option Error
  unfolding verify_gvk same_gvk
  watch_error seen w = elim (verify_gvk w.gvk) [
    | some e ↦ some (wrap "invalid GVK" e)
    | none ↦ elim (E.chart_dir_error w.chart_dir) [
      | some e ↦ some (wrap "invalid chart directory" e)
      | none ↦ if any (same_gvk w.gvk) seen then some (failure "duplicate GVK") else none
    ]
  ]

  -- The body of the loop of `LoadReader`.
  unfoldable pub load_watch : List Gvk → Watch → Result Watch
  unfolding watch_error expand_override_values
  load_watch seen w = elim (watch_error seen w) [
    | some e ↦ err e
    | none ↦ elim (expand_override_values w.override_values) [
      | err e ↦ err (failure ("failed to expand override values: " <> message e))
      | ok values ↦ ok (record w {
        watch_dependent_resources = elim w.watch_dependent_resources [
          | none ↦ some true
          | some b ↦ some b
        ];
        override_values = values;
      })
    ]
  ]

  unfoldable pub load_watches : List Gvk → List Watch → Result (List Watch)
  unfolding load_watch
  load_watches seen [] = ok []
  load_watches seen (w ∷ ws) =
      let rest = load_watches (w.gvk ∷ seen) ws in
      elim (load_watch seen w) [
        | err e ↦ err e
        | ok v ↦ elim rest [ err e ↦ err e | ok vs ↦ ok (v ∷ vs) ]
      ]

  -- `LoadReader`, on the bytes that were read, or the error, and the decoder of YAML.
  unfoldable pub load_reader : Result String → (String → Result (List Watch)) → Result (List Watch)
  unfolding load_watches
  load_reader (err e) unmarshal = err e
  load_reader (ok b) unmarshal = elim (unmarshal b) [ err e ↦ err e | ok ws ↦ load_watches [] ws ]

  -- `Load`: an error of `Close` replaces the result.
  unfoldable pub load :
      Option Error
      → Option Error
      → Result String
      → (String → Result (List Watch))
      → Result (List Watch)
  unfolding load_reader
  load (some e) close read unmarshal = err (wrap "could not open watches file" e)
  load none (some e) read unmarshal = err (wrap "could not close watches file" e)
  load none none read unmarshal = load_reader read unmarshal
