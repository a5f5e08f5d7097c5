-- ===== src/Helm/Tests/Watches.antt =====
-- The theorem on the watches file at a file with two watches.
use operator_sdk.Base.{String, Bool, true, Option, none, some, List, [], ◌∷◌, ◌≡◌, ◌↔◌, refl}
use operator_sdk.Errors.{Result, ok}
use operator_sdk.Helm.Watches.{Watch, Env, load_reader}
use operator_sdk.Helm.Watches.Loaded.{Loaded, load_reader-ok_iff}

abbrev env : Env String
env = record {
  expand_env = λ s. s;
  parse = λ k s. ok s;
  execute = λ t. ok t;
  chart_dir_error = λ d. none;
}

abbrev watch_of : String → Option Bool → Watch
watch_of kind dependents = record {
  gvk = record { group = "example.com"; version = "v1"; kind = kind };
  chart_dir = "charts";
  watch_dependent_resources = dependents;
  override_values = some (("image", "nginx") ∷ []);
  selector = "";
  reconcile_period = "";
  dry_run_option = "";
}

abbrev decode : String → Result (List Watch)
decode b = ok (watch_of "Web" none ∷ watch_of "Cache" (some true) ∷ [])

abbrev loaded : List Watch
loaded = watch_of "Web" (some true) ∷ watch_of "Cache" (some true) ∷ []

load_reader-ok_iff_example : (load_reader env (ok "watches") decode ≡ ok loaded) ↔ (
    (b : String) × (ws : List Watch) × (◌≡◌ {A = Result String} (ok "watches") (ok b))
    × (decode b ≡ ok ws)
    × Loaded env [] ws loaded)
load_reader-ok_iff_example = load_reader-ok_iff env (ok "watches") decode loaded

-- The two watches load.
two_watches : load_reader env (ok "watches") decode ≡ ok loaded
unfolding load_reader
two_watches = refl
