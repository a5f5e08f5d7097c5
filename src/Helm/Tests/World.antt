-- ===== src/Helm/Tests/World.antt =====
-- A reconciler whose cluster takes every write, with finalizers as a list of names.
use operator_sdk.Base.{
  String, true, false, not, none, some, List, [], ◌∷◌, ◌≡◌, ◌==◌, ==_iff, filter, contains,
  if◌then◌else◌, arith,
}
use operator_sdk.Errors.{ok, err, upgrade_failed}
use operator_sdk.Helm.Status.{HelmAppStatus, absent}
use operator_sdk.Helm.Release.{Release, Manager}
use operator_sdk.Helm.Reconcile.Annotations.{CustomResource, pos, uninstall_finalizer}
use operator_sdk.Helm.Reconcile.Env.{Env, IsControllerutil}

abbrev pub nginx : Release
nginx = record {
  name = "nginx";
  version = 1;
  manifest = "kind: Pod";
  info = some (record { status = "deployed"; notes = "enjoy" });
  chart_name = some "nginx";
}

-- A manager whose calls all succeed.
abbrev pub manager : Manager
manager = record {
  sync = none;
  is_installed = true;
  is_upgrade_required = false;
  install_release = ok nginx;
  upgrade_release = λ force. err upgrade_failed;
  roll_back = λ force. none;
  reconcile_release = ok nginx;
  uninstall_release = none;
  cleanup_release = λ m. ok true;
}

abbrev pub resource : CustomResource Unit
resource = record {
  namespace = "default";
  name = "nginx";
  annotations = ("helm.sdk.operatorframework.io/uninstall-wait", "true") ∷ [];
  finalizers = uninstall_finalizer ∷ [];
  deletion_timestamp = none;
  status = absent;
}

-- The status of a release that was just reconciled.
abbrev pub settled : HelmAppStatus
settled = record {
  conditions =
      record {
        type = "Initialized";
        status = "True";
        reason = "";
        message = "";
        last_transition_time = 3;
      }
      ∷ record {
        type = "Deployed";
        status = "True";
        reason = "InstallSuccessful";
        message = "enjoy";
        last_transition_time = 4;
      }
      ∷ [];
  deployed_release = some (record { name = "nginx"; manifest = "kind: Pod" });
}

abbrev pub world : Env Unit
world = record {
  get = ok resource;
  new_manager = λ o. ok manager;
  update = λ o. none;
  update_status = λ s. none;
  wait_for_deletion = none;
  release_hook = none;
  convert = λ r. none;
  parse_duration = λ s. ok (pos 60);
  now = λ k. k;
  contains_finalizer = λ o f. contains o.finalizers f;
  add_finalizer =
      λ o f. if contains o.finalizers f then o else record o { finalizers = f ∷ o.finalizers };
  remove_finalizer = λ o f. record o { finalizers = filter (λ g. not (g == f)) o.finalizers };
  reconcile_period = pos 60;
  override_values = [];
  suppress_override_values = false;
}

contains-filter :
    (fs : List String) (f g : String)
    → contains (filter (λ x. not (x == f)) fs) g ≡ (if f == g then false else contains fs g)
contains-filter [] f g = ground arith
contains-filter (x ∷ fs) f g =
    ground (arith, contains-filter fs f g, ==_iff x f, ==_iff f g, ==_iff x g)

pub world-IsControllerutil : IsControllerutil world
world-IsControllerutil = record {
  contains-add = λ o f g. ground (arith, ==_iff f g);
  contains-remove = λ o f g. contains-filter o.finalizers f g;
}
