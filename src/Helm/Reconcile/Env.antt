-- ===== src/Helm/Reconcile/Env.antt =====
-- What a reconciliation calls, the calls that it makes in order, and how it ends.
use operator_sdk.Base.{
  ℕ, String, Bool, true, false, Option, some, List, [], ◌∷◌, ◌++◌, ◌≡◌, ◌==◌, if◌then◌else◌,
}
use operator_sdk.Errors.{Error, Result}
use operator_sdk.Helm.Status.{HelmAppStatus}
use operator_sdk.Helm.Release.{Release, Manager}
use operator_sdk.Helm.Reconcile.Annotations.{CustomResource, Duration, pos}

-- `HelmOperatorReconciler` with what it is connected to. A field that is a function is a call of
-- the API server, of the clock or of a library, and answers for this reconciliation:
-- `update` and `update_status` are the whole retry loops of `updateResource` and
-- `updateResourceStatus`, and `now k` is the clock's reading for the k-th condition.
pub record Env (Raw : Type 0) : Type 0 where
  pub get : Result (CustomResource Raw)
  pub new_manager : CustomResource Raw → Result Manager
  pub update : CustomResource Raw → Option Error
  pub update_status : HelmAppStatus → Option Error
  pub wait_for_deletion : Option Error
  pub release_hook : Option (Release → Option Error)
  pub convert : Raw → Option HelmAppStatus
  pub parse_duration : String → Result Duration
  pub now : ℕ → ℕ
  pub contains_finalizer : CustomResource Raw → String → Bool
  pub add_finalizer : CustomResource Raw → String → CustomResource Raw
  pub remove_finalizer : CustomResource Raw → String → CustomResource Raw
  pub reconcile_period : Duration
  pub override_values : List (String × String)
  pub suppress_override_values : Bool

-- The documented behaviour of controllerutil's functions on finalizers.
pub record IsControllerutil {Raw : Type 0} (E : Env Raw) : Type 0 where
  pub contains-add :
      (o : CustomResource Raw) (f g : String)
      → E.contains_finalizer (E.add_finalizer o f) g
        ≡ (if f == g then true else E.contains_finalizer o g)
  pub contains-remove :
      (o : CustomResource Raw) (f g : String)
      → E.contains_finalizer (E.remove_finalizer o f) g
        ≡ (if f == g then false else E.contains_finalizer o g)

-- The calls with an effect outside the reconciler. A resource that is written is shown with the
-- status that it was read with.
pub data Call (Raw : Type 0) : Type 0 where
  event : String → String → Call Raw
  sync : Call Raw
  install : Call Raw
  upgrade : Bool → Call Raw
  roll_back : Bool → Call Raw
  reconcile_release : Call Raw
  uninstall : Call Raw
  cleanup : String → Call Raw
  run_hook : Release → Call Raw
  update : CustomResource Raw → Call Raw
  update_status : HelmAppStatus → Call Raw
  wait_for_deletion : Call Raw

-- The calls made, and the pair that `Reconcile` returns.
pub record Outcome (Raw : Type 0) : Type 0 where
  pub calls : List (Call Raw)
  pub requeue_after : Duration
  pub error : Option Error

module _ {Raw : Type 0} where
  -- `return result, err`
  abbrev pub return : Duration → Option Error → Outcome Raw
  return period e = record { calls = []; requeue_after = period; error = e }

  -- `return reconcile.Result{}, err`
  abbrev pub fail : Error → Outcome Raw
  fail e = return (pos 0) (some e)

  -- A call, and what happens after it.
  abbrev pub after : Call Raw → Outcome Raw → Outcome Raw
  after c o = record o { calls = c ∷ o.calls }

  abbrev pub after_all : List (Call Raw) → Outcome Raw → Outcome Raw
  after_all cs o = record o { calls = cs ++ o.calls }
