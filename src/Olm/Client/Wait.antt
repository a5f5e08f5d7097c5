-- ===== src/Olm/Client/Wait.antt =====
-- client.go: DoCSVWait, and the report on deployments and pods when it times out.
use operator_sdk.Base.{
  ℕ, String, Bool, not, ◌&&◌, ◌<>◌, Option, none, some, List, [], ◌∷◌, ◌++◌, ◌==◌, if◌then◌else◌,
}
use operator_sdk.Errors.{
  Error, failure, message, is_not_found, is_deadline_exceeded, Result, ok, err,
}
use operator_sdk.Olm.Client.{Attempt, done, again, stop, Poller}

-- A CSV, as far as it is read: `deployment_specs` are the names of the deployments of its
-- install strategy.
pub record WaitedCsv : Type 0 where
  pub phase : String
  pub reason : String
  pub message : String
  pub deployment_specs : List String

-- `csvPhaseSucceeded`, on the answer to `Get`. The phase that it keeps is the one just read.
unfoldable pub csv_phase_succeeded : Result WaitedCsv → Attempt
csv_phase_succeeded (err e) = if is_not_found e then again else stop e
csv_phase_succeeded (ok c) =
    if c.phase == "Failed"
    then stop (failure ("csv failed: reason: " <> c.reason <> ", message: " <> c.message))
    else if c.phase == "Succeeded"
    then done
    else again

-- `podError`
pub record PodError : Type 0 where
  pub name : String
  pub issue : String

-- `deploymentError`
pub record DeploymentError : Type 0 where
  pub name : String
  pub issue : String
  pub pod_errs : List PodError

-- A container's status: its message if it waits.
pub record ContainerStatus : Type 0 where
  pub name : String
  pub ready : Bool
  pub waiting : Option String

pub record Pod : Type 0 where
  pub name : String
  pub container_statuses : List ContainerStatus

-- A condition of a deployment.
pub record DeploymentCondition : Type 0 where
  pub type : String
  pub status : String
  pub reason : String

-- The errors of `podErrors` and of `deploymentErrors` as texts.
unfoldable pub pod_errors_text : List PodError → String
pod_errors_text [] = ""
pod_errors_text (p ∷ ps) =
    "\tpod " <> p.name <> " has error: " <> p.issue <> "\n" <> pod_errors_text ps

unfoldable pub deployment_errors_text : List DeploymentError → String
unfolding pod_errors_text
deployment_errors_text [] = ""
deployment_errors_text (d ∷ ds) =
    "deployment "
    <> d.name
    <> " has error: "
    <> d.issue
    <> "\n"
    <> pod_errors_text d.pod_errs
    <> deployment_errors_text ds

-- The loops of `checkPodErrors`.
unfoldable pub container_errors : String → List ContainerStatus → List PodError
container_errors pod [] = []
container_errors pod (c ∷ cs) =
    let rest = container_errors pod cs in
    if c.ready then rest else elim c.waiting [
      | none ↦ rest
      | some m ↦ record { name = pod <> ":" <> c.name; issue = m } ∷ rest
    ]

unfoldable pub pod_errors : List Pod → List PodError
unfolding container_errors
pod_errors [] = []
pod_errors (p ∷ ps) = container_errors p.name p.container_statuses ++ pod_errors ps

-- The cluster as `checkDeploymentErrors` asks it, by the name of a deployment: its conditions,
-- the error of the conversion of its selector, and the pods of the selector.
pub record Workloads : Type 0 where
  pub conditions : String → Result (List DeploymentCondition)
  pub selector : String → Option Error
  pub pods : String → Result (List Pod)

-- The error that `DoCSVWait` returns: a plain one, or a value of type `deploymentErrors`, which is
-- an error also where it is empty.
pub data WaitError : Type 0 where
  plain : Error → WaitError
  deployments : List DeploymentError → WaitError

-- `err.Error()`
unfoldable pub wait_error_text : WaitError → String
wait_error_text (plain e) = message e
wait_error_text (deployments ds) = deployment_errors_text ds

-- `s.Type == appsv1.DeploymentAvailable && s.Status != corev1.ConditionTrue`
unfoldable pub is_unavailable : DeploymentCondition → Bool
is_unavailable s = s.type == "Available" && not (s.status == "True")

module _ (W : Workloads) where
  -- `checkPodErrors`; the type `podErrors` is `ok`, any other error `err`.
  unfoldable pub check_pod_errors : String → Result (List PodError)
  check_pod_errors name = elim (W.selector name) [
    | some e ↦ err e
    | none ↦ elim (W.pods name) [
      | err e ↦ err (failure ("error getting Pods: " <> message e))
      | ok ps ↦ ok (pod_errors ps)
    ]
  ]

  -- The loop over the conditions of a deployment.
  unfoldable pub check_conditions :
      String → List DeploymentCondition → Result (List DeploymentError)
  check_conditions name [] = ok []
  check_conditions name (s ∷ ss) =
      let rest = check_conditions name ss in
      if is_unavailable s
      then elim (check_pod_errors name) [
        | err e ↦ err e
        | ok ps ↦ elim rest [
          | err e ↦ err e
          | ok ds ↦ ok (record { name = name; issue = s.reason; pod_errs = ps } ∷ ds)
        ]
      ]
      else rest

  -- The body of the loop over the deployments.
  unfoldable pub check_deployment : String → Result (List DeploymentError)
  unfolding check_conditions
  check_deployment name = elim (W.conditions name) [
    | err e ↦ ok (record { name = name; issue = message e; pod_errs = [] } ∷ [])
    | ok ss ↦ check_conditions name ss
  ]

  unfoldable pub check_deployments : List String → Result (List DeploymentError)
  unfolding check_deployment
  check_deployments [] = ok []
  check_deployments (n ∷ ns) =
      let rest = check_deployments ns in
      elim (check_deployment n) [
        | err e ↦ err e
        | ok ds ↦ elim rest [ err e ↦ err e | ok es ↦ ok (ds ++ es) ]
      ]

  -- `checkDeploymentErrors`, which never returns nil.
  unfoldable pub check_deployment_errors : String → List String → WaitError
  check_deployment_errors namespace specs =
      if namespace == ""
      then plain (failure "no namespace provided to get deployment failures")
      else elim (check_deployments specs) [ err e ↦ plain e | ok ds ↦ deployments ds ]

  -- `DoCSVWait`; `csv` is the CSV as the last successful read left it.
  unfoldable pub do_csv_wait :
      Poller → String → (ℕ → Result WaitedCsv) → WaitedCsv → Option WaitError
  do_csv_wait P namespace get csv = elim (P.poll (λ k. csv_phase_succeeded (get k))) [
    | none ↦ none
    | some e ↦
        if is_deadline_exceeded e
        then some (check_deployment_errors namespace csv.deployment_specs)
        else some (plain e)
  ]
