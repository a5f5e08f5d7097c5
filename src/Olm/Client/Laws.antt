-- ===== src/Olm/Client/Laws.antt =====
-- client.go: the cluster when one of the waits ends.
use operator_sdk.Base.{
  ℕ, ◌<◌, ◌≤◌, String, true, false, Option, none, some, List, [], ◌∷◌, ◌≡◌, ◌⊎◌, refl, ◌==◌, ==_iff,
  any, All, arith, inl, inr,
}
use operator_sdk.Errors.{
  Error, deadline_exceeded, is_not_found, is_already_exists, is_deadline_exceeded, Result, ok, err,
}
use operator_sdk.Olm.Client.{
  done, again, Poller, IsPoller, create_attempt, deleted_attempt, refused, safe_create_one_resource,
  do_create, delete_one, do_delete, Deployment, timed_out, rollout_attempt, rollout_complete,
  do_rollout_wait,
}
use operator_sdk.Olm.Client.Wait.{
  WaitedCsv, csv_phase_succeeded, DeploymentCondition, Workloads, deployments, wait_error_text,
  deployment_errors_text, is_unavailable, check_conditions, check_deployment, check_deployments,
  check_deployment_errors, do_csv_wait,
}

-- The deployment has been rolled out: its spec was observed, all replicas are updated and
-- available, none is left of an older version, and its progress did not time out.
pub record IsRolledOut (d : Deployment) : Type 0 where
  pub observed : d.generation ≤ d.observed_generation
  pub in_time : timed_out d ≡ false
  pub updated : (n : ℕ) → d.spec_replicas ≡ some n → n ≤ d.updated_replicas
  pub no_old : d.replicas ≤ d.updated_replicas
  pub available : d.updated_replicas ≤ d.available_replicas

rollout_attempt-done : (d : Deployment) → rollout_attempt d ≡ done → IsRolledOut d
unfolding rollout_attempt
rollout_attempt-done d h = record {
  observed = ground (arith, h);
  in_time = ground (arith, h);
  updated = λ n e. ground (arith, h, e);
  no_old = ground (arith, h);
  available = ground (arith, h);
}

rollout_complete-done :
    (r : Result Deployment)
    → rollout_complete r ≡ done
    → (d : Deployment) × (r ≡ ok d) × IsRolledOut d
unfolding rollout_complete
rollout_complete-done (err e) h = absurd (ground (arith, h))
rollout_complete-done (ok d) h = (d, refl, rollout_attempt-done d h)

-- The object was created at the attempt, or was there.
abbrev pub IsCreated : Option Error → Type 0
IsCreated answer =
    (answer ≡ none) ⊎ ((e : Error) × (answer ≡ some e) × (is_already_exists e ≡ true))

create_attempt-done : (answer : Option Error) → create_attempt answer ≡ done → IsCreated answer
unfolding create_attempt
create_attempt-done none h = inl refl
create_attempt-done (some e) h = inr (e, refl, ground (arith, h))

-- The object was not found.
abbrev pub IsAbsent : Option Error → Type 0
IsAbsent answer = (e : Error) × (answer ≡ some e) × (is_not_found e ≡ true)

deleted_attempt-done : (answer : Option Error) → deleted_attempt answer ≡ done → IsAbsent answer
unfolding deleted_attempt
deleted_attempt-done none h = absurd (ground (arith, h))
deleted_attempt-done (some e) h = (e, refl, ground (arith, h))

module _ (P : Poller) (L : IsPoller P) where
  -- Over a poller that behaves as documented: for a wait for a rollout that ends without an error
  -- there was an attempt at which the deployment was read with its spec observed, its progress in
  -- time, all its replicas updated and available, and none of an older version.
  pub do_rollout_wait-IsRolledOut :
      (get : ℕ → Result Deployment)
      → do_rollout_wait P get ≡ none
      → (n : ℕ) × (d : Deployment) × (get n ≡ ok d) × IsRolledOut d
  unfolding do_rollout_wait
  do_rollout_wait-IsRolledOut get h =
      let (n, e, earlier) = L.poll_done (λ k. rollout_complete (get k)) h in
      let (d, g, r) = rollout_complete-done (get n) e in (n, d, g, r)

  safe_create-IsCreated :
      (create : ℕ → Option Error)
      → safe_create_one_resource P create ≡ none
      → (n : ℕ) × IsCreated (create n)
  unfolding safe_create_one_resource
  safe_create-IsCreated create h =
      let (n, e, earlier) = L.poll_done (λ k. create_attempt (create k)) (ground (arith, h)) in
      (n, create_attempt-done (create n) e)

  module _ {Object : Type 0} where
    -- Over a poller that behaves as documented, a creation that ends without an error has created
    -- every object, or found that it exists.
    pub do_create-IsCreated :
        (create : Object → ℕ → Option Error) (objs : List Object)
        → do_create P create objs ≡ none
        → All (λ obj. (n : ℕ) × IsCreated (create obj n)) objs
    unfolding do_create
    do_create-IsCreated create [] h = tt
    do_create-IsCreated create (obj ∷ objs) h = (
      safe_create-IsCreated (create obj) (ground (arith, h)),
      do_create-IsCreated create objs (ground (arith, h)),
    )

    delete_one-IsAbsent :
        (delete : Object → Option Error) (get : Object → ℕ → Option Error) (obj : Object)
        → delete_one P delete get obj ≡ none
        → (refused (delete obj) ≡ none) × ((n : ℕ) × IsAbsent (get obj n))
    unfolding delete_one
    delete_one-IsAbsent delete get obj h =
        let (n, e, earlier) = L.poll_done (λ k. deleted_attempt (get obj k)) (ground (arith, h)) in
        (ground (arith, h), (n, deleted_attempt-done (get obj n) e))

    -- Over a poller that behaves as documented, a deletion that ends without an error was refused
    -- for no object, and has seen every object gone.
    pub do_delete-IsAbsent :
        (delete : Object → Option Error) (get : Object → ℕ → Option Error) (objs : List Object)
        → do_delete P delete get objs ≡ none
        → All (λ obj. (refused (delete obj) ≡ none) × ((n : ℕ) × IsAbsent (get obj n))) objs
    unfolding do_delete
    do_delete-IsAbsent delete get [] h = tt
    do_delete-IsAbsent delete get (obj ∷ objs) h = (
      delete_one-IsAbsent delete get obj (ground (arith, h)),
      do_delete-IsAbsent delete get objs (ground (arith, h)),
    )

-- The CSV was read in the phase.
abbrev pub IsInPhase : String → Result WaitedCsv → Type 0
IsInPhase phase r = (c : WaitedCsv) × (r ≡ ok c) × (c.phase ≡ phase)

csv_done : (r : Result WaitedCsv) → csv_phase_succeeded r ≡ done → IsInPhase "Succeeded" r
unfolding csv_phase_succeeded
csv_done (err e) h = absurd (ground (arith, h))
csv_done (ok c) h = (c, refl, ground (arith, h, ==_iff c.phase "Succeeded"))

csv_again : (r : Result WaitedCsv) → csv_phase_succeeded r ≡ again → IsInPhase "Failed" r → ⊥
unfolding csv_phase_succeeded
csv_again (err e) h (c, g, p) = ground (arith, g)
csv_again (ok c) h (d, g, p) = ground (arith, h, g, p, ==_iff d.phase "Failed")

module _ (W : Workloads) where
  -- The deployments can be read and none has a condition that it is not available.
  abbrev pub AreAvailable : List String → Type 0
  AreAvailable = All (λ name.
      (ss : List DeploymentCondition) × (W.conditions name ≡ ok ss)
      × (any is_unavailable ss ≡ false))

  check_conditions-available :
      (name : String) (ss : List DeploymentCondition)
      → any is_unavailable ss ≡ false
      → check_conditions W name ss ≡ ok []
  unfolding check_conditions
  check_conditions-available name [] h = refl
  check_conditions-available name (s ∷ ss) h = ground (arith, h, check_conditions-available name ss)

  check_deployments-available :
      (names : List String) → AreAvailable names → check_deployments W names ≡ ok []
  unfolding check_deployments check_deployment
  check_deployments-available [] h = refl
  check_deployments-available (n ∷ ns) ((ss, r, a), rest) =
      ground (arith, r, check_conditions-available n ss a, check_deployments-available ns rest)

  module _ (P : Poller) (L : IsPoller P) (namespace : String) where
    -- Over a poller that behaves as documented, a wait for a CSV that ends without an error has
    -- read it in the phase `Succeeded`, and at no attempt before in the phase `Failed`.
    pub do_csv_wait-succeeded :
        (get : ℕ → Result WaitedCsv) (csv : WaitedCsv)
        → do_csv_wait W P namespace get csv ≡ none
        → (n : ℕ) × IsInPhase "Succeeded" (get n)
          × ((k : ℕ) → k < n → IsInPhase "Failed" (get k) → ⊥)
    unfolding do_csv_wait
    do_csv_wait-succeeded get csv h =
        let (n, e, earlier) = L.poll_done (λ k. csv_phase_succeeded (get k)) (ground (arith, h)) in
        (n, csv_done (get n) e, λ k l. csv_again (get k) (earlier k l))

  -- Where the wait for a CSV ends at its deadline, a namespace is given, and the deployments of the
  -- CSV can be read and are available: the error returned is not that of the deadline, but an
  -- empty list of deployment errors, whose text is empty.
  pub do_csv_wait-empty_error :
      (P : Poller) (namespace : String) (get : ℕ → Result WaitedCsv) (csv : WaitedCsv)
      → P.poll (λ k. csv_phase_succeeded (get k)) ≡ some deadline_exceeded
      → (namespace == "") ≡ false
      → AreAvailable csv.deployment_specs
      → (do_csv_wait W P namespace get csv ≡ some (deployments []))
        × (wait_error_text (deployments []) ≡ "")
  unfolding do_csv_wait check_deployment_errors is_deadline_exceeded wait_error_text
      deployment_errors_text
  do_csv_wait-empty_error P namespace get csv h n a =
      (ground (arith, h, n, check_deployments-available csv.deployment_specs a), refl)
