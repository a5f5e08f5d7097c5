-- ===== src/Olm/Client.antt =====
-- internal/olm/client/client.go: creating and deleting objects, and waiting for a deployment and
-- for a CSV. Polling and the cluster are parameters; what the cluster answers at the k-th attempt
-- is a function of k.
pub mod Wait
pub mod Version
pub mod Laws
pub mod Once
use operator_sdk.Base.{
  ℕ, ◌<◌, String, Bool, true, false, ◌<>◌, Option, none, some, List, [], ◌∷◌, ◌≡◌, ◌⊎◌, ltb, leb,
  ◌==◌, if◌then◌else◌,
}
use operator_sdk.Errors.{
  Error, failure, is_not_found, is_already_exists, is_no_match, is_deadline_exceeded, Result, ok,
  err,
}

-- What a condition answers that is polled: `(true, nil)`, `(false, nil)` or an error.
pub data Attempt : Type 0 where
  done again : Attempt
  stop : Error → Attempt

-- `wait.PollUntilContextCancel` for one context, and the error of that context when it ends.
pub record Poller : Type 0 where
  pub poll : (ℕ → Attempt) → Option Error
  pub context_error : Error

-- The documented behaviour: nil comes from the first attempt that is done, and an error from the
-- first attempt that fails, or from the context.
pub record IsPoller (P : Poller) : Type 0 where
  pub poll_done :
      (c : ℕ → Attempt) → P.poll c ≡ none → (n : ℕ) × (c n ≡ done) × ((k : ℕ) → k < n → c k ≡ again)
  pub poll_stop :
      (c : ℕ → Attempt) (e : Error)
      → P.poll c ≡ some e
      → (e ≡ P.context_error) ⊎ ((n : ℕ) × (c n ≡ stop e) × ((k : ℕ) → k < n → c k ≡ again))

-- The condition of `safeCreateOneResource`, on the answer to `Create`.
unfoldable pub create_attempt : Option Error → Attempt
create_attempt none = done
create_attempt (some e) =
    if is_already_exists e then done else if is_no_match e then again else stop e

-- The condition of `DoDelete`, on the answer to `Get`.
unfoldable pub deleted_attempt : Option Error → Attempt
deleted_attempt none = again
deleted_attempt (some e) = if is_not_found e then done else stop e

-- The error of a `Delete` that counts.
unfoldable pub refused : Option Error → Option Error
refused none = none
refused (some e) = if is_not_found e then none else some e

module _ (P : Poller) where
  -- `safeCreateOneResource`
  unfoldable pub safe_create_one_resource : (ℕ → Option Error) → Option Error
  safe_create_one_resource create = elim (P.poll (λ k. create_attempt (create k))) [
    | none ↦ none
    | some e ↦ if is_deadline_exceeded e then some (failure "timeout") else some e
  ]

  module _ {Object : Type 0} where
    -- `DoCreate`
    unfoldable pub do_create : (Object → ℕ → Option Error) → List Object → Option Error
    do_create create [] = none
    do_create create (obj ∷ objs) =
        let rest = do_create create objs in
        elim (safe_create_one_resource (create obj)) [ some e ↦ some e | none ↦ rest ]

    -- The body of the loop of `DoDelete`.
    unfoldable pub delete_one :
        (Object → Option Error) → (Object → ℕ → Option Error) → Object → Option Error
    delete_one delete get obj = elim (refused (delete obj)) [
      | some e ↦ some e
      | none ↦ P.poll (λ k. deleted_attempt (get obj k))
    ]

    -- `DoDelete`
    unfoldable pub do_delete :
        (Object → Option Error) → (Object → ℕ → Option Error) → List Object → Option Error
    do_delete delete get [] = none
    do_delete delete get (obj ∷ objs) =
        let rest = do_delete delete get objs in
        elim (delete_one delete get obj) [ some e ↦ some e | none ↦ rest ]

-- A deployment, as far as `DoRolloutWait` reads it: `progressing` is the reason of the condition
-- `Progressing`, if there is that condition.
pub record Deployment : Type 0 where
  pub generation : ℕ
  pub observed_generation : ℕ
  pub progressing : Option String
  pub spec_replicas : Option ℕ
  pub replicas : ℕ
  pub updated_replicas : ℕ
  pub available_replicas : ℕ

-- `cond != nil && cond.Reason == deploymentutil.TimedOutReason`
unfoldable pub timed_out : Deployment → Bool
timed_out d = elim d.progressing [ none ↦ false | some r ↦ r == "ProgressDeadlineExceeded" ]

-- `Spec.Replicas != nil && UpdatedReplicas < *Spec.Replicas`
unfoldable pub lacks_updates : Deployment → Bool
lacks_updates d = elim d.spec_replicas [ none ↦ false | some n ↦ ltb d.updated_replicas n ]

unfoldable pub rollout_attempt : Deployment → Attempt
unfolding timed_out lacks_updates
rollout_attempt d =
    if leb d.generation d.observed_generation
    then if timed_out d
      then stop (failure "progress deadline exceeded")
      else if lacks_updates d
      then again
      else if ltb d.updated_replicas d.replicas
      then again
      else if ltb d.available_replicas d.updated_replicas
      then again
      else done
    else again

-- `rolloutComplete`, on the answer to `Get`.
unfoldable pub rollout_complete : Result Deployment → Attempt
rollout_complete (err e) = if is_not_found e then again else stop e
rollout_complete (ok d) = rollout_attempt d

-- `DoRolloutWait`
unfoldable pub do_rollout_wait : Poller → (ℕ → Result Deployment) → Option Error
do_rollout_wait P get = P.poll (λ k. rollout_complete (get k))
