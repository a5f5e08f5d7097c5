-- ===== src/Olm/OlmInstaller/Installed.antt =====
-- InstallVersion and UninstallVersion: what holds when they succeed, and when they refuse.
use operator_sdk.Base.{
  ℕ, String, Bool, true, false, none, List, [], ◌∷◌, ◌++◌, any, All, ◌≡◌, sym, ap, ◌∙◌, arith, inl,
  inr, Option-cases,
}
use operator_sdk.Errors.{Error, failure, ok, err, Result-cases}
use operator_sdk.Olm.Client.{IsPoller, do_create, do_delete, refused, Deployment, do_rollout_wait}
use operator_sdk.Olm.Client.Wait.{do_csv_wait}
use operator_sdk.Olm.Client.Laws.{
  IsRolledOut, IsCreated, IsAbsent, IsInPhase, do_rollout_wait-IsRolledOut, do_create-IsCreated,
  do_delete-IsAbsent, do_csv_wait-succeeded,
}
use operator_sdk.Olm.Status.{
  Object, ResourceStatus, get_objects_status, get_crd_kind_set, has_installed_resources,
}
use operator_sdk.Olm.Status.Laws.{IsSort, has_installed_resources_iff}
use operator_sdk.Olm.OlmInstaller.Missing.{IsMissing, AreMissing, found_none, missing_of_filtered}
use operator_sdk.Olm.OlmInstaller.{
  Call, creates, deletes, Env, is_not_olm, is_subscription, filter_resources, get_resources,
  check_absent, wait_rollout, get_subscription_csv, wait_subscription, wait_subscriptions,
  wait_installed, create_resources, install_resources, install_version, uninstall_version,
}

has_installed_resources-kinds :
    (sorted : List ResourceStatus → List ResourceStatus) (rs : List ResourceStatus) (b : Bool)
    → has_installed_resources sorted rs ≡ ok b
    → (kinds : List String) × (get_crd_kind_set rs ≡ ok kinds)
unfolding has_installed_resources
has_installed_resources-kinds sorted rs b h = elim (Result-cases (get_crd_kind_set rs)) [
  | inl (kinds, e) ↦ (kinds, e)
  | inr (x, e) ↦ absurd (ground (arith, e, h))
]

module _ (E : Env) (P : IsPoller E.poller) where
  -- No object was there before.
  abbrev pub WereAbsent : List Object → Type 0
  WereAbsent objs = All (IsMissing E.before objs) objs

  check_absent-ok :
      (objs : List Object)
      → check_absent E objs ≡ none
      → has_installed_resources E.sorted (get_objects_status E.before objs) ≡ ok false
  unfolding check_absent
  check_absent-ok objs h =
      elim (Result-cases (has_installed_resources E.sorted (get_objects_status E.before objs))) [
        | inr (x, e) ↦ absurd (ground (arith, e, h))
        | inl (true, e) ↦ absurd (ground (arith, e, h))
        | inl (false, e) ↦ e
      ]

  check_absent-WereAbsent :
      IsSort E.sorted → (objs : List Object) → check_absent E objs ≡ none → WereAbsent objs
  check_absent-WereAbsent S objs h =
      let rs = get_objects_status E.before objs in
      let f = check_absent-ok objs h in
      let (kinds, k) = has_installed_resources-kinds E.sorted rs false f in
      let (none_found, clean) = (has_installed_resources_iff E.sorted S rs kinds k).1.0 f in
      found_none E.before objs objs none_found clean

  -- The deployment was seen rolled out.
  abbrev pub HasRolledOut : String → Type 0
  HasRolledOut name = (n : ℕ) × (d : Deployment) × (E.deployment name n ≡ ok d) × IsRolledOut d

  wait_rollout-HasRolledOut : (name : String) → wait_rollout E name ≡ none → HasRolledOut name
  unfolding wait_rollout
  wait_rollout-HasRolledOut name h =
      elim (Option-cases (do_rollout_wait E.poller (E.deployment name))) [
        | inl e ↦ do_rollout_wait-IsRolledOut E.poller P (E.deployment name) e
        | inr (x, e) ↦ absurd (ground (arith, e, h))
      ]

  -- The CSV that the subscription names was seen in the phase Succeeded.
  abbrev pub HasCsv : Object → Type 0
  HasCsv sub =
      (csv : String) × (get_subscription_csv E sub ≡ ok csv)
      × ((n : ℕ) × IsInPhase "Succeeded" (E.csv csv n))

  wait_subscription-HasCsv : (sub : Object) → wait_subscription E sub ≡ none → HasCsv sub
  unfolding wait_subscription
  wait_subscription-HasCsv sub h = elim (Result-cases (get_subscription_csv E sub)) [
    | inr (x, e) ↦ absurd (ground (arith, e, h))
    | inl (csv, e) ↦
        elim (Option-cases
          (do_csv_wait E.workloads E.poller sub.namespace (E.csv csv) (E.last_csv csv))) [
            | inr (x, d) ↦ absurd (ground (arith, e, d, h))
            | inl d ↦
                let (n, s, before) =
                  do_csv_wait-succeeded E.workloads E.poller P sub.namespace (E.csv csv)
                    (E.last_csv csv) d in
                (csv, e, (n, s))
          ]
  ]

  wait_subscriptions-HasCsv : (ss : List Object) → wait_subscriptions E ss ≡ none → All HasCsv ss
  unfolding wait_subscriptions
  wait_subscriptions-HasCsv [] h = tt
  wait_subscriptions-HasCsv (s ∷ ss) h = (
    wait_subscription-HasCsv s (ground (arith, h)),
    wait_subscriptions-HasCsv ss (ground (arith, h)),
  )

  -- OLM's deployments run, and the subscriptions of the manifests have their CSVs.
  pub record IsRunning (resources : List Object) : Type 0 where
    pub olm_operator : HasRolledOut "olm-operator"
    pub catalog_operator : HasRolledOut "catalog-operator"
    pub csvs : All HasCsv (filter_resources resources is_subscription)
    pub package_server : HasRolledOut "packageserver"

  wait_installed-steps :
      (resources : List Object)
      → wait_installed E resources ≡ none
      → (wait_rollout E "olm-operator" ≡ none)
        × (wait_rollout E "catalog-operator" ≡ none)
        × (wait_subscriptions E (filter_resources resources is_subscription) ≡ none)
        × (wait_rollout E "packageserver" ≡ none)
  unfolding wait_installed
  wait_installed-steps resources h = ground (arith, h)

  wait_installed-IsRunning :
      (resources : List Object) → wait_installed E resources ≡ none → IsRunning resources
  wait_installed-IsRunning resources h =
      let (a, b, c, d) = wait_installed-steps resources h in
      record {
        olm_operator = wait_rollout-HasRolledOut "olm-operator" a;
        catalog_operator = wait_rollout-HasRolledOut "catalog-operator" b;
        csvs = wait_subscriptions-HasCsv _ c;
        package_server = wait_rollout-HasRolledOut "packageserver" d;
      }

  install_resources-steps :
      (crds resources : List Object) (status : List ResourceStatus)
      → (install_resources E crds resources).1 ≡ ok status
      → (check_absent E crds ≡ none)
        × (check_absent E (filter_resources resources is_not_olm) ≡ none)
        × (do_create E.poller E.create crds ≡ none)
        × ((create_resources E crds resources).1 ≡ ok status)
        × ((install_resources E crds resources).0
            ≡ creates crds ∷ (create_resources E crds resources).0)
  unfolding install_resources
  install_resources-steps crds resources status h = ground (arith, h)

  create_resources-steps :
      (crds resources : List Object) (status : List ResourceStatus)
      → (create_resources E crds resources).1 ≡ ok status
      → (do_create E.poller E.create resources ≡ none)
        × (wait_installed E resources ≡ none)
        × (status ≡ get_objects_status E.after (crds ++ resources))
        × ((create_resources E crds resources).0 ≡ creates resources ∷ [])
  unfolding create_resources
  create_resources-steps crds resources status h = ground (arith, h)

  -- What an installation has done.
  pub record IsInstalled (crds resources : List Object) : Type 0 where
    pub no_crds : WereAbsent crds
    pub no_resources : AreMissing E.before resources resources
    pub crds_created : All (λ o. (n : ℕ) × IsCreated (E.create o n)) crds
    pub resources_created : All (λ o. (n : ℕ) × IsCreated (E.create o n)) resources
    pub running : IsRunning resources

  install_resources-IsInstalled :
      (S : IsSort E.sorted) (crds resources : List Object) (status : List ResourceStatus)
      → (install_resources E crds resources).1 ≡ ok status
      → IsInstalled crds resources
        × ((install_resources E crds resources).0 ≡ creates crds ∷ creates resources ∷ [])
        × (status ≡ get_objects_status E.after (crds ++ resources))
  install_resources-IsInstalled S crds resources status h =
      let (c, r, created, next, calls) = install_resources-steps crds resources status h in
      let (more, waited, is, made) = create_resources-steps crds resources status next in
      (
        record {
          no_crds = check_absent-WereAbsent S crds c;
          no_resources =
              missing_of_filtered E.before resources resources
                (check_absent-WereAbsent S (filter_resources resources is_not_olm) r);
          crds_created = do_create-IsCreated E.poller P E.create crds created;
          resources_created = do_create-IsCreated E.poller P E.create resources more;
          running = wait_installed-IsRunning resources waited;
        },
        calls ∙ ap (λ (cs : List Call). creates crds ∷ cs) made,
        is,
      )

  install_version-got :
      (base version : String) (status : List ResourceStatus)
      → (install_version E base version).1 ≡ ok status
      → (crds resources : List Object) × (get_resources E base version ≡ ok (crds, resources))
        × (install_version E base version ≡ install_resources E crds resources)
  unfolding install_version
  install_version-got base version status h = elim (Result-cases (get_resources E base version)) [
    | inl ((crds, resources), e) ↦ (crds, resources, e, ground (arith, e))
    | inr (x, e) ↦ absurd (ground (arith, e, h))
  ]

  -- Where InstallVersion returns a status, no CRD was there before, and no resource but objects of
  -- OLM's own API: each was not found, or its kind was unknown and a CRD of the same manifests
  -- defines it. It has created the CRDs and then the resources, seen the three deployments rolled
  -- out, and seen the CSV of each subscription succeed.
  pub install_version-IsInstalled :
      (S : IsSort E.sorted) (base version : String) (status : List ResourceStatus)
      → (install_version E base version).1 ≡ ok status
      → (crds resources : List Object) × (get_resources E base version ≡ ok (crds, resources))
        × IsInstalled crds resources
        × ((install_version E base version).0 ≡ creates crds ∷ creates resources ∷ [])
        × (status ≡ get_objects_status E.after (crds ++ resources))
  install_version-IsInstalled S base version status h =
      let (crds, resources, e, run) = install_version-got base version status h in
      let (i, calls, is) =
        install_resources-IsInstalled S crds resources status (ap (λ r. r.1) (sym run) ∙ h) in
      (crds, resources, e, i, ap (λ r. r.0) run ∙ calls, is)

  -- Where a CRD of OLM is in the cluster and the kinds of the CRDs can be read, InstallVersion
  -- returns an error and creates nothing.
  pub install_version-refuses :
      (S : IsSort E.sorted) (base version : String) (crds resources : List Object)
      (kinds : List String)
      → get_resources E base version ≡ ok (crds, resources)
      → get_crd_kind_set (get_objects_status E.before crds) ≡ ok kinds
      → any (λ r. r.found) (get_objects_status E.before crds) ≡ true
      → (e : Error) × (install_version E base version ≡ ([], err e))
  unfolding install_version install_resources check_absent
  install_version-refuses S base version crds resources kinds e k f =
      let has =
        (has_installed_resources_iff E.sorted S (get_objects_status E.before crds) kinds k).0.1 f in
      (failure "detected existing OLM resources", ground (arith, e, has))

  uninstall_version-steps :
      (base version : String)
      → (uninstall_version E base version).1 ≡ none
      → (crds resources : List Object) × (get_resources E base version ≡ ok (crds, resources))
        × ((uninstall_version E base version).0 ≡ deletes (crds ++ resources) ∷ [])
        × (do_delete E.poller E.delete (λ o k. E.get k o) (crds ++ resources) ≡ none)
  unfolding uninstall_version
  uninstall_version-steps base version h = elim (Result-cases (get_resources E base version)) [
    | inr (x, e) ↦ absurd (ground (arith, e, h))
    | inl ((crds, resources), e) ↦
        let objs = crds ++ resources in
        elim (Result-cases (has_installed_resources E.sorted (get_objects_status E.before objs))) [
          | inl (false, i) ↦ absurd (ground (arith, e, i, h))
          | inl (true, i) ↦ (crds, resources, e, ground (arith, e, i), ground (arith, e, i, h))
          | inr (x, i) ↦ (crds, resources, e, ground (arith, e, i), ground (arith, e, i, h))
        ]
  ]

  -- Where UninstallVersion succeeds, each object of the manifests was deleted or not there, and was
  -- then seen to be absent.
  pub uninstall_version-IsAbsent :
      (base version : String)
      → (uninstall_version E base version).1 ≡ none
      → (crds resources : List Object) × (get_resources E base version ≡ ok (crds, resources))
        × ((uninstall_version E base version).0 ≡ deletes (crds ++ resources) ∷ [])
        × All
            (λ o. (refused (E.delete o) ≡ none) × ((n : ℕ) × IsAbsent (E.get n o)))
            (crds ++ resources)
  uninstall_version-IsAbsent base version h =
      let (crds, resources, e, calls, d) = uninstall_version-steps base version h in
      (
        crds,
        resources,
        e,
        calls,
        do_delete-IsAbsent E.poller P E.delete (λ o k. E.get k o) (crds ++ resources) d,
      )
