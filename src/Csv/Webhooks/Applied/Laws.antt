-- ===== src/Csv/Webhooks/Applied/Laws.antt =====
-- The CRDs in the descriptions of the conversion webhooks of clusterserviceversion_updaters.go.
use operator_sdk.Base.{
  Bool, true, false, ℕ, ◌+◌, String, Option, none, some, List, [], ◌∷◌, ◌++◌, ◌==◌, ==_iff, arith,
  if◌then◌else◌, ◌≡◌, refl, ◌∙◌, inl, inr, Option-cases, Bool-cases, All,
}
use operator_sdk.Collector.NameMap.{lookup}
use operator_sdk.Csv.Webhooks.{Service, WebhookDescription}
use operator_sdk.Csv.Webhooks.Conversion.{
  V1Crd, V1Beta1Crd, get_conv_webhooks, WebhookConversion, ServicePortPath, crd_groups,
  add_to_group, same_key,
}
use operator_sdk.Csv.Webhooks.Conversion.Grouped.{
  count, count_grouped, count_entries, count_grouped-crd_groups, IsOnce, get_conv_webhooks-IsOnce,
}
use operator_sdk.Csv.Webhooks.Applied.{
  insert_name, sort_names, group_description, describe_group, describe_groups,
  conversion_to_webhook_description,
}

-- How often a name stands among the CRDs of the descriptions.
unfoldable pub count_described : String → List WebhookDescription → ℕ
unfolding count
count_described name [] = 0
count_described name (d ∷ ds) = count name d.conversion_crds + count_described name ds

count-insert_name :
    (name x : String) (xs : List String)
    → count name (insert_name x xs) ≡ (if x == name then 1 else 0) + count name xs
unfolding insert_name count
count-insert_name name x [] = refl
count-insert_name name x (y ∷ ys) = ground (arith, count-insert_name name x ys)

count-sort_names : (name : String) (xs : List String) → count name (sort_names xs) ≡ count name xs
unfolding sort_names count
count-sort_names name [] = refl
count-sort_names name (x ∷ xs) =
    ground (arith, count-sort_names name xs, count-insert_name name x (sort_names xs))

lookup-count_entries :
    (name : String) (config : List (String × WebhookConversion))
    → lookup name config ≡ none
    → count_entries name config ≡ 0
unfolding lookup count_entries
lookup-count_entries name [] h = refl
lookup-count_entries name ((crd, c) ∷ es) h = ground (arith, h, lookup-count_entries name es)

abbrev pub is_some {ℓ} : {A : Type ℓ} → Option A → Bool
is_some none = false
is_some (some a) = true

-- A name that stands at most once stands once just when it is found.
once-lookup :
    (name : String) (config : List (String × WebhookConversion))
    → IsOnce name config
    → count_entries name config ≡ (if is_some (lookup name config) then 1 else 0)
unfolding lookup count_entries
once-lookup name [] h = refl
once-lookup name ((crd, c) ∷ es) h = ground (arith, h, once-lookup name es)

-- A group that holds a CRD.
abbrev pub IsGroup : ServicePortPath × List String → Type 0
IsGroup (k, []) = ⊥
IsGroup (k, x ∷ xs) = Unit

-- The entry has a path.
abbrev pub HasPath : String × WebhookConversion → Type 0
HasPath (crd, c) = (path : String) × (c.service.path ≡ some path)

add_to_group-IsGroup :
    (k : ServicePortPath) (crd : String) (gs : List (ServicePortPath × List String))
    → All IsGroup gs
    → All IsGroup (add_to_group k crd gs)
unfolding add_to_group
add_to_group-IsGroup k crd [] a = (tt, tt)
add_to_group-IsGroup k crd ((j, []) ∷ gs) (a, b) = absurd a
add_to_group-IsGroup k crd ((j, x ∷ xs) ∷ gs) (a, b) = elim (Bool-cases (same_key k j)) [
  | inl e ↦ rw (e) (tt, b)
  | inr e ↦ rw (e) (tt, add_to_group-IsGroup k crd gs b)
]

crd_groups-IsGroup :
    (es : List (String × WebhookConversion)) (gs : List (ServicePortPath × List String))
    → All HasPath es
    → All IsGroup gs
    → (gs' : List (ServicePortPath × List String)) × ((crd_groups es gs ≡ some gs')
        × All IsGroup gs')
unfolding crd_groups
crd_groups-IsGroup [] gs p a = (gs, (refl, a))
crd_groups-IsGroup ((crd, c) ∷ es) gs ((path, e), p) a =
    let key : ServicePortPath = record { port = c.service.port; path = path } in
    let (gs', (f, b)) =
      crd_groups-IsGroup es (add_to_group key crd gs) p (add_to_group-IsGroup key crd gs a) in
    (gs', (ground (arith, e, f), b))

count_described-append :
    (name : String) (ds es : List WebhookDescription)
    → count_described name (ds ++ es) ≡ count_described name ds + count_described name es
unfolding count_described
count_described-append name [] es = ground arith
count_described-append name (d ∷ ds) es = ground (arith, count_described-append name ds es)

-- Every CRD of the groups is in the map.
abbrev AreKnown : List (String × WebhookConversion) → List (ServicePortPath × List String) → Type 0
AreKnown config gs = (n : String) → lookup n config ≡ none → count_grouped n gs ≡ 0

describe_group-count :
    (config : List (String × WebhookConversion)) (dep_name : String) (ws : Service)
    (g : ServicePortPath × List String)
    → IsGroup g
    → AreKnown config (g ∷ [])
    → (ds : List WebhookDescription) × ((describe_group config dep_name ws g ≡ some ds)
        × ((name : String) → count_described name ds ≡ count name g.1))
unfolding describe_group group_description count_described count_grouped count
describe_group-count config dep_name ws (k, []) i known = absurd i
describe_group-count config dep_name ws (k, crd ∷ crds) i known =
    elim (Option-cases (lookup crd config)) [
      | inl e ↦ absurd (ground (arith, known crd e, ==_iff crd crd))
      | inr (c, e) ↦ (
        group_description dep_name ws k (crd ∷ crds) c ∷ [],
        (ground (arith, e), λ name. ground (arith, count-sort_names name (crd ∷ crds))),
      )
    ]

describe_groups-count :
    (config : List (String × WebhookConversion)) (dep_name : String) (ws : Service)
    (gs : List (ServicePortPath × List String))
    → All IsGroup gs
    → AreKnown config gs
    → (ds : List WebhookDescription) × ((describe_groups config dep_name ws gs ≡ some ds)
        × ((name : String) → count_described name ds ≡ count_grouped name gs))
unfolding describe_groups count_described count_grouped
describe_groups-count config dep_name ws [] a known = ([], (refl, λ name. refl))
describe_groups-count config dep_name ws ((k, crds) ∷ gs) (a, b) known =
    let (ds, (e, n)) =
      describe_group-count config dep_name ws (k, crds) a
        (λ name h. ground (arith, known name h)) in
    let (es, (f, m)) =
      describe_groups-count config dep_name ws gs b (λ name h. ground (arith, known name h)) in
    (
      ds ++ es,
      (
        ground (arith, e, f),
        λ name. ground (arith, n name, m name, count_described-append name ds es),
      ),
    )

-- An order in which Go gives the entries of a map: each of them once.
pub record IsMapOrder
    (entries : List (String × WebhookConversion) → List (String × WebhookConversion))
    (groups : List (ServicePortPath × List String) → List (ServicePortPath × List String))
    : Type 0 where
  pub same_entries :
      (name : String) (m : List (String × WebhookConversion))
      → count_entries name (entries m) ≡ count_entries name m
  pub same_groups :
      (name : String) (gs : List (ServicePortPath × List String))
      → count_grouped name (groups gs) ≡ count_grouped name gs
  pub entries-All :
      (m : List (String × WebhookConversion)) → All HasPath m → All HasPath (entries m)
  pub groups-All :
      (gs : List (ServicePortPath × List String)) → All IsGroup gs → All IsGroup (groups gs)

-- Where every conversion has a path, and in whatever order Go gives the entries of its maps, each
-- CRD stands in the descriptions as often as in the map of the conversions that they are made of.
conversion_to_webhook_description-count :
    (entries : List (String × WebhookConversion) → List (String × WebhookConversion))
    (groups : List (ServicePortPath × List String) → List (ServicePortPath × List String))
    (sorted : List WebhookDescription → List WebhookDescription) (order : IsMapOrder entries groups)
    (config : List (String × WebhookConversion)) (dep_name : String) (ws : Service)
    (paths : All HasPath config)
    → (ds : List WebhookDescription) × ((conversion_to_webhook_description entries groups sorted
            config dep_name ws
          ≡ some ds)
        × ((name : String) → count_described name ds ≡ count_entries name config))
unfolding conversion_to_webhook_description
conversion_to_webhook_description-count entries groups sorted order config dep_name ws paths =
    let (gs, (e, a)) = crd_groups-IsGroup (entries config) [] (order.entries-All config paths) tt in
    let counted : (name : String) → count_grouped name (groups gs) ≡ count_entries name config =
      λ name.
        unfold count_grouped in
        ground (
          arith,
          order.same_groups name gs,
          count_grouped-crd_groups name (entries config) [] gs e,
          order.same_entries name config,
        ) in
    let (ds, (f, n)) =
      describe_groups-count config dep_name ws (groups gs) (order.groups-All gs a)
        (λ name h. counted name ∙ lookup-count_entries name config h) in
    (ds, (ground (arith, e, f), λ name. n name ∙ counted name))

-- Where every conversion that a service has carries a path, and in whatever order Go gives the
-- entries of its maps, the conversion webhooks of the service are described, and each CRD that the
-- service converts stands in exactly one of the descriptions, and no other CRD stands in any.
pub conversion_to_webhook_description-get_conv_webhooks :
    (entries : List (String × WebhookConversion) → List (String × WebhookConversion))
    (groups : List (ServicePortPath × List String) → List (ServicePortPath × List String))
    (sorted : List WebhookDescription → List WebhookDescription) (order : IsMapOrder entries groups)
    (v1 : List V1Crd) (v1beta1 : List V1Beta1Crd) (service dep_name : String) (ws : Service)
    (paths : All HasPath (get_conv_webhooks v1 v1beta1 service))
    → (ds : List WebhookDescription) × ((conversion_to_webhook_description entries groups sorted
            (get_conv_webhooks v1 v1beta1 service)
            dep_name
            ws
          ≡ some ds)
        × ((name : String)
            → count_described name ds
              ≡ (if is_some (lookup name (get_conv_webhooks v1 v1beta1 service)) then 1 else 0)))
conversion_to_webhook_description-get_conv_webhooks entries groups sorted order v1 v1beta1 service
      dep_name ws paths =
    let config = get_conv_webhooks v1 v1beta1 service in
    let (ds, (e, n)) =
      conversion_to_webhook_description-count entries groups sorted order config dep_name ws
        paths in
    (
      ds,
      (
        e,
        λ name. n name ∙ once-lookup name config (get_conv_webhooks-IsOnce name service v1 v1beta1),
      ),
    )
