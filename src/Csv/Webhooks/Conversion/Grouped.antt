-- ===== src/Csv/Webhooks/Conversion/Grouped.antt =====
-- The groups of CRDs in clusterserviceversion_updaters.go.
use operator_sdk.Base.{
  leb, Bool-cases, ==_iff, none, true, false, ℕ, ◌+◌, String, some, List, [], ◌∷◌, ◌++◌, ◌==◌,
  arith, if◌then◌else◌, ◌≡◌, inl, inr, Option-cases,
}
use operator_sdk.Collector.NameMap.{put}
use operator_sdk.Csv.Webhooks.Conversion.{
  WebhookConversion, ServicePortPath, add_to_group, crd_groups, V1Crd, V1Beta1Crd, webhook_service,
  add_v1, add_v1beta1, add_all_v1, add_all_v1beta1, get_conv_webhooks,
}

-- How often a name stands in a list.
unfoldable pub count : String → List String → ℕ
count name [] = 0
count name (x ∷ xs) = (if x == name then 1 else 0) + count name xs

count-snoc :
    (name x : String) (xs : List String)
    → count name (xs ++ (x ∷ [])) ≡ count name xs + (if x == name then 1 else 0)
unfolding count
count-snoc name x [] = ground arith
count-snoc name x (y ∷ xs) = ground (arith, count-snoc name x xs)

-- How often a name stands in the groups, and among the entries.
unfoldable pub count_grouped : String → List (ServicePortPath × List String) → ℕ
unfolding count
count_grouped name [] = 0
count_grouped name ((k, crds) ∷ gs) = count name crds + count_grouped name gs

unfoldable pub count_entries : String → List (String × WebhookConversion) → ℕ
count_entries name [] = 0
count_entries name ((crd, c) ∷ es) = (if crd == name then 1 else 0) + count_entries name es

count_grouped-add_to_group :
    (name : String) (k : ServicePortPath) (crd : String) (gs : List (ServicePortPath × List String))
    → count_grouped name (add_to_group k crd gs)
      ≡ (if crd == name then 1 else 0) + count_grouped name gs
unfolding add_to_group count_grouped count
count_grouped-add_to_group name k crd [] = ground arith
count_grouped-add_to_group name k crd ((j, crds) ∷ gs) =
    ground (arith, count_grouped-add_to_group name k crd gs, count-snoc name crd crds)

-- Where every path is set, the groups hold each CRD as often as the entries do, and as often as the
-- groups before: no CRD is lost or in two groups.
pub count_grouped-crd_groups :
    (name : String) (es : List (String × WebhookConversion))
    (gs gs' : List (ServicePortPath × List String))
    → crd_groups es gs ≡ some gs'
    → count_grouped name gs' ≡ count_entries name es + count_grouped name gs
unfolding crd_groups count_entries
count_grouped-crd_groups name [] gs gs' h = ground (arith, h)
count_grouped-crd_groups name ((crd, c) ∷ es) gs gs' h = elim (Option-cases c.service.path) [
  | inl e ↦ ground (arith, e)
  | inr (path, e) ↦
      let key : ServicePortPath = record { port = c.service.port; path = path } in
      ground (
        arith,
        e,
        count_grouped-crd_groups name es (add_to_group key crd gs) gs',
        count_grouped-add_to_group name key crd gs,
      )
]

-- To set a key leaves the other names as they are, and the key stands once.
count_entries-put :
    (name k : String) (c : WebhookConversion) (m : List (String × WebhookConversion))
    → leb (count_entries name m) 1 ≡ true
    → (leb (count_entries name (put k c m)) 1 ≡ true)
      × ((k == name) ≡ false → count_entries name (put k c m) ≡ count_entries name m)
unfolding put count_entries
count_entries-put name k c [] h = (ground arith, λ n. ground arith)
count_entries-put name k c ((i, w) ∷ m) h = elim (Bool-cases (i == k)) [
  | inl e ↦ (ground (arith, e, ==_iff i k, h), λ n. ground (arith, e, ==_iff i k))
  | inr e ↦
      let (a, b) = count_entries-put name k c m (ground (arith, h)) in
      elim (Bool-cases (k == name)) [
        | inl f ↦ (
          ground (arith, e, f, a, ==_iff i k, ==_iff k name, ==_iff i name),
          λ n. ground (arith, f, n),
        )
        | inr f ↦ (ground (arith, e, f, b f, h), λ n. ground (arith, e, b n))
      ]
]

-- The name stands at most once in the map.
abbrev pub IsOnce : String → List (String × WebhookConversion) → Type 0
IsOnce name m = leb (count_entries name m) 1 ≡ true

add_v1-IsOnce :
    (name service : String) (crd : V1Crd) (m : List (String × WebhookConversion))
    → IsOnce name m
    → IsOnce name (add_v1 service crd m)
unfolding add_v1
add_v1-IsOnce name service crd m h = elim (Option-cases crd.conversion) [
  | inl e ↦ ground (arith, e, h)
  | inr (none, e) ↦ ground (arith, e, h)
  | inr (some w, e) ↦ elim (Option-cases (webhook_service w)) [
    | inl f ↦ ground (arith, e, f, h)
    | inr (s, f) ↦ elim (Bool-cases (s.name == service)) [
      | inl g ↦
          let c : WebhookConversion = record {
            service = s;
            conversion_review_versions = w.conversion_review_versions;
          } in
          ground (arith, e, f, g, (count_entries-put name crd.name c m h).0)
      | inr g ↦ ground (arith, e, f, g, h)
    ]
  ]
]

add_v1beta1-IsOnce :
    (name service : String) (crd : V1Beta1Crd) (m : List (String × WebhookConversion))
    → IsOnce name m
    → IsOnce name (add_v1beta1 service crd m)
unfolding add_v1beta1
add_v1beta1-IsOnce name service crd m h = elim (Option-cases crd.conversion) [
  | inl e ↦ ground (arith, e, h)
  | inr (w, e) ↦ elim (Option-cases (webhook_service w)) [
    | inl f ↦ ground (arith, e, f, h)
    | inr (s, f) ↦ elim (Bool-cases (s.name == service)) [
      | inl g ↦
          let c : WebhookConversion = record {
            service = record { name = ""; port = none; path = s.path };
            conversion_review_versions = w.conversion_review_versions;
          } in
          ground (arith, e, f, g, (count_entries-put name crd.name c m h).0)
      | inr g ↦ ground (arith, e, f, g, h)
    ]
  ]
]

add_all_v1-IsOnce :
    (name service : String) (crds : List V1Crd) (m : List (String × WebhookConversion))
    → IsOnce name m
    → IsOnce name (add_all_v1 service crds m)
unfolding add_all_v1
add_all_v1-IsOnce name service [] m h = h
add_all_v1-IsOnce name service (crd ∷ crds) m h =
    add_all_v1-IsOnce name service crds (add_v1 service crd m) (add_v1-IsOnce name service crd m h)

add_all_v1beta1-IsOnce :
    (name service : String) (crds : List V1Beta1Crd) (m : List (String × WebhookConversion))
    → IsOnce name m
    → IsOnce name (add_all_v1beta1 service crds m)
unfolding add_all_v1beta1
add_all_v1beta1-IsOnce name service [] m h = h
add_all_v1beta1-IsOnce name service (crd ∷ crds) m h =
    add_all_v1beta1-IsOnce name service crds (add_v1beta1 service crd m)
      (add_v1beta1-IsOnce name service crd m h)

-- The map of the conversions of a service has each CRD at most once.
pub get_conv_webhooks-IsOnce :
    (name service : String) (v1 : List V1Crd) (v1beta1 : List V1Beta1Crd)
    → IsOnce name (get_conv_webhooks v1 v1beta1 service)
unfolding get_conv_webhooks count_entries
get_conv_webhooks-IsOnce name service v1 v1beta1 = elim (Bool-cases (service == "")) [
  | inl e ↦ rw (e) (ground arith)
  | inr e ↦ rw (e) (
      add_all_v1beta1-IsOnce name service v1beta1 (add_all_v1 service v1 [])
        (add_all_v1-IsOnce name service v1 [] (ground arith)))
]
