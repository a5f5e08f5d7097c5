-- ===== src/Collector/RelatedImages/Collected.antt =====
-- relatedimages.go: the images that a collector holds, through FindRelatedImages as a whole.
use operator_sdk.Base.{
  ℕ, String, Bool, true, false, ◌<>◌, List, [], ◌∷◌, ◌++◌, ◌≡◌, refl, ap, ◌==◌, ==_iff, ==_self,
  any, all, contains, any-append, arith, inl, inr, Bool-cases, if◌then◌else◌, length, ltb,
  starts_with,
}
use operator_sdk.Errors.{Result, ok, err, Result-cases}
use operator_sdk.Collector.FormatName.{format_name, related_image_prefix}
use operator_sdk.Collector.RelatedImages.{
  EnvVar, Container, Deployment, RelatedImage, Collector, collect, collect_from_environment,
  collect_from_containers, collect_from_deployments, FinalImage, find_related_images,
}
use operator_sdk.Collector.RelatedImages.Laws.{same_pair, distinct_pairs, listed, listed_once}

abbrev key : RelatedImage → String
key i = i.name <> "-" <> i.image_ref

-- Every image has its key among those seen.
abbrev all_seen : List String → List RelatedImage → Bool
all_seen seen = all (λ i. contains seen (key i))

-- What a collector keeps true: no two images have one name and one reference, and the key of each
-- is remembered.
abbrev pub IsCollected : Collector → Type 0
IsCollected c =
    (distinct_pairs c.related_images ≡ true)
    × (all_seen c.seen_related_images c.related_images ≡ true)

same_pair-key : (i x : RelatedImage) → same_pair i x ≡ true → key x ≡ key i
same_pair-key i x h = ground (arith, h, ==_iff x.name i.name, ==_iff x.image_ref i.image_ref)

distinct_pairs-append :
    (seen : List String) (x : RelatedImage) (is : List RelatedImage)
    → distinct_pairs is ≡ true
    → all_seen seen is ≡ true
    → contains seen (key x) ≡ false
    → distinct_pairs (is ++ (x ∷ [])) ≡ true
distinct_pairs-append seen x [] d a n = refl
distinct_pairs-append seen x (i ∷ is) d a n = elim (Bool-cases (same_pair i x)) [
  | inl q ↦ absurd (ground (arith, a, n, ap (contains seen) (same_pair-key i x q)))
  | inr q ↦
      ground
        (arith, q, d, a, n, any-append (same_pair i) is (x ∷ []), distinct_pairs-append seen x is)
]

all_seen-append :
    (seen : List String) (x : RelatedImage) (is : List RelatedImage)
    → all_seen seen is ≡ true
    → all_seen (key x ∷ seen) (is ++ (x ∷ [])) ≡ true
all_seen-append seen x [] a = ground (arith, ==_self (key x))
all_seen-append seen x (i ∷ is) a = ground (arith, a, all_seen-append seen x is)

collect-IsCollected :
    (n r k : String) (c : Collector) → IsCollected c → IsCollected (collect n r k c)
unfolding collect
collect-IsCollected n r k c (d, a) =
    let x : RelatedImage = record { name = n; image_ref = r; container_ref = k } in
    elim (Bool-cases (contains c.seen_related_images (key x))) [
      | inl q ↦ rw q (d, a)
      | inr q ↦ rw q (
        distinct_pairs-append c.seen_related_images x c.related_images d a q,
        all_seen-append c.seen_related_images x c.related_images a,
      )
    ]

-- A result that is no collector, or one that is collected.
abbrev Holds : Result Collector → Type 0
Holds (err e) = Unit
Holds (ok c) = IsCollected c

Holds-bind :
    (r : Result Collector) (f : Collector → Result Collector)
    → Holds r
    → ((c : Collector) → IsCollected c → Holds (f c))
    → Holds (elim r [ err e ↦ err e | ok c ↦ f c ])
Holds-bind (err e) f h g = tt
Holds-bind (ok c) f h g = g c h

environment-Holds :
    (k : String) (vs : List EnvVar) (c : Collector)
    → IsCollected c
    → Holds (collect_from_environment k vs c)
unfolding collect_from_environment
environment-Holds k [] c h = h
environment-Holds k (v ∷ vs) c h = elim (Bool-cases (starts_with v.name related_image_prefix)) [
  | inr q ↦ rw q (environment-Holds k vs c h)
  | inl q ↦ elim (Bool-cases v.value_from) [
    | inl p ↦ rw (q, p) tt
    | inr p ↦
        rw (q, p)
          (environment-Holds k vs (collect (format_name v.name) v.value k c)
            (collect-IsCollected (format_name v.name) v.value k c h))
  ]
]

containers-Holds :
    (name : String) (n : ℕ) (ks : List Container) (c : Collector)
    → IsCollected c
    → Holds (collect_from_containers name n ks c)
unfolding collect_from_containers
containers-Holds name n [] c h = h
containers-Holds name n (k ∷ ks) c h =
    Holds-bind _ (collect_from_containers name n ks)
      (environment-Holds (if ltb 1 n then name <> "-" <> k.name else name) k.env c h)
      (containers-Holds name n ks)

deployments-Holds :
    (ds : List Deployment) (c : Collector) → IsCollected c → Holds (collect_from_deployments ds c)
unfolding collect_from_deployments
deployments-Holds [] c h = h
deployments-Holds (d ∷ ds) c h =
    let ks = d.containers ++ d.init_containers in
    Holds-bind _ (collect_from_deployments ds) (containers-Holds d.name (length ks) ks c h)
      (deployments-Holds ds)

-- The empty collector.
abbrev empty_collector : Collector
empty_collector = record { related_images = []; seen_related_images = [] }

-- Where `FindRelatedImages` succeeds, the collector that it fills is one from whose images each
-- reference is listed exactly once if some image has it, under whatever names, and else not at all.
pub find_related_images-listed :
    (ds : List Deployment) (finals : List FinalImage) (r : String)
    → find_related_images ds ≡ ok finals
    → (c : Collector) × (collect_from_deployments ds empty_collector ≡ ok c)
      × (listed r finals ≡ (if any (λ i. i.image_ref == r) c.related_images then 1 else 0))
unfolding find_related_images
find_related_images-listed ds finals r h =
    elim (Result-cases (collect_from_deployments ds empty_collector)) [
      | inr (e, q) ↦ absurd (ground (arith, q, h))
      | inl (c, q) ↦
          let held : IsCollected c = rw q at (deployments-Holds ds empty_collector (refl, refl)) in
          (c, q, ground (arith, q, h, listed_once c.related_images r held.0))
    ]
