-- ===== src/Collector/RelatedImages/Laws.antt =====
-- relatedimages.go: how often an image is listed, and which images count as duplicates.
use operator_sdk.Base.{
  ℕ, suc, String, Bool, true, false, not, ◌||◌, ◌&&◌, ◌<>◌, some, List, [], ◌∷◌, ◌≡◌, ◌∙◌, sym,
  refl, ap, ◌==◌, ==_iff, ==_self, any, all, contains, arith, inl, inr, Bool-cases, List-cases,
  Option-cases, if◌then◌else◌, is_some,
}
use text.Mathlib.TextLemmas.{append_assoc}
use operator_sdk.Collector.RelatedImages.{
  RelatedImage, Collector, collect, by_image_ref, FinalImage, final_image, final_images,
}

-- The same name and the same reference.
abbrev pub same_pair : RelatedImage → RelatedImage → Bool
same_pair i j = j.name == i.name && j.image_ref == i.image_ref

abbrev pub distinct_pairs : List RelatedImage → Bool
distinct_pairs [] = true
distinct_pairs (i ∷ is) = not (any (same_pair i) is) && distinct_pairs is

-- How many images have the name and the reference.
abbrev pair_count : String → String → List RelatedImage → ℕ
pair_count n r [] = 0
pair_count n r (i ∷ is) =
    let rest = pair_count n r is in if i.name == n && i.image_ref == r then suc rest else rest

-- How often a reference is listed.
abbrev pub listed : String → List FinalImage → ℕ
listed r [] = 0
listed r (f ∷ fs) = let rest = listed r fs in if f.image == r then suc rest else rest

pair_count_absent :
    (f : RelatedImage) (is : List RelatedImage)
    → any (same_pair f) is ≡ false
    → pair_count f.name f.image_ref is ≡ 0
pair_count_absent f [] h = refl
pair_count_absent f (i ∷ is) h = ground (arith, pair_count_absent f is)

-- The first image of a reference is the only one of its name and reference.
pair_count_first :
    (r : String) (f : RelatedImage) (rest is : List RelatedImage)
    → distinct_pairs is ≡ true
    → by_image_ref r is ≡ f ∷ rest
    → pair_count f.name r is ≡ 1
pair_count_first r f rest [] d h = absurd (cc)
pair_count_first r f rest (i ∷ is) d h = elim (Bool-cases (i.image_ref == r)) [
  | inr q ↦ ground (arith, q, h, d, pair_count_first r f rest is)
  | inl q ↦
      let e : i ≡ f = ground (arith, q, h) in
      let same : i.image_ref ≡ r = (==_iff i.image_ref r).0 q in
      ground (
        arith,
        q,
        e,
        same,
        d,
        pair_count_absent i is,
        ==_iff i.name f.name,
        ap (λ (x : RelatedImage). x.name) e,
      )
]

none_of :
    (r : String) (f : RelatedImage) (is : List RelatedImage)
    → by_image_ref r is ≡ []
    → all (λ i. not (i.image_ref == r) || i.name == f.name) is ≡ true
none_of r f [] h = refl
none_of r f (i ∷ is) h = ground (arith, none_of r f is)

-- The images of a reference that has one image are that image.
single_name :
    (r : String) (f : RelatedImage) (is : List RelatedImage)
    → by_image_ref r is ≡ f ∷ []
    → all (λ i. not (i.image_ref == r) || i.name == f.name) is ≡ true
single_name r f [] h = refl
single_name r f (i ∷ is) h = elim (Bool-cases (i.image_ref == r)) [
  | inr q ↦ ground (arith, q, h, single_name r f is)
  | inl q ↦
      let e : i ≡ f = ground (arith, q, h) in
      ground (arith, q, e, h, none_of r f is, ==_self f.name, ap (λ (x : RelatedImage). x.name) e)
]

module _ (images : List RelatedImage) (r : String) where
  final_image-ref :
      (i : RelatedImage) (g : FinalImage) → final_image images i ≡ some g → g.image ≡ i.image_ref
  unfolding final_image
  final_image-ref i g h = ground arith

  final_image-selects :
      (f : RelatedImage) (rest : List RelatedImage) (i : RelatedImage)
      → by_image_ref r images ≡ f ∷ rest
      → (i.image_ref == r) ≡ true
      → (rest ≡ [] → (i.name == f.name) ≡ true)
      → is_some (final_image images i) ≡ (i.name == f.name)
  unfolding final_image
  final_image-selects f [] i h q s = ground (arith, (==_iff i.image_ref r).0 q, h, s refl)
  final_image-selects f (g ∷ rest) i h q s =
      ground (arith, (==_iff i.image_ref r).0 q, h, ==_iff f.name i.name, ==_iff i.name f.name)

  listed_count :
      (f : RelatedImage) (rest is : List RelatedImage)
      → by_image_ref r images ≡ f ∷ rest
      → (rest ≡ [] → all (λ i. not (i.image_ref == r) || i.name == f.name) is ≡ true)
      → listed r (final_images images is) ≡ pair_count f.name r is
  unfolding final_images
  listed_count f rest [] h s = refl
  listed_count f rest (i ∷ is) h s =
      let tail : (rest ≡ [] → all (λ j. not (j.image_ref == r) || j.name == f.name) is ≡ true) =
        (λ e. ground (arith, s e)) in
      let count = listed_count f rest is h tail in
      elim (Bool-cases (i.image_ref == r)) [
        | inr q ↦ elim (Option-cases (final_image images i)) [
          | inl n ↦ ground (arith, n, q, count)
          | inr (g, n) ↦
              ground
                (arith, n, q, count, final_image-ref i g n, ==_iff g.image r, ==_iff i.image_ref r)
        ]
        | inl q ↦
            let chosen = final_image-selects f rest i h q (λ e. ground (arith, s e, q)) in
            elim (Option-cases (final_image images i)) [
              | inl n ↦ ground (arith, n, q, count, chosen)
              | inr (g, n) ↦ ground (
                arith,
                n,
                q,
                count,
                chosen,
                final_image-ref i g n,
                ==_iff g.image r,
                ==_iff i.image_ref r,
              )
            ]
      ]

  listed_none :
      (is : List RelatedImage) → by_image_ref r is ≡ [] → listed r (final_images images is) ≡ 0
  unfolding final_images
  listed_none [] h = refl
  listed_none (i ∷ is) h = elim (Option-cases (final_image images i)) [
    | inl n ↦ ground (arith, n, h, listed_none is)
    | inr (g, n) ↦
        ground (
          arith,
          n,
          h,
          listed_none is,
          final_image-ref i g n,
          ==_iff g.image r,
          ==_iff i.image_ref r,
        )
  ]

unseen :
    (r : String) (is : List RelatedImage)
    → by_image_ref r is ≡ []
    → any (λ i. i.image_ref == r) is ≡ false
unseen r [] h = refl
unseen r (i ∷ is) h = ground (arith, unseen r is)

seen :
    (r : String) (f : RelatedImage) (rest is : List RelatedImage)
    → by_image_ref r is ≡ f ∷ rest
    → any (λ i. i.image_ref == r) is ≡ true
seen r f rest [] h = absurd (cc)
seen r f rest (i ∷ is) h = ground (arith, seen r f rest is)

-- Where no two images have one name and one reference: a reference that some image has is listed
-- exactly once, whatever names it has, and no other reference is listed.
pub listed_once :
    (images : List RelatedImage) (r : String)
    → distinct_pairs images ≡ true
    → listed r (final_images images images) ≡ (if any (λ i. i.image_ref == r) images then 1 else 0)
listed_once images r d = elim (List-cases (by_image_ref r images)) [
  | inl n ↦ ground (arith, listed_none images r images n, unseen r images n)
  | inr (f, [], h) ↦ ground (
    arith,
    listed_count images r f [] images h (λ e. single_name r f images h),
    pair_count_first r f [] images d h,
    seen r f [] images h,
  )
  | inr (f, g ∷ rest, h) ↦ ground (
    arith,
    listed_count images r f (g ∷ rest) images h (λ e. absurd (cc)),
    pair_count_first r f (g ∷ rest) images d h,
    seen r f (g ∷ rest) images h,
  )
]

collect-seen :
    (n ref cont : String) (c : Collector)
    → contains c.seen_related_images (n <> "-" <> ref) ≡ true
    → collect n ref cont c ≡ c
unfolding collect
collect-seen n ref cont c h = ground (arith, h)

collect-holds :
    (n ref cont : String) (c : Collector)
    → contains (collect n ref cont c).seen_related_images (n <> "-" <> ref) ≡ true
unfolding collect
collect-holds n ref cont c = ground (arith, ==_self (n <> "-" <> ref))

key_collision : (a b c : String) → a <> "-" <> (b <> "-" <> c) ≡ (a <> "-" <> b) <> "-" <> c
key_collision a b c =
    ap (λ (t : String). a <> t) (sym (append_assoc "-" b ("-" <> c)))
    ∙ sym (append_assoc a ("-" <> b) ("-" <> c))

-- After an image `a` at `b-c` was collected, an image `a-b` at `c` is passed over, whatever the
-- collector held before.
pub collect_collision :
    (a b c k₁ k₂ : String) (col : Collector)
    → let first = collect a (b <> "-" <> c) k₁ col in collect (a <> "-" <> b) c k₂ first ≡ first
collect_collision a b c k₁ k₂ col =
    collect-seen (a <> "-" <> b) c k₂ (collect a (b <> "-" <> c) k₁ col) (
      ap (contains (collect a (b <> "-" <> c) k₁ col).seen_related_images)
        (sym (key_collision a b c))
      ∙ collect-holds a (b <> "-" <> c) k₁ col)
