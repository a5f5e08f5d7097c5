-- ===== src/Base/Split.antt =====
-- Go's `strings.Split`, `strings.SplitN(…, 2)`, `strings.Join` and `sort.Strings`, on texts as
-- lists of code points.
use operator_sdk.Base.{
  ℕ, Bool, true, false, not, ◌||◌, ◌&&◌, Option, none, some, List, [], ◌∷◌, ◌++◌, ◌≡◌, ◌∙◌, refl,
  ap, arith, any, all, nat_beq, nat_beq_iff, ltb, if◌then◌else◌, inl, inr, Bool-cases,
}

abbrev pub Text : Type 0
Text = List ℕ

-- The text has the code point.
abbrev pub has : ℕ → Text → Bool
has sep cs = any (λ c. nat_beq c sep) cs

-- A separator opens a new word; any other code point belongs to the first word.
unfoldable pub extend : ℕ → ℕ → List Text → List Text
extend sep c [] = []
extend sep c (w ∷ ws) = if nat_beq c sep then [] ∷ w ∷ ws else (c ∷ w) ∷ ws

-- `strings.Split(s, sep)`: there is always a word.
unfoldable pub split : ℕ → Text → List Text
unfolding extend
split sep [] = [] ∷ []
split sep (c ∷ cs) = extend sep c (split sep cs)

-- `strings.SplitN(s, sep, 2)`: what stands before the first separator, and behind it.
unfoldable pub cut : ℕ → Text → Text × Option Text
cut sep [] = ([], none)
cut sep (c ∷ cs) = let (a, b) = cut sep cs in if nat_beq c sep then ([], some cs) else (c ∷ a, b)

-- `strings.Join(words, sep)`
unfoldable pub join : ℕ → List Text → Text
join sep [] = []
join sep (w ∷ []) = w
join sep (w ∷ v ∷ ws) = w ++ (sep ∷ join sep (v ∷ ws))

-- The order of texts, and `sort.Strings` as an insertion sort.
unfoldable pub text_le : Text → Text → Bool
text_le [] ds = true
text_le (c ∷ cs) [] = false
text_le (c ∷ cs) (d ∷ ds) = let rest = text_le cs ds in ltb c d || (nat_beq c d && rest)

unfoldable pub insert : Text → List Text → List Text
insert w [] = w ∷ []
insert w (v ∷ vs) = let rest = insert w vs in if text_le w v then w ∷ v ∷ vs else v ∷ rest

unfoldable pub sort : List Text → List Text
sort [] = []
sort (w ∷ ws) = insert w (sort ws)

-- Neighbours are in order.
unfoldable pub is_sorted : List Text → Bool
is_sorted [] = true
is_sorted (w ∷ []) = true
is_sorted (w ∷ v ∷ ws) = text_le w v && is_sorted (v ∷ ws)

insert_before : (w v : Text) (vs : List Text) → text_le w v ≡ true → insert w (v ∷ vs) ≡ w ∷ v ∷ vs
unfolding insert
insert_before w v vs h = ground (arith, h)

sort-cons : (w : Text) (ws : List Text) → sort (w ∷ ws) ≡ insert w (sort ws)
unfolding sort
sort-cons w ws = refl

-- What is sorted stays as it is.
pub sort_sorted : (ws : List Text) → is_sorted ws ≡ true → sort ws ≡ ws
unfolding is_sorted insert
sort_sorted [] h = unfold sort in refl
sort_sorted (w ∷ []) h = unfold sort in refl
sort_sorted (w ∷ v ∷ ws) h =
    sort-cons w (v ∷ ws)
    ∙ ap (insert w) (sort_sorted (v ∷ ws) (ground arith))
    ∙ insert_before w v ws (ground arith)

split_word : (sep : ℕ) (w : Text) → has sep w ≡ false → split sep w ≡ w ∷ []
unfolding split
split_word sep [] h = refl
split_word sep (c ∷ cs) h = ground (arith, split_word sep cs)

-- There is always a first word.
split_some : (sep : ℕ) (cs : Text) → (w : Text) × (ws : List Text) × (split sep cs ≡ w ∷ ws)
unfolding split
split_some sep [] = ([], [], refl)
split_some sep (c ∷ cs) =
    let (w, ws, e) = split_some sep cs in
    elim (Bool-cases (nat_beq c sep)) [
      | inl q ↦ ([], w ∷ ws, ground (arith, e, q))
      | inr q ↦ (c ∷ w, ws, ground (arith, e, q))
    ]

split_sep :
    (sep : ℕ) (vs : List Text)
    → (w : Text) × (ws : List Text) × (vs ≡ w ∷ ws)
    → extend sep sep vs ≡ [] ∷ vs
unfolding extend
split_sep sep vs (w, ws, e) = ground (arith, e, nat_beq_iff sep sep)

split_words :
    (sep : ℕ) (w rest : Text)
    → has sep w ≡ false
    → split sep (w ++ (sep ∷ rest)) ≡ w ∷ split sep rest
unfolding split
split_words sep [] rest h = split_sep sep (split sep rest) (split_some sep rest)
split_words sep (c ∷ w) rest h = ground (arith, split_words sep w rest)

-- Splitting a joined text gives the words back, if there is one and none has the separator.
pub split-join :
    (sep : ℕ) (w : Text) (ws : List Text)
    → all (λ v. not (has sep v)) (w ∷ ws) ≡ true
    → split sep (join sep (w ∷ ws)) ≡ w ∷ ws
unfolding join
split-join sep w [] h = split_word sep w (ground arith)
split-join sep w (v ∷ ws) h =
    split_words sep w (join sep (v ∷ ws)) (ground arith)
    ∙ ap (λ (vs : List Text). w ∷ vs) (split-join sep v ws (ground arith))

-- Cutting at the first separator behind a text that has none.
pub cut-append : (sep : ℕ) (a b : Text) → has sep a ≡ false → cut sep (a ++ (sep ∷ b)) ≡ (a, some b)
unfolding cut
cut-append sep [] b h = ground (arith, nat_beq_iff sep sep)
cut-append sep (c ∷ a) b h = ground (arith, cut-append sep a b)

pub cut_whole : (sep : ℕ) (a : Text) → has sep a ≡ false → cut sep a ≡ (a, none)
unfolding cut
cut_whole sep [] h = refl
cut_whole sep (c ∷ a) h = ground (arith, cut_whole sep a)
