-- ===== src/Olm/Registry/ConfigMaps/Names.antt =====
-- The names of the config maps of a catalog.
use Prim.Native.Nat.{◌*◌, ◌/◌, ◌%◌}
use mathlib.Core.List.{append_cancel_left}
use operator_sdk.Base.{
  ℕ, zero, suc, ◌+◌, ◌-◌, ◌≤◌, ◌<◌, List, [], ◌∷◌, ◌++◌, ◌≡◌, refl, sym, ap, ◌∙◌, ◌≢◌, arith, All,
  ltb, inl, inr, Bool-cases,
}
use operator_sdk.Base.Text.{codes}
use operator_sdk.Base.Split.{Text}
use operator_sdk.Errors.{ok}
use operator_sdk.Olm.Registry.ConfigMaps.{
  Gzip, ConfigMap, digits, partition_name, new_gzip_writer, get_config_maps,
}
use operator_sdk.Olm.Registry.ConfigMaps.Packing.{
  IsGzip, documents, pack, empty_map, numbered_maps, packed_maps, filled_map,
  get_config_maps-packed_maps,
}

-- The number that decimal digits stand for, behind those that were read.
unfoldable pub value : ℕ → Text → ℕ
value n [] = n
value n (c ∷ cs) = value (10 * n + (c - 48)) cs

value-append : (n : ℕ) (cs : Text) (c : ℕ) → value n (cs ++ (c ∷ [])) ≡ 10 * value n cs + (c - 48)
unfolding value
value-append n [] c = refl
value-append n (d ∷ cs) c = value-append (10 * n + (d - 48)) cs c

value-digits : (f n : ℕ) → n ≤ f → value 0 (digits f n) ≡ n
unfolding value digits
value-digits zero n h = omega (arith, h)
value-digits (suc f) n h = elim (Bool-cases (ltb n 10)) [
  | inl q ↦ ground (arith, q)
  | inr q ↦ rw q (
      value-append 0 (digits f (n / 10)) (48 + n % 10)
      ∙ omega (arith, value-digits f (n / 10) (ground arith)))
]

-- The names of two numbers differ.
partition_name-injective :
    (name : Text) (i j : ℕ) → partition_name name i ≡ partition_name name j → i ≡ j
unfolding partition_name
partition_name-injective name i j h =
    sym (value-digits i i (omega arith))
    ∙ ap (value 0) (append_cancel_left (codes "-partition-") _ _ (append_cancel_left name _ _ h))
    ∙ value-digits j j (omega arith)

-- No two maps have one name.
unfoldable pub HasDistinctNames : List ConfigMap → Type 0
HasDistinctNames [] = Unit
HasDistinctNames (m ∷ ms) = All (λ k. k.name ≢ m.name) ms × HasDistinctNames ms

module _ (Z : Gzip) (size : ConfigMap → ℕ) (name ns : Text) where
  numbered_maps-later :
      (j i : ℕ) (gs : List (Text × List Text))
      → j < i
      → All (λ k. k.name ≢ partition_name name j) (numbered_maps Z size name ns i gs)
  unfolding numbered_maps filled_map empty_map
  numbered_maps-later j i [] h = tt
  numbered_maps-later j i ((d, rest) ∷ gs) h = (
    λ e. omega (arith, h, partition_name-injective name i j e),
    numbered_maps-later j (i + 1) gs (omega (arith, h)),
  )

  numbered_maps-HasDistinctNames :
      (i : ℕ) (gs : List (Text × List Text)) → HasDistinctNames (numbered_maps Z size name ns i gs)
  unfolding numbered_maps HasDistinctNames filled_map empty_map
  numbered_maps-HasDistinctNames i [] = tt
  numbered_maps-HasDistinctNames i ((d, rest) ∷ gs) =
      (numbered_maps-later i (i + 1) gs (omega arith), numbered_maps-HasDistinctNames (i + 1) gs)

  packed_maps-HasDistinctNames : (ds : List Text) → HasDistinctNames (packed_maps Z size name ns ds)
  unfolding packed_maps HasDistinctNames
  packed_maps-HasDistinctNames [] = (tt, tt)
  packed_maps-HasDistinctNames (d ∷ ds) =
      numbered_maps-HasDistinctNames 1 (pack Z size name ns 1 d [] ds)

  -- The config maps of a catalog have different names, so that none replaces another one in the
  -- cluster.
  pub get_config_maps-HasDistinctNames :
      (L : IsGzip Z) (defs : List Text)
      → (maps : List ConfigMap) × ((get_config_maps Z size name (new_gzip_writer ns) defs).1
          ≡ ok maps)
        × HasDistinctNames maps
  get_config_maps-HasDistinctNames L defs = (
    packed_maps Z size name ns (documents defs),
    ap (λ p. p.1) (get_config_maps-packed_maps Z size name ns L defs),
    packed_maps-HasDistinctNames (documents defs),
  )
