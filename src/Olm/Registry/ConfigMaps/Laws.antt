-- ===== src/Olm/Registry/ConfigMaps/Laws.antt =====
-- What the config maps of a catalog hold, and how large they are.
use mathlib.Core.List.{append_assoc, append-nil}
use operator_sdk.Base.{
  ℕ, ◌+◌, ◌≤◌, true, Option, none, some, List, [], ◌∷◌, ◌++◌, map, ◌≡◌, refl, ap, ◌∙◌, arith,
  length, ◌⊎◌, inl, inr, Bool-cases,
}
use operator_sdk.Base.Split.{Text}
use operator_sdk.Errors.{ok}
use operator_sdk.Olm.Registry.ConfigMaps.{
  Op, write, flush, Gzip, yaml_separator, max_config_map_size, gzip_suffix_length, ConfigMap,
  new_gzip_writer, get_config_maps,
}
use operator_sdk.Olm.Registry.ConfigMaps.Packing.{
  IsGzip, documents, separated, entries, tried, fits, filled_map, pack, numbered_maps, packed_maps,
  get_config_maps-packed_maps,
}

-- What was written, without the flushes between.
unfoldable pub contents : List Op → Text
contents [] = []
contents (write t ∷ ops) = t ++ contents ops
contents (flush ∷ ops) = contents ops

-- `gzip -d`: it gives back what was written.
abbrev pub IsUnzip : Gzip → (Text → Option Text) → Type 0
IsUnzip Z unzip = (ops : List Op) → unzip (Z.closed ops) ≡ some (contents ops)

-- Documents as one YAML stream.
unfoldable pub stream : List Text → Text
stream [] = []
stream (d ∷ []) = d
stream (d ∷ e ∷ ds) = d ++ (yaml_separator ++ stream (e ∷ ds))

abbrev pub concat : List (List Text) → List Text
concat [] = []
concat (g ∷ gs) = g ++ concat gs

-- What a config map gives when its data is unpacked.
unfoldable pub unpacked : (Text → Option Text) → ConfigMap → Option Text
unpacked unzip m = elim m.binary_data [ none ↦ none | some bytes ↦ unzip bytes ]

contents-entries : (d : Text) (rest : List Text) → contents (entries d rest) ≡ stream (d ∷ rest)
unfolding contents entries stream
contents-entries d [] = append-nil d
contents-entries d (x ∷ xs) =
    ap (λ (t : Text). d ++ t)
      (append_assoc yaml_separator x (contents (map separated xs))
        ∙ ap (λ (t : Text). yaml_separator ++ t) (contents-entries x xs))

module _ (Z : Gzip) (size : ConfigMap → ℕ) (name ns : Text) where
  groups : List (Text × List Text) → List (List Text)
  groups [] = []
  groups ((d, rest) ∷ gs) = (d ∷ rest) ∷ groups gs

  concat-groups-pack :
      (i : ℕ) (d : Text) (rest ds : List Text)
      → concat (groups (pack Z size name ns i d rest ds)) ≡ (d ∷ rest) ++ ds
  unfolding pack groups
  concat-groups-pack i d rest [] = refl
  concat-groups-pack i d rest (x ∷ xs) =
      elim (Bool-cases (fits Z size name ns i d (rest ++ (x ∷ [])))) [
        | inl q ↦
            ground (
              arith,
              q,
              concat-groups-pack i d (rest ++ (x ∷ [])) xs,
              append_assoc rest (x ∷ []) xs,
            )
        | inr q ↦ ground (arith, q, concat-groups-pack (i + 1) x [] xs)
      ]

  module _ (unzip : Text → Option Text) (U : IsUnzip Z unzip) where
    unpacked-numbered_maps :
        (i : ℕ) (gs : List (Text × List Text))
        → map (unpacked unzip) (numbered_maps Z size name ns i gs)
          ≡ map (λ g. some (stream g)) (groups gs)
    unfolding numbered_maps unpacked filled_map groups
    unpacked-numbered_maps i [] = refl
    unpacked-numbered_maps i ((d, rest) ∷ gs) =
        ground
          (arith, U (entries d rest), contents-entries d rest, unpacked-numbered_maps (i + 1) gs)

    packed_maps-unpacked :
        (ds : List Text)
        → (gs : List (List Text)) × (map (unpacked unzip) (packed_maps Z size name ns ds)
            ≡ map (λ g. some (stream g)) gs)
          × (concat gs ≡ ds)
    unfolding packed_maps
    packed_maps-unpacked [] =
        ([] ∷ [], unfold unpacked filled_map stream contents in ground (arith, U []), refl)
    packed_maps-unpacked (d ∷ ds) =
        let gs = pack Z size name ns 1 d [] ds in
        (groups gs, unpacked-numbered_maps 1 gs, concat-groups-pack 1 d [] ds)

    -- The config maps unpack to YAML streams of the documents: in order, each document whole and in
    -- one map.
    pub get_config_maps-unpacked :
        (L : IsGzip Z) (defs : List Text)
        → (maps : List ConfigMap) × (gs : List (List Text)) × ((get_config_maps Z size name
              (new_gzip_writer ns)
              defs).1
            ≡ ok maps)
          × (map (unpacked unzip) maps ≡ map (λ g. some (stream g)) gs)
          × (concat gs ≡ documents defs)
    get_config_maps-unpacked L defs =
        let (gs, u, c) = packed_maps-unpacked (documents defs) in
        (
          packed_maps Z size name ns (documents defs),
          gs,
          ap (λ p. p.1) (get_config_maps-packed_maps Z size name ns L defs),
          u,
          c,
        )

-- What was written, without the flushes.
unfoldable pub unflushed : List Op → List Op
unflushed [] = []
unflushed (write t ∷ ops) = write t ∷ unflushed ops
unflushed (flush ∷ ops) = unflushed ops

-- What the code relies on: a writer that is closed without any flush has at most
-- `gzipSuffixLength` bytes more than the buffer of one that was flushed on the way and at the end,
-- when nothing is held back.
abbrev pub HasSuffix : Gzip → Type 0
HasSuffix Z =
    (ops : List Op)
    → length (Z.closed (unflushed ops)) ≤ Z.buffered (ops ++ (flush ∷ [])) + gzip_suffix_length

-- The map is within the limit, or at most one document was written into it.
unfoldable pub IsBounded : Gzip → (ConfigMap → ℕ) → ConfigMap → Type 0
IsBounded Z size m =
    (bytes : Text) × (m.binary_data ≡ some bytes)
    × ((size (record m { binary_data = none }) + length bytes ≤ max_config_map_size)
        ⊎ ((ops : List Op) × (length ops ≤ 1) × (bytes ≡ Z.closed ops)))

-- The writes of the documents that were tried, without the last flush.
tried_but_flush : List Text → Text → List Op
tried_but_flush r x = tried r ++ (separated x ∷ [])

module _ (Z : Gzip) (size : ConfigMap → ℕ) (name ns : Text) (S : HasSuffix Z) where
  -- A first document, or one that was tried.
  Fits : ℕ → Text → List Text → Type 0
  Fits i d rest =
      (rest ≡ [])
      ⊎ ((r : List Text) × (x : Text) × (rest ≡ r ++ (x ∷ []))
          × (fits Z size name ns i d rest ≡ true))
