-- ===== src/Olm/Registry/ConfigMaps/Packing.antt =====
-- The partition of a catalog into config maps as one function on documents: a map is filled as
-- long as the next document fits, and getConfigMaps computes this.
use mathlib.Core.List.{append_assoc, map-append}
use operator_sdk.Base.{
  ℕ, ◌+◌, ◌<◌, Bool, true, false, not, none, some, List, [], ◌∷◌, ◌++◌, map, ◌≡◌, refl, ap, ◌∙◌,
  arith, ltb, if◌then◌else◌, inl, inr, Bool-cases, List-cases,
}
use operator_sdk.Base.Text.{trim_space}
use operator_sdk.Base.Split.{Text}
use operator_sdk.Errors.{Result, ok, err, Result-cases}
use operator_sdk.Olm.Registry.ConfigMaps.{
  Op, write, flush, Gzip, yaml_separator, max_gzip_length, ConfigMap, GzipCmWriter, new_gzip_writer,
  reset, new_config_map, partition_name, is_empty, exceed_max_length, close_cm, add_data,
  continue_add_data, write_last_fragment, Partition, next_partition, add_document, add_documents,
  first_partition, get_config_maps,
}

-- What is relied on: a `gzip.Writer` on a buffer in memory does not fail, and writes its header
-- with the first bytes that it gets.
pub record IsGzip (Z : Gzip) : Type 0 where
  pub writes : (ops : List Op) (t : Text) → Z.write_error ops t ≡ none
  pub flushes : (ops : List Op) → Z.flush_error ops ≡ none
  pub closes : (ops : List Op) → Z.close_error ops ≡ none
  pub no_header : Z.buffered [] ≡ 0
  pub header : (t : Text) (ops : List Op) → 0 < Z.buffered (write t ∷ ops)

-- The calls of a writer that does not fail.
module _ {Z : Gzip} (L : IsGzip Z) where
  exceed_max_length_lem :
      (w : GzipCmWriter) (n : ℕ) (t : Text)
      → let asked = w.helper ++ (write t ∷ flush ∷ []) in
        exceed_max_length Z w n t
        ≡ ok (record w { helper = asked }, ltb max_gzip_length (n + Z.buffered asked))
  unfolding exceed_max_length
  exceed_max_length_lem w n t = ground (
    arith,
    L.writes w.helper t,
    L.flushes (w.helper ++ (write t ∷ [])),
    append_assoc w.helper (write t ∷ []) (flush ∷ []),
  )

  add_data_lem :
      (w : GzipCmWriter) (t : Text)
      → add_data Z w t
        ≡ ok (record w { helper = w.helper ++ (write t ∷ []); actual = w.actual ++ (write t ∷ []) })
  unfolding add_data
  add_data_lem w t = ground (arith, L.writes w.helper t, L.writes w.actual t)

  continue_add_data_lem :
      (w : GzipCmWriter) (t : Text)
      → continue_add_data Z w t ≡ ok (record w { actual = w.actual ++ (write t ∷ []) })
  unfolding continue_add_data
  continue_add_data_lem w t = ground (arith, L.writes w.actual t)

  close_cm_lem :
      (w : GzipCmWriter) (cm : ConfigMap)
      → close_cm Z w cm ≡ ok (reset w, record cm { binary_data = some (Z.closed w.actual) })
  unfolding close_cm
  close_cm_lem w cm = ground (arith, L.closes w.actual)

  write_last_fragment_lem :
      (w : GzipCmWriter) (cm : ConfigMap)
      → write_last_fragment Z w cm ≡ ok (record cm { binary_data = some (Z.closed w.actual) })
  unfolding write_last_fragment
  write_last_fragment_lem w cm = ground (arith, L.closes w.actual)

-- The documents that count: trimmed, and not empty.
unfoldable pub documents : List Text → List Text
documents [] = []
documents (d ∷ ds) =
    let rest = documents ds in elim (trim_space d) [ [] ↦ rest | c ∷ cs ↦ (c ∷ cs) ∷ rest ]

-- A document behind another one.
abbrev pub separated : Text → Op
separated d = write (yaml_separator ++ d)

unfoldable pub entries : Text → List Text → List Op
entries d rest = write d ∷ map separated rest

-- What the helper is asked: each document but the first is flushed.
unfoldable pub tried : List Text → List Op
tried [] = []
tried (d ∷ ds) = separated d ∷ flush ∷ tried ds

tried-append :
    (xs : List Text) (x : Text) → tried (xs ++ (x ∷ [])) ≡ tried xs ++ (separated x ∷ flush ∷ [])
unfolding tried
tried-append [] x = refl
tried-append (y ∷ xs) x = ap (λ (ops : List Op). separated y ∷ flush ∷ ops) (tried-append xs x)

entries-append :
    (d : Text) (xs : List Text) (x : Text)
    → entries d (xs ++ (x ∷ [])) ≡ entries d xs ++ (separated x ∷ [])
unfolding entries
entries-append d xs x = ap (λ (ops : List Op). write d ∷ ops) (map-append separated xs (x ∷ []))

module _ (Z : Gzip) (size : ConfigMap → ℕ) (config_map_name ns : Text) where
  unfoldable pub empty_map : ℕ → ConfigMap
  unfolding new_config_map new_gzip_writer
  empty_map i = new_config_map (new_gzip_writer ns) (partition_name config_map_name i)

  unfoldable pub filled_map : ℕ → List Op → ConfigMap
  filled_map i ops = record (empty_map i) { binary_data = some (Z.closed ops) }

  -- The documents fit into the map of the number.
  unfoldable pub fits : ℕ → Text → List Text → Bool
  fits i d rest = not (ltb max_gzip_length (size (empty_map i) + Z.buffered (write d ∷ tried rest)))

  -- Fill the map that holds `d` and `rest`, then the next one.
  unfoldable pub pack : ℕ → Text → List Text → List Text → List (Text × List Text)
  unfolding fits
  pack i d rest [] = (d, rest) ∷ []
  pack i d rest (x ∷ xs) =
      let more = pack i d (rest ++ (x ∷ [])) xs in
      let next = pack (i + 1) x [] xs in
      if fits i d (rest ++ (x ∷ [])) then more else (d, rest) ∷ next

  unfoldable pub numbered_maps : ℕ → List (Text × List Text) → List ConfigMap
  unfolding filled_map entries
  numbered_maps i [] = []
  numbered_maps i ((d, rest) ∷ gs) = filled_map i (entries d rest) ∷ numbered_maps (i + 1) gs

  unfoldable pub packed_maps : List Text → List ConfigMap
  unfolding filled_map numbered_maps pack
  packed_maps [] = filled_map 1 [] ∷ []
  packed_maps (d ∷ ds) = numbered_maps 1 (pack 1 d [] ds)

  -- The variables of the loop while the map `i` holds `d` and `rest`.
  filling : List ConfigMap → ℕ → Text → List Text → Partition
  filling full i d rest = record {
    writer = record { actual = entries d rest; helper = write d ∷ tried rest; namespace = ns };
    full = full;
    cm = empty_map i;
    cm_size = size (empty_map i);
    count = i;
  }

  module _ (L : IsGzip Z) where
    filling_data :
        (full : List ConfigMap) (i : ℕ) (d : Text) (rest : List Text)
        → is_empty Z (filling full i d rest).writer ≡ true
    unfolding is_empty filling entries
    filling_data full i d rest = ground (arith, L.header d (map separated rest))

    exceed_max_length-filling :
        (full : List ConfigMap) (i : ℕ) (d : Text) (rest : List Text) (x : Text)
        → let w = (filling full i d rest).writer in
          exceed_max_length Z w (size (empty_map i)) (yaml_separator ++ x)
          ≡ ok (
            record w { helper = write d ∷ tried (rest ++ (x ∷ [])) },
            not (fits i d (rest ++ (x ∷ []))),
          )
    unfolding fits filling
    exceed_max_length-filling full i d rest x = ground (
      arith,
      exceed_max_length_lem L (filling full i d rest).writer (size (empty_map i))
          (yaml_separator ++ x),
      tried-append rest x,
    )

    add_document-fits :
        (full : List ConfigMap) (i : ℕ) (d : Text) (rest : List Text) (x : Text)
        → fits i d (rest ++ (x ∷ [])) ≡ true
        → add_document Z size config_map_name (filling full i d rest) x
          ≡ ok (filling full i d (rest ++ (x ∷ [])))
    unfolding add_document filling
    add_document-fits full i d rest x h = ground (
      arith,
      h,
      filling_data full i d rest,
      exceed_max_length-filling full i d rest x,
      entries-append d rest x,
      continue_add_data_lem L
          (record {
            actual = entries d rest;
            helper = write d ∷ tried (rest ++ (x ∷ []));
            namespace = ns;
          })
          (yaml_separator ++ x),
    )

    next_partition_lem :
        (s : Partition) (w : GzipCmWriter) (x : Text)
        → let cm = new_config_map w (partition_name config_map_name (s.count + 1)) in
          next_partition Z size config_map_name s w x
          ≡ ok (record {
            writer = record w { helper = write x ∷ []; actual = write x ∷ [] };
            full = s.full ++ (record s.cm { binary_data = some (Z.closed w.actual) } ∷ []);
            cm = cm;
            cm_size = size cm;
            count = s.count + 1;
          })
    unfolding next_partition reset new_config_map
    next_partition_lem s w x = ground (arith, close_cm_lem L w s.cm, add_data_lem L (reset w) x)

    add_document-full :
        (full : List ConfigMap) (i : ℕ) (d : Text) (rest : List Text) (x : Text)
        → fits i d (rest ++ (x ∷ [])) ≡ false
        → add_document Z size config_map_name (filling full i d rest) x
          ≡ ok (filling (full ++ (filled_map i (entries d rest) ∷ [])) (i + 1) x [])
    unfolding add_document filling entries empty_map
    add_document-full full i d rest x h =
        let w : GzipCmWriter = record {
          actual = entries d rest;
          helper = write d ∷ tried (rest ++ (x ∷ []));
          namespace = ns;
        } in
        rw (filling_data full i d rest, exceed_max_length-filling full i d rest x, h)
          (unfold filling filled_map tried in next_partition_lem (filling full i d rest) w x)

    -- What follows the loop.
    finish : Result Partition → Result (List ConfigMap)
    finish (err e) = err e
    finish (ok s) = elim (write_last_fragment Z s.writer s.cm) [
      | err e ↦ err e
      | ok cm ↦ ok (s.full ++ (cm ∷ []))
    ]

    -- The loop over the documents that count.
    add_counted : Partition → List Text → Result Partition
    add_counted s [] = ok s
    add_counted s (d ∷ ds) = elim (add_document Z size config_map_name s d) [
      | err e ↦ err e
      | ok t ↦ add_counted t ds
    ]

    add_documents-eq-add_counted :
        (s : Partition) (defs : List Text)
        → add_documents Z size config_map_name s defs ≡ add_counted s (documents defs)
    unfolding add_documents documents add_counted
    add_documents-eq-add_counted s [] = refl
    add_documents-eq-add_counted s (x ∷ xs) = elim (List-cases (trim_space x)) [
      | inl e ↦ ground (arith, e, add_documents-eq-add_counted s xs)
      | inr (c, cs, e) ↦ elim (Result-cases (add_document Z size config_map_name s (c ∷ cs))) [
        | inl (t, q) ↦ ground (arith, e, q, add_documents-eq-add_counted t xs)
        | inr (f, q) ↦ ground (arith, e, q)
      ]
    ]

    add_counted-ok :
        (s t : Partition) (d : Text) (ds : List Text)
        → add_document Z size config_map_name s d ≡ ok t
        → add_counted s (d ∷ ds) ≡ add_counted t ds
    unfolding add_counted
    add_counted-ok s t d ds h = ground (arith, h)

    add_counted-filling :
        (full : List ConfigMap) (i : ℕ) (d : Text) (rest : List Text) (ds : List Text)
        → finish (add_counted (filling full i d rest) ds)
          ≡ ok (full ++ numbered_maps i (pack i d rest ds))
    unfolding finish add_counted numbered_maps pack
    add_counted-filling full i d rest [] =
        unfold filling filled_map in
        ground (arith, write_last_fragment_lem L (filling full i d rest).writer (empty_map i))
    add_counted-filling full i d rest (x ∷ xs) = elim (Bool-cases (fits i d (rest ++ (x ∷ [])))) [
      | inl q ↦ ground (
        arith,
        q,
        add_counted-ok (filling full i d rest) (filling full i d (rest ++ (x ∷ []))) x xs
            (add_document-fits full i d rest x q),
        add_counted-filling full i d (rest ++ (x ∷ [])) xs,
      )
      | inr q ↦
          let more = full ++ (filled_map i (entries d rest) ∷ []) in
          ground (
            arith,
            q,
            add_counted-ok (filling full i d rest) (filling more (i + 1) x []) x xs
                (add_document-full full i d rest x q),
            add_counted-filling more (i + 1) x [] xs,
            append_assoc full (filled_map i (entries d rest) ∷ [])
                (numbered_maps (i + 1) (pack (i + 1) x [] xs)),
          )
    ]

    add_document-first :
        (x : Text)
        → add_document Z size config_map_name
            (first_partition Z size config_map_name (new_gzip_writer ns))
            x
          ≡ ok (filling [] 1 x [])
    unfolding add_document first_partition new_gzip_writer is_empty filling empty_map entries tried
    add_document-first x = ground (arith, L.no_header, add_data_lem L (new_gzip_writer ns) x)

    add_counted-first :
        (ds : List Text)
        → finish (add_counted (first_partition Z size config_map_name (new_gzip_writer ns)) ds)
          ≡ ok (packed_maps ds)
    unfolding finish add_counted packed_maps
    add_counted-first [] =
        unfold first_partition new_gzip_writer filled_map empty_map in
        ground (arith, write_last_fragment_lem L (new_gzip_writer ns) (empty_map 1))
    add_counted-first (d ∷ ds) =
        ap finish (add_counted-ok _ _ d ds (add_document-first d))
        ∙ add_counted-filling [] 1 d [] ds

    get_config_maps-finish :
        (defs : List Text)
        → get_config_maps Z size config_map_name (new_gzip_writer ns) defs ≡ (
          new_gzip_writer ns,
          finish (
              add_documents Z size config_map_name
                (first_partition Z size config_map_name (new_gzip_writer ns))
                defs),
        )
    unfolding get_config_maps finish new_gzip_writer reset
    get_config_maps-finish defs =
        elim (Result-cases (
          add_documents Z size config_map_name
            (first_partition Z size config_map_name (new_gzip_writer ns)) defs)) [
              | inl (t, q) ↦ rw q refl
              | inr (e, q) ↦ rw q refl
            ]

    -- Where the gzip writer does not fail and writes its header with the first bytes, getConfigMaps
    -- does not fail, leaves the writer as it was, and returns the maps of the packing.
    pub get_config_maps-packed_maps :
        (defs : List Text)
        → get_config_maps Z size config_map_name (new_gzip_writer ns) defs
          ≡ (new_gzip_writer ns, ok (packed_maps (documents defs)))
    get_config_maps-packed_maps defs =
        get_config_maps-finish defs
        ∙ ap (λ (r : Result (List ConfigMap)). (new_gzip_writer ns, r))
            (ap finish (add_documents-eq-add_counted _ defs) ∙ add_counted-first (documents defs))
