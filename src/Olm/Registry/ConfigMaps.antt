-- ===== src/Olm/Registry/ConfigMaps.antt =====
-- internal/olm/operator/registry/fbcindex: configMapWriter.go, and the partition of a file-based
-- catalog into config maps of fbc_registry_pod.go.
pub mod Packing
pub mod Laws
pub mod Names
use Prim.Native.Nat.{◌*◌, ◌/◌, ◌%◌}
use operator_sdk.Base.{
  ℕ, zero, suc, ◌+◌, ◌-◌, Bool, true, false, Option, none, some, List, [], ◌∷◌, ◌++◌, ltb, leb,
  length, if◌then◌else◌,
}
use operator_sdk.Base.Text.{codes, trim_space}
use operator_sdk.Base.Split.{Text}
use operator_sdk.Errors.{Error, Result, ok, err}

-- What a `gzip.Writer` was asked since it was reset.
pub data Op : Type 0 where
  write : Text → Op
  flush : Op

-- `gzip.Writer` on a `bytes.Buffer`, by what it was asked: the length of the buffer, the buffer
-- after `Close`, and the errors of the calls.
pub record Gzip : Type 0 where
  pub buffered : List Op → ℕ
  pub closed : List Op → Text
  pub write_error : List Op → Text → Option Error
  pub flush_error : List Op → Option Error
  pub close_error : List Op → Option Error

abbrev pub yaml_separator : Text
yaml_separator = codes "\n---\n"

abbrev pub max_config_map_size : ℕ
max_config_map_size = 1 * 1024 * 1024

abbrev pub gzip_suffix_length : ℕ
gzip_suffix_length = 13

abbrev pub max_gzip_length : ℕ
max_gzip_length = max_config_map_size - gzip_suffix_length

abbrev pub default_config_map_key : Text
default_config_map_key = codes "extraFBC"

-- The encoding is the only annotation, and `binary_data` stands under `defaultConfigMapKey`.
pub record ConfigMap : Type 0 where
  pub namespace : Text
  pub name : Text
  pub encoding : Text
  pub binary_data : Option Text

-- `gzipCMWriter`: a buffer and its writer are what the writer was asked.
pub record GzipCmWriter : Type 0 where
  pub actual : List Op
  pub helper : List Op
  pub namespace : Text

unfoldable pub new_gzip_writer : Text → GzipCmWriter
new_gzip_writer ns = record { actual = []; helper = []; namespace = ns }

unfoldable pub reset : GzipCmWriter → GzipCmWriter
reset w = record w { actual = []; helper = [] }

unfoldable pub new_config_map : GzipCmWriter → Text → ConfigMap
new_config_map w name = record {
  namespace = w.namespace;
  name = name;
  encoding = codes "gzip+base64";
  binary_data = none;
}

unfoldable pub get_file_path : Text
get_file_path = default_config_map_key ++ codes ".yaml.gz"

-- The decimal digits of `%d`; the fuel is the number itself, which has fewer digits.
unfoldable pub digits : ℕ → ℕ → Text
digits zero n = (48 + n) ∷ []
digits (suc f) n =
    let rest = digits f (n / 10) in if ltb n 10 then (48 + n) ∷ [] else rest ++ ((48 + n % 10) ∷ [])

unfoldable pub partition_name : Text → ℕ → Text
unfolding digits
partition_name name i = name ++ (codes "-partition-" ++ digits i i)

module _ (Z : Gzip) where
  -- `isEmpty`, which says whether the buffer has data.
  unfoldable pub is_empty : GzipCmWriter → Bool
  is_empty w = ltb 0 (Z.buffered w.actual)

  unfoldable pub exceed_max_length : GzipCmWriter → ℕ → Text → Result (GzipCmWriter × Bool)
  exceed_max_length w cm_size bytes = elim (Z.write_error w.helper bytes) [
    | some e ↦ err e
    | none ↦
        let written = w.helper ++ (write bytes ∷ []) in
        elim (Z.flush_error written) [
          | some e ↦ err e
          | none ↦
              let helper = written ++ (flush ∷ []) in
              ok (record w { helper = helper }, ltb max_gzip_length (cm_size + Z.buffered helper))
        ]
  ]

  -- `closeCM`; `Flush` does nothing on a closed writer.
  unfoldable pub close_cm : GzipCmWriter → ConfigMap → Result (GzipCmWriter × ConfigMap)
  unfolding reset
  close_cm w cm = elim (Z.close_error w.actual) [
    | some e ↦ err e
    | none ↦ ok (reset w, record cm { binary_data = some (Z.closed w.actual) })
  ]

  unfoldable pub add_data : GzipCmWriter → Text → Result GzipCmWriter
  add_data w bytes = elim (Z.write_error w.helper bytes) [
    | some e ↦ err e
    | none ↦ elim (Z.write_error w.actual bytes) [
      | some e ↦ err e
      | none ↦ ok (record w {
        helper = w.helper ++ (write bytes ∷ []);
        actual = w.actual ++ (write bytes ∷ []);
      })
    ]
  ]

  unfoldable pub continue_add_data : GzipCmWriter → Text → Result GzipCmWriter
  continue_add_data w bytes = elim (Z.write_error w.actual bytes) [
    | some e ↦ err e
    | none ↦ ok (record w { actual = w.actual ++ (write bytes ∷ []) })
  ]

  -- `writeLastFragment`, which leaves the writer closed until it is reset.
  unfoldable pub write_last_fragment : GzipCmWriter → ConfigMap → Result ConfigMap
  write_last_fragment w cm = elim (Z.close_error w.actual) [
    | some e ↦ err e
    | none ↦ ok (record cm { binary_data = some (Z.closed w.actual) })
  ]

-- The variables of the loop of `getConfigMaps`; `full` are the maps before the last.
pub record Partition : Type 0 where
  pub writer : GzipCmWriter
  pub full : List ConfigMap
  pub cm : ConfigMap
  pub cm_size : ℕ
  pub count : ℕ

module _ (Z : Gzip) (size : ConfigMap → ℕ) (config_map_name : Text) where
  -- A document that does not fit starts the next map.
  unfoldable pub next_partition : Partition → GzipCmWriter → Text → Result Partition
  unfolding close_cm add_data new_config_map partition_name
  next_partition s w doc = elim (close_cm Z w s.cm) [
    | err e ↦ err e
    | ok (closed, full_cm) ↦
        let cm = new_config_map closed (partition_name config_map_name (s.count + 1)) in
        elim (add_data Z closed doc) [
          | err e ↦ err e
          | ok added ↦ ok (record {
            writer = added;
            full = s.full ++ (full_cm ∷ []);
            cm = cm;
            cm_size = size cm;
            count = s.count + 1;
          })
        ]
  ]

  -- The body of the loop, behind the test for an empty document.
  unfoldable pub add_document : Partition → Text → Result Partition
  unfolding is_empty exceed_max_length add_data continue_add_data next_partition
  add_document s doc =
      if is_empty Z s.writer
      then elim (exceed_max_length Z s.writer s.cm_size (yaml_separator ++ doc)) [
        | err e ↦ err e
        | ok (w, true) ↦ next_partition s w doc
        | ok (w, false) ↦ elim (continue_add_data Z w (yaml_separator ++ doc)) [
          | err e ↦ err e
          | ok added ↦ ok (record s { writer = added })
        ]
      ]
      else elim (add_data Z s.writer doc) [
        | err e ↦ err e
        | ok added ↦ ok (record s { writer = added })
      ]

  unfoldable pub add_documents : Partition → List Text → Result Partition
  unfolding add_document trim_space
  add_documents s [] = ok s
  add_documents s (d ∷ ds) = elim (trim_space d) [
    | [] ↦ add_documents s ds
    | c ∷ cs ↦ elim (add_document s (c ∷ cs)) [ err e ↦ err e | ok t ↦ add_documents t ds ]
  ]

  -- The state before the loop.
  unfoldable pub first_partition : GzipCmWriter → Partition
  unfolding new_config_map partition_name
  first_partition w =
      let cm = new_config_map w (partition_name config_map_name 1) in
      record { writer = w; full = []; cm = cm; cm_size = size cm; count = 1 }

  -- `getConfigMaps`, with the writer that it leaves.
  unfoldable pub get_config_maps : GzipCmWriter → List Text → GzipCmWriter × Result (List ConfigMap)
  unfolding add_documents first_partition write_last_fragment reset
  get_config_maps w defs = (
    reset w,
    elim (add_documents (first_partition w) defs) [
      | err e ↦ err e
      | ok s ↦ elim (write_last_fragment Z s.writer s.cm) [
        | err e ↦ err e
        | ok cm ↦ ok (s.full ++ (cm ∷ []))
      ]
    ],
  )

  -- The loop of `partitionedConfigMaps` over what the YAML reader gives before the end of the
  -- content: an empty document is passed over.
  unfoldable pub read_documents : List (Result Text) → Result (List Text)
  read_documents [] = ok []
  read_documents (err e ∷ rs) = err e
  read_documents (ok [] ∷ rs) = read_documents rs
  read_documents (ok (c ∷ cs) ∷ rs) = elim (read_documents rs) [
    | err e ↦ err e
    | ok ds ↦ ok ((c ∷ cs) ∷ ds)
  ]

  unfoldable pub partitioned_config_maps :
      GzipCmWriter → List (Result Text) → Result (List ConfigMap)
  unfolding read_documents get_config_maps
  partitioned_config_maps w rs = elim (read_documents rs) [
    | err e ↦ err e
    | ok ds ↦ (get_config_maps w ds).1
  ]
