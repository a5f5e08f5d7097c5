-- ===== src/Olm/Tests/Registry.antt =====
-- The theorems on the config maps of a catalog at a gzip writer that stores what it gets,
-- and holds back what was not flushed.
use operator_sdk.Base.{
  ℕ, ◌+◌, Bool, true, false, if◌then◌else◌, Option, none, some, List, [], ◌∷◌, map, length, ◌≡◌,
  refl, arith,
}
use operator_sdk.Base.Text.{codes}
use operator_sdk.Base.Split.{Text}
use operator_sdk.Errors.{ok}
use operator_sdk.Olm.Registry.ConfigMaps.{
  Op, write, flush, Gzip, ConfigMap, new_gzip_writer, get_config_maps,
}
use operator_sdk.Olm.Registry.ConfigMaps.Packing.{
  IsGzip, documents, packed_maps, get_config_maps-packed_maps,
}
use operator_sdk.Olm.Registry.ConfigMaps.Laws.{
  contents, IsUnzip, stream, concat, unpacked, get_config_maps-unpacked,
}
use operator_sdk.Olm.Registry.ConfigMaps.Names.{HasDistinctNames, get_config_maps-HasDistinctNames}

abbrev has_flush : List Op → Bool
has_flush [] = false
has_flush (write t ∷ ops) = has_flush ops
has_flush (flush ∷ ops) = true

-- What was written before the last flush; the rest is held back.
abbrev flushed_length : List Op → ℕ
flushed_length [] = 0
flushed_length (write t ∷ ops) =
    let rest = flushed_length ops in if has_flush ops then length t + rest else 0
flushed_length (flush ∷ ops) = flushed_length ops

abbrev stored_length : List Op → ℕ
stored_length [] = 0
stored_length (op ∷ ops) = 10 + flushed_length (op ∷ ops)

abbrev header : Text → Text
header t = 31 ∷ 139 ∷ 8 ∷ 0 ∷ 0 ∷ 0 ∷ 0 ∷ 0 ∷ 0 ∷ 255 ∷ t

abbrev behind_header : Text → Option Text
behind_header (a ∷ b ∷ c ∷ d ∷ e ∷ f ∷ g ∷ h ∷ i ∷ j ∷ t) = some t
behind_header _ = none

abbrev pub store : Gzip
store = record {
  buffered = stored_length;
  closed = λ ops. header (contents ops);
  write_error = λ ops t. none;
  flush_error = λ ops. none;
  close_error = λ ops. none;
}

pub store-IsGzip : IsGzip store
store-IsGzip = record {
  writes = λ ops t. refl;
  flushes = λ ops. refl;
  closes = λ ops. refl;
  no_header = refl;
  header = λ t ops. omega arith;
}

store-IsUnzip : IsUnzip store behind_header
store-IsUnzip ops = refl

-- A map without data leaves 28 bytes of the limit, so that two documents fit.
abbrev pub large : ConfigMap → ℕ
large m = 1_048_535

abbrev definitions : List Text
definitions = codes " a: 1 " ∷ codes "\n" ∷ codes "b: 2" ∷ codes "c: 3" ∷ []

get_config_maps-packed_maps_example :
    get_config_maps store large (codes "etcd") (new_gzip_writer (codes "ns")) definitions ≡ (
      new_gzip_writer (codes "ns"),
      ok (packed_maps store large (codes "etcd") (codes "ns") (documents definitions)),
    )
get_config_maps-packed_maps_example =
    get_config_maps-packed_maps store large (codes "etcd") (codes "ns") store-IsGzip definitions

get_config_maps-unpacked_example :
    (maps : List ConfigMap) × (gs : List (List Text)) × ((get_config_maps store large
        (codes "etcd")
        (new_gzip_writer (codes "ns"))
        definitions).1
      ≡ ok maps)
    × (map (unpacked behind_header) maps ≡ map (λ g. some (stream g)) gs)
    × (concat gs ≡ documents definitions)
get_config_maps-unpacked_example =
    get_config_maps-unpacked store large (codes "etcd") (codes "ns") behind_header store-IsUnzip
      store-IsGzip definitions

get_config_maps-HasDistinctNames_example :
    (maps : List ConfigMap) × ((get_config_maps store large
        (codes "etcd")
        (new_gzip_writer (codes "ns"))
        definitions).1
      ≡ ok maps)
    × HasDistinctNames maps
get_config_maps-HasDistinctNames_example =
    get_config_maps-HasDistinctNames store large (codes "etcd") (codes "ns") store-IsGzip
      definitions

-- The second document fits behind the first, and the third does not.
two_maps :
    (maps : List ConfigMap) × ((get_config_maps store large
        (codes "etcd")
        (new_gzip_writer (codes "ns"))
        definitions).1
      ≡ ok maps)
    × (map (unpacked behind_header) maps
        ≡ some (codes "a: 1\n---\nb: 2") ∷ some (codes "c: 3") ∷ [])
unfolding get_config_maps unpacked contents new_gzip_writer
two_maps = (_, refl, refl)
