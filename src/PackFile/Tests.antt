-- ===== src/PackFile/Tests.antt =====
-- Small records and their bytes.
use unpack.Prelude.{true, false, none, some, List, [], ◌∷◌, ◌≡◌, refl, arith, Option}
use unpack.PackFile.Coder.{
  Bytes, ℤ, run_encoder, run_decoder, is_utf8, ◌>>◌, return, refuse, write_u8, write_bool,
  write_u64, write_path, write_string, write_optional, write_list, write_optional_timestamp,
  write_record_string, to_le_bytes, write_u32, write_bytes,
}
use unpack.PackFile.Dto.{
  ResolveRecordDto, ModuleTypeDto, AssetRenderRecordDto, DependencyDto, SnapshotDto,
  SnapshotEntryDto, ManagedItemStateDto, ModuleBuildRecordDto, ParsedModuleDataDto,
}
use unpack.PackFile.Written.{Each}
use unpack.PackFile.Snapshot.{SnapshotFits, encode_snapshot, decode_snapshot}
use unpack.PackFile.Resolve.{
  ResolveRecordFits, AssetRenderRecordFits, encode_resolve_record, decode_resolve_record,
  encode_asset_render_record,
}
use unpack.PackFile.Parsed.{DependencyFits, encode_dependencies, decode_dependencies}
use unpack.PackFile.RoundTrip.{
  decode_resolve_record-encode, decode_dependencies-encode, decode_snapshot-encode,
  decode_module_build_record-encode,
}
use unpack.PackFile.Ranges.{validate_module_build_record}
use unpack.PackFile.Build.{encode_module_build_record, decode_module_build_record, BuildRecordFits}

abbrev or_empty : Option Bytes → Bytes
or_empty none = []
or_empty (some bytes) = bytes

abbrev a_snapshot : SnapshotDto
a_snapshot = record {
  entries =
      SnapshotEntryDto.file (47 ∷ 97 ∷ []) true
        (some (record { seconds = ℤ.negsuc 4; nanoseconds = 999999999 })) (some 300)
      ∷ SnapshotEntryDto.managed_path (47 ∷ []) (47 ∷ [])
          (ManagedItemStateDto.managed_package (195 ∷ 169 ∷ []) (49 ∷ []))
      ∷ [];
}

abbrev a_record : ResolveRecordDto
a_record = record {
  identity = record {
    module_type = ModuleTypeDto.asset_inline;
    resource = 47 ∷ 97 ∷ [];
    query = some (63 ∷ 120 ∷ []);
    fragment = none;
    layer = none;
    loaders = [];
  };
  resource = 47 ∷ 97 ∷ [];
  file_dependencies = (47 ∷ 98 ∷ []) ∷ [];
  context_dependencies = [];
  missing_dependencies = [];
  snapshot = a_snapshot;
}

abbrev some_dependencies : List DependencyDto
some_dependencies =
    DependencyDto.import_dependency (record {
      request = 97 ∷ [];
      user_request = 97 ∷ [];
      source_order = some 2;
      range = some (record { start = 3; end = 700 });
      weak = false;
    })
    ∷ DependencyDto.null
    ∷ []

abbrev an_asset : AssetRenderRecordDto
an_asset = record { source = 97 ∷ 98 ∷ []; source_map = some (123 ∷ 125 ∷ []) }

a_snapshot-fits : SnapshotFits a_snapshot
unfolding is_utf8
a_snapshot-fits = (((omega arith, omega arith), omega arith), ((refl, refl), tt))

a_record-fits : ResolveRecordFits a_record
unfolding is_utf8
a_record-fits = (refl, tt, tt, tt, a_snapshot-fits)

some_dependencies-fit : Each DependencyFits some_dependencies
unfolding is_utf8
some_dependencies-fit = ((refl, refl, omega arith, (omega arith, omega arith)), (tt, tt))

an_asset-fits : AssetRenderRecordFits an_asset
unfolding is_utf8
an_asset-fits = (refl, refl)

abbrev record_bytes : Bytes
record_bytes = or_empty (encode_resolve_record a_record)

abbrev snapshot_bytes : Bytes
snapshot_bytes = or_empty (run_encoder (encode_snapshot a_snapshot))

abbrev dependency_bytes : Bytes
dependency_bytes = or_empty (run_encoder (encode_dependencies some_dependencies))

abbrev asset_bytes : Bytes
asset_bytes = or_empty (encode_asset_render_record an_asset)

record_bytes-returned : encode_resolve_record a_record ≡ some record_bytes
unfolding encode_resolve_record encode_snapshot run_encoder ◌>>◌ return refuse to_le_bytes
    write_path write_string write_optional write_list write_u64 write_bool write_u8
    write_optional_timestamp
record_bytes-returned = refl

snapshot_bytes-returned : run_encoder (encode_snapshot a_snapshot) ≡ some snapshot_bytes
unfolding encode_snapshot run_encoder ◌>>◌ return refuse to_le_bytes write_path write_string
    write_optional write_list write_u64 write_bool write_u8 write_optional_timestamp
snapshot_bytes-returned = refl

dependency_bytes-returned :
    run_encoder (encode_dependencies some_dependencies) ≡ some dependency_bytes
unfolding encode_dependencies run_encoder ◌>>◌ return refuse to_le_bytes write_u32 write_string
    write_optional write_list write_u64 write_bool write_u8
dependency_bytes-returned = refl

asset_bytes-returned : encode_asset_render_record an_asset ≡ some asset_bytes
unfolding encode_asset_render_record run_encoder ◌>>◌ return refuse to_le_bytes write_record_string
    write_optional write_u8
asset_bytes-returned = refl

decode_resolve_record-encode_example : decode_resolve_record record_bytes ≡ some a_record
decode_resolve_record-encode_example =
    decode_resolve_record-encode a_record record_bytes a_record-fits record_bytes-returned

decode_snapshot-encode_example : run_decoder decode_snapshot snapshot_bytes ≡ some a_snapshot
decode_snapshot-encode_example =
    decode_snapshot-encode a_snapshot snapshot_bytes a_snapshot-fits snapshot_bytes-returned

decode_dependencies-encode_example :
    run_decoder decode_dependencies dependency_bytes ≡ some some_dependencies
decode_dependencies-encode_example =
    decode_dependencies-encode some_dependencies dependency_bytes some_dependencies-fit
      dependency_bytes-returned

abbrev a_build_record : ModuleBuildRecordDto
a_build_record = record {
  parsed = record {
    dependencies = DependencyDto.harmony_export_specifier (97 ∷ []) (98 ∷ []) ∷ [];
    blocks = [];
    presentational_dependencies =
        DependencyDto.const (49 ∷ []) (record { start = 1; end = 3 }) ∷ [];
    identifiers = (97 ∷ []) ∷ [];
    parsed_data = ParsedModuleDataDto.javascript;
    build_side_effect_free = some true;
    uses_direct_eval = true;
  };
  source = 97 ∷ 98 ∷ 10 ∷ [];
  binary_source = none;
  source_hash = 18248625839174568941;
  snapshot = a_snapshot;
}

a_build_record-fits : BuildRecordFits a_build_record
unfolding is_utf8
a_build_record-fits = (
  refl,
  omega arith,
  (((refl, refl), tt), tt, ((refl, (omega arith, omega arith)), tt), (refl, tt), tt),
  a_snapshot-fits,
)

abbrev build_bytes : Bytes
build_bytes = or_empty (encode_module_build_record a_build_record)

build_bytes-returned : encode_module_build_record a_build_record ≡ some build_bytes
unfolding encode_module_build_record encode_snapshot encode_dependencies
    validate_module_build_record run_encoder ◌>>◌ return refuse to_le_bytes write_path write_string
    write_optional write_list write_u64 write_u32 write_bool write_u8 write_bytes
    write_record_string write_optional_timestamp
build_bytes-returned = refl

decode_module_build_record-encode_example :
    decode_module_build_record build_bytes ≡ some a_build_record
decode_module_build_record-encode_example =
    decode_module_build_record-encode a_build_record build_bytes a_build_record-fits
      build_bytes-returned
