-- ===== src/PackFile/Build.antt =====
-- The codec of Module Build Records of crates/unpack_core/src/cache/pack_file.rs.
use unpack.Prelude.{◌≡◌, zero, suc, Bool, true, false, Option, none, some, if◌then◌else◌, refl}
use unpack.PackFile.Coder.{
  Coder, Bytes, ◌>>=◌, ◌>>◌, return, refuse, write_u8, write_u64, write_bool, write_string,
  write_bytes, write_record_string, write_optional, write_list, read_u8, read_u64, read_bool,
  read_string, read_bytes, read_record_string, read_optional, read_list, run_encoder, run_decoder,
}
use unpack.PackFile.Dto.{
  ModuleTypeDto, AsyncDependenciesBlockDto, ParsedModuleDataDto, ParsedModuleDto,
  ModuleBuildRecordDto,
}
use unpack.PackFile.Snapshot.{encode_snapshot, decode_snapshot, SnapshotFits, Writes-snapshot}
use unpack.PackFile.Resolve.{encode_module_type}
use unpack.PackFile.Parsed.{
  encode_dependencies, decode_dependencies, DependencyFits, Writes-dependencies,
}
use unpack.PackFile.Ranges.{validate_module_build_record}
use unpack.PackFile.Written.{
  Writes, Writes-seq, Writes-map, Writes-check, Writes-u8, Writes-u64, Writes-bool, Writes-string,
  Writes-bytes, Writes-record_string, Writes-optional, Writes-list, IsUtf8, IsU64, IfSome, Each,
}

unfoldable pub encode_block : AsyncDependenciesBlockDto → Coder Unit
encode_block block = encode_dependencies block.dependencies

unfoldable pub decode_block : Coder AsyncDependenciesBlockDto
decode_block = do
  dependencies ← decode_dependencies
  return (record { dependencies = dependencies })

unfoldable pub encode_data : ParsedModuleDataDto → Coder Unit
encode_data ParsedModuleDataDto.javascript = write_u8 0
encode_data (ParsedModuleDataDto.json value) = do write_u8 1; write_record_string value
encode_data (ParsedModuleDataDto.asset module_type) = do write_u8 2; encode_module_type module_type

-- Of the module types only those of assets are read.
unfoldable pub decode_asset_type : Coder ModuleTypeDto
decode_asset_type = read_u8 >>= λ tag. elim tag [
  | suc (suc zero) ↦ return ModuleTypeDto.asset
  | suc (suc (suc zero)) ↦ return ModuleTypeDto.asset_resource
  | suc (suc (suc (suc zero))) ↦ return ModuleTypeDto.asset_inline
  | suc (suc (suc (suc (suc zero)))) ↦ return ModuleTypeDto.asset_source
  | _ ↦ refuse
]

unfoldable pub decode_data : Coder ParsedModuleDataDto
unfolding decode_asset_type
decode_data = read_u8 >>= λ tag. elim tag [
  | zero ↦ return ParsedModuleDataDto.javascript
  | suc zero ↦ do value ← read_record_string; return (ParsedModuleDataDto.json value)
  | suc (suc zero) ↦ do
    module_type ← decode_asset_type
    return (ParsedModuleDataDto.asset module_type)
  | _ ↦ refuse
]

unfoldable pub encode_parsed_module : ParsedModuleDto → Coder Unit
unfolding encode_block encode_data
encode_parsed_module parsed = do
  encode_dependencies parsed.dependencies
  write_list encode_block parsed.blocks
  encode_dependencies parsed.presentational_dependencies
  write_list write_record_string parsed.identifiers
  encode_data parsed.parsed_data

unfoldable pub decode_parsed_module : Coder ParsedModuleDto
unfolding decode_block decode_data
decode_parsed_module = do
  dependencies ← decode_dependencies
  blocks ← read_list decode_block
  presentational_dependencies ← decode_dependencies
  identifiers ← read_list read_record_string
  parsed_data ← decode_data
  return (record {
    dependencies = dependencies;
    blocks = blocks;
    presentational_dependencies = presentational_dependencies;
    identifiers = identifiers;
    parsed_data = parsed_data;
    build_side_effect_free = none;
    uses_direct_eval = false;
  })

unfoldable pub write_side_effect_free : Option Bool → Coder Unit
write_side_effect_free none = write_u8 0
write_side_effect_free (some false) = write_u8 1
write_side_effect_free (some true) = write_u8 2

unfoldable pub read_side_effect_free : Coder (Option Bool)
read_side_effect_free = read_u8 >>= λ tag. elim tag [
  | zero ↦ return none
  | suc zero ↦ return (some false)
  | suc (suc zero) ↦ return (some true)
  | _ ↦ refuse
]

unfoldable pub write_module_build_record : ModuleBuildRecordDto → Coder Unit
unfolding encode_parsed_module write_side_effect_free
write_module_build_record r = do
  write_string r.source
  write_optional write_bytes r.binary_source
  write_u64 r.source_hash
  encode_parsed_module r.parsed
  encode_snapshot r.snapshot
  write_side_effect_free r.parsed.build_side_effect_free
  write_bool r.parsed.uses_direct_eval

unfoldable pub read_module_build_record : Coder ModuleBuildRecordDto
unfolding decode_parsed_module read_side_effect_free
read_module_build_record = do
  source ← read_string
  binary_source ← read_optional read_bytes
  source_hash ← read_u64
  parsed ← decode_parsed_module
  snapshot ← decode_snapshot
  build_side_effect_free ← read_side_effect_free
  uses_direct_eval ← read_bool
  return (record {
    parsed = record parsed {
      build_side_effect_free = build_side_effect_free;
      uses_direct_eval = uses_direct_eval;
    };
    source = source;
    binary_source = binary_source;
    source_hash = source_hash;
    snapshot = snapshot;
  })

unfoldable pub encode_module_build_record : ModuleBuildRecordDto → Option Bytes
unfolding write_module_build_record
encode_module_build_record r =
    if validate_module_build_record r then run_encoder (write_module_build_record r) else none

unfoldable pub decode_module_build_record : Bytes → Option ModuleBuildRecordDto
unfolding read_module_build_record
decode_module_build_record bytes = elim (run_decoder read_module_build_record bytes) [
  | none ↦ none
  | some r ↦ if validate_module_build_record r then some r else none
]

-- The type of an asset module, if it is one, is one that the decoder reads.
abbrev pub is_asset_type : ModuleTypeDto → Bool
is_asset_type ModuleTypeDto.javascript_auto = false
is_asset_type ModuleTypeDto.json = false
is_asset_type ModuleTypeDto.asset = true
is_asset_type ModuleTypeDto.asset_resource = true
is_asset_type ModuleTypeDto.asset_inline = true
is_asset_type ModuleTypeDto.asset_source = true

abbrev pub data_is_read : ParsedModuleDataDto → Bool
data_is_read ParsedModuleDataDto.javascript = true
data_is_read (ParsedModuleDataDto.json value) = true
data_is_read (ParsedModuleDataDto.asset module_type) = is_asset_type module_type

abbrev pub DataFits : ParsedModuleDataDto → Type 0
DataFits ParsedModuleDataDto.javascript = Unit
DataFits (ParsedModuleDataDto.json value) = IsUtf8 value
DataFits (ParsedModuleDataDto.asset module_type) = Unit

abbrev pub BlockFits : AsyncDependenciesBlockDto → Type 0
BlockFits block = Each DependencyFits block.dependencies

abbrev pub ParsedFits : ParsedModuleDto → Type 0
ParsedFits parsed =
    Each DependencyFits parsed.dependencies
    × Each BlockFits parsed.blocks
    × Each DependencyFits parsed.presentational_dependencies
    × Each IsUtf8 parsed.identifiers
    × DataFits parsed.parsed_data

-- The strings and numbers of a record are of their types.
abbrev pub BuildRecordFits : ModuleBuildRecordDto → Type 0
BuildRecordFits r =
    IsUtf8 r.source × IsU64 r.source_hash × ParsedFits r.parsed × SnapshotFits r.snapshot

abbrev pub AnyBytes : Bytes → Type 0
AnyBytes bytes = Unit

pub any_bytes : (v : Option Bytes) → IfSome AnyBytes v
any_bytes none = tt
any_bytes (some bytes) = tt

Writes-asset_type :
    (v : ModuleTypeDto) → is_asset_type v ≡ true → Writes (encode_module_type v) decode_asset_type v
unfolding encode_module_type decode_asset_type
Writes-asset_type ModuleTypeDto.javascript_auto h = cc
Writes-asset_type ModuleTypeDto.json h = cc
Writes-asset_type ModuleTypeDto.asset h = Writes-check _ (Writes-u8 2) refl
Writes-asset_type ModuleTypeDto.asset_resource h = Writes-check _ (Writes-u8 3) refl
Writes-asset_type ModuleTypeDto.asset_inline h = Writes-check _ (Writes-u8 4) refl
Writes-asset_type ModuleTypeDto.asset_source h = Writes-check _ (Writes-u8 5) refl

Writes-data :
    (v : ParsedModuleDataDto)
    → DataFits v
    → data_is_read v ≡ true
    → Writes (encode_data v) decode_data v
unfolding encode_data decode_data
Writes-data ParsedModuleDataDto.javascript h ok = Writes-check _ (Writes-u8 0) refl
Writes-data (ParsedModuleDataDto.json value) h ok =
    Writes-seq _ (Writes-u8 1) (Writes-map _ (Writes-record_string value h))
Writes-data (ParsedModuleDataDto.asset module_type) h ok =
    Writes-seq _ (Writes-u8 2) (Writes-map _ (Writes-asset_type module_type ok))

pub Writes-block :
    (v : AsyncDependenciesBlockDto) → BlockFits v → Writes (encode_block v) decode_block v
unfolding encode_block decode_block
Writes-block v h = Writes-map _ (Writes-dependencies v.dependencies h)

Writes-parsed :
    (v : ParsedModuleDto)
    → ParsedFits v
    → data_is_read v.parsed_data ≡ true
    → Writes
        (encode_parsed_module v)
        decode_parsed_module
        (record v { build_side_effect_free = none; uses_direct_eval = false })
unfolding encode_parsed_module decode_parsed_module
Writes-parsed v (dependencies, blocks, presentational, identifiers, data_fits) ok =
    Writes-seq _ (Writes-dependencies v.dependencies dependencies) (
      Writes-seq _ (Writes-list BlockFits Writes-block v.blocks blocks) (
        Writes-seq _ (Writes-dependencies v.presentational_dependencies presentational) (
          Writes-seq _ (Writes-list IsUtf8 Writes-record_string v.identifiers identifiers)
            (Writes-map _ (Writes-data v.parsed_data data_fits ok)))))

pub Writes-side_effect_free :
    (v : Option Bool) → Writes (write_side_effect_free v) read_side_effect_free v
unfolding write_side_effect_free read_side_effect_free
Writes-side_effect_free none = Writes-check _ (Writes-u8 0) refl
Writes-side_effect_free (some false) = Writes-check _ (Writes-u8 1) refl
Writes-side_effect_free (some true) = Writes-check _ (Writes-u8 2) refl

pub Writes-module_build_record :
    (r : ModuleBuildRecordDto)
    → BuildRecordFits r
    → data_is_read r.parsed.parsed_data ≡ true
    → Writes (write_module_build_record r) read_module_build_record r
unfolding write_module_build_record read_module_build_record
Writes-module_build_record r (source, source_hash, parsed, snapshot) ok =
    Writes-seq _ (Writes-string r.source source) (
      Writes-seq _
        (Writes-optional AnyBytes (λ a h. Writes-bytes a) r.binary_source
          (any_bytes r.binary_source))
        (Writes-seq _ (Writes-u64 r.source_hash source_hash) (
          Writes-seq _ (Writes-parsed r.parsed parsed ok) (
            Writes-seq _ (Writes-snapshot r.snapshot snapshot) (
              Writes-seq _ (Writes-side_effect_free r.parsed.build_side_effect_free)
                (Writes-map _ (Writes-bool r.parsed.uses_direct_eval)))))))
