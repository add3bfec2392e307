-- ===== src/PackFile/Resolve.antt =====
-- The codecs of Resolve Records and Asset Render Records of crates/unpack_core/src/cache/pack_file.rs.
use unpack.Prelude.{zero, suc, Option, List, [], ◌∷◌, refl}
use unpack.PackFile.Coder.{
  Coder, Bytes, ◌>>=◌, ◌>>◌, return, refuse, write_u8, write_string, write_path,
  write_record_string, write_optional, write_list, read_u8, read_string, read_path,
  read_record_string, read_optional, read_list, run_encoder, run_decoder,
}
use unpack.PackFile.Dto.{ModuleTypeDto, ResolveRecordDto, AssetRenderRecordDto}
use unpack.PackFile.Snapshot.{encode_snapshot, decode_snapshot, SnapshotFits, Writes-snapshot}
use unpack.PackFile.Written.{
  Writes, Writes-seq, Writes-map, Writes-check, Writes-u8, Writes-string, Writes-path,
  Writes-record_string, Writes-optional, Writes-list, IsUtf8, IfSome, Each,
}

unfoldable pub encode_module_type : ModuleTypeDto → Coder Unit
encode_module_type ModuleTypeDto.javascript_auto = write_u8 0
encode_module_type ModuleTypeDto.json = write_u8 1
encode_module_type ModuleTypeDto.asset = write_u8 2
encode_module_type ModuleTypeDto.asset_resource = write_u8 3
encode_module_type ModuleTypeDto.asset_inline = write_u8 4
encode_module_type ModuleTypeDto.asset_source = write_u8 5

unfoldable pub decode_module_type : Coder ModuleTypeDto
decode_module_type = read_u8 >>= λ tag. elim tag [
  | zero ↦ return ModuleTypeDto.javascript_auto
  | suc zero ↦ return ModuleTypeDto.json
  | suc (suc zero) ↦ return ModuleTypeDto.asset
  | suc (suc (suc zero)) ↦ return ModuleTypeDto.asset_resource
  | suc (suc (suc (suc zero))) ↦ return ModuleTypeDto.asset_inline
  | suc (suc (suc (suc (suc zero)))) ↦ return ModuleTypeDto.asset_source
  | _ ↦ refuse
]

Writes-module_type : (v : ModuleTypeDto) → Writes (encode_module_type v) decode_module_type v
unfolding encode_module_type decode_module_type
Writes-module_type ModuleTypeDto.javascript_auto = Writes-check _ (Writes-u8 0) refl
Writes-module_type ModuleTypeDto.json = Writes-check _ (Writes-u8 1) refl
Writes-module_type ModuleTypeDto.asset = Writes-check _ (Writes-u8 2) refl
Writes-module_type ModuleTypeDto.asset_resource = Writes-check _ (Writes-u8 3) refl
Writes-module_type ModuleTypeDto.asset_inline = Writes-check _ (Writes-u8 4) refl
Writes-module_type ModuleTypeDto.asset_source = Writes-check _ (Writes-u8 5) refl

unfoldable pub write_resolve_record : ResolveRecordDto → Coder Unit
unfolding encode_module_type
write_resolve_record r = do
  encode_module_type r.identity.module_type
  write_path r.identity.resource
  write_optional write_string r.identity.query
  write_optional write_string r.identity.fragment
  write_optional write_string r.identity.layer
  write_list write_string r.identity.loaders
  write_path r.resource
  write_list write_path r.file_dependencies
  write_list write_path r.context_dependencies
  write_list write_path r.missing_dependencies
  encode_snapshot r.snapshot

unfoldable pub read_resolve_record : Coder ResolveRecordDto
unfolding decode_module_type
read_resolve_record = do
  module_type ← decode_module_type
  identity_resource ← read_path
  query ← read_optional read_string
  fragment ← read_optional read_string
  layer ← read_optional read_string
  loaders ← read_list read_string
  resource ← read_path
  file_dependencies ← read_list read_path
  context_dependencies ← read_list read_path
  missing_dependencies ← read_list read_path
  snapshot ← decode_snapshot
  return (record {
    identity = record {
      module_type = module_type;
      resource = identity_resource;
      query = query;
      fragment = fragment;
      layer = layer;
      loaders = loaders;
    };
    resource = resource;
    file_dependencies = file_dependencies;
    context_dependencies = context_dependencies;
    missing_dependencies = missing_dependencies;
    snapshot = snapshot;
  })

unfoldable pub encode_resolve_record : ResolveRecordDto → Option Bytes
unfolding write_resolve_record
encode_resolve_record r = run_encoder (write_resolve_record r)

unfoldable pub decode_resolve_record : Bytes → Option ResolveRecordDto
unfolding read_resolve_record
decode_resolve_record bytes = run_decoder read_resolve_record bytes

unfoldable pub write_asset_render_record : AssetRenderRecordDto → Coder Unit
write_asset_render_record r = do
  write_record_string r.source
  write_optional write_record_string r.source_map

unfoldable pub read_asset_render_record : Coder AssetRenderRecordDto
read_asset_render_record = do
  source ← read_record_string
  source_map ← read_optional read_record_string
  return (record { source = source; source_map = source_map })

-- `encode` and `decode` of `AssetRenderRecordCodec`
unfoldable pub encode_asset_render_record : AssetRenderRecordDto → Option Bytes
unfolding write_asset_render_record
encode_asset_render_record r = run_encoder (write_asset_render_record r)

unfoldable pub decode_asset_render_record : Bytes → Option AssetRenderRecordDto
unfolding read_asset_render_record
decode_asset_render_record bytes = run_decoder read_asset_render_record bytes

-- The strings and numbers of a record are of their types.
abbrev pub ResolveRecordFits : ResolveRecordDto → Type 0
ResolveRecordFits r =
    IfSome IsUtf8 r.identity.query
    × IfSome IsUtf8 r.identity.fragment
    × IfSome IsUtf8 r.identity.layer
    × Each IsUtf8 r.identity.loaders
    × SnapshotFits r.snapshot

abbrev pub AssetRenderRecordFits : AssetRenderRecordDto → Type 0
AssetRenderRecordFits r = IsUtf8 r.source × IfSome IsUtf8 r.source_map

abbrev AnyPath : Bytes → Type 0
AnyPath bytes = Unit

any_paths : (v : List Bytes) → Each AnyPath v
any_paths [] = tt
any_paths (x ∷ rest) = (tt, any_paths rest)

Writes-paths : (v : List Bytes) → Writes (write_list write_path v) (read_list read_path) v
Writes-paths v = Writes-list AnyPath (λ a h. Writes-path a) v (any_paths v)

pub Writes-resolve_record :
    (r : ResolveRecordDto)
    → ResolveRecordFits r
    → Writes (write_resolve_record r) read_resolve_record r
unfolding write_resolve_record read_resolve_record
Writes-resolve_record r (query, fragment, layer, loaders, snapshot) =
    Writes-seq _ (Writes-module_type r.identity.module_type) (
      Writes-seq _ (Writes-path r.identity.resource) (
        Writes-seq _ (Writes-optional IsUtf8 Writes-string r.identity.query query) (
          Writes-seq _ (Writes-optional IsUtf8 Writes-string r.identity.fragment fragment) (
            Writes-seq _ (Writes-optional IsUtf8 Writes-string r.identity.layer layer) (
              Writes-seq _ (Writes-list IsUtf8 Writes-string r.identity.loaders loaders) (
                Writes-seq _ (Writes-path r.resource) (
                  Writes-seq _ (Writes-paths r.file_dependencies) (
                    Writes-seq _ (Writes-paths r.context_dependencies) (
                      Writes-seq _ (Writes-paths r.missing_dependencies)
                        (Writes-map _ (Writes-snapshot r.snapshot snapshot)))))))))))

pub Writes-asset_render_record :
    (r : AssetRenderRecordDto)
    → AssetRenderRecordFits r
    → Writes (write_asset_render_record r) read_asset_render_record r
unfolding write_asset_render_record read_asset_render_record
Writes-asset_render_record r (source, source_map) =
    Writes-seq _ (Writes-record_string r.source source)
      (Writes-map _ (Writes-optional IsUtf8 Writes-record_string r.source_map source_map))
