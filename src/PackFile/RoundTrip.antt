-- ===== src/PackFile/RoundTrip.antt =====
-- A record that a codec of the pack file encodes is decoded from its bytes again.
use unpack.Prelude.{List, ◌≡◌, refl, some, none, if◌then◌else◌, Bool-cases, inl, inr}
use unpack.PackFile.Ranges.{validate_module_build_record}
use unpack.PackFile.Build.{
  encode_module_build_record, decode_module_build_record, BuildRecordFits,
  Writes-module_build_record, data_is_read,
}
use unpack.PackFile.Refused.{Refuses-module_build_record, run_decoder-refused}
use unpack.PackFile.Coder.{Bytes, run_encoder, run_decoder}
use unpack.PackFile.Dto.{
  ResolveRecordDto, AssetRenderRecordDto, DependencyDto, SnapshotDto, ModuleBuildRecordDto,
}
use unpack.PackFile.Written.{run_decoder-run_encoder, Each}
use unpack.PackFile.Snapshot.{encode_snapshot, decode_snapshot, SnapshotFits, Writes-snapshot}
use unpack.PackFile.Resolve.{
  encode_resolve_record, decode_resolve_record, ResolveRecordFits, Writes-resolve_record,
  encode_asset_render_record, decode_asset_render_record, AssetRenderRecordFits,
  Writes-asset_render_record,
}
use unpack.PackFile.Parsed.{
  encode_dependencies, decode_dependencies, DependencyFits, Writes-dependencies,
}

-- A Resolve Record whose strings are UTF-8 and whose numbers are in the range of their types is
-- decoded again, equal in every field, from the bytes that encoding it returns.
pub decode_resolve_record-encode :
    (r : ResolveRecordDto) (bytes : Bytes)
    → ResolveRecordFits r
    → encode_resolve_record r ≡ some bytes
    → decode_resolve_record bytes ≡ some r
unfolding encode_resolve_record decode_resolve_record
decode_resolve_record-encode r bytes h e =
    run_decoder-run_encoder bytes (Writes-resolve_record r h) e

-- The dependencies of a module, with strings that are UTF-8 and numbers in the range of their types,
-- are decoded again from the bytes that encoding them returns.
pub decode_dependencies-encode :
    (ds : List DependencyDto) (bytes : Bytes)
    → Each DependencyFits ds
    → run_encoder (encode_dependencies ds) ≡ some bytes
    → run_decoder decode_dependencies bytes ≡ some ds
decode_dependencies-encode ds bytes h e = run_decoder-run_encoder bytes (Writes-dependencies ds h) e

-- A snapshot, with strings that are UTF-8 and numbers in the range of their types, is decoded again
-- from the bytes that encoding it returns.
pub decode_snapshot-encode :
    (s : SnapshotDto) (bytes : Bytes)
    → SnapshotFits s
    → run_encoder (encode_snapshot s) ≡ some bytes
    → run_decoder decode_snapshot bytes ≡ some s
decode_snapshot-encode s bytes h e = run_decoder-run_encoder bytes (Writes-snapshot s h) e

-- An Asset Render Record whose strings are UTF-8 is decoded again from the bytes that encoding it
-- returns.
pub decode_asset_render_record-encode :
    (r : AssetRenderRecordDto) (bytes : Bytes)
    → AssetRenderRecordFits r
    → encode_asset_render_record r ≡ some bytes
    → decode_asset_render_record bytes ≡ some r
unfolding encode_asset_render_record decode_asset_render_record
decode_asset_render_record-encode r bytes h e =
    run_decoder-run_encoder bytes (Writes-asset_render_record r h) e

-- The bytes that encoding a Module Build Record returns, with strings that are UTF-8 and numbers in
-- the range of their types, are decoded to the same record, equal in every field, if the module type of
-- an asset is one of the four of assets, and refused if it is not.
pub decode_module_build_record-encode :
    (r : ModuleBuildRecordDto) (bytes : Bytes)
    → BuildRecordFits r
    → encode_module_build_record r ≡ some bytes
    → decode_module_build_record bytes
      ≡ (if data_is_read r.parsed.parsed_data then some r else none)
unfolding encode_module_build_record decode_module_build_record
decode_module_build_record-encode r bytes h e = elim (Bool-cases (validate_module_build_record r)) [
  | inl valid ↦
      let written = rw (valid, encode_module_build_record) at e in
      elim (Bool-cases (data_is_read r.parsed.parsed_data)) [
        | inl ok ↦
            let read = run_decoder-run_encoder bytes (Writes-module_build_record r h ok) written in
            rw (read, valid, ok, decode_module_build_record) refl
        | inr other ↦
            let refused =
              run_decoder-refused bytes (Refuses-module_build_record r h other) written in
            rw (refused, other, decode_module_build_record) refl
      ]
  | inr invalid ↦ cc (rw (invalid, encode_module_build_record) at e)
]
