-- ===== src/PackFile/Ranges.antt =====
-- `validate_module_build_record` of crates/unpack_core/src/cache/pack_file.rs: the hash of the source and
-- the source ranges of the dependencies. The hash is crates/unpack_core/src/cache_hash.rs.
use Prim.Native.Nat.{bit_xor}
use unpack.Prelude.{
  ℕ, ◌*◌, ◌%◌, Bool, true, Option, none, some, [], ◌∷◌, length, all, ltb, leb, ◌==◌, nat_eq,
  get_elem?, is_some, ◌&&◌, ◌||◌,
}
use unpack.PackFile.Coder.{Bytes, to_le_bytes, max_collection_entries}
use unpack.PackFile.Dto.{
  SourceRangeDto, ModuleDependencyDto, DependencyDto, AsyncDependenciesBlockDto, ParsedModuleDto,
  ModuleBuildRecordDto,
}

-- The wrapping multiplication of `StableHasher::write` is modulo 2 ^ 64.
unfoldable pub hash_bytes : ℕ → Bytes → ℕ
hash_bytes state [] = state
hash_bytes state (byte ∷ rest) =
    hash_bytes (bit_xor state byte * 1099511628211 % 18446744073709551616) rest

abbrev pub default_state : ℕ
default_state = 14695981039346656037

-- `stable_hash` of a `String`: the standard library feeds its bytes and then 0xff.
unfoldable pub stable_hash_string : Bytes → ℕ
unfolding hash_bytes
stable_hash_string value = hash_bytes (hash_bytes default_state value) (255 ∷ [])

-- `stable_hash` of a `Vec<u8>`: the standard library feeds its length and then its bytes.
unfoldable pub stable_hash_bytes : Bytes → ℕ
unfolding hash_bytes
stable_hash_bytes value = hash_bytes (hash_bytes default_state (to_le_bytes 8 (length value))) value

-- `str::is_char_boundary` up to the length of the text
unfoldable pub is_char_boundary : Bytes → ℕ → Bool
is_char_boundary source index = elim (get_elem? source index) [
  | none ↦ length source == index
  | some byte ↦ index == 0 || (ltb byte 128 || leb 192 byte)
]

unfoldable pub source_range_is_valid : Bytes → SourceRangeDto → Bool
unfolding is_char_boundary
source_range_is_valid source r =
    leb r.start r.end
    && (leb r.end (length source)
        && (is_char_boundary source r.start && is_char_boundary source r.end))

-- `Option::is_none_or`
abbrev is_none_or : {A : Type 0} → (A → Bool) → Option A → Bool
is_none_or p none = true
is_none_or p (some a) = p a

unfoldable pub module_range_is_valid : Bytes → ModuleDependencyDto → Bool
unfolding source_range_is_valid
module_range_is_valid source m =
    is_none_or (λ order. leb order max_collection_entries) m.source_order
    && is_none_or (source_range_is_valid source) m.range

unfoldable pub dependency_ranges_are_valid : Bytes → DependencyDto → Bool
unfolding module_range_is_valid
dependency_ranges_are_valid source (DependencyDto.entry m) = module_range_is_valid source m
dependency_ranges_are_valid source (DependencyDto.loader m) = module_range_is_valid source m
dependency_ranges_are_valid source (DependencyDto.loader_import m) = module_range_is_valid source m
dependency_ranges_are_valid source (DependencyDto.harmony_import_side_effect m import_var) =
    module_range_is_valid source m
dependency_ranges_are_valid source
      (DependencyDto.harmony_export_imported_specifier m ids name is_star) =
    module_range_is_valid source m
dependency_ranges_are_valid source (DependencyDto.import_dependency m) =
    is_some m.range && module_range_is_valid source m
dependency_ranges_are_valid source
      (DependencyDto.harmony_import_specifier m ids name usage_range shorthand) =
    module_range_is_valid source m && source_range_is_valid source usage_range
dependency_ranges_are_valid source
      (DependencyDto.harmony_export_header declaration_range statement_range) =
    is_none_or (source_range_is_valid source) declaration_range
    && source_range_is_valid source statement_range
dependency_ranges_are_valid source
      (DependencyDto.harmony_export_expression range statement_range declaration_id) =
    source_range_is_valid source range && source_range_is_valid source statement_range
dependency_ranges_are_valid source (DependencyDto.const expression range) =
    source_range_is_valid source range
dependency_ranges_are_valid source (DependencyDto.harmony_export_specifier id name) = true
dependency_ranges_are_valid source DependencyDto.null = true

unfoldable pub parsed_module_ranges_are_valid : Bytes → ParsedModuleDto → Bool
unfolding dependency_ranges_are_valid
parsed_module_ranges_are_valid source parsed =
    all (dependency_ranges_are_valid source) parsed.dependencies
    && (all
          (λ (block : AsyncDependenciesBlockDto).
            all (dependency_ranges_are_valid source) block.dependencies)
          parsed.blocks
        && all (dependency_ranges_are_valid source) parsed.presentational_dependencies)

unfoldable pub source_hash_of : ModuleBuildRecordDto → ℕ
unfolding stable_hash_bytes stable_hash_string
source_hash_of r = elim r.binary_source [
  | some bytes ↦ stable_hash_bytes bytes
  | none ↦ stable_hash_string r.source
]

unfoldable pub validate_module_build_record : ModuleBuildRecordDto → Bool
unfolding source_hash_of parsed_module_ranges_are_valid
validate_module_build_record r =
    r.source_hash == source_hash_of r && parsed_module_ranges_are_valid r.source r.parsed
