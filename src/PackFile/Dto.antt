-- ===== src/PackFile/Dto.antt =====
-- The records of crates/unpack_core/src/cache/pack_file.rs as they are stored.
use unpack.Prelude.{ℕ, Bool, Option, List}
use unpack.PackFile.Coder.{Bytes, TimestampDto}

pub data ModuleTypeDto : Type 0 where
  javascript_auto : ModuleTypeDto
  json : ModuleTypeDto
  asset : ModuleTypeDto
  asset_resource : ModuleTypeDto
  asset_inline : ModuleTypeDto
  asset_source : ModuleTypeDto

pub record ModuleIdentityDto : Type 0 where
  pub module_type : ModuleTypeDto
  pub resource : Bytes
  pub query : Option Bytes
  pub fragment : Option Bytes
  pub layer : Option Bytes
  pub loaders : List Bytes

pub data ManagedItemStateDto : Type 0 where
  node_modules : ManagedItemStateDto
  grouping_folder : ManagedItemStateDto
  -- name and version
  managed_package : Bytes → Bytes → ManagedItemStateDto

pub data SnapshotEntryDto : Type 0 where
  -- path, exists, modified, source_hash
  file : Bytes → Bool → Option TimestampDto → Option ℕ → SnapshotEntryDto
  -- path, exists, timestamp_hash, content_hash
  context : Bytes → Bool → Option ℕ → Option ℕ → SnapshotEntryDto
  missing_existence : Bytes → SnapshotEntryDto
  immutable_path : Bytes → SnapshotEntryDto
  -- path, root, state
  managed_path : Bytes → Bytes → ManagedItemStateDto → SnapshotEntryDto

pub record SnapshotDto : Type 0 where
  pub entries : List SnapshotEntryDto

pub record ResolveRecordDto : Type 0 where
  pub identity : ModuleIdentityDto
  pub resource : Bytes
  pub file_dependencies : List Bytes
  pub context_dependencies : List Bytes
  pub missing_dependencies : List Bytes
  pub snapshot : SnapshotDto

pub record SourceRangeDto : Type 0 where
  pub start : ℕ
  pub end : ℕ

pub record ModuleDependencyDto : Type 0 where
  pub request : Bytes
  pub user_request : Bytes
  pub source_order : Option ℕ
  pub range : Option SourceRangeDto
  pub weak : Bool

pub data DependencyDto : Type 0 where
  entry : ModuleDependencyDto → DependencyDto
  -- module, import_var
  harmony_import_side_effect : ModuleDependencyDto → Option Bytes → DependencyDto
  -- module, ids, name, usage_range, shorthand
  harmony_import_specifier :
      ModuleDependencyDto → List Bytes → Bytes → SourceRangeDto → Bool → DependencyDto
  -- declaration_range, statement_range
  harmony_export_header : Option SourceRangeDto → SourceRangeDto → DependencyDto
  -- id, name
  harmony_export_specifier : Bytes → Bytes → DependencyDto
  -- range, statement_range, declaration_id
  harmony_export_expression : SourceRangeDto → SourceRangeDto → Option Bytes → DependencyDto
  -- module, ids, name, is_star
  harmony_export_imported_specifier :
      ModuleDependencyDto → List Bytes → Option Bytes → Bool → DependencyDto
  null : DependencyDto
  -- expression, range
  const : Bytes → SourceRangeDto → DependencyDto
  import_dependency : ModuleDependencyDto → DependencyDto
  loader : ModuleDependencyDto → DependencyDto
  loader_import : ModuleDependencyDto → DependencyDto

pub record AssetRenderRecordDto : Type 0 where
  pub source : Bytes
  pub source_map : Option Bytes

pub record AsyncDependenciesBlockDto : Type 0 where
  pub dependencies : List DependencyDto

pub data ParsedModuleDataDto : Type 0 where
  javascript : ParsedModuleDataDto
  json : Bytes → ParsedModuleDataDto
  asset : ModuleTypeDto → ParsedModuleDataDto

pub record ParsedModuleDto : Type 0 where
  pub dependencies : List DependencyDto
  pub blocks : List AsyncDependenciesBlockDto
  pub presentational_dependencies : List DependencyDto
  pub identifiers : List Bytes
  pub parsed_data : ParsedModuleDataDto
  pub build_side_effect_free : Option Bool
  pub uses_direct_eval : Bool

pub record ModuleBuildRecordDto : Type 0 where
  pub parsed : ParsedModuleDto
  pub source : Bytes
  pub binary_source : Option Bytes
  pub source_hash : ℕ
  pub snapshot : SnapshotDto
