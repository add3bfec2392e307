-- ===== src/Dependency.antt =====
-- crates/unpack_core/src/dependency.rs and the structs of crates/unpack_core/src/dependencies: what
-- a parsed module says about other modules. Template application (source edits) is not modelled.
use Prim.Native.String.{String}
use unpack.Prelude.{ℕ, Bool, true, false, Option, none, some, List}

pub record SourceRange : Type 0 where
  pub start : ℕ
  pub end : ℕ

-- dependencies/module_dependency.rs
pub record ModuleDependency : Type 0 where
  pub request : String
  pub user_request : String
  pub source_order : Option ℕ
  pub range : Option SourceRange
  pub weak : Bool

pub record HarmonyImportSideEffectDependency : Type 0 where
  pub module_dep : ModuleDependency
  pub import_var : Option String

pub record HarmonyImportSpecifierDependency : Type 0 where
  pub module_dep : ModuleDependency
  pub ids : List String
  pub name : String
  pub usage_range : SourceRange
  pub shorthand : Bool

pub record HarmonyExportHeaderDependency : Type 0 where
  pub declaration_range : Option SourceRange
  pub statement_range : SourceRange

pub record HarmonyExportSpecifierDependency : Type 0 where
  pub id : String
  pub name : String

pub record HarmonyExportExpressionDependency : Type 0 where
  pub range : SourceRange
  pub statement_range : SourceRange
  pub declaration_id : Option String

pub record HarmonyExportImportedSpecifierDependency : Type 0 where
  pub module_dep : ModuleDependency
  pub ids : List String
  pub name : Option String
  pub is_star : Bool

pub record ConstDependency : Type 0 where
  pub expression : String
  pub range : SourceRange

-- `EntryDependency`, `ImportDependency`, `LoaderDependency` and `LoaderImportDependency` hold a
-- `ModuleDependency` alone, and stand as it; `NullDependency` holds nothing.
pub data Dependency : Type 0 where
  entry : ModuleDependency → Dependency
  harmony_import_side_effect : HarmonyImportSideEffectDependency → Dependency
  harmony_import_specifier : HarmonyImportSpecifierDependency → Dependency
  harmony_export_header : HarmonyExportHeaderDependency → Dependency
  harmony_export_specifier : HarmonyExportSpecifierDependency → Dependency
  harmony_export_expression : HarmonyExportExpressionDependency → Dependency
  harmony_export_imported_specifier : HarmonyExportImportedSpecifierDependency → Dependency
  null_dependency : Dependency
  const_dependency : ConstDependency → Dependency
  import_dependency : ModuleDependency → Dependency
  loader : ModuleDependency → Dependency
  loader_import : ModuleDependency → Dependency

pub data DependencyKind : Type 0 where
  entry static_import static_export dynamic_import loader loader_import presentational :
      DependencyKind

unfoldable pub kind : Dependency → DependencyKind
kind (Dependency.entry _) = DependencyKind.entry
kind (Dependency.harmony_import_side_effect _) = DependencyKind.static_import
kind (Dependency.harmony_import_specifier _) = DependencyKind.static_import
kind (Dependency.harmony_export_imported_specifier _) = DependencyKind.static_export
kind (Dependency.import_dependency _) = DependencyKind.dynamic_import
kind (Dependency.loader _) = DependencyKind.loader
kind (Dependency.loader_import _) = DependencyKind.loader_import
kind _ = DependencyKind.presentational

unfoldable pub module_dependency : Dependency → Option ModuleDependency
module_dependency (Dependency.entry dep) = some dep
module_dependency (Dependency.harmony_import_side_effect dep) = some dep.module_dep
module_dependency (Dependency.harmony_import_specifier dep) = some dep.module_dep
module_dependency (Dependency.harmony_export_imported_specifier dep) = some dep.module_dep
module_dependency (Dependency.import_dependency dep) = some dep
module_dependency (Dependency.loader dep) = some dep
module_dependency (Dependency.loader_import dep) = some dep
module_dependency _ = none

-- `self.resource_identifier().is_some()`
unfoldable pub is_module_dependency : Dependency → Bool
unfolding module_dependency
is_module_dependency d = elim (module_dependency d) [ none ↦ false | some _ ↦ true ]

unfoldable pub is_static_module_dependency : Dependency → Bool
is_static_module_dependency (Dependency.entry _) = true
is_static_module_dependency (Dependency.harmony_import_side_effect _) = true
is_static_module_dependency (Dependency.harmony_import_specifier _) = true
is_static_module_dependency (Dependency.harmony_export_imported_specifier _) = true
is_static_module_dependency _ = false

unfoldable pub is_import_dependency : Dependency → Bool
is_import_dependency (Dependency.import_dependency _) = true
is_import_dependency _ = false

unfoldable pub is_harmony_dependency : Dependency → Bool
is_harmony_dependency (Dependency.harmony_import_side_effect _) = true
is_harmony_dependency (Dependency.harmony_import_specifier _) = true
is_harmony_dependency (Dependency.harmony_export_header _) = true
is_harmony_dependency (Dependency.harmony_export_specifier _) = true
is_harmony_dependency (Dependency.harmony_export_expression _) = true
is_harmony_dependency (Dependency.harmony_export_imported_specifier _) = true
is_harmony_dependency _ = false

unfoldable pub can_concatenate : Dependency → Bool
can_concatenate (Dependency.harmony_import_side_effect _) = true
can_concatenate (Dependency.harmony_import_specifier _) = true
can_concatenate (Dependency.harmony_export_imported_specifier _) = true
can_concatenate _ = false
