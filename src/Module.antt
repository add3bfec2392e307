-- ===== src/Module.antt =====
-- crates/unpack_core/src/module.rs, dependencies_block.rs and async_dependencies_block.rs: a module
-- with its identity, what its build produced, and the life of a build. The digest of
-- code-generation inputs is a function of the parsed module and is not a field here.
use Prim.Native.String.{String}
use unpack.Prelude.{
  ℕ, ◌≡◌, ◌↔◌, arith, ◌==◌, ◌&&◌, true, Eq, string_eq, option_eq, list_eq, option_eqb_iff,
  list_eqb_iff, Bool, false, Option, none, some, List, [], ◌++◌, any,
}
use unpack.Dependency.{Dependency, is_harmony_dependency}

abbrev pub ModuleHandle : Type 0
ModuleHandle = ℕ

pub data ModuleType : Type 0 where
  java_script_auto json asset asset_resource asset_inline asset_source : ModuleType

-- A path stands as its text.
pub record ModuleIdentity : Type 0 where
  pub module_type : ModuleType
  pub resource : String
  pub query : Option String
  pub fragment : Option String
  pub layer : Option String
  pub loaders : List String

abbrev module_type_eqb : ModuleType → ModuleType → Bool
module_type_eqb ModuleType.java_script_auto ModuleType.java_script_auto = true
module_type_eqb ModuleType.json ModuleType.json = true
module_type_eqb ModuleType.asset ModuleType.asset = true
module_type_eqb ModuleType.asset_resource ModuleType.asset_resource = true
module_type_eqb ModuleType.asset_inline ModuleType.asset_inline = true
module_type_eqb ModuleType.asset_source ModuleType.asset_source = true
module_type_eqb _ _ = false

pub module_type_eqb_iff : (a b : ModuleType) → (module_type_eqb a b ≡ true) ↔ (a ≡ b)
module_type_eqb_iff a b = ground arith

instance abbrev pub module_type_eq : Eq ModuleType
module_type_eq = record { eqb = module_type_eqb; eqb_iff = module_type_eqb_iff }

abbrev identity_eqb : ModuleIdentity → ModuleIdentity → Bool
identity_eqb a b =
    a.module_type == b.module_type
    && (a.resource == b.resource
        && (a.query == b.query
            && (a.fragment == b.fragment && (a.layer == b.layer && a.loaders == b.loaders))))

pub identity_eqb_iff : (a b : ModuleIdentity) → (identity_eqb a b ≡ true) ↔ (a ≡ b)
identity_eqb_iff a b = ground (
  arith,
  module_type_eqb_iff a.module_type b.module_type,
  string_eq.eqb_iff a.resource b.resource,
  option_eqb_iff a.query b.query,
  option_eqb_iff a.fragment b.fragment,
  option_eqb_iff a.layer b.layer,
  list_eqb_iff a.loaders b.loaders,
)

instance abbrev pub identity_eq : Eq ModuleIdentity
identity_eq = record { eqb = identity_eqb; eqb_iff = identity_eqb_iff }

unfoldable pub identity_of : String → ModuleIdentity
identity_of resource = record {
  module_type = ModuleType.java_script_auto;
  resource = resource;
  query = none;
  fragment = none;
  layer = none;
  loaders = [];
}

pub record AsyncDependenciesBlock : Type 0 where
  pub dependencies : List Dependency

pub record DependenciesBlock : Type 0 where
  pub dependencies : List Dependency
  pub blocks : List AsyncDependenciesBlock

-- The JSON value of `Json` is read through its keys alone, where it is an object.
pub data ParsedModuleData : Type 0 where
  java_script : ParsedModuleData
  json : Option (List String) → ParsedModuleData
  asset : ModuleType → ParsedModuleData

pub record JavascriptBuildMeta : Type 0 where
  pub side_effect_free : Option Bool
  pub uses_direct_eval : Bool

pub record ParsedModule : Type 0 where
  pub dependencies_block : DependenciesBlock
  pub presentational_dependencies : List Dependency
  pub identifiers : List String
  pub parsed_data : ParsedModuleData
  pub build_meta : JavascriptBuildMeta

abbrev pub default_parsed : ParsedModule
default_parsed = record {
  dependencies_block = record { dependencies = []; blocks = [] };
  presentational_dependencies = [];
  identifiers = [];
  parsed_data = ParsedModuleData.java_script;
  build_meta = record { side_effect_free = none; uses_direct_eval = false };
}

pub record BuiltModuleContent : Type 0 where
  pub parsed : ParsedModule
  pub source : String
  pub binary_source : Option (List ℕ)

unfoldable pub new_content : ParsedModule → String → BuiltModuleContent
new_content parsed source = record { parsed = parsed; source = source; binary_source = none }

-- `Module` and `BuildingModule` wrap the same `ModuleData`; `BuildError` stands for `Error`.
pub record Module (BuildError : Type 0) : Type 0 where
  pub handle : ModuleHandle
  pub identity : ModuleIdentity
  pub built_content : BuiltModuleContent
  pub build_error : Option BuildError
  pub harmony : Bool
  pub factory_side_effect_free : Option Bool
  pub build_side_effect_free : Option Bool

module _ {BuildError : Type 0} where
  unfoldable pub new_module : ModuleHandle → ModuleIdentity → Module BuildError
  unfolding new_content
  new_module handle identity = record {
    handle = handle;
    identity = identity;
    built_content = new_content default_parsed "";
    build_error = none;
    harmony = false;
    factory_side_effect_free = none;
    build_side_effect_free = none;
  }

  unfoldable pub set_factory_side_effect_free : Module BuildError → Option Bool → Module BuildError
  set_factory_side_effect_free m side_effect_free = record m {
    factory_side_effect_free = side_effect_free;
  }

  unfoldable pub finish_build_content : Module BuildError → BuiltModuleContent → Module BuildError
  finish_build_content m content = record m {
    build_side_effect_free = content.parsed.build_meta.side_effect_free;
    harmony = any is_harmony_dependency (
        content.parsed.dependencies_block.dependencies
        ++ content.parsed.presentational_dependencies);
    built_content = content;
    build_error = none;
  }

  unfoldable pub fail_build : Module BuildError → BuildError → String → Module BuildError
  unfolding new_content
  fail_build m error source = record m {
    built_content = new_content default_parsed source;
    build_error = some error;
    build_side_effect_free = none;
    harmony = false;
  }

  unfoldable pub is_side_effect_free : Module BuildError → Bool
  is_side_effect_free m = elim m.factory_side_effect_free [
    | some free ↦ free
    | none ↦ elim m.build_side_effect_free [ some free ↦ free | none ↦ false ]
  ]

  abbrev pub blocks : Module BuildError → List AsyncDependenciesBlock
  blocks m = m.built_content.parsed.dependencies_block.blocks
