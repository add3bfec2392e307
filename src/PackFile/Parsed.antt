-- ===== src/PackFile/Parsed.antt =====
-- `encode_dependencies` and `decode_dependencies` of crates/unpack_core/src/cache/pack_file.rs.
use unpack.Prelude.{zero, suc, List, refl}
use unpack.PackFile.Coder.{
  Coder, ◌>>=◌, ◌>>◌, return, refuse, write_u8, write_u32, write_u64, write_bool, write_string,
  write_optional, write_list, read_u8, read_u32, read_u64, read_bool, read_string, read_optional,
  read_list,
}
use unpack.PackFile.Dto.{SourceRangeDto, ModuleDependencyDto, DependencyDto}
use unpack.PackFile.Written.{
  Writes, Writes-seq, Writes-map, Writes-check, Writes-u8, Writes-u32, Writes-u64, Writes-bool,
  Writes-string, Writes-optional, Writes-list, IsUtf8, IsU32, IsU64, IfSome, Each,
}

unfoldable pub encode_source_range : SourceRangeDto → Coder Unit
encode_source_range r = do write_u32 r.start; write_u32 r.end

unfoldable pub decode_source_range : Coder SourceRangeDto
decode_source_range = do
  start ← read_u32
  end ← read_u32
  return (record { start = start; end = end })

unfoldable pub encode_module_dependency : ModuleDependencyDto → Coder Unit
unfolding encode_source_range
encode_module_dependency d = do
  write_string d.request
  write_string d.user_request
  write_optional write_u64 d.source_order
  write_optional encode_source_range d.range
  write_bool d.weak

unfoldable pub decode_module_dependency : Coder ModuleDependencyDto
unfolding decode_source_range
decode_module_dependency = do
  request ← read_string
  user_request ← read_string
  source_order ← read_optional read_u64
  range ← read_optional decode_source_range
  weak ← read_bool
  return (record {
    request = request;
    user_request = user_request;
    source_order = source_order;
    range = range;
    weak = weak;
  })

unfoldable pub encode_dependency : DependencyDto → Coder Unit
unfolding encode_module_dependency encode_source_range
encode_dependency (DependencyDto.entry m) = do write_u8 0; encode_module_dependency m
encode_dependency (DependencyDto.harmony_import_side_effect m import_var) = do
  write_u8 1
  encode_module_dependency m
  write_optional write_string import_var
encode_dependency (DependencyDto.harmony_import_specifier m ids name usage_range shorthand) = do
  write_u8 2
  encode_module_dependency m
  write_list write_string ids
  write_string name
  encode_source_range usage_range
  write_bool shorthand
encode_dependency (DependencyDto.harmony_export_header declaration_range statement_range) = do
  write_u8 3
  write_optional encode_source_range declaration_range
  encode_source_range statement_range
encode_dependency (DependencyDto.harmony_export_specifier id name) = do
  write_u8 4
  write_string id
  write_string name
encode_dependency (DependencyDto.harmony_export_expression range statement_range declaration_id) =
    do
      write_u8 5
      encode_source_range range
      encode_source_range statement_range
      write_optional write_string declaration_id
encode_dependency (DependencyDto.harmony_export_imported_specifier m ids name is_star) = do
  write_u8 6
  encode_module_dependency m
  write_list write_string ids
  write_optional write_string name
  write_bool is_star
encode_dependency DependencyDto.null = write_u8 7
encode_dependency (DependencyDto.const expression range) = do
  write_u8 8
  write_string expression
  encode_source_range range
encode_dependency (DependencyDto.import_dependency m) = do write_u8 9; encode_module_dependency m
encode_dependency (DependencyDto.loader m) = do write_u8 10; encode_module_dependency m
encode_dependency (DependencyDto.loader_import m) = do write_u8 11; encode_module_dependency m

unfoldable pub decode_dependency : Coder DependencyDto
unfolding decode_module_dependency decode_source_range
decode_dependency = read_u8 >>= λ tag. elim tag [
  | zero ↦ do m ← decode_module_dependency; return (DependencyDto.entry m)
  | suc zero ↦ do
    m ← decode_module_dependency
    import_var ← read_optional read_string
    return (DependencyDto.harmony_import_side_effect m import_var)
  | suc (suc zero) ↦ do
    m ← decode_module_dependency
    ids ← read_list read_string
    name ← read_string
    usage_range ← decode_source_range
    shorthand ← read_bool
    return (DependencyDto.harmony_import_specifier m ids name usage_range shorthand)
  | suc (suc (suc zero)) ↦ do
    declaration_range ← read_optional decode_source_range
    statement_range ← decode_source_range
    return (DependencyDto.harmony_export_header declaration_range statement_range)
  | suc (suc (suc (suc zero))) ↦ do
    id ← read_string
    name ← read_string
    return (DependencyDto.harmony_export_specifier id name)
  | suc (suc (suc (suc (suc zero)))) ↦ do
    range ← decode_source_range
    statement_range ← decode_source_range
    declaration_id ← read_optional read_string
    return (DependencyDto.harmony_export_expression range statement_range declaration_id)
  | suc (suc (suc (suc (suc (suc zero))))) ↦ do
    m ← decode_module_dependency
    ids ← read_list read_string
    name ← read_optional read_string
    is_star ← read_bool
    return (DependencyDto.harmony_export_imported_specifier m ids name is_star)
  | suc (suc (suc (suc (suc (suc (suc zero)))))) ↦ return DependencyDto.null
  | suc (suc (suc (suc (suc (suc (suc (suc zero))))))) ↦ do
    expression ← read_string
    range ← decode_source_range
    return (DependencyDto.const expression range)
  | suc (suc (suc (suc (suc (suc (suc (suc (suc zero)))))))) ↦ do
    m ← decode_module_dependency
    return (DependencyDto.import_dependency m)
  | suc (suc (suc (suc (suc (suc (suc (suc (suc (suc zero))))))))) ↦ do
    m ← decode_module_dependency
    return (DependencyDto.loader m)
  | suc (suc (suc (suc (suc (suc (suc (suc (suc (suc (suc zero)))))))))) ↦ do
    m ← decode_module_dependency
    return (DependencyDto.loader_import m)
  | _ ↦ refuse
]

unfoldable pub encode_dependencies : List DependencyDto → Coder Unit
unfolding encode_dependency
encode_dependencies dependencies = write_list encode_dependency dependencies

unfoldable pub decode_dependencies : Coder (List DependencyDto)
unfolding decode_dependency
decode_dependencies = read_list decode_dependency

abbrev pub RangeFits : SourceRangeDto → Type 0
RangeFits r = IsU32 r.start × IsU32 r.end

abbrev pub ModuleFits : ModuleDependencyDto → Type 0
ModuleFits d =
    IsUtf8 d.request
    × IsUtf8 d.user_request
    × IfSome IsU64 d.source_order
    × IfSome RangeFits d.range

-- The numbers and strings of a dependency are of their types.
abbrev pub DependencyFits : DependencyDto → Type 0
DependencyFits (DependencyDto.entry m) = ModuleFits m
DependencyFits (DependencyDto.harmony_import_side_effect m import_var) =
    ModuleFits m × IfSome IsUtf8 import_var
DependencyFits (DependencyDto.harmony_import_specifier m ids name usage_range shorthand) =
    ModuleFits m × Each IsUtf8 ids × IsUtf8 name × RangeFits usage_range
DependencyFits (DependencyDto.harmony_export_header declaration_range statement_range) =
    IfSome RangeFits declaration_range × RangeFits statement_range
DependencyFits (DependencyDto.harmony_export_specifier id name) = IsUtf8 id × IsUtf8 name
DependencyFits (DependencyDto.harmony_export_expression range statement_range declaration_id) =
    RangeFits range × RangeFits statement_range × IfSome IsUtf8 declaration_id
DependencyFits (DependencyDto.harmony_export_imported_specifier m ids name is_star) =
    ModuleFits m × Each IsUtf8 ids × IfSome IsUtf8 name
DependencyFits DependencyDto.null = Unit
DependencyFits (DependencyDto.const expression range) = IsUtf8 expression × RangeFits range
DependencyFits (DependencyDto.import_dependency m) = ModuleFits m
DependencyFits (DependencyDto.loader m) = ModuleFits m
DependencyFits (DependencyDto.loader_import m) = ModuleFits m

Writes-range :
    (v : SourceRangeDto) → RangeFits v → Writes (encode_source_range v) decode_source_range v
unfolding encode_source_range decode_source_range
Writes-range v (p, q) = Writes-seq _ (Writes-u32 v.start p) (Writes-map _ (Writes-u32 v.end q))

Writes-module :
    (v : ModuleDependencyDto)
    → ModuleFits v
    → Writes (encode_module_dependency v) decode_module_dependency v
unfolding encode_module_dependency decode_module_dependency
Writes-module v (request, user_request, order, range) =
    Writes-seq _ (Writes-string v.request request) (
      Writes-seq _ (Writes-string v.user_request user_request) (
        Writes-seq _ (Writes-optional IsU64 Writes-u64 v.source_order order) (
          Writes-seq _ (Writes-optional RangeFits Writes-range v.range range)
            (Writes-map _ (Writes-bool v.weak)))))

Writes-dependency :
    (v : DependencyDto) → DependencyFits v → Writes (encode_dependency v) decode_dependency v
unfolding encode_dependency decode_dependency
Writes-dependency (DependencyDto.entry m) h =
    Writes-seq _ (Writes-u8 0) (Writes-map _ (Writes-module m h))
Writes-dependency (DependencyDto.harmony_import_side_effect m import_var) (h, p) =
    Writes-seq _ (Writes-u8 1) (
      Writes-seq _ (Writes-module m h)
        (Writes-map _ (Writes-optional IsUtf8 Writes-string import_var p)))
Writes-dependency (DependencyDto.harmony_import_specifier m ids name usage_range shorthand)
      (h, p, q, r) =
    Writes-seq _ (Writes-u8 2) (
      Writes-seq _ (Writes-module m h) (
        Writes-seq _ (Writes-list IsUtf8 Writes-string ids p) (
          Writes-seq _ (Writes-string name q)
            (Writes-seq _ (Writes-range usage_range r) (Writes-map _ (Writes-bool shorthand))))))
Writes-dependency (DependencyDto.harmony_export_header declaration_range statement_range) (p, q) =
    Writes-seq _ (Writes-u8 3) (
      Writes-seq _ (Writes-optional RangeFits Writes-range declaration_range p)
        (Writes-map _ (Writes-range statement_range q)))
Writes-dependency (DependencyDto.harmony_export_specifier id name) (p, q) =
    Writes-seq _ (Writes-u8 4)
      (Writes-seq _ (Writes-string id p) (Writes-map _ (Writes-string name q)))
Writes-dependency (DependencyDto.harmony_export_expression range statement_range declaration_id)
      (p, q, r) =
    Writes-seq _ (Writes-u8 5) (
      Writes-seq _ (Writes-range range p) (
        Writes-seq _ (Writes-range statement_range q)
          (Writes-map _ (Writes-optional IsUtf8 Writes-string declaration_id r))))
Writes-dependency (DependencyDto.harmony_export_imported_specifier m ids name is_star) (h, p, q) =
    Writes-seq _ (Writes-u8 6) (
      Writes-seq _ (Writes-module m h) (
        Writes-seq _ (Writes-list IsUtf8 Writes-string ids p) (
          Writes-seq _ (Writes-optional IsUtf8 Writes-string name q)
            (Writes-map _ (Writes-bool is_star)))))
Writes-dependency DependencyDto.null h = Writes-check _ (Writes-u8 7) refl
Writes-dependency (DependencyDto.const expression range) (p, q) =
    Writes-seq _ (Writes-u8 8)
      (Writes-seq _ (Writes-string expression p) (Writes-map _ (Writes-range range q)))
Writes-dependency (DependencyDto.import_dependency m) h =
    Writes-seq _ (Writes-u8 9) (Writes-map _ (Writes-module m h))
Writes-dependency (DependencyDto.loader m) h =
    Writes-seq _ (Writes-u8 10) (Writes-map _ (Writes-module m h))
Writes-dependency (DependencyDto.loader_import m) h =
    Writes-seq _ (Writes-u8 11) (Writes-map _ (Writes-module m h))

pub Writes-dependencies :
    (v : List DependencyDto)
    → Each DependencyFits v
    → Writes (encode_dependencies v) decode_dependencies v
unfolding encode_dependencies decode_dependencies
Writes-dependencies v h = Writes-list DependencyFits Writes-dependency v h
