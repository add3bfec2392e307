-- ===== src/PackFile/Snapshot.antt =====
-- `encode_snapshot` and `decode_snapshot` of crates/unpack_core/src/cache/pack_file.rs.
use unpack.Prelude.{zero, suc, refl}
use unpack.PackFile.Coder.{
  Coder, ◌>>=◌, ◌>>◌, return, refuse, write_u8, write_bool, write_u64, write_optional_timestamp,
  write_string, write_path, write_optional, write_list, read_u8, read_bool, read_u64, read_string,
  read_path, read_optional, read_optional_timestamp, read_list,
}
use unpack.PackFile.Dto.{ManagedItemStateDto, SnapshotEntryDto, SnapshotDto}
use unpack.PackFile.Written.{
  Writes, Writes-seq, Writes-map, Writes-check, Writes-u8, Writes-bool, Writes-u64, Writes-string,
  Writes-path, Writes-optional, Writes-optional_timestamp, Writes-list, IsU64, IsUtf8, IsTimestamp,
  IfSome, Each,
}

unfoldable pub encode_state : ManagedItemStateDto → Coder Unit
encode_state ManagedItemStateDto.node_modules = write_u8 0
encode_state ManagedItemStateDto.grouping_folder = write_u8 1
encode_state (ManagedItemStateDto.managed_package name version) = do
  write_u8 2
  write_string name
  write_string version

unfoldable pub decode_state : Coder ManagedItemStateDto
decode_state = read_u8 >>= λ tag. elim tag [
  | zero ↦ return ManagedItemStateDto.node_modules
  | suc zero ↦ return ManagedItemStateDto.grouping_folder
  | suc (suc zero) ↦ do
    name ← read_string
    version ← read_string
    return (ManagedItemStateDto.managed_package name version)
  | _ ↦ refuse
]

unfoldable pub encode_entry : SnapshotEntryDto → Coder Unit
unfolding encode_state
encode_entry (SnapshotEntryDto.file path exists modified source_hash) = do
  write_u8 0
  write_path path
  write_bool exists
  write_optional_timestamp modified
  write_optional write_u64 source_hash
encode_entry (SnapshotEntryDto.context path exists timestamp_hash content_hash) = do
  write_u8 1
  write_path path
  write_bool exists
  write_optional write_u64 timestamp_hash
  write_optional write_u64 content_hash
encode_entry (SnapshotEntryDto.missing_existence path) = do write_u8 2; write_path path
encode_entry (SnapshotEntryDto.immutable_path path) = do write_u8 3; write_path path
encode_entry (SnapshotEntryDto.managed_path path root state) = do
  write_u8 4
  write_path path
  write_path root
  encode_state state

unfoldable pub decode_entry : Coder SnapshotEntryDto
unfolding decode_state
decode_entry = read_u8 >>= λ tag. elim tag [
  | zero ↦ do
    path ← read_path
    exists ← read_bool
    modified ← read_optional_timestamp
    source_hash ← read_optional read_u64
    return (SnapshotEntryDto.file path exists modified source_hash)
  | suc zero ↦ do
    path ← read_path
    exists ← read_bool
    timestamp_hash ← read_optional read_u64
    content_hash ← read_optional read_u64
    return (SnapshotEntryDto.context path exists timestamp_hash content_hash)
  | suc (suc zero) ↦ do path ← read_path; return (SnapshotEntryDto.missing_existence path)
  | suc (suc (suc zero)) ↦ do path ← read_path; return (SnapshotEntryDto.immutable_path path)
  | suc (suc (suc (suc zero))) ↦ do
    path ← read_path
    root ← read_path
    state ← decode_state
    return (SnapshotEntryDto.managed_path path root state)
  | _ ↦ refuse
]

unfoldable pub encode_snapshot : SnapshotDto → Coder Unit
unfolding encode_entry
encode_snapshot snapshot = write_list encode_entry snapshot.entries

unfoldable pub decode_snapshot : Coder SnapshotDto
unfolding decode_entry
decode_snapshot = do entries ← read_list decode_entry; return (record { entries = entries })

abbrev pub StateFits : ManagedItemStateDto → Type 0
StateFits (ManagedItemStateDto.managed_package name version) = IsUtf8 name × IsUtf8 version
StateFits ManagedItemStateDto.node_modules = Unit
StateFits ManagedItemStateDto.grouping_folder = Unit

-- The numbers and strings of an entry are of their types.
abbrev pub EntryFits : SnapshotEntryDto → Type 0
EntryFits (SnapshotEntryDto.file path exists modified source_hash) =
    IfSome IsTimestamp modified × IfSome IsU64 source_hash
EntryFits (SnapshotEntryDto.context path exists timestamp_hash content_hash) =
    IfSome IsU64 timestamp_hash × IfSome IsU64 content_hash
EntryFits (SnapshotEntryDto.missing_existence path) = Unit
EntryFits (SnapshotEntryDto.immutable_path path) = Unit
EntryFits (SnapshotEntryDto.managed_path path root state) = StateFits state

abbrev pub SnapshotFits : SnapshotDto → Type 0
SnapshotFits snapshot = Each EntryFits snapshot.entries

Writes-state : (v : ManagedItemStateDto) → StateFits v → Writes (encode_state v) decode_state v
unfolding encode_state decode_state
Writes-state ManagedItemStateDto.node_modules h = Writes-check _ (Writes-u8 0) refl
Writes-state ManagedItemStateDto.grouping_folder h = Writes-check _ (Writes-u8 1) refl
Writes-state (ManagedItemStateDto.managed_package name version) (p, q) =
    Writes-seq _ (Writes-u8 2)
      (Writes-seq _ (Writes-string name p) (Writes-map _ (Writes-string version q)))

Writes-entry : (v : SnapshotEntryDto) → EntryFits v → Writes (encode_entry v) decode_entry v
unfolding encode_entry decode_entry
Writes-entry (SnapshotEntryDto.file path exists modified source_hash) (p, q) =
    Writes-seq _ (Writes-u8 0) (
      Writes-seq _ (Writes-path path) (
        Writes-seq _ (Writes-bool exists) (
          Writes-seq _ (Writes-optional_timestamp modified p)
            (Writes-map _ (Writes-optional IsU64 Writes-u64 source_hash q)))))
Writes-entry (SnapshotEntryDto.context path exists timestamp_hash content_hash) (p, q) =
    Writes-seq _ (Writes-u8 1) (
      Writes-seq _ (Writes-path path) (
        Writes-seq _ (Writes-bool exists) (
          Writes-seq _ (Writes-optional IsU64 Writes-u64 timestamp_hash p)
            (Writes-map _ (Writes-optional IsU64 Writes-u64 content_hash q)))))
Writes-entry (SnapshotEntryDto.missing_existence path) h =
    Writes-seq _ (Writes-u8 2) (Writes-map _ (Writes-path path))
Writes-entry (SnapshotEntryDto.immutable_path path) h =
    Writes-seq _ (Writes-u8 3) (Writes-map _ (Writes-path path))
Writes-entry (SnapshotEntryDto.managed_path path root state) h = Writes-seq _ (Writes-u8 4) (
    Writes-seq _ (Writes-path path)
      (Writes-seq _ (Writes-path root) (Writes-map _ (Writes-state state h))))

pub Writes-snapshot :
    (v : SnapshotDto) → SnapshotFits v → Writes (encode_snapshot v) decode_snapshot v
unfolding encode_snapshot decode_snapshot
Writes-snapshot v h = Writes-map _ (Writes-list EntryFits Writes-entry v.entries h)
