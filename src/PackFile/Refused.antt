-- ===== src/PackFile/Refused.antt =====
-- Bytes that the encoder of crates/unpack_core/src/cache/pack_file.rs writes and the decoder refuses: the
-- type of an asset module that is not one of assets.
use unpack.Prelude.{
  false, none, some, [], ◌++◌, ◌≡◌, refl, ap, ◌∙◌, arith, Option-cases, inl, inr, some_inj,
}
use unpack.PackFile.Coder.{Coder, ◌>>=◌, ◌>>◌, refuse, Bytes, read_bool, run_encoder, run_decoder}
use unpack.PackFile.Dto.{ModuleTypeDto, ParsedModuleDataDto, ParsedModuleDto, ModuleBuildRecordDto}
use unpack.PackFile.Written.{
  Writes, Writes-seq, Writes-u8, Writes-u64, Writes-bool, Writes-string, Writes-bytes,
  Writes-record_string, Writes-optional, Writes-list, IsUtf8, append_assoc, append_nil, run_coder,
  read_then,
}
use unpack.PackFile.Snapshot.{Writes-snapshot}
use unpack.PackFile.Resolve.{encode_module_type}
use unpack.PackFile.Parsed.{Writes-dependencies}
use unpack.PackFile.Build.{
  encode_data, decode_data, decode_asset_type, encode_parsed_module, decode_parsed_module,
  write_module_build_record, read_module_build_record, read_side_effect_free, is_asset_type,
  data_is_read, BlockFits, ParsedFits, BuildRecordFits, AnyBytes, any_bytes, Writes-block,
  Writes-side_effect_free,
}

-- Whenever the writer returns it has appended bytes that the reader refuses, whatever stands behind them.
pub record Refuses {A : Type 0} (write : Coder Unit) (read : Coder A) : Type 0 where
  pub appended :
      (s t : Bytes)
      → write s ≡ some (tt, t)
      → (bytes : Bytes) × (t ≡ s ++ bytes) × ((rest : Bytes) → read (bytes ++ rest) ≡ none)

refused_then :
    {A B : Type 0} (m : Coder A) (f : A → Coder B) (s : Bytes) → m s ≡ none → (m >>= f) s ≡ none
unfolding ◌>>=◌
refused_then m f s e = rw (e, ◌>>=◌) refl

module _ {A B : Type 0} where
  -- What comes later is refused.
  Refuses-later :
      {w w' : Coder Unit} {r : Coder A} (k : A → Coder B) {a : A}
      → Writes w r a
      → Refuses w' (k a)
      → Refuses (w >> w') (r >>= k)
  unfolding ◌>>◌
  Refuses-later {w} {w'} {r} k {a} first second = record {
    appended = λ s t e.
        let (x, u, written, later) = run_coder w (λ _. w') s t tt e in
        let (front, grown, reads) = first.appended s u written in
        let (back, more, refused) = second.appended u t later in
        (
          front ++ back,
          more ∙ ap (λ l. l ++ back) grown ∙ append_assoc s front back,
          λ rest.
              ap (r >>= k) (append_assoc front back rest)
              ∙ read_then r k (front ++ (back ++ rest)) (back ++ rest) a (reads (back ++ rest))
              ∙ refused rest,
        );
  }

  -- What goes on with a value that is refused is refused.
  Refuses-on : {w : Coder Unit} {r : Coder A} (k : A → Coder B) → Refuses w r → Refuses w (r >>= k)
  Refuses-on {w} {r} k first = record {
    appended = λ s t e.
        let (bytes, grown, refused) = first.appended s t e in
        (bytes, grown, λ rest. refused_then r k (bytes ++ rest) (refused rest));
  }

  -- The value that is read is refused.
  Refuses-check :
      {w : Coder Unit} {r : Coder A} (k : A → Coder B) {a : A}
      → Writes w r a
      → k a ≡ refuse
      → Refuses w (r >>= k)
  unfolding refuse
  Refuses-check {w} {r} k {a} first fails = record {
    appended = λ s t e.
        let (bytes, grown, reads) = first.appended s t e in
        (
          bytes,
          grown,
          λ rest.
              read_then r k (bytes ++ rest) rest a (reads rest)
              ∙ ap (λ (m : Coder B). m rest) fails,
        );
  }

-- What is written behind does not matter.
Refuses-before :
    {A C : Type 0} {w w' : Coder Unit} {r : Coder A} {r' : Coder C} {c : C}
    → Refuses w r
    → Writes w' r' c
    → Refuses (w >> w') r
unfolding ◌>>◌
Refuses-before {w = w} {w' = w'} {r = r} first second = record {
  appended = λ s t e.
      let (x, u, written, later) = run_coder w (λ _. w') s t tt e in
      let (front, grown, refused) = first.appended s u written in
      let (back, more, _) = second.appended u t later in
      (
        front ++ back,
        more ∙ ap (λ l. l ++ back) grown ∙ append_assoc s front back,
        λ rest. ap r (append_assoc front back rest) ∙ refused (back ++ rest),
      );
}

Refuses-asset_type :
    (v : ModuleTypeDto) → is_asset_type v ≡ false → Refuses (encode_module_type v) decode_asset_type
unfolding encode_module_type decode_asset_type
Refuses-asset_type ModuleTypeDto.javascript_auto h = Refuses-check _ (Writes-u8 0) refl
Refuses-asset_type ModuleTypeDto.json h = Refuses-check _ (Writes-u8 1) refl
Refuses-asset_type ModuleTypeDto.asset h = cc
Refuses-asset_type ModuleTypeDto.asset_resource h = cc
Refuses-asset_type ModuleTypeDto.asset_inline h = cc
Refuses-asset_type ModuleTypeDto.asset_source h = cc

Refuses-data :
    (v : ParsedModuleDataDto) → data_is_read v ≡ false → Refuses (encode_data v) decode_data
unfolding encode_data decode_data
Refuses-data ParsedModuleDataDto.javascript h = cc
Refuses-data (ParsedModuleDataDto.json value) h = cc
Refuses-data (ParsedModuleDataDto.asset module_type) h =
    Refuses-later _ (Writes-u8 2) (Refuses-on _ (Refuses-asset_type module_type h))

Refuses-parsed :
    (v : ParsedModuleDto)
    → ParsedFits v
    → data_is_read v.parsed_data ≡ false
    → Refuses (encode_parsed_module v) decode_parsed_module
unfolding encode_parsed_module decode_parsed_module
Refuses-parsed v (dependencies, blocks, presentational, identifiers, data_fits) other =
    Refuses-later _ (Writes-dependencies v.dependencies dependencies) (
      Refuses-later _ (Writes-list BlockFits Writes-block v.blocks blocks) (
        Refuses-later _ (Writes-dependencies v.presentational_dependencies presentational) (
          Refuses-later _ (Writes-list IsUtf8 Writes-record_string v.identifiers identifiers)
            (Refuses-on _ (Refuses-data v.parsed_data other)))))

pub Refuses-module_build_record :
    (r : ModuleBuildRecordDto)
    → BuildRecordFits r
    → data_is_read r.parsed.parsed_data ≡ false
    → Refuses (write_module_build_record r) read_module_build_record
unfolding write_module_build_record read_module_build_record
Refuses-module_build_record r (source, source_hash, parsed, snapshot) other =
    let behind =
      Writes-seq (λ _. read_side_effect_free >>= λ _. read_bool)
        (Writes-snapshot r.snapshot snapshot)
        (Writes-seq (λ _. read_bool) (Writes-side_effect_free r.parsed.build_side_effect_free)
          (Writes-bool r.parsed.uses_direct_eval)) in
    Refuses-later _ (Writes-string r.source source) (
      Refuses-later _
        (Writes-optional AnyBytes (λ a h. Writes-bytes a) r.binary_source
          (any_bytes r.binary_source))
        (Refuses-later _ (Writes-u64 r.source_hash source_hash)
          (Refuses-before (Refuses-on _ (Refuses-parsed r.parsed parsed other)) behind)))

pub run_decoder-refused :
    {A : Type 0} {w : Coder Unit} {r : Coder A} (bytes : Bytes)
    → Refuses w r
    → run_encoder w ≡ some bytes
    → run_decoder r bytes ≡ none
unfolding run_encoder run_decoder
run_decoder-refused {w = w} {r = r} bytes h e = elim (Option-cases (w [])) [
  | inl out ↦ cc (rw (out, run_encoder) at e)
  | inr ((u, t), found) ↦
      let (written, grown, refused) = h.appended [] t found in
      let same = some_inj (rw (found, run_encoder) at e) in
      ground (arith, append_nil written, refused [])
]
