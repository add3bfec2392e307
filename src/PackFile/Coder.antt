-- ===== src/PackFile/Coder.antt =====
-- `Encoder` and `Decoder` of crates/unpack_core/src/cache/pack_file.rs. Both are a state that is threaded
-- through code that may fail: for the encoder the bytes written so far, for the decoder the bytes
-- from `position` on. A `u32` or `u64` is a ℕ.
use unpack.Prelude.{
  ℕ, zero, suc, ◌+◌, ◌-◌, ◌*◌, ◌/◌, ◌%◌, Bool, true, false, Option, none, some, List, [], ◌∷◌, ◌++◌,
  length, is_empty, ltb, leb, if◌then◌else◌, ◌&&◌, ◌||◌,
}

abbrev pub Coder : Type 0 → Type 0
Coder A = List ℕ → Option (A × List ℕ)

infixl 5 ◌>>=◌ ◌>>◌
unfoldable pub ◌>>=◌ : {A B : Type 0} → Coder A → (A → Coder B) → Coder B
(m >>= f) s = elim (m s) [ none ↦ none | some (a, t) ↦ f a t ]

unfoldable pub ◌>>◌ : {A B : Type 0} → Coder A → Coder B → Coder B
unfolding ◌>>=◌
m >> k = m >>= λ _. k

unfoldable pub return : {A : Type 0} → A → Coder A
return a s = some (a, s)

unfoldable pub refuse : {A : Type 0} → Coder A
refuse s = none

-- `String` and `PathBytes` are their bytes.
abbrev pub Bytes : Type 0
Bytes = List ℕ

abbrev pub max_field_bytes : ℕ
max_field_bytes = 1048576

abbrev pub max_record_bytes : ℕ
max_record_bytes = 16777216

abbrev pub max_collection_entries : ℕ
max_collection_entries = 100000

-- `i64`
pub data ℤ : Type 0 where
  pos : ℕ → ℤ
  negsuc : ℕ → ℤ

abbrev pub word_of : ℤ → ℕ
word_of (ℤ.pos n) = n
word_of (ℤ.negsuc n) = 18446744073709551615 - n

abbrev pub int_of : ℕ → ℤ
int_of w = if ltb w 9223372036854775808 then ℤ.pos w else ℤ.negsuc (18446744073709551615 - w)

-- `to_le_bytes` and `from_le_bytes` of a number of `n` bytes
unfoldable pub to_le_bytes : ℕ → ℕ → Bytes
to_le_bytes zero v = []
to_le_bytes (suc n) v = v % 256 ∷ to_le_bytes n (v / 256)

unfoldable pub from_le_bytes : Bytes → ℕ
from_le_bytes [] = 0
from_le_bytes (b ∷ bs) = b + 256 * from_le_bytes bs

abbrev between : ℕ → ℕ → ℕ → Bool
between low high b = leb low b && leb b high

-- What must follow a byte that begins a character: how many bytes, and the bounds of the next.
unfoldable after_lead : ℕ → Option (ℕ × ℕ × ℕ)
after_lead a =
    if ltb a 128
    then some (0, 128, 191)
    else if between 194 223 a
    then some (1, 128, 191)
    else if between 224 224 a
    then some (2, 160, 191)
    else if between 237 237 a
    then some (2, 128, 159)
    else if between 225 239 a
    then some (2, 128, 191)
    else if between 240 240 a
    then some (3, 144, 191)
    else if between 241 243 a
    then some (3, 128, 191)
    else if between 244 244 a
    then some (3, 128, 143)
    else none

unfoldable utf8_from : Bytes → ℕ × ℕ × ℕ → Bool
unfolding after_lead
utf8_from [] (zero, _, _) = true
utf8_from [] (suc n, _, _) = false
utf8_from (a ∷ rest) (zero, _, _) = elim (after_lead a) [
  | none ↦ false
  | some next ↦ utf8_from rest next
]
utf8_from (a ∷ rest) (suc n, low, high) =
    let later = utf8_from rest (n, 128, 191) in between low high a && later

-- The well-formed byte sequences of UTF-8, which `String::from_utf8` accepts.
unfoldable pub is_utf8 : Bytes → Bool
unfolding utf8_from
is_utf8 bytes = utf8_from bytes (0, 128, 191)

-- Encoder
unfoldable pub write_raw : Bytes → Coder Unit
write_raw value s = some (tt, s ++ value)

unfoldable pub write_u8 : ℕ → Coder Unit
unfolding write_raw
write_u8 value = write_raw (value ∷ [])

unfoldable pub write_bool : Bool → Coder Unit
unfolding write_u8
write_bool value = write_u8 (if value then 1 else 0)

unfoldable pub write_u32 : ℕ → Coder Unit
unfolding write_raw
write_u32 value = write_raw (to_le_bytes 4 value)

unfoldable pub write_u64 : ℕ → Coder Unit
unfolding write_raw
write_u64 value = write_raw (to_le_bytes 8 value)

unfoldable pub write_i64 : ℤ → Coder Unit
unfolding write_u64
write_i64 value = write_u64 (word_of value)

unfoldable pub write_count : ℕ → Coder Unit
unfolding write_u32
write_count value = if ltb max_collection_entries value then refuse else write_u32 value

unfoldable pub write_bytes_with_limit : Bytes → ℕ → Coder Unit
unfolding write_u32 write_raw
write_bytes_with_limit value limit =
    if ltb limit (length value) || ltb 4294967295 (length value)
    then refuse
    else write_u32 (length value) >> write_raw value

unfoldable pub write_bytes : Bytes → Coder Unit
unfolding write_bytes_with_limit
write_bytes value = write_bytes_with_limit value max_field_bytes

unfoldable pub write_string : Bytes → Coder Unit
unfolding write_bytes
write_string value = write_bytes value

unfoldable pub write_path : Bytes → Coder Unit
unfolding write_bytes
write_path value = write_bytes value

unfoldable pub write_record_string : Bytes → Coder Unit
unfolding write_bytes_with_limit
write_record_string value = write_bytes_with_limit value max_record_bytes

-- `write_optional_bytes`, `write_optional_string`, `write_optional_record_string` and
-- `write_optional_u64`, which differ in what is written after the tag.
unfoldable pub write_optional : {A : Type 0} → (A → Coder Unit) → Option A → Coder Unit
unfolding write_u8
write_optional write (some value) = write_u8 1 >> write value
write_optional write none = write_u8 0

pub record TimestampDto : Type 0 where
  pub seconds : ℤ
  pub nanoseconds : ℕ

unfoldable pub write_optional_timestamp : Option TimestampDto → Coder Unit
unfolding write_u8 write_i64 write_u32
write_optional_timestamp (some value) =
    if ltb value.nanoseconds 1000000000
    then write_u8 1 >> (write_i64 value.seconds >> write_u32 value.nanoseconds)
    else refuse
write_optional_timestamp none = write_u8 0

-- The loop `for value in values` over a writer.
unfoldable pub write_each : {A : Type 0} → (A → Coder Unit) → List A → Coder Unit
write_each write [] = return tt
write_each write (value ∷ rest) = write value >> write_each write rest

-- `write_strings`, `write_paths` and every other count that is followed by so many values.
unfoldable pub write_list : {A : Type 0} → (A → Coder Unit) → List A → Coder Unit
unfolding write_count write_each
write_list write values = write_count (length values) >> write_each write values

-- Decoder
unfoldable pub read_exact : ℕ → Coder Bytes
read_exact zero s = some ([], s)
read_exact (suc n) [] = none
read_exact (suc n) (b ∷ s) = elim (read_exact n s) [ none ↦ none | some (bs, t) ↦ some (b ∷ bs, t) ]

unfoldable pub read_u8 : Coder ℕ
read_u8 [] = none
read_u8 (b ∷ s) = some (b, s)

unfoldable pub read_bool : Coder Bool
unfolding read_u8
read_bool =
    read_u8 >>= λ tag. elim tag [ zero ↦ return false | suc zero ↦ return true | _ ↦ refuse ]

unfoldable pub read_u32 : Coder ℕ
unfolding read_exact
read_u32 = read_exact 4 >>= λ bytes. return (from_le_bytes bytes)

unfoldable pub read_u64 : Coder ℕ
unfolding read_exact
read_u64 = read_exact 8 >>= λ bytes. return (from_le_bytes bytes)

unfoldable pub read_i64 : Coder ℤ
unfolding read_u64
read_i64 = read_u64 >>= λ word. return (int_of word)

unfoldable pub read_count : Coder ℕ
unfolding read_u32
read_count = read_u32 >>= λ count. if leb count max_collection_entries then return count else refuse

unfoldable pub read_bytes_with_limit : ℕ → Coder Bytes
unfolding read_u32 read_exact
read_bytes_with_limit limit =
    read_u32 >>= λ size. if ltb limit size then refuse else read_exact size

unfoldable pub read_bytes : Coder Bytes
unfolding read_bytes_with_limit
read_bytes = read_bytes_with_limit max_field_bytes

unfoldable pub read_path : Coder Bytes
unfolding read_bytes
read_path = read_bytes

-- `String::from_utf8(bytes).ok()`
unfoldable pub from_utf8 : Bytes → Coder Bytes
from_utf8 bytes = if is_utf8 bytes then return bytes else refuse

unfoldable pub read_string : Coder Bytes
unfolding read_bytes from_utf8
read_string = read_bytes >>= from_utf8

unfoldable pub read_record_string : Coder Bytes
unfolding read_bytes_with_limit from_utf8
read_record_string = read_bytes_with_limit max_record_bytes >>= from_utf8

unfoldable pub read_optional : {A : Type 0} → Coder A → Coder (Option A)
unfolding read_u8
read_optional read = read_u8 >>= λ tag. elim tag [
  | zero ↦ return none
  | suc zero ↦ read >>= λ value. return (some value)
  | _ ↦ refuse
]

unfoldable pub read_optional_timestamp : Coder (Option TimestampDto)
unfolding read_u8 read_i64 read_u32
read_optional_timestamp = read_u8 >>= λ tag. elim tag [
  | zero ↦ return none
  | suc zero ↦ do
    seconds ← read_i64
    nanoseconds ← read_u32
    if ltb nanoseconds 1000000000
        then return (some (record { seconds = seconds; nanoseconds = nanoseconds }))
        else refuse
  | _ ↦ refuse
]

-- The loop `for _ in 0..count` over a reader.
unfoldable pub read_each : {A : Type 0} → Coder A → ℕ → Coder (List A)
read_each read zero = return []
read_each read (suc n) = do value ← read; rest ← read_each read n; return (value ∷ rest)

-- `read_strings`, `read_paths` and every other count that is followed by so many values.
unfoldable pub read_list : {A : Type 0} → Coder A → Coder (List A)
unfolding read_count read_each
read_list read = read_count >>= read_each read

-- `Encoder::default()` up to `finish`
unfoldable pub run_encoder : Coder Unit → Option Bytes
run_encoder c = elim (c []) [ none ↦ none | some (_, bytes) ↦ some bytes ]

-- `Decoder::new` up to `finish`, which refuses bytes that are left over
unfoldable pub run_decoder : {A : Type 0} → Coder A → Bytes → Option A
run_decoder c bytes = elim (c bytes) [
  | none ↦ none
  | some (value, rest) ↦ if is_empty rest then some value else none
]
