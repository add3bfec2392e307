-- ===== src/PackFile/Written.antt =====
-- What a writer and its reader have to do with each other, and that it holds of every writer of the
-- encoder with its reader of the decoder, and of sequences, options and lists of them.
use unpack.Prelude.{
  ℕ, zero, suc, ◌-◌, ◌/◌, ◌^◌, ◌<◌, Bool, true, false, Option, none, some, List, [], ◌∷◌, ◌++◌, ◌≡◌,
  refl, ap, ◌∙◌, subst, arith, length, ltb, leb, ltb_iff, ◌||◌, Bool-cases, inl, inr, some_inj,
  Option-cases,
}
use unpack.PackFile.Coder.{
  Coder, ◌>>=◌, ◌>>◌, return, refuse, Bytes, ℤ, word_of, int_of, to_le_bytes, from_le_bytes,
  is_utf8, max_field_bytes, max_record_bytes, max_collection_entries, write_raw, write_u8,
  write_bool, write_u32, write_u64, write_i64, write_count, write_bytes_with_limit, write_bytes,
  write_string, write_path, write_record_string, write_optional, TimestampDto,
  write_optional_timestamp, write_each, write_list, read_exact, read_u8, read_bool, read_u32,
  read_u64, read_i64, read_count, read_bytes_with_limit, read_bytes, read_path, from_utf8,
  read_string, read_record_string, read_optional, read_optional_timestamp, read_each, read_list,
  run_encoder, run_decoder,
}

pub append_assoc : (xs ys zs : Bytes) → (xs ++ ys) ++ zs ≡ xs ++ (ys ++ zs)
append_assoc [] ys zs = refl
append_assoc (x ∷ xs) ys zs = ap (λ l. x ∷ l) (append_assoc xs ys zs)

pub append_nil : (xs : Bytes) → xs ++ [] ≡ xs
append_nil [] = refl
append_nil (x ∷ xs) = ap (λ l. x ∷ l) (append_nil xs)

-- Whenever the writer returns it has appended bytes from which the reader gets the value back, whatever
-- stands behind them, and leaves what stands behind them.
pub record Writes {A : Type 0} (write : Coder Unit) (read : Coder A) (value : A) : Type 0 where
  pub appended :
      (s t : Bytes)
      → write s ≡ some (tt, t)
      → (bytes : Bytes) × (t ≡ s ++ bytes)
        × ((rest : Bytes) → read (bytes ++ rest) ≡ some (value, rest))

pub run_coder :
    {A B : Type 0} (m : Coder A) (f : A → Coder B) (s t : Bytes) (b : B)
    → (m >>= f) s ≡ some (b, t)
    → (a : A) × (u : Bytes) × (m s ≡ some (a, u)) × (f a u ≡ some (b, t))
unfolding ◌>>=◌
run_coder m f s t b e = elim (Option-cases (m s)) [
  | inl out ↦ cc (rw (out, ◌>>=◌) at e)
  | inr ((a, u), found) ↦ (a, u, found, rw (found, ◌>>=◌) at e)
]

pub read_then :
    {A B : Type 0} (m : Coder A) (f : A → Coder B) (s t : Bytes) (a : A)
    → m s ≡ some (a, t)
    → (m >>= f) s ≡ f a t
unfolding ◌>>=◌
read_then m f s t a e = rw (e, ◌>>=◌) refl

module _ {A B : Type 0} where
  -- One writer after another is read by one reader after another.
  pub Writes-seq :
      {w w' : Coder Unit} {r : Coder A} (k : A → Coder B) {a : A} {b : B}
      → Writes w r a
      → Writes w' (k a) b
      → Writes (w >> w') (r >>= k) b
  unfolding ◌>>◌
  Writes-seq {w} {w'} {r} k {a} {b} first second = record {
    appended = λ s t e.
        let (x, u, written, later) = run_coder w (λ _. w') s t tt e in
        let (front, grown, reads) = first.appended s u written in
        let (back, more, gets) = second.appended u t later in
        (
          front ++ back,
          more ∙ ap (λ l. l ++ back) grown ∙ append_assoc s front back,
          λ rest.
              ap (r >>= k) (append_assoc front back rest)
              ∙ read_then r k (front ++ (back ++ rest)) (back ++ rest) a (reads (back ++ rest))
              ∙ gets rest,
        );
  }

  -- A reader that changes what another reads.
  pub Writes-map :
      {w : Coder Unit} {r : Coder A} (f : A → B) {a : A}
      → Writes w r a
      → Writes w (r >>= λ x. return (f x)) (f a)
  unfolding return
  Writes-map {w} {r} f {a} first = record {
    appended = λ s t e.
        let (bytes, grown, reads) = first.appended s t e in
        (bytes, grown, λ rest. read_then r (λ x. return (f x)) (bytes ++ rest) rest a (reads rest));
  }

  -- A reader that goes on with a check that the value passes.
  pub Writes-check :
      {w : Coder Unit} {r : Coder A} (k : A → Coder B) {a : A} {b : B}
      → Writes w r a
      → k a ≡ return b
      → Writes w (r >>= k) b
  unfolding return
  Writes-check {w} {r} k {a} {b} first passes = record {
    appended = λ s t e.
        let (bytes, grown, reads) = first.appended s t e in
        (
          bytes,
          grown,
          λ rest.
              read_then r k (bytes ++ rest) rest a (reads rest)
              ∙ ap (λ (m : Coder B). m rest) passes,
        );
  }

pub Writes-return : {A : Type 0} (a : A) → Writes (return tt) (return a) a
unfolding return
Writes-return a = record { appended = λ s t e. ([], ground (arith, append_nil s), λ rest. refl) }

pub Writes-u8 : (v : ℕ) → Writes (write_u8 v) read_u8 v
unfolding write_u8 write_raw read_u8
Writes-u8 v = record { appended = λ s t e. (v ∷ [], ground arith, λ rest. refl) }

read_exact-append :
    (bytes rest : Bytes) → read_exact (length bytes) (bytes ++ rest) ≡ some (bytes, rest)
unfolding read_exact
read_exact-append [] rest = refl
read_exact-append (b ∷ bytes) rest = rw (read_exact-append bytes rest) refl

Writes-raw : (bytes : Bytes) → Writes (write_raw bytes) (read_exact (length bytes)) bytes
unfolding write_raw
Writes-raw bytes = record {
  appended = λ s t e. (bytes, ground arith, λ rest. read_exact-append bytes rest);
}

from_le_bytes-to_le_bytes : (n v : ℕ) → v < 256 ^ n → from_le_bytes (to_le_bytes n v) ≡ v
unfolding from_le_bytes to_le_bytes
from_le_bytes-to_le_bytes zero v h = omega arith
from_le_bytes-to_le_bytes (suc n) v h =
    let below = from_le_bytes-to_le_bytes n (v / 256) (omega arith) in omega arith

abbrev pub IsU32 : ℕ → Type 0
IsU32 v = v < 4294967296

abbrev pub IsU64 : ℕ → Type 0
IsU64 v = v < 18446744073709551616

abbrev pub IsI64 : ℤ → Type 0
IsI64 (ℤ.pos n) = n < 9223372036854775808
IsI64 (ℤ.negsuc n) = n < 9223372036854775808

abbrev pub IsUtf8 : Bytes → Type 0
IsUtf8 bytes = is_utf8 bytes ≡ true

abbrev pub IfSome : {A : Type 0} → (A → Type 0) → Option A → Type 0
IfSome P none = Unit
IfSome P (some a) = P a

abbrev pub Each : {A : Type 0} → (A → Type 0) → List A → Type 0
Each P [] = Unit
Each P (a ∷ rest) = P a × Each P rest

Writes-refuse : {A : Type 0} (r : Coder A) (a : A) → Writes refuse r a
unfolding refuse
Writes-refuse r a = record { appended = λ s t e. cc }

pub Writes-bool : (v : Bool) → Writes (write_bool v) read_bool v
unfolding write_bool read_bool
Writes-bool true = Writes-check _ (Writes-u8 1) refl
Writes-bool false = Writes-check _ (Writes-u8 0) refl

pub Writes-u32 : (v : ℕ) → IsU32 v → Writes (write_u32 v) read_u32 v
unfolding write_u32 read_u32 to_le_bytes
Writes-u32 v h =
    subst (Writes (write_u32 v) read_u32) (from_le_bytes-to_le_bytes 4 v h)
      (Writes-map from_le_bytes (Writes-raw (to_le_bytes 4 v)))

pub Writes-u64 : (v : ℕ) → IsU64 v → Writes (write_u64 v) read_u64 v
unfolding write_u64 read_u64 to_le_bytes
Writes-u64 v h =
    subst (Writes (write_u64 v) read_u64) (from_le_bytes-to_le_bytes 8 v h)
      (Writes-map from_le_bytes (Writes-raw (to_le_bytes 8 v)))

word_of-IsU64 : (v : ℤ) → IsI64 v → IsU64 (word_of v)
word_of-IsU64 (ℤ.pos n) h = omega arith
word_of-IsU64 (ℤ.negsuc n) h = omega arith

int_of-word_of : (v : ℤ) → IsI64 v → int_of (word_of v) ≡ v
int_of-word_of (ℤ.pos n) h = ground (arith, ltb_iff n 9223372036854775808)
int_of-word_of (ℤ.negsuc n) h =
    ground (arith, ltb_iff (18446744073709551615 - n) 9223372036854775808)

pub Writes-i64 : (v : ℤ) → IsI64 v → Writes (write_i64 v) read_i64 v
unfolding write_i64 read_i64
Writes-i64 v h =
    subst (Writes (write_i64 v) read_i64) (int_of-word_of v h)
      (Writes-map int_of (Writes-u64 (word_of v) (word_of-IsU64 v h)))

leb-max : (v : ℕ) → ltb max_collection_entries v ≡ false → leb v max_collection_entries ≡ true
leb-max v h = ground arith

fits_limit :
    (v : Bytes) (limit : ℕ)
    → (ltb limit (length v) || ltb 4294967295 (length v)) ≡ false
    → ltb limit (length v) ≡ false
fits_limit v limit h = ground arith

pub Writes-count : (v : ℕ) → Writes (write_count v) read_count v
unfolding write_count read_count
Writes-count v = elim (Bool-cases (ltb max_collection_entries v)) [
  | inl many ↦ rw many (Writes-refuse read_count v)
  | inr few ↦ rw few (
      Writes-check _ (Writes-u32 v (ground (arith, ltb_iff max_collection_entries v)))
        (rw (leb-max v few) refl))
]

pub Writes-bytes_with_limit :
    (v : Bytes) (limit : ℕ)
    → Writes (write_bytes_with_limit v limit) (read_bytes_with_limit limit) v
unfolding write_bytes_with_limit read_bytes_with_limit
Writes-bytes_with_limit v limit =
    elim (Bool-cases (ltb limit (length v) || ltb 4294967295 (length v))) [
      | inl long ↦ rw long (Writes-refuse (read_bytes_with_limit limit) v)
      | inr short ↦ rw short (
          Writes-seq _ (Writes-u32 (length v) (ground (arith, ltb_iff 4294967295 (length v))))
            (rw (fits_limit v limit short) (Writes-raw v)))
    ]

pub Writes-bytes : (v : Bytes) → Writes (write_bytes v) read_bytes v
unfolding write_bytes read_bytes
Writes-bytes v = Writes-bytes_with_limit v max_field_bytes

pub Writes-path : (v : Bytes) → Writes (write_path v) read_path v
unfolding write_path read_path
Writes-path v = Writes-bytes v

pub Writes-string : (v : Bytes) → IsUtf8 v → Writes (write_string v) read_string v
unfolding write_string read_string from_utf8
Writes-string v h = Writes-check _ (Writes-bytes v) (rw h refl)

pub Writes-record_string :
    (v : Bytes) → IsUtf8 v → Writes (write_record_string v) read_record_string v
unfolding write_record_string read_record_string from_utf8
Writes-record_string v h = Writes-check _ (Writes-bytes_with_limit v max_record_bytes) (rw h refl)

module _ {A : Type 0} (P : A → Type 0) {w : A → Coder Unit} {r : Coder A}
    (each : (a : A) → P a → Writes (w a) r a) where
  pub Writes-optional :
      (v : Option A) → IfSome P v → Writes (write_optional w v) (read_optional r) v
  unfolding write_optional read_optional
  Writes-optional none h = Writes-check _ (Writes-u8 0) refl
  Writes-optional (some a) h = Writes-seq _ (Writes-u8 1) (Writes-map some (each a h))

  Writes-values : (v : List A) → Each P v → Writes (write_each w v) (read_each r (length v)) v
  unfolding write_each read_each
  Writes-values [] h = Writes-return []
  Writes-values (a ∷ rest) (h, hs) =
      Writes-seq _ (each a h) (Writes-map (λ l. a ∷ l) (Writes-values rest hs))

  pub Writes-list : (v : List A) → Each P v → Writes (write_list w v) (read_list r) v
  unfolding write_list read_list
  Writes-list v h = Writes-seq _ (Writes-count (length v)) (Writes-values v h)

abbrev pub IsTimestamp : TimestampDto → Type 0
IsTimestamp t = IsI64 t.seconds × IsU32 t.nanoseconds

pub Writes-optional_timestamp :
    (v : Option TimestampDto)
    → IfSome IsTimestamp v
    → Writes (write_optional_timestamp v) read_optional_timestamp v
unfolding write_optional_timestamp read_optional_timestamp
Writes-optional_timestamp none h = Writes-check _ (Writes-u8 0) refl
Writes-optional_timestamp (some v) (secs, nanos) =
    elim (Bool-cases (ltb v.nanoseconds 1000000000)) [
      | inl small ↦ rw small (
          Writes-seq _ (Writes-u8 1) (
            Writes-seq _ (Writes-i64 v.seconds secs)
              (Writes-check _ (Writes-u32 v.nanoseconds nanos) (rw small refl))))
      | inr large ↦ rw large (Writes-refuse read_optional_timestamp (some v))
    ]

-- What a writer has written in full, its reader reads in full.
pub run_decoder-run_encoder :
    {A : Type 0} {w : Coder Unit} {r : Coder A} {a : A} (bytes : Bytes)
    → Writes w r a
    → run_encoder w ≡ some bytes
    → run_decoder r bytes ≡ some a
unfolding run_encoder run_decoder
run_decoder-run_encoder {w = w} {r = r} bytes h e = elim (Option-cases (w [])) [
  | inl out ↦ cc (rw (out, run_encoder) at e)
  | inr ((u, t), found) ↦
      let (written, grown, reads) = h.appended [] t found in
      let same = some_inj (rw (found, run_encoder) at e) in
      ground (arith, append_nil written, reads [])
]
