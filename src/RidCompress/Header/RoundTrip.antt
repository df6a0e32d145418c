-- ===== src/RidCompress/Header/RoundTrip.antt =====
-- A header that is written is read back, with a fixed length of 0 as 32.
use alacrity_adios.Prelude.{
  ℕ, ◌+◌, ◌-◌, ◌*◌, ◌/◌, ◌%◌, ◌^◌, ◌≤◌, ◌<◌, ◌≡◌, refl, sym, ap, ◌∙◌, arith,
}
use alacrity_adios.Prelude.{true, false, ltb, ◌==◌, if◌then◌else◌, u32, le→leb}
use alacrity_adios.Prelude.{List, ◌++◌, length, length-append, append_assoc, take_append}
use alacrity_adios.Prelude.{drop_append, some}
use alacrity_adios.Memory.{le_bytes, length-le_bytes, from_le-le_bytes}
use alacrity_adios.RidCompress.Exceptions.{
  ExceptionType, ValueType, value_type, type_code, type_of_code,
}
use alacrity_adios.RidCompress.Header.{Header, CompactHeader, compact_bytes, compact_of, is_invalid}
use alacrity_adios.RidCompress.Header.{read_compact, read, write}
use alacrity_adios.RidCompress.Header.{sufficient_buffer_capacity}
use alacrity_adios.RidCompress.FixedLength.{batch_size}
use mathlib.Core.Option.{none-ne-some}

-- What a header of the encoder keeps to.
pub record IsHeader (h : Header) : Type 0 where
  pub frame_fits : h.frame_of_reference < 2 ^ 32
  pub first_fits : h.first_exception ≤ 128
  pub significant_fits : h.significant_data_size ≤ 128
  pub length_fits : h.fixed_length ≤ 32
  pub type : ValueType
  pub type_known : value_type h.exception_type ≡ some type
  pub words : ℕ
  pub whole : h.encoded_size ≡ words * 8
  pub not_empty : 0 < words
  pub within : words ≤ 128

-- The fixed length that comes back.
unfoldable pub stored_length : ℕ → ℕ
stored_length fixed_length = if fixed_length == 0 then 32 else fixed_length

abbrev pub as_read : Header → Header
as_read h = record h { fixed_length = stored_length h.fixed_length }

type_of_code-type_code :
    (t : ExceptionType) (type : ValueType)
    → value_type t ≡ some type
    → type_of_code (type_code t) ≡ t
unfolding type_of_code type_code value_type
type_of_code-type_code ExceptionType.exception_unsigned_char type e = refl
type_of_code-type_code ExceptionType.exception_signed_char type e = refl
type_of_code-type_code ExceptionType.exception_unsigned_short type e = refl
type_of_code-type_code ExceptionType.exception_signed_short type e = refl
type_of_code-type_code ExceptionType.exception_unsigned_int type e = refl
type_of_code-type_code ExceptionType.exception_signed_int type e = refl
type_of_code-type_code (ExceptionType.unknown_exception_type n) type e =
    absurd (none-ne-some type e)

type_code-less : (t : ExceptionType) (type : ValueType) → value_type t ≡ some type → type_code t < 6
unfolding type_code value_type
type_code-less ExceptionType.exception_unsigned_char type e = omega arith
type_code-less ExceptionType.exception_signed_char type e = omega arith
type_code-less ExceptionType.exception_unsigned_short type e = omega arith
type_code-less ExceptionType.exception_signed_short type e = omega arith
type_code-less ExceptionType.exception_unsigned_int type e = omega arith
type_code-less ExceptionType.exception_signed_int type e = omega arith
type_code-less (ExceptionType.unknown_exception_type n) type e = absurd (none-ne-some type e)

record Fits (c : CompactHeader) : Type 0 where
  frame_fits : c.frame_of_reference < 2 ^ 32
  first_fits : c.first_exception < 2 ^ 8
  significant_fits : c.significant_data_size < 2 ^ 8
  length_fits : c.fixed_length < 2 ^ 5
  type_fits : c.exception_type < 2 ^ 3
  size_fits : c.encoded_size < 2 ^ 8

length-compact_bytes : (c : CompactHeader) → length (compact_bytes c) ≡ 8
unfolding compact_bytes
length-compact_bytes c = omega (
  arith,
  length-append (le_bytes 4 c.frame_of_reference) (
      le_bytes 4 (
        c.first_exception
        + c.significant_data_size * 2 ^ 8
        + c.fixed_length * 2 ^ 16
        + c.exception_type * 2 ^ 21
        + c.encoded_size * 2 ^ 24)),
  length-le_bytes 4,
)

module _ (c : CompactHeader) (w : Fits c) where
  abbrev second : ℕ
  second =
      c.first_exception
      + c.significant_data_size * 2 ^ 8
      + c.fixed_length * 2 ^ 16
      + c.exception_type * 2 ^ 21
      + c.encoded_size * 2 ^ 24

  fields_kept : compact_of c.frame_of_reference second ≡ c
  unfolding compact_of
  fields_kept =
      let first : second % 2 ^ 8 ≡ c.first_exception =
        omega (arith, w.first_fits, w.significant_fits, w.length_fits, w.type_fits, w.size_fits) in
      let significant : second / 2 ^ 8 % 2 ^ 8 ≡ c.significant_data_size =
        omega (arith, w.first_fits, w.significant_fits, w.length_fits, w.type_fits, w.size_fits) in
      let len : second / 2 ^ 16 % 2 ^ 5 ≡ c.fixed_length =
        omega (arith, w.first_fits, w.significant_fits, w.length_fits, w.type_fits, w.size_fits) in
      let kind : second / 2 ^ 21 % 2 ^ 3 ≡ c.exception_type =
        omega (arith, w.first_fits, w.significant_fits, w.length_fits, w.type_fits, w.size_fits) in
      let size : second / 2 ^ 24 % 2 ^ 8 ≡ c.encoded_size =
        omega (arith, w.first_fits, w.significant_fits, w.length_fits, w.type_fits, w.size_fits) in
      rw (first, significant, len, kind, size)

  read-compact_bytes : (rest : List ℕ) → read (compact_bytes c ++ rest) ≡ read_compact c
  unfolding read compact_bytes
  read-compact_bytes rest =
      let a = le_bytes 4 c.frame_of_reference in
      let b = le_bytes 4 second in
      let la : length a ≡ 4 = length-le_bytes 4 c.frame_of_reference in
      let lb : length b ≡ 4 = length-le_bytes 4 second in
      let first_fits : c.frame_of_reference < 256 ^ 4 = omega (arith, w.frame_fits) in
      let second_fits : second < 256 ^ 4 =
        omega (arith, w.first_fits, w.significant_fits, w.length_fits, w.type_fits, w.size_fits) in
      rw (
        append_assoc a b rest,
        le→leb 8 (length (a ++ (b ++ rest)))
            (omega (arith, length-append a (b ++ rest), length-append b rest, la, lb)),
        take_append 4 a (b ++ rest) (sym la),
        drop_append 4 a (b ++ rest) (sym la),
        take_append 4 b rest (sym lb),
        from_le-le_bytes 4 c.frame_of_reference first_fits,
        from_le-le_bytes 4 second second_fits,
        fields_kept,
      )

not_above : (a b : ℕ) → b ≤ a → ltb a b ≡ false
not_above a b h = ground arith

module _ (h : Header) (w : IsHeader h) where
  abbrev compact : CompactHeader
  compact = record {
    frame_of_reference = u32 h.frame_of_reference;
    first_exception = h.first_exception % 2 ^ 8;
    significant_data_size = h.significant_data_size % 2 ^ 8;
    fixed_length = (h.fixed_length + 2 ^ 32 - 1) % 2 ^ 5;
    exception_type = type_code h.exception_type % 2 ^ 3;
    encoded_size = h.encoded_size / 8 % 2 ^ 8;
  }

  compact-Fits : Fits compact
  compact-Fits = record {
    frame_fits = omega arith;
    first_fits = omega arith;
    significant_fits = omega arith;
    length_fits = omega arith;
    type_fits = omega arith;
    size_fits = omega arith;
  }

  compact_read : read_compact compact ≡ some (as_read h)
  unfolding read_compact is_invalid stored_length
  compact_read =
      let code = type_code-less h.exception_type w.type w.type_known in
      let frame : u32 h.frame_of_reference ≡ h.frame_of_reference = omega (arith, w.frame_fits) in
      let first : h.first_exception % 2 ^ 8 ≡ h.first_exception = omega (arith, w.first_fits) in
      let significant : h.significant_data_size % 2 ^ 8 ≡ h.significant_data_size =
        omega (arith, w.significant_fits) in
      let len : (h.fixed_length + 2 ^ 32 - 1) % 2 ^ 5 + 1 ≡ stored_length h.fixed_length =
        ground (arith, w.length_fits) in
      let kind : type_code h.exception_type % 2 ^ 3 ≡ type_code h.exception_type =
        omega (arith, code) in
      let size : h.encoded_size / 8 % 2 ^ 8 ≡ w.words = omega (arith, w.whole, w.within) in
      let known = type_of_code-type_code h.exception_type w.type w.type_known in
      let small : stored_length h.fixed_length ≤ 32 = ground (arith, w.length_fits) in
      let some_size : (w.words * 8 == 0) ≡ false = ground (arith, w.not_empty) in
      rw
        (
          frame,
          first,
          significant,
          len,
          kind,
          size,
          known,
          not_above batch_size h.first_exception w.first_fits,
          not_above batch_size h.significant_data_size w.significant_fits,
          not_above 32 (stored_length h.fixed_length) small,
          not_above 5 (type_code h.exception_type) (omega (arith, code)),
          some_size,
          not_above sufficient_buffer_capacity (w.words * 8) (omega (arith, w.within)),
        )
        (ap (λ t. some (record (as_read h) { encoded_size = t })) (sym w.whole))

  -- A header within the ranges of its fields is written as 8 bytes, and reading these, whatever is
  -- behind them, gives the header back, but with 32 for a fixed length of 0.
  pub read-write :
      (bytes : List ℕ) × (write h ≡ some bytes)
      × (length bytes ≡ 8)
      × ((rest : List ℕ) → read (bytes ++ rest) ≡ some (as_read h))
  unfolding write
  read-write =
      let whole : (h.encoded_size % 8 == 0) ≡ true = ground (arith, w.whole) in
      (
        compact_bytes compact,
        rw whole,
        length-compact_bytes compact,
        λ rest. read-compact_bytes compact compact-Fits rest ∙ compact_read,
      )
