-- ===== src/RidCompress/Exceptions.antt =====
-- The exceptions of src/ridcompress/patchedframeofreference.cpp: values that a batch stores apart,
-- from the end of its buffer downwards. A pointer that is moved down while it writes is the list
-- of the bytes from it to the end; one that is moved down while it reads is the list of the bytes
-- below it, and reading below the start is `none`.
pub mod Stack
pub mod Patching
pub mod Whole
use alacrity_adios.Prelude.{ℕ, zero, suc, ◌+◌, ◌-◌, ◌*◌, ◌%◌, ◌^◌, Bool, ltb, leb, ◌==◌}
use alacrity_adios.Prelude.{if◌then◌else◌, u32, List, [], ◌∷◌, ◌++◌, length, take, drop}
use alacrity_adios.Prelude.{get_or, get_elem?, set, Option, none, some, ◌>>=◌}
use alacrity_adios.Memory.{le_bytes, from_le}

-- `unknown_exception_type n` is any other value that three bits can hold.
pub data ExceptionType : Type 0 where
  exception_unsigned_char exception_signed_char : ExceptionType
  exception_unsigned_short exception_signed_short : ExceptionType
  exception_unsigned_int exception_signed_int : ExceptionType
  unknown_exception_type : ℕ → ExceptionType

-- The types that the templates are used at.
pub data ValueType : Type 0 where
  unsigned_char signed_char unsigned_short signed_short unsigned_int signed_int : ValueType

-- The cases of the switches; their default is an error.
unfoldable pub value_type : ExceptionType → Option ValueType
value_type exception_unsigned_char = some unsigned_char
value_type exception_signed_char = some signed_char
value_type exception_unsigned_short = some unsigned_short
value_type exception_signed_short = some signed_short
value_type exception_unsigned_int = some unsigned_int
value_type exception_signed_int = some signed_int
value_type (unknown_exception_type n) = none

unfoldable pub type_code : ExceptionType → ℕ
type_code exception_unsigned_char = 0
type_code exception_signed_char = 1
type_code exception_unsigned_short = 2
type_code exception_signed_short = 3
type_code exception_unsigned_int = 4
type_code exception_signed_int = 5
type_code (unknown_exception_type n) = n

unfoldable pub type_of_code : ℕ → ExceptionType
type_of_code n =
    if n == 0
    then exception_unsigned_char
    else if n == 1
    then exception_signed_char
    else if n == 2
    then exception_unsigned_short
    else if n == 3
    then exception_signed_short
    else if n == 4
    then exception_unsigned_int
    else if n == 5
    then exception_signed_int
    else unknown_exception_type n

abbrev exception_value_sizes : List ℕ
exception_value_sizes = 1 ∷ 1 ∷ 2 ∷ 2 ∷ 4 ∷ 4 ∷ []

-- The comparison lets 6 through, an index behind the table: `none`.
unfoldable pub get_exception_value_size : ExceptionType → Option ℕ
get_exception_value_size t =
    if ltb (length exception_value_sizes) (type_code t)
    then some 4
    else get_elem? exception_value_sizes (type_code t)

-- `sizeof` of a type.
unfoldable pub width : ValueType → ℕ
width unsigned_char = 1
width signed_char = 1
width unsigned_short = 2
width signed_short = 2
width unsigned_int = 4
width signed_int = 4

sign_extend : ℕ → ℕ → ℕ
sign_extend bits v = if ltb v (2 ^ (bits - 1)) then v else v + 2 ^ 32 - 2 ^ bits

-- `(uint32_t)` of a value of the type, given by its bits.
unfoldable pub to_uint32 : ValueType → ℕ → ℕ
unfolding sign_extend
to_uint32 unsigned_char v = v
to_uint32 signed_char v = sign_extend 8 v
to_uint32 unsigned_short v = v
to_uint32 signed_short v = sign_extend 16 v
to_uint32 unsigned_int v = v
to_uint32 signed_int v = v

-- `*--exceptions = (T) value`
unfoldable pub push_exception : ValueType → ℕ → List ℕ → List ℕ
push_exception type value exceptions = le_bytes (width type) value ++ exceptions

-- `(uint32_t) *--exceptions`, and the bytes that are then left below the pointer.
unfoldable pub pop_exception : ValueType → List ℕ → Option (ℕ × List ℕ)
pop_exception type below =
    if leb (width type) (length below)
    then some (
      to_uint32 type (from_le (drop (length below - width type) below)),
      take (length below - width type) below,
    )
    else none

unfoldable pub encode_as_typed_exceptions : ValueType → List ℕ → List ℕ → List ℕ
encode_as_typed_exceptions type [] exceptions = exceptions
encode_as_typed_exceptions type (v ∷ vs) exceptions =
    encode_as_typed_exceptions type vs (push_exception type v exceptions)

unfoldable pub encode_as_exceptions : ExceptionType → List ℕ → ℕ → Option (List ℕ)
encode_as_exceptions t adjusted_data significant_data_size = value_type t >>= λ type.
    some (encode_as_typed_exceptions type (take significant_data_size adjusted_data) [])

-- The values, in the order in which `data` receives them.
unfoldable pub decode_as_typed_exceptions : ValueType → ℕ → List ℕ → Option (List ℕ)
decode_as_typed_exceptions type zero below = some []
decode_as_typed_exceptions type (suc n) below = pop_exception type below >>= λ (v, rest).
    decode_as_typed_exceptions type n rest >>= λ vs. some (v ∷ vs)

unfoldable pub decode_as_exceptions : ExceptionType → ℕ → List ℕ → Option (List ℕ)
decode_as_exceptions t significant_data_size below =
    value_type t >>= λ type. decode_as_typed_exceptions type significant_data_size below

-- `exception_indexes`: the places of the values above the maximum, and the size of a batch at the
-- end.
unfoldable pub exception_indexes : ℕ → ℕ → List ℕ → List ℕ
exception_indexes max_value idx [] = 128 ∷ []
exception_indexes max_value idx (d ∷ ds) =
    let rest = exception_indexes max_value (idx + 1) ds in
    if ltb max_value d then idx ∷ rest else rest

-- The bytes of the exceptions and the data, in which each exception is overwritten by the
-- distance to the next one. A value that its type does not hold is an error.
unfoldable pub compute_typed_exceptions :
    ValueType → List ℕ → List ℕ → List ℕ → Option (List ℕ × List ℕ)
compute_typed_exceptions type adjusted_data (i ∷ next ∷ is) exceptions =
    let v = get_or adjusted_data i 0 in
    let rest =
      compute_typed_exceptions type (set adjusted_data i (next - i - 1)) (next ∷ is)
        (push_exception type v exceptions) in
    if to_uint32 type (v % 2 ^ (8 * width type)) == v then rest else none
compute_typed_exceptions type adjusted_data is exceptions = some (adjusted_data, exceptions)

unfoldable pub compute_exceptions : ExceptionType → List ℕ → List ℕ → Option (List ℕ × List ℕ)
compute_exceptions t adjusted_data indexes =
    value_type t >>= λ type. compute_typed_exceptions type adjusted_data indexes []

-- The loop of `encode_param_new` that puts zero in the place of each exception.
unfoldable pub zero_exceptions : List ℕ → List ℕ → List ℕ
zero_exceptions adjusted_data (i ∷ next ∷ is) = zero_exceptions (set adjusted_data i 0) (next ∷ is)
zero_exceptions adjusted_data is = adjusted_data

-- One turn of the loop below: a zero is replaced by the next exception.
unfoldable pub patch_value : ValueType → ℕ → ℕ → List ℕ → List ℕ → Option (List ℕ × List ℕ)
patch_value type offset v values below =
    if v == 0
    then (pop_exception type below >>= λ (e, rest). some (set values offset e, rest))
    else some (values, below)

-- `turns` values are left before the end of the significant ones.
unfoldable pub patch_typed_exceptions_new : ValueType → ℕ → ℕ → List ℕ → List ℕ → Option (List ℕ)
patch_typed_exceptions_new type zero offset values below = some values
patch_typed_exceptions_new type (suc turns) offset values below = get_elem? values offset >>= λ v.
    patch_value type offset v values below >>= λ (patched, rest).
    patch_typed_exceptions_new type turns (offset + 1) patched rest

unfoldable pub patch_exceptions_new : ExceptionType → List ℕ → ℕ → ℕ → List ℕ → Option (List ℕ)
patch_exceptions_new t values offset significant_data_size below = value_type t >>= λ type.
    patch_typed_exceptions_new type (significant_data_size - offset) offset values below
