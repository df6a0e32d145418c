-- ===== src/RidCompress/FixedLength.antt =====
-- src/ridcompress/gen_fixedlengthcode.cpp: the functions fixed_length_encode_1 to _32 and
-- fixed_length_decode_1 to _32, which are the same code unrolled for each number of bits, and the
-- two functions that check their arguments and choose among them.
pub mod Packing
pub mod RoundTrip
use alacrity_adios.Prelude.{ℕ, zero, suc, ◌+◌, ◌-◌, ◌*◌, ◌/◌, ◌%◌, ◌^◌, Bool, ltb, leb, ◌==◌, ◌||◌}
use alacrity_adios.Prelude.{if◌then◌else◌, u64, bit_or, List, [], ◌∷◌, length, take, drop, get_or}
use alacrity_adios.Prelude.{Option, none, some}
use alacrity_adios.Memory.{array_bytes, from_le}

abbrev pub batch_size : ℕ
batch_size = 128

-- PFOR_FIXED_LENGTH_BUFFER_SIZE
unfoldable pub fixed_length_buffer_size : ℕ → ℕ
fixed_length_buffer_size fixed_length = fixed_length * batch_size / 8

-- The 64-bit words that values of `b` bits are packed into. `word` is what the current word has
-- so far, in its lowest `bit` bits; a value that does not fit in the rest of the word is continued
-- in the next one. A batch fills its last word, so that nothing is left at the end.
unfoldable pub pack_words : ℕ → ℕ → ℕ → List ℕ → List ℕ
pack_words b bit word [] = if bit == 0 then [] else word ∷ []
pack_words b bit word (d ∷ ds) =
    let extended = bit_or word (u64 (d * 2 ^ bit)) in
    let rest =
      pack_words b ((bit + b) % 64) (if ltb (bit + b) 64 then extended else d / 2 ^ (64 - bit))
        ds in
    if ltb (bit + b) 64 then rest else extended ∷ rest

-- The value of `b` bits from bit `bit` of a word on, with its rest from the next word.
unfoldable pub unpack_value : ℕ → ℕ → ℕ → ℕ → ℕ
unpack_value b bit word next =
    if leb (bit + b) 64
    then word / 2 ^ bit % 2 ^ b
    else bit_or (word / 2 ^ bit) (next % 2 ^ (bit + b - 64) * 2 ^ (64 - bit))

unfoldable pub unpack_words : ℕ → ℕ → ℕ → List ℕ → List ℕ
unpack_words b bit zero words = []
unpack_words b bit (suc n) words =
    unpack_value b bit (get_or words 0 0) (get_or words 1 0)
    ∷ unpack_words b ((bit + b) % 64) n (if ltb (bit + b) 64 then words else drop 1 words)

-- `data[0] | data[1] | ...`, and the same loop for the mask of `optimal_param`.
unfoldable pub or_all : List ℕ → ℕ
or_all [] = 0
or_all (d ∷ ds) = bit_or d (or_all ds)

-- The 64-bit words of a buffer.
unfoldable pub words_of : ℕ → List ℕ → List ℕ
words_of zero bytes = []
words_of (suc n) bytes = from_le (take 8 bytes) ∷ words_of n (drop 8 bytes)

-- The bytes that are stored for a whole batch; a value that needs more bits is an error. The
-- sizes that the function also checks are those that its callers pass.
unfoldable pub fixed_length_encode : List ℕ → ℕ → Option (List ℕ)
fixed_length_encode values fixed_length =
    if ltb 32 fixed_length || (fixed_length == 0)
    then none
    else if ltb fixed_length 32
    then (if or_all values / 2 ^ fixed_length == 0
        then some (array_bytes 8 (pack_words fixed_length 0 0 values))
        else none)
    else some (array_bytes 8 (pack_words fixed_length 0 0 values))

-- A buffer that is too short is `none`.
unfoldable pub fixed_length_decode : List ℕ → ℕ → Option (List ℕ)
fixed_length_decode buffer fixed_length =
    if leb (fixed_length_buffer_size fixed_length) (length buffer)
    then some (unpack_words fixed_length 0 batch_size (words_of (2 * fixed_length) buffer))
    else none
