-- ===== src/RidCompress/Batch/Written.antt =====
-- What a batch that was written is made of: a header, and a body that does not depend on the frame
-- of reference.
use alacrity_adios.Prelude.{ℕ, ◌+◌, ◌-◌, ◌^◌, ◌≤◌, ◌<◌, ◌≡◌, sym, ap, ◌∙◌}
use alacrity_adios.Prelude.{arith, ◌==◌, if◌then◌else◌, List, ◌∷◌, ◌++◌, length, take}
use alacrity_adios.Prelude.{All, replicate, Option, some, ◌>>=◌, length-append, append_assoc}
use alacrity_adios.Prelude.{length-replicate, take_append}
use alacrity_adios.RidCompress.Exceptions.{ExceptionType}
use alacrity_adios.RidCompress.Header.{Header, write, sufficient_buffer_capacity}
use alacrity_adios.RidCompress.Header.RoundTrip.{IsHeader, as_read}
use alacrity_adios.RidCompress.Params.{whole_words}
use alacrity_adios.RidCompress.Batch.{encode_param_new, exception_area, decode_unpacked_deltas}
use alacrity_adios.RidCompress.Batch.{decode_packed_deltas}

abbrev pub with_frame : Header → ℕ → Header
with_frame h frame = record h { frame_of_reference = frame }

-- The two ways of decoding, up to the sums.
unfoldable pub deltas_in : Header → List ℕ → Option (List ℕ)
deltas_in header buffer =
    if header.fixed_length == 32
    then decode_unpacked_deltas header buffer
    else decode_packed_deltas header buffer

-- The differences of increasing numbers, behind a first entry that is 0 and before zeros.
pub record IsDeltas (values : List ℕ) (significant : ℕ) : Type 0 where
  pub differences : List ℕ
  pub padding : List ℕ
  pub made_of : values ≡ 0 ∷ (differences ++ padding)
  pub how_many : significant ≡ 1 + length differences
  pub positive : All (λ d. 0 < d) differences
  pub zeros : All (λ d. d ≡ 0) padding

pub record IsWritten (values : List ℕ) (significant fixed_length : ℕ) (t : ExceptionType)
    : Type 0 where
  pub header : Header
  pub body : List ℕ
  pub written :
      (frame : ℕ)
      → encode_param_new values significant fixed_length frame t sufficient_buffer_capacity
        ≡ (write (with_frame header frame) >>= λ bytes. some (bytes ++ body))
  pub well_formed : (frame : ℕ) → frame < 2 ^ 32 → IsHeader (with_frame header frame)
  pub size : header.encoded_size ≡ 8 + length body
  pub significant_kept : header.significant_data_size ≡ significant
  pub read_back :
      (bytes rest : List ℕ)
      → length bytes ≡ 8
      → IsDeltas values significant
      → deltas_in (as_read header) ((bytes ++ body) ++ rest) ≡ some (take significant values)

pub le-whole_words : (n : ℕ) → n ≤ whole_words n
unfolding whole_words
le-whole_words n = omega arith

pub length-exception_area :
    (size : ℕ) (exceptions : List ℕ)
    → length exceptions ≤ size
    → length (exception_area size exceptions) ≡ size
unfolding exception_area
length-exception_area size exceptions h = omega (
  arith,
  length-append (replicate (size - length exceptions) 0) exceptions,
  length-replicate {A = ℕ} (size - length exceptions) 0,
)

-- Everything before the exceptions of a batch, and the exceptions.
pub split_buffer :
    (bytes front rest : List ℕ) (size : ℕ) (exceptions : List ℕ) (all : ℕ)
    → all ≡ length (bytes ++ (front ++ exception_area size exceptions))
    → take all ((bytes ++ (front ++ exception_area size exceptions)) ++ rest)
      ≡ (bytes ++ (front ++ replicate (size - length exceptions) 0)) ++ exceptions
unfolding exception_area
split_buffer bytes front rest size exceptions all e =
    take_append all (bytes ++ (front ++ exception_area size exceptions)) rest e
    ∙ ap (λ t. bytes ++ t)
        (sym (append_assoc front (replicate (size - length exceptions) 0) exceptions))
    ∙ sym (append_assoc bytes (front ++ replicate (size - length exceptions) 0) exceptions)
