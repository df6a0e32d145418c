-- ===== src/Serialization/RoundTrip.antt =====
-- A partition written to a buffer of the stated size and read back.
use alacrity_adios.Prelude.{ℕ, ◌+◌, ◌<◌, ◌≤◌, ◌≡◌, arith, ◌∙◌}
use alacrity_adios.Prelude.{List, length, some, none, lt→leb_false}
use alacrity_adios.Memstream.{Memstream, init, reset, append_bytes, get_position, skip}
use alacrity_adios.Memstream.Laws.{appended, append_bytes-At}
use alacrity_adios.Types.{PartitionData}
use alacrity_adios.Serialization.{serialize_partition_data, deserialize_partition_data}
use alacrity_adios.Serialization.{get_partition_data_size}
use alacrity_adios.Serialization.Format.{partition_format, IsPartition}
use alacrity_adios.Serialization.Writing.{serialize_partition_data-Writes}
use alacrity_adios.Serialization.Sizes.{get_partition_data_size-length}
use alacrity_adios.Serialization.Reading.{partition-Reads}

-- Serialising a well-formed partition is one append of the bytes of its format: it succeeds
-- exactly where these fit behind the cursor, writes them there, and changes no other byte.
pub serialize_partition_data-append_bytes :
    (p : PartitionData) (ms : Memstream)
    → IsPartition p
    → serialize_partition_data p ms ≡ append_bytes (partition_format p) ms
serialize_partition_data-append_bytes p ms w = serialize_partition_data-Writes p w ms

-- A well-formed partition, serialised into a fresh buffer of at least the size that
-- ALGetPartitionDataSize states: the call succeeds and leaves the cursor at that size, and
-- deserialising from the start gives the same partition and ends at the same place.
pub deserialize-serialize :
    (p : PartitionData) (n : ℕ) (buffer : List ℕ)
    → IsPartition p
    → get_partition_data_size p ≡ some n
    → n ≤ length buffer
    → (ms : Memstream) × (serialize_partition_data p (init buffer) ≡ some ms)
      × (get_position ms ≡ n)
      × (deserialize_partition_data (reset ms) ≡ some (p, ms))
unfolding init reset get_position skip
deserialize-serialize p n buffer w size room =
    let e : length (partition_format p) ≡ n = cc (get_partition_data_size-length p w) in
    let (wrote, at) = append_bytes-At (init buffer) (partition_format p) (omega arith) in
    (
      appended (init buffer) (partition_format p),
      serialize_partition_data-Writes p w (init buffer) ∙ wrote,
      omega arith,
      partition-Reads p w _ _ at,
    )

-- With a buffer that is shorter than ALGetPartitionDataSize states, serialising a well-formed
-- partition runs over its end.
pub serialize_overrun :
    (p : PartitionData) (n : ℕ) (buffer : List ℕ)
    → IsPartition p
    → get_partition_data_size p ≡ some n
    → length buffer < n
    → serialize_partition_data p (init buffer) ≡ none
unfolding init append_bytes
serialize_overrun p n buffer w size short =
    let e : length (partition_format p) ≡ n = cc (get_partition_data_size-length p w) in
    serialize_partition_data-Writes p w (init buffer)
    ∙ rw (lt→leb_false (0 + length (partition_format p)) (length buffer) (omega arith))
