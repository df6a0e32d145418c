-- ===== src/Pipeline/Archive.antt =====
-- From a configuration and an input to the bytes of a partition and back.
use alacrity_adios.Prelude.{ℕ, ◌*◌, ◌-◌, ◌^◌, ◌<◌, ◌≤◌, ◌≡◌}
use alacrity_adios.Prelude.{List, length, All, Option, some}
use alacrity_adios.Types.{AlError, IndexForm, Datatype, PartitionData, insig_bytes_ceil}
use alacrity_adios.Config.{EncoderConfig, encoder_configure}
use alacrity_adios.Config.Configured.{Configured, encoder_configure-Configured}
use alacrity_adios.Memstream.{Memstream, init, reset, get_position}
use alacrity_adios.Encode.{encode}
use alacrity_adios.Encode.Binning.{IsInput}
use alacrity_adios.Encode.Inverting.{inverted_partition, encode-inverted_partition}
use alacrity_adios.Serialization.{get_partition_data_size, serialize_partition_data}
use alacrity_adios.Serialization.{deserialize_partition_data}
use alacrity_adios.Serialization.RoundTrip.{deserialize-serialize}
use alacrity_adios.Decode.{decode}
use alacrity_adios.Decode.RoundTrip.{decode-inverted_partition}
use native.Mathlib.Nat.{mul-le-mul_left}
use alacrity_adios.Prelude.{arith}
use alacrity_adios.Pipeline.Partition.{inverted_partition-IsPartition}

low_part_width : (e s : ℕ) → insig_bytes_ceil e s ≤ e
unfolding insig_bytes_ceil
low_part_width e s = omega arith

Configured-IsInput :
    (bits : ℕ) (datatype : Datatype) (form : IndexForm) (config : EncoderConfig) (input : List ℕ)
    → Configured bits datatype form config
    → All (λ x. x < 256 ^ config.element_size) input
    → length input < 2 ^ 32 - 1
    → IsInput config input
Configured-IsInput bits datatype form config input c fit few = record {
  size_known = c.size_known;
  some_bits = c.some_bits;
  few_bits = c.few_bits;
  bits_there = c.bits_there;
  elements_fit = fit;
  count_fits = few;
}

-- With a configuration that ALEncoderConfigure returned for the inverted index, elements that fit
-- their size, fewer than 2^32 - 1 of them and less than 4 GB in all, and buffers with room: encoding
-- succeeds; serialising the partition into a buffer of at least the size that
-- ALGetPartitionDataSize states for it succeeds, deserialising from the start of that buffer gives
-- it again, and decoding that gives the input.
pub decode-deserialize :
    (decompress_rids : List ℕ → Option (List ℕ)) (bits : ℕ) (datatype : Datatype)
    (config : EncoderConfig) (input lows rids output buffer : List ℕ) (output_count n : ℕ)
    → encoder_configure bits datatype IndexForm.inverted_index ≡ some config
    → All (λ x. x < 256 ^ config.element_size) input
    → length input < 2 ^ 32 - 1
    → length input * config.element_size < 2 ^ 32
    → length lows ≡ length input
    → length rids ≡ length input
    → length output ≡ length input
    → n ≤ length buffer
    → get_partition_data_size (inverted_partition config input) ≡ some n
    → (p : PartitionData) × (ms : Memstream) × (encode config input
          (record { lows = lows; rids = rids })
        ≡ some (AlError.error_none, p))
      × (serialize_partition_data p (init buffer) ≡ some ms)
      × (get_position ms ≡ n)
      × (deserialize_partition_data (reset ms) ≡ some (p, ms))
      × (decode decompress_rids p output output_count
          ≡ some
              (record { error = AlError.error_none; output = input; output_count = length input }))
decode-deserialize decompress_rids bits datatype config input lows rids output buffer count n h fit
      few small l r o room size =
    let c = encoder_configure-Configured bits datatype IndexForm.inverted_index config h in
    let w = Configured-IsInput bits datatype _ config input c fit few in
    let p = inverted_partition config input in
    let low_data =
      mul-le-mul_left (length input) (low_part_width config.element_size config.significant_bits) in
    let whole =
      inverted_partition-IsPartition config input w c.form_kept c.datatype_valid
        (omega (arith, low_data, small)) in
    let (ms, wrote, at, back) = deserialize-serialize p n buffer whole size room in
    (
      p,
      ms,
      encode-inverted_partition config input lows rids w c.form_kept l r,
      wrote,
      at,
      back,
      decode-inverted_partition decompress_rids config input output count w c.form_kept
          (omega (arith, small)) o,
    )
