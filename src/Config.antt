-- ===== src/Config.antt =====
-- src/ALDatatype.c, src/ALConfigure.c and the configuration struct of
-- src/include/alacrity-part-manip.h. A failed `assert` is `none`.
pub mod Configured
use alacrity_adios.Prelude.{ℕ, ◌<◌, ◌≡◌, Bool, true, false, ◌&&◌, ◌||◌, Option, none, some, ltb}
use alacrity_adios.Prelude.{if◌then◌else◌, ◌>>=◌}
use alacrity_adios.Types.{Datatype, IndexForm}

pub record EncoderConfig : Type 0 where
  pub significant_bits : ℕ
  pub element_size : ℕ
  pub datatype : Datatype
  pub index_form : IndexForm

unfoldable pub datatype_is_valid : Datatype → Bool
datatype_is_valid Datatype.datatype_undefined = true
datatype_is_valid Datatype.datatype_float64 = true
datatype_is_valid Datatype.datatype_float32 = true
datatype_is_valid _ = false

is_undefined : Datatype → Bool
is_undefined Datatype.datatype_undefined = true
is_undefined _ = false

unfoldable pub datatype_is_defined : Datatype → Bool
unfolding datatype_is_valid is_undefined
datatype_is_defined t = datatype_is_valid t && (if is_undefined t then false else true)

unfoldable pub datatype_get_size : Datatype → Option ℕ
datatype_get_size Datatype.datatype_float32 = some 4
datatype_get_size Datatype.datatype_float64 = some 8
datatype_get_size _ = none

unfoldable pub is_encoder_form : IndexForm → Bool
is_encoder_form IndexForm.compression_index = true
is_encoder_form IndexForm.inverted_index = true
is_encoder_form IndexForm.compressed_inverted_index = true
is_encoder_form _ = false

unfoldable pub encoder_configure : ℕ → Datatype → IndexForm → Option EncoderConfig
unfolding datatype_is_defined is_encoder_form datatype_get_size
encoder_configure significant_bits datatype index_form =
    if ltb 0 significant_bits
      && ltb significant_bits 32
      && datatype_is_defined datatype
      && is_encoder_form index_form
    then (datatype_get_size datatype >>= λ size. some (record {
      significant_bits = significant_bits;
      element_size = size;
      datatype = datatype;
      index_form = index_form;
    }))
    else none
