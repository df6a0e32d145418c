-- ===== src/Config/Configured.antt =====
-- What a successful ALEncoderConfigure ensures.
use alacrity_adios.Prelude.{ℕ, ◌<◌, ◌≤◌, ◌*◌, ◌≡◌, refl, sym, arith, Bool, true, false, ◌&&◌, ltb}
use alacrity_adios.Prelude.{Option, none, some, ◌⊎◌, inl, inr, ◌>>=◌, ltb→lt, if◌then◌else◌}
use alacrity_adios.Types.{Datatype, IndexForm}
use alacrity_adios.Config.{EncoderConfig, encoder_configure, datatype_is_defined, is_encoder_form}
use alacrity_adios.Config.{datatype_get_size, datatype_is_valid}
use alacrity_adios.Datum.{is_datum_size}
use mathlib.Core.Bool.{false≢true}
use mathlib.Core.Option.{some-injective, none-ne-some}

pub record Configured (bits : ℕ) (datatype : Datatype) (form : IndexForm) (config : EncoderConfig)
    : Type 0 where
  pub bits_kept : config.significant_bits ≡ bits
  pub datatype_kept : config.datatype ≡ datatype
  pub form_kept : config.index_form ≡ form
  pub some_bits : 0 < config.significant_bits
  pub few_bits : config.significant_bits < 32
  pub bits_there : config.significant_bits ≤ 8 * config.element_size
  pub size_known : is_datum_size config.element_size ≡ true
  pub datatype_valid : datatype_is_valid config.datatype ≡ true
  pub encoder_form : is_encoder_form config.index_form ≡ true

and_left : (a b : Bool) → (a && b) ≡ true → a ≡ true
and_left true b h = refl
and_left false b h = h

and_right : (a b : Bool) → (a && b) ≡ true → b ≡ true
and_right true b h = h
and_right false b h = absurd (false≢true h)

size_ok : (d : Datatype) (n : ℕ) → datatype_get_size d ≡ some n → (n ≡ 4) ⊎ (n ≡ 8)
unfolding datatype_get_size
size_ok Datatype.datatype_float32 n h = inl (sym (some-injective _ _ h))
size_ok Datatype.datatype_float64 n h = inr (sym (some-injective _ _ h))
size_ok Datatype.datatype_undefined n h = absurd (none-ne-some n h)
size_ok Datatype.min_datatype_enum n h = absurd (none-ne-some n h)
size_ok Datatype.max_datatype_enum n h = absurd (none-ne-some n h)
size_ok (Datatype.unknown_datatype k) n h = absurd (none-ne-some n h)

valid_ok : (d : Datatype) → datatype_is_defined d ≡ true → datatype_is_valid d ≡ true
unfolding datatype_is_defined
valid_ok d h = and_left (datatype_is_valid d) _ h

guard_some :
    {A : Type 0} (g : Bool) (o : Option A) (a : A)
    → (if g then o else none) ≡ some a
    → (g ≡ true) × (o ≡ some a)
guard_some true o a h = (refl, h)
guard_some false o a h = absurd (none-ne-some a h)

bind_some :
    {A B : Type 0} (o : Option A) (f : A → B) (b : B)
    → (o >>= λ a. some (f a)) ≡ some b
    → (a : A) × (o ≡ some a) × (f a ≡ b)
bind_some none f b h = absurd (none-ne-some b h)
bind_some (some a) f b h = (a, refl, some-injective _ _ h)

size_facts :
    (n bits : ℕ) → bits < 32 → (n ≡ 4) ⊎ (n ≡ 8) → (bits ≤ 8 * n) × (is_datum_size n ≡ true)
unfolding is_datum_size
size_facts n bits h (inl e) = (omega arith, rw e)
size_facts n bits h (inr e) = (omega arith, rw e)

-- A configuration that is returned has the arguments as its fields, between 1 and 31 significant
-- bits, which an element has, an element size that the macros know, a valid datatype and one of the
-- three index forms of the encoder.
pub encoder_configure-Configured :
    (bits : ℕ) (datatype : Datatype) (form : IndexForm) (config : EncoderConfig)
    → encoder_configure bits datatype form ≡ some config
    → Configured bits datatype form config
unfolding encoder_configure
encoder_configure-Configured bits datatype form config h =
    let (guards, rest) =
      guard_some (ltb 0 bits && ltb bits 32 && datatype_is_defined datatype && is_encoder_form form)
        _ config h in
    let (n, size, same) = bind_some (datatype_get_size datatype) _ config rest in
    let positive : ltb 0 bits ≡ true = ground (arith, guards) in
    let below : ltb bits 32 ≡ true = ground (arith, guards) in
    let defined : datatype_is_defined datatype ≡ true = ground (arith, guards) in
    let named : is_encoder_form form ≡ true = ground (arith, guards) in
    let (there, known) = size_facts n bits (ltb→lt bits 32 below) (size_ok datatype n size) in
    rw (← same) (record {
      bits_kept = refl;
      datatype_kept = refl;
      form_kept = refl;
      some_bits = ltb→lt 0 bits positive;
      few_bits = ltb→lt bits 32 below;
      bits_there = there;
      size_known = known;
      datatype_valid = valid_ok datatype defined;
      encoder_form = named;
    })
