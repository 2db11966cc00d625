-- ===== src/Prelude/Faults.antt =====
-- Results of code that throws `std::runtime_error`, one constructor for each message.
use mathlib.Core.Path.{◌≡◌, refl, subst}
use mathlib.Core.Bool.{Bool, true, false}
use mathlib.Core.Logic.{◌⊎◌, inl, inr}

pub data Error : Type 0 where
  truncated_data truncated_payload trailing_data : Error
  unknown_representation bad_magic representation_mismatch nonzero_reserved : Error
  archive_universe bad_count : Error
  universe word_count nonzero_padding no_operands id_out_of_range : Error
  wah_truncated wah_fill_length wah_padding wah_length : Error
  raw_size : Error
  roaring_cookie roaring_count roaring_flag_padding roaring_descriptors roaring_keys : Error
  roaring_offset roaring_run_count roaring_run roaring_array roaring_cardinality : Error
  roaring_universe roaring_beyond roaring_padding : Error
  unknown_backend incompatible_segments operand_ended invalid_repeat incompatible_operands : Error
  incompatible_lengths truncated_sbh group_count_mismatch wide_literal encoded_padding : Error
  encoded_short codec_universe codec_word_count codec_padding val_segment load_universe : Error
  missing_selector invalid_segment invalid_selector zero_counter truncated_literals : Error
  empty_marker unused_slots unused_flags extra_words truncated_word reserved_flags : Error
  fill_counter out_of_range : Error

pub data Outcome {ℓ} (A : Type ℓ) : Type ℓ where
  ok : A → Outcome A
  throw : Error → Outcome A

infixl 5 ◌>>=◌ ◌>>◌
abbrev pub ◌>>=◌ {ℓ κ} : {A : Type ℓ} {B : Type κ} → Outcome A → (A → Outcome B) → Outcome B
ok a >>= f = f a
throw e >>= f = throw e

abbrev pub ◌>>◌ {ℓ} : {B : Type ℓ} → Outcome (Unit {0}) → Outcome B → Outcome B
m >> k = m >>= λ _. k

-- `if (!good) throw e;`
abbrev pub require : Bool → Error → Outcome (Unit {0})
require true e = ok tt
require false e = throw e

-- `m` returns, and what follows it returns `b`.
abbrev pub Continues {ℓ κ} :
    {A : Type ℓ} {B : Type κ} → Outcome A → (A → Outcome B) → B → Type (ℓ ⊔ κ)
Continues {A = A} m f b = (a : A) × (m ≡ ok a) × (f a ≡ ok b)

pub >>=-eq-ok {ℓ κ} :
    {A : Type ℓ} {B : Type κ} (m : Outcome A) (f : A → Outcome B) {b : B} (h : (m >>= f) ≡ ok b)
    → Continues m f b
>>=-eq-ok (throw e) f h = cc
>>=-eq-ok (ok a) f h = (a, refl, h)

pub Outcome-cases {ℓ} :
    {A : Type ℓ} (m : Outcome A) → ((a : A) × (m ≡ ok a)) ⊎ ((e : Error) × (m ≡ throw e))
Outcome-cases (ok a) = inl (a, refl)
Outcome-cases (throw e) = inr (e, refl)

-- What a computation returns, if it returns, satisfies `P`.
abbrev pub Ensures {ℓ κ} : {A : Type ℓ} → (A → Type κ) → Outcome A → Type κ
Ensures P (ok a) = P a
Ensures P (throw e) = Unit {κ}

pub Ensures->>= {ℓ κ ι} :
    {A : Type ℓ} {B : Type κ} (P : B → Type ι) (m : Outcome A) (f : A → Outcome B)
    → ((a : A) → m ≡ ok a → Ensures P (f a))
    → Ensures P (m >>= f)
Ensures->>= P (ok a) f h = h a refl
Ensures->>= P (throw e) f h = tt

pub Ensures-require {κ ι} :
    {B : Type κ} (P : B → Type ι) (b : Bool) (e : Error) (m : Outcome B)
    → (b ≡ true → Ensures P m)
    → Ensures P (require b e >> m)
Ensures-require P true e m h = h refl
Ensures-require P false e m h = tt

pub Ensures-eq {ℓ κ} :
    {A : Type ℓ} (P : A → Type κ) (m : Outcome A) (a : A) → Ensures P m → m ≡ ok a → P a
Ensures-eq P (ok b) a h e = subst P (ok-inj e) h
  where
    ok-inj : ok b ≡ ok a → b ≡ a
    ok-inj e = cc
Ensures-eq P (throw d) a h e = cc
