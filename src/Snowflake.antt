-- ===== src/Snowflake.antt =====
-- The layouts of identifiers, headlink/src/db/snowflake.rs. The parts of an identifier have no bit in
-- common, so `|` is a sum; `<<` keeps 64 bits, `>>` divides, and the mask is a remainder.
pub mod Ids
mod Examples
use vlink.Prelude.{ℕ, ◌+◌, ◌*◌, ◌/◌, ◌%◌, ◌^◌, Bool, ◌||◌, leb, if◌then◌else◌}
use vlink.Outcome.{Outcome, ok, panic}

-- `MySnowflakeParams` and `NormalSnowflakeParams`
pub data Layout : Type 0 where
  my_snowflake normal_snowflake : Layout

abbrev pub machine_id : ℕ
machine_id = 0

unfoldable pub timestamp : Layout → ℕ → ℕ
timestamp my_snowflake input = input / 2 ^ 14
timestamp normal_snowflake input = input / 2 ^ 22

unfoldable pub exceeds_timestamp : Layout → ℕ → Bool
exceeds_timestamp my_snowflake input = leb (2 ^ 42) input
exceeds_timestamp normal_snowflake input = leb (2 ^ 42) input

unfoldable pub sequence_number : Layout → ℕ → ℕ
sequence_number my_snowflake input = input % 2 ^ 9
sequence_number normal_snowflake input = input % 2 ^ 12

unfoldable pub exceeds_sequence_number : Layout → ℕ → Bool
exceeds_sequence_number my_snowflake input = leb (2 ^ 9) input
exceeds_sequence_number normal_snowflake input = leb (2 ^ 12) input

-- The parts of an identifier, put together.
unfoldable pub packed : Layout → ℕ → ℕ → ℕ
packed my_snowflake t s = t * 2 ^ 14 % 2 ^ 64 + (machine_id * 2 ^ 13 + s)
packed normal_snowflake t s = t * 2 ^ 22 % 2 ^ 64 + (machine_id * 2 ^ 12 + s)

-- The assertion panics; no other error is possible.
unfoldable pub construct_snowflake {ℓ} : {E : Type ℓ} → Layout → ℕ → ℕ → Outcome E ℕ
unfolding exceeds_timestamp exceeds_sequence_number packed
construct_snowflake l t s =
    if exceeds_timestamp l t || exceeds_sequence_number l s then panic else ok (packed l t s)
