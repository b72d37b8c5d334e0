-- ===== src/Snowflake/Ids.antt =====
-- An identifier keeps its parts, and identifiers are ordered as they were made.
use vlink.Prelude.{ℕ, ◌+◌, ◌*◌, ◌^◌, ◌≤◌, ◌<◌, false, ◌≡◌, ◌∙◌, ◌⊎◌, arith}
use vlink.Outcome.{ok}
use vlink.Snowflake.{
  Layout, my_snowflake, normal_snowflake, timestamp, sequence_number, exceeds_timestamp,
  exceeds_sequence_number, packed, construct_snowflake,
}

module _ {E : Type 0} where
  -- What a call that does not panic has tested.
  constructed :
      (l : Layout) (t s id : ℕ)
      → construct_snowflake {E = E} l t s ≡ ok id
      → (id ≡ packed l t s)
        × (exceeds_timestamp l t ≡ false)
        × (exceeds_sequence_number l s ≡ false)
  unfolding construct_snowflake
  constructed l t s id h = ground arith

  -- Where `construct_snowflake` does not panic, `timestamp` and `sequence_number` give back the
  -- parts of the identifier, in both layouts.
  pub parts-construct_snowflake :
      (l : Layout) (t s id : ℕ)
      → construct_snowflake {E = E} l t s ≡ ok id
      → (timestamp l id ≡ t) × (sequence_number l id ≡ s)
  unfolding timestamp sequence_number packed exceeds_timestamp exceeds_sequence_number
  parts-construct_snowflake my_snowflake t s id h =
      let k = constructed my_snowflake t s id h in
      let a : t < 2 ^ 42 = ground (arith, k.1) in
      let b : s < 2 ^ 9 = ground (arith, k.2) in
      let e : id ≡ t * 16384 + s = k.0 ∙ omega (arith, a) in
      (omega (arith, e, b), omega (arith, e, b))
  parts-construct_snowflake normal_snowflake t s id h =
      let k = constructed normal_snowflake t s id h in
      let a : t < 2 ^ 42 = ground (arith, k.1) in
      let b : s < 2 ^ 12 = ground (arith, k.2) in
      let e : id ≡ t * 4194304 + s = k.0 ∙ omega (arith, a) in
      (omega (arith, e, b), omega (arith, e, b))

  -- Of two identifiers of one layout, the one with the later time, or with the same time and the
  -- larger sequence number, is larger.
  pub construct_snowflake-lt :
      (l : Layout) (t s u v id jd : ℕ)
      → construct_snowflake {E = E} l t s ≡ ok id
      → construct_snowflake {E = E} l u v ≡ ok jd
      → (t < u) ⊎ ((t ≡ u) × (s < v))
      → id < jd
  unfolding packed exceeds_timestamp exceeds_sequence_number
  construct_snowflake-lt my_snowflake t s u v id jd g h later =
      let k = constructed my_snowflake t s id g in
      let m = constructed my_snowflake u v jd h in ground (arith, k.0, k.1, k.2, m.0, m.1, m.2)
  construct_snowflake-lt normal_snowflake t s u v id jd g h later =
      let k = constructed normal_snowflake t s id g in
      let m = constructed normal_snowflake u v jd h in ground (arith, k.0, k.1, k.2, m.0, m.1, m.2)

  -- In the layout MySnowflakeParams every identifier with a time of 2 ^ 39 milliseconds or more is
  -- at least 2 ^ 53.
  pub construct_snowflake-unsafe :
      (t s id : ℕ) → construct_snowflake {E = E} my_snowflake t s ≡ ok id → 2 ^ 39 ≤ t → 2 ^ 53 ≤ id
  unfolding packed exceeds_timestamp exceeds_sequence_number
  construct_snowflake-unsafe t s id h late =
      let k = constructed my_snowflake t s id h in ground (arith, k.0, k.1, late)
