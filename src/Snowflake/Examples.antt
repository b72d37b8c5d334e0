-- ===== src/Snowflake/Examples.antt =====
-- The theorems on identifiers at concrete ones.
use vlink.Prelude.{ℕ, ◌^◌, ◌≤◌, refl, arith}
use vlink.Snowflake.{construct_snowflake}
use vlink.Snowflake.Ids.{construct_snowflake-unsafe}

construct_snowflake-unsafe_example : 2 ^ 53 ≤ 9007199254740993
unfolding construct_snowflake
construct_snowflake-unsafe_example =
    construct_snowflake-unsafe {E = ℕ} 549755813888 1 9007199254740993 refl (omega arith)
