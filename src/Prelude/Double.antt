-- ===== src/Prelude/Double.antt =====
-- `double`: the language has no floating point, so the type and the operations that the code calls
-- are an interface, and the definitions that compute with it take it as a parameter.
use Prim.Native.Nat.{ℕ}
use mathlib.Core.Bool.{Bool}
use minimal_mpegts_std_impl.Prelude.Int.{ℤ}

pub record Double : Type 1 where
  pub Carrier : Type 0
  pub of_int : ℤ → Carrier
  pub add : Carrier → Carrier → Carrier
  pub sub : Carrier → Carrier → Carrier
  pub mul : Carrier → Carrier → Carrier
  pub div : Carrier → Carrier → Carrier
  pub abs : Carrier → Carrier
  pub less : Carrier → Carrier → Bool
  -- `static_cast<uint64_t>`
  pub to_uint64 : Carrier → ℕ
