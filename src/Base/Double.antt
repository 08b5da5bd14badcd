-- ===== src/Base/Double.antt =====
-- The operations on `double` that the source makes, as an interface: the type and its arithmetic
-- are the compiler's and the machine's.
use capacity_agent.Base.{Bool}
use capacity_agent.Base.Int.{ℤ}

pub record Doubles : Type 1 where
  pub Double : Type 0
  -- An integer constant or a conversion from an integer type.
  pub of_int : ℤ → Double
  -- `a < b`, and `a == b`.
  pub lt : Double → Double → Bool
  pub eq : Double → Double → Bool
  pub add : Double → Double → Double
  pub mul : Double → Double → Double
  pub div : Double → Double → Double
  -- `static_cast<int>` and `static_cast<std::int64_t>`.
  pub to_int : Double → ℤ
  pub to_int64 : Double → ℤ
