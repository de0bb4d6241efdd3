-- ===== src/F64/Tests.antt =====
-- Operations on bit patterns for the runs of the other modules, which depend on none of their values.
use pjs.Prelude.{[]}
use pjs.F64.{Float}

abbrev pub test_float : Float
test_float = record {
  of_nat = λ n. n;
  of_int = λ z. 0;
  add = λ a b. a;
  sub = λ a b. a;
  mul = λ a b. a;
  div = λ a b. a;
  half = 0;
  display = λ a. [];
}
