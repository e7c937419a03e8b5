-- ===== src/Chain/Millionths.antt =====
-- Doubles that run, for the tests: natural numbers of millionths.
use Prim.Native.Nat.{min}
use ux_contracts.Prelude.{ℕ, ◌+◌, ◌-◌, ◌*◌, ◌/◌, ◌^◌, pos, negsuc, ltb, leb}
use ux_contracts.Chain.Double.{Double}

instance abbrev pub millionths : Double
millionths = record {
  F = ℕ;
  of_ℤ = λ a. elim a [ pos n ↦ n * 1_000_000 | negsuc n ↦ 0 ];
  decimal = λ digits decimals. digits * 1_000_000 / 10 ^ decimals;
  add = λ a b. a + b;
  sub = λ a b. a - b;
  mul = λ a b. a * b / 1_000_000;
  div = λ a b. a * 1_000_000 / (b + 1);
  minus = λ a. a;
  pow = λ a b. a;
  log = λ a. a;
  exp = λ a. a;
  fmin = λ a b. min a b;
  lt = λ a b. ltb a b;
  le = λ a b. leb a b;
  fabs = λ a. a;
  log1p = λ a. a;
  to_int64 = λ a. pos (a / 1_000_000);
}
