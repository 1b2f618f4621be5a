-- ===== src/Prelude/Fixed.antt =====
-- A Float64 for tests: thousandths, without a sign and with a largest number as infinity.
use Prim.Native.Nat.{ℕ, ◌+◌, ◌-◌, ◌*◌, ◌/◌, ◌^◌, min}
use mathlib.Core.Bool.{false}
use server_flow.Prelude.Tests.{ltb, leb}
use server_flow.Prelude.Int.{pos}
use server_flow.Prelude.Float.{Float64}

abbrev pub fixed : Float64
fixed = record {
  Float = ℕ;
  of_int = λ n. n * 1000;
  lit = λ m k. m * 1000 / 10 ^ k;
  add = λ a b. a + b;
  sub = λ a b. a - b;
  mul = λ a b. a * b / 1000;
  fltb = ltb;
  fleb = leb;
  floor = λ a. pos (a / 1000);
  trunc = λ a. pos (a / 1000);
  div = λ a b. a * 1000 / b;
  fmin = min;
  abs = λ a. a;
  inf = 1000000000000;
  is_inf = λ a. leb 1000000000000 a;
  is_nan = λ a. false;
  ceil = λ a. pos ((a + 999) / 1000);
}
