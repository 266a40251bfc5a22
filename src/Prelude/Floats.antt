-- ===== src/Prelude/Floats.antt =====
-- Python's `float`, as the operations that the program uses and no more: the order with its NaNs is
-- that of `le` and `lt`, a numeral `n * 10 ** -e` is `literal n e`, and `repr` prints. Nothing is
-- assumed of them here; a theorem names the laws that it needs.
use Prim.Native.Nat.{ℕ, ◌+◌, ◌-◌, ◌*◌, ◌/◌, ◌^◌}
use Prim.Native.String.{String}
use mathlib.Core.Bool.{Bool}
use investmentagent.Prelude.Tests.{ltb, leb, ◌==◌}

pub record Floats : Type 1 where
  pub Float : Type 0
  pub le : Float → Float → Bool
  pub lt : Float → Float → Bool
  pub eq : Float → Float → Bool
  pub add : Float → Float → Float
  pub sub : Float → Float → Float
  pub mul : Float → Float → Float
  pub div : Float → Float → Float
  pub literal : ℕ → ℕ → Float
  pub repr : Float → String

-- Non-negative fixed-point numbers with twelve decimals that round down: an instance on which the
-- definitions run.
abbrev pub unit : ℕ
unit = 10 ^ 12

abbrev pub fixed_point : Floats
fixed_point = record {
  Float = ℕ;
  le = leb;
  lt = ltb;
  eq = ◌==◌;
  add = ◌+◌;
  sub = ◌-◌;
  mul = λ a b. a * b / unit;
  div = λ a b. a * unit / b;
  literal = λ n e. n * unit / 10 ^ e;
  repr = λ a. "";
}
