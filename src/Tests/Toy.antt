-- ===== src/Tests/Toy.antt =====
-- A platform of plain functions, for the tests: its floats are natural numbers.
use industrial_reliability_p.Base.{ℕ, ◌+◌, ◌-◌, ◌*◌, ◌/◌, String, true, ltb, leb, if◌then◌else◌}
use industrial_reliability_p.Platform.{Platform}
use industrial_reliability_p.Messages.Validate.{char_count}

abbrev pub hash_a : String
hash_a = "aaaaaaaaaaaaaaaaaaaaaaaaaaaaaaaaaaaaaaaaaaaaaaaaaaaaaaaaaaaaaaaa"

abbrev pub hash_b : String
hash_b = "bbbbbbbbbbbbbbbbbbbbbbbbbbbbbbbbbbbbbbbbbbbbbbbbbbbbbbbbbbbbbbbb"

abbrev pub toy : Platform
toy = record {
  Float = ℕ;
  is_finite = λ x. true;
  is_nonneg = λ x. true;
  sub = λ x y. x - y;
  abs = λ x. x;
  add = λ x y. x + y;
  neg = λ x. 0;
  mul = λ x y. x * y;
  div = λ x y. x / y;
  max = λ x y. if leb x y then y else x;
  lt = ltb;
  le = leb;
  infinity = 1000000;
  decimal = λ m e. m;
  of_nat = λ n. n;
  seconds_between = λ a b. (b.tick - a.tick) / 1000000;
  uuid5 = λ n s. n + char_count s;
  namespace_url = 100;
  runtime_namespace = 200;
  uuid_str = λ u. "u";
  int_str = λ n. "n";
  floats_str = λ xs. "f";
  ints_str = λ xs. "i";
  np_mean = λ xs. 0;
  np_std = λ xs. 0;
  np_min = λ xs. 0;
  np_max = λ xs. 0;
  isoformat = λ t. "t";
  sha256 = λ s. hash_a;
}
