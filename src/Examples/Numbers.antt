-- ===== src/Examples/Numbers.antt =====
-- Fixed-point numbers of three places, without a sign, as a concrete instance of the float
-- operations, and a cross-encoder that counts.
use chat_doc.Floats.{Floats}
use chat_doc.Retrieval.Ranking.{Ordered}
use chat_doc.Prelude.{
  List, Text, [], all, arith, if◌then◌else◌, is_digit, ltb, none, some, suc, zero, ℕ, ◌%◌, ◌*◌,
  ◌++◌, ◌+◌, ◌-◌, ◌/◌, ◌==◌, ◌∷◌,
}

abbrev power : ℕ → ℕ
power zero = 1
power (suc k) = 10 * power k

-- Decimal digits, on fuel.
abbrev digits : ℕ → ℕ → Text → Text
digits zero n out = out
digits (suc fuel) n out =
    let out' = (b'0' + n % 10) ∷ out in
    let more = digits fuel (n / 10) out' in if ltb n 10 then out' else more

abbrev round_to : ℕ → ℕ → ℕ
round_to step x = (x + step / 2) / step * step

abbrev value_of : ℕ → Text → ℕ
value_of n [] = n
value_of n (c ∷ t) = value_of (n * 10 + (c - b'0')) t

abbrev pub thousandths : Floats
thousandths = record {
  F = ℕ;
  literal = λ m k. m * 1000 / power k;
  add = λ a b. a + b;
  sub = λ a b. a - b;
  mul = λ a b. a * b / 1000;
  div = λ a b. a * 1000 / b;
  neg = λ a. a;
  abs = λ a. a;
  lt = ltb;
  eq = ◌==◌;
  round = round_to 1000;
  round2 = round_to 10;
  format2 =
      λ a. digits 20 (a / 1000) [] ++ b'.' ∷ (b'0' + a % 1000 / 100) ∷ (b'0' + a % 100 / 10) ∷ [];
  format0 = λ a. digits 20 (a / 1000) [];
  parse = λ t. if all is_digit t then some (value_of 0 t * 1000) else none;
}

pub thousandths-Ordered : Ordered thousandths
thousandths-Ordered = record {
  lt_asym = λ a b h. ground arith;
  ge_trans = λ a b c h g. ground arith;
}

-- The first text scores one, the next two, and so on.
abbrev count_from : ℕ → List Text → List ℕ
count_from n [] = []
count_from n (t ∷ texts) = n ∷ count_from (n + 1000) texts

abbrev pub counting : Text → List Text → List ℕ
counting claim texts = count_from 1000 texts
