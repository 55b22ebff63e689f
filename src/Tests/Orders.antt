-- ===== src/Tests/Orders.antt =====
-- The theorem on the sample orders with numbers as durations.
use wav2letter.Base.{ℕ, ◌/◌, ltb, arith}
use wav2letter.SampleOrder.{Durations, input_spiral, output_spiral}
use wav2letter.SampleOrder.Spiral.{IsStrictWeak, spirals-IsStrictWeak}

abbrev milliseconds : Durations ℕ
milliseconds = record {
  less = ltb;
  bin_of = λ a size. a / size;
  less_than = ltb;
  greater_than = λ a b. ltb b a;
  no_duration = 0;
}

ltb-IsStrictWeak : IsStrictWeak ltb
ltb-IsStrictWeak = record {
  irreflexive = λ a. ground arith;
  transitive = λ a b c h k. ground arith;
  negatively = λ a b c h k. ground arith;
}

spirals-IsStrictWeak_example :
    IsStrictWeak (input_spiral milliseconds 10) × IsStrictWeak (output_spiral milliseconds 10)
spirals-IsStrictWeak_example = spirals-IsStrictWeak milliseconds 10 ltb-IsStrictWeak
