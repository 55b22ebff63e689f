-- ===== src/SampleOrder/Spiral.antt =====
-- The comparisons are orders that `std::sort` may be given.
use wav2letter.Base.{ℕ, ◌≡◌, Bool, true, false, arith}
use wav2letter.SampleOrder.{Durations, input_spiral, output_spiral}

-- A strict weak order: no element is below itself, and being below and being equivalent go through.
pub record IsStrictWeak {A : Type 0} (less : A → A → Bool) : Type 0 where
  pub irreflexive : (a : A) → less a a ≡ false
  pub transitive : (a b c : A) → less a b ≡ true → less b c ≡ true → less a c ≡ true
  pub negatively : (a b c : A) → less a b ≡ false → less b c ≡ false → less a c ≡ false

module _ {D : Type 0} (d : Durations D) where
  input_spiral-IsStrictWeak : (bin : ℕ) → IsStrictWeak d.less → IsStrictWeak (input_spiral d bin)
  unfolding input_spiral
  input_spiral-IsStrictWeak bin o = record {
    irreflexive = λ a. ground (arith, o.irreflexive a.audio_length);
    transitive = λ a b c h k. ground (
      arith,
      h,
      k,
      o.transitive a.audio_length b.audio_length c.audio_length,
      o.transitive c.audio_length b.audio_length a.audio_length,
    );
    negatively = λ a b c h k. ground (
      arith,
      h,
      k,
      o.negatively a.audio_length b.audio_length c.audio_length,
      o.negatively c.audio_length b.audio_length a.audio_length,
    );
  }

  output_spiral-IsStrictWeak : (bin : ℕ) → IsStrictWeak (output_spiral d bin)
  unfolding output_spiral
  output_spiral-IsStrictWeak bin = record {
    irreflexive = λ a. ground arith;
    transitive = λ a b c h k. ground arith;
    negatively = λ a b c h k. ground arith;
  }

  -- The comparisons that `sortSamples` gives to `std::sort` for the two spiral orders are strict
  -- weak orders, as the standard demands: irreflexive, transitive, and transitive where neither is
  -- below the other. Condition: the comparison of audio lengths is one.
  pub spirals-IsStrictWeak :
      (bin : ℕ)
      → IsStrictWeak d.less
      → IsStrictWeak (input_spiral d bin) × IsStrictWeak (output_spiral d bin)
  spirals-IsStrictWeak bin o = (input_spiral-IsStrictWeak bin o, output_spiral-IsStrictWeak bin)
