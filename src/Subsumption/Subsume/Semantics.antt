-- ===== src/Subsumption/Subsume/Semantics.antt =====
-- What the table means: what the four operators return, over the four ways in which two values
-- of the language can compare (`unordered` where one of them is not a number).
use stryker_js_effect.Prelude.{Bool, true, false, ◌≡◌, ◌≢◌, ◌↔◌, arith}
use stryker_js_effect.Subsumption.Subsume.{
  RelationalOperator, lt, le, gt, ge, complement, dominator,
}

pub data Comparison : Type 0 where
  below same above unordered : Comparison

abbrev pub holds : RelationalOperator → Comparison → Bool
holds lt below = true
holds le below = true
holds le same = true
holds gt above = true
holds ge above = true
holds ge same = true
holds _ _ = false

-- At one comparison of two operands the operator of the dominating mutant returns something else
-- than the original operator exactly where the operands are the same, and the operator of the
-- complement mutant exactly where they compare at all.
pub dominator_differs-complement :
    (operator : RelationalOperator) (c : Comparison)
    → ((holds (dominator operator) c ≢ holds operator c) ↔ (c ≡ same))
      × ((holds (complement operator) c ≢ holds operator c) ↔ (c ≢ unordered))
dominator_differs-complement lt c = ground arith
dominator_differs-complement le c = ground arith
dominator_differs-complement gt c = ground arith
dominator_differs-complement ge c = ground arith
