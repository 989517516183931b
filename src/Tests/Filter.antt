-- ===== src/Tests/Filter.antt =====
-- The bloom filter at concrete inputs.
use cachedb.Prelude.{◌≡◌, refl, true, false, [], ◌∷◌}
use cachedb.Prelude.Int.{pos}
use cachedb.Prelude.Bytes.{Bytes}
use cachedb.Bloom.{optimal_probes, build, may_contain}
use cachedb.Bloom.Member.{may_contain-build}

abbrev apple : Bytes
apple = 0x61 ∷ 0x70 ∷ []

abbrev plum : Bytes
plum = 0x70 ∷ 0x6c ∷ []

seven_probes : optimal_probes (pos 10) ≡ 7
unfolding optimal_probes
seven_probes = refl

denies_other : may_contain (build (apple ∷ []) (pos 10)) plum ≡ false
unfolding may_contain build
denies_other = refl

may_contain-build_example : may_contain (build (plum ∷ apple ∷ []) (pos 10)) apple ≡ true
may_contain-build_example = may_contain-build (plum ∷ []) [] apple (pos 10)
