-- ===== src/Stalls/Samples/Classes.antt =====
-- When `classify_sample` gives each class.
use g_halo.Prelude.{ℕ, ◌*◌, ◌≤◌, ◌<◌, ◌≡◌, ◌↔◌, ◌⊎◌, ℤ, pos_part, arith}
use g_halo.Stalls.Samples.{clean, isolated, nearly_all, multiple, classify_sample}

-- A sample is "nearly_all" exactly if it has at least two stalls, some iterations, and a stall in at
-- least nine of ten of them; "multiple" exactly if it has two stalls and misses that share; the
-- classes of no and of one stall do not look at the iterations.
pub classify_sample_iff :
    (stalls : ℕ) (iterations : ℤ)
    → ((classify_sample stalls iterations ≡ clean) ↔ (stalls ≡ 0))
      × ((classify_sample stalls iterations ≡ isolated) ↔ (stalls ≡ 1))
      × ((classify_sample stalls iterations ≡ nearly_all)
          ↔ ((2 ≤ stalls) × (0 < pos_part iterations) × (9 * pos_part iterations ≤ 10 * stalls)))
      × ((classify_sample stalls iterations ≡ multiple)
          ↔ ((2 ≤ stalls) × ((pos_part iterations ≡ 0) ⊎ (10 * stalls < 9 * pos_part iterations))))
unfolding classify_sample
classify_sample_iff stalls iterations = (
  (λ h. ground arith, λ h. ground arith),
  (λ h. ground arith, λ h. ground arith),
  (λ h. ground arith, λ h. ground arith),
  (λ h. ground arith, λ h. ground arith),
)
