-- ===== src/Stalls/Case.antt =====
-- `analyze_case` of tools/analyze_iteration_stalls.py.
use Prim.Native.Nat.{max}
use g_halo.Text.{Text}
use g_halo.Stalls.Samples.{SampleClass, classify_sample, clean, isolated, multiple, nearly_all}
use g_halo.Float.{Float}
use g_halo.Dict.{Dict, has_key, insert, append_to, get_or, bump}
use g_halo.Stalls.{
  IterationKey, IterationRecord, SampleKey, duration_us, SampleInfo, Warning, key_eq,
}
use g_halo.Prelude.{
  ℕ, [], Bool, List, ℤ, ◌+◌, if◌then◌else◌, length, pos, ◌∷◌, ◌++◌, map, ◌+ℤ◌, true, false, int_eq,
}

pub record Affected (F : Type 0) : Type 0 where
  pub key : IterationKey
  pub duration : F
  pub max_rank : ℤ

-- The state of the loop over the iteration records.
pub record StallTally (F : Type 0) : Type 0 where
  pub by_sample : Dict SampleKey (List (IterationRecord F))
  pub ranks : Dict ℤ ℕ
  pub affected : List (Affected F)
  pub warnings : List Warning

abbrev pub no_stalls : {F : Type 0} → StallTally F
no_stalls = record { by_sample = []; ranks = []; affected = []; warnings = [] }

abbrev pub record_sample : {F : Type 0} → IterationRecord F → SampleKey
record_sample r = record { halo_words = r.halo_words; sample_index = r.sample_index }

abbrev pub record_key : {F : Type 0} → IterationRecord F → IterationKey
record_key r = record {
  halo_words = r.halo_words;
  sample_index = r.sample_index;
  iteration_index = r.iteration_index;
}

abbrev pub unknown_warning : Bool → SampleKey → List Warning
unknown_warning true key = []
unknown_warning false key = Warning.iteration_without_sample key ∷ []

module _ {F : Type 0} ⦃f : Float F⦄ where
  abbrev pub affected_row : IterationRecord F → Affected F
  affected_row r = record { key = record_key r; duration = duration_us r; max_rank = r.max_rank }

  abbrev pub is_stall : F → IterationRecord F → Bool
  is_stall threshold r = f.fle threshold (duration_us r)

  unfoldable pub tally_stall :
      Dict SampleKey SampleInfo → F → StallTally F → IterationRecord F → StallTally F
  unfolding has_key append_to bump duration_us
  tally_stall samples threshold t r =
      let warned = record t {
        warnings =
            t.warnings ++ unknown_warning (has_key (record_sample r) samples) (record_sample r);
      } in
      if is_stall threshold r
      then record warned {
        by_sample = append_to (record_sample r) r t.by_sample;
        ranks = bump r.max_rank t.ranks;
        affected = t.affected ++ affected_row r ∷ [];
      }
      else warned

  unfoldable pub tally_stalls :
      Dict SampleKey SampleInfo → F → StallTally F → List (IterationRecord F) → StallTally F
  unfolding tally_stall
  tally_stalls samples threshold t [] = t
  tally_stalls samples threshold t (r ∷ records) =
      tally_stalls samples threshold (tally_stall samples threshold t r) records

-- "".join("S" if sample.key in stalls_by_sample else "F" for sample in samples)
module _ {V : Type 0} where
  abbrev pub marker : Dict SampleKey V → SampleInfo → ℕ
  marker by_sample sample = if has_key sample.key by_sample then b'S' else b'F'

  unfoldable pub sample_sequence : Dict SampleKey V → List SampleInfo → Text
  unfolding has_key
  sample_sequence by_sample samples = map (marker by_sample) samples

-- The numbers of samples with stalls, and of the three bad classes.
pub record SampleCounts : Type 0 where
  pub stalled : ℕ
  pub isolated_bad : ℕ
  pub multiple_bad : ℕ
  pub nearly_all_slow : ℕ

abbrev pub no_counts : SampleCounts
no_counts = record { stalled = 0; isolated_bad = 0; multiple_bad = 0; nearly_all_slow = 0 }

unfoldable pub add_class : SampleClass → SampleCounts → SampleCounts
add_class clean c = c
add_class isolated c = record c { isolated_bad = c.isolated_bad + 1 }
add_class multiple c = record c { multiple_bad = c.multiple_bad + 1 }
add_class nearly_all c = record c { nearly_all_slow = c.nearly_all_slow + 1 }

module _ {V : Type 0} where
  abbrev pub sample_class : Dict SampleKey (List V) → SampleInfo → SampleClass
  sample_class by_sample sample =
      classify_sample (length (get_or [] sample.key by_sample)) sample.iterations

  -- `sum(1 for …)` and the loop over the samples, from the last sample on
  unfoldable pub count_samples : Dict SampleKey (List V) → List SampleInfo → SampleCounts
  unfolding add_class classify_sample get_or has_key
  count_samples by_sample [] = no_counts
  count_samples by_sample (sample ∷ samples) =
      let counts = add_class (sample_class by_sample sample) (count_samples by_sample samples) in
      record counts { stalled = counts.stalled + (if has_key sample.key by_sample then 1 else 0) }

  -- max((len(values) for values in stalls_by_sample.values()), default=0)
  unfoldable pub max_stalls : Dict SampleKey (List V) → ℕ
  max_stalls [] = 0
  max_stalls ((key, values) ∷ groups) = max (length values) (max_stalls groups)

unfoldable pub sum_iterations : List SampleInfo → ℤ
sum_iterations [] = pos 0
sum_iterations (sample ∷ samples) = sample.iterations +ℤ sum_iterations samples

unfoldable pub index_samples :
    Dict SampleKey SampleInfo → List SampleInfo → Dict SampleKey SampleInfo
unfolding insert
index_samples index [] = index
index_samples index (sample ∷ samples) = index_samples (insert sample.key sample index) samples
