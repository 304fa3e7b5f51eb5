-- ===== src/Storage/Samples.antt =====
-- The check samples of `MemStore`, from which a watch that resumes is seeded.
use event_driven_tests_ai.Common.{
  true, false, String, List, [], ◌∷◌, ◌++◌, ◌≡◌, if◌then◌else◌, ◌==◌, string_comparable, Bool, not,
  ◌&&◌, ltb, select, select-append,
}
use mathlib.Core.List.{append-nil}
use event_driven_tests_ai.Common.Sort.{sort, ascending}
use event_driven_tests_ai.Events.{Time, is_zero}
use event_driven_tests_ai.Storage.{CheckSample, MemStore}

abbrev pub sample_time : CheckSample → Time
sample_time x = x.ts

abbrev pub sampled_since : String → Time → CheckSample → Bool
sampled_since scenario since x =
    if not (x.scenario == scenario)
    then false
    else if not (is_zero since) && ltb x.ts since
    then false
    else true

module _ {F : Type 0} where
  unfoldable pub append_check_samples : List CheckSample → MemStore F → MemStore F
  append_check_samples [] s = s
  append_check_samples (x ∷ xs) s = record s { samples = s.samples ++ (x ∷ xs) }

  unfoldable pub load_check_samples_since : String → Time → MemStore F → List CheckSample
  load_check_samples_since scenario since s =
      sort (ascending sample_time) (select (sampled_since scenario since) s.samples)

  -- The samples that are loaded are those of the scenario that are not before the asked time, all of
  -- them for the zero time, in the order of their times, and what was appended counts with them.
  pub load_check_samples_since-append :
      (scenario : String) (since : Time) (xs : List CheckSample) (s : MemStore F)
      → load_check_samples_since scenario since (append_check_samples xs s)
        ≡ sort (ascending sample_time) (
            select (sampled_since scenario since) s.samples
            ++ select (sampled_since scenario since) xs)
  unfolding append_check_samples load_check_samples_since
  load_check_samples_since-append scenario since [] s =
      rw (append-nil (select (sampled_since scenario since) s.samples))
  load_check_samples_since-append scenario since (x ∷ xs) s =
      rw (select-append (sampled_since scenario since) s.samples (x ∷ xs))
