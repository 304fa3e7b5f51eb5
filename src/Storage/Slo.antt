-- ===== src/Storage/Slo.antt =====
-- SLOPassRate of `MemStore`: for each check, the share of its rows that passed in the window.
use event_driven_tests_ai.Common.{
  ℕ, suc, ◌+◌, ◌-◌, String, List, [], ◌∷◌, ◌++◌, arith, if◌then◌else◌, ◌==◌, string_comparable,
  nat_comparable, ◌≡◌, refl, not, ◌&&◌, ◌||◌, ltb, leb, Bool, Option, none, some, eq_iff,
  Bool-cases, inl, inr, ap, ◌∙◌,
}
use mathlib.Core.Option
use event_driven_tests_ai.Common.Dict.{Dict, lookup, insert, lookup_or, lookup-insert}
use event_driven_tests_ai.Events.{Time}
use event_driven_tests_ai.Storage.{Run, CheckRow, MemStore}
use event_driven_tests_ai.Storage.Runs.{values}

-- `acc`: how many rows passed, and how many there are.
pub record Acc : Type 0 where
  pub pass : ℕ
  pub total : ℕ

abbrev add_row : Bool → Acc → Acc
add_row passed a = record { pass = if passed then a.pass + 1 else a.pass; total = a.total + 1 }

abbrev acc_of : Option Acc → Acc
acc_of none = record { pass = 0; total = 0 }
acc_of (some a) = a

tally : List CheckRow → Dict String Acc → Dict String Acc
tally [] d = d
tally (c ∷ cs) d = tally cs (insert c.name (add_row c.passed (acc_of (lookup c.name d))) d)

-- A run counts if it is of the scenario and did not start before the cutoff.
abbrev pub in_window : String → Time → Run → Bool
in_window scenario cutoff r = not (not (r.scenario == scenario) || ltb r.started_at cutoff)

module _ {F : Type 0} (s : MemStore F) where
  tally_runs : String → Time → List Run → Dict String Acc → Dict String Acc
  unfolding tally
  tally_runs scenario cutoff [] d = d
  tally_runs scenario cutoff (r ∷ rs) d =
      tally_runs scenario cutoff rs
        (if in_window scenario cutoff r then tally (lookup_or r.id s.checks_by_run []) d else d)

-- The division of two counts as a `float64` is a parameter.
module _ {R : Type 0} (ratio : ℕ → ℕ → R) where
  abbrev rate_of : Acc → R
  rate_of a = if a.total == 0 then ratio 0 1 else ratio a.pass a.total

  rates : Dict String Acc → Dict String R
  rates [] = []
  rates ((k, a) ∷ d) = (k, rate_of a) ∷ rates d

  unfoldable pub slo_pass_rate : {F : Type 0} → String → ℕ → Time → MemStore F → Dict String R
  unfolding tally_runs rates
  slo_pass_rate scenario window now s =
      rates (tally_runs s scenario (now - window) (values s.runs) [])

-- The rows of the runs of a scenario that are not older than the window.
module _ {F : Type 0} (s : MemStore F) (scenario : String) (window : ℕ) (now : Time) where
  abbrev pub recent_rows : List Run → List CheckRow
  recent_rows [] = []
  recent_rows (r ∷ rs) =
      if r.scenario == scenario && leb now (r.started_at + window)
      then lookup_or r.id s.checks_by_run [] ++ recent_rows rs
      else recent_rows rs

in_window-leb :
    (scenario : String) (window : ℕ) (now : Time) (r : Run)
    → in_window scenario (now - window) r
      ≡ (r.scenario == scenario && leb now (r.started_at + window))
in_window-leb scenario window now r = elim (Bool-cases (r.scenario == scenario)) [
  | inl same ↦ rw same (ground arith)
  | inr other ↦ rw other
]

abbrev pub total_of : String → List CheckRow → ℕ
total_of name [] = 0
total_of name (c ∷ cs) = if c.name == name then suc (total_of name cs) else total_of name cs

abbrev pub passed_of : String → List CheckRow → ℕ
passed_of name [] = 0
passed_of name (c ∷ cs) =
    if c.name == name && c.passed then suc (passed_of name cs) else passed_of name cs

-- The entry of a check after more rows.
abbrev after_rows : String → List CheckRow → Option Acc → Option Acc
after_rows name cs o =
    if total_of name cs == 0
    then o
    else some (record {
      pass = (acc_of o).pass + passed_of name cs;
      total = (acc_of o).total + total_of name cs;
    })

abbrev one_row : String → CheckRow → Option Acc → Option Acc
one_row name c o = if c.name == name then some (add_row c.passed (acc_of o)) else o

passed-le : (name : String) (cs : List CheckRow) → total_of name cs ≡ 0 → passed_of name cs ≡ 0
passed-le name [] h = refl
passed-le name (c ∷ cs) h = ground (arith, passed-le name cs)

after_rows-cons :
    (name : String) (c : CheckRow) (cs : List CheckRow) (o : Option Acc)
    → after_rows name cs (one_row name c o) ≡ after_rows name (c ∷ cs) o
after_rows-cons name c cs o = ground (arith, passed-le name cs)

lookup-insert_row :
    (name : String) (c : CheckRow) (d : Dict String Acc)
    → lookup name (insert c.name (add_row c.passed (acc_of (lookup c.name d))) d)
      ≡ one_row name c (lookup name d)
lookup-insert_row name c d = elim (Bool-cases (c.name == name)) [
  | inl same ↦
      rw (lookup-insert, same)
        (ap (λ n. some (add_row c.passed (acc_of (lookup n d)))) ((eq_iff c.name name).0 same))
  | inr other ↦ rw (lookup-insert, other)
]

lookup-tally :
    (name : String) (cs : List CheckRow) (d : Dict String Acc)
    → lookup name (tally cs d) ≡ after_rows name cs (lookup name d)
unfolding tally
lookup-tally name [] d = refl
lookup-tally name (c ∷ cs) d =
    lookup-tally name cs _
    ∙ ap (after_rows name cs) (lookup-insert_row name c d)
    ∙ after_rows-cons name c cs (lookup name d)

total_of-append :
    (name : String) (xs ys : List CheckRow)
    → total_of name (xs ++ ys) ≡ total_of name xs + total_of name ys
total_of-append name [] ys = omega arith
total_of-append name (x ∷ xs) ys = ground (arith, total_of-append name xs ys)

passed_of-append :
    (name : String) (xs ys : List CheckRow)
    → passed_of name (xs ++ ys) ≡ passed_of name xs + passed_of name ys
passed_of-append name [] ys = omega arith
passed_of-append name (x ∷ xs) ys = ground (arith, passed_of-append name xs ys)

after_rows-append :
    (name : String) (xs ys : List CheckRow) (o : Option Acc)
    → after_rows name ys (after_rows name xs o) ≡ after_rows name (xs ++ ys) o
after_rows-append name xs ys o = ground (
  arith,
  total_of-append name xs ys,
  passed_of-append name xs ys,
  passed-le name xs,
  passed-le name ys,
)

lookup-rates :
    {R : Type 0} (ratio : ℕ → ℕ → R) (name : String) (d : Dict String Acc)
    → lookup name (rates ratio d) ≡ Option.map (rate_of ratio) (lookup name d)
unfolding rates lookup
lookup-rates ratio name [] = refl
lookup-rates ratio name ((k, a) ∷ d) = elim (Bool-cases (k == name)) [
  | inl same ↦ rw same
  | inr other ↦ rw other (lookup-rates ratio name d)
]

rate-after_rows :
    {R : Type 0} (ratio : ℕ → ℕ → R) (name : String) (rows : List CheckRow)
    → Option.map (rate_of ratio) (after_rows name rows none) ≡ (
        if total_of name rows == 0
        then none
        else some (ratio (passed_of name rows) (total_of name rows)))
rate-after_rows ratio name rows =
    let p : 0 + passed_of name rows ≡ passed_of name rows = omega arith in
    let n : 0 + total_of name rows ≡ total_of name rows = omega arith in
    elim (Bool-cases (total_of name rows == 0)) [
      | inl no_rows ↦ rw no_rows
      | inr rows ↦ rw rows (rw (p, n) (rw rows))
    ]

module _ {F : Type 0} (s : MemStore F) where
  lookup-tally_runs :
      (name scenario : String) (window : ℕ) (now : Time) (rs : List Run) (d : Dict String Acc)
      → lookup name (tally_runs s scenario (now - window) rs d)
        ≡ after_rows name (recent_rows s scenario window now rs) (lookup name d)
  unfolding tally_runs
  lookup-tally_runs name scenario window now [] d = refl
  lookup-tally_runs name scenario window now (r ∷ rs) d =
      let rows = recent_rows s scenario window now rs in
      let own = lookup_or r.id s.checks_by_run [] in
      rw (in_window-leb scenario window now r)
        (elim (Bool-cases (r.scenario == scenario && leb now (r.started_at + window))) [
          | inl counts ↦ rw counts (
              lookup-tally_runs name scenario window now rs _
              ∙ ap (after_rows name rows) (lookup-tally name own d)
              ∙ after_rows-append name own rows (lookup name d))
          | inr skipped ↦ rw skipped (lookup-tally_runs name scenario window now rs d)
        ])

  -- For each check name the pass rate is the number of passed rows over the number of rows of that
  -- name, among the rows of the runs of the scenario that started no longer than the window ago; a
  -- name with no row has no rate.
  pub lookup-slo_pass_rate :
      {R : Type 0} (ratio : ℕ → ℕ → R) (scenario : String) (window : ℕ) (now : Time) (name : String)
      → let rows = recent_rows s scenario window now (values s.runs) in
        lookup name (slo_pass_rate ratio scenario window now s) ≡ (
          if total_of name rows == 0
          then none
          else some (ratio (passed_of name rows) (total_of name rows)))
  unfolding slo_pass_rate
  lookup-slo_pass_rate ratio scenario window now name =
      lookup-rates ratio name (tally_runs s scenario (now - window) (values s.runs) [])
      ∙ ap (Option.map (rate_of ratio))
          (lookup-tally_runs name scenario window now (values s.runs) [])
      ∙ (unfold lookup in
          rate-after_rows ratio name (recent_rows s scenario window now (values s.runs)))
