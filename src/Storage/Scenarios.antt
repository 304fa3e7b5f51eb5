-- ===== src/Storage/Scenarios.antt =====
-- The scenarios of `MemStore`: versioned documents by name.
use event_driven_tests_ai.Common.{
  arith, suc, refl, eq_iff, inr, ap, ◌∙◌, inl, Option-cases, Bool-cases, if◌then◌else◌, select, ◌≡◌,
  length, ℕ, ◌+◌, String, List, [], ◌∷◌, ◌==◌, string_comparable, Bool, Option, none, some, map,
  ascii,
}
use event_driven_tests_ai.Common.Dict.{lookup-insert, lookup, insert}
use event_driven_tests_ai.Common.Sort.{sort, by_text}
use event_driven_tests_ai.Events.{Time}
use event_driven_tests_ai.Storage.{
  new_store, Labels, Result, ok, err, not_found, Scenario, MemStore,
}

abbrev entry_value : {V : Type 0} → String × V → V
entry_value (k, v) = v

abbrev scenario_name : Scenario → List ℕ
scenario_name sc = ascii sc.name

module _ {F : Type 0} where
  -- `now` is what the clock says during the call.
  unfoldable pub upsert_scenario :
      Time → String → String → Labels → MemStore F → Scenario × MemStore F
  upsert_scenario now name yaml labels s =
      let sc : Scenario = elim (lookup name s.scenarios) [
        | none ↦ record {
          name = name;
          version = 1;
          yaml = yaml;
          labels = labels;
          created_at = now;
          updated_at = now;
        }
        | some prev ↦ record {
          name = name;
          version = prev.version + 1;
          yaml = yaml;
          labels = labels;
          created_at = prev.created_at;
          updated_at = now;
        }
      ] in
      (sc, record s { scenarios = insert name sc s.scenarios })

  unfoldable pub get_scenario : String → MemStore F → Result Scenario
  get_scenario name s = elim (lookup name s.scenarios) [ none ↦ err not_found | some sc ↦ ok sc ]

  unfoldable pub list_scenarios : MemStore F → List Scenario
  list_scenarios s = sort (by_text scenario_name) (map entry_value s.scenarios)

-- One call of `UpsertScenario`.
pub record Upload : Type 0 where
  pub at : Time
  pub name : String
  pub yaml : String
  pub labels : Labels

module _ {F : Type 0} where
  unfoldable pub upload_all : List Upload → MemStore F → MemStore F
  upload_all [] s = s
  upload_all (u ∷ us) s = upload_all us (upsert_scenario u.at u.name u.yaml u.labels s).1

-- The newest of a first upload and the later ones.
abbrev pub newest : Upload → List Upload → Upload
newest u [] = u
newest u (v ∷ us) = newest v us

-- What the uploads of one name amount to: the first one fixes the creation time, the newest one the
-- content, and the version counts them.
abbrev pub document : List Upload → Result Scenario
document [] = err not_found
document (u ∷ us) = ok (record {
  name = (newest u us).name;
  version = length (u ∷ us);
  yaml = (newest u us).yaml;
  labels = (newest u us).labels;
  created_at = u.at;
  updated_at = (newest u us).at;
})

abbrev pub named : String → Upload → Bool
named name u = u.name == name

abbrev pub found : Option Scenario → Result Scenario
found none = err not_found
found (some sc) = ok sc

abbrev create : Upload → Scenario
create u = record {
  name = u.name;
  version = 1;
  yaml = u.yaml;
  labels = u.labels;
  created_at = u.at;
  updated_at = u.at;
}

abbrev revise : Upload → Scenario → Scenario
revise u sc = record {
  name = u.name;
  version = sc.version + 1;
  yaml = u.yaml;
  labels = u.labels;
  created_at = sc.created_at;
  updated_at = u.at;
}

abbrev pub upload_to : Option Scenario → Upload → Scenario
upload_to none u = create u
upload_to (some sc) u = revise u sc

abbrev history_from : Option Scenario → List Upload → Option Scenario
history_from o [] = o
history_from o (u ∷ us) = history_from (some (upload_to o u)) us

module _ {F : Type 0} where
  pub lookup-upsert_scenario :
      (u : Upload) (s : MemStore F) (name : String)
      → lookup name (upsert_scenario u.at u.name u.yaml u.labels s).1.scenarios ≡ (
          if u.name == name
          then some (upload_to (lookup u.name s.scenarios) u)
          else lookup name s.scenarios)
  unfolding upsert_scenario
  lookup-upsert_scenario u s name = elim (Option-cases (lookup u.name s.scenarios)) [
    | inl new ↦ rw (lookup-insert, new)
    | inr (prev, old) ↦ rw (lookup-insert, old)
  ]

  lookup-upload_all :
      (us : List Upload) (s : MemStore F) (name : String)
      → lookup name (upload_all us s).scenarios
        ≡ history_from (lookup name s.scenarios) (select (named name) us)
  unfolding upload_all
  lookup-upload_all [] s name = refl
  lookup-upload_all (u ∷ us) s name =
      let rest = lookup-upload_all us (upsert_scenario u.at u.name u.yaml u.labels s).1 name in
      elim (Bool-cases (u.name == name)) [
        | inl same ↦ rw same (
            rest
            ∙ ap (λ o. history_from o (select (named name) us))
                (rw (lookup-upsert_scenario, same)
                  (ap (λ n. some (upload_to (lookup n s.scenarios) u))
                    ((eq_iff u.name name).0 same))))
        | inr other ↦ rw other (
            rest
            ∙ ap (λ o. history_from o (select (named name) us))
                (rw (lookup-upsert_scenario, other)))
      ]

-- A document under construction, at some version.
revision : Upload → Scenario → ℕ → Result Scenario
revision u sc n = ok (record {
  name = u.name;
  version = n;
  yaml = u.yaml;
  labels = u.labels;
  created_at = sc.created_at;
  updated_at = u.at;
})

history_from-some :
    (sc : Scenario) (u : Upload) (us : List Upload)
    → found (history_from (some sc) (u ∷ us))
      ≡ revision (newest u us) sc (sc.version + length (u ∷ us))
unfolding revision
history_from-some sc u [] = refl
history_from-some sc u (v ∷ us) =
    let e : sc.version + 1 + suc (length us) ≡ sc.version + suc (suc (length us)) = omega arith in
    history_from-some (revise u sc) v us ∙ ap (revision (newest v us) sc) e

history_from-none : (us : List Upload) → found (history_from none us) ≡ document us
unfolding revision
history_from-none [] = refl
history_from-none (u ∷ []) = refl
history_from-none (u ∷ v ∷ us) =
    let e : 1 + suc (length us) ≡ suc (suc (length us)) = omega arith in
    history_from-some (create u) v us ∙ ap (revision (newest v us) (create u)) e

pub get_scenario-found :
    {F : Type 0} (name : String) (s : MemStore F)
    → get_scenario name s ≡ found (lookup name s.scenarios)
unfolding get_scenario
get_scenario-found name s = ground arith

-- After any uploads to a new store, reading a name gives not-found if nothing was uploaded under
-- it, and else the document whose version is the number of uploads of that name, whose creation
-- time is that of the first of them and whose content and update time are those of the last.
pub get_scenario-upload_all :
    (F : Type 0) (us : List Upload) (name : String)
    → get_scenario name (upload_all us (new_store F)) ≡ document (select (named name) us)
get_scenario-upload_all F us name =
    get_scenario-found name (upload_all us (new_store F))
    ∙ (rw (lookup-upload_all us (new_store F) name)
        (unfold lookup in history_from-none (select (named name) us)))
