-- ===== src/Events/Examples.antt =====
-- Tests of pkg/events, and the theorems at concrete stores.
use event_driven_tests_ai.Common.{
  ℕ, String, List, [], ◌∷◌, ◌≡◌, refl, map, string_comparable, nat_comparable, select,
}
use event_driven_tests_ai.Common.Dict.{insert, lookup_or}
use event_driven_tests_ai.Common.Int.{pos}
use event_driven_tests_ai.Common.Sort.{sort}
use event_driven_tests_ai.Events.{
  Event, MemStore, consumed, new_mem_store, append, query, query_range, reads, event_ts, all_sorted,
}
use event_driven_tests_ai.Events.Retention.{
  keep_last, append_all, on_stream, effective_cap, query-append_all,
}
use event_driven_tests_ai.Events.Window.{
  IsLawful, windowed_view, windowed_view-IsLawful, reads-IsLawful,
}

abbrev event : String → ℕ → Event ℕ
event name t = record {
  stream = name;
  key = "k";
  ts = t;
  headers = [];
  payload = t;
  direction = consumed;
}

abbrev history : List (Event ℕ)
history = event "a" 5 ∷ event "b" 4 ∷ event "a" 3 ∷ event "a" 9 ∷ []

abbrev store : MemStore ℕ
store = append_all history (new_mem_store (pos 2))

query_after_eviction : query store "a" ≡ event "a" 3 ∷ event "a" 9 ∷ []
unfolding query append_all new_mem_store append lookup_or insert
query_after_eviction = refl

sorted_times : map event_ts (all_sorted store) ≡ 3 ∷ 4 ∷ 9 ∷ []
unfolding all_sorted append_all new_mem_store append lookup_or insert sort
sorted_times = refl

range_bounds : map event_ts (query_range store "a" 0 3) ≡ 3 ∷ []
unfolding query_range append_all new_mem_store append lookup_or insert
range_bounds = refl

query-append_all_example :
    query (append_all history (new_mem_store (pos 2))) "a"
    ≡ keep_last (effective_cap (pos 2)) (select (on_stream "a") history)
query-append_all_example = query-append_all (pos 2) history "a"

windowed_view-IsLawful_example : IsLawful (windowed_view (reads store) 4)
windowed_view-IsLawful_example = windowed_view-IsLawful (reads store) 4 (reads-IsLawful store)
