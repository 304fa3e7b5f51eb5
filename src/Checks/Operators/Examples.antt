-- ===== src/Checks/Operators/Examples.antt =====
-- Operators on a small store and on small lists.
use mathlib.Core.List.{Permᴰ}
use mathlib.Core.List.Permᴰ.{cons, swap, trans}
use event_driven_tests_ai.Common.{refl, ℕ, String, List, [], ◌∷◌, map, select}
use event_driven_tests_ai.Common.Dict.{insert, lookup_or}
use event_driven_tests_ai.Common.Int.{pos}
use event_driven_tests_ai.Events.{append, streams, Event, http_call, new_mem_store, all, reads}
use event_driven_tests_ai.Events.Retention.{append_all}
use event_driven_tests_ai.Checks.Operators.{event_to_map, http_events}
use event_driven_tests_ai.Checks.Operators.Streams.{listing, fits_pattern, http_events-append_all}

abbrev event : String → ℕ → Event ℕ
event name t = record {
  stream = name;
  key = "";
  ts = t;
  headers = [];
  payload = t;
  direction = http_call;
}

abbrev history : List (Event ℕ)
history = event "http:/orders/1" 3 ∷ event "orders" 4 ∷ event "http:/health" 5 ∷ []

-- The streams and the events in another order than that of the appends.
http_events-append_all_example :
    Permᴰ
      (http_events
        (listing
          ("http:/health" ∷ "http:/orders/1" ∷ "orders" ∷ [])
          (reads (append_all history (new_mem_store (pos 4)))))
        "/orders/*")
      (map event_to_map (
        select
          (fits_pattern "/orders/*")
          (event "http:/health" 5 ∷ event "http:/orders/1" 3 ∷ event "orders" 4 ∷ [])))
unfolding append_all append new_mem_store streams all insert lookup_or
http_events-append_all_example =
    http_events-append_all (pos 4) history "/orders/*"
      ("http:/health" ∷ "http:/orders/1" ∷ "orders" ∷ [])
      (event "http:/health" 5 ∷ event "http:/orders/1" 3 ∷ event "orders" 4 ∷ [])
      (trans (swap refl refl) (cons refl (swap refl refl)))
      (trans (cons refl (swap refl refl)) (swap refl refl))
