-- ===== src/Sse/Examples.antt =====
-- Runs of the framing on concrete bodies.
use event_driven_tests_ai.Common.{List, [], ◌∷◌, ◌≡◌, refl, some, map, ◌++◌}
use event_driven_tests_ai.Common.Text.{cut, split, strip_prefix}
use event_driven_tests_ai.Sse.{empty_frame, complete_lines, trim_newlines, next_frame, nth_frame}
use event_driven_tests_ai.Sse.Framing.{
  Line, event_line, data_line, id_line, comment, written, next_frame-written,
}
use event_driven_tests_ai.Sse.Ending.{nth_event, nth_event-append}

abbrev order_lines : List Line
order_lines =
    comment " keep-alive"
    ∷ event_line "order"
    ∷ data_line "{\"id\":"
    ∷ id_line "7"
    ∷ data_line "1}"
    ∷ []

next_frame-written_example :
    next_frame (map written order_lines ++ "" ∷ "data: next" ∷ []) "data" empty_frame ≡ (
      some (record { name = "order"; data_parts = "{\"id\":" ∷ "1}" ∷ []; id = "7" }),
      "data: next" ∷ [],
      "data",
    )
unfolding trim_newlines
next_frame-written_example =
    next_frame-written order_lines ("data: next" ∷ []) "data"
      (refl, (refl, (refl, (refl, (refl, tt))))) refl

nth_event-append_example :
    nth_event 1 "data: a\n\ndata: b\ndata: c"
    ≡ some (record { name = ""; data_parts = "b" ∷ []; id = "" })
unfolding nth_frame next_frame complete_lines split cut trim_newlines strip_prefix
nth_event-append_example = nth_event-append 1 "data: a\n\ndata: b\n" "data: c" refl
