-- ===== src/Orchestrator/Trials.antt =====
-- Steps, texts and payloads of a scenario run on a small library.
use Prim.Native.Char.{Char, code}
use mathlib.Core.Bool.{true≢false}
use event_driven_tests_ai.Common.{
  All, map, ◌∙◌, sym, ap, ℕ, ltb, String, List, [], ◌∷◌, ◌≡◌, ◌≢◌, refl, true, false, Option, none,
  some, nat_beq, string_comparable, if◌then◌else◌, ◌==◌, nat_comparable,
}
use event_driven_tests_ai.Common.Dict.{lookup}
use event_driven_tests_ai.Common.Text.{cons_not_empty}
use event_driven_tests_ai.Common.Int.{pos, pos_part}
use event_driven_tests_ai.Json.{
  has_field, Numbers, Json, null, int, text, arr, obj, nil, item, end, field,
}
use event_driven_tests_ai.Json.Equal.{IsProper, equal_any, equal_any_refl}
use event_driven_tests_ai.Events.{new_mem_store}
use event_driven_tests_ai.Orchestrator.{State}
use event_driven_tests_ai.Orchestrator.Matcher.{Cel, answer}
use event_driven_tests_ai.Orchestrator.Interpolate.{expand}
use event_driven_tests_ai.Orchestrator.Interpolate.Render.{AreParts}
use event_driven_tests_ai.Orchestrator.Interpolate.References.{
  Piece, words, of_run, of_previous, part_of, IsPiece, expand-text_meaning,
}
use event_driven_tests_ai.Orchestrator.Runner.{Library, Setup, payloads}

abbrev bytes_of : String → List ℕ
bytes_of String.[] = []
bytes_of (String.◌∷◌ c s) = code c ∷ bytes_of s

-- Only the letter a and the text `null` are read back.
abbrev text_of_bytes : List ℕ → String
text_of_bytes [] = ""
text_of_bytes (b ∷ bs) = if b == 110 then "null" else "a"

abbrev numbers : Numbers ℕ
numbers = record { of_int = pos_part; equal = nat_beq; less = ltb }

abbrev shown : Json ℕ → String
shown (text t) = t
shown (int i) = "7"
shown v = "value"

abbrev marshalled : Json ℕ → List ℕ
marshalled null = bytes_of "null"
marshalled v = bytes_of "value"

abbrev unmarshalled : List ℕ → Option (Json ℕ)
unmarshalled bs = if text_of_bytes bs == "null" then some null else none

-- Every rule holds.
abbrev cel : Cel (Json ℕ)
cel = record { compile = λ r. none; eval = λ r payload before. answer true }

abbrev pub library : Library ℕ
library = record {
  numbers = numbers;
  show = shown;
  marshal = marshalled;
  unmarshal = unmarshalled;
  bytes = bytes_of;
  text_of = text_of_bytes;
  parse_duration = λ t. none;
  draw = λ name i. 5;
  compile_regex = λ r. none;
  cel = cel;
}

abbrev pub setup : Setup ℕ
setup = record {
  has_kafka = true;
  has_http = true;
  has_web_socket = true;
  has_sse = true;
  has_grpc = true;
  has_codec = false;
  http_connector = true;
  web_socket_connector = true;
  grpc_connector = true;
  generators = "orders" ∷ [];
  run = ("id", text "r-1") ∷ [];
}

abbrev pub state : State (Json ℕ)
state = record {
  store = new_mem_store (pos 5);
  previous = ("orderId", int (pos 7)) ∷ [];
  sent = [];
}

abbrev pieces : List Piece
pieces = words "/orders/" ∷ of_previous "orderId" [] ∷ words "?run=" ∷ of_run "id" [] ∷ []

name_there : (c : Char) (t : String) → String.◌∷◌ c t ≢ ""
name_there c t e = true≢false (sym (sym (cons_not_empty c t) ∙ ap (λ s. s == "") e))

pieces-ArePieces : All IsPiece pieces
pieces-ArePieces = (tt, ((refl, tt), (tt, ((refl, tt), tt))))

pieces-AreParts : AreParts (map part_of pieces)
pieces-AreParts = (refl, ((name_there "p" _, refl), (refl, ((name_there "r" _, refl), tt))))

expand-text_meaning_example :
    expand payloads shown setup.run state.previous "/orders/${previous.orderId}?run=${run.id}"
    ≡ "/orders/7?run=r-1"
unfolding lookup
expand-text_meaning_example =
    expand-text_meaning payloads shown setup.run state.previous pieces pieces-ArePieces
      pieces-AreParts

abbrev order : Json ℕ
order = obj (field "id" (int (pos 7)) (field "tags" (arr (item (text "a") (item null nil))) end))

order-IsProper : IsProper numbers order
unfolding has_field
order-IsProper = (refl, refl, (refl, (tt, (tt, tt)), tt))

equal_any_refl_example :
    (equal_any numbers order order ≡ true)
    × (equal_any numbers (obj (field "a" null end)) (obj (field "b" null end)) ≡ true)
equal_any_refl_example = equal_any_refl numbers order "a" "b" order-IsProper
