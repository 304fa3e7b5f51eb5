-- ===== src/Sse.antt =====
-- pkg/httpc/sse.go: the framing of server-sent events. The body of the response is a text.
use Prim.Native.String.{◌++◌ as str_append}
use Prim.Native.Char.{Char, code}
use event_driven_tests_ai.Common.{
  not, ◌&&◌, ℕ, zero, suc, String, List, [], ◌∷◌, ◌++◌, if◌then◌else◌, ◌==◌, ◌||◌,
  string_comparable, nat_comparable, Bool, true, false, Option, none, some,
}
use event_driven_tests_ai.Common.Text.{cut, split, strip_prefix}
use event_driven_tests_ai.Json.{Json, text, object}
pub mod Framing
pub mod Ending
mod Examples

-- `SSEEvent`, with the lines of its data before they are joined.
pub record Frame : Type 0 where
  pub name : String
  pub data_parts : List String
  pub id : String

abbrev pub empty_frame : Frame
empty_frame = record { name = ""; data_parts = []; id = "" }

abbrev pub all_but_last : List String → List String
all_but_last [] = []
all_but_last (x ∷ []) = []
all_but_last (x ∷ y ∷ ys) = x ∷ all_but_last (y ∷ ys)

-- The lines that `ReadString` gives one after another with no error, and the text that it gives
-- together with the end of the body.
unfoldable pub complete_lines : String → List String
complete_lines body = all_but_last (split 10 body)

abbrev pub last_or_empty : List String → String
last_or_empty [] = ""
last_or_empty (x ∷ []) = x
last_or_empty (x ∷ y ∷ ys) = last_or_empty (y ∷ ys)

unfoldable pub cut_off_text : String → String
cut_off_text body = last_or_empty (split 10 body)

-- `strings.TrimRight(line, "\r\n")`
unfoldable pub trim_newlines : String → String
trim_newlines String.[] = ""
trim_newlines (String.◌∷◌ c s) =
    let rest = trim_newlines s in
    if rest == "" && (code c == 13 || code c == 10) then "" else String.◌∷◌ c rest

abbrev without_space : Option String → String → String
without_space none v = v
without_space (some rest) v = rest

abbrev pub trim_space_prefix : String → String
trim_space_prefix v = without_space (strip_prefix " " v) v

abbrev pub starts_colon : String → Bool
starts_colon String.[] = false
starts_colon (String.◌∷◌ c s) = code c == b':'

abbrev pub with_field : String → String → Frame → Frame
with_field field value f =
    if field == "event"
    then record f { name = value }
    else if field == "data"
    then record f { data_parts = f.data_parts ++ value ∷ [] }
    else if field == "id"
    then record f { id = value }
    else f

abbrev pub with_cut : Option (String × String) → Frame → Frame
with_cut none f = f
with_cut (some (field, value)) f = with_field field (trim_space_prefix value) f

abbrev pub no_parts : Frame → Bool
no_parts f = elim f.data_parts [ [] ↦ true | x ∷ xs ↦ false ]

-- A blank line ends an event that has data; one without goes on, and keeps its name and its id.
abbrev pub is_end : String → Frame → Bool
is_end line f = line == "" && not (no_parts f)

abbrev pub read_line : String → Frame → Frame
read_line line f = if line == "" || starts_colon line then f else with_cut (cut b':' line) f

-- The end of the body: the text that comes with it is not looked at, and an event that has data is
-- delivered.
abbrev pub at_end : String → Frame → Option Frame
at_end cut_off f = if no_parts f then none else some f

-- `Next` on the lines and the cut-off text that are left: the event, or none at the end of the body,
-- and what is left then.
unfoldable pub next_frame : List String → String → Frame → Option Frame × List String × String
unfolding trim_newlines
next_frame [] cut_off f = (at_end cut_off f, [], "")
next_frame (l ∷ ls) cut_off f =
    let line = trim_newlines l in
    let rest = next_frame ls cut_off (read_line line f) in
    if is_end line f then (some f, ls, cut_off) else rest

-- What the call number `n`, from 0, gives on a body.
unfoldable pub nth_frame : ℕ → List String → String → Option Frame
nth_frame zero ls cut_off = (next_frame ls cut_off empty_frame).0
nth_frame (suc n) ls cut_off =
    let (f, ls', cut_off2) = next_frame ls cut_off empty_frame in nth_frame n ls' cut_off2

abbrev pub join_lines : List String → String
join_lines [] = ""
join_lines (x ∷ []) = x
join_lines (x ∷ y ∷ ys) = str_append x (String.◌∷◌ "\n" (join_lines (y ∷ ys)))

-- `decodeSSEData`; `parse_json` is `json.Unmarshal` on a text.
module _ {F : Type 0} (parse_json : String → Option (Json F)) where
  abbrev raw_or : String → Option (Json F) → Json F
  raw_or raw none = object (("_raw", text raw) ∷ [])
  raw_or raw (some v) = v

  unfoldable pub decode_sse_data : List String → Json F
  decode_sse_data parts = raw_or (join_lines parts) (parse_json (join_lines parts))
