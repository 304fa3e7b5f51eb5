-- ===== src/Sse/Framing.antt =====
-- A frame that a server writes is read as it was meant.
use Prim.Native.Char.{Char, code}
use event_driven_tests_ai.Common.{
  String, List, [], ◌∷◌, ◌++◌, ◌≡◌, ◌≢◌, refl, and_false, arith, ◌==◌, string_comparable,
  nat_comparable, Bool, true, false, some, map,
}
use event_driven_tests_ai.Common.Text.{cut, strip_prefix, cons_not_empty}
use event_driven_tests_ai.Sse.{
  Frame, empty_frame, trim_newlines, read_line, is_end, no_parts, next_frame,
}

pub data Line : Type 0 where
  event_line data_line id_line comment : String → Line

-- The lines of a server, for example `data: ` and the value.
abbrev pub written : Line → String
written (event_line v) = String.◌∷◌ "e" (
    String.◌∷◌ "v"
      (String.◌∷◌ "e" (String.◌∷◌ "n" (String.◌∷◌ "t" (String.◌∷◌ ":" (String.◌∷◌ " " v))))))
written (data_line v) =
    String.◌∷◌ "d"
      (String.◌∷◌ "a" (String.◌∷◌ "t" (String.◌∷◌ "a" (String.◌∷◌ ":" (String.◌∷◌ " " v)))))
written (id_line v) = String.◌∷◌ "i" (String.◌∷◌ "d" (String.◌∷◌ ":" (String.◌∷◌ " " v)))
written (comment v) = String.◌∷◌ ":" v

abbrev pub value : Line → String
value (event_line v) = v
value (data_line v) = v
value (id_line v) = v
value (comment v) = v

-- What a line says of the event.
abbrev pub meant : Line → Frame → Frame
meant (event_line v) f = record f { name = v }
meant (data_line v) f = record f { data_parts = f.data_parts ++ v ∷ [] }
meant (id_line v) f = record f { id = v }
meant (comment v) f = f

abbrev pub all_meant : List Line → Frame → Frame
all_meant [] f = f
all_meant (l ∷ ls) f = all_meant ls (meant l f)

-- No value ends in a line feed or a carriage return.
abbrev pub AreTrimmed : List Line → Type 0
AreTrimmed [] = Unit
AreTrimmed (l ∷ ls) = (trim_newlines (value l) ≡ value l) × AreTrimmed ls

trim-cons :
    (c : Char) (s : String)
    → code c ≢ 13
    → code c ≢ 10
    → trim_newlines (String.◌∷◌ c s) ≡ String.◌∷◌ c (trim_newlines s)
unfolding trim_newlines
trim-cons c s h k = ground arith

trim-written :
    (l : Line) → trim_newlines (value l) ≡ value l → trim_newlines (written l) ≡ written l
unfolding trim_newlines
trim-written (event_line v) h = simp (and_false, h)
trim-written (data_line v) h = simp (and_false, h)
trim-written (id_line v) h = simp (and_false, h)
trim-written (comment v) h = simp (and_false, h)

written_not_empty : (l : Line) → (written l == "") ≡ false
written_not_empty (event_line v) = cons_not_empty "e" _
written_not_empty (data_line v) = cons_not_empty "d" _
written_not_empty (id_line v) = cons_not_empty "i" _
written_not_empty (comment v) = cons_not_empty ":" v

read_line-written : (l : Line) (f : Frame) → read_line (written l) f ≡ meant l f
unfolding cut strip_prefix
read_line-written (event_line v) f = simp (written_not_empty (event_line v))
read_line-written (data_line v) f = simp (written_not_empty (data_line v))
read_line-written (id_line v) f = simp (written_not_empty (id_line v))
read_line-written (comment v) f = simp (written_not_empty (comment v))

is_end-written : (l : Line) (f : Frame) → is_end (written l) f ≡ false
is_end-written l f = simp (written_not_empty l)

abbrev pub has_data : List Line → Bool
has_data [] = false
has_data (data_line v ∷ ls) = true
has_data (event_line v ∷ ls) = has_data ls
has_data (id_line v ∷ ls) = has_data ls
has_data (comment v ∷ ls) = has_data ls

parts-snoc :
    (xs : List String) (v : String) (f : Frame)
    → no_parts (record f { data_parts = xs ++ v ∷ [] }) ≡ false
parts-snoc [] v f = refl
parts-snoc (x ∷ xs) v f = refl

-- An event that has data keeps it.
kept-all_meant :
    (ls : List Line) (f : Frame) → no_parts f ≡ false → no_parts (all_meant ls f) ≡ false
kept-all_meant [] f h = h
kept-all_meant (event_line v ∷ ls) f h = kept-all_meant ls (record f { name = v }) h
kept-all_meant (data_line v ∷ ls) f h =
    kept-all_meant ls (record f { data_parts = f.data_parts ++ v ∷ [] })
      (parts-snoc f.data_parts v f)
kept-all_meant (id_line v ∷ ls) f h = kept-all_meant ls (record f { id = v }) h
kept-all_meant (comment v ∷ ls) f h = kept-all_meant ls f h

some-all_meant :
    (ls : List Line) (f : Frame) → has_data ls ≡ true → no_parts (all_meant ls f) ≡ false
some-all_meant [] f h = ground arith
some-all_meant (event_line v ∷ ls) f h = some-all_meant ls (record f { name = v }) h
some-all_meant (data_line v ∷ ls) f h =
    kept-all_meant ls (record f { data_parts = f.data_parts ++ v ∷ [] })
      (parts-snoc f.data_parts v f)
some-all_meant (id_line v ∷ ls) f h = some-all_meant ls (record f { id = v }) h
some-all_meant (comment v ∷ ls) f h = some-all_meant ls f h

next_frame-lines :
    (ls : List Line) (rest : List String) (cut_off : String) (f : Frame)
    → AreTrimmed ls
    → no_parts (all_meant ls f) ≡ false
    → next_frame (map written ls ++ "" ∷ rest) cut_off f ≡ (some (all_meant ls f), rest, cut_off)
unfolding next_frame trim_newlines
next_frame-lines [] rest cut_off f _ h = simp (h)
next_frame-lines (l ∷ ls) rest cut_off f (t, ts) h = simp (
  trim-written l t,
  is_end-written l f,
  read_line-written l f,
  next_frame-lines ls rest cut_off (meant l f) ts h,
)

-- The lines that a server writes for an event with data, and the blank line after them, are read as
-- the event that they mean, and the lines after the blank one and the text after them are left: each
-- field holds the last value written for it, the data all its lines in order, and comments count for
-- nothing. No value ends in a line feed or a carriage return.
pub next_frame-written :
    (ls : List Line) (rest : List String) (cut_off : String)
    → AreTrimmed ls
    → has_data ls ≡ true
    → next_frame (map written ls ++ "" ∷ rest) cut_off empty_frame
      ≡ (some (all_meant ls empty_frame), rest, cut_off)
next_frame-written ls rest cut_off t h =
    next_frame-lines ls rest cut_off empty_frame t (some-all_meant ls empty_frame h)
