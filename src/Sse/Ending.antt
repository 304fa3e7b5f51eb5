-- ===== src/Sse/Ending.antt =====
-- The end of a response's body: a line that it cuts off.
use Prim.Native.String.{◌++◌ as str_append}
use Prim.Native.String.append.{nil, cons}
use Prim.Native.Char.{Char, code}
use event_driven_tests_ai.Common.{
  ℕ, zero, suc, String, List, [], ◌∷◌, ◌≡◌, refl, ap, ◌∙◌, sym, arith, if◌then◌else◌, ◌==◌,
  nat_comparable, Bool, true, false, Option, none, some, Bool-cases, inl, inr,
}
use event_driven_tests_ai.Common.Text.{cut, split, first_longer, cut_before}
use event_driven_tests_ai.Sse.{
  Frame, empty_frame, complete_lines, cut_off_text, all_but_last, next_frame, nth_frame, is_end,
  trim_newlines, read_line,
}

abbrev no_line : List String → Bool
no_line [] = true
no_line (x ∷ xs) = false

abbrev longer : Char → List String → List String
longer c [] = []
longer c (x ∷ xs) = (String.◌∷◌ c x) ∷ xs

first_longer_lem :
    (c : Char) (xs : List String) → no_line xs ≡ false → no_line (first_longer c xs) ≡ false
first_longer_lem c [] h = refl
first_longer_lem c (x ∷ xs) h = refl

no_line-split : (s : String) → no_line (split 10 s) ≡ false
unfolding split
no_line-split String.[] = refl
no_line-split (String.◌∷◌ c s) = elim (Bool-cases (code c == 10)) [
  | inl h ↦ simp (h)
  | inr h ↦ simp (h, first_longer_lem c (split 10 s) (no_line-split s))
]

all_but_last-cons :
    (x : String) (xs : List String)
    → no_line xs ≡ false
    → all_but_last (x ∷ xs) ≡ x ∷ all_but_last xs
all_but_last-cons x [] h = ground arith
all_but_last-cons x (y ∷ ys) h = refl

all_but_last-longer :
    (c : Char) (xs : List String)
    → no_line xs ≡ false
    → all_but_last (first_longer c xs) ≡ longer c (all_but_last xs)
all_but_last-longer c [] h = ground arith
all_but_last-longer c (x ∷ []) h = refl
all_but_last-longer c (x ∷ y ∷ ys) h = refl

-- What a further character does to the complete lines after it.
abbrev line_longer : Char → List String → List String
line_longer c ls = if code c == 10 then "" ∷ ls else longer c ls

complete_lines-cons :
    (c : Char) (s : String) → complete_lines (String.◌∷◌ c s) ≡ line_longer c (complete_lines s)
unfolding complete_lines split
complete_lines-cons c s = elim (Bool-cases (code c == 10)) [
  | inl h ↦ simp (h, all_but_last-cons "" (split 10 s) (no_line-split s))
  | inr h ↦ simp (h, all_but_last-longer c (split 10 s) (no_line-split s))
]

cut_before-none : (c : Char) (o : Option (String × String)) → cut_before c o ≡ none → o ≡ none
cut_before-none c none h = refl
cut_before-none c (some (b, a)) h = ground arith

no_lines_lem : complete_lines "" ≡ []
unfolding complete_lines split
no_lines_lem = refl

complete_lines-nothing : (t : String) → cut 10 t ≡ none → complete_lines t ≡ []
unfolding cut
complete_lines-nothing String.[] h = no_lines_lem
complete_lines-nothing (String.◌∷◌ c t) h = elim (Bool-cases (code c == 10)) [
  | inl k ↦ ground arith
  | inr k ↦
      complete_lines-cons c t
      ∙ simp (k, complete_lines-nothing t (cut_before-none c (cut 10 t) (sym (simp (k)) ∙ h)))
]

-- The complete lines of a body are those of what stands before its last line feed.
complete_lines-append :
    (s t : String) → cut 10 t ≡ none → complete_lines (str_append s t) ≡ complete_lines s
complete_lines-append String.[] t h =
    ap (λ u. complete_lines u) (nil t) ∙ complete_lines-nothing t h ∙ sym no_lines_lem
complete_lines-append (String.◌∷◌ c s) t h =
    ap (λ u. complete_lines u) (cons c s t)
    ∙ complete_lines-cons c (str_append s t)
    ∙ ap (λ ls. line_longer c ls) (complete_lines-append s t h)
    ∙ sym (complete_lines-cons c s)

-- Two results with the same event that leave the same lines.
abbrev SameFrame :
    Option Frame × List String × String → Option Frame × List String × String → Type 0
SameFrame x y = (x.0 ≡ y.0) × (x.1 ≡ y.1)

if-SameFrame :
    (b : Bool) (v w x y : Option Frame × List String × String)
    → SameFrame v w
    → SameFrame x y
    → SameFrame (if b then v else x) (if b then w else y)
if-SameFrame true v w x y h k = h
if-SameFrame false v w x y h k = k

next_frame-SameFrame :
    (ls : List String) (t u : String) (f : Frame)
    → SameFrame (next_frame ls t f) (next_frame ls u f)
unfolding next_frame
next_frame-SameFrame [] t u f = (refl, refl)
next_frame-SameFrame (l ∷ ls) t u f =
    if-SameFrame (is_end (trim_newlines l) f) _ _ _ _ (refl, refl)
      (next_frame-SameFrame ls t u (read_line (trim_newlines l) f))

nth_frame-text : (n : ℕ) (ls : List String) (t u : String) → nth_frame n ls t ≡ nth_frame n ls u
unfolding nth_frame
nth_frame-text zero ls t u = (next_frame-SameFrame ls t u empty_frame).0
nth_frame-text (suc n) ls t u =
    let x = next_frame ls t empty_frame in
    let y = next_frame ls u empty_frame in
    nth_frame-text n x.1 x.2 y.2
    ∙ ap (λ l. nth_frame n l y.2) (next_frame-SameFrame ls t u empty_frame).1

-- What a client reads of a body, one call after another.
abbrev pub nth_event : ℕ → String → Option Frame
nth_event n body = nth_frame n (complete_lines body) (cut_off_text body)

-- A text without a line feed at the end of a body counts for nothing, whatever it says: every call
-- of `Next`, the first as well as any later one, gives the event that it gives on the body without
-- the text. So a line that the end of the body cuts off is no part of any event.
pub nth_event-append :
    (n : ℕ) (s t : String) → cut 10 t ≡ none → nth_event n (str_append s t) ≡ nth_event n s
nth_event-append n s t h =
    ap (λ ls. nth_frame n ls (cut_off_text (str_append s t))) (complete_lines-append s t h)
    ∙ nth_frame-text n (complete_lines s) (cut_off_text (str_append s t)) (cut_off_text s)
