-- ===== src/Orchestrator/Growth.antt =====
-- What a run does to the event store: it only appends.
pub mod Listening
pub mod Calling
pub mod Running
use event_driven_tests_ai.Common.{
  All, All-append, String, List, [], ◌∷◌, ◌++◌, ◌≡◌, refl, ◌∙◌, Bool, true, false, if◌then◌else◌,
}
use mathlib.Core.List.{append_assoc}
use event_driven_tests_ai.Events.{Event, MemStore, append}
use event_driven_tests_ai.Events.Retention.{append_all}
use event_driven_tests_ai.Orchestrator.{State, StepResult, passed, failed, other_error}
use event_driven_tests_ai.Orchestrator.Runner.{Answer, answered, refused, or_fail}

-- The second store is the first with some events of a stream appended.
pub record Grows {P : Type 0} (name : String) (before after : MemStore P) : Type 0 where
  pub events : List (Event P)
  pub on_stream : All (λ e. e.stream ≡ name) events
  pub grown : after ≡ append_all events before

pub append_all-append :
    {P : Type 0} (xs ys : List (Event P)) (m : MemStore P)
    → append_all (xs ++ ys) m ≡ append_all ys (append_all xs m)
unfolding append_all
append_all-append [] ys m = refl
append_all-append (x ∷ xs) ys m = append_all-append xs ys (append x m)

pub Grows-refl : {P : Type 0} (name : String) (m : MemStore P) → Grows name m m
unfolding append_all
Grows-refl name m = record { events = []; on_stream = tt; grown = refl }

pub Grows-append :
    {P : Type 0} {name : String} (e : Event P) (m : MemStore P)
    → e.stream ≡ name
    → Grows name m (append e m)
unfolding append_all
Grows-append e m h = record { events = e ∷ []; on_stream = (h, tt); grown = refl }

pub Grows-trans :
    {P : Type 0} (name : String) (l m n : MemStore P)
    → Grows name l m
    → Grows name m n
    → Grows name l n
Grows-trans name l m n g h = record {
  events = g.events ++ h.events;
  on_stream = All-append (λ e. e.stream ≡ name) g.events h.events g.on_stream h.on_stream;
  grown = h.grown ∙ rw (append_all-append g.events h.events l, ← g.grown);
}

-- The store that a step leaves, against the one before.
pub data Grown {P : Type 0} (name : String) (s : State P) : StepResult × State P → Type 0 where
  grown_to : (r : StepResult) (t : State P) → Grows name s.store t.store → Grown name s (r, t)

-- Where the store is the one before.
pub unmoved : {P : Type 0} {name : String} (s : State P) (r : StepResult) → Grown name s (r, s)
unmoved s r = grown_to r s (Grows-refl _ s.store)

pub if-Grown :
    {P : Type 0} {name : String} (s : State P) (b : Bool) (x y : StepResult × State P)
    → Grown name s x
    → Grown name s y
    → Grown name s (if b then x else y)
if-Grown s true x y g h = g
if-Grown s false x y g h = h

pub or_fail-Grown :
    {A P : Type 0} {name : String} (a : Answer A) (go_on : A → StepResult × State P) (s : State P)
    → ((x : A) → Grown name s (go_on x))
    → Grown name s (or_fail a go_on s)
or_fail-Grown (answered x) go_on s g = g x
or_fail-Grown (refused e) go_on s g = unmoved s _

pub after-Grown :
    {P : Type 0} {name : String} (s t : State P) (x : StepResult × State P)
    → Grows name s.store t.store
    → Grown name t x
    → Grown name s x
after-Grown s t _ g (grown_to r u h) = grown_to r u (Grows-trans _ s.store t.store u.store g h)
