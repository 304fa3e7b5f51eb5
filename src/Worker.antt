-- ===== src/Worker.antt =====
-- pkg/worker/loop.go: the loop of a worker, with one goroutine for each assignment that it runs.
-- The loop and the goroutines share the map of dispatched scenarios and the slots; each step below
-- is what one of them does under the lock, or by one channel operation.
pub mod Reach
pub mod Tracking
pub mod Invariant
pub mod Redispatch
mod Examples
use event_driven_tests_ai.Common.{
  ℕ, suc, ◌-◌, String, List, [], ◌∷◌, arith, if◌then◌else◌, ◌==◌, string_comparable, nat_comparable,
  Bool, true, false, any, Option, none, some,
}
use event_driven_tests_ai.Common.Dict.{Dict, lookup, insert, remove}

-- A goroutine: waiting for a slot or running, and whether its context was cancelled.
pub record Task : Type 0 where
  pub scenario : String
  pub running : Bool
  pub cancelled : Bool

-- `Loop`: a cancel function is the number of its goroutine. `used` is the length of `slots`.
pub record Loop : Type 0 where
  pub dispatched : Dict String ℕ
  pub tasks : Dict ℕ Task
  pub next : ℕ
  pub used : ℕ

abbrev pub new_loop : Loop
new_loop = record { dispatched = []; tasks = []; next = 0; used = 0 }

abbrev pub known : Option ℕ → Bool
known none = false
known (some k) = true

unfoldable pub is_dispatched : String → Loop → Bool
is_dispatched x s = known (lookup x s.dispatched)

-- `fetched` is whether `FetchScenario` succeeds; a handler is set.
unfoldable pub dispatch : Bool → String → Loop → Loop
dispatch fetched x s =
    if fetched
    then record s {
      dispatched = insert x s.next s.dispatched;
      tasks = insert s.next (record { scenario = x; running = false; cancelled = false }) s.tasks;
      next = suc s.next;
    }
    else s

-- One assignment of a heartbeat.
unfoldable pub observe : Bool → String → Loop → Loop
unfolding is_dispatched dispatch
observe fetched x s = if is_dispatched x s then s else dispatch fetched x s

abbrev pub cancelled_task : Option Task → ℕ → Dict ℕ Task → Dict ℕ Task
cancelled_task none k d = d
cancelled_task (some t) k d = insert k (record t { cancelled = true }) d

-- The call of a cancel function.
abbrev pub cancel : ℕ → Dict ℕ Task → Dict ℕ Task
cancel k d = cancelled_task (lookup k d) k d

abbrev pub member : String → List String → Bool
member x xs = any (λ y. y == x) xs

-- An entry is dropped with its goroutine cancelled.
abbrev pub dropped : Option ℕ → String → Loop → Loop
dropped none x s = s
dropped (some k) x s = record s { tasks = cancel k s.tasks; dispatched = remove x s.dispatched }

abbrev pub scenarios_of : Dict String ℕ → List String
scenarios_of [] = []
scenarios_of ((x, k) ∷ d) = x ∷ scenarios_of d

-- The range over the names in `dispatched`, in some order.
unfoldable pub cancel_not_in : List String → List String → Loop → Loop
cancel_not_in wanted [] s = s
cancel_not_in wanted (x ∷ xs) s =
    let s' = if member x wanted then s else dropped (lookup x s.dispatched) x s in
    cancel_not_in wanted xs s'

unfoldable pub cancel_assignments_not_in : List String → Loop → Loop
unfolding cancel_not_in
cancel_assignments_not_in wanted s = cancel_not_in wanted (scenarios_of s.dispatched) s

unfoldable pub cancel_all_assignments : Loop → Loop
unfolding cancel_not_in
cancel_all_assignments s = cancel_not_in [] (scenarios_of s.dispatched) s

unfoldable pub observe_all : (String → Bool) → List String → Loop → Loop
unfolding observe
observe_all fetched [] s = s
observe_all fetched (x ∷ xs) s = observe_all fetched xs (observe (fetched x) x s)

-- `none` is a heartbeat that failed.
unfoldable pub tick_once : (String → Bool) → Option (List String) → Loop → Loop
unfolding observe_all cancel_assignments_not_in
tick_once fetched none s = s
tick_once fetched (some xs) s = cancel_assignments_not_in xs (observe_all fetched xs s)

-- A goroutine takes a slot; it leaves without one, its context being cancelled; its handler returns.
abbrev pub started : ℕ → Task → Loop → Loop
started k t s = record s {
  tasks = insert k (record t { running = true }) s.tasks;
  used = suc s.used;
}

abbrev pub gave_up : ℕ → Task → Loop → Loop
gave_up k t s = record s { tasks = remove k s.tasks; dispatched = remove t.scenario s.dispatched }

abbrev pub finished : ℕ → Task → Loop → Loop
finished k t s = record s {
  tasks = remove k s.tasks;
  dispatched = remove t.scenario s.dispatched;
  used = s.used - 1;
}
