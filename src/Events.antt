-- ===== src/Events.antt =====
-- pkg/events: the event, the capped store and the reads that the checks make of it.
-- A `time.Time` is the number of nanoseconds since Go's zero time, which is 0.
pub mod Invariant
pub mod Retention
pub mod Insertion
pub mod Window
mod Examples
use event_driven_tests_ai.Common.{
  ℕ, ◌+◌, ◌-◌, String, Bool, true, false, ◌&&◌, not, List, [], ◌∷◌, ◌++◌, map, length, drop, select,
  if◌then◌else◌, ltb, leb, ◌==◌, nat_comparable, string_comparable, ◌≡◌,
}
use event_driven_tests_ai.Common.Dict.{Dict, lookup, lookup_or, insert}
use event_driven_tests_ai.Common.Sort.{sort, ascending}
use event_driven_tests_ai.Common.Int.{ℤ, non_positive, pos_part}

abbrev pub Time : Type 0
Time = ℕ

-- `t.IsZero()`
abbrev pub is_zero : Time → Bool
is_zero t = t == 0

pub data Direction : Type 0 where
  produced produced_failed consumed http_call agent_out : Direction

pub record Event {ℓ} (P : Type ℓ) : Type ℓ where
  pub stream : String
  pub key : String
  pub ts : Time
  pub headers : Dict String String
  pub payload : P
  pub direction : Direction

-- `Store`, the methods that read.
pub record Store {ℓ} (P : Type ℓ) : Type ℓ where
  pub query : String → List (Event P)
  pub query_range : String → Time → Time → List (Event P)
  pub since : String → Time → List (Event P)
  pub streams : List String
  pub all : List (Event P)
  pub all_sorted : List (Event P)
  pub len : ℕ

abbrev pub default_cap_per_stream : ℕ
default_cap_per_stream = 100000

pub record MemStore {ℓ} (P : Type ℓ) : Type ℓ where
  pub cap_per_stream : ℕ
  pub by_stream : Dict String (List (Event P))
  pub total : ℕ

abbrev in_range_from : Time → Time → Bool
in_range_from from t = not (not (is_zero from) && ltb t from)

abbrev in_range_to : Time → Time → Bool
in_range_to to t = not (not (is_zero to) && ltb to t)

module _ {ℓ} {P : Type ℓ} where
  unfoldable pub new_mem_store : ℤ → MemStore P
  new_mem_store cap = record {
    cap_per_stream = if non_positive cap then default_cap_per_stream else pos_part cap;
    by_stream = [];
    total = 0;
  }

  abbrev pub buffer : String → MemStore P → List (Event P)
  buffer name s = lookup_or name s.by_stream []

  -- The oldest event goes when the buffer is full.
  unfoldable pub append : Event P → MemStore P → MemStore P
  append e s =
      let buf = buffer e.stream s in
      let full = leb s.cap_per_stream (length buf) in
      let kept = if full then drop 1 buf else buf in
      let total' = if full then s.total - 1 else s.total in
      record s { by_stream = insert e.stream (kept ++ e ∷ []) s.by_stream; total = total' + 1 }

  unfoldable pub query : MemStore P → String → List (Event P)
  query s name = buffer name s

  -- Both bounds count as absent at the zero time.
  abbrev pub in_range : Time → Time → Event P → Bool
  in_range from to e = in_range_from from e.ts && in_range_to to e.ts

  pub query_range : MemStore P → String → Time → Time → List (Event P)
  query_range s name from to = select (in_range from to) (buffer name s)

  pub since : MemStore P → String → Time → List (Event P)
  unfolding query_range
  since s name from = query_range s name from 0

  abbrev entry_events : String × List (Event P) → List (Event P)
  entry_events (name, buf) = buf

  abbrev entry_stream : String × List (Event P) → String
  entry_stream (name, buf) = name

  unfoldable pub streams_of : Dict String (List (Event P)) → List String
  streams_of d = map entry_stream d

  unfoldable pub all_of : Dict String (List (Event P)) → List (Event P)
  all_of [] = []
  all_of ((name, buf) ∷ d) = buf ++ all_of d

  -- Go ranges over the map in an order that differs from call to call: this one stands for any, in
  -- `streams` and in `all`.
  unfoldable pub streams : MemStore P → List String
  unfolding streams_of
  streams s = streams_of s.by_stream

  unfoldable pub all : MemStore P → List (Event P)
  unfolding all_of
  all s = all_of s.by_stream

  abbrev pub event_ts : Event P → Time
  event_ts e = e.ts

  pub all_sorted : MemStore P → List (Event P)
  unfolding all
  all_sorted s = sort (ascending event_ts) (all s)

  pub len : MemStore P → ℕ
  len s = s.total

  -- A `*MemStore` as a `Store`.
  unfoldable pub reads : MemStore P → Store P
  unfolding query query_range since streams all all_sorted len
  reads s = record {
    query = query s;
    query_range = query_range s;
    since = since s;
    streams = streams s;
    all = all s;
    all_sorted = all_sorted s;
    len = len s;
  }
