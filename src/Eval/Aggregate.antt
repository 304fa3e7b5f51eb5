-- ===== src/Eval/Aggregate.antt =====
-- pkg/eval/aggregator.go: reducing scores to one number, and the test of a threshold.
use event_driven_tests_ai.Common.{
  ℕ, ◌-◌, String, List, [], ◌∷◌, ◌++◌, if◌then◌else◌, ◌==◌, ◌||◌, not, string_comparable,
  nat_comparable, Bool, false, Option, none, some, length, drop,
}
use event_driven_tests_ai.Common.Sort.{sort}
use event_driven_tests_ai.Common.Text.{trim_space, strip_prefix}
use event_driven_tests_ai.Eval.{Floats, Score}

pub record Aggregate (F : Type 0) : Type 0 where
  pub kind : String
  pub vals : List F

module _ {F : Type 0} (fl : Floats F) where
  unfoldable pub new_aggregate : String → Aggregate F
  new_aggregate kind =
      let k = fl.to_lower (trim_space kind) in
      record { kind = if k == "" then "avg" else k; vals = [] }

  abbrev pub add : Score F → Aggregate F → Aggregate F
  add sc a = if sc.failed then a else record a { vals = a.vals ++ (sc.value ∷ []) }

  abbrev sum : F → List F → F
  sum acc [] = acc
  sum acc (v ∷ vs) = sum (fl.add acc v) vs

  abbrev smallest : F → List F → F
  smallest m [] = m
  smallest m (v ∷ vs) = smallest (if fl.less v m then v else m) vs

  abbrev largest : F → List F → F
  largest m [] = m
  largest m (v ∷ vs) = largest (if fl.less m v then v else m) vs

  -- `sorted[i]`, which the code reads within the bounds only.
  abbrev at : ℕ → List F → F
  at i vs = elim (drop i vs) [ [] ↦ fl.nan | v ∷ rest ↦ v ]

  unfoldable pub percentile : List F → ℕ → F
  percentile values p =
      let sorted = sort fl.less values in
      let rank = fl.mul (fl.div (fl.of_int p) (fl.of_int 100)) (fl.of_int (length sorted - 1)) in
      let low = fl.floor rank in
      let high = fl.ceil rank in
      let frac = fl.sub rank (fl.of_int low) in
      if length sorted == 1
      then at 0 sorted
      else if low == high
      then at low sorted
      else fl.add (fl.mul (at low sorted) (fl.sub (fl.of_int 1) frac))
          (fl.mul (at high sorted) frac)

  abbrev value_of : String → F → List F → F
  unfolding percentile
  value_of kind v vs =
      if kind == "avg" || kind == "mean"
      then fl.div (sum (fl.of_int 0) (v ∷ vs)) (fl.of_int (length (v ∷ vs)))
      else if kind == "min"
      then smallest v vs
      else if kind == "max"
      then largest v vs
      else if kind == "p50"
      then percentile (v ∷ vs) 50
      else if kind == "p95"
      then percentile (v ∷ vs) 95
      else if kind == "p99"
      then percentile (v ∷ vs) 99
      else fl.nan

  unfoldable pub aggregate_value : String → List F → F
  unfolding value_of
  aggregate_value kind [] = fl.nan
  aggregate_value kind (v ∷ vs) = value_of kind v vs

  -- `compare` for each of the operators.
  abbrev compare_by : String → F → F → Bool
  compare_by op a b =
      if op == ">="
      then fl.less b a || fl.equal a b
      else if op == "<="
      then fl.less a b || fl.equal a b
      else if op == ">"
      then fl.less b a
      else if op == "<"
      then fl.less a b
      else if op == "=="
      then fl.equal a b
      else if op == "!="
      then not (fl.equal a b)
      else false

  abbrev pub threshold_ops : List String
  threshold_ops = ">=" ∷ "<=" ∷ "==" ∷ "!=" ∷ ">" ∷ "<" ∷ []

  abbrev compared : String → F → Option F → Option Bool
  compared op observed none = none
  compared op observed (some rhs) = some (compare_by op observed rhs)

  pub try_ops : List String → F → String → Option Bool
  try_ops [] observed expr = none
  try_ops (op ∷ ops) observed expr =
      let later = try_ops ops observed expr in
      elim (strip_prefix op expr) [
        | none ↦ later
        | some rest ↦ compared op observed (fl.parse (trim_space rest))
      ]

  -- `none` is a threshold that is malformed.
  unfoldable pub check_threshold : F → String → Option Bool
  unfolding try_ops
  check_threshold observed expr = try_ops threshold_ops observed (trim_space expr)
