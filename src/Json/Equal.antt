-- ===== src/Json/Equal.antt =====
-- equalAny of pkg/orchestrator/grpc.go: how an answer is compared with what a scenario expects.
use event_driven_tests_ai.Common.{
  String, ◌&&◌, ◌==◌, string_comparable, nat_comparable, Bool, true, false, Option, none, some, ◌≡◌,
  refl, arith, not, eq_iff,
}
use event_driven_tests_ai.Common.Dict.{eq_refl}
use event_driven_tests_ai.Json.{
  Numbers, Json, Items, Fields, null, bool, int, num, text, arr, obj, nil, item, end, field, get,
  has_field, count_fields, count_items, to_float,
}

abbrev pub same_bool : Bool → Bool → Bool
same_bool true b = b
same_bool false b = not b

module _ {F : Type 0} (n : Numbers F) where
  -- The comparison of two numbers, if either is one.
  abbrev pub both_numbers : Option F → Option F → Bool → Bool
  both_numbers (some x) (some y) rest = n.equal x y
  both_numbers (some x) none rest = false
  both_numbers none (some y) rest = false
  both_numbers none none rest = rest

  abbrev pub equal_text : Json F → String → Bool
  equal_text (text g) w = g == w
  equal_text _ w = false

  abbrev pub equal_bool : Json F → Bool → Bool
  equal_bool (bool g) w = same_bool g w
  equal_bool _ w = false

  abbrev pub is_null : Json F → Bool
  is_null null = true
  is_null _ = false

  abbrev pub of_obj : (Fields F → Bool) → Json F → Bool
  of_obj f (obj g) = f g
  of_obj f _ = false

  abbrev pub of_arr : (Items F → Bool) → Json F → Bool
  of_arr f (arr g) = f g
  of_arr f _ = false

unfoldable mutual
  pub equal_any : {F : Type 0} → Numbers F → Json F → Json F → Bool
  equal_any n got null = both_numbers n (to_float n got) none (is_null n got)
  equal_any n got (bool w) = both_numbers n (to_float n got) none (equal_bool n got w)
  equal_any n got (int w) = both_numbers n (to_float n got) (some (n.of_int w)) false
  equal_any n got (num w) = both_numbers n (to_float n got) (some w) false
  equal_any n got (text w) = both_numbers n (to_float n got) none (equal_text n got w)
  equal_any n got (arr w) = of_arr n (λ g. count_items g == count_items w && equal_items n g w) got
  equal_any n got (obj w) =
      of_obj n (λ g. count_fields g == count_fields w && equal_fields n g w) got

  -- Each item of the second list with the one at its place.
  pub equal_items : {F : Type 0} → Numbers F → Items F → Items F → Bool
  equal_items n g nil = true
  equal_items n nil (item w ws) = false
  equal_items n (item g gs) (item w ws) = equal_any n g w && equal_items n gs ws

  -- Each field of the second object with the one of its key.
  pub equal_fields : {F : Type 0} → Numbers F → Fields F → Fields F → Bool
  equal_fields n g end = true
  equal_fields n g (field k w ws) = equal_any n (get k g) w && equal_fields n g ws

abbrev mutual
  -- A value that Go can hold: the fields of each object have different keys, and each number is
  -- equal to itself, so that it is no NaN.
  pub IsProper : {F : Type 0} → Numbers F → Json F → Type 0
  IsProper n null = Unit
  IsProper n (bool b) = Unit
  IsProper n (int i) = n.equal (n.of_int i) (n.of_int i) ≡ true
  IsProper n (num x) = n.equal x x ≡ true
  IsProper n (text t) = Unit
  IsProper n (arr vs) = AreProper n vs
  IsProper n (obj fs) = HaveProper n fs

  pub AreProper : {F : Type 0} → Numbers F → Items F → Type 0
  AreProper n nil = Unit
  AreProper n (item v vs) = IsProper n v × AreProper n vs

  pub HaveProper : {F : Type 0} → Numbers F → Fields F → Type 0
  HaveProper n end = Unit
  HaveProper n (field k v fs) = (has_field k fs ≡ false) × IsProper n v × HaveProper n fs

-- Each of the fields is in `g`.
abbrev Agree : {F : Type 0} → Fields F → Fields F → Type 0
Agree g end = Unit
Agree g (field k v fs) = (get k g ≡ v) × Agree g fs

Agree-field :
    {F : Type 0} (j : String) (u : Json F) (g fs : Fields F)
    → has_field j fs ≡ false
    → Agree g fs
    → Agree (field j u g) fs
unfolding get has_field
Agree-field j u g end h a = tt
Agree-field j u g (field k v fs) h a =
    let e : (j == k) ≡ false = ground (arith, eq_iff j k, eq_iff k j) in
    (rw e a.0, Agree-field j u g fs (ground arith) a.1)

Agree-self : {F : Type 0} (n : Numbers F) (fs : Fields F) → HaveProper n fs → Agree fs fs
unfolding get
Agree-self n end h = tt
Agree-self n (field k v fs) h = (rw (eq_refl k), Agree-field k v fs fs h.0 (Agree-self n fs h.2))

same_bool_self : (b : Bool) → same_bool b b ≡ true
same_bool_self true = refl
same_bool_self false = refl

mutual
  unfolding equal_any to_float

  self : {F : Type 0} (n : Numbers F) (v : Json F) → IsProper n v → equal_any n v v ≡ true
  self n null h = refl
  self n (bool b) h = same_bool_self b
  self n (int i) h = h
  self n (num x) h = h
  self n (text t) h = eq_refl t
  self n (arr vs) h = rw (eq_refl (count_items vs), self_items n vs h)
  self n (obj fs) h = rw (eq_refl (count_fields fs), self_fields n fs fs (Agree-self n fs h) h)

  self_items :
      {F : Type 0} (n : Numbers F) (vs : Items F) → AreProper n vs → equal_items n vs vs ≡ true
  self_items n nil h = refl
  self_items n (item v vs) h = rw (self n v h.0, self_items n vs h.1)

  self_fields :
      {F : Type 0} (n : Numbers F) (g fs : Fields F)
      → Agree g fs
      → HaveProper n fs
      → equal_fields n g fs ≡ true
  self_fields n g end a h = refl
  self_fields n g (field k v fs) a h = rw (a.0, self n v h.1, self_fields n g fs a.1 h.2)

-- A value compares equal to itself, whatever lists and objects are in it, if the fields of each
-- object have different keys and no number is a NaN; but so do two objects of one field each that is
-- null, whatever their keys: a missing key reads as null.
pub equal_any_refl :
    {F : Type 0} (n : Numbers F) (v : Json F) (j k : String)
    → IsProper n v
    → (equal_any n v v ≡ true)
      × (equal_any n (obj (field j null end)) (obj (field k null end)) ≡ true)
unfolding equal_any get count_fields to_float
equal_any_refl n v j k h = (self n v h, ground arith)
