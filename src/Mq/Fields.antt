-- ===== src/Mq/Fields.antt =====
-- mq/msg.go, mq/utils.go: the fields of one row, out of fields whose rows are counted.
use birdwatcher.Base.{
  ℕ, zero, suc, ◌+◌, ◌*◌, ◌/◌, ◌%◌, ◌≤◌, ◌<◌, ◌≡◌, ◌≢◌, refl, sym, ap, ◌∙◌, Bool, true, false, none,
  some, List, [], ◌∷◌, length, take, drop, get_elem?, arith, ◌==◌, ==_iff, le→leb, not_zero,
  if◌then◌else◌, Result, ok, fail, >>=_ok, >>=?_of_some, >>=_of_ok,
}
use native.Mathlib.Nat.{div-mul-le_self, div_self, mod_self, add-mul, mul_assoc, mul-le-mul_right}
use birdwatcher.Mq.{
  MqError, bad_dim, not_divided, mismatch, scalar, other_scalar, float_vector, binary_vector,
  other_vector, Field, scalar_field, vector_field, no_field, FieldData,
  get_num_rows_of_float_vector_field, get_num_rows_of_binary_vector_field, get_num_row_of_field,
  slice, append_field, append_field_data, check_fields,
}

pub get_elem?-total : (xs : List ℕ) (i : ℕ) → i < length xs → (x : ℕ) × (get_elem? xs i ≡ some x)
get_elem?-total [] i h = absurd (omega arith)
get_elem?-total (x ∷ xs) zero h = (x, refl)
get_elem?-total (x ∷ xs) (suc i) h = get_elem?-total xs i (omega arith)

length-take-drop : (xs : List ℕ) (a n : ℕ) → a + n ≤ length xs → length (take n (drop a xs)) ≡ n
length-take-drop xs zero zero h = refl
length-take-drop [] zero (suc n) h = absurd (omega arith)
length-take-drop (x ∷ xs) zero (suc n) h = ap suc (length-take-drop xs zero n (omega arith))
length-take-drop [] (suc a) zero h = absurd (omega arith)
length-take-drop [] (suc a) (suc n) h = absurd (omega arith)
length-take-drop (x ∷ xs) (suc a) n h = length-take-drop xs a n (omega arith)

slice_total :
    (xs : List ℕ) (a n : ℕ)
    → a + n ≤ length xs
    → (ys : List ℕ) × (slice xs a n ≡ some ys) × (length ys ≡ n)
slice_total xs a n h = (
  take n (drop a xs),
  ap (λ b. if b then some (take n (drop a xs)) else none) (le→leb (a + n) (length xs) h),
  length-take-drop xs a n h,
)

-- A test that a fallible call passes.
pub if_ok :
    {A : Type 0} (b : Bool) (m : Result MqError A) (e : MqError) {a : A}
    → (if b then m else fail e) ≡ ok a
    → (b ≡ true) × (m ≡ ok a)
if_ok true m e h = (refl, h)
if_ok false m e h = absurd (cc)

ok-inj : {A : Type 0} {a b : A} → ◌≡◌ {A = Result MqError A} (ok a) (ok b) → a ≡ b
ok-inj e = cc

suc_is_nonzero : (d : ℕ) → suc d ≢ 0
suc_is_nonzero d e = absurd (omega arith)

-- The elements of one row end within those of all rows.
row_end : (dim rows idx : ℕ) → idx < rows → idx * dim + dim ≤ rows * dim
row_end dim rows idx h =
    omega (arith, add-mul idx 1 dim, mul-le-mul_right {m = idx + 1} {n = rows} dim (omega arith))

else_ok :
    {A : Type 0} (b : Bool) (m : Result MqError A) (e : MqError) {a : A}
    → (if b then fail e else m) ≡ ok a
    → (b ≡ false) × (m ≡ ok a)
else_ok true m e h = absurd (cc)
else_ok false m e h = (refl, h)

has_dim : (dim : ℕ) → (dim == 0) ≡ false → dim ≢ 0
has_dim dim h e = ground arith

float_rows :
    (xs : List ℕ) (dim n : ℕ)
    → get_num_rows_of_float_vector_field xs dim ≡ ok n
    → (dim ≢ 0) × (n ≡ length xs / dim)
unfolding get_num_rows_of_float_vector_field
float_rows xs dim n h =
    let p = else_ok (dim == 0) _ bad_dim h in
    let q = if_ok ((length xs % dim) == 0) _ not_divided p.1 in (has_dim dim p.0, sym (ok-inj q.1))

binary_rows :
    (xs : List ℕ) (dim n : ℕ)
    → get_num_rows_of_binary_vector_field xs dim ≡ ok n
    → (dim ≢ 0) × (dim % 8 ≡ 0) × (n ≡ (8 * length xs) / dim)
unfolding get_num_rows_of_binary_vector_field
binary_rows xs dim n h =
    let p = else_ok (dim == 0) _ bad_dim h in
    let q = if_ok ((dim % 8) == 0) _ bad_dim p.1 in
    let r = if_ok (((8 * length xs) % dim) == 0) _ not_divided q.1 in
    (has_dim dim p.0, (==_iff (dim % 8) 0).0 q.0, sym (ok-inj r.1))

-- A slice of one row's elements is one row.
one_float_row :
    (ys : List ℕ) (dim : ℕ)
    → dim ≢ 0
    → length ys ≡ dim
    → get_num_rows_of_float_vector_field ys dim ≡ ok 1
unfolding get_num_rows_of_float_vector_field
one_float_row ys dim h e =
    rw
      (
        get_num_rows_of_float_vector_field,
        not_zero dim h,
        e,
        mod_self dim,
        div_self {n = dim} (omega arith),
      )
      refl

one_binary_row :
    (ys : List ℕ) (dim : ℕ)
    → dim ≢ 0
    → dim % 8 ≡ 0
    → length ys ≡ dim / 8
    → get_num_rows_of_binary_vector_field ys dim ≡ ok 1
unfolding get_num_rows_of_binary_vector_field
one_binary_row ys dim h even e =
    let bits : 8 * length ys ≡ dim = omega arith in
    rw
      (
        get_num_rows_of_binary_vector_field,
        not_zero dim h,
        even,
        bits,
        mod_self dim,
        div_self {n = dim} (omega arith),
      )
      refl

float_end : (n dim idx : ℕ) → idx < n / dim → idx * dim + dim ≤ n
float_end n dim idx h = omega (arith, row_end dim (n / dim) idx h, div-mul-le_self n dim)

binary_end : (n dim idx : ℕ) → dim % 8 ≡ 0 → idx < (8 * n) / dim → idx * (dim / 8) + dim / 8 ≤ n
binary_end n dim idx even h =
    let whole : dim / 8 * 8 ≡ dim = omega arith in
    let all : idx * (dim / 8) * 8 ≡ idx * dim =
      mul_assoc idx (dim / 8) 8 ∙ ap (λ w. idx * w) whole in
    omega (arith, float_end (8 * n) dim idx h)

-- The field of one row of a field with `n` rows.
append_field-total :
    (a : ℕ) (f : Field) (n idx : ℕ)
    → get_num_row_of_field f ≡ ok n
    → idx < n
    → (g : FieldData) × (append_field (record { about = a; field = f }) idx ≡ some g)
      × (get_num_row_of_field g.field ≡ ok 1)
unfolding get_num_row_of_field append_field
append_field-total a (scalar_field (scalar kind xs)) n idx h less =
    let q = get_elem?-total xs idx (omega (arith, ok-inj h)) in (_, >>=?_of_some _ q.1, refl)
append_field-total a (scalar_field other_scalar) n idx h less = absurd (cc)
append_field-total a (vector_field dim (float_vector xs)) n idx h less =
    let k = float_rows xs dim n h in
    let q = slice_total xs (idx * dim) dim (float_end (length xs) dim idx (omega (arith, k.1))) in
    (_, >>=?_of_some _ q.1, one_float_row q.0 dim k.0 q.2)
append_field-total a (vector_field dim (binary_vector xs)) n idx h less =
    let k = binary_rows xs dim n h in
    let q =
      slice_total xs (idx * (dim / 8)) (dim / 8)
        (binary_end (length xs) dim idx k.1 (omega (arith, k.2))) in
    (_, >>=?_of_some _ q.1, one_binary_row q.0 dim k.0 k.1 q.2)
append_field-total a (vector_field dim other_vector) n idx h less = absurd (cc)
append_field-total a no_field n idx h less = absurd (cc)

pub append_field_data-total :
    (fs : List FieldData) (n idx : ℕ)
    → check_fields fs n ≡ ok tt
    → idx < n
    → (gs : List FieldData) × (append_field_data fs idx ≡ some gs) × (check_fields gs 1 ≡ ok tt)
unfolding check_fields append_field_data
append_field_data-total [] n idx h less = ([], refl, refl)
append_field_data-total (f ∷ fs) n idx h less =
    let rows = >>=_ok (get_num_row_of_field f.field) _ h in
    let same = if_ok (rows.0 == n) _ mismatch rows.2 in
    let enough : idx < rows.0 = omega (arith, (==_iff rows.0 n).0 same.0) in
    let one = append_field-total f.about f.field rows.0 idx rows.1 enough in
    let rest = append_field_data-total fs n idx same.1 less in
    (one.0 ∷ rest.0, >>=?_of_some _ one.1 ∙ >>=?_of_some _ rest.1, >>=_of_ok _ one.2 ∙ rest.2)
