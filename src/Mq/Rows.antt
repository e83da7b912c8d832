-- ===== src/Mq/Rows.antt =====
-- mq/msg.go, mq/utils.go: the message of one row of an aligned insert message.
use birdwatcher.Base.{
  ℕ, ◌<◌, ◌≡◌, refl, sym, ap, ◌∙◌, Bool, true, false, Bool-cases, Option-cases, ◌⊎◌, ◌>>=?◌, inl,
  inr, Option, none, some, length, arith, ◌==◌, ==_iff, if◌then◌else◌, ok, >>=_ok, >>=?_of_some,
  >>=_of_ok,
}
use mathlib.Core.Path.{subst}
use birdwatcher.Mq.{
  mismatch, InsertRequest, MsgBase, is_column_based, is_row_based, row_based, column_based, n_rows,
  check_fields, check_aligned, row_based_index_request, column_based_index_request, index_request,
}
use birdwatcher.Mq.Fields.{get_elem?-total, if_ok, append_field_data-total}

-- What a message that passes CheckAligned has.
aligned_parts :
    (it : InsertRequest)
    → check_aligned it ≡ ok tt
    → ((if is_column_based it.version then check_fields it.fields_data (n_rows it) else ok tt)
        ≡ ok tt)
      × (length it.row_ids ≡ length it.timestamps)
      × (length it.row_ids ≡ n_rows it)
unfolding check_aligned
aligned_parts it h =
    let fields =
      >>=_ok (if is_column_based it.version then check_fields it.fields_data (n_rows it) else ok tt)
        _ h in
    let ids = if_ok (length it.row_ids == length it.timestamps) _ mismatch fields.2 in
    let rows = if_ok (length it.row_ids == n_rows it) _ mismatch ids.1 in
    (fields.1, (==_iff _ _).0 ids.0, (==_iff _ _).0 rows.0)

-- `msg` is an aligned message of one row, which `call` gives.
abbrev pub IsOneRow : Option InsertRequest → Type 0
IsOneRow call =
    (msg : InsertRequest) × (call ≡ some msg) × (check_aligned msg ≡ ok tt) × (n_rows msg ≡ 1)

row_based_lem :
    (it : InsertRequest) (index : ℕ) (base : MsgBase)
    → it.base ≡ some base
    → length it.row_ids ≡ length it.timestamps
    → length it.row_ids ≡ length it.row_data
    → index < length it.row_data
    → IsOneRow (row_based_index_request it index)
unfolding check_aligned row_based_index_request
row_based_lem it index base given times ids less =
    let ts = get_elem?-total it.timestamps index (omega (arith, times, ids)) in
    let id = get_elem?-total it.row_ids index (omega (arith, ids)) in
    let row = get_elem?-total it.row_data index less in
    (
      _,
      >>=?_of_some _ given ∙ >>=?_of_some _ ts.1 ∙ >>=?_of_some _ id.1 ∙ >>=?_of_some _ row.1,
      refl,
      refl,
    )

column_based_lem :
    (it : InsertRequest) (index : ℕ) (base : MsgBase)
    → it.base ≡ some base
    → check_fields it.fields_data it.num_rows ≡ ok tt
    → length it.row_ids ≡ length it.timestamps
    → length it.row_ids ≡ it.num_rows
    → index < it.num_rows
    → IsOneRow (column_based_index_request it index)
unfolding check_aligned column_based_index_request
column_based_lem it index base given aligned times ids less =
    let ts = get_elem?-total it.timestamps index (omega (arith, times, ids)) in
    let id = get_elem?-total it.row_ids index (omega (arith, ids)) in
    let fields = append_field_data-total it.fields_data it.num_rows index aligned less in
    (
      _,
      >>=?_of_some _ fields.1 ∙ >>=?_of_some _ given ∙ >>=?_of_some _ ts.1 ∙ >>=?_of_some _ id.1,
      >>=_of_ok _ fields.2,
      refl,
    )

-- The request for one row is that of rows or that of columns.
chosen :
    (it : InsertRequest) (index : ℕ) (b : Bool)
    → is_row_based it.version ≡ b
    → (index_request it index
        ≡ (if b then row_based_index_request it index else column_based_index_request it index))
      × (n_rows it ≡ (if b then length it.row_data else it.num_rows))
unfolding index_request
chosen it index b e = (
  ap (λ c. if c then row_based_index_request it index else column_based_index_request it index) e,
  ap (λ c. if c then length it.row_data else it.num_rows) e,
)

by_rows :
    (it : InsertRequest) (index : ℕ) (base : MsgBase)
    → it.base ≡ some base
    → check_aligned it ≡ ok tt
    → index < n_rows it
    → it.version ≡ row_based
    → IsOneRow (index_request it index)
by_rows it index base given h less v =
    let parts = aligned_parts it h in
    let (call, n) = chosen it index true (ap is_row_based v) in
    let r = row_based_lem it index base given parts.1 (parts.2 ∙ n) (omega (arith, n)) in
    (r.0, call ∙ r.1, r.2, r.3)

by_columns :
    (it : InsertRequest) (index : ℕ) (base : MsgBase)
    → it.base ≡ some base
    → check_aligned it ≡ ok tt
    → index < n_rows it
    → it.version ≡ column_based
    → IsOneRow (index_request it index)
by_columns it index base given h less v =
    let parts = aligned_parts it h in
    let (call, n) = chosen it index false (ap is_row_based v) in
    let fields : check_fields it.fields_data it.num_rows ≡ ok tt =
      ap (check_fields it.fields_data) (sym n)
      ∙ sym
          (ap (λ w. if is_column_based w then check_fields it.fields_data (n_rows it) else ok tt) v)
      ∙ parts.0 in
    let r = column_based_lem it index base given fields parts.1 (parts.2 ∙ n) (omega (arith, n)) in
    (r.0, call ∙ r.1, r.2, r.3)

nothing :
    {A B : Type 0} (o : Option A) (f : A → Option B) → ((a : A) → f a ≡ none) → (o >>=? f) ≡ none
nothing none f h = refl
nothing (some a) f h = h a

-- Without a Base there is a panic.
no_base : (it : InsertRequest) (index : ℕ) → it.base ≡ none → index_request it index ≡ none
unfolding index_request row_based_index_request column_based_index_request
no_base it index e = elim (Bool-cases (is_row_based it.version)) [
  | inl rows ↦ (chosen it index true rows).0 ∙ rw e refl
  | inr columns ↦ (chosen it index false columns).0 ∙ simp e (nothing _ _ (λ fields. refl))
]

-- What a call for one row gives, by the Base of its message.
abbrev pub Outcome : Option MsgBase → Option InsertRequest → Type 0
Outcome none call = call ≡ none
Outcome (some base) call = IsOneRow call

-- Of an insert message that CheckAligned accepts, whose version is that of rows or that of
-- columns, IndexRequest makes the message of any of its rows, which has one row and is accepted
-- in turn, if the message has a Base; without a Base it panics.
pub index_request-check_aligned :
    (it : InsertRequest) (index : ℕ)
    → check_aligned it ≡ ok tt
    → index < n_rows it
    → (it.version ≡ row_based) ⊎ (it.version ≡ column_based)
    → Outcome it.base (index_request it index)
index_request-check_aligned it index h less known = elim (Option-cases it.base) [
  | inl e ↦ subst (λ o. Outcome o (index_request it index)) (sym e) (no_base it index e)
  | inr (base, e) ↦
      subst (λ o. Outcome o (index_request it index)) (sym e)
        (elim known [
          | inl v ↦ by_rows it index base e h less v
          | inr v ↦ by_columns it index base e h less v
        ])
]
