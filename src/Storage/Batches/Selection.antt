-- ===== src/Storage/Batches/Selection.antt =====
-- Which files a batch takes, and how many batches there are.
use Prim.Native.String.{String}
use birdwatcher.Base.{
  ℕ, zero, suc, ◌+◌, ◌<◌, ◌≤◌, ◌≡◌, ◌⊎◌, inl, inr, refl, sym, ◌∙◌, ap, Bool, ◌&&◌, ◌||◌, Option,
  none, some, Bool-cases, List, [], ◌∷◌, map, ◌==◌, ==_iff, get_elem?, length, All, All-map₂,
  All-every, if◌then◌else◌, Result, ok, fail, panic, ◌>>=◌, >>=_ok, arith,
}
use mathlib.Core.Path.{subst, ap₂}
use birdwatcher.Base.Dict.{set, lookup, lookup-set}
use birdwatcher.Storage.Batches.{
  FieldBinlog, BinlogSelector, keeps, field_id_selector, all_selector,
  matching_wide_column_selector, select_loop, select_binlogs, BatchInfo, SegmentBatchIterator,
  BatchError, open_all, or_eof, or_open_failed, next_batch, new_segment_reader,
  new_segment_batch_iterator,
}

get_elem?-bound {ℓ} :
    {A : Type ℓ} (xs : List A) (i : ℕ)
    → ((i < length xs) × ((x : A) × (get_elem? xs i ≡ some x)))
      ⊎ ((length xs ≤ i) × (get_elem? xs i ≡ none))
get_elem?-bound [] i = inr (omega arith, refl)
get_elem?-bound (x ∷ xs) zero = inl (omega arith, (x, refl))
get_elem?-bound (x ∷ xs) (suc i) = elim (get_elem?-bound xs i) [
  | inl (h, (y, e)) ↦ inl (omega (arith, h), (y, e))
  | inr (h, e) ↦ inr (omega (arith, h), e)
]

-- The field has a file in the batch.
abbrev pub HasBatch : ℕ → FieldBinlog → Type 0
HasBatch idx binlog = idx < length binlog.log_paths

-- The file of a field: that of its last entry in the list, if the field is one to keep.
abbrev pub file_of : (ℕ → Bool) → ℕ → ℕ → Option String → List FieldBinlog → Option String
file_of keep idx k found [] = found
file_of keep idx k found (binlog ∷ binlogs) =
    file_of keep idx k
      (if keep k && (binlog.field_id == k) then get_elem? binlog.log_paths idx else found) binlogs

taken-lookup :
    (keep : ℕ → Bool) (k id : ℕ) (path : String) (result : List (ℕ × String))
    → lookup k (if keep id then set id path result else result)
      ≡ (if keep k && (id == k) then some path else lookup k result)
taken-lookup keep k id path result = elim (Bool-cases (id == k)) [
  | inl e ↦
      subst
        (λ (j : ℕ).
          lookup j (if keep id then set id path result else result)
          ≡ (if keep j && (id == j) then some path else lookup j result))
        ((==_iff id k).0 e) (ground (arith, lookup-set id id path result))
  | inr e ↦ ground (arith, lookup-set id k path result)
]

-- What a loop gives: a file of every field to keep, if all fields have the batch, and else EOF.
abbrev pub Selected :
    (ℕ → Bool)
    → ℕ
    → List (ℕ × String)
    → List FieldBinlog
    → Result (Unit {0}) (List (ℕ × String))
    → Type 0
Selected keep idx result binlogs out =
    (All (HasBatch idx) binlogs
      × ((r : List (ℕ × String)) × (out ≡ ok r)
          × ((k : ℕ) → lookup k r ≡ file_of keep idx k (lookup k result) binlogs)))
    ⊎ ((¬ All (HasBatch idx) binlogs) × (out ≡ fail tt))

select_loop-Selected :
    (keep : ℕ → Bool) (idx : ℕ) (result : List (ℕ × String)) (binlogs : List FieldBinlog)
    → Selected keep idx result binlogs (select_loop keep idx result binlogs)
unfolding select_loop
select_loop-Selected keep idx result [] = inl (tt, (result, refl, λ k. refl))
select_loop-Selected keep idx result (binlog ∷ binlogs) =
    elim (get_elem?-bound binlog.log_paths idx) [
      | inr (h, e) ↦ inr (λ (has, rest). omega (arith, h, has), rw (e, select_loop))
      | inl (h, (path, e)) ↦
          elim (select_loop-Selected keep idx
            (if keep binlog.field_id then set binlog.field_id path result else result) binlogs) [
              | inl (all, (r, f, files)) ↦ inl (
                (h, all),
                (
                  r,
                  rw (e, select_loop) f,
                  λ k. files k ∙ rw (taken-lookup keep k binlog.field_id path result, e),
                ),
              )
              | inr (lacks, f) ↦ inr (λ (has, rest). lacks rest, rw (e, select_loop) f)
            ]
    ]

-- Of a segment with fields, a batch that every field has gives the file of each field that the
-- selector keeps, and no other; a batch that a field lacks is the end.
pub select_binlogs-Selected :
    (selector : BinlogSelector) (binlog : FieldBinlog) (binlogs : List FieldBinlog) (idx : ℕ)
    → Selected
        (keeps selector)
        idx
        []
        (binlog ∷ binlogs)
        (select_binlogs selector (binlog ∷ binlogs) idx)
unfolding select_binlogs
select_binlogs-Selected (field_id_selector ids) binlog binlogs idx =
    select_loop-Selected _ idx [] (binlog ∷ binlogs)
select_binlogs-Selected all_selector binlog binlogs idx =
    select_loop-Selected _ idx [] (binlog ∷ binlogs)
select_binlogs-Selected (matching_wide_column_selector ids) binlog binlogs idx =
    select_loop-Selected _ idx [] (binlog ∷ binlogs)

ok-inj {ℓ} : {A : Type ℓ} {a b : A} → ◌≡◌ {A = Result BatchError A} (ok a) (ok b) → a ≡ b
ok-inj e = cc

or_eof_ok :
    (r : Result (Unit {0}) (List (ℕ × String))) {targets : List (ℕ × String)}
    → or_eof r ≡ ok targets
    → r ≡ ok targets
or_eof_ok (ok targets) e = cc
or_eof_ok (fail x) e = absurd (cc)
or_eof_ok panic e = absurd (cc)

fail-ok {ℓ} : {A : Type ℓ} {a : A} → ◌≡◌ {A = Result (Unit {0}) A} (fail tt) (ok a) → ¬ Unit {0}
fail-ok e u = cc

select_binlogs_ok :
    (selector : BinlogSelector) (binlogs : List FieldBinlog) (idx : ℕ) {targets : List (ℕ × String)}
    → select_binlogs selector binlogs idx ≡ ok targets
    → All (HasBatch idx) binlogs
select_binlogs_ok selector [] idx e = tt
select_binlogs_ok selector (binlog ∷ binlogs) idx e =
    elim (select_binlogs-Selected selector binlog binlogs idx) [
      | inl (all, found) ↦ all
      | inr (lacks, f) ↦ absurd (fail-ok (sym f ∙ e) tt)
    ]

abbrev pub count_up : ℕ → ℕ → List ℕ
count_up i zero = []
count_up i (suc n) = i ∷ count_up (i + 1) n

module _ {ℓ} {R : Type ℓ} (translator : String → Option R) where
  -- NextBatch called `n` times, up to its first error.
  abbrev pub batches :
      ℕ → SegmentBatchIterator → Result BatchError (List (BatchInfo R) × SegmentBatchIterator)
  batches zero it = ok ([], it)
  batches (suc n) it = next_batch translator it >>= λ (info, it').
      batches n it' >>= λ (infos, last). ok (info ∷ infos, last)

  next_batch_ok :
      (it it' : SegmentBatchIterator) (info : BatchInfo R)
      → next_batch translator it ≡ ok (info, it')
      → (info.batch_idx ≡ it.current_batch)
        × (it' ≡ record it { current_batch = it.current_batch + 1 })
        × ((targets : List (ℕ × String)) × (select_binlogs it.selector it.binlogs it.current_batch
              ≡ ok targets))
  unfolding next_batch
  next_batch_ok it it' info e =
      let (targets, chosen, e₁) =
        >>=_ok (or_eof (select_binlogs it.selector it.binlogs it.current_batch)) _ e in
      let (files, opened, e₂) = >>=_ok (or_open_failed (open_all translator targets)) _ e₁ in
      let same = ok-inj e₂ in
      (
        ap (λ x. x.0.batch_idx) (sym same),
        ap (λ x. x.1) (sym same),
        (targets, or_eof_ok (select_binlogs it.selector it.binlogs it.current_batch) chosen),
      )

  -- Successful calls of NextBatch give the batches one after the other, and no batch that a field
  -- lacks: there are at most as many as the shortest field has files.
  pub batches-count_up :
      (n : ℕ) (it last : SegmentBatchIterator) (infos : List (BatchInfo R))
      → batches n it ≡ ok (infos, last)
      → (map (λ (info : BatchInfo R). info.batch_idx) infos ≡ count_up it.current_batch n)
        × (last ≡ record it { current_batch = it.current_batch + n })
        × All (λ binlog. (n ≡ 0) ⊎ (it.current_batch + n ≤ length binlog.log_paths)) it.binlogs
  batches-count_up zero it last infos e =
      let same = ok-inj e in
      (
        ap (λ x. map (λ (info : BatchInfo R). info.batch_idx) x.0) (sym same),
        ap (λ x. x.1) (sym same) ∙ ap (λ (c : ℕ). record it { current_batch = c }) (omega arith),
        All-every (λ (binlog : FieldBinlog). inl refl) it.binlogs,
      )
  batches-count_up (suc n) it last infos e =
      let ((info, it'), first, e₁) = >>=_ok (next_batch translator it) _ e in
      let ((rest, end), later, e₂) = >>=_ok (batches n it') _ e₁ in
      let (idx, moved, (targets, chosen)) = next_batch_ok it it' info first in
      let (counted, ended, bound) =
        batches-count_up n (record it { current_batch = it.current_batch + 1 }) end rest
          (subst (λ (i : SegmentBatchIterator). batches n i ≡ ok (rest, end)) moved later) in
      let same = ok-inj e₂ in
      (
        ap (λ x. map (λ (info : BatchInfo R). info.batch_idx) x.0) (sym same)
            ∙ ap₂ (◌∷◌) idx counted,
        ap (λ x. x.1) (sym same)
            ∙ ended
            ∙ ap (λ (c : ℕ). record it { current_batch = c }) (omega arith),
        All-map₂
            {R = λ (binlog : FieldBinlog).
              (suc n ≡ 0) ⊎ (it.current_batch + suc n ≤ length binlog.log_paths)}
            (λ binlog h k. inr (ground (arith, h, k))) it.binlogs
            (select_binlogs_ok it.selector it.binlogs it.current_batch chosen) bound,
      )

made-inj :
    {a b : SegmentBatchIterator}
    → ◌≡◌ {A = Result (Unit {0}) SegmentBatchIterator} (ok a) (ok b)
    → a ≡ b
made-inj e = cc

abbrev pub Ends : SegmentBatchIterator → Type 0
Ends it =
    (it.current_batch ≡ 0) × (select_binlogs it.selector it.binlogs it.current_batch ≡ fail tt)

-- The reader of a segment without fields has no batch at all, so that reading it ends.
pub new_segment_reader-Ends :
    (version id : ℕ) (fields : List ℕ) (it : SegmentBatchIterator)
    → new_segment_reader version id [] fields ≡ ok it
    → Ends it
unfolding new_segment_reader select_binlogs new_segment_batch_iterator
new_segment_reader-Ends version id fields it e = elim (Bool-cases (version == 0 || version == 1)) [
  | inl b ↦ ended (field_id_selector fields) (rw (b, new_segment_reader)) refl
  | inr b ↦ elim (Bool-cases (version == 2)) [
    | inl c ↦ ended (matching_wide_column_selector fields) (rw (b, c, new_segment_reader)) refl
    | inr c ↦ absurd (refused (rw (b, c, new_segment_reader)) tt)
  ]
]
  where
    refused : new_segment_reader version id [] fields ≡ fail tt → ¬ Unit {0}
    refused f = fail-ok (sym f ∙ e)

    ended :
        (selector : BinlogSelector)
        → new_segment_reader version id [] fields ≡ ok (new_segment_batch_iterator id [] selector)
        → select_binlogs selector [] 0 ≡ fail tt
        → Ends it
    ended selector made none' = subst Ends (made-inj (sym made ∙ e)) (refl, none')
