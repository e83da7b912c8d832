-- ===== src/Storage/Tasks/Duplicates.antt =====
-- What the tasks count, against the list of keys that they were handed.
use birdwatcher.Base.{
  ℕ, zero, suc, ◌+◌, ◌%◌, ◌^◌, ◌<◌, ◌≡◌, ◌≢◌, inl, inr, refl, sym, ◌∙◌, ap, Bool, true, false, ◌||◌,
  Bool-cases, List, [], ◌∷◌, ◌++◌, ltb, lt→ltb, if◌then◌else◌, length, take, arith,
}
use mathlib.Core.Path.{subst}
use mathlib.Core.List.{append_assoc, append-nil}
use birdwatcher.Base.Word.{add64}
use birdwatcher.Storage.PrimaryKey.{PrimaryKey, eq}
use birdwatcher.Storage.PrimaryKey.Order.{eq_iff}
use birdwatcher.Storage.Tasks.{
  DedupTask, new_dedup_task, is_seen, increase, dedup_scan, LocateTask, locate_scan,
}

-- A task over a list of keys.
abbrev pub dedup_all : DedupTask → List PrimaryKey → DedupTask
dedup_all task [] = task
dedup_all task (pk ∷ pks) = dedup_all (dedup_scan task pk) pks

-- How often the result says that a key was seen again.
abbrev pub repeats : PrimaryKey → List (PrimaryKey × ℕ) → ℕ
repeats pk [] = 0
repeats pk ((k, n) ∷ result) = if eq k pk then n else repeats pk result

abbrev pub occurrences : PrimaryKey → List PrimaryKey → ℕ
occurrences pk [] = 0
occurrences pk (k ∷ pks) = (if eq k pk then 1 else 0) + occurrences pk pks

abbrev pub as_number : Bool → ℕ
as_number true = 1
as_number false = 0

eq-sym_trans : (a b c : PrimaryKey) → eq a b ≡ true → eq a c ≡ eq b c
eq-sym_trans a b c e = ap (λ k. eq k c) ((eq_iff a b).0 e)

eq_self : (a : PrimaryKey) → eq a a ≡ true
eq_self a = (eq_iff a a).1 refl

true-false : true ≢ false
true-false e = cc

eq_other : (j pk k : PrimaryKey) → eq j pk ≡ false → eq j k ≡ true → eq pk k ≡ false
eq_other j pk k e f = elim (Bool-cases (eq pk k)) [
  | inl g ↦
      absurd (true-false (sym ((eq_iff j pk).1 ((eq_iff j k).0 f ∙ sym ((eq_iff pk k).0 g))) ∙ e))
  | inr g ↦ g
]

repeats-increase :
    (pk k : PrimaryKey) (result : List (PrimaryKey × ℕ))
    → repeats k (increase pk result) % 2 ^ 64
      ≡ ((if eq pk k then 1 else 0) + repeats k result) % 2 ^ 64
unfolding increase add64
repeats-increase pk k [] = ground arith
repeats-increase pk k ((j, n) ∷ result) = elim (Bool-cases (eq j pk)) [
  | inl e ↦ ground (arith, eq-sym_trans j pk k e)
  | inr e ↦ elim (Bool-cases (eq j k)) [
    | inl f ↦ ground (arith, eq_other j pk k e f)
    | inr f ↦ ground (arith, repeats-increase pk k result)
  ]
]

dedup_scan-repeats :
    (task : DedupTask) (pk k : PrimaryKey)
    → (repeats k (dedup_scan task pk).dedup_result + as_number (is_seen k (dedup_scan task pk).ids))
        % 2 ^ 64
      ≡ (repeats k task.dedup_result + as_number (is_seen k task.ids) + (if eq pk k then 1 else 0))
        % 2 ^ 64
unfolding dedup_scan
dedup_scan-repeats task pk k = elim (Bool-cases (is_seen pk task.ids)) [
  | inl e ↦ ground (arith, e, repeats-increase pk k task.dedup_result)
  | inr e ↦ elim (Bool-cases (eq pk k)) [
    | inl g ↦
        ground (
          arith,
          e,
          g,
          subst (λ (j : PrimaryKey). is_seen j task.ids ≡ false) ((eq_iff pk k).0 g) e,
        )
    | inr g ↦ ground (arith, e, g)
  ]
]

dedup_all-repeats :
    (task : DedupTask) (pks : List PrimaryKey) (k : PrimaryKey)
    → (repeats k (dedup_all task pks).dedup_result + as_number (is_seen k (dedup_all task pks).ids))
        % 2 ^ 64
      ≡ (repeats k task.dedup_result + as_number (is_seen k task.ids) + occurrences k pks) % 2 ^ 64
dedup_all-repeats task [] k = omega arith
dedup_all-repeats task (pk ∷ pks) k =
    dedup_all-repeats (dedup_scan task pk) pks k ∙ omega (arith, dedup_scan-repeats task pk k)

dedup_scan-seen :
    (task : DedupTask) (pk k : PrimaryKey)
    → is_seen k (dedup_scan task pk).ids ≡ (eq pk k || is_seen k task.ids)
unfolding dedup_scan
dedup_scan-seen task pk k = elim (Bool-cases (is_seen pk task.ids)) [
  | inl e ↦ elim (Bool-cases (eq pk k)) [
    | inl g ↦
        ground
          (arith, e, g, subst (λ (j : PrimaryKey). is_seen j task.ids ≡ true) ((eq_iff pk k).0 g) e)
    | inr g ↦ ground (arith, e, g)
  ]
  | inr e ↦ ground (arith, e)
]

dedup_all-seen :
    (task : DedupTask) (pks : List PrimaryKey) (k : PrimaryKey)
    → is_seen k (dedup_all task pks).ids ≡ (is_seen k task.ids || ltb 0 (occurrences k pks))
dedup_all-seen task [] k = ground arith
dedup_all-seen task (pk ∷ pks) k =
    dedup_all-seen (dedup_scan task pk) pks k ∙ ground (arith, dedup_scan-seen task pk k)

-- No key is in the list twice.
abbrev pub Different : List PrimaryKey → Type 0
Different [] = Unit
Different (id ∷ ids) = (is_seen id ids ≡ false) × Different ids

Different-new :
    (task : DedupTask) (pk : PrimaryKey)
    → is_seen pk task.ids ≡ false
    → Different task.ids
    → Different (dedup_scan task pk).ids
unfolding dedup_scan
Different-new task pk e h = rw e (e, h)

Different-old :
    (task : DedupTask) (pk : PrimaryKey)
    → is_seen pk task.ids ≡ true
    → Different task.ids
    → Different (dedup_scan task pk).ids
unfolding dedup_scan
Different-old task pk e h = rw e h

-- The counter and the number of keys are those of the keys handed over so far.
dedup_all-counter :
    (task : DedupTask) (pks : List PrimaryKey)
    → Different task.ids
    → (((dedup_all task pks).counter + length (dedup_all task pks).ids) % 2 ^ 64
        ≡ (task.counter + length task.ids + length pks) % 2 ^ 64)
      × Different (dedup_all task pks).ids
unfolding dedup_scan add64
dedup_all-counter task [] h = (omega arith, h)
dedup_all-counter task (pk ∷ pks) h = elim (Bool-cases (is_seen pk task.ids)) [
  | inl e ↦
      let (counted, kept) =
        dedup_all-counter (dedup_scan task pk) pks (Different-old task pk e h) in
      (counted ∙ ground (arith, e), kept)
  | inr e ↦
      let (counted, kept) =
        dedup_all-counter (dedup_scan task pk) pks (Different-new task pk e h) in
      (counted ∙ ground (arith, e), kept)
]

-- After any list of keys DedupTask knows the different keys, each once; its counter is the
-- number of keys beyond them, and the repeats of a key are its occurrences beyond the first, as
-- int64s.
pub dedup_counts :
    (pks : List PrimaryKey) (k : PrimaryKey)
    → let task = dedup_all new_dedup_task pks in
      Different task.ids
      × (is_seen k task.ids ≡ ltb 0 (occurrences k pks))
      × ((task.counter + length task.ids) % 2 ^ 64 ≡ length pks % 2 ^ 64)
      × ((repeats k task.dedup_result + as_number (is_seen k task.ids)) % 2 ^ 64
          ≡ occurrences k pks % 2 ^ 64)
unfolding new_dedup_task
dedup_counts pks k = (
  (dedup_all-counter new_dedup_task pks tt).1,
  dedup_all-seen new_dedup_task pks k,
  (dedup_all-counter new_dedup_task pks tt).0 ∙ omega arith,
  dedup_all-repeats new_dedup_task pks k ∙ omega arith,
)

-- LocateTask over a list of keys, until it says that the scan is over.
abbrev pub locate_all : LocateTask → List PrimaryKey → LocateTask
locate_all task [] = task
locate_all task (pk ∷ pks) =
    let (more, task') = locate_scan task pk in
    let rest = locate_all task' pks in if more then rest else task'

locate_scan_last :
    (task : LocateTask) (pk : PrimaryKey)
    → 0 < task.limit
    → task.limit < 2 ^ 63
    → task.counter ≡ task.limit
    → locate_scan task pk ≡ (false, record task { counter = task.counter + 1 })
unfolding locate_scan add64
locate_scan_last task pk h k e =
    rw
      (
        lt→ltb 0 task.limit h,
        lt→ltb task.limit (2 ^ 63) k,
        within,
        lt→ltb task.limit (task.counter + 1) (omega (arith, e)),
      )
      refl
  where
    within : (task.counter + 1) % 2 ^ 64 ≡ task.counter + 1
    within = omega (arith, e, k)

locate_scan_found :
    (task : LocateTask) (pk : PrimaryKey)
    → task.limit < 2 ^ 63
    → task.counter < task.limit
    → locate_scan task pk
      ≡ (true, record task { counter = task.counter + 1; found = task.found ++ (pk ∷ []) })
unfolding locate_scan add64
locate_scan_found task pk k l = rw (within, beyond) refl
  where
    within : (task.counter + 1) % 2 ^ 64 ≡ task.counter + 1
    within = omega (arith, l, k)

    beyond : ltb task.limit (task.counter + 1) ≡ false
    beyond = ground (arith, l)

-- With a limit above 0 a LocateTask that has printed n fewer keys than that prints the next n keys
-- that it is handed, and no more.
pub locate_all-take :
    (task : LocateTask) (pks : List PrimaryKey) (n : ℕ)
    → 0 < task.limit
    → task.limit < 2 ^ 63
    → task.counter + n ≡ task.limit
    → (locate_all task pks).found ≡ task.found ++ take n pks
locate_all-take task [] zero h k e = sym (append-nil task.found)
locate_all-take task [] (suc n) h k e = sym (append-nil task.found)
locate_all-take task (pk ∷ pks) zero h k e =
    ap (λ r. (if r.0 then locate_all r.1 pks else r.1).found)
      (locate_scan_last task pk h k (omega (arith, e)))
    ∙ sym (append-nil task.found)
locate_all-take task (pk ∷ pks) (suc n) h k e =
    ap (λ r. (if r.0 then locate_all r.1 pks else r.1).found)
      (locate_scan_found task pk k (omega (arith, e)))
    ∙ locate_all-take (record task { counter = task.counter + 1; found = task.found ++ (pk ∷ []) })
        pks n h k (omega (arith, e))
    ∙ append_assoc task.found (pk ∷ []) (take n pks)
