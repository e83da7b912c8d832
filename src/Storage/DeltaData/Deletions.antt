-- ===== src/Storage/DeltaData/Deletions.antt =====
-- The deletions as a list of keys with timestamps.
use birdwatcher.Base.{
  ℕ, suc, ◌+◌, ◌%◌, ◌^◌, ◌<◌, ◌≡◌, ◌≢◌, ◌⊎◌, ◌↔◌, refl, sym, ◌∙◌, ap, inl, inr, Bool, true, false,
  none, some, List, [], ◌∷◌, ◌++◌, length, length-append, get_elem?, get_elem?-middle, Bool-cases,
  ok, fail, >>=?_of_some, if◌then◌else◌, arith,
}
use mathlib.Core.List.{append_assoc}
use birdwatcher.Base.Word.{add64}
use birdwatcher.Storage.PrimaryKey.{PrimaryKey, DataType, int64, varchar, other}
use birdwatcher.Storage.PrimaryKey
use birdwatcher.Storage.PrimaryKeys
use birdwatcher.Storage.PrimaryKeys.{PrimaryKeys}
use birdwatcher.Storage.PrimaryKeys.Elements.{
  elements, IsSized, append_cases, get_lem, must_merge_cases,
}
use birdwatcher.Storage.DeltaData.{
  DeltaData, append, range_loop, range, merge, same_type, merge_pks,
}

-- The callback over a list of deletions, until it says stop.
abbrev pub fold_until {ℓ} :
    {S : Type ℓ} → (S → PrimaryKey → ℕ → S × Bool) → S → List PrimaryKey → List ℕ → S
fold_until f s [] tss = s
fold_until f s (pk ∷ pks) [] = s
fold_until f s (pk ∷ pks) (ts ∷ tss) =
    let (s', more) = f s pk ts in let rest = fold_until f s' pks tss in if more then rest else s'

-- Keys and timestamps are as many as the count says, and the keys have the type of the record.
pub record IsAligned (dd : DeltaData) (held : PrimaryKeys) : Type 0 where
  pub holds : dd.pks ≡ some held
  pub typed : PrimaryKeys.type_of held ≡ dd.data_type
  pub paired : length (elements held) ≡ length dd.tss
  pub counted : dd.del_row_count ≡ length dd.tss % 2 ^ 64
  pub sized : IsSized held

module _ {ℓ} {S : Type ℓ} (f : S → PrimaryKey → ℕ → S × Bool) (dd : DeltaData)
    (held : PrimaryKeys) where
  range_loop_step :
      (rounds i : ℕ) (s : S) (pk : PrimaryKey) (ts : ℕ)
      → dd.pks ≡ some held
      → PrimaryKeys.get held i ≡ some pk
      → get_elem? dd.tss i ≡ some ts
      → range_loop dd f (suc rounds) i s ≡ elim ((f s pk ts).1) [
        | true ↦ range_loop dd f rounds (i + 1) (f s pk ts).0
        | false ↦ some (f s pk ts).0
      ]
  unfolding range_loop
  range_loop_step rounds i s pk ts h g t = >>=?_of_some _ h ∙ >>=?_of_some _ g ∙ >>=?_of_some _ t

  range_loop-fold_until :
      (pks₀ pks : List PrimaryKey) (tss₀ tss : List ℕ) (s : S)
      → dd.pks ≡ some held
      → elements held ≡ pks₀ ++ pks
      → dd.tss ≡ tss₀ ++ tss
      → length pks₀ ≡ length tss₀
      → length pks ≡ length tss
      → range_loop dd f (length tss) (length tss₀) s ≡ some (fold_until f s pks tss)
  range_loop-fold_until pks₀ [] tss₀ [] s h ep et l₀ l = unfold range_loop in refl
  range_loop-fold_until pks₀ [] tss₀ (ts ∷ tss) s h ep et l₀ l = absurd (omega arith)
  range_loop-fold_until pks₀ (pk ∷ pks) tss₀ [] s h ep et l₀ l = absurd (omega arith)
  range_loop-fold_until pks₀ (pk ∷ pks) tss₀ (ts ∷ tss) s h ep et l₀ l =
      range_loop_step (length tss) (length tss₀) s pk ts h
        ((get_lem held (length tss₀)).0 ∙ rw (ep, sym l₀) (get_elem?-middle pks₀ pk pks))
        (rw et (get_elem?-middle tss₀ ts tss))
      ∙ ground (
        arith,
        range_loop-fold_until (pks₀ ++ (pk ∷ [])) pks (tss₀ ++ (ts ∷ [])) tss (f s pk ts).0 h
            (ep ∙ sym (append_assoc pks₀ (pk ∷ []) pks))
            (et ∙ sym (append_assoc tss₀ (ts ∷ []) tss))
            (omega (arith, length-append pks₀ (pk ∷ []), length-append tss₀ (ts ∷ [])))
            (omega arith),
        length-append tss₀ (ts ∷ []),
      )

-- Range over an aligned record of fewer than 2 ^ 63 deletions offers each key with its
-- timestamp to the callback, in order, until the callback says stop, and does not panic.
pub range-fold_until {ℓ} :
    {S : Type ℓ} (f : S → PrimaryKey → ℕ → S × Bool) (dd : DeltaData) (held : PrimaryKeys) (s : S)
    → IsAligned dd held
    → length dd.tss < 2 ^ 63
    → range dd f s ≡ some (fold_until f s (elements held) dd.tss)
unfolding range
range-fold_until f dd held s h small =
    ap (λ n. range_loop dd f n 0 s) (ground (arith, h.counted))
    ∙ range_loop-fold_until f dd held [] (elements held) [] dd.tss s h.holds refl refl refl h.paired

append_step :
    (dd : DeltaData) (held : PrimaryKeys) {held' : PrimaryKeys} (pk : PrimaryKey) (ts : ℕ)
    → dd.pks ≡ some held
    → PrimaryKeys.append held (pk ∷ []) ≡ ok held'
    → append dd pk ts
      ≡ some (record dd {
        pks = some held';
        tss = dd.tss ++ (ts ∷ []);
        del_row_count = add64 dd.del_row_count 1;
      })
unfolding append PrimaryKeys.must_append
append_step dd held pk ts h e = >>=?_of_some _ h ∙ >>=?_of_some _ (ap PrimaryKeys.or_panic e)

append_panic :
    (dd : DeltaData) (held : PrimaryKeys) (pk : PrimaryKey) (ts : ℕ)
    → dd.pks ≡ some held
    → PrimaryKeys.append held (pk ∷ []) ≡ fail tt
    → append dd pk ts ≡ none
unfolding append PrimaryKeys.must_append
append_panic dd held pk ts h e = >>=?_of_some _ h ∙ ground (arith, e)

-- Append to an aligned record puts a key of its type and the timestamp behind the others and
-- stays aligned; it panics on a key of another type.
append-IsAligned :
    (dd : DeltaData) (held : PrimaryKeys) (pk : PrimaryKey) (ts : ℕ)
    → IsAligned dd held
    → ((dd' : DeltaData) × (held' : PrimaryKeys) × (append dd pk ts ≡ some dd')
        × IsAligned dd' held'
        × (elements held' ≡ elements held ++ (pk ∷ []))
        × (dd'.tss ≡ dd.tss ++ (ts ∷ [])))
      ⊎ ((PrimaryKey.type_of pk ≢ dd.data_type) × (append dd pk ts ≡ none))
unfolding append add64 PrimaryKeys.must_append
append-IsAligned dd held pk ts h = elim (append_cases held (pk ∷ [])) [
  | inl (r, e, x) ↦ inl (
    _,
    r,
    append_step dd held pk ts h.holds e,
    record {
      holds = refl;
      typed = x.same_type ∙ h.typed;
      paired =
          ap length x.keys
          ∙ omega (
            arith,
            h.paired,
            length-append (elements held) (pk ∷ []),
            length-append dd.tss (ts ∷ []),
          );
      counted = omega (arith, h.counted, length-append dd.tss (ts ∷ []));
      sized = x.sized h.sized;
    },
    x.keys,
    refl,
  )
  | inr (e, n) ↦ inr (λ same. n (same ∙ sym h.typed, tt), append_panic dd held pk ts h.holds e)
]

same_type_iff : (s t : DataType) → (same_type s t ≡ true) ↔ (s ≡ t)
same_type_iff s t = (λ e. ground arith, λ e. ground arith)

merge_pks_step :
    (dd add : DeltaData) {held others r : PrimaryKeys}
    → dd.pks ≡ some held
    → add.pks ≡ some others
    → PrimaryKeys.must_merge held others ≡ some r
    → merge_pks dd.pks add.pks ≡ some r
merge_pks_step dd add h k e = >>=?_of_some _ h ∙ >>=?_of_some _ k ∙ e

merge_step :
    (dd add : DeltaData) {held others r : PrimaryKeys}
    → dd.pks ≡ some held
    → add.pks ≡ some others
    → dd.data_type ≡ add.data_type
    → PrimaryKeys.must_merge held others ≡ some r
    → merge dd add
      ≡ ok (record dd {
        pks = some r;
        tss = dd.tss ++ add.tss;
        del_row_count = add64 dd.del_row_count add.del_row_count;
      })
unfolding merge
merge_step dd add h k same e =
    rw ((same_type_iff dd.data_type add.data_type).1 same, merge_pks_step dd add h k e)

merge_refused : (dd add : DeltaData) → dd.data_type ≢ add.data_type → merge dd add ≡ fail tt
unfolding merge
merge_refused dd add differs = elim (Bool-cases (same_type dd.data_type add.data_type)) [
  | inl e ↦ absurd (differs ((same_type_iff dd.data_type add.data_type).0 e))
  | inr e ↦ rw e
]

-- Merge of two aligned records puts the deletions of a record of the same type behind, keys and
-- timestamps alike, and stays aligned; it refuses a record of another type, and does not panic.
pub merge-IsAligned :
    (dd add : DeltaData) (held others : PrimaryKeys)
    → IsAligned dd held
    → IsAligned add others
    → ((dd' : DeltaData) × (held' : PrimaryKeys) × (merge dd add ≡ ok dd')
        × IsAligned dd' held'
        × (elements held' ≡ elements held ++ elements others)
        × (dd'.tss ≡ dd.tss ++ add.tss))
      ⊎ ((dd.data_type ≢ add.data_type) × (merge dd add ≡ fail tt))
unfolding merge add64
merge-IsAligned dd add held others h k = elim (must_merge_cases held others k.sized) [
  | inl (same, (r, e, x)) ↦ inl (
    _,
    r,
    merge_step dd add h.holds k.holds (sym h.typed ∙ same ∙ k.typed) e,
    record {
      holds = refl;
      typed = x.same_type ∙ h.typed;
      paired =
          ap length x.keys
          ∙ omega (
            arith,
            h.paired,
            k.paired,
            length-append (elements held) (elements others),
            length-append dd.tss add.tss,
          );
      counted = omega (arith, h.counted, k.counted, length-append dd.tss add.tss);
      sized = x.sized h.sized;
    },
    x.keys,
    refl,
  )
  | inr (diff, e) ↦
      let differs =
        (λ (same : dd.data_type ≡ add.data_type). diff (h.typed ∙ same ∙ sym k.typed)) in
      inr (differs, merge_refused dd add differs)
]
