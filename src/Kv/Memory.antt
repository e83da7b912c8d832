-- ===== src/Kv/Memory.antt =====
-- A store of etcd that is kept in memory: the documented behaviour of the client can be had.
use mathlib.Core.Path.{subst}
use birdwatcher.Base.{
  ℕ, ◌≡◌, inl, inr, refl, sym, ap, some-inj, Bool, true, false, not, ◌||◌, Bool-cases, some, List,
  [], ◌∷◌, select, All, All-map, arith,
}
use birdwatcher.Base.Text.{same_text, before, has_prefix}
use birdwatcher.Base.Text.Order.{same_text_iff, before_trans}
use birdwatcher.Kv.Client.{
  Pair, Sorted, RangeEnd, covers, in_range, answer, put_pair, put_pairs, EtcdClient, IsEtcd,
  Answers,
}
use birdwatcher.Kv.Client.Pairs.{Sorted-select}

before_total :
    (xs ys : List ℕ) → before xs ys ≡ false → same_text xs ys ≡ false → before ys xs ≡ true
before_total [] [] h k = absurd (cc)
before_total [] (y ∷ ys) h k = absurd (cc)
before_total (x ∷ xs) [] h k = refl
before_total (x ∷ xs) (y ∷ ys) h k = ground (arith, before_total xs ys)

All-put_pair :
    (P : List ℕ → Type 0) (k v : List ℕ) (ps : List Pair)
    → P k
    → All (λ (q : Pair). P q.key) ps
    → All (λ (q : Pair). P q.key) (put_pair k v ps)
All-put_pair P k v [] h a = (h, tt)
All-put_pair P k v (p ∷ ps) h (a, rest) = elim (Bool-cases (before k p.key)) [
  | inl e ↦ rw e (h, (a, rest))
  | inr e ↦ elim (Bool-cases (same_text k p.key)) [
    | inl f ↦ rw (e, f) (h, rest)
    | inr f ↦ rw (e, f) (a, All-put_pair P k v ps h rest)
  ]
]

pub put_pair-Sorted : (k v : List ℕ) (ps : List Pair) → Sorted ps → Sorted (put_pair k v ps)
put_pair-Sorted k v [] h = (tt, tt)
put_pair-Sorted k v (p ∷ ps) (a, h) = elim (Bool-cases (before k p.key)) [
  | inl e ↦ rw e ((e, All-map (λ (q : Pair) l. before_trans k p.key q.key e l) ps a), (a, h))
  | inr e ↦ elim (Bool-cases (same_text k p.key)) [
    | inl f ↦
        rw (e, f)
          (
            subst (λ x. All (λ (q : Pair). before x q.key ≡ true) ps)
                (sym ((same_text_iff k p.key).0 f)) a,
            h,
          )
    | inr f ↦
        rw (e, f)
          (
            All-put_pair (λ x. before p.key x ≡ true) k v ps (before_total k p.key e f) a,
            put_pair-Sorted k v ps h,
          )
  ]
]

pub put_pairs-Sorted : (qs ps : List Pair) → Sorted ps → Sorted (put_pairs qs ps)
put_pairs-Sorted [] ps h = h
put_pairs-Sorted (q ∷ qs) ps h =
    put_pairs-Sorted qs (put_pair q.key q.value ps) (put_pair-Sorted q.key q.value ps h)

pub below : (a b : Bool) → not a ≡ true → (b || a) ≡ b
below true b h = absurd (cc)
below false true h = refl
below false false h = refl

-- The keys before the end of a prefix's range are those under it and those before it.
abbrev ends : RangeEnd
ends = record {
  before_end = λ p k. has_prefix p k || before k p;
  before_end_lem = λ p k h. below (before k p) (has_prefix p k) h;
}

abbrev Kept : Type 0
Kept = (ps : List Pair) × Sorted ps

abbrev pub memory : EtcdClient
memory = record {
  Store = Kept;
  ends = ends;
  pairs = λ s. s.0;
  get = λ s r. some (answer ends s.0 r);
  put = λ s k v. some (put_pair k v s.0, put_pair-Sorted k v s.0 s.1);
  put_all = λ s qs. some (put_pairs qs s.0, put_pairs-Sorted qs s.0 s.1);
  delete = λ s key range. some (
    in_range ends key range s.0,
    (select (λ (p : Pair). not (covers ends key range p.key)) s.0, Sorted-select _ s.0 s.1),
  );
}

pub memory-IsEtcd : IsEtcd memory
memory-IsEtcd = record {
  pairs-Sorted = λ s. s.1;
  get_lem = λ s r a e. cc;
  put_lem = λ s t k v e. ap (λ x. x.0) (sym (some-inj e));
  put_all_lem = λ s t qs e. ap (λ x. x.0) (sym (some-inj e));
  delete_lem = λ s t key range prev e.
      (ap (λ x. x.0) (sym (some-inj e)), ap (λ x. x.1.0) (sym (some-inj e)));
}

pub memory-Answers : (s : memory.Store) → Answers memory s
memory-Answers s r = (answer ends s.0 r, refl)
