-- ===== src/Kv/Etcd/Walk.antt =====
-- The pages of WalkWithPrefix make up the pairs under the prefix.
use mathlib.Core.Path.{subst}
use birdwatcher.Base.{
  ℕ, zero, suc, ◌<◌, ◌≡◌, inl, inr, refl, sym, ◌∙◌, ap, Bool, true, false, ◌&&◌, Bool-cases, List,
  [], ◌∷◌, ◌++◌, length, take, drop, select, suc_is_not_zero, All, All-map, All-every, Result, ok,
  ◌>>=◌, bind-agree, bind-ok, bind_assoc, arith,
}
use birdwatcher.Base.Text.{at_least, has_prefix}
use birdwatcher.Base.Text.Order.{at_least_trans, has_prefix-at_least}
use birdwatcher.Binlog.Bytes.RoundTrip.{take-drop}
use birdwatcher.Kv.Client.{
  Pair, Sorted, to_prefix_end, whole, RangeEnd, covers, in_range, limited, exceeds, EtcdClient,
  IsEtcd, Answers, get-answer,
}
use birdwatcher.Kv.Client.Pairs.{
  select-agree, select-select, Sorted-select, last_key, select_behind, select_passing,
  length-select,
}
use birdwatcher.Kv.Client.Pages.{
  and_left, behind-at_least, All-first, last_key-All, length-drop, exceeds_lt, exceeds_not,
  prefix_test,
}
use birdwatcher.Kv.Paths.{path_join}
use birdwatcher.Kv.Etcd.{KvError, next_key, run_callback, walk_loop, walk_with_prefix}

next_key_last : (p : Pair) (ps : List Pair) → next_key (p ∷ ps) ≡ ok (last_key p ps ++ (0 ∷ []))
next_key_last p [] = refl
next_key_last p (q ∷ ps) = next_key_last q ps

run_callback-append {ℓ} :
    {A : Type ℓ} (fn : A → Pair → Result KvError A) (ps qs : List Pair) (a : A)
    → run_callback fn (ps ++ qs) a ≡ (run_callback fn ps a >>= run_callback fn qs)
run_callback-append fn [] qs a = refl
run_callback-append fn (p ∷ ps) qs a = bind_assoc _ _ _ (fn a p) (run_callback-append fn ps qs)

split_at :
    (n : ℕ) (ps : List Pair)
    → n < length ps
    → (p : Pair) × (xs : List Pair) × (ys : List Pair) × (ps ≡ p ∷ (xs ++ ys))
      × (take (suc n) ps ≡ p ∷ xs)
      × (length ys < length ps)
split_at n [] h = absurd (omega arith)
split_at n (p ∷ ps) h = (
  p,
  take n ps,
  drop n ps,
  ap (◌∷◌ p) (sym (take-drop n ps)),
  refl,
  omega (arith, length-drop n ps),
)

-- A page that leaves pairs out has a pair.
page_split :
    (limit : ℕ) (ps : List Pair)
    → exceeds limit ps ≡ true
    → (p : Pair) × (xs : List Pair) × (ys : List Pair) × (ps ≡ p ∷ (xs ++ ys))
      × (limited limit ps ≡ p ∷ xs)
      × (length ys < length ps)
page_split zero ps h = absurd (cc)
page_split (suc n) ps h = rw (suc_is_not_zero n) (split_at n ps (exceeds_lt n ps h))

and_absorb : (a b c : Bool) → (a ≡ true → b ≡ true) → (a && c) ≡ (a && (b && c))
and_absorb true b c h = rw (h refl) refl
and_absorb false b c h = refl

module _ (E : RangeEnd) (prefix : List ℕ) where
  abbrev rest : List ℕ → List Pair → List Pair
  rest key ps = in_range E key (to_prefix_end prefix) ps

  rest-at_least :
      (key : List ℕ) (ps : List Pair) → All (λ (x : Pair). at_least x.key key ≡ true) (rest key ps)
  rest-at_least key ps =
      All-map (λ (x : Pair) h. and_left _ _ h) (rest key ps) (select_passing _ ps)

  -- Behind the last pair of a page stands the rest of the range.
  rest_behind :
      (key : List ℕ) (ps : List Pair) (p : Pair) (xs ys : List Pair)
      → Sorted ps
      → rest key ps ≡ p ∷ (xs ++ ys)
      → rest (last_key p xs ++ (0 ∷ [])) ps ≡ ys
  rest_behind key ps p xs ys h e =
      let l = last_key p xs in
      let all =
        subst (λ zs. All (λ (x : Pair). at_least x.key key ≡ true) zs) e (rest-at_least key ps) in
      let above = last_key-All (λ k. at_least k key ≡ true) p xs (All-first _ (p ∷ xs) ys all) in
      let next = at_least_trans key l (l ++ (0 ∷ [])) above (behind-at_least l) in
      select-agree _ _ ps (
        All-every
          (λ (x : Pair).
            and_absorb (at_least x.key (l ++ (0 ∷ []))) (at_least x.key key) _
              (at_least_trans key (l ++ (0 ∷ [])) x.key next))
          ps)
      ∙ select-select (λ (x : Pair). at_least x.key (l ++ (0 ∷ []))) _ ps
      ∙ ap (select (λ (x : Pair). at_least x.key (l ++ (0 ∷ [])))) e
      ∙ select_behind p xs ys (subst Sorted e (Sorted-select _ ps h))

rest-prefix :
    (E : RangeEnd) (prefix : List ℕ) (ps : List Pair)
    → rest E prefix prefix ps ≡ select (λ (p : Pair). has_prefix prefix p.key) ps
rest-prefix E prefix ps = select-agree _ _ ps (
    All-every
      (λ (x : Pair).
        prefix_test (at_least x.key prefix) _ (has_prefix prefix x.key)
          (E.before_end_lem prefix x.key) (has_prefix-at_least prefix x.key))
      ps)

module _ (C : EtcdClient) (root_path : List ℕ) (E : IsEtcd C) where
  module _ {ℓ} {A : Type ℓ} (fn : A → Pair → Result KvError A) (s : C.Store) (h : Answers C s)
      (prefix : List ℕ) (batch : ℕ) where
    walk_loop-rest :
        (fuel : ℕ) (key : List ℕ) (a : A)
        → length (rest C.ends prefix key (C.pairs s)) < fuel
        → walk_loop C root_path fn fuel prefix batch key s a
          ≡ run_callback fn (rest C.ends prefix key (C.pairs s)) a
    unfolding walk_loop
    walk_loop-rest zero key a l = absurd (omega arith)
    walk_loop-rest (suc fuel) key a l =
        elim (Bool-cases (exceeds batch (rest C.ends prefix key (C.pairs s)))) [
          | inl e ↦
              let (p, xs, ys, split, page, less) =
                page_split batch (rest C.ends prefix key (C.pairs s)) e in
              let behind =
                rest_behind C.ends prefix key (C.pairs s) p xs ys (E.pairs-Sorted s) split in
              rw
                (
                  get-answer C E s h (record {
                    key = key;
                    range = to_prefix_end prefix;
                    limit = batch;
                    content = whole;
                  }),
                  e,
                  page,
                  next_key_last p xs,
                )
                (bind-agree (run_callback fn (p ∷ xs) a) (λ b.
                    walk_loop-rest fuel (last_key p xs ++ (0 ∷ [])) b
                      (omega (arith, l, less, ap length behind))
                    ∙ ap (λ zs. run_callback fn zs b) behind)
                  ∙ sym (run_callback-append fn (p ∷ xs) ys a)
                  ∙ ap (λ zs. run_callback fn zs a) (sym split))
          | inr e ↦
              rw
                (
                  get-answer C E s h (record {
                    key = key;
                    range = to_prefix_end prefix;
                    limit = batch;
                    content = whole;
                  }),
                  e,
                  exceeds_not batch (rest C.ends prefix key (C.pairs s)) e,
                )
                (bind-ok (run_callback fn (rest C.ends prefix key (C.pairs s)) a))
        ]

  -- WalkWithPrefix of etcd that answers runs the callback over the pairs under the prefix, each
  -- once and in the order of the keys, up to the first that the callback refuses, for any size
  -- of a page, with more fuel than there are pairs.
  pub walk_with_prefix_pairs {ℓ} :
      {A : Type ℓ} (fn : A → Pair → Result KvError A) (s : C.Store) (prefix : List ℕ)
      (pagination_size fuel : ℕ) (a : A)
      → Answers C s
      → length (C.pairs s) < fuel
      → walk_with_prefix C root_path fn fuel prefix pagination_size s a
        ≡ run_callback fn
            (select
              (λ (p : Pair). has_prefix (path_join (root_path ∷ prefix ∷ [])) p.key)
              (C.pairs s))
            a
  unfolding walk_with_prefix
  walk_with_prefix_pairs fn s prefix pagination_size fuel a h l =
      let joined = path_join (root_path ∷ prefix ∷ []) in
      walk_loop-rest fn s h joined pagination_size fuel joined a (
        omega (
          arith,
          l,
          length-select (λ (x : Pair). covers C.ends joined (to_prefix_end joined) x.key)
              (C.pairs s),
        ))
      ∙ ap (λ zs. run_callback fn zs a) (rest-prefix C.ends joined (C.pairs s))
