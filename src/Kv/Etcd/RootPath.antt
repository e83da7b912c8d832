-- ===== src/Kv/Etcd/RootPath.antt =====
-- The pages of one key in GetAllRootPath go over the first parts of all keys.
use mathlib.Core.Path.{subst}
use mathlib.Core.List.{append_assoc, append-nil}
use birdwatcher.Base.{
  ℕ, zero, suc, ◌<◌, ◌≡◌, inl, inr, refl, sym, ◌∙◌, ap, Bool, true, false, not, ◌||◌, Bool-cases,
  List, [], ◌∷◌, ◌++◌, length, select, ltb, lt→ltb, ◌==◌, if◌then◌else◌, All, All-map₂, All-every,
  ok, arith,
}
use birdwatcher.Base.Text.{same_text, at_least, has_prefix, split}
use birdwatcher.Base.Text.Order.{
  before_irrefl, before_asym, same_text_iff, at_least-next, at_least_trans, has_prefix-at_least,
  same_text_self,
}
use birdwatcher.Base.Text.Split.{split-cons}
use birdwatcher.Kv.Client.{
  Pair, Sorted, from_key, keys_only, in_range, EtcdClient, IsEtcd, Answers, get-answer,
}
use birdwatcher.Kv.Client.Pairs.{
  select-agree, select-select, Sorted-select, All-select, length-select, select_whole,
  select_passing, list_cases,
}
use birdwatcher.Kv.Client.Pages.{and_of}
use birdwatcher.Kv.Paths.{slash, nonempties}
use birdwatcher.Kv.Etcd.{first_part, add_app, root_page, root_path_loop, get_all_root_path}

-- The part of a key before its first slash.
unfoldable pub name_of : List ℕ → List ℕ
unfolding split
name_of key = first_part (split slash key)

abbrev pub has_slash : List ℕ → Bool
has_slash [] = false
has_slash (c ∷ cs) = (c == slash) || has_slash cs

-- Each element once, where it stands first.
abbrev pub distinct : List (List ℕ) → List (List ℕ)
distinct [] = []
distinct (x ∷ xs) = x ∷ select (λ y. not (same_text x y)) (distinct xs)

abbrev pub names_of : List Pair → List (List ℕ)
names_of [] = []
names_of (p ∷ ps) = name_of p.key ∷ names_of ps

name_of-cons :
    (c : ℕ) (cs : List ℕ) → name_of (c ∷ cs) ≡ (if c == slash then [] else c ∷ name_of cs)
unfolding name_of split
name_of-cons c cs = elim (Bool-cases (c == slash)) [
  | inl e ↦ rw e
  | inr e ↦ let (part, parts, f) = split-cons slash cs in rw (e, f)
]

name_of_no_slash : (key : List ℕ) → has_slash (name_of key) ≡ false
unfolding name_of split
name_of_no_slash [] = refl
name_of_no_slash (c ∷ cs) = rw (name_of-cons c cs) (ground (arith, name_of_no_slash cs))

has_prefix_name :
    (name key : List ℕ)
    → has_slash name ≡ false
    → has_slash key ≡ true
    → has_prefix (name ++ (slash ∷ [])) key ≡ same_text name (name_of key)
has_prefix_name [] [] h k = absurd (cc)
has_prefix_name [] (c ∷ cs) h k = rw (name_of-cons c cs) (ground arith)
has_prefix_name (d ∷ name) [] h k = absurd (cc)
has_prefix_name (d ∷ name) (c ∷ cs) h k =
    rw (name_of-cons c cs) (ground (arith, has_prefix_name name cs))

select_text_comm :
    (p q : List ℕ → Bool) (xs : List (List ℕ)) → select p (select q xs) ≡ select q (select p xs)
select_text_comm p q [] = refl
select_text_comm p q (x ∷ xs) = elim (Bool-cases (p x)) [
  | inl e ↦ ground (arith, e, select_text_comm p q xs)
  | inr e ↦ ground (arith, e, select_text_comm p q xs)
]

select_text_twice : (p : List ℕ → Bool) (xs : List (List ℕ)) → select p (select p xs) ≡ select p xs
select_text_twice p [] = refl
select_text_twice p (x ∷ xs) = ground (arith, select_text_twice p xs)

-- Names other than one, without repetition.
distinct-select :
    (x : List ℕ) (ps : List Pair)
    → distinct (names_of (select (λ (p : Pair). not (same_text x (name_of p.key))) ps))
      ≡ select (λ y. not (same_text x y)) (distinct (names_of ps))
distinct-select x [] = refl
distinct-select x (p ∷ ps) = elim (Bool-cases (same_text x (name_of p.key))) [
  | inl e ↦
      rw (e, distinct-select x ps)
        (subst
          (λ n.
            select (λ y. not (same_text x y)) (distinct (names_of ps))
            ≡ select (λ y. not (same_text x y))
                (select (λ y. not (same_text n y)) (distinct (names_of ps))))
          ((same_text_iff x (name_of p.key)).0 e)
          (sym (select_text_twice (λ y. not (same_text x y)) (distinct (names_of ps)))))
  | inr e ↦
      rw (e, distinct-select x ps)
        (ap (◌∷◌ (name_of p.key)) (select_text_comm _ _ (distinct (names_of ps))))
]

-- A key with a slash stands between its first part with the slash, and with the byte after it.
has_prefix_self :
    (key : List ℕ) → has_slash key ≡ true → has_prefix (name_of key ++ (slash ∷ [])) key ≡ true
has_prefix_self key h =
    has_prefix_name (name_of key) key (name_of_no_slash key) h ∙ same_text_self (name_of key)

at_least_name :
    (key k : List ℕ)
    → has_slash key ≡ true
    → has_slash k ≡ true
    → at_least k key ≡ true
    → at_least k (name_of key ++ (48 ∷ [])) ≡ not (same_text (name_of key) (name_of k))
at_least_name key k a b h =
    at_least-next (name_of key) k slash
      (at_least_trans _ key k (has_prefix-at_least _ key (has_prefix_self key a)) h)
    ∙ ap not (has_prefix_name (name_of key) k (name_of_no_slash key) b)

not_inj : (a b : Bool) → not a ≡ not b → a ≡ b
not_inj true true h = refl
not_inj true false h = cc
not_inj false true h = cc
not_inj false false h = refl

own_name : (key : List ℕ) → has_slash key ≡ true → at_least key (name_of key ++ (48 ∷ [])) ≡ false
own_name key a =
    at_least_name key key a a (ap not (before_irrefl key)) ∙ ap not (same_text_self (name_of key))

next_above : (key : List ℕ) → has_slash key ≡ true → at_least (name_of key ++ (48 ∷ [])) key ≡ true
next_above key a =
    ap not (before_asym key (name_of key ++ (48 ∷ [])) (not_inj _ true (own_name key a)))

-- The state of the loop: behind the page of one pair, the pairs under other first parts are left.
rest_behind :
    (p : Pair) (current : List ℕ) (ps all : List Pair)
    → All (λ (q : Pair). has_slash q.key ≡ true) all
    → Sorted all
    → select (λ (q : Pair). at_least q.key current) all ≡ p ∷ ps
    → select (λ (q : Pair). at_least q.key (name_of p.key ++ (48 ∷ []))) all
      ≡ select (λ (q : Pair). not (same_text (name_of p.key) (name_of q.key))) ps
rest_behind p current ps all h s e =
    let name = name_of p.key in
    let (a, b) = subst (All (λ (q : Pair). has_slash q.key ≡ true)) e (All-select _ _ all h) in
    let (c, d) = subst Sorted e (Sorted-select _ all s) in
    let (f, g) =
      subst (All (λ (q : Pair). at_least q.key current ≡ true)) e (select_passing _ all) in
    let next = at_least_trans current p.key (name ++ (48 ∷ [])) f (next_above p.key a) in
    select-agree _ _ all (
      All-every (λ (q : Pair). and_of _ _ (at_least_trans current (name ++ (48 ∷ [])) q.key next))
        all)
    ∙ select-select (λ (q : Pair). at_least q.key (name ++ (48 ∷ []))) _ all
    ∙ ap (select (λ (q : Pair). at_least q.key (name ++ (48 ∷ [])))) e
    ∙ rw (own_name p.key a) (
        select-agree _ _ ps (
          All-map₂
            (λ (q : Pair) k l. at_least_name p.key q.key a k (ap not (before_asym p.key q.key l)))
            ps b c))

more : (q : Pair) (qs ps : List Pair) → ps ≡ q ∷ qs → ltb 1 (suc (length ps)) ≡ true
more q qs ps e = rw e (lt→ltb 1 (suc (suc (length qs))) (omega arith))

-- No key comes before the empty one.
not_before_empty : (k : List ℕ) → at_least k [] ≡ true
not_before_empty [] = refl
not_before_empty (c ∷ cs) = refl

add_app-nonempties :
    (apps names : List (List ℕ)) (name : List ℕ)
    → add_app apps name ++ nonempties names ≡ apps ++ nonempties (name ∷ names)
add_app-nonempties apps names [] = refl
add_app-nonempties apps names (c ∷ cs) = append_assoc apps ((c ∷ cs) ∷ []) (nonempties names)

module _ (C : EtcdClient) (root_path : List ℕ) (E : IsEtcd C) (s : C.Store) (h : Answers C s)
    (slashes : All (λ (p : Pair). has_slash p.key ≡ true) (C.pairs s)) where
  abbrev rest : List ℕ → List Pair
  rest current = in_range C.ends current from_key (C.pairs s)

  whole_range : (ps : List Pair) → select (λ (p : Pair). at_least p.key []) ps ≡ ps
  whole_range ps = select_whole _ ps (All-every (λ (p : Pair). not_before_empty p.key) ps)

  root_path_loop-rest :
      (fuel : ℕ) (apps : List (List ℕ)) (current : List ℕ)
      → length (rest current) < fuel
      → root_path_loop C root_path fuel apps current s
        ≡ ok (apps ++ nonempties (distinct (names_of (rest current))))
  unfolding root_path_loop root_page name_of
  root_path_loop-rest zero apps current l = absurd (omega arith)
  root_path_loop-rest (suc fuel) apps current l =
      rw
        (get-answer C E s h
          (record { key = current; range = from_key; limit = 1; content = keys_only }))
        (elim (list_cases (rest current)) [
          | inl e ↦ rw e (ap ok (sym (append-nil apps)))
          | inr e ↦
              let (p, ps, e) = e in
              elim (list_cases ps) [
                | inl f ↦
                    rw (e, f)
                      (ap ok (sym (append-nil _) ∙ add_app-nonempties apps [] (name_of p.key)))
                | inr f ↦
                    let (q, qs, f) = f in
                    rw (e, more q qs ps f)
                      (root_path_loop-rest fuel (add_app apps (name_of p.key))
                          (name_of p.key ++ (48 ∷ []))
                          (omega (
                            arith,
                            l,
                            ap length e,
                            ap length
                                (rest_behind p current ps (C.pairs s) slashes (E.pairs-Sorted s) e),
                            length-select
                                (λ (q : Pair). not (same_text (name_of p.key) (name_of q.key))) ps,
                          ))
                        ∙ ap ok (
                            ap (λ zs. add_app apps (name_of p.key) ++ nonempties zs)
                              (ap (λ zs. distinct (names_of zs))
                                  (rest_behind p current ps (C.pairs s) slashes (E.pairs-Sorted s)
                                    e)
                                ∙ distinct-select (name_of p.key) ps)
                            ∙ add_app-nonempties apps
                                (select (λ y. not (same_text (name_of p.key) y))
                                  (distinct (names_of ps)))
                                (name_of p.key)))
              ]
        ])

  -- GetAllRootPath of etcd that answers, in which each key has a slash, gives the first parts
  -- of all keys but the empty one, each once and in the order of the keys, with more fuel than
  -- there are pairs.
  pub get_all_root_path_names :
      (fuel : ℕ)
      → length (C.pairs s) < fuel
      → get_all_root_path C root_path fuel s ≡ ok (nonempties (distinct (names_of (C.pairs s))))
  unfolding get_all_root_path
  get_all_root_path_names fuel l =
      subst
        (λ zs. root_path_loop C root_path fuel [] [] s ≡ ok (nonempties (distinct (names_of zs))))
        (whole_range (C.pairs s))
        (root_path_loop-rest fuel [] [] (omega (arith, l, ap length (whole_range (C.pairs s)))))
