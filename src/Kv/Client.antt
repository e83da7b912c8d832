-- ===== src/Kv/Client.antt =====
-- The client of etcd, as its documentation describes the calls that states/kv/kv.go makes. A store is
-- seen through its pairs, in the order of their keys.
pub mod Pairs
pub mod Pages
use birdwatcher.Base.{
  ℕ, ◌+◌, ◌^◌, ◌≡◌, ◌∙◌, ap, Bool, true, false, not, ◌&&◌, Option, none, some, List, [], ◌∷◌,
  length, take, select, ltb, ◌==◌, if◌then◌else◌, All,
}
use birdwatcher.Base.Text.{same_text, before, at_least, has_prefix}

-- mvccpb.KeyValue, without its revisions.
pub record Pair : Type 0 where
  pub key : List ℕ
  pub value : List ℕ

-- Every key comes before those behind it.
abbrev pub Sorted : List Pair → Type 0
Sorted [] = Unit
Sorted (p ∷ ps) = All (λ (q : Pair). before p.key q.key ≡ true) ps × Sorted ps

-- Which keys a call is about: the key given, those that start with it (WithPrefix), those not before
-- it (WithFromKey), or those from it up to the end of the range of a prefix
-- (WithRange and GetPrefixRangeEnd).
pub data Range : Type 0 where
  single with_prefix from_key : Range
  to_prefix_end : List ℕ → Range

-- What a Get returns of the pairs: all, WithKeysOnly, or WithCountOnly.
pub data Content : Type 0 where
  whole keys_only count_only : Content

-- A limit of 0 is none.
pub record Request : Type 0 where
  pub key : List ℕ
  pub range : Range
  pub limit : ℕ
  pub content : Content

-- Of a Get: the pairs, the number of keys in the range, and whether the limit left some out.
pub record Response : Type 0 where
  pub kvs : List Pair
  pub count : ℕ
  pub more : Bool

-- GetPrefixRangeEnd, as a test: whether a key comes before the end of a prefix's range.
pub record RangeEnd : Type 0 where
  pub before_end : List ℕ → List ℕ → Bool
  pub before_end_lem : (p k : List ℕ) → at_least k p ≡ true → before_end p k ≡ has_prefix p k

abbrev pub covers : RangeEnd → List ℕ → Range → List ℕ → Bool
covers E key single k = same_text key k
covers E key with_prefix k = has_prefix key k
covers E key from_key k = at_least k key
covers E key (to_prefix_end p) k = at_least k key && E.before_end p k

-- The pairs that a call is about.
abbrev pub in_range : RangeEnd → List ℕ → Range → List Pair → List Pair
in_range E key range = select λ (p : Pair). covers E key range p.key

abbrev pub limited : ℕ → List Pair → List Pair
limited limit ps = if limit == 0 then ps else take limit ps

abbrev pub exceeds : ℕ → List Pair → Bool
exceeds limit ps = if limit == 0 then false else ltb limit (length ps)

abbrev pub without_values : List Pair → List Pair
without_values [] = []
without_values (p ∷ ps) = record p { value = [] } ∷ without_values ps

abbrev pub returned : Content → List Pair → List Pair
returned whole ps = ps
returned keys_only ps = without_values ps
returned count_only ps = []

-- The documented answer to a Get.
abbrev pub answer : RangeEnd → List Pair → Request → Response
answer E ps r = record {
  kvs = returned r.content (limited r.limit (in_range E r.key r.range ps));
  count = length (in_range E r.key r.range ps);
  more = exceeds r.limit (in_range E r.key r.range ps);
}

-- A Put, on the pairs in order.
abbrev pub put_pair : List ℕ → List ℕ → List Pair → List Pair
put_pair k v [] = record { key = k; value = v } ∷ []
put_pair k v (p ∷ ps) =
    let rest = put_pair k v ps in
    if before k p.key
    then record { key = k; value = v } ∷ p ∷ ps
    else if same_text k p.key
    then record { key = k; value = v } ∷ ps
    else p ∷ rest

abbrev pub put_pairs : List Pair → List Pair → List Pair
put_pairs [] ps = ps
put_pairs (q ∷ qs) ps = put_pairs qs (put_pair q.key q.value ps)

-- The calls; `none` is an error of the client or the service.
pub record EtcdClient : Type 1 where
  pub Store : Type 0
  pub ends : RangeEnd
  pub pairs : Store → List Pair
  pub get : Store → Request → Option Response
  pub put : Store → List ℕ → List ℕ → Option Store
  pub put_all : Store → List Pair → Option Store
  pub delete : Store → List ℕ → Range → Option (List Pair × Store)

-- What the calls do when they succeed.
pub record IsEtcd (C : EtcdClient) : Type 0 where
  pub pairs-Sorted : (s : C.Store) → Sorted (C.pairs s)
  pub get_lem :
      (s : C.Store) (r : Request) (a : Response)
      → C.get s r ≡ some a
      → a ≡ answer C.ends (C.pairs s) r
  pub put_lem :
      (s t : C.Store) (k v : List ℕ) → C.put s k v ≡ some t → C.pairs t ≡ put_pair k v (C.pairs s)
  pub put_all_lem :
      (s t : C.Store) (qs : List Pair)
      → C.put_all s qs ≡ some t
      → C.pairs t ≡ put_pairs qs (C.pairs s)
  pub delete_lem :
      (s t : C.Store) (key : List ℕ) (range : Range) (prev : List Pair)
      → C.delete s key range ≡ some (prev, t)
      → (prev ≡ in_range C.ends key range (C.pairs s))
        × (C.pairs t ≡ select (λ (p : Pair). not (covers C.ends key range p.key)) (C.pairs s))

-- Each Get of a store succeeds.
abbrev pub Answers : (C : EtcdClient) → C.Store → Type 0
Answers C s = (r : Request) → (a : Response) × (C.get s r ≡ some a)

pub get-answer :
    (C : EtcdClient)
    → IsEtcd C
    → (s : C.Store) → Answers C s
    → (r : Request) → C.get s r ≡ some (answer C.ends (C.pairs s) r)
get-answer C E s h r = let (a, e) = h r in e ∙ ap some (E.get_lem s r a e)
