-- ===== src/Wal/Reference.antt =====
-- Plain containers and a plain builder that meet the interfaces: they show that the assumptions can
-- hold together, and run in the tests.
use Prim.Native.String.{String}
use mathlib.Core.List.{Permᴰ}
use mathlib.Core.List.Permᴰ
use text.Mathlib.Text.{◌==◌ as str_eq}
use text.Mathlib.TextEquality.{eq_iff}
use birdwatcher.Base.{
  ℕ, ◌+◌, ◌≤◌, ◌≡◌, refl, inl, inr, Bool, true, false, not, ◌&&◌, ◌||◌, Option, none, some, List,
  [], ◌∷◌, ◌++◌, leb, leb→le, leb→lt, if◌then◌else◌, length, All, All-map, Bool-cases, arith,
  some-inj,
}
use birdwatcher.Base.Perms.{All-perm, sum_by}
use birdwatcher.Wal.Message.{Message, TxnBuilders}
use birdwatcher.Wal.Typeutil.{StringSet, MessageHeap, MessageQueue}
use birdwatcher.Wal.Scanner.{Parts}
use mathlib.Core.Path.{subst}

abbrev contain : String → List String → Bool
contain k [] = false
contain k (j ∷ s) = str_eq j k || contain k s

abbrev remove : String → List String → List String
remove k [] = []
remove k (j ∷ s) = if str_eq j k then remove k s else j ∷ remove k s

pub contain-remove :
    (k j : String) (s : List String) → contain k (remove j s) ≡ (not (str_eq j k) && contain k s)
contain-remove k j [] = ground arith
contain-remove k j (i ∷ s) =
    ground (arith, eq_iff i j, eq_iff j k, eq_iff i k, contain-remove k j s)

abbrev pub list_set : StringSet
list_set = record {
  Set = List String;
  empty = [];
  contain = contain;
  insert = λ k s. k ∷ s;
  remove = remove;
  contain-empty = λ k. refl;
  contain-insert = λ k j s. refl;
  contain-remove = contain-remove;
}

-- The first message of the least time tick, and the others.
abbrev extract : Message → List Message → Message × List Message
extract m [] = (m, [])
extract m (x ∷ xs) =
    let (y, ys) = extract x xs in if leb m.tick y.tick then (m, x ∷ xs) else (y, m ∷ ys)

abbrev IsLeast : Message → List Message → Message × List Message → Type 0
IsLeast m xs (y, ys) = Permᴰ (m ∷ xs) (y ∷ ys) × All (λ (x : Message). y.tick ≤ x.tick) ys

extract-IsLeast : (m : Message) (xs : List Message) → IsLeast m xs (extract m xs)
extract-IsLeast m [] = (Permᴰ.refl _, tt)
extract-IsLeast m (x ∷ xs) =
    let (y, ys) = extract x xs in
    let (p, l) = extract-IsLeast x xs in
    elim (Bool-cases (leb m.tick y.tick)) [
      | inl le ↦ rw le (
        Permᴰ.refl _,
        All-perm _ (Permᴰ.symm p) (leb→le _ _ le, All-map (λ z h. ground (arith)) ys l),
      )
      | inr gt ↦ rw gt (
        Permᴰ.trans (Permᴰ.cons refl p) (Permᴰ.swap refl refl),
        (omega (arith, leb→lt _ _ gt), l),
      )
    ]

abbrev pop : List Message → Option (Message × List Message)
pop [] = none
pop (m ∷ ms) = some (extract m ms)

pub pop_none : (h : List Message) → pop h ≡ none → h ≡ []
pop_none [] e = refl
pop_none (m ∷ ms) e = cc

pub pop_some :
    (h : List Message) (m : Message) (rest : List Message)
    → pop h ≡ some (m, rest)
    → Permᴰ h (m ∷ rest) × All (λ (x : Message). m.tick ≤ x.tick) rest
pop_some [] m rest e = absurd (cc)
pop_some (x ∷ xs) m rest e = subst (IsLeast x xs) (some-inj e) (extract-IsLeast x xs)

abbrev pub list_heap : MessageHeap
list_heap = record {
  Heap = List Message;
  empty = [];
  len = length;
  push = λ h m. m ∷ h;
  pop = pop;
  contents = λ h. h;
  contents-empty = refl;
  len-contents = λ h. refl;
  contents-push = λ h m. Permᴰ.refl _;
  pop_none = pop_none;
  pop_some = pop_some;
}

abbrev next : List Message → Option Message
next [] = none
next (m ∷ ms) = some m

abbrev tail : List Message → List Message
tail [] = []
tail (m ∷ ms) = ms

pub next_none : (q : List Message) → next q ≡ none → q ≡ []
next_none [] e = refl
next_none (m ∷ ms) e = cc

pub next_some : (q : List Message) (m : Message) → next q ≡ some m → q ≡ m ∷ tail q
next_some [] m e = absurd (cc)
next_some (x ∷ xs) m e = cc

abbrev pub list_queue : MessageQueue
list_queue = record {
  Queue = List Message;
  empty = [];
  len = length;
  add = ◌++◌;
  add_one = λ q m. q ++ (m ∷ []);
  next = next;
  unsafe_advance = tail;
  to_list = λ q. q;
  to_list-empty = refl;
  len-to_list = λ q. refl;
  to_list-add = λ q ms. refl;
  to_list-add_one = λ q m. refl;
  next_none = next_none;
  next_some = next_some;
}

-- A builder that lists its messages, the latest first, and expires 100 ticks after the latest.
pub record ListBuilder : Type 0 where
  pub latest : Message
  pub earlier : List Message

abbrev builder_size : ListBuilder → ℕ
builder_size b = b.latest.estimate_size + sum_by (λ (m : Message). m.estimate_size) b.earlier

abbrev list_build : ListBuilder → Message → Option Message
list_build b commit = some (record commit { estimate_size = builder_size b })

pub list_build-tick :
    (b : ListBuilder) (commit : Message) {m : Message}
    → list_build b commit ≡ some m
    → m.tick ≡ commit.tick
list_build-tick b commit {m} e = subst (λ (x : Message). x.tick ≡ commit.tick) (some-inj e) refl

abbrev pub list_builders : TxnBuilders
list_builders = record {
  Builder = ListBuilder;
  decodes = λ m. true;
  new_builder = λ m. record { latest = m; earlier = [] };
  add = λ b m. record { latest = m; earlier = b.latest ∷ b.earlier };
  estimate_size = builder_size;
  expired_time_tick = λ b. b.latest.tick + 100;
  build = list_build;
  estimate_size-new_builder = λ m. omega arith;
  estimate_size-add = λ b m. omega arith;
  tick-build = list_build-tick;
}

abbrev pub list_parts : Parts
list_parts = record {
  heaps = list_heap;
  sets = list_set;
  txns = list_builders;
  queues = list_queue;
}
