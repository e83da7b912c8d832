-- ===== src/Wal/Typeutil.antt =====
-- The containers that the buffers take from milvus/pkg/util/typeutil, as interfaces: a set of
-- strings, a heap of messages by time tick, and a queue. Each law is documented behaviour.
use Prim.Native.String.{String}
use mathlib.Core.List.{Permᴰ}
use text.Mathlib.Text.{◌==◌ as str_eq}
use birdwatcher.Base.{
  ℕ, ◌≤◌, ◌≡◌, Bool, false, not, ◌&&◌, ◌||◌, Option, none, some, List, [], ◌∷◌, ◌++◌, length, All,
}
use birdwatcher.Wal.Message.{Message}

-- typeutil.Set[string].
pub record StringSet : Type 1 where
  pub Set : Type 0
  pub empty : Set
  pub contain : String → Set → Bool
  pub insert : String → Set → Set
  pub remove : String → Set → Set
  pub contain-empty : (k : String) → contain k empty ≡ false
  pub contain-insert :
      (k j : String) (s : Set) → contain k (insert j s) ≡ (str_eq j k || contain k s)
  pub contain-remove :
      (k j : String) (s : Set) → contain k (remove j s) ≡ (not (str_eq j k) && contain k s)

-- typeutil.Heap over immutableMessageHeap. `contents` is the bag of what it holds, in some order.
-- `pop` is Peek and Pop: both show the same message, one of the least time tick.
pub record MessageHeap : Type 1 where
  pub Heap : Type 0
  pub empty : Heap
  pub len : Heap → ℕ
  pub push : Heap → Message → Heap
  pub pop : Heap → Option (Message × Heap)
  pub contents : Heap → List Message
  pub contents-empty : contents empty ≡ []
  pub len-contents : (h : Heap) → len h ≡ length (contents h)
  pub contents-push : (h : Heap) (m : Message) → Permᴰ (contents (push h m)) (m ∷ contents h)
  pub pop_none : (h : Heap) → pop h ≡ none → contents h ≡ []
  pub pop_some :
      (h : Heap) (m : Message) (rest : Heap)
      → pop h ≡ some (m, rest)
      → Permᴰ (contents h) (m ∷ contents rest)
        × All (λ (x : Message). m.tick ≤ x.tick) (contents rest)

-- typeutil.MultipartQueue: first in, first out. Next shows the front, UnsafeAdvance drops it.
pub record MessageQueue : Type 1 where
  pub Queue : Type 0
  pub empty : Queue
  pub len : Queue → ℕ
  pub add : Queue → List Message → Queue
  pub add_one : Queue → Message → Queue
  pub next : Queue → Option Message
  pub unsafe_advance : Queue → Queue
  pub to_list : Queue → List Message
  pub to_list-empty : to_list empty ≡ []
  pub len-to_list : (q : Queue) → len q ≡ length (to_list q)
  pub to_list-add : (q : Queue) (ms : List Message) → to_list (add q ms) ≡ to_list q ++ ms
  pub to_list-add_one : (q : Queue) (m : Message) → to_list (add_one q m) ≡ to_list q ++ (m ∷ [])
  pub next_none : (q : Queue) → next q ≡ none → to_list q ≡ []
  pub next_some :
      (q : Queue) (m : Message) → next q ≡ some m → to_list q ≡ m ∷ to_list (unsafe_advance q)
