-- ===== src/Wal/TxnBuffer/Expiry.antt =====
-- What clearing the expired transactions leaves.
use mathlib.Core.List.{Permᴰ}
use birdwatcher.Base.{
  ℕ, ◌≡◌, refl, ◌∙◌, Option, none, some, List, [], ◌∷◌, leb, if◌then◌else◌, arith,
}
use birdwatcher.Base.Perms.{All-perm}
use birdwatcher.Base.Dict.{lookup, Distinct, lookup-delete, Listed, Listed-self, Perm-same}
use birdwatcher.Wal.Message.{TxnBuilders}
use birdwatcher.Wal.TxnBuffer.{TxnBuffer, clear_entry, clear_loop}
use birdwatcher.Wal.TxnBuffer.Accounting.{IsValid, Listed-clear_entry}

module _ (T : TxnBuilders) where
  -- A builder that has not expired at `ts`.
  abbrev pub unexpired : ℕ → Option T.Builder → Option T.Builder
  unexpired ts none = none
  unexpired ts (some builder) = if leb (T.expired_time_tick builder) ts then none else some builder

  abbrev cleared : ℕ → Option T.Builder → Option T.Builder → Option T.Builder
  cleared ts none held = held
  cleared ts (some builder) held = unexpired ts (some builder)

  cleared_self : (ts : ℕ) (o : Option T.Builder) → cleared ts o o ≡ unexpired ts o
  cleared_self ts none = refl
  cleared_self ts (some builder) = refl

  clear_entry-lookup :
      (ts k id : ℕ) (builder : T.Builder) (es : List (ℕ × T.Builder)) (b : TxnBuffer T)
      → lookup id es ≡ none
      → lookup id b.builders ≡ some builder
      → cleared ts (lookup k es) (lookup k (clear_entry T ts b (id, builder)).builders)
        ≡ cleared ts (lookup k ((id, builder) ∷ es)) (lookup k b.builders)
  unfolding clear_entry
  clear_entry-lookup ts k id builder es b n l = ground (arith, lookup-delete id k b.builders)

  lookup-cleared :
      (ts k : ℕ) (es : List (ℕ × T.Builder)) (b : TxnBuffer T)
      → Distinct es
      → Listed b.builders es
      → lookup k (clear_loop T ts es b).builders ≡ cleared ts (lookup k es) (lookup k b.builders)
  unfolding clear_loop
  lookup-cleared ts k [] b d l = refl
  lookup-cleared ts k ((id, builder) ∷ es) b (n, d) (l, ls) =
      lookup-cleared ts k es (clear_entry T ts b (id, builder)) d
        (Listed-clear_entry T ts b id builder es n ls)
      ∙ clear_entry-lookup ts k id builder es b n l

  -- Clearing drops exactly the expired transactions, in whatever order the loop ranges over the
  -- map.
  pub clear_loop-lookup :
      (ts k : ℕ) (es : List (ℕ × T.Builder)) (b : TxnBuffer T)
      → IsValid T b
      → Permᴰ b.builders es
      → lookup k (clear_loop T ts es b).builders ≡ unexpired ts (lookup k b.builders)
  clear_loop-lookup ts k es b v p =
      let (d, same) = Perm-same p v.distinct in
      lookup-cleared ts k es b d (All-perm _ p (Listed-self b.builders v.distinct))
      ∙ rw (← same k) (cleared_self ts (lookup k b.builders))
