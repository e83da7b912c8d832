-- ===== src/Mq/Bounds.antt =====
-- mq/msg.go: the first and the last timestamp that Unmarshal gives a message.
use birdwatcher.Base.{
  ℕ, ◌≤◌, ◌≡◌, ◌≢◌, refl, Bool, true, false, inl, inr, ◌⊎◌, List, [], ◌∷◌, All, ltb, arith, Option,
  some, ok, if◌then◌else◌,
}
use birdwatcher.Mq.{InsertRequest, Decoded, insert_unmarshal, widen, timestamp_bounds}

-- Each value lies between the bounds.
abbrev pub Within : ℕ × ℕ → List ℕ → Type 0
Within bounds tss = All (λ ts. (bounds.0 ≤ ts) × (ts ≤ bounds.1)) tss

-- A value of the list.
abbrev pub Occurs : ℕ → List ℕ → Type 0
Occurs a [] = ⊥
Occurs a (ts ∷ tss) = (a ≡ ts) ⊎ Occurs a tss

widen_grows : (b : ℕ × ℕ) (tss : List ℕ) → ((widen b tss).0 ≤ b.0) × (b.1 ≤ (widen b tss).1)
widen_grows (begin, end) [] = (omega arith, omega arith)
widen_grows (begin, end) (ts ∷ tss) =
    let r = widen_grows (if ltb ts begin then ts else begin, if ltb end ts then ts else end) tss in
    (ground arith, ground arith)

widen-Within : (b : ℕ × ℕ) (tss : List ℕ) → Within (widen b tss) tss
widen-Within (begin, end) [] = tt
widen-Within (begin, end) (ts ∷ tss) =
    let b : ℕ × ℕ = (if ltb ts begin then ts else begin, if ltb end ts then ts else end) in
    let r = widen_grows b tss in ((ground arith, ground arith), widen-Within b tss)

keep_or_take :
    (b : Bool) (x a ts : ℕ) {O : Type 0}
    → (x ≡ (if b then ts else a)) ⊎ O
    → (x ≡ a) ⊎ ((x ≡ ts) ⊎ O)
keep_or_take true x a ts (inl e) = inr (inl e)
keep_or_take false x a ts (inl e) = inl e
keep_or_take b x a ts (inr o) = inr (inr o)

widen-Occurs :
    (b : ℕ × ℕ) (tss : List ℕ)
    → (((widen b tss).0 ≡ b.0) ⊎ Occurs (widen b tss).0 tss)
      × (((widen b tss).1 ≡ b.1) ⊎ Occurs (widen b tss).1 tss)
widen-Occurs (begin, end) [] = (inl refl, inl refl)
widen-Occurs (begin, end) (ts ∷ tss) =
    let b : ℕ × ℕ = (if ltb ts begin then ts else begin, if ltb end ts then ts else end) in
    let r = widen-Occurs b tss in
    (
      keep_or_take (ltb ts begin) (widen b tss).0 begin ts r.0,
      keep_or_take (ltb end ts) (widen b tss).1 end ts r.1,
    )

first_or_Occurs : (x ts : ℕ) (tss : List ℕ) → (x ≡ ts) ⊎ Occurs x (ts ∷ tss) → Occurs x (ts ∷ tss)
first_or_Occurs x ts tss (inl e) = inl e
first_or_Occurs x ts tss (inr o) = o

timestamp_bounds_lem :
    (ts : ℕ) (tss : List ℕ)
    → let bounds = timestamp_bounds (ts ∷ tss) in
      Within bounds (ts ∷ tss) × Occurs bounds.0 (ts ∷ tss) × Occurs bounds.1 (ts ∷ tss)
unfolding timestamp_bounds
timestamp_bounds_lem ts tss =
    let o = widen-Occurs (ts, ts) (ts ∷ tss) in
    (widen-Within (ts, ts) (ts ∷ tss), first_or_Occurs _ ts tss o.0, first_or_Occurs _ ts tss o.1)

bounds_lem :
    (tss : List ℕ)
    → tss ≢ []
    → let bounds = timestamp_bounds tss in
      Within bounds tss × Occurs bounds.0 tss × Occurs bounds.1 tss
bounds_lem [] nonempty = absurd (nonempty refl)
bounds_lem (ts ∷ tss) nonempty = timestamp_bounds_lem ts tss

-- `msg` has the least and the greatest of the timestamps.
abbrev pub HasBounds : Decoded InsertRequest → List ℕ → Type 0
HasBounds msg tss =
    Within (msg.begin_timestamp, msg.end_timestamp) tss
    × Occurs msg.begin_timestamp tss
    × Occurs msg.end_timestamp tss

-- An insert request with a timestamp that is decoded is unmarshalled as it is, with the least
-- of its timestamps as the first and the greatest as the last.
pub insert_unmarshal-timestamps :
    (decode : List ℕ → Option InsertRequest) (bytes : List ℕ) (r : InsertRequest)
    → decode bytes ≡ some r
    → r.timestamps ≢ []
    → (msg : Decoded InsertRequest) × (insert_unmarshal decode (some bytes) ≡ ok msg)
      × (msg.request ≡ r)
      × HasBounds msg r.timestamps
unfolding insert_unmarshal
insert_unmarshal-timestamps decode bytes r e nonempty =
    let b = bounds_lem r.timestamps nonempty in
    (
      record {
        request = r;
        begin_timestamp = (timestamp_bounds r.timestamps).0;
        end_timestamp = (timestamp_bounds r.timestamps).1;
      },
      rw (insert_unmarshal, e) refl,
      refl,
      b,
    )
