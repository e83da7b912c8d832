-- ===== src/Storage/Tasks/Filtering.antt =====
-- The scan of filtered entries is the task on the entries that match.
use birdwatcher.Base.{
  ℕ, ◌≡◌, inl, inr, refl, ◌∙◌, ap, Bool, false, none, some, List, [], ◌∷◌, leb, if◌then◌else◌,
  Result, ok, fail, panic, ◌>>=◌, All, select, Bool-cases, arith,
}
use birdwatcher.Storage.PrimaryKey.{PrimaryKey}
use birdwatcher.Storage.Tasks.{Entry, deletion_ts, deltalog_match, filter_loop, scan, scan_all}

-- The task alone, until its first error.
abbrev pub run_task {ℓ} :
    {S : Type ℓ} → (S → PrimaryKey → Result (Unit {0}) S) → S → List Entry → Result (Unit {0}) S
run_task task s [] = ok s
run_task task s (entry ∷ entries) = task s entry.pk >>= λ s'. run_task task s' entries

abbrev pub HasTs : Entry → Type 0
HasTs entry = (ts : ℕ) × (entry.ts ≡ some ts)

-- Whether an entry is newer than its deletion, or as old.
abbrev pub outlives : List (PrimaryKey × ℕ) → Entry → Bool
outlives deletions entry = elim entry.ts [
  | none ↦ false
  | some ts ↦ leb (deletion_ts deletions entry.pk) ts
]

>>=_agree {ℓ} :
    {A B : Type ℓ} (m : Result (Unit {0}) A) {f g : A → Result (Unit {0}) B}
    → ((a : A) → f a ≡ g a)
    → (m >>= f) ≡ (m >>= g)
>>=_agree (ok a) same = same a
>>=_agree (fail e) same = refl
>>=_agree panic same = refl

>>=_of_eq {ℓ} :
    {A B : Type ℓ} {m n : Result (Unit {0}) A} (f : A → Result (Unit {0}) B)
    → m ≡ n
    → (m >>= f) ≡ (n >>= f)
>>=_of_eq f e = ap (λ r. r >>= f) e

module _ {ℓ} {S : Type ℓ} (task : S → PrimaryKey → Result (Unit {0}) S)
    (deletions : List (PrimaryKey × ℕ)) where
  scan-outlives :
      (s : S) (entry : Entry)
      → HasTs entry
      → scan (deltalog_match deletions ∷ []) task s entry
        ≡ (if outlives deletions entry then task s entry.pk else ok s)
  unfolding scan filter_loop deltalog_match
  scan-outlives s entry (ts, e) = ground (arith, e)

  -- With the filter of a delta log, and a timestamp on every entry, a scan is the task on the
  -- entries whose key is not deleted after them, in order.
  pub scan_all-select :
      (s : S) (entries : List Entry)
      → All HasTs entries
      → scan_all (deltalog_match deletions ∷ []) task s entries
        ≡ run_task task s (select (outlives deletions) entries)
  unfolding scan_all
  scan_all-select s [] h = refl
  scan_all-select s (entry ∷ entries) (h, hs) =
      >>=_of_eq _ (scan-outlives s entry h) ∙ elim (Bool-cases (outlives deletions entry)) [
        | inl o ↦ rw o (>>=_agree (task s entry.pk) (λ s'. scan_all-select s' entries hs))
        | inr o ↦ rw o (scan_all-select s entries hs)
      ]
