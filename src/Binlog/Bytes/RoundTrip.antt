-- ===== src/Binlog/Bytes/RoundTrip.antt =====
-- Fields that are written are read back, and bytes that are read are written again.
use birdwatcher.Base.{
  ℕ, zero, suc, ◌+◌, ◌*◌, ◌/◌, ◌%◌, ◌^◌, ◌<◌, ◌≤◌, ◌≡◌, ◌≢◌, refl, sym, ◌∙◌, ap, List, [], ◌∷◌,
  ◌++◌, length, length-append, take, drop, All, Bool-cases, leb→le, leb→lt, ◌⊎◌, inl, inr, leb,
  le→leb, true, Result, ok, fail, >>=_of_ok, >>=_of_fail, arith,
}
use birdwatcher.Binlog.Bytes.{
  ReadError, eof, unexpected_eof, read_full, put_little_endian, little_endian, Fields, binary_size,
  binary_write, decode_fields, binary_read,
}

pub length-put_little_endian : (width v : ℕ) → length (put_little_endian width v) ≡ width
unfolding put_little_endian
length-put_little_endian zero v = refl
length-put_little_endian (suc width) v = ap suc (length-put_little_endian width (v / 256))

module _ {ℓ} {A : Type ℓ} where
  pub take-prefix : (xs ys : List A) (n : ℕ) → length xs ≡ n → take n (xs ++ ys) ≡ xs
  take-prefix [] ys zero e = refl
  take-prefix [] ys (suc n) e = absurd (omega arith)
  take-prefix (x ∷ xs) ys zero e = absurd (omega arith)
  take-prefix (x ∷ xs) ys (suc n) e = ap (◌∷◌ x) (take-prefix xs ys n (omega arith))

  pub drop-prefix : (xs ys : List A) (n : ℕ) → length xs ≡ n → drop n (xs ++ ys) ≡ ys
  drop-prefix [] ys zero e = refl
  drop-prefix [] ys (suc n) e = absurd (omega arith)
  drop-prefix (x ∷ xs) ys zero e = absurd (omega arith)
  drop-prefix (x ∷ xs) ys (suc n) e = drop-prefix xs ys n (omega arith)

  pub take-drop : (n : ℕ) (xs : List A) → take n xs ++ drop n xs ≡ xs
  take-drop zero xs = refl
  take-drop (suc n) [] = refl
  take-drop (suc n) (x ∷ xs) = ap (◌∷◌ x) (take-drop n xs)

  pub length-take : (n : ℕ) (xs : List A) → n ≤ length xs → length (take n xs) ≡ n
  length-take zero xs h = refl
  length-take (suc n) [] h = absurd (omega arith)
  length-take (suc n) (x ∷ xs) h = ap suc (length-take n xs (omega arith))

leb-prefix : (bs rest : List ℕ) (n : ℕ) → length bs ≡ n → leb n (length (bs ++ rest)) ≡ true
leb-prefix bs rest n e = le→leb n (length (bs ++ rest)) (omega (arith, e, length-append bs rest))

pub read_full-append :
    (bs rest : List ℕ) (n : ℕ) → length bs ≡ n → read_full n (bs ++ rest) ≡ ok (bs, rest)
unfolding read_full
read_full-append [] rest zero e = refl
read_full-append [] rest (suc n) e = absurd (omega arith)
read_full-append (b ∷ bs) rest zero e = absurd (omega arith)
read_full-append (b ∷ bs) rest (suc n) e = rw (
  take-prefix bs rest n (omega arith),
  drop-prefix bs rest n (omega arith),
  leb-prefix bs rest n (omega arith),
)

pub little_endian-put :
    (width v : ℕ) → v < 256 ^ width → little_endian (put_little_endian width v) ≡ v
unfolding little_endian put_little_endian
little_endian-put zero v h = omega (arith, h)
little_endian-put (suc width) v h =
    rw (little_endian-put width (v / 256) (omega (arith, h))) (omega arith)

-- Every field fits its width.
abbrev pub Fits : (widths : List ℕ) → Fields widths → Type 0
Fits [] fields = Unit
Fits (width ∷ widths) (v, fields) = v < 256 ^ width × Fits widths fields

pub length-binary_write :
    (widths : List ℕ) (fields : Fields widths)
    → length (binary_write widths fields) ≡ binary_size widths
unfolding binary_write
length-binary_write [] fields = refl
length-binary_write (width ∷ widths) (v, fields) = omega (
  arith,
  length-append (put_little_endian width v) (binary_write widths fields),
  length-put_little_endian width v,
  length-binary_write widths fields,
)

decode_fields-write :
    (widths : List ℕ) (fields : Fields widths)
    → Fits widths fields
    → decode_fields widths (binary_write widths fields) ≡ fields
unfolding decode_fields binary_write
decode_fields-write [] fields h = refl
decode_fields-write (width ∷ widths) (v, fields) (h, hs) = rw (
  take-prefix (put_little_endian width v) (binary_write widths fields) width
      (length-put_little_endian width v),
  drop-prefix (put_little_endian width v) (binary_write widths fields) width
      (length-put_little_endian width v),
  little_endian-put width v h,
  decode_fields-write widths fields hs,
)

pub binary_read-write :
    (widths : List ℕ) (fields : Fields widths) (rest : List ℕ)
    → Fits widths fields
    → binary_read widths (binary_write widths fields ++ rest) ≡ ok (fields, rest)
unfolding binary_read
binary_read-write widths fields rest h =
    >>=_of_ok _ (
      read_full-append (binary_write widths fields) rest (binary_size widths)
        (length-binary_write widths fields))
    ∙ ap (λ (x : Fields widths). ok (x, rest)) (decode_fields-write widths fields h)

-- io.ReadFull takes the bytes it is asked for, or fails where there are fewer.
pub read_full_cases :
    (n : ℕ) (bs : List ℕ)
    → ((n ≤ length bs) × (read_full n bs ≡ ok (take n bs, drop n bs)))
      ⊎ ((length bs < n) × ((read_full n bs ≡ fail eof) ⊎ (read_full n bs ≡ fail unexpected_eof)))
unfolding read_full
read_full_cases zero bs = inl (omega arith, refl)
read_full_cases (suc n) [] = inr (omega arith, inl refl)
read_full_cases (suc n) (b ∷ bs) = elim (Bool-cases (leb n (length bs))) [
  | inl e ↦ inl (omega (arith, leb→le n (length bs) e), rw e)
  | inr e ↦ inr (omega (arith, leb→lt n (length bs) e), inr (rw e))
]

-- The bytes of a reader are bytes.
abbrev pub AreBytes : List ℕ → Type 0
AreBytes = All λ b. b < 256

low_byte : (b v : ℕ) → b < 256 → (b + 256 * v) % 256 ≡ b
low_byte b v h = omega arith

high_bytes : (b v : ℕ) → b < 256 → (b + 256 * v) / 256 ≡ v
high_bytes b v h = omega arith

put-little_endian :
    (bs : List ℕ) → AreBytes bs → put_little_endian (length bs) (little_endian bs) ≡ bs
unfolding little_endian put_little_endian
put-little_endian [] h = refl
put-little_endian (b ∷ bs) (h, hs) =
    rw (low_byte b (little_endian bs) h, high_bytes b (little_endian bs) h, put-little_endian bs hs)

AreBytes-take : (n : ℕ) (bs : List ℕ) → AreBytes bs → AreBytes (take n bs)
AreBytes-take zero bs h = tt
AreBytes-take (suc n) [] h = tt
AreBytes-take (suc n) (b ∷ bs) (h, hs) = (h, AreBytes-take n bs hs)

AreBytes-drop : (n : ℕ) (bs : List ℕ) → AreBytes bs → AreBytes (drop n bs)
AreBytes-drop zero bs h = h
AreBytes-drop (suc n) [] h = tt
AreBytes-drop (suc n) (b ∷ bs) (h, hs) = AreBytes-drop n bs hs

write-decode_fields :
    (widths : List ℕ) (bs : List ℕ)
    → AreBytes bs
    → length bs ≡ binary_size widths
    → binary_write widths (decode_fields widths bs) ≡ bs
unfolding decode_fields binary_write
write-decode_fields [] [] h e = refl
write-decode_fields [] (b ∷ bs) h e = absurd (omega arith)
write-decode_fields (width ∷ widths) bs h e =
    ap
      (λ n.
        put_little_endian n (little_endian (take width bs))
        ++ binary_write widths (decode_fields widths (drop width bs)))
      (sym (length-take width bs (omega arith)))
    ∙ rw
        (
          put-little_endian (take width bs) (AreBytes-take width bs h),
          write-decode_fields widths (drop width bs) (AreBytes-drop width bs h) (
              omega (
                arith,
                e,
                ap length (take-drop width bs),
                length-append (take width bs) (drop width bs),
                length-take width bs (omega arith),
              )),
        )
        (take-drop width bs)

fail-ok {ℓ} : {A : Type ℓ} {x : ReadError} {a : A} → fail x ≢ ok a
fail-ok e = cc

ok-inj {ℓ} : {A : Type ℓ} {r : Result ReadError A} {a b : A} → r ≡ ok a → r ≡ ok b → a ≡ b
ok-inj e k = cc

pub binary_write-read :
    (widths : List ℕ) (bs : List ℕ) (fields : Fields widths) (rest : List ℕ)
    → AreBytes bs
    → binary_read widths bs ≡ ok (fields, rest)
    → binary_write widths fields ++ rest ≡ bs
unfolding binary_read
binary_write-read widths bs fields rest h e = elim (read_full_cases (binary_size widths) bs) [
  | inl (enough, r) ↦
      let same = ok-inj e (>>=_of_ok _ r) in
      ap (λ x. binary_write widths x.0 ++ x.1) same
      ∙ rw
          (write-decode_fields widths (take (binary_size widths) bs)
            (AreBytes-take (binary_size widths) bs h) (length-take (binary_size widths) bs enough))
          (take-drop (binary_size widths) bs)
  | inr (short, inl r) ↦ absurd (fail-ok (sym (>>=_of_fail _ r) ∙ e))
  | inr (short, inr r) ↦ absurd (fail-ok (sym (>>=_of_fail _ r) ∙ e))
]
