-- ===== src/Framework/Use.antt =====
-- framework/command.go, ParseUseSegments: the segments of a use string such as "show segment [id]",
-- each a word with the options in brackets that follow it. A string is its list of bytes.
use mathlib.Core.Path.{subst}
use mathlib.Core.List.{append_assoc, append-nil}
use birdwatcher.Base.{
  ℕ, ◌≡◌, inl, inr, refl, sym, ◌∙◌, ap, Bool, true, false, ◌&&◌, Bool-cases, List, [], ◌∷◌, ◌++◌,
  ◌==◌, if◌then◌else◌, All, arith,
}

-- " ", "[" and "]"
abbrev pub space : ℕ
space = 32

abbrev open_bracket : ℕ
open_bracket = 91

abbrev close_bracket : ℕ
close_bracket = 93

abbrev pub onto_first : ℕ → List (List ℕ) → List (List ℕ)
onto_first c [] = (c ∷ []) ∷ []
onto_first c (part ∷ parts) = (c ∷ part) ∷ parts

-- strings.Split(use, " ")
unfoldable pub split : List ℕ → List (List ℕ)
split [] = [] ∷ []
split (c ∷ cs) = let rest = split cs in if c == space then [] ∷ rest else onto_first c rest

abbrev has_prefix : ℕ → List ℕ → Bool
has_prefix c [] = false
has_prefix c (d ∷ ds) = d == c

abbrev has_suffix : ℕ → List ℕ → Bool
has_suffix c [] = false
has_suffix c (d ∷ []) = d == c
has_suffix c (d ∷ e ∷ ds) = has_suffix c (e ∷ ds)

-- A part that is an option in brackets.
unfoldable pub is_option : List ℕ → Bool
is_option part = has_prefix open_bracket part && has_suffix close_bracket part

abbrev pub is_nonempty : List ℕ → Bool
is_nonempty [] = false
is_nonempty (c ∷ cs) = true

-- `if len(last) > 0 { result = append(result, last) }`
unfoldable pub append_last : List (List ℕ) → List ℕ → List (List ℕ)
append_last result last = if is_nonempty last then result ++ (last ∷ []) else result

-- The loop over the parts.
unfoldable pub segments_loop : List ℕ → List (List ℕ) → List (List ℕ) → List (List ℕ)
segments_loop last result [] = append_last result last
segments_loop last result (part ∷ parts) =
    if is_option part
    then segments_loop (last ++ (space ∷ part)) result parts
    else segments_loop part (append_last result last) parts

unfoldable pub parse_use_segments : List ℕ → List (List ℕ)
parse_use_segments use' = segments_loop [] [] (split use')

-- The parts that are not empty.
abbrev pub nonempties : List (List ℕ) → List (List ℕ)
nonempties [] = []
nonempties (part ∷ parts) = if is_nonempty part then part ∷ nonempties parts else nonempties parts

-- The words of a string, between any number of spaces.
abbrev pub words : List ℕ → List (List ℕ)
words cs = nonempties (split cs)

abbrev pub words_of : List (List ℕ) → List (List ℕ)
words_of [] = []
words_of (segment ∷ segments) = words segment ++ words_of segments

nonempties-append : (xs ys : List (List ℕ)) → nonempties (xs ++ ys) ≡ nonempties xs ++ nonempties ys
nonempties-append [] ys = refl
nonempties-append ([] ∷ xs) ys = nonempties-append xs ys
nonempties-append ((c ∷ cs) ∷ xs) ys = ap (◌∷◌ (c ∷ cs)) (nonempties-append xs ys)

words_of-append : (xs ys : List (List ℕ)) → words_of (xs ++ ys) ≡ words_of xs ++ words_of ys
words_of-append [] ys = refl
words_of-append (x ∷ xs) ys =
    ap (◌++◌ (words x)) (words_of-append xs ys)
    ∙ sym (append_assoc (words x) (words_of xs) (words_of ys))

-- A split is never empty.
split-cons : (cs : List ℕ) → (part : List ℕ) × (parts : List (List ℕ)) × (split cs ≡ part ∷ parts)
unfolding split
split-cons [] = ([], [], refl)
split-cons (c ∷ cs) = elim (Bool-cases (c == space)) [
  | inl e ↦ ([], split cs, rw e)
  | inr e ↦ let (part, parts, f) = split-cons cs in (c ∷ part, parts, rw (e, f))
]

split-space : (xs ys : List ℕ) → split (xs ++ (space ∷ ys)) ≡ split xs ++ split ys
unfolding split
split-space [] ys = ground arith
split-space (c ∷ xs) ys = elim (Bool-cases (c == space)) [
  | inl e ↦ rw (e, split-space xs ys)
  | inr e ↦ let (part, parts, f) = split-cons xs in rw (e, split-space xs ys, f)
]

words-space : (xs ys : List ℕ) → words (xs ++ (space ∷ ys)) ≡ words xs ++ words ys
words-space xs ys = ap nonempties (split-space xs ys) ∙ nonempties-append (split xs) (split ys)

-- A part has no space in it.
abbrev IsPart : List ℕ → Type 0
IsPart part = split part ≡ part ∷ []

IsPart-cons : (c : ℕ) (part : List ℕ) → (c == space) ≡ false → IsPart part → IsPart (c ∷ part)
unfolding split
IsPart-cons c part e h = rw (e, h)

AreParts-split : (cs : List ℕ) → All IsPart (split cs)
unfolding split
AreParts-split [] = (refl, tt)
AreParts-split (c ∷ cs) = elim (Bool-cases (c == space)) [
  | inl e ↦ rw e (refl, AreParts-split cs)
  | inr e ↦
      let (part, parts, f) = split-cons cs in
      let (h, hs) = subst (All IsPart) f (AreParts-split cs) in
      rw (e, f) (IsPart-cons c part e h, hs)
]

words-part :
    (part : List ℕ) (parts : List (List ℕ))
    → IsPart part
    → words part ++ nonempties parts ≡ nonempties (part ∷ parts)
words-part part parts h =
    ap (λ x. nonempties x ++ nonempties parts) h ∙ sym (nonempties-append (part ∷ []) parts)

words_of-append_last :
    (result : List (List ℕ)) (last : List ℕ)
    → words_of (append_last result last) ≡ words_of result ++ words last
unfolding append_last split
words_of-append_last result [] = sym (append-nil (words_of result))
words_of-append_last result (c ∷ cs) =
    words_of-append result ((c ∷ cs) ∷ [])
    ∙ ap (◌++◌ (words_of result)) (append-nil (words (c ∷ cs)))

segments_loop-words :
    (last : List ℕ) (result parts : List (List ℕ))
    → All IsPart parts
    → words_of (segments_loop last result parts)
      ≡ words_of result ++ (words last ++ nonempties parts)
unfolding segments_loop
segments_loop-words last result [] h =
    words_of-append_last result last ∙ ap (◌++◌ (words_of result)) (sym (append-nil (words last)))
segments_loop-words last result (part ∷ parts) (h, hs) = elim (Bool-cases (is_option part)) [
  | inl e ↦ rw e (
      segments_loop-words (last ++ (space ∷ part)) result parts hs
      ∙ ap (λ x. words_of result ++ (x ++ nonempties parts)) (words-space last part)
      ∙ ap (◌++◌ (words_of result)) (append_assoc (words last) (words part) (nonempties parts))
      ∙ ap (λ x. words_of result ++ (words last ++ x)) (words-part part parts h))
  | inr e ↦ rw e (
      segments_loop-words part (append_last result last) parts hs
      ∙ ap (λ x. x ++ (words part ++ nonempties parts)) (words_of-append_last result last)
      ∙ append_assoc (words_of result) (words last) (words part ++ nonempties parts)
      ∙ ap (λ x. words_of result ++ (words last ++ x)) (words-part part parts h))
]

-- No word of a use string is lost by ParseUseSegments, and none moves: the words of the
-- segments, one segment after the other, are the words of the string.
pub parse_use_segments-words : (use' : List ℕ) → words_of (parse_use_segments use') ≡ words use'
unfolding parse_use_segments split
parse_use_segments-words use' = segments_loop-words [] [] (split use') (AreParts-split use')
