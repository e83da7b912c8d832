-- ===== src/Autocomplete/Suggestions.antt =====
-- What is suggested, and that the parsing of the input comes to an end without a panic.
use mathlib.Core.Path.{subst}
use birdwatcher.Base.{
  ℕ, ◌≡◌, ◌≢◌, ◌⊎◌, inl, inr, refl, sym, ◌∙◌, ap, Bool, true, false, ◌&&◌, ◌||◌, Bool-cases, some,
  List, [], ◌∷◌, ◌++◌, select, ◌==◌,
}
use birdwatcher.Base.Perms.{any_of}
use birdwatcher.Base.Text.{same_text, has_prefix, ends_with, is_nonempty, split}
use birdwatcher.Base.Text.Order.{same_text_iff}
use birdwatcher.Autocomplete.{
  Comp, comp_command, comp_flag, InputResult, state_cmd, set_last_value, dash, equals, blank,
  trim_left, has_byte, flag_parts, parse_part, parse_loop, input_result, empty_comp, parse_input,
  Command, Commands, no_commands, add_command, cmd_candidate, Candidate, cmd_name, Suggestion,
  put_suggestion, put_suggestions, suggest, collect, sub_commands, suggest_input_commands,
}

-- The component of a word.
abbrev command_comp : List ℕ → Comp
command_comp part = record { raw = part; tag = part; value = []; comp_type = comp_command }

-- The loop waits for the value of a flag only with a component before it.
abbrev IsReady : List Comp × Bool → Type 0
IsReady (comps, current_flag_value) = current_flag_value ≡ true → comps ≢ []

set_last_value-some :
    (part : List ℕ) (c : Comp) (comps : List Comp)
    → (cs : List Comp) × (set_last_value part (c ∷ comps) ≡ some cs)
set_last_value-some part c [] = (_, refl)
set_last_value-some part c (d ∷ comps) =
    let (cs, e) = set_last_value-some part d comps in (c ∷ cs, rw e refl)

append_nonempty : (comps : List Comp) (c : Comp) → (comps ++ (c ∷ [])) ≢ []
append_nonempty [] c e = absurd (cc)
append_nonempty (d ∷ comps) c e = absurd (cc)

not_waiting : (comps : List Comp) → IsReady (comps, false)
not_waiting comps e = absurd (cc e)

parse_part-IsReady :
    (part : List ℕ) (x : List Comp × Bool)
    → IsReady x
    → (y : List Comp × Bool) × (parse_part part x ≡ some y) × IsReady y
unfolding parse_part
parse_part-IsReady part ([], true) h = absurd (h refl refl)
parse_part-IsReady part (c ∷ comps, true) h =
    let (cs, e) = set_last_value-some part c comps in ((cs, false), rw e refl, not_waiting cs)
parse_part-IsReady part (comps, false) h = elim (Bool-cases (has_prefix (dash ∷ []) part)) [
  | inl e ↦ elim (Bool-cases (has_byte equals (trim_left dash part))) [
    | inl f ↦ (
      (comps ++ flag_parts part (split equals (trim_left dash part)), false),
      rw (e, f) refl,
      not_waiting _,
    )
    | inr f ↦ (
      (
        comps
            ++ (record { raw = part; tag = trim_left dash part; value = []; comp_type = comp_flag }
                ∷ []),
        true,
      ),
      rw (e, f) refl,
      λ g. append_nonempty comps _,
    )
  ]
  | inr e ↦ ((comps ++ (command_comp part ∷ []), false), rw e refl, not_waiting _)
]

parse_loop-IsReady :
    (parts : List (List ℕ)) (x : List Comp × Bool)
    → IsReady x
    → (y : List Comp × Bool) × (parse_loop parts x ≡ some y) × IsReady y
unfolding parse_loop
parse_loop-IsReady [] x h = (x, refl, h)
parse_loop-IsReady (part ∷ parts) x h =
    let (y, e, k) = parse_part-IsReady part x h in
    let (z, f, l) = parse_loop-IsReady parts y k in (z, rw e f, l)

result_nonempty :
    (is_end_blank : Bool) (x : List Comp × Bool)
    → IsReady x
    → ((is_end_blank ≡ true) ⊎ ((input_result is_end_blank x).state ≢ state_cmd))
    → (input_result is_end_blank x).parts ≢ []
result_nonempty true (comps, b) h k = append_nonempty comps empty_comp
result_nonempty false (comps, true) h k = h refl
result_nonempty false (comps, false) h (inl e) = absurd (cc e)
result_nonempty false (comps, false) h (inr n) = absurd (n refl)

-- parseInput never panics. Its result has a component when the input ends with a blank, and
-- when it ends with a flag whose value is to come.
pub parse_input_returns :
    (input : List ℕ)
    → (r : InputResult) × (parse_input input ≡ some r)
      × (((ends_with blank input ≡ true) ⊎ (r.state ≢ state_cmd)) → r.parts ≢ [])
unfolding parse_input
parse_input_returns input =
    let (x, e, h) =
      parse_loop-IsReady (select is_nonempty (split blank input)) ([], false) (not_waiting []) in
    (input_result (ends_with blank input) x, rw e refl, result_nonempty (ends_with blank input) x h)

-- Whether a name is suggested.
abbrev pub suggested : List ℕ → List Suggestion → Bool
suggested k = any_of (λ (s : Suggestion). same_text k s.0)

or_idem : (a b : Bool) → (a || b) ≡ (a || (a || b))
or_idem true b = refl
or_idem false b = refl

or_swap : (a b c : Bool) → (a || (b || c)) ≡ (b || (a || c))
or_swap true true c = refl
or_swap true false c = refl
or_swap false b c = refl

or_regroup : (a b c : Bool) → (a || (b || c)) ≡ ((b || a) || c)
or_regroup true true c = refl
or_regroup true false c = refl
or_regroup false true c = refl
or_regroup false false c = refl

or_false : (a : Bool) → (a || false) ≡ a
or_false true = refl
or_false false = refl

suggested-put :
    (k : List ℕ) (s : Suggestion) (ts : List Suggestion)
    → suggested k (put_suggestion s ts) ≡ (same_text k s.0 || suggested k ts)
suggested-put k s [] = refl
suggested-put k s (t ∷ ts) = elim (Bool-cases (same_text s.0 t.0)) [
  | inl e ↦ rw (e, sym ((same_text_iff s.0 t.0).0 e)) (or_idem (same_text k s.0) (suggested k ts))
  | inr e ↦
      rw (e, suggested-put k s ts) (or_swap (same_text k t.0) (same_text k s.0) (suggested k ts))
]

suggested-puts :
    (k : List ℕ) (ss ts : List Suggestion)
    → suggested k (put_suggestions ss ts) ≡ (suggested k ss || suggested k ts)
suggested-puts k [] ts = refl
suggested-puts k (s ∷ ss) ts =
    suggested-puts k ss (put_suggestion s ts)
    ∙ ap (λ b. suggested k ss || b) (suggested-put k s ts)
    ∙ or_regroup (suggested k ss) (same_text k s.0) (suggested k ts)

-- A word without a blank
split_word : (word : List ℕ) → has_byte blank word ≡ false → split blank word ≡ word ∷ []
unfolding split
split_word [] b = refl
split_word (c ∷ cs) b = elim (Bool-cases (c == blank)) [
  | inl e ↦ absurd (cc (e, b))
  | inr e ↦ rw (e, split_word cs (subst (λ x. (x || has_byte blank cs) ≡ false) e b)) refl
]

ends_with_word : (word : List ℕ) → has_byte blank word ≡ false → ends_with blank word ≡ false
ends_with_word [] b = refl
ends_with_word (c ∷ []) b = elim (Bool-cases (c == blank)) [
  | inl e ↦ absurd (cc (e, b))
  | inr e ↦ e
]
ends_with_word (c ∷ d ∷ cs) b = elim (Bool-cases (c == blank)) [
  | inl e ↦ absurd (cc (e, b))
  | inr e ↦ ends_with_word (d ∷ cs) (subst (λ x. (x || has_byte blank (d ∷ cs)) ≡ false) e b)
]

parse_part-word :
    (word : List ℕ)
    → has_prefix (dash ∷ []) word ≡ false
    → parse_part word ([], false) ≡ some (command_comp word ∷ [], false)
unfolding parse_part
parse_part-word word d = rw d refl

parse_input-word :
    (word : List ℕ)
    → is_nonempty word ≡ true
    → has_byte blank word ≡ false
    → has_prefix (dash ∷ []) word ≡ false
    → parse_input word ≡ some (record { parts = command_comp word ∷ []; state = state_cmd })
unfolding parse_input parse_loop
parse_input-word word n b d =
    rw (split_word word b, n, parse_part-word word d, ends_with_word word b) refl

module _ (list_files : Bool → Comp → List Suggestion) where
  suggested-collect :
      (k : List ℕ) (target : Comp) (cs : List Candidate) (result : List Suggestion)
      → suggested k (collect list_files target cs result) ≡ (
          any_of (λ (c : Candidate). suggested k (suggest list_files c target)) cs
          || suggested k result)
  unfolding collect
  suggested-collect k target [] result = refl
  suggested-collect k target (c ∷ cs) result =
      suggested-collect k target cs (put_suggestions (suggest list_files c target) result)
      ∙ ap (λ b. any_of (λ (d : Candidate). suggested k (suggest list_files d target)) cs || b)
          (suggested-puts k (suggest list_files c target) result)
      ∙ or_regroup (any_of (λ (d : Candidate). suggested k (suggest list_files d target)) cs)
          (suggested k (suggest list_files c target)) (suggested k result)

  -- The names of commands that start with a word
  abbrev pub offers : List ℕ → List ℕ → Commands → Bool
  offers word k no_commands = false
  offers word k (add_command c cs) =
      (has_prefix word (cmd_name c) && same_text k (cmd_name c)) || offers word k cs

  suggested-suggest :
      (word k : List ℕ) (c : Command)
      → suggested k (suggest list_files (cmd_candidate c) (command_comp word))
        ≡ (has_prefix word (cmd_name c) && same_text k (cmd_name c))
  unfolding suggest
  suggested-suggest word k c = elim (Bool-cases (has_prefix word (cmd_name c))) [
    | inl e ↦ rw (e, suggest) (or_false (same_text k (cmd_name c)))
    | inr e ↦ rw (e, suggest) refl
  ]

  any_of-offers :
      (word k : List ℕ) (cmds : Commands)
      → any_of
          (λ (c : Candidate). suggested k (suggest list_files c (command_comp word)))
          (sub_commands cmds)
        ≡ offers word k cmds
  any_of-offers word k no_commands = refl
  any_of-offers word k (add_command c cs) =
      rw (suggested-suggest word k c, any_of-offers word k cs) refl

  -- For an input of one word, without blanks and without a dash before it, the names suggested
  -- are exactly those of the commands that start with the word.
  pub suggest_input_commands_word :
      (word k : List ℕ) (cmds : Commands)
      → is_nonempty word ≡ true
      → has_byte blank word ≡ false
      → has_prefix (dash ∷ []) word ≡ false
      → (result : List Suggestion) × (suggest_input_commands list_files word cmds ≡ some result)
        × (suggested k result ≡ offers word k cmds)
  unfolding suggest_input_commands
  suggest_input_commands_word word k cmds n b d = (
    collect list_files (command_comp word) (sub_commands cmds) [],
    rw (parse_input-word word n b d) refl,
    suggested-collect k (command_comp word) (sub_commands cmds) []
        ∙ or_false (
            any_of (λ (c : Candidate). suggested k (suggest list_files c (command_comp word)))
              (sub_commands cmds))
        ∙ any_of-offers word k cmds,
  )
