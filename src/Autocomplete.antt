-- ===== src/Autocomplete.antt =====
-- states/autocomplete: input.go, comp.go and auto_complete.go. Of auto_complete_file.go the reading of a
-- directory is a parameter. Commands and flags are those of cobra and pflag, seen through the fields that
-- the code reads; the output for debugging is off.
pub mod Suggestions
mod Tests
use birdwatcher.Base.{
  ℕ, Bool, true, false, not, ◌&&◌, ◌||◌, Option, none, some, ◌>>=?◌, List, [], ◌∷◌, ◌++◌, select,
  ◌==◌, if◌then◌else◌,
}
use birdwatcher.Base.Text.{same_text, has_prefix, ends_with, is_nonempty, split}

-- cmdCompType
pub data CompType : Type 0 where
  comp_all comp_command comp_flag : CompType

-- inputState
pub data InputState : Type 0 where
  state_cmd state_flag_tag state_flag_value : InputState

-- cComp
pub record Comp : Type 0 where
  pub raw : List ℕ
  pub tag : List ℕ
  pub value : List ℕ
  pub comp_type : CompType

pub record InputResult : Type 0 where
  pub parts : List Comp
  pub state : InputState

-- " ", "-", "=", "[" and "]"
abbrev pub blank : ℕ
blank = 32

abbrev pub dash : ℕ
dash = 45

abbrev pub equals : ℕ
equals = 61

-- strings.TrimLeft
abbrev pub trim_left : ℕ → List ℕ → List ℕ
trim_left c [] = []
trim_left c (d ∷ ds) = if d == c then trim_left c ds else d ∷ ds

-- strings.Contains of one byte
abbrev pub has_byte : ℕ → List ℕ → Bool
has_byte c [] = false
has_byte c (d ∷ ds) = (d == c) || has_byte c ds

-- comps[len(comps)-1].cValue = part; `none` is the panic of an empty slice.
abbrev pub set_last_value : List ℕ → List Comp → Option (List Comp)
set_last_value part [] = none
set_last_value part (c ∷ []) = some (record c { value = part } ∷ [])
set_last_value part (c ∷ d ∷ comps) = set_last_value part (d ∷ comps) >>=? λ rest. some (c ∷ rest)

-- A flag with its value behind "=", which has one such byte.
abbrev pub flag_parts : List ℕ → List (List ℕ) → List Comp
flag_parts part (name ∷ val ∷ []) =
    record { raw = part; tag = name; value = val; comp_type = comp_flag } ∷ []
flag_parts part others = []

-- The loop over the parts, with the components so far and whether the next part is the value of a flag.
unfoldable pub parse_part : List ℕ → List Comp × Bool → Option (List Comp × Bool)
unfolding split
parse_part part (comps, true) = set_last_value part comps >>=? λ comps. some (comps, false)
parse_part part (comps, false) =
    if has_prefix (dash ∷ []) part
    then (let raw = trim_left dash part in
        if has_byte equals raw
        then some (comps ++ flag_parts part (split equals raw), false)
        else some (
          comps ++ (record { raw = part; tag = raw; value = []; comp_type = comp_flag } ∷ []),
          true,
        ))
    else some (
      comps ++ (record { raw = part; tag = part; value = []; comp_type = comp_command } ∷ []),
      false,
    )

unfoldable pub parse_loop : List (List ℕ) → List Comp × Bool → Option (List Comp × Bool)
unfolding parse_part
parse_loop [] x = some x
parse_loop (part ∷ parts) x = parse_part part x >>=? parse_loop parts

abbrev pub empty_comp : Comp
empty_comp = record { raw = []; tag = []; value = []; comp_type = comp_command }

abbrev pub input_result : Bool → List Comp × Bool → InputResult
input_result is_end_blank (comps, current_flag_value) = record {
  parts = if is_end_blank then comps ++ (empty_comp ∷ []) else comps;
  state =
      if current_flag_value
      then (if is_end_blank then state_flag_value else state_flag_tag)
      else state_cmd;
}

unfoldable pub parse_input : List ℕ → Option InputResult
unfolding split parse_loop
parse_input input = parse_loop (select is_nonempty (split blank input)) ([], false) >>=? λ x.
    some (input_result (ends_with blank input) x)

-- pflag.Flag
pub record Flag : Type 0 where
  pub name : List ℕ
  pub usage : List ℕ

mutual
  -- cobra.Command: its words of use and short help, its flags, and the commands below it.
  pub data Command : Type 0 where
    command : List ℕ → List ℕ → List Flag → Commands → Command

  pub data Commands : Type 0 where
    no_commands : Commands
    add_command : Command → Commands → Commands

-- acCandidate. A file candidate takes directories only, or any file.
pub data Candidate : Type 0 where
  cmd_candidate : Command → Candidate
  flag_candidate : Flag → Candidate
  file_candidate : Bool → Candidate

abbrev pub first_word : List (List ℕ) → List ℕ
first_word [] = []
first_word (word ∷ words) = word

unfoldable pub cmd_name : Command → List ℕ
unfolding split
cmd_name (command words short flags below) = first_word (split blank words)

abbrev pub drop_last_byte : List ℕ → List ℕ
drop_last_byte [] = []
drop_last_byte (c ∷ []) = []
drop_last_byte (c ∷ d ∷ cs) = c ∷ drop_last_byte (d ∷ cs)

-- "file" and "directory"
abbrev pub file_word : List ℕ
file_word = 102 ∷ 105 ∷ 108 ∷ 101 ∷ []

abbrev pub directory_word : List ℕ
directory_word = 100 ∷ 105 ∷ 114 ∷ 101 ∷ 99 ∷ 116 ∷ 111 ∷ 114 ∷ 121 ∷ []

-- part[1 : len(part)-1] of a part in brackets
abbrev pub inside : List ℕ → List ℕ
inside [] = []
inside (c ∷ cs) = drop_last_byte cs

abbrev pub arg_of : List ℕ → List Candidate
arg_of part =
    if has_prefix (91 ∷ []) part && ends_with 93 part
    then (if same_text (inside part) file_word
        then file_candidate false ∷ []
        else if same_text (inside part) directory_word
        then file_candidate true ∷ []
        else [])
    else []

abbrev pub args_of : List (List ℕ) → List Candidate
args_of [] = []
args_of (part ∷ parts) = arg_of part ++ args_of parts

abbrev pub sub_commands : Commands → List Candidate
sub_commands no_commands = []
sub_commands (add_command c cs) = cmd_candidate c ∷ sub_commands cs

abbrev pub flag_candidates : List Flag → List Candidate
flag_candidates [] = []
flag_candidates (f ∷ fs) = flag_candidate f ∷ flag_candidates fs

abbrev pub is_command : CompType → Bool
is_command comp_command = true
is_command comp_all = false
is_command comp_flag = false

abbrev pub is_flag : CompType → Bool
is_flag comp_flag = true
is_flag comp_all = false
is_flag comp_command = false

abbrev pub is_all : CompType → Bool
is_all comp_all = true
is_all comp_command = false
is_all comp_flag = false

-- Match
unfoldable pub matches : Candidate → Comp → Bool
unfolding cmd_name
matches (cmd_candidate c) input = is_command input.comp_type && same_text (cmd_name c) input.tag
matches (flag_candidate f) input = is_flag input.comp_type && same_text input.tag f.name
matches (file_candidate d) input = is_command input.comp_type

-- NextCandidates. The candidates before a file candidate are none, where the code makes one.
unfoldable pub next_candidates : Candidate → List Candidate → List Candidate
unfolding split
next_candidates (cmd_candidate (command words short flags below)) current =
    sub_commands below ++ (flag_candidates flags ++ args_of (split blank words))
next_candidates (flag_candidate f) current = current
next_candidates (file_candidate d) current = []

-- A name suggested, with its help.
abbrev pub Suggestion : Type 0
Suggestion = List ℕ × List ℕ

abbrev pub short_of : Command → List ℕ
short_of (command words short flags below) = short

abbrev pub with_dashes : List ℕ → List ℕ
with_dashes name = dash ∷ dash ∷ name

-- The map of the result: a name suggested again takes the help of the later candidate.
abbrev pub put_suggestion : Suggestion → List Suggestion → List Suggestion
put_suggestion s [] = s ∷ []
put_suggestion s (t ∷ ts) = if same_text s.0 t.0 then s ∷ ts else t ∷ put_suggestion s ts

abbrev pub put_suggestions : List Suggestion → List Suggestion → List Suggestion
put_suggestions [] ts = ts
put_suggestions (s ∷ ss) ts = put_suggestions ss (put_suggestion s ts)

module _ (list_files : Bool → Comp → List Suggestion) where
  -- Suggest
  unfoldable pub suggest : Candidate → Comp → List Suggestion
  unfolding cmd_name
  suggest (cmd_candidate c) target =
      if has_prefix target.tag (cmd_name c) || is_all target.comp_type
      then (cmd_name c, short_of c) ∷ []
      else []
  suggest (flag_candidate f) target =
      if (has_prefix target.raw (with_dashes f.name) && has_prefix (dash ∷ dash ∷ []) target.raw)
        || is_all target.comp_type
      then (with_dashes f.name, f.usage) ∷ []
      else []
  suggest (file_candidate d) target = list_files d target

  -- The first candidate that matches a component gives the next ones.
  unfoldable pub reduce_one : Comp → List Candidate → List Candidate → Option (List Candidate)
  unfolding matches next_candidates
  reduce_one input all [] = none
  reduce_one input all (c ∷ cs) =
      if matches c input then some (next_candidates c all) else reduce_one input all cs

  unfoldable pub collect : Comp → List Candidate → List Suggestion → List Suggestion
  unfolding suggest
  collect target [] result = result
  collect target (c ∷ cs) result = collect target cs (put_suggestions (suggest c target) result)

  -- The components up to the last, and then the last, the target.
  unfoldable pub find_loop : List Comp → List Candidate → List Suggestion
  unfolding reduce_one collect
  find_loop [] candidates = []
  find_loop (target ∷ []) candidates = collect target candidates []
  find_loop (input ∷ next ∷ comps) candidates = elim (reduce_one input candidates candidates) [
    | none ↦ []
    | some candidates ↦ find_loop (next ∷ comps) candidates
  ]

  unfoldable pub find_cmd_suggestions : List Comp → Commands → List Suggestion
  unfolding find_loop
  find_cmd_suggestions comps cmds = find_loop comps (sub_commands cmds)

  unfoldable pub suggest_input_commands : List ℕ → Commands → Option (List Suggestion)
  unfolding parse_input find_cmd_suggestions
  suggest_input_commands input cmds =
      parse_input input >>=? λ r. some (find_cmd_suggestions r.parts cmds)
