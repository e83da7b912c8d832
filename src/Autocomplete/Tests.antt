-- ===== src/Autocomplete/Tests.antt =====
-- Runs of the completion.
use birdwatcher.Base.{ℕ, ◌≡◌, ◌≢◌, ◌⊎◌, refl, Bool, true, some, List, [], ◌∷◌}
use birdwatcher.Base.Text.{split, ends_with}
use birdwatcher.Autocomplete.{
  Comp, InputResult, Suggestion, Commands, command, no_commands, add_command, cmd_name, blank,
  parse_input, state_cmd, suggest_input_commands,
}
use birdwatcher.Autocomplete.Suggestions.{
  suggested, parse_input_returns, suggest_input_commands_word,
}

-- "show" and "set"
abbrev show : List ℕ
show = 115 ∷ 104 ∷ 111 ∷ 119 ∷ []

abbrev set : List ℕ
set = 115 ∷ 101 ∷ 116 ∷ []

abbrev tree : Commands
tree =
    add_command (command show [] [] no_commands)
      (add_command (command set [] [] no_commands) no_commands)

abbrev no_files : Bool → Comp → List Suggestion
no_files d target = []

-- "sh"
suggest_input_commands_word_example :
    (result : List Suggestion) × (suggest_input_commands no_files (115 ∷ 104 ∷ []) tree
      ≡ some result)
    × (suggested show result ≡ true)
unfolding cmd_name split
suggest_input_commands_word_example =
    suggest_input_commands_word no_files (115 ∷ 104 ∷ []) show tree refl refl refl

-- "--a "
parse_input_returns_example :
    (r : InputResult) × (parse_input (45 ∷ 45 ∷ 97 ∷ 32 ∷ []) ≡ some r)
    × (((ends_with blank (45 ∷ 45 ∷ 97 ∷ 32 ∷ []) ≡ true) ⊎ (r.state ≢ state_cmd)) → r.parts ≢ [])
parse_input_returns_example = parse_input_returns (45 ∷ 45 ∷ 97 ∷ 32 ∷ [])
