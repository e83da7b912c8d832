-- ===== src/Framework/Tests.antt =====
-- Use strings and formats, and each theorem at one of them.
use birdwatcher.Base.{ℕ, ◌≡◌, refl, none, some, List, [], ◌∷◌}
use birdwatcher.Framework.Use.{
  split, is_option, append_last, segments_loop, parse_use_segments, words, words_of,
  parse_use_segments-words,
}
use birdwatcher.Framework.Output.{
  json, chosen, output_format, get_global_format, get_global_output_format, name_format,
}

-- "s  t [i]"
abbrev use_string : List ℕ
use_string = 115 ∷ 32 ∷ 32 ∷ 116 ∷ 32 ∷ 91 ∷ 105 ∷ 93 ∷ []

two_segments : parse_use_segments use_string ≡ (115 ∷ []) ∷ (116 ∷ 32 ∷ 91 ∷ 105 ∷ 93 ∷ []) ∷ []
unfolding parse_use_segments segments_loop append_last is_option split
two_segments = refl

parse_use_segments-words_example : words_of (parse_use_segments use_string) ≡ words use_string
parse_use_segments-words_example = parse_use_segments-words use_string

from_environment : chosen "json" (some "table") none ≡ json
unfolding output_format get_global_format get_global_output_format name_format
from_environment = refl
