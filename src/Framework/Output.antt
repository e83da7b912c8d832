-- ===== src/Framework/Output.antt =====
-- framework/resultset.go, state.go and command.go, and configs/format.go: the format in which the
-- result of a command is printed.
use Prim.Native.String.{String}
use text.Mathlib.Text.{◌==◌ as str_eq}
use birdwatcher.Base.{
  ◌≡◌, ◌⊎◌, inl, inr, refl, Bool, true, false, Bool-cases, Option, none, some, if◌then◌else◌,
}

pub data Format : Type 0 where
  unset default plain json table line : Format

-- NameFormat over the map name2Format.
unfoldable pub name_format : String → Format
name_format name =
    if str_eq name ""
    then unset
    else if str_eq name "default"
    then default
    else if str_eq name "plain"
    then plain
    else if str_eq name "json"
    then json
    else if str_eq name "table"
    then table
    else if str_eq name "line"
    then line
    else default

-- Config.GetGlobalOutputFormat, on the environment variable and the setting of the file.
unfoldable pub get_global_output_format : String → String → String
get_global_output_format env setting =
    if str_eq env "" then (if str_eq setting "" then "" else setting) else env

-- CmdState.GetGlobalFormat; a state may have no configuration.
unfoldable pub get_global_format : String → Option String → Format
get_global_format env none = default
get_global_format env (some setting) =
    let name = get_global_output_format env setting in
    if str_eq name "" then default else name_format name

abbrev pub is_unset : Format → Bool
is_unset unset = true
is_unset _ = false

abbrev or_default : Option Format → Format
or_default none = default
or_default (some format) = format

-- The choice in the command that parseMethod makes: the global format of a state that provides one,
-- and over it the format that the command set on its result, if it did.
unfoldable pub output_format : Option Format → Option Format → Format
output_format global preset =
    let outer = or_default global in
    elim preset [ none ↦ outer | some format ↦ if is_unset format then outer else format ]

name_format-set : (name : String) → str_eq name "" ≡ false → is_unset (name_format name) ≡ false
unfolding name_format
name_format-set name e = rw e (
    if_set (str_eq name "default") _ _ refl (
      if_set (str_eq name "plain") _ _ refl (
        if_set (str_eq name "json") _ _ refl
          (if_set (str_eq name "table") _ _ refl (if_set (str_eq name "line") _ _ refl refl)))))
  where
    if_set :
        (b : Bool) (f g : Format)
        → is_unset f ≡ false
        → is_unset g ≡ false
        → is_unset (if b then f else g) ≡ false
    if_set true f g h k = h
    if_set false f g h k = k

-- Where the global format comes from: the environment, else the file, else the default.
abbrev pub Source : String → String → Format → Type 0
Source env setting format =
    ((str_eq env "" ≡ false) × (format ≡ name_format env))
    ⊎ ((str_eq env "" ≡ true) × (str_eq setting "" ≡ false) × (format ≡ name_format setting))
    ⊎ ((str_eq env "" ≡ true) × (str_eq setting "" ≡ true) × (format ≡ default))

get_global_format-Source :
    (env setting : String)
    → (is_unset (get_global_format env (some setting)) ≡ false)
      × Source env setting (get_global_format env (some setting))
unfolding get_global_format get_global_output_format
get_global_format-Source env setting = elim (Bool-cases (str_eq env "")) [
  | inl e ↦ elim (Bool-cases (str_eq setting "")) [
    | inl f ↦ (rw (e, f), inr (inr (e, f, rw (e, f))))
    | inr f ↦ (rw (e, f, f) (name_format-set setting f), inr (inl (e, f, rw (e, f, f))))
  ]
  | inr e ↦ (rw (e, e) (name_format-set env e), inl (e, rw (e, e)))
]

-- The format of a state that provides one, on a result that may have been preset.
abbrev pub chosen : String → Option String → Option Format → Format
chosen env setting preset = output_format (some (get_global_format env setting)) preset

-- The result of a command of a state with a configuration is printed in the format that the
-- command set, if it set one, else in that of the environment, else in that of the configuration
-- file, else in the default, and never in the format that stands for none.
pub output_format_cases :
    (env setting : String) (preset : Option Format)
    → (is_unset (chosen env (some setting) preset) ≡ false)
      × (((f : Format) × (preset ≡ some f)
            × (is_unset f ≡ false)
            × (chosen env (some setting) preset ≡ f))
          ⊎ Source env setting (chosen env (some setting) preset))
unfolding output_format
output_format_cases env setting none =
    let (set, source) = get_global_format-Source env setting in (set, inr source)
output_format_cases env setting (some f) = elim (Bool-cases (is_unset f)) [
  | inl e ↦
      let (set, source) = get_global_format-Source env setting in (rw e set, inr (rw e source))
  | inr e ↦ (rw (e, e), inl (f, refl, e, rw e))
]
