-- ===== src/Kv/Paths.antt =====
-- states/kv/utils.go: the paths of keys. path.Join and path.Clean are those of Go's package path.
use birdwatcher.Base.{ℕ, Bool, false, not, ◌||◌, List, [], ◌∷◌, ◌++◌, if◌then◌else◌}
use birdwatcher.Base.Text.{same_text, has_prefix, ends_with, is_nonempty, split, join}

-- "/", "." and "0", the byte behind the slash
abbrev pub slash : ℕ
slash = 47

abbrev dot : ℕ
dot = 46

abbrev pub drop_last : List (List ℕ) → List (List ℕ)
drop_last [] = []
drop_last (part ∷ []) = []
drop_last (part ∷ next ∷ parts) = part ∷ drop_last (next ∷ parts)

-- Whether there is a part to go back over.
abbrev pub can_pop : List (List ℕ) → Bool
can_pop [] = false
can_pop (part ∷ []) = not (same_text part (dot ∷ dot ∷ []))
can_pop (part ∷ next ∷ parts) = can_pop (next ∷ parts)

-- One element of a path, behind those kept so far.
abbrev pub clean_step : Bool → List (List ℕ) → List ℕ → List (List ℕ)
clean_step rooted kept part =
    if not (is_nonempty part) || same_text part (dot ∷ [])
    then kept
    else if same_text part (dot ∷ dot ∷ [])
    then (if can_pop kept then drop_last kept else if rooted then kept else kept ++ (part ∷ []))
    else kept ++ (part ∷ [])

abbrev pub clean_loop : Bool → List (List ℕ) → List (List ℕ) → List (List ℕ)
clean_loop rooted kept [] = kept
clean_loop rooted kept (part ∷ parts) = clean_loop rooted (clean_step rooted kept part) parts

abbrev pub or_dot : List ℕ → List ℕ
or_dot [] = dot ∷ []
or_dot (c ∷ cs) = c ∷ cs

-- path.Clean
unfoldable pub clean : List ℕ → List ℕ
clean path =
    let rooted = has_prefix (slash ∷ []) path in
    let out = join slash (clean_loop rooted [] (split slash path)) in
    if rooted then slash ∷ out else or_dot out

abbrev pub nonempties : List (List ℕ) → List (List ℕ)
nonempties [] = []
nonempties (part ∷ parts) = if is_nonempty part then part ∷ nonempties parts else nonempties parts

abbrev pub clean_joined : List (List ℕ) → List ℕ
clean_joined [] = []
clean_joined (part ∷ parts) = clean (join slash (part ∷ parts))

-- path.Join
unfoldable pub path_join : List (List ℕ) → List ℕ
path_join parts = clean_joined (nonempties parts)

abbrev pub last_part : List (List ℕ) → List ℕ
last_part [] = []
last_part (part ∷ []) = part
last_part (part ∷ next ∷ parts) = last_part (next ∷ parts)

-- joinPath, which keeps a slash at the end.
unfoldable pub join_path : List (List ℕ) → List ℕ
join_path parts =
    let r = path_join parts in if ends_with slash (last_part parts) then r ++ (slash ∷ []) else r
