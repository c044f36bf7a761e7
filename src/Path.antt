-- ===== src/Path.antt =====
-- kernel/fs/path.c. A path is the list of its characters, without the NUL behind them; the pointer into
-- it is what is left of the list. The heap's answers to kzalloc are left out.
mod Parts
mod Total
mod Tests
use enki_os.Base.{
  ℕ, zero, suc, ◌/◌, Bool, ◌&&◌, not, none, some, Option, List, [], ◌∷◌, ltb, leb, ◌==◌,
  if◌then◌else◌, get_or, length, ◌>>=◌, drop, min,
}
use enki_os.Base.Int.{ℤ, is_neg}
use enki_os.Libc.Chars.{isdigit, todigit}
use enki_os.Status.{ebadpath}

abbrev pub max_path : ℕ
max_path = 108

-- The list of parts that `first` starts.
pub record PathRoot : Type 0 where
  pub drive_no : ℤ
  pub parts : List (List ℕ)

-- `strnlen(path, ENKI_MAX_PATH)` and the comparison with ":/" on the list.
unfoldable pub path_is_valid : List ℕ → Bool
path_is_valid path =
    leb 3 (min (length path) max_path)
    && (isdigit (get_or path 0 0) && (get_or path 1 0 == b':' && get_or path 2 0 == b'/'))

unfoldable pub path_get_drive : List ℕ → ℤ × List ℕ
unfolding path_is_valid
path_get_drive path =
    if not (path_is_valid path) then (ebadpath, path) else (todigit (get_or path 0 0), drop 3 path)

-- while (**path != '/' && **path != 0), with the characters that it copies
unfoldable pub get_part_loop : List ℕ → List ℕ × List ℕ
get_part_loop [] = ([], [])
get_part_loop (c ∷ path) =
    let (part, rest) = get_part_loop path in if c == b'/' then ([], c ∷ path) else (c ∷ part, rest)

-- One separator is consumed.
unfoldable pub skip_separator : List ℕ → List ℕ
skip_separator [] = []
skip_separator (c ∷ path) = if c == b'/' then path else c ∷ path

unfoldable pub path_get_part : List ℕ → Option (List ℕ) × List ℕ
unfolding get_part_loop skip_separator
path_get_part path =
    let (part, rest) = get_part_loop path in
    (if length part == 0 then none else some part, skip_separator rest)

-- while (part): a part that is null ends the list.
unfoldable pub keep_part : Option (List ℕ) → Option (List (List ℕ)) → Option (List (List ℕ))
keep_part none behind = some []
keep_part (some part) behind = behind >>= λ parts. some (part ∷ parts)

-- The calls of `path_parse_part`, each of which appends the part it gets; none out of fuel.
unfoldable pub path_parse_parts : ℕ → List ℕ → Option (List (List ℕ))
path_parse_parts zero path = none
path_parse_parts (suc fuel) path =
    let (part, rest) = path_get_part path in keep_part part (path_parse_parts fuel rest)

-- The root, or none where the code returns a null pointer; none outside of it out of fuel.
unfoldable pub path_parse : ℕ → List ℕ → Option (Option PathRoot)
path_parse fuel path =
    if ltb max_path (length path)
    then some none
    else let (drive, rest) = path_get_drive path in
      if is_neg drive
      then some none
      else path_parse_parts fuel rest >>= λ parts.
          some (some record { drive_no = drive; parts = parts })
