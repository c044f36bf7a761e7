-- ===== src/Path/Parts.antt =====
-- path.c: a path is parsed to its parts, and a printed path to the parts that were printed.
use enki_os.Base.{
  ℕ, zero, suc, ◌+◌, ◌≤◌, ◌<◌, ◌≡◌, ◌≢◌, refl, true, false, some, List, [], ◌∷◌, ◌++◌, arith, ltb,
  leb, ◌==◌, length, length-append, min,
}
use enki_os.Base.Int.{pos, is_neg}
use enki_os.Libc.Chars.{isdigit, todigit}
use enki_os.Path.{
  keep_part, get_part_loop, skip_separator, path_get_part, path_parse_parts, path_is_valid,
  path_get_drive, path_parse,
}

-- No character of the part is a separator.
abbrev pub Unseparated : List ℕ → Type 0
Unseparated [] = Unit
Unseparated (c ∷ s) = (c ≢ b'/') × Unseparated s

-- The parts of a path: not empty, and without separators.
abbrev pub AreParts : List (List ℕ) → Type 0
AreParts [] = Unit
AreParts (p ∷ ps) = (0 < length p) × Unseparated p × AreParts ps

-- The parts with a separator between each two.
abbrev pub join : List (List ℕ) → List ℕ
join [] = []
join (p ∷ []) = p
join (p ∷ q ∷ ps) = p ++ b'/' ∷ join (q ∷ ps)

loop-append :
    (p rest : List ℕ) → Unseparated p → get_part_loop (p ++ b'/' ∷ rest) ≡ (p, b'/' ∷ rest)
unfolding get_part_loop
loop-append [] rest u = refl
loop-append (c ∷ p) rest (ne, u) =
    let other : (c == b'/') ≡ false = ground arith in rw (other, loop-append p rest u) refl

loop_end : (p : List ℕ) → Unseparated p → get_part_loop p ≡ (p, [])
unfolding get_part_loop
loop_end [] u = refl
loop_end (c ∷ p) (ne, u) =
    let other : (c == b'/') ≡ false = ground arith in rw (other, loop_end p u) refl

nonempty : (p : List ℕ) → 0 < length p → (length p == 0) ≡ false
nonempty p lt = ground arith

part-append :
    (p rest : List ℕ)
    → 0 < length p
    → Unseparated p
    → path_get_part (p ++ b'/' ∷ rest) ≡ (some p, rest)
unfolding path_get_part skip_separator
part-append p rest lt u = rw (loop-append p rest u, nonempty p lt) refl

part_end : (p : List ℕ) → 0 < length p → Unseparated p → path_get_part p ≡ (some p, [])
unfolding path_get_part skip_separator
part_end p lt u = rw (loop_end p u, nonempty p lt) refl

parts-suc :
    (fuel : ℕ) (path p rest : List ℕ) (ps : List (List ℕ))
    → path_get_part path ≡ (some p, rest)
    → path_parse_parts fuel rest ≡ some ps
    → path_parse_parts (suc fuel) path ≡ some (p ∷ ps)
unfolding path_parse_parts keep_part
parts-suc fuel path p rest ps e r = rw (e, r) refl

parts_nil : (fuel : ℕ) → path_parse_parts (suc fuel) [] ≡ some []
unfolding path_parse_parts path_get_part get_part_loop skip_separator keep_part
parts_nil fuel = refl

parts-join :
    (ps : List (List ℕ)) (fuel : ℕ)
    → AreParts ps
    → length (join ps) < fuel
    → path_parse_parts fuel (join ps) ≡ some ps
parts-join ps zero ok lt = absurd (omega arith)
parts-join [] (suc fuel) ok lt = parts_nil fuel
parts-join (p ∷ []) (suc zero) (some_, u, _) lt = absurd (omega arith)
parts-join (p ∷ []) (suc (suc fuel)) (some_, u, _) lt =
    parts-suc (suc fuel) p p [] [] (part_end p some_ u) (parts_nil fuel)
parts-join (p ∷ q ∷ ps) (suc fuel) (some_, u, ok) lt =
    parts-suc fuel (p ++ b'/' ∷ join (q ∷ ps)) p (join (q ∷ ps)) (q ∷ ps)
      (part-append p (join (q ∷ ps)) some_ u)
      (parts-join (q ∷ ps) fuel ok (omega (arith, length-append p (b'/' ∷ join (q ∷ ps)))))

-- The path of a drive and parts.
abbrev pub print : ℕ → List (List ℕ) → List ℕ
print drive ps = (b'0' + drive) ∷ b':' ∷ b'/' ∷ join ps

digit :
    (drive : ℕ)
    → drive < 10
    → (isdigit (b'0' + drive) ≡ true) × (todigit (b'0' + drive) ≡ pos drive)
unfolding isdigit todigit
digit drive lt = (ground arith, ground arith)

drive-print :
    (drive : ℕ) (ps : List (List ℕ))
    → drive < 10
    → path_get_drive (print drive ps) ≡ (pos drive, join ps)
unfolding path_get_drive path_is_valid
drive-print drive ps lt =
    let long : leb 3 (min (length (print drive ps)) 108) ≡ true = ground arith in
    let (test, value) = digit drive lt in rw (long, test, value) refl

-- A path that is printed from a drive's digit and parts that are not empty and hold no separator, of
-- at most 108 characters, is parsed to that drive and those parts, however many they are.
pub parse-print :
    (drive : ℕ) (ps : List (List ℕ)) (fuel : ℕ)
    → drive < 10
    → AreParts ps
    → length (print drive ps) ≤ 108
    → length (print drive ps) < fuel
    → path_parse fuel (print drive ps) ≡ some (some record { drive_no = pos drive; parts = ps })
unfolding path_parse
parse-print drive ps fuel lt ok short enough =
    let fits : ltb 108 (length (print drive ps)) ≡ false = ground arith in
    let positive : is_neg (pos drive) ≡ false = ground arith in
    rw (fits, drive-print drive ps lt, positive, parts-join ps fuel ok (omega arith)) refl
