-- ===== src/Path/Tests.antt =====
-- Runs of the path parser, and its theorems at "0:/bin/sh".
use enki_os.Base.{ℕ, ◌≡◌, refl, inr, none, some, Option, List, [], ◌∷◌, arith}
use enki_os.Base.Int.{pos}
use enki_os.Path.{
  PathRoot, keep_part, path_parse_parts, path_parse, get_part_loop, skip_separator, path_get_part,
  path_is_valid,
}
use enki_os.Path.Parts.{print, parse-print}
use enki_os.Path.Total.{ParsedTo, parse-ParsedTo, parse_refused}

abbrev parts : List (List ℕ)
parts = (b'b' ∷ b'i' ∷ b'n' ∷ []) ∷ (b's' ∷ b'h' ∷ []) ∷ []

-- The parts behind a repeated separator are lost.
repeated_separator : path_parse_parts 9 (b'a' ∷ b'/' ∷ b'/' ∷ b'b' ∷ []) ≡ some ((b'a' ∷ []) ∷ [])
unfolding path_parse_parts path_get_part get_part_loop skip_separator keep_part
repeated_separator = refl

parse-print_example :
    path_parse 20 (print 0 parts) ≡ some (some record { drive_no = pos 0; parts = parts })
parse-print_example = parse-print 0 parts 20 (omega arith) (omega arith) (omega arith) (omega arith)

parse-ParsedTo_example :
    (r : Option PathRoot) × (path_parse 20 (print 0 parts) ≡ some r) × ParsedTo r
parse-ParsedTo_example = parse-ParsedTo 20 (print 0 parts) (omega arith)

parse_refused_example : path_parse 20 (b'x' ∷ []) ≡ some none
unfolding path_is_valid
parse_refused_example = parse_refused 20 (b'x' ∷ []) (inr refl)
