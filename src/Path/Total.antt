-- ===== src/Path/Total.antt =====
-- path.c: every path is parsed, to parts that are not empty and hold no separator.
use enki_os.Base.{
  ℕ, zero, suc, ◌+◌, ◌≤◌, ◌<◌, ◌≡◌, ◌⊎◌, refl, inl, inr, true, false, none, some, Option, List, [],
  ◌∷◌, arith, ltb, ◌==◌, Bool-cases, length, length-drop,
}
use enki_os.Base.Int.{is_neg}
use enki_os.Path.{
  PathRoot, get_part_loop, skip_separator, path_get_part, keep_part, path_parse_parts,
  path_is_valid, path_get_drive, path_parse,
}
use enki_os.Path.Parts.{Unseparated, AreParts}

loop_sound :
    (path : List ℕ)
    → Unseparated (get_part_loop path).0
      × (length (get_part_loop path).0 + length (get_part_loop path).1 ≡ length path)
unfolding get_part_loop
loop_sound [] = (tt, refl)
loop_sound (c ∷ path) =
    let (u, len) = loop_sound path in
    elim (Bool-cases (c == b'/')) [
      | inl slash ↦ rw slash (tt, omega arith)
      | inr other ↦ rw other ((ground arith, u), omega (arith, len))
    ]

length-skip : (path : List ℕ) → length (skip_separator path) ≤ length path
unfolding skip_separator
length-skip [] = omega arith
length-skip (c ∷ path) = ground arith

part_sound :
    (path : List ℕ)
    → (((path_get_part path).0 ≡ none)
        ⊎ ((p : List ℕ) × ((path_get_part path).0 ≡ some p)
            × (0 < length p)
            × Unseparated p
            × (length (path_get_part path).1 < length path)))
unfolding path_get_part
part_sound path =
    let (u, len) = loop_sound path in
    elim (Bool-cases (length (get_part_loop path).0 == 0)) [
      | inl nothing ↦ inl (rw nothing refl)
      | inr something ↦ inr (
        (get_part_loop path).0,
        rw something refl,
        ground arith,
        u,
        ground (arith, length-skip (get_part_loop path).1),
      )
    ]

parts_sound :
    (fuel : ℕ) (path : List ℕ)
    → length path < fuel
    → (ps : List (List ℕ)) × (path_parse_parts fuel path ≡ some ps) × AreParts ps
unfolding path_parse_parts keep_part
parts_sound zero path lt = absurd (omega arith)
parts_sound (suc fuel) path lt = elim (part_sound path) [
  | inl nothing ↦ ([], rw nothing refl, tt)
  | inr (p, e, some_, u, less) ↦
      let (ps, rest, ok) = parts_sound fuel (path_get_part path).1 (omega arith) in
      (p ∷ ps, rw (e, rest) refl, (some_, u, ok))
]

rest-short : (path : List ℕ) (fuel : ℕ) → length path < fuel → length (path_get_drive path).1 < fuel
unfolding path_get_drive
rest-short path fuel lt = elim (Bool-cases (path_is_valid path)) [
  | inl good ↦ rw good (omega (arith, length-drop 3 path))
  | inr bad ↦ rw bad lt
]

-- What a path is parsed to: a null pointer, or a root with a drive that is not negative.
pub data ParsedTo : Option PathRoot → Type 0 where
  null_root : ParsedTo none
  root : {r : PathRoot} → is_neg r.drive_no ≡ false → AreParts r.parts → ParsedTo (some r)

-- With fuel above its length, every path is parsed: to a null pointer, or to a drive and parts that are
-- not empty and hold no separator.
pub parse-ParsedTo :
    (fuel : ℕ) (path : List ℕ)
    → length path < fuel
    → (r : Option PathRoot) × (path_parse fuel path ≡ some r) × ParsedTo r
unfolding path_parse
parse-ParsedTo fuel path lt = elim (Bool-cases (ltb 108 (length path))) [
  | inl long ↦ (none, rw long refl, null_root)
  | inr short ↦ elim (Bool-cases (is_neg (path_get_drive path).0)) [
    | inl bad ↦ (none, rw (short, bad) refl, null_root)
    | inr good ↦
        let (ps, e, ok) = parts_sound fuel (path_get_drive path).1 (rest-short path fuel lt) in
        (
          some record { drive_no = (path_get_drive path).0; parts = ps },
          rw (short, good, e) refl,
          root good ok,
        )
  ]
]

-- A path above 108 characters, or one that does not start with a digit and ":/", gives a null pointer.
pub parse_refused :
    (fuel : ℕ) (path : List ℕ)
    → ((108 < length path) ⊎ (path_is_valid path ≡ false))
    → path_parse fuel path ≡ some none
unfolding path_parse path_get_drive
parse_refused fuel path (inl long) =
    let over : ltb 108 (length path) ≡ true = ground arith in rw over refl
parse_refused fuel path (inr bad) = elim (Bool-cases (ltb 108 (length path))) [
  | inl long ↦ rw long refl
  | inr short ↦ rw (short, bad) refl
]
