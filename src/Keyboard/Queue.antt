-- ===== src/Keyboard/Queue.antt =====
-- keyboard.c: the buffer of a process as a queue of at most 1024 characters.
use enki_os.Base.{
  ℕ, zero, suc, ◌+◌, ◌-◌, ◌%◌, ◌^◌, ◌≤◌, ◌<◌, ◌≡◌, ◌≢◌, refl, inl, inr, false, some, Option, List,
  [], ◌∷◌, ◌++◌, arith, ◌==◌, Bool-cases, if◌then◌else◌, get_or, length, length-append,
}
use enki_os.Base.Word.{u32}
use enki_os.Base.Memory.{store}
use enki_os.Keyboard.{KeyboardBuffer, keyboard_backspace, keyboard_push, keyboard_pop}

-- The buffer holds the characters `xs`, the oldest at the head, and is 0 elsewhere.
pub record IsQueue (k : KeyboardBuffer) (xs : List ℕ) : Type 0 where
  pub head : k.head < 2 ^ 32
  pub tail : k.tail ≡ (k.head + length xs) % 2 ^ 32
  pub small : length xs ≤ 1024
  pub cells : (j : ℕ) → j < 1024 → k.buffer ((k.head + j) % 1024) ≡ get_or xs j 0
  pub chars : (j : ℕ) → j < length xs → 0 < get_or xs j 0

get_or-append :
    (xs : List ℕ) (c j : ℕ)
    → get_or (xs ++ c ∷ []) j 0 ≡ (if j == length xs then c else get_or xs j 0)
get_or-append [] c zero = refl
get_or-append [] c (suc j) = ground arith
get_or-append (x ∷ xs) c zero = ground arith
get_or-append (x ∷ xs) c (suc j) = ground (arith, get_or-append xs c j)

-- Two of the 1024 cells from the head on are the same only at the same distance.
cell_ne : (h i j : ℕ) → i < 1024 → j < 1024 → j ≢ i → (h + j) % 1024 ≢ (h + i) % 2 ^ 32 % 1024
cell_ne h i j hi hj ne e = ne (omega arith)

cell-eq : (h i : ℕ) → (h + i) % 1024 ≡ (h + i) % 2 ^ 32 % 1024
cell-eq h i = omega arith

abbrev pushed : ℕ → KeyboardBuffer → KeyboardBuffer
pushed c k = record {
  buffer = store k.buffer (k.tail % 1024) c;
  tail = u32 (k.tail + 1);
  head = k.head;
}

abbrev popped : KeyboardBuffer → KeyboardBuffer
popped k = record {
  buffer = store k.buffer (k.head % 1024) 0;
  tail = k.tail;
  head = u32 (k.head + 1);
}

push-eq : (k : KeyboardBuffer) (c : ℕ) → 0 < c → keyboard_push c (some k) ≡ some (pushed c k)
unfolding keyboard_push
push-eq k c positive = let nonzero : (c == 0) ≡ false = ground arith in rw nonzero refl

pop-eq :
    (k : KeyboardBuffer)
    → 0 < k.buffer (k.head % 1024)
    → keyboard_pop (some k) ≡ (k.buffer (k.head % 1024), some (popped k))
unfolding keyboard_pop
pop-eq k positive =
    let nonzero : (k.buffer (k.head % 1024) == 0) ≡ false = ground arith in rw nonzero refl

pop_nothing :
    (k : KeyboardBuffer) → k.buffer (k.head % 1024) ≡ 0 → keyboard_pop (some k) ≡ (0, some k)
unfolding keyboard_pop
pop_nothing k nothing = rw nothing refl

pushed-IsQueue :
    (k : KeyboardBuffer) (xs : List ℕ) (c : ℕ)
    → IsQueue k xs
    → length xs < 1024
    → 0 < c
    → IsQueue (pushed c k) (xs ++ c ∷ [])
pushed-IsQueue k xs c q room positive = record {
  head = q.head;
  tail = rw (q.tail, length-append xs (c ∷ [])) (omega arith);
  small = rw (length-append xs (c ∷ [])) (omega arith);
  cells = λ j lt.
      rw (q.tail, get_or-append xs c j)
        (elim (Bool-cases (j == length xs)) [
          | inl same ↦ ground (arith, cell-eq k.head (length xs))
          | inr other ↦
              ground (arith, cell_ne k.head (length xs) j room lt (ground arith), q.cells j lt)
        ]);
  chars = λ j lt. rw (get_or-append xs c j) (ground (arith, length-append xs (c ∷ []), q.chars j));
}

-- The cell at the head is the first of the queue, and 0 where the queue is empty.
head_cell :
    (k : KeyboardBuffer) (xs : List ℕ) → IsQueue k xs → k.buffer (k.head % 1024) ≡ get_or xs 0 0
head_cell k xs q = ground (arith, q.cells 0)

get_or-end : (xs : List ℕ) (j : ℕ) → length xs ≤ j → get_or xs j 0 ≡ 0
get_or-end [] j le = refl
get_or-end (x ∷ xs) zero le = absurd (omega arith)
get_or-end (x ∷ xs) (suc j) le = get_or-end xs j (omega arith)

popped-IsQueue :
    (k : KeyboardBuffer) (x : ℕ) (xs : List ℕ) → IsQueue k (x ∷ xs) → IsQueue (popped k) xs
popped-IsQueue k x xs q = record {
  head = omega arith;
  tail = ground (arith, q.tail);
  small = ground (arith, q.small);
  cells = λ j lt. elim (Bool-cases (j == 1023)) [
    | inl last ↦ ground (arith, get_or-end xs j (ground (arith, q.small)))
    | inr other ↦ ground (arith, q.cells (suc j) (ground arith))
  ];
  chars = λ j lt. q.chars (suc j) (omega arith);
}

-- A character that is pushed is the newest of the queue, where there is room.
pub push-IsQueue :
    (k : KeyboardBuffer) (xs : List ℕ) (c : ℕ)
    → IsQueue k xs
    → length xs < 1024
    → 0 < c
    → (k' : KeyboardBuffer) × (keyboard_push c (some k) ≡ some k') × IsQueue k' (xs ++ c ∷ [])
push-IsQueue k xs c q room positive =
    (pushed c k, push-eq k c positive, pushed-IsQueue k xs c q room positive)

-- What `keyboard_pop` answers: 0 and the same buffer for an empty queue, else the oldest character and
-- the rest.
pub Popped : KeyboardBuffer → List ℕ → ℕ × Option KeyboardBuffer → Type 0
Popped k [] out = out ≡ (0, some k)
Popped k (x ∷ xs) out = (k' : KeyboardBuffer) × (out ≡ (x, some k')) × IsQueue k' xs

-- `keyboard_pop` takes the oldest character off the queue, and answers 0 where the queue is empty.
pub pop-IsQueue :
    (k : KeyboardBuffer) (xs : List ℕ) → IsQueue k xs → Popped k xs (keyboard_pop (some k))
unfolding Popped
pop-IsQueue k [] q = pop_nothing k (head_cell k [] q)
pop-IsQueue k (x ∷ xs) q =
    let here : k.buffer (k.head % 1024) ≡ x = head_cell k (x ∷ xs) q in
    let positive : 0 < k.buffer (k.head % 1024) = ground (arith, q.chars 0) in
    (popped k, rw (pop-eq k positive, here) refl, popped-IsQueue k x xs q)

get_or-append_left :
    (xs : List ℕ) (c j : ℕ) → j < length xs → get_or (xs ++ c ∷ []) j 0 ≡ get_or xs j 0
get_or-append_left xs c j lt = ground (arith, get_or-append xs c j)

-- `keyboard_backspace` takes the newest character off the queue.
pub backspace-IsQueue :
    (k : KeyboardBuffer) (xs : List ℕ) (c : ℕ)
    → IsQueue k (xs ++ c ∷ [])
    → IsQueue (keyboard_backspace k) xs
unfolding keyboard_backspace
backspace-IsQueue k xs c q =
    let len = length-append xs (c ∷ []) in
    let tail : u32 (k.tail + (2 ^ 32 - 1)) ≡ (k.head + length xs) % 2 ^ 32 =
      rw q.tail (omega (arith, len)) in
    let room : length xs < 1024 = omega (arith, len, q.small) in
    record {
      head = q.head;
      tail = tail;
      small = omega arith;
      cells = λ j lt. rw tail (elim (Bool-cases (j == length xs)) [
        | inl same ↦ ground (arith, cell-eq k.head (length xs), get_or-end xs j (ground arith))
        | inr other ↦ ground (
          arith,
          cell_ne k.head (length xs) j room lt (ground arith),
          q.cells j lt,
          get_or-append xs c j,
        )
      ]);
      chars = λ j lt. ground (arith, len, q.chars j, get_or-append_left xs c j lt);
    }
