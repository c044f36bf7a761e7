-- ===== src/Task/Links.antt =====
-- task.c: the list of tasks in the store, and a task that joins it.
use enki_os.Base.{
  ℕ, ◌<◌, ◌≡◌, ◌≢◌, ◌∙◌, refl, sym, true, false, List, [], ◌∷◌, ◌++◌, arith, ◌==◌, ==_self,
  if◌then◌else◌,
}
use enki_os.Task.{Task, Tasks, set_next, set_prev, link_task}

-- The first address, 0 for none.
abbrev pub first : List ℕ → ℕ
first [] = 0
first (x ∷ xs) = x

abbrev pub last_of : ℕ → List ℕ → ℕ
last_of x [] = x
last_of x (y ∷ ys) = last_of y ys

-- The last of the list; nothing is said of an empty one.
abbrev pub EndsIn : ℕ → List ℕ → Type 0
EndsIn a [] = Unit
EndsIn a (x ∷ xs) = a ≡ last_of x xs

abbrev pub Absent : ℕ → List ℕ → Type 0
Absent t [] = Unit
Absent t (x ∷ xs) = (t ≢ x) × Absent t xs

abbrev pub Distinct : List ℕ → Type 0
Distinct [] = Unit
Distinct (x ∷ xs) = Absent x xs × Distinct xs

-- The tasks stand behind one another, the first behind `p`, with 0 behind the last.
abbrev pub Chain : (ℕ → Task) → ℕ → List ℕ → Type 0
Chain at p [] = Unit
Chain at p (x ∷ xs) = (0 < x) × ((at x).prev ≡ p) × ((at x).next ≡ first xs) × Chain at x xs

-- The list of tasks in the store.
pub record IsTaskList (s : Tasks) (xs : List ℕ) : Type 0 where
  pub head : s.head ≡ first xs
  pub tail : EndsIn s.tail xs
  pub chain : Chain s.at 0 xs
  pub distinct : Distinct xs

-- A chain keeps its links where the store changes elsewhere.
pub Chain-put_task :
    (at : ℕ → Task) (a : ℕ) (t : Task) (p : ℕ) (xs : List ℕ)
    → Absent a xs
    → Chain at p xs
    → Chain (λ b. if b == a then t else at b) p xs
Chain-put_task at a t p [] absent chain = tt
Chain-put_task at a t p (x ∷ xs) (ne, absent) (positive, prev, next, chain) =
    let other : (x == a) ≡ false = ground arith in
    (positive, rw other prev, rw other next, Chain-put_task at a t x xs absent chain)

pub Absent-last_of : (a y : ℕ) (ys : List ℕ) → Absent a (y ∷ ys) → a ≢ last_of y ys
Absent-last_of a y [] (ne, _) = ne
Absent-last_of a y (z ∷ zs) (_, absent) = Absent-last_of a z zs absent

-- A task at the end of a chain whose last link is set to it.
Chain-snoc :
    (at at' : ℕ → Task) (t p x : ℕ) (xs : List ℕ)
    → Chain at p (x ∷ xs)
    → Distinct (x ∷ xs)
    → 0 < t
    → ((at' (last_of x xs)).prev ≡ (at (last_of x xs)).prev)
    → ((at' (last_of x xs)).next ≡ t)
    → ((at' t).prev ≡ last_of x xs)
    → ((at' t).next ≡ 0)
    → ((a : ℕ) → a ≢ last_of x xs → a ≢ t → at' a ≡ at a)
    → Absent t (x ∷ xs)
    → Chain at' p (x ∷ xs ++ t ∷ [])
Chain-snoc at at' t p x [] (positive, prev, next, _) d pt kept link back end same absent =
    (positive, kept ∙ prev, link, (pt, back, end, tt))
Chain-snoc at at' t p x (y ∷ ys) (positive, prev, next, chain) ((ne, out), d) pt kept link back end
      same (nt, absent) =
    let here : at' x ≡ at x = same x (Absent-last_of x y ys (ne, out)) (λ e. nt (sym e)) in
    (
      positive,
      rw here prev,
      rw here next,
      Chain-snoc at at' t x y ys chain d pt kept link back end same absent,
    )

EndsIn-snoc : (t : ℕ) (xs : List ℕ) → EndsIn t (xs ++ t ∷ [])
EndsIn-snoc t [] = refl
EndsIn-snoc t (x ∷ []) = refl
EndsIn-snoc t (x ∷ y ∷ ys) = EndsIn-snoc t (y ∷ ys)

Absent-snoc : (a t : ℕ) (xs : List ℕ) → Absent a xs → a ≢ t → Absent a (xs ++ t ∷ [])
Absent-snoc a t [] absent ne = (ne, tt)
Absent-snoc a t (x ∷ xs) (ne', absent) ne = (ne', Absent-snoc a t xs absent ne)

Distinct-snoc : (t : ℕ) (xs : List ℕ) → Distinct xs → Absent t xs → Distinct (xs ++ t ∷ [])
Distinct-snoc t [] d absent = (tt, tt)
Distinct-snoc t (x ∷ xs) (out, d) (ne, absent) =
    (Absent-snoc x t xs out (λ e. ne (sym e)), Distinct-snoc t xs d absent)

link_nil :
    (t : ℕ) (s : Tasks)
    → IsTaskList s []
    → 0 < t
    → (s.at t).next ≡ 0
    → (s.at t).prev ≡ 0
    → IsTaskList (link_task t s) (t ∷ [])
unfolding link_task
link_nil t s ok positive next prev =
    let empty : (s.head == 0) ≡ true = ground (arith, ok.head) in
    rw empty
      (record { head = refl; tail = refl; chain = (positive, prev, next, tt); distinct = (tt, tt) })

link_cons :
    (t : ℕ) (s : Tasks) (x : ℕ) (xs : List ℕ)
    → IsTaskList s (x ∷ xs)
    → 0 < t
    → Absent t (x ∷ xs)
    → (s.at t).next ≡ 0
    → IsTaskList (link_task t s) (x ∷ xs ++ t ∷ [])
unfolding link_task
link_cons t s x xs ok positive absent next =
    let busy : (s.head == 0) ≡ false = ground (arith, ok.head, ok.chain.0) in
    let apart : t ≢ s.tail = λ e. Absent-last_of t x xs absent (e ∙ ok.tail) in
    let lt : (s.tail == t) ≡ false = ground arith in
    let tl : (t == s.tail) ≡ false = ground arith in
    rw busy (record {
      head = ok.head;
      tail = EndsIn-snoc t (x ∷ xs);
      chain =
          Chain-snoc s.at (set_prev t s.tail (set_next s.tail t s)).at t 0 x xs ok.chain ok.distinct
            positive (rw (← ok.tail, lt, ==_self s.tail) refl)
            (rw (← ok.tail, lt, ==_self s.tail) refl) (rw (← ok.tail, ==_self t) refl)
            (rw (==_self t, tl) next) (λ a other out. ground (arith, ok.tail)) absent;
      distinct = Distinct-snoc t (x ∷ xs) ok.distinct absent;
    })

pub link_task-IsTaskList :
    (t : ℕ) (s : Tasks) (xs : List ℕ)
    → IsTaskList s xs
    → 0 < t
    → Absent t xs
    → (s.at t).next ≡ 0
    → (s.at t).prev ≡ 0
    → IsTaskList (link_task t s) (xs ++ t ∷ [])
link_task-IsTaskList t s [] ok positive absent next prev = link_nil t s ok positive next prev
link_task-IsTaskList t s (x ∷ xs) ok positive absent next prev =
    link_cons t s x xs ok positive absent next
