-- ===== src/Task/Removal.antt =====
-- task.c: a task that leaves the list.
use mathlib.Core.Path.{subst}
use enki_os.Base.{
  ℕ, ◌<◌, ◌≡◌, ◌≢◌, ◌∙◌, refl, sym, ap, inl, inr, true, false, List, [], ◌∷◌, ◌++◌, arith, ◌==◌,
  ==_self, Bool-cases,
}
use enki_os.Task.{Task, Tasks, set_next, task_list_remove}
use enki_os.Task.Links.{Absent-last_of, first, last_of, Chain, Absent, Distinct, IsTaskList}

-- The links forward.
abbrev pub Nexts : (ℕ → Task) → List ℕ → Type 0
Nexts at [] = Unit
Nexts at (x ∷ xs) = ((at x).next ≡ first xs) × Nexts at xs

-- The store after a removal: the task in front, if any, is linked to the one behind.
task_list_remove-at_linked :
    (t : ℕ) (s : Tasks)
    → (s.at t).prev ≢ 0
    → (task_list_remove t s).at ≡ (set_next (s.at t).prev (s.at t).next s).at
unfolding task_list_remove
task_list_remove-at_linked t s ne =
    let linked : ((s.at t).prev == 0) ≡ false = ground arith in
    rw linked (elim (Bool-cases (t == s.head)) [
      | inl h ↦ rw h refl
      | inr h ↦ elim (Bool-cases (t == s.tail)) [
        | inl l ↦ rw (h, l) refl
        | inr l ↦ elim (Bool-cases (t == s.current)) [
          | inl c ↦ rw (h, l, c) refl
          | inr c ↦ rw (h, l, c) refl
        ]
      ]
    ])

pub task_list_remove-first :
    (t : ℕ) (s : Tasks)
    → (s.at t).prev ≡ 0
    → t ≡ s.head
    → task_list_remove t s ≡ record s { head = (s.at t).next }
unfolding task_list_remove
task_list_remove-first t s alone e =
    let h : (t == s.head) ≡ true = ground arith in rw (alone, h) refl

task_list_remove-head :
    (t : ℕ) (s : Tasks) → (s.at t).prev ≢ 0 → t ≢ s.head → (task_list_remove t s).head ≡ s.head
unfolding task_list_remove
task_list_remove-head t s ne other =
    let linked : ((s.at t).prev == 0) ≡ false = ground arith in
    let h : (t == s.head) ≡ false = ground arith in
    elim (Bool-cases (t == s.tail)) [
      | inl l ↦ rw (linked, h, l) refl
      | inr l ↦ elim (Bool-cases (t == s.current)) [
        | inl c ↦ rw (linked, h, l, c) refl
        | inr c ↦ rw (linked, h, l, c) refl
      ]
    ]

Chain-Nexts : (at : ℕ → Task) (p : ℕ) (xs : List ℕ) → Chain at p xs → Nexts at xs
Chain-Nexts at p [] chain = tt
Chain-Nexts at p (x ∷ xs) (positive, prev, next, chain) = (next, Chain-Nexts at x xs chain)

-- Links forward are kept where the store changes elsewhere.
Nexts-elsewhere :
    (at at' : ℕ → Task) (l : ℕ) (xs : List ℕ)
    → Absent l xs
    → ((a : ℕ) → a ≢ l → (at' a).next ≡ (at a).next)
    → Nexts at xs
    → Nexts at' xs
Nexts-elsewhere at at' l [] absent same nexts = tt
Nexts-elsewhere at at' l (x ∷ xs) (ne, absent) same (next, nexts) =
    (same x (λ e. ne (sym e)) ∙ next, Nexts-elsewhere at at' l xs absent same nexts)

pub Absent-append : (a : ℕ) (xs ys : List ℕ) → Absent a (xs ++ ys) → Absent a xs × Absent a ys
Absent-append a [] ys absent = (tt, absent)
Absent-append a (x ∷ xs) ys (ne, absent) = let (l, r) = Absent-append a xs ys absent in ((ne, l), r)

first-append : (xs : List ℕ) (x : ℕ) (ys : List ℕ) → first (xs ++ x ∷ ys) ≡ first (xs ++ x ∷ [])
first-append [] x ys = refl
first-append (z ∷ zs) x ys = refl

-- The task behind a run of tasks has the last of them in front.
pub Chain-prev :
    (at : ℕ → Task) (p x : ℕ) (xs : List ℕ) (t : ℕ) (ys : List ℕ)
    → Chain at p (x ∷ xs ++ t ∷ ys)
    → ((at t).prev ≡ last_of x xs) × ((at t).next ≡ first ys) × (0 < last_of x xs)
Chain-prev at p x [] t ys (positive, prev, next, behind) = (behind.1, behind.2, positive)
Chain-prev at p x (z ∷ zs) t ys (positive, prev, next, chain) = Chain-prev at x z zs t ys chain

Nexts-cut :
    (at at' : ℕ → Task) (p x : ℕ) (xs : List ℕ) (t : ℕ) (ys : List ℕ)
    → Chain at p (x ∷ xs ++ t ∷ ys)
    → Distinct (x ∷ xs ++ t ∷ ys)
    → ((at' (last_of x xs)).next ≡ first ys)
    → ((a : ℕ) → a ≢ last_of x xs → (at' a).next ≡ (at a).next)
    → Nexts at' (x ∷ xs ++ ys)
Nexts-cut at at' p x [] t ys (positive, prev, next, chain) ((ne, out), d) link same =
    (link, Nexts-elsewhere at at' x ys out same (Chain-Nexts at t ys chain.3))
Nexts-cut at at' p x (z ∷ zs) t ys (positive, prev, next, chain) (out, d) link same =
    let apart = Absent-last_of x z zs (Absent-append x (z ∷ zs) (t ∷ ys) out).0 in
    (same x apart ∙ next, Nexts-cut at at' x z zs t ys chain d link same)

-- A task that leaves the list: the links forward go round it, and the others keep their order.
pub task_list_remove-Nexts :
    (s : Tasks) (xs : List ℕ) (t : ℕ) (ys : List ℕ)
    → IsTaskList s (xs ++ t ∷ ys)
    → ((task_list_remove t s).head ≡ first (xs ++ ys)) × Nexts (task_list_remove t s).at (xs ++ ys)
task_list_remove-Nexts s [] t ys ok =
    let (positive, prev, next, chain) = ok.chain in
    rw (task_list_remove-first t s prev (sym ok.head)) (next, Chain-Nexts s.at t ys chain)
task_list_remove-Nexts s (x ∷ xs) t ys ok =
    let (prev, next, positive) = Chain-prev s.at 0 x xs t ys ok.chain in
    let linked : (s.at t).prev ≢ 0 = λ e. omega (arith, e, prev) in
    let front = (Absent-append x xs (t ∷ ys) ok.distinct.0).1.0 in
    let apart : t ≢ s.head = λ e. front (sym (e ∙ ok.head)) in
    (
      task_list_remove-head t s linked apart ∙ ok.head,
      subst (λ at. Nexts at (x ∷ xs ++ ys)) (sym (task_list_remove-at_linked t s linked))
          (Nexts-cut s.at (set_next (s.at t).prev (s.at t).next s).at 0 x xs t ys ok.chain
            ok.distinct (rw (prev, ==_self (last_of x xs)) next)
            (λ a ne.
              let other : (a == (s.at t).prev) ≡ false = ground (arith, ne, prev) in
              rw other refl)),
    )

pub set_next_other : (a n b : ℕ) (s : Tasks) → b ≢ a → (set_next a n s).at b ≡ s.at b
set_next_other a n b s ne = let other : (b == a) ≡ false = ground arith in rw other refl

set_next_self : (a n : ℕ) (s : Tasks) → ((set_next a n s).at a).next ≡ n
set_next_self a n s = rw (==_self a) refl

-- The links of the task behind another, and the three that stand in a row.
pub Chain-pair :
    (at : ℕ → Task) (p x : ℕ) (xs : List ℕ) (t u : ℕ) (ys : List ℕ)
    → Chain at p (x ∷ xs ++ t ∷ u ∷ ys)
    → ((at u).prev ≡ t) × ((at u).next ≡ first ys) × (0 < t)
Chain-pair at p x [] t u ys (positive, prev, next, behind) = (behind.3.1, behind.3.2, behind.0)
Chain-pair at p x (z ∷ zs) t u ys (positive, prev, next, chain) = Chain-pair at x z zs t u ys chain

pub Distinct-pair :
    (x : ℕ) (xs : List ℕ) (t u : ℕ) (ys : List ℕ)
    → Distinct (x ∷ xs ++ t ∷ u ∷ ys)
    → (last_of x xs ≢ t) × (last_of x xs ≢ u) × (t ≢ u)
Distinct-pair x [] t u ys (out, d) = (out.0, out.1.0, d.0.0)
Distinct-pair x (z ∷ zs) t u ys (out, d) = Distinct-pair z zs t u ys d

-- The links back are not mended: when the task behind a removed one is removed in its turn, the
-- task in front still points at it, and the removed task is written to.
pub task_list_remove-twice :
    (s : Tasks) (x : ℕ) (xs : List ℕ) (t u : ℕ) (ys : List ℕ)
    → IsTaskList s (x ∷ xs ++ t ∷ u ∷ ys)
    → (((task_list_remove u (task_list_remove t s)).at (last_of x xs)).next ≡ u)
      × (((task_list_remove u (task_list_remove t s)).at t).next ≡ first ys)
task_list_remove-twice s x xs t u ys ok =
    let l = last_of x xs in
    let (prev, next, positive) = Chain-prev s.at 0 x xs t (u ∷ ys) ok.chain in
    let (back, end, real) = Chain-pair s.at 0 x xs t u ys ok.chain in
    let (lt, lu, tu) = Distinct-pair x xs t u ys ok.distinct in
    let linked : (s.at t).prev ≢ 0 = λ e. omega (arith, e, prev) in
    let once : (task_list_remove t s).at ≡ (set_next l u s).at =
      rw (task_list_remove-at_linked t s linked, prev, next) refl in
    let kept : (task_list_remove t s).at u ≡ s.at u =
      rw once (set_next_other l u u s (λ e. lu (sym e))) in
    let stale : ((task_list_remove t s).at u).prev ≡ t = rw kept back in
    let linked' : ((task_list_remove t s).at u).prev ≢ 0 = λ e. omega (arith, e, stale) in
    let again = task_list_remove-at_linked u (task_list_remove t s) linked' in
    rw (again, stale, kept)
      (
        ap (λ k. k.next) (set_next_other t (s.at u).next l (task_list_remove t s) lt)
            ∙ rw once (set_next_self l u s),
        set_next_self t (s.at u).next (task_list_remove t s) ∙ end,
      )
