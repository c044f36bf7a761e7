-- ===== src/Task/Leaving.antt =====
-- task.c: which task is next when the one that runs leaves the list.
use enki_os.Base.{
  ℕ, ◌<◌, ◌≡◌, ◌≢◌, ◌∙◌, refl, sym, ap, true, false, List, [], ◌∷◌, ◌++◌, arith, ◌==◌,
  if◌then◌else◌,
}
use enki_os.Task.{Task, Tasks, set_next, task_get_next, task_list_remove}
use enki_os.Task.Links.{first, last_of, Absent, Absent-last_of, Distinct, Chain, IsTaskList}
use enki_os.Task.Removal.{
  task_list_remove-first, Chain-prev, Chain-pair, Distinct-pair, set_next_other, Absent-append,
}

-- The task that is next when the one between `xs` and `ys` leaves: one behind the first of the list is
-- followed by the second one behind it, and 0 is none.
abbrev pub successor : List ℕ → List ℕ → ℕ
successor [] ys = first ys
successor (x ∷ xs) [] = x
successor (x ∷ xs) (u ∷ []) = x
successor (x ∷ xs) (u ∷ v ∷ ys) = v

last_of-append :
    (x : ℕ) (xs : List ℕ) (t : ℕ) (ys : List ℕ) → last_of x (xs ++ t ∷ ys) ≡ last_of t ys
last_of-append x [] t ys = refl
last_of-append x (z ∷ zs) t ys = last_of-append z zs t ys

Distinct-behind :
    (x : ℕ) (xs : List ℕ) (t : ℕ) (ys : List ℕ) → Distinct (x ∷ xs ++ t ∷ ys) → Absent t ys
Distinct-behind x [] t ys d = d.1.0
Distinct-behind x (z ∷ zs) t ys d = Distinct-behind z zs t ys d.1

Distinct-front :
    (x : ℕ) (xs : List ℕ) (t : ℕ) (ys : List ℕ)
    → Distinct (x ∷ xs ++ t ∷ ys)
    → (x ≢ t) × (last_of x xs ≢ t)
Distinct-front x [] t ys d = (d.0.0, d.0.0)
Distinct-front x (z ∷ zs) t ys d =
    ((λ e. (Absent-append x (z ∷ zs) (t ∷ ys) d.0).1.0 e), (Distinct-front z zs t ys d.1).1)

-- The removal of the last task.
remove-tail :
    (t : ℕ) (s : Tasks)
    → (s.at t).prev ≢ 0
    → t ≢ s.head
    → t ≡ s.tail
    → let s1 = set_next (s.at t).prev (s.at t).next s in
      task_list_remove t s ≡ record s1 { tail = (s1.at t).prev }
unfolding task_list_remove
remove-tail t s ne other same =
    let linked : ((s.at t).prev == 0) ≡ false = ground arith in
    let h : (t == s.head) ≡ false = ground arith in
    let l : (t == s.tail) ≡ true = ground arith in rw (linked, h, l) refl

remove-current :
    (t : ℕ) (s : Tasks)
    → (s.at t).prev ≢ 0
    → t ≢ s.head
    → t ≢ s.tail
    → t ≡ s.current
    → let s1 = set_next (s.at t).prev (s.at t).next s in
      task_list_remove t s ≡ record s1 { current = task_get_next s1 }
unfolding task_list_remove
remove-current t s ne other apart same =
    let linked : ((s.at t).prev == 0) ≡ false = ground arith in
    let h : (t == s.head) ≡ false = ground arith in
    let l : (t == s.tail) ≡ false = ground arith in
    let c : (t == s.current) ≡ true = ground arith in rw (linked, h, l, c) refl

get_next-eq :
    (s : Tasks) (c n h : ℕ)
    → s.current ≡ c
    → (s.at c).next ≡ n
    → s.head ≡ h
    → task_get_next s ≡ (if n == 0 then h else n)
unfolding task_get_next
get_next-eq s c n h e f g = rw (e, f, g) refl

Chain-behind :
    (at : ℕ → Task) (p x : ℕ) (xs : List ℕ) (t : ℕ) (ys : List ℕ)
    → Chain at p (x ∷ xs ++ t ∷ ys)
    → Chain at t ys
Chain-behind at p x [] t ys chain = chain.3.3
Chain-behind at p x (z ∷ zs) t ys chain = Chain-behind at x z zs t ys chain.3

or_head : (n h : ℕ) → 0 < n → (if n == 0 then h else n) ≡ n
or_head n h positive = ground arith

successor-or_head :
    (at : ℕ → Task) (x : ℕ) (xs : List ℕ) (u : ℕ) (ys : List ℕ)
    → Chain at u ys
    → (if first ys == 0 then x else first ys) ≡ successor (x ∷ xs) (u ∷ ys)
successor-or_head at x xs u [] chain = refl
successor-or_head at x xs u (v ∷ ys) chain = or_head v x chain.0

-- Where the running task has left the list, what is next is its successor: a task between two others
-- is followed by the second one behind it, so that the one behind it misses its turn.
pub get_next-task_list_remove :
    (s : Tasks) (xs : List ℕ) (t : ℕ) (ys : List ℕ)
    → IsTaskList s (xs ++ t ∷ ys)
    → s.current ≡ t
    → task_get_next (task_list_remove t s) ≡ successor xs ys
get_next-task_list_remove s [] t ys ok running =
    let (positive, prev, next, chain) = ok.chain in
    rw (task_list_remove-first t s prev (sym ok.head)) (
      get_next-eq (record s { head = (s.at t).next }) t (first ys) (first ys) running next next
      ∙ ground arith)
get_next-task_list_remove s (x ∷ xs) t [] ok running =
    let (prev, next, positive) = Chain-prev s.at 0 x xs t [] ok.chain in
    let (front, before) = Distinct-front x xs t [] ok.distinct in
    let linked : (s.at t).prev ≢ 0 = λ e. omega (arith, e, prev) in
    let stays = set_next_other (s.at t).prev (s.at t).next t s (λ e. before (sym (e ∙ prev))) in
    rw
      (remove-tail t s linked (λ e. front (sym (e ∙ ok.head)))
        (sym (ok.tail ∙ last_of-append x xs t [])))
      (get_next-eq _ t 0 x running (ap (λ (k : Task). k.next) stays ∙ next) ok.head)
get_next-task_list_remove s (x ∷ xs) t (u ∷ ys) ok running =
    let (prev, next, positive) = Chain-prev s.at 0 x xs t (u ∷ ys) ok.chain in
    let (uprev, unext, _) = Chain-pair s.at 0 x xs t u ys ok.chain in
    let (before_t, before_u, _) = Distinct-pair x xs t u ys ok.distinct in
    let (front, _) = Distinct-front x xs t (u ∷ ys) ok.distinct in
    let behind = Chain-behind s.at 0 x xs t (u ∷ ys) ok.chain in
    let linked : (s.at t).prev ≢ 0 = λ e. omega (arith, e, prev) in
    let not_tail : t ≢ s.tail = λ e.
      Absent-last_of t u ys (Distinct-behind x xs t (u ∷ ys) ok.distinct)
        (e ∙ ok.tail ∙ last_of-append x xs t (u ∷ ys)) in
    let s1 = set_next (s.at t).prev (s.at t).next s in
    let stays = set_next_other (s.at t).prev (s.at t).next t s (λ e. before_t (sym (e ∙ prev))) in
    let ustays = set_next_other (s.at t).prev (s.at t).next u s (λ e. before_u (sym (e ∙ prev))) in
    let passed : task_get_next s1 ≡ u =
      get_next-eq s1 t u x running (ap (λ (k : Task). k.next) stays ∙ next) ok.head
      ∙ or_head u x behind.0 in
    rw (remove-current t s linked (λ e. front (sym (e ∙ ok.head))) not_tail (sym running)) (
      get_next-eq (record s1 { current = task_get_next s1 }) u (first ys) x passed
        (ap (λ (k : Task). k.next) ustays ∙ unext) ok.head
      ∙ successor-or_head s.at x xs u ys behind.3)
