-- ===== src/Task/Schedule.antt =====
-- task.c, idt.c: the timer's task switches go round the list of tasks, and no task is left out.
use enki_os.Base.{
  ℕ, zero, suc, ◌<◌, ◌≡◌, ◌≢◌, ◌∙◌, refl, sym, ap, inl, inr, false, some, Option, List, [], ◌∷◌,
  arith, ltb, ◌==◌, eq_of_==, ==_self, Bool-cases, if◌then◌else◌, length, get_elem?, ◌>>=◌,
}
use mathlib.Core.Option.{some_inj}
use enki_os.Base.{ltb→lt}
use enki_os.Task.{
  task_current_save_state, Task, Tasks, Registers, task_get_next, task_switch_next, task_switch,
  task_save_state,
}
use enki_os.Task.Interrupts.{
  Control, task_page, call_back, interrupt_handler, idt_clock, idt_callbacks,
}
use enki_os.Task.Links.{first, Chain, IsTaskList}

get_elem?-first : (xs : List ℕ) (a : ℕ) → get_elem? xs 0 ≡ some a → first xs ≡ a
get_elem?-first [] a h = cc
get_elem?-first (x ∷ xs) a h = some_inj.0 h

-- Behind the task at an index the list goes on with the next index.
Chain-next :
    (at : ℕ → Task) (p : ℕ) (xs : List ℕ) (i a b : ℕ)
    → Chain at p xs
    → get_elem? xs i ≡ some a
    → get_elem? xs (suc i) ≡ some b
    → ((at a).next ≡ b) × (0 < b)
Chain-next at p [] i a b chain h h' = cc
Chain-next at p (x ∷ []) zero a b chain h h' = cc
Chain-next at p (x ∷ y ∷ ys) zero a b (px, prev, next, chain) h h' = (
  ap (λ c. (at c).next) (sym (some_inj.0 h)) ∙ next ∙ some_inj.0 h',
  rw (← some_inj.0 h') chain.0,
)
Chain-next at p (x ∷ xs) (suc i) a b (px, prev, next, chain) h h' =
    Chain-next at x xs i a b chain h h'

-- Nothing stands behind the last.
Chain-end :
    (at : ℕ → Task) (p : ℕ) (xs : List ℕ) (i a : ℕ)
    → Chain at p xs
    → get_elem? xs i ≡ some a
    → suc i ≡ length xs
    → ((at a).next ≡ 0)
Chain-end at p [] i a chain h e = cc
Chain-end at p (x ∷ []) zero a (px, prev, next, chain) h e =
    ap (λ c. (at c).next) (sym (some_inj.0 h)) ∙ next
Chain-end at p (x ∷ y ∷ ys) zero a chain h e = omega arith
Chain-end at p (x ∷ xs) (suc i) a (px, prev, next, chain) h e =
    Chain-end at x xs i a chain h (omega arith)

-- The index that the next switch goes to, in a list of `n`.
abbrev pub after : ℕ → ℕ → ℕ
after n i = if ltb (suc i) n then suc i else 0

-- The task at an index of the list runs.
pub record Runs (s : Tasks) (xs : List ℕ) (i : ℕ) : Type 0 where
  pub tasks : IsTaskList s xs
  pub current : get_elem? xs i ≡ some s.current

get_elem?-within : (xs : List ℕ) (i : ℕ) → i < length xs → (a : ℕ) × (get_elem? xs i ≡ some a)
get_elem?-within [] i lt = absurd (omega arith)
get_elem?-within (x ∷ xs) zero lt = (x, refl)
get_elem?-within (x ∷ xs) (suc i) lt = get_elem?-within xs i (omega arith)

pub get_elem?-lt : (xs : List ℕ) (i a : ℕ) → get_elem? xs i ≡ some a → i < length xs
get_elem?-lt [] i a h = cc
get_elem?-lt (x ∷ xs) zero a h = omega arith
get_elem?-lt (x ∷ xs) (suc i) a h = omega (arith, get_elem?-lt xs i a h)

-- The first of a list with tasks is not 0.
first_positive :
    (at : ℕ → Task) (xs : List ℕ) (i a : ℕ)
    → Chain at 0 xs
    → get_elem? xs i ≡ some a
    → (0 < first xs) × (get_elem? xs 0 ≡ some (first xs))
first_positive at [] i a chain h = cc
first_positive at (x ∷ xs) i a chain h = (chain.0, refl)

-- The next task is the one behind in the list, and the first behind the last.
pub task_get_next-after :
    (s : Tasks) (xs : List ℕ) (i : ℕ)
    → Runs s xs i
    → (get_elem? xs (after (length xs) i) ≡ some (task_get_next s)) × (0 < task_get_next s)
unfolding task_get_next
task_get_next-after s xs i r = elim (Bool-cases (ltb (suc i) (length xs))) [
  | inl e ↦
      let (b, there) = get_elem?-within xs (suc i) (ltb→lt (suc i) (length xs) e) in
      let (next, positive) = Chain-next s.at 0 xs i s.current b r.tasks.chain r.current there in
      let more : (b == 0) ≡ false = ground arith in rw (e, next, more) (there, positive)
  | inr e ↦
      let inside = get_elem?-lt xs i s.current r.current in
      let next = Chain-end s.at 0 xs i s.current r.tasks.chain r.current (ground arith) in
      let (positive, there) = first_positive s.at xs i s.current r.tasks.chain r.current in
      rw (e, next, r.tasks.head) (there, positive)
]

Chain-links :
    (at at' : ℕ → Task) (p : ℕ) (xs : List ℕ)
    → ((a : ℕ) → (at' a).prev ≡ (at a).prev)
    → ((a : ℕ) → (at' a).next ≡ (at a).next)
    → Chain at p xs
    → Chain at' p xs
Chain-links at at' p [] prevs nexts chain = tt
Chain-links at at' p (x ∷ xs) prevs nexts (positive, prev, next, chain) =
    (positive, prevs x ∙ prev, nexts x ∙ next, Chain-links at at' x xs prevs nexts chain)

-- What a save leaves alone: the links, and the registers of the other tasks.
pub task_save_state-links :
    (t : ℕ) (frame : Registers) (s : Tasks) (a : ℕ)
    → (((task_save_state t frame s).at a).prev ≡ (s.at a).prev)
      × (((task_save_state t frame s).at a).next ≡ (s.at a).next)
      × (((task_save_state t frame s).at a).page_dir ≡ (s.at a).page_dir)
unfolding task_save_state
task_save_state-links t frame s a = elim (Bool-cases (a == t)) [
  | inl e ↦ let same : a ≡ t = eq_of_== a t e in rw (e, same) (refl, refl, refl)
  | inr e ↦ rw e (refl, refl, refl)
]

pub task_save_state_others :
    (t : ℕ) (frame : Registers) (s : Tasks) (a : ℕ)
    → a ≢ t
    → ((task_save_state t frame s).at a).registers ≡ (s.at a).registers
unfolding task_save_state
task_save_state_others t frame s a ne = let other : (a == t) ≡ false = ground arith in rw other refl

pub task_save_state_self :
    (t : ℕ) (frame : Registers) (s : Tasks) → ((task_save_state t frame s).at t).registers ≡ frame
unfolding task_save_state
task_save_state_self t frame s = rw (==_self t) refl

-- The tasks after a timer interrupt with a frame.
abbrev pub ticked : Registers → Tasks → Tasks
ticked frame s = record (task_save_state s.current frame s) { current = task_get_next s }

ticked-IsTaskList :
    (frame : Registers) (s : Tasks) (xs : List ℕ) → IsTaskList s xs → IsTaskList (ticked frame s) xs
unfolding task_save_state
ticked-IsTaskList frame s xs ok = record {
  head = ok.head;
  tail = ok.tail;
  chain =
      Chain-links s.at (task_save_state s.current frame s).at 0 xs
        (λ a. (task_save_state-links s.current frame s a).0)
        (λ a. (task_save_state-links s.current frame s a).1) ok.chain;
  distinct = ok.distinct;
}

pub ticked-Runs :
    (frame : Registers) (s : Tasks) (xs : List ℕ) (i : ℕ)
    → Runs s xs i
    → Runs (ticked frame s) xs (after (length xs) i)
ticked-Runs frame s xs i r = record {
  tasks = ticked-IsTaskList frame s xs r.tasks;
  current = (task_get_next-after s xs i r).0;
}

task_get_next-save_state :
    (frame : Registers) (s : Tasks)
    → task_get_next (task_save_state s.current frame s) ≡ task_get_next s
unfolding task_get_next task_save_state
task_get_next-save_state frame s = rw (==_self s.current) refl

task_switch_next-some :
    (s : Tasks)
    → 0 < task_get_next s
    → task_switch_next s
      ≡ some (
        record s { current = task_get_next s },
        (s.at (task_get_next s)).page_dir,
        (s.at (task_get_next s)).registers,
      )
unfolding task_switch_next task_switch
task_switch_next-some s positive =
    let more : (task_get_next s == 0) ≡ false = ground arith in rw more refl

-- What the processor goes on with after a timer interrupt.
abbrev pub loaded : Registers → Tasks → Tasks × ℕ × Registers
loaded frame s = (
  ticked frame s,
  (s.at (task_get_next s)).page_dir,
  ((ticked frame s).at (task_get_next s)).registers,
)

module _ (handler : Tasks → Control) where
  -- A timer interrupt for each frame: the tasks, and the page directory and the registers that the
  -- processor goes on with, which are given for no interrupt. None where the kernel panics.
  abbrev pub ticks : List Registers → Tasks × ℕ × Registers → Option (Tasks × ℕ × Registers)
  ticks [] last = some last
  ticks (f ∷ fs) (s, _, _) = do
    last ← interrupt_handler (idt_callbacks handler) 0x20 f s
    ticks fs last

  -- A timer interrupt saves the frame, and goes on in the next task with its directory and registers.
  pub timer-ticked :
      (frame : Registers) (s : Tasks)
      → 0 < s.current
      → 0 < task_get_next s
      → interrupt_handler (idt_callbacks handler) 0x20 frame s
        ≡ some (
          ticked frame s,
          (s.at (task_get_next s)).page_dir,
          ((ticked frame s).at (task_get_next s)).registers,
        )
  unfolding interrupt_handler idt_callbacks call_back task_current_save_state idt_clock task_page
  timer-ticked frame s running positive =
      let busy : (s.current == 0) ≡ false = ground arith in
      let saved = task_save_state s.current frame s in
      let same = task_get_next-save_state frame s in
      let next = task_switch_next-some saved (rw same positive) in
      rw busy (
        rw (next, same) (rw (← (task_save_state-links s.current frame s (task_get_next s)).2) refl))
