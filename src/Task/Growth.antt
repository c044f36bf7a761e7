-- ===== src/Task/Growth.antt =====
-- task.c: the list of tasks on every way through task_new, and in every state that the kernel reaches.
use mathlib.Core.Path.{subst}
use mathlib.Core.Option.{some_inj, none-ne-some}
use enki_os.Base.{
  ℕ, zero, suc, ◌<◌, ◌≡◌, ◌≢◌, ◌∙◌, ◌⊎◌, refl, sym, ap, inl, inr, true, false, none, some, List, [],
  ◌∷◌, ◌++◌, arith, ◌==◌, ==_self, Bool-cases, if◌then◌else◌, length, get_elem?,
}
use enki_os.Base.Memory.{Memory}
use enki_os.Heap.{Heap}
use enki_os.Kheap.{kzalloc}
use enki_os.Paging.{paging_new}
use enki_os.Task.{
  task_current_save_state, Task, Tasks, Registers, put_task, no_task, new_task, task_init,
  task_list_remove, task_free, task_new, task_size, link_task, task_flags,
}
use enki_os.Task.Links.{Absent, Chain-put_task, Absent-last_of, IsTaskList, link_task-IsTaskList}
use enki_os.Task.Interrupts.{Control, interrupt_handler, idt_callbacks, call_back, task_page}
use enki_os.Task.Schedule.{Runs, after, ticked, ticked-Runs, timer-ticked, task_get_next-after}
use enki_os.Task.Rounds.{Chain-positive, Absent-elem}

-- The list of tasks, and a current task from it where there are any.
pub record Valid (s : Tasks) (xs : List ℕ) : Type 0 where
  pub tasks : IsTaskList s xs
  pub current : ((xs ≡ []) × (s.current ≡ 0)) ⊎ ((i : ℕ) × (get_elem? xs i ≡ some s.current))

current_ne : (s : Tasks) (t : ℕ) (xs : List ℕ) → Valid s xs → 0 < t → Absent t xs → t ≢ s.current
current_ne s t xs v positive absent = elim v.current [
  | inl (e, z) ↦ λ same. omega (arith, same, z)
  | inr (i, h) ↦ Absent-elem t xs i s.current absent h
]

head_ne : (s : Tasks) (t : ℕ) (xs : List ℕ) → IsTaskList s xs → 0 < t → Absent t xs → t ≢ s.head
head_ne s t [] ok positive absent = λ same. omega (arith, same, ok.head)
head_ne s t (x ∷ xs) ok positive (ne, absent) = λ same. ne (same ∙ ok.head)

-- The store at an address that is in no list.
put_task-Valid :
    (s : Tasks) (a : ℕ) (t : Task) (xs : List ℕ)
    → Valid s xs
    → Absent a xs
    → Valid (put_task s a t) xs
put_task-Valid s a t xs v absent = record {
  tasks = record {
    head = v.tasks.head;
    tail = v.tasks.tail;
    chain = Chain-put_task s.at a t 0 xs absent v.tasks.chain;
    distinct = v.tasks.distinct;
  };
  current = v.current;
}

set_tail-Valid : (s : Tasks) (a : ℕ) → Valid s [] → Valid (record s { tail = a }) []
set_tail-Valid s a v = record {
  tasks = record { head = v.tasks.head; tail = tt; chain = tt; distinct = tt };
  current = v.current;
}

-- A task outside the list whose link back is empty is removed without a trace.
task_list_remove-outside :
    (s : Tasks) (t : ℕ) (xs : List ℕ)
    → Valid s xs
    → 0 < t
    → Absent t xs
    → (s.at t).prev ≡ 0
    → Valid (task_list_remove t s) xs
unfolding task_list_remove
task_list_remove-outside s t [] v positive absent prev =
    let h : (t == s.head) ≡ false = ground (arith, head_ne s t [] v.tasks positive absent) in
    let c : (t == s.current) ≡ false = ground (arith, current_ne s t [] v positive absent) in
    elim (Bool-cases (t == s.tail)) [
      | inl e ↦ rw (prev, h, e) (set_tail-Valid s (s.at t).prev v)
      | inr e ↦ rw (prev, h, e, c) v
    ]
task_list_remove-outside s t (x ∷ xs) v positive absent prev =
    let h : (t == s.head) ≡ false = ground (arith, head_ne s t (x ∷ xs) v.tasks positive absent) in
    let c : (t == s.current) ≡ false = ground (arith, current_ne s t (x ∷ xs) v positive absent) in
    let l : (t == s.tail) ≡ false = ground (arith, Absent-last_of t x xs absent, v.tasks.tail) in
    rw (prev, h, l, c) v

get_elem?-before :
    (xs ys : List ℕ) (i a : ℕ) → get_elem? xs i ≡ some a → get_elem? (xs ++ ys) i ≡ some a
get_elem?-before [] ys i a h = cc
get_elem?-before (x ∷ xs) ys zero a h = h
get_elem?-before (x ∷ xs) ys (suc i) a h = get_elem?-before xs ys i a h

link_task-Valid :
    (t : ℕ) (s : Tasks) (xs : List ℕ)
    → Valid s xs
    → 0 < t
    → Absent t xs
    → (s.at t).next ≡ 0
    → (s.at t).prev ≡ 0
    → Valid (link_task t s) (xs ++ t ∷ [])
unfolding link_task
link_task-Valid t s [] v positive absent next prev =
    let empty : (s.head == 0) ≡ true = ground (arith, v.tasks.head) in
    record {
      tasks = link_task-IsTaskList t s [] v.tasks positive absent next prev;
      current = inr (0, rw empty refl);
    }
link_task-Valid t s (x ∷ xs) v positive absent next prev =
    let busy : (s.head == 0) ≡ false = ground (arith, v.tasks.head, v.tasks.chain.0) in
    record {
      tasks = link_task-IsTaskList t s (x ∷ xs) v.tasks positive absent next prev;
      current = elim v.current [
        | inl (e, z) ↦ cc
        | inr (i, h) ↦ inr (i, rw busy (get_elem?-before (x ∷ xs) (t ∷ []) i s.current h))
      ];
    }

-- The list after a call that returned `task`.
abbrev pub grown : List ℕ → ℕ → List ℕ
grown xs task = if task == 0 then xs else xs ++ task ∷ []

-- Where the address that `kzalloc` answers for the task is not in the list, `task_new` keeps the list
-- well formed and the current task in it, on every way through it: a new task stands at the end of the
-- list, and a failed call leaves the list as it was.
pub task_new-Valid :
    (heap : Heap) (proc ip : ℕ) (s : Tasks) (m : Memory) (xs : List ℕ)
    → Valid s xs
    → Absent (kzalloc heap task_size m).0 xs
    → Valid (task_new heap proc ip s m).1 (grown xs (task_new heap proc ip s m).0)
unfolding task_new task_init task_free
task_new-Valid heap proc ip s m xs v absent =
    let t = (kzalloc heap task_size m).0 in
    let dir = (paging_new heap task_flags (kzalloc heap task_size m).1).0 in
    elim (Bool-cases (t == 0)) [
      | inl e ↦ rw e v
      | inr e ↦
          let positive : 0 < t = ground arith in
          elim (Bool-cases (dir == 0)) [
            | inl out ↦
                rw (e, out)
                  (task_list_remove-outside (put_task s t no_task) t xs
                    (put_task-Valid s t no_task xs v absent) positive absent (rw (==_self t) refl))
            | inr got ↦
                rw (e, got)
                  (rw e (
                    link_task-Valid t (put_task s t (new_task dir ip proc)) xs
                      (put_task-Valid s t (new_task dir ip proc) xs v absent) positive absent
                      (rw (==_self t) refl) (rw (==_self t) refl)))
          ]
    ]

-- What the tasks go through: processes that start, timer interrupts, and writes to the memory.
pub data Step (heap : Heap) (handler : Tasks → Control)
    : Tasks → Memory → Tasks → Memory → Type 0 where
  created :
      (proc ip : ℕ) (s : Tasks) (m : Memory)
      → ((xs : List ℕ) → Valid s xs → Absent (kzalloc heap task_size m).0 xs)
      → Step heap handler s m (task_new heap proc ip s m).1 (task_new heap proc ip s m).2
  interrupted :
      (frame : Registers) (s s' : Tasks) (dir : ℕ) (registers : Registers) (m : Memory)
      → interrupt_handler (idt_callbacks handler) 0x20 frame s ≡ some (s', dir, registers)
      → Step heap handler s m s' m
  written : (s : Tasks) (m m' : Memory) → Step heap handler s m s m'

pub data Reach (heap : Heap) (handler : Tasks → Control) (s : Tasks) (m : Memory)
    : Tasks → Memory → Type 0 where
  here : Reach heap handler s m s m
  next :
      {s' s'' : Tasks} {m' m'' : Memory}
      → Reach heap handler s m s' m'
      → Step heap handler s' m' s'' m''
      → Reach heap handler s m s'' m''

-- With no current task the kernel panics.
interrupted_idle :
    (handler : Tasks → Control) (frame : Registers) (s : Tasks)
    → s.current ≡ 0
    → interrupt_handler (idt_callbacks handler) 0x20 frame s ≡ none
unfolding interrupt_handler idt_callbacks call_back task_current_save_state task_page
interrupted_idle handler frame s idle = rw idle refl

ticked-Valid :
    (handler : Tasks → Control) (frame : Registers) (s s' : Tasks) (dir : ℕ) (registers : Registers)
    (xs : List ℕ)
    → Valid s xs
    → interrupt_handler (idt_callbacks handler) 0x20 frame s ≡ some (s', dir, registers)
    → Valid s' xs
ticked-Valid handler frame s s' dir registers xs v e = elim v.current [
  | inl (empty, idle) ↦ absurd (none-ne-some _ (sym (interrupted_idle handler frame s idle) ∙ e))
  | inr (i, h) ↦
      let r : Runs s xs i = record { tasks = v.tasks; current = h } in
      let positive = Chain-positive s.at 0 xs i s.current v.tasks.chain h in
      let next = ticked-Runs frame s xs i r in
      let same : ticked frame s ≡ s' =
        ap (λ o. o.0)
          (some_inj.0
            (sym (timer-ticked handler frame s positive (task_get_next-after s xs i r).1) ∙ e)) in
      let v' : Valid (ticked frame s) xs = record {
        tasks = next.tasks;
        current = inr (after (length xs) i, next.current);
      } in
      subst (λ u. Valid u xs) same v'
]

-- A step from a state with a list of tasks and a current one among them ends in such a state.
Step-Valid :
    {heap : Heap} {handler : Tasks → Control} {m : Memory} {s s' : Tasks} {m' : Memory}
    → Step heap handler s m s' m'
    → (xs : List ℕ) → Valid s xs
    → (xs' : List ℕ) × Valid s' xs'
Step-Valid (created proc ip s m fresh) xs v = (_, task_new-Valid _ proc ip s m xs v (fresh xs v))
Step-Valid (interrupted frame s s' dir registers m e) xs v =
    (xs, ticked-Valid _ frame s s' dir registers xs v e)
Step-Valid (written s m m') xs v = (xs, v)

abbrev pub no_tasks : Tasks
no_tasks = record { current = 0; head = 0; tail = 0; at = λ a. no_task }

pub no_tasks-Valid : Valid no_tasks []
no_tasks-Valid = record {
  tasks = record { head = refl; tail = tt; chain = tt; distinct = tt };
  current = inl (refl, refl);
}

pub Reach-Valid :
    {heap : Heap} {handler : Tasks → Control} {m m' : Memory} {s : Tasks}
    → Reach heap handler no_tasks m s m'
    → (xs : List ℕ) × Valid s xs
Reach-Valid here = ([], no_tasks-Valid)
Reach-Valid (next r st) = let (xs, v) = Reach-Valid r in Step-Valid st xs v
