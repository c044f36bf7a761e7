-- ===== src/Task/Rounds.antt =====
-- task.c, idt.c: how many timer interrupts a task waits for the processor, and with which registers it
-- goes on.
use enki_os.Base.{
  ℕ, zero, suc, ◌+◌, ◌-◌, ◌≤◌, ◌<◌, ◌≡◌, ◌≢◌, ◌∙◌, refl, sym, ap, some, List, [], ◌∷◌, arith, ltb,
  if◌then◌else◌, length, get_elem?,
}
use mathlib.Core.Path.{subst}
use mathlib.Core.Option.{some_inj}
use enki_os.Task.{Task, Tasks, Registers, task_get_next}
use enki_os.Task.Interrupts.{Control}
use enki_os.Task.Links.{Chain, Absent, Distinct}
use enki_os.Task.Schedule.{
  after, Runs, ticked, ticked-Runs, task_get_next-after, task_save_state_others,
  task_save_state_self, timer-ticked, task_save_state-links, loaded, ticks, get_elem?-lt,
}

-- The interrupts until the task at `j` runs, from the one at `i`: a whole round where they are one.
abbrev pub turns : ℕ → ℕ → ℕ → ℕ
turns n i j = if ltb i j then j - i else (n - i) + j

turns-one : (n i j : ℕ) → i < n → j < n → i ≢ j → 1 ≡ turns n i j → after n i ≡ j
turns-one n i j hi hj ne e = ground arith

turns-more :
    (n i j k : ℕ)
    → i < n
    → j < n
    → suc (suc k) ≡ turns n i j
    → (after n i ≢ j) × (suc k ≡ turns n (after n i) j)
turns-more n i j k hi hj e = ground arith

round_ahead :
    (n i k : ℕ) → i < n → suc (suc k) ≡ n → (after n i ≢ i) × (suc k ≡ turns n (after n i) i)
round_ahead n i k hi e = ground arith

turns-positive : (n i j : ℕ) → i < n → j < n → 0 < turns n i j
turns-positive n i j hi hj = ground arith

turns-le : (n i j : ℕ) → i < n → j < n → turns n i j ≤ n
turns-le n i j hi hj = ground arith

pub Absent-elem : (x : ℕ) (xs : List ℕ) (i a : ℕ) → Absent x xs → get_elem? xs i ≡ some a → x ≢ a
Absent-elem x [] i a absent h = cc
Absent-elem x (y ∷ ys) zero a (ne, absent) h = λ e. ne (e ∙ sym (some_inj.0 h))
Absent-elem x (y ∷ ys) (suc i) a (ne, absent) h = Absent-elem x ys i a absent h

Distinct-elems :
    (xs : List ℕ) (i j a b : ℕ)
    → Distinct xs
    → get_elem? xs i ≡ some a
    → get_elem? xs j ≡ some b
    → i ≢ j
    → a ≢ b
Distinct-elems [] i j a b d h h' ne = cc
Distinct-elems (x ∷ xs) zero zero a b d h h' ne = absurd (ne refl)
Distinct-elems (x ∷ xs) zero (suc j) a b (out, d) h h' ne =
    λ e. Absent-elem x xs j b out h' (some_inj.0 h ∙ e)
Distinct-elems (x ∷ xs) (suc i) zero a b (out, d) h h' ne =
    λ e. Absent-elem x xs i a out h (some_inj.0 h' ∙ sym e)
Distinct-elems (x ∷ xs) (suc i) (suc j) a b (out, d) h h' ne =
    Distinct-elems xs i j a b d h h' (λ e. ne (ap suc e))

pub Chain-positive :
    (at : ℕ → Task) (p : ℕ) (xs : List ℕ) (i a : ℕ)
    → Chain at p xs
    → get_elem? xs i ≡ some a
    → 0 < a
Chain-positive at p [] i a chain h = cc
Chain-positive at p (x ∷ xs) zero a chain h = rw (← some_inj.0 h) chain.0
Chain-positive at p (x ∷ xs) (suc i) a (positive, prev, next, chain) h =
    Chain-positive at x xs i a chain h

-- The processor goes on with task `b`: it is the current one, and its page directory and registers
-- are those that stood in `s`, or the registers of a frame.
pub record GoesOn (s : Tasks) (xs : List ℕ) (j b : ℕ) (registers : Registers)
    (out : Tasks × ℕ × Registers) : Type 0 where
  pub runs : Runs out.0 xs j
  pub current : out.0.current ≡ b
  pub directory : out.1 ≡ (s.at b).page_dir
  pub loaded : out.2 ≡ registers

module _ (handler : Tasks → Control) where
  ticks-cons :
      (f : Registers) (fs : List Registers) (s : Tasks) (dir : ℕ) (r : Registers) (xs : List ℕ)
      (i : ℕ)
      → Runs s xs i
      → ticks handler (f ∷ fs) (s, dir, r) ≡ ticks handler fs (loaded f s)
  ticks-cons f fs s dir r xs i runs =
      let positive = Chain-positive s.at 0 xs i s.current runs.tasks.chain runs.current in
      rw (timer-ticked handler f s positive (task_get_next-after s xs i runs).1) refl

  ticked-page_dir :
      (f : Registers) (s : Tasks) (b : ℕ) → ((ticked f s).at b).page_dir ≡ (s.at b).page_dir
  ticked-page_dir f s b = (task_save_state-links s.current f s b).2

  -- One interrupt, after which the task at `j` runs.
  ticks-one :
      (f : Registers) (s : Tasks) (dir : ℕ) (r : Registers) (xs : List ℕ) (i j b : ℕ)
      → Runs s xs i
      → get_elem? xs j ≡ some b
      → after (length xs) i ≡ j
      → (out : Tasks × ℕ × Registers) × (ticks handler (f ∷ []) (s, dir, r) ≡ some out)
        × GoesOn s xs j b ((ticked f s).at b).registers out
  ticks-one f s dir r xs i j b runs there here =
      let back = ticked-Runs f s xs i runs in
      let next : task_get_next s ≡ b =
        some_inj.0 (sym back.current ∙ ap (get_elem? xs) here ∙ there) in
      (
        loaded f s,
        ticks-cons f [] s dir r xs i runs,
        record {
          runs = subst (λ k. Runs (ticked f s) xs k) here back;
          current = next;
          directory = ap (λ a. (s.at a).page_dir) next;
          loaded = ap (λ a. ((ticked f s).at a).registers) next;
        },
      )

  -- The task at `j` runs after `turns` interrupts, with the directory and the registers that it had.
  ticks-turns :
      (fs : List Registers) (s : Tasks) (dir : ℕ) (r : Registers) (xs : List ℕ) (i j b : ℕ)
      → Runs s xs i
      → get_elem? xs j ≡ some b
      → i ≢ j
      → length fs ≡ turns (length xs) i j
      → (out : Tasks × ℕ × Registers) × (ticks handler fs (s, dir, r) ≡ some out)
        × GoesOn s xs j b (s.at b).registers out
  ticks-turns [] s dir r xs i j b runs there ne e =
      let li = get_elem?-lt xs i s.current runs.current in
      let lj = get_elem?-lt xs j b there in
      absurd (omega (arith, turns-positive (length xs) i j li lj, e))
  ticks-turns (f ∷ []) s dir r xs i j b runs there ne e =
      let li = get_elem?-lt xs i s.current runs.current in
      let lj = get_elem?-lt xs j b there in
      let here : after (length xs) i ≡ j = turns-one (length xs) i j li lj ne e in
      let other =
        Distinct-elems xs j i b s.current runs.tasks.distinct there runs.current
          (λ p. ne (sym p)) in
      let (out, run, on) = ticks-one f s dir r xs i j b runs there here in
      (
        out,
        run,
        record {
          runs = on.runs;
          current = on.current;
          directory = on.directory;
          loaded = on.loaded ∙ task_save_state_others s.current f s b other;
        },
      )
  ticks-turns (f ∷ f' ∷ fs) s dir r xs i j b runs there ne e =
      let li = get_elem?-lt xs i s.current runs.current in
      let lj = get_elem?-lt xs j b there in
      let (ne', e') = turns-more (length xs) i j (length fs) li lj e in
      let other =
        Distinct-elems xs j i b s.current runs.tasks.distinct there runs.current
          (λ p. ne (sym p)) in
      let (out, run, on) =
        ticks-turns (f' ∷ fs) (ticked f s) (loaded f s).1 (loaded f s).2 xs (after (length xs) i) j
          b (ticked-Runs f s xs i runs) there ne' e' in
      (
        out,
        ticks-cons f (f' ∷ fs) s dir r xs i runs ∙ run,
        record {
          runs = on.runs;
          current = on.current;
          directory = on.directory ∙ ticked-page_dir f s b;
          loaded = on.loaded ∙ task_save_state_others s.current f s b other;
        },
      )

  -- In any state where a task of the list runs, each other task runs after at most as many
  -- interrupts as there are tasks: the processor goes on with the page directory and the registers that
  -- it had.
  pub ticks-current :
      (fs : List Registers) (s : Tasks) (dir : ℕ) (r : Registers) (xs : List ℕ) (i j b : ℕ)
      → Runs s xs i
      → get_elem? xs j ≡ some b
      → i ≢ j
      → length fs ≡ turns (length xs) i j
      → (length fs ≤ length xs)
        × ((out : Tasks × ℕ × Registers) × (ticks handler fs (s, dir, r) ≡ some out)
            × GoesOn s xs j b (s.at b).registers out)
  ticks-current fs s dir r xs i j b runs there ne e =
      let li = get_elem?-lt xs i s.current runs.current in
      let lj = get_elem?-lt xs j b there in
      (
        omega (arith, turns-le (length xs) i j li lj, e),
        ticks-turns fs s dir r xs i j b runs there ne e,
      )

  resume_alone :
      (f : Registers) (s : Tasks) (xs : List ℕ) (i : ℕ)
      → Runs s xs i
      → 1 ≡ length xs
      → after (length xs) i ≡ i
  resume_alone f s xs i r e = let li = get_elem?-lt xs i s.current r.current in ground arith

  -- A task that is interrupted, in a list of as many tasks as there are interrupts, is the one that the
  -- processor goes on with after the last of them: with its page directory, and with the frame's
  -- registers.
  pub ticks-registers :
      (f : Registers) (fs : List Registers) (s : Tasks) (dir : ℕ) (r : Registers) (xs : List ℕ)
      (i : ℕ)
      → Runs s xs i
      → suc (length fs) ≡ length xs
      → (out : Tasks × ℕ × Registers) × (ticks handler (f ∷ fs) (s, dir, r) ≡ some out)
        × GoesOn s xs i s.current f out
  ticks-registers f [] s dir r xs i runs e =
      let (out, run, on) =
        ticks-one f s dir r xs i i s.current runs runs.current (resume_alone f s xs i runs e) in
      (
        out,
        run,
        record {
          runs = on.runs;
          current = on.current;
          directory = on.directory;
          loaded = on.loaded ∙ task_save_state_self s.current f s;
        },
      )
  ticks-registers f (f' ∷ fs) s dir r xs i runs e =
      let li = get_elem?-lt xs i s.current runs.current in
      let ahead : (after (length xs) i ≢ i)
          × (suc (length fs) ≡ turns (length xs) (after (length xs) i) i) =
        round_ahead (length xs) i (length fs) li e in
      let (out, run, on) =
        ticks-turns (f' ∷ fs) (ticked f s) (loaded f s).1 (loaded f s).2 xs (after (length xs) i) i
          s.current (ticked-Runs f s xs i runs) runs.current ahead.0 ahead.1 in
      (
        out,
        ticks-cons f (f' ∷ fs) s dir r xs i runs ∙ run,
        record {
          runs = on.runs;
          current = on.current;
          directory = on.directory ∙ ticked-page_dir f s s.current;
          loaded = on.loaded ∙ task_save_state_self s.current f s;
        },
      )
