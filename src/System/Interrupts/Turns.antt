-- ===== src/System/Interrupts/Turns.antt =====
-- The clock runs the tasks of the list in turn, and each goes on where it was interrupted.
use marrow_os.Base.{
  ℕ, ◌≡◌, ◌≢◌, refl, sym, ap, ap₂, subst, ◌⊎◌, inl, inr, map, ◌++◌, ◌∙◌, ==_ne, ==_refl, some, List,
  [], ◌∷◌, length, length-append, arith,
}
use marrow_os.Base.Run.{Run, pure, ◌>>=◌, >>=-some}
use marrow_os.System.Calls.{Control, entered}
use marrow_os.System.Interrupts.{interrupt_handler}
use marrow_os.System.Interrupts.Clock.{
  IsAlive, IsClocked, successor, kept, clocked, interrupt_handler-clock, saved-directory,
}
use marrow_os.System.Tasks.{InterruptFrame, task_save_state, saved_registers}
use marrow_os.System.{Machine, Registers}
use marrow_os.Task.{Tasks, task_get_next}

-- Interrupts of the clock, one after another, each with the frame of the task that it stops, and how each
-- of them ends.
pub ticks : List InterruptFrame → Run Machine (List Control)
ticks [] = pure []
ticks (frame ∷ frames) = do c ← interrupt_handler 0 0x20 frame; cs ← ticks frames; pure (c ∷ cs)

-- In the list of tasks `u` comes behind `c`; the head comes behind the last.
abbrev pub Follows : Tasks → ℕ → ℕ → Type 0
Follows tasks c u =
    (u ≢ 0) × (((tasks.links c).next ≡ u) ⊎ (((tasks.links c).next ≡ 0) × (tasks.head ≡ u)))

-- The tasks `us` come behind `c` in the list, one behind the other, and can be switched to.
abbrev pub Walk : Machine → ℕ → List ℕ → Type 0
Walk s c [] = Unit
Walk s c (u ∷ us) = Follows s.tasks c u × IsAlive s u × Walk s u us

-- None of the tasks is `c`, and they are all different.
abbrev pub Without : ℕ → List ℕ → Type 0
Without c [] = Unit
Without c (u ∷ us) = (u ≢ c) × Without c us

abbrev pub Different : List ℕ → Type 0
Different [] = Unit
Different (u ∷ us) = Without u us × Different us

-- Where the last of the tasks is, or `c` if there are none.
abbrev last_of : ℕ → List ℕ → ℕ
last_of c [] = c
last_of c (u ∷ us) = last_of u us

-- What the program had in its registers when it was interrupted.
abbrev pub Restores : InterruptFrame → Registers → Type 0
Restores frame r =
    (r.edi ≡ frame.edi)
    × (r.esi ≡ frame.esi)
    × (r.ebp ≡ frame.ebp)
    × (r.ebx ≡ frame.ebx)
    × (r.edx ≡ frame.edx)
    × (r.ecx ≡ frame.ecx)
    × (r.eax ≡ frame.eax)
    × (r.ip ≡ frame.ip)
    × (r.cs ≡ frame.cs)
    × (r.flags ≡ frame.flags)
    × (r.esp ≡ frame.esp)
    × (r.ss ≡ frame.ss)

module _ (frame : InterruptFrame) (s : Machine) where
  IsAlive-clocked : (t : ℕ) → IsAlive s t → IsAlive (clocked frame s) t
  IsAlive-clocked t alive = (alive.0, rw (saved-directory s.tasks.current t frame _) alive.1)

  Walk-clocked : (us : List ℕ) (c : ℕ) → Walk s c us → Walk (clocked frame s) c us
  unfolding task_save_state
  Walk-clocked [] c h = tt
  Walk-clocked (u ∷ us) c h = (h.0, IsAlive-clocked u h.1, Walk-clocked us u h.2)

  IsClocked-clocked : IsClocked s → IsClocked (clocked frame s)
  unfolding task_save_state
  IsClocked-clocked c = record { callback = c.callback; chunk = c.chunk }

  other-registers : (t : ℕ) → t ≢ s.tasks.current → (kept frame s).task t ≡ s.task t
  unfolding task_save_state
  other-registers t ne = rw (==_ne t s.tasks.current ne) refl

  others-registers :
      (us : List ℕ)
      → Without s.tasks.current us
      → map (λ u. entered ((kept frame s).task u).registers) us
        ≡ map (λ u. entered (s.task u).registers) us
  others-registers [] h = refl
  others-registers (u ∷ us) h =
      ap₂ (λ c cs. c ∷ cs) (ap (λ fields. entered fields.registers) (other-registers u h.0))
        (others-registers us h.1)

  own-registers : ((kept frame s).task s.tasks.current).registers ≡ saved_registers frame
  unfolding task_save_state
  own-registers = rw (==_refl s.tasks.current) refl

  successor-Follows : (c u : ℕ) → Follows s.tasks c u → successor s c ≡ u
  unfolding task_get_next
  successor-Follows c u (ne, inl e) = rw (e, ==_ne u 0 ne) refl
  successor-Follows c u (ne, inr (e, head)) = rw e head

  -- A tick when the successor is known.
  tick :
      (n : ℕ)
      → IsClocked s
      → s.tasks.current ≢ 0
      → IsAlive s n
      → Follows s.tasks s.tasks.current n
      → (interrupt_handler 0 0x20 frame s
          ≡ some (entered ((kept frame s).task n).registers, clocked frame s))
        × ((clocked frame s).tasks.current ≡ n)
  tick n c current alive f =
      let e = successor-Follows s.tasks.current n f in
      (
        subst
            (λ x.
              interrupt_handler 0 0x20 frame s
              ≡ some (entered ((kept frame s).task x).registers, clocked frame s))
            e (interrupt_handler-clock 0 frame s c current (subst (IsAlive s) (sym e) alive)),
        e,
      )

-- One interrupt, and those behind it.
tick_on :
    (frame : InterruptFrame) (frames : List InterruptFrame) (u : ℕ) (cs : List Control)
    (s s' : Machine)
    → IsClocked s
    → s.tasks.current ≢ 0
    → IsAlive s u
    → Follows s.tasks s.tasks.current u
    → ticks frames (clocked frame s) ≡ some (cs, s')
    → ticks (frame ∷ frames) s ≡ some (entered ((kept frame s).task u).registers ∷ cs, s')
unfolding ticks
tick_on frame frames u cs s s' c current alive f more =
    let (run, now) = tick frame s u c current alive f in
    >>=-some (interrupt_handler 0 0x20 frame) _ s (clocked frame s) _ run
    ∙ >>=-some (ticks frames) _ (clocked frame s) s' cs more

-- The tasks behind the current one, which are all different and not the current one, are entered in turn.
ticks-Walk :
    (fs : List InterruptFrame) (us : List ℕ) (s : Machine)
    → length fs ≡ length us
    → IsClocked s
    → IsAlive s s.tasks.current
    → Walk s s.tasks.current us
    → Without s.tasks.current us
    → Different us
    → (s' : Machine) × (ticks fs s ≡ some (map (λ u. entered (s.task u).registers) us, s'))
      × (s'.tasks.current ≡ last_of s.tasks.current us)
unfolding ticks
ticks-Walk [] [] s l c alive walk without different = (s, refl, refl)
ticks-Walk [] (u ∷ us) s l c alive walk without different = absurd (omega arith)
ticks-Walk (f ∷ fs) [] s l c alive walk without different = absurd (omega arith)
ticks-Walk (f ∷ fs) (u ∷ us) s l c alive walk without different =
    let (run, now) = tick f s u c alive.0 walk.1 walk.0 in
    let there = sym now in
    let (s', more, at) =
      ticks-Walk fs us (clocked f s) (omega arith) (IsClocked-clocked f s c)
        (subst (IsAlive (clocked f s)) there (IsAlive-clocked f s u walk.1))
        (subst (λ x. Walk (clocked f s) x us) there (Walk-clocked f s us u walk.2))
        (subst (λ x. Without x us) there different.0) different.1 in
    (
      s',
      tick_on f fs u _ s s' c alive.0 walk.1 walk.0 more
          ∙ ap (λ cs. some (cs, s')) (others-registers f s (u ∷ us) without),
      at ∙ ap (λ x. last_of x us) now,
    )

-- A whole round of the list: the other tasks, and then the current one again.
module _ (frame : InterruptFrame) (s : Machine) where
  Without-snoc : (t c : ℕ) (us : List ℕ) → Without t us → c ≢ t → Without t (us ++ c ∷ [])
  Without-snoc t c [] h ne = (ne, tt)
  Without-snoc t c (u ∷ us) h ne = (h.0, Without-snoc t c us h.1 ne)

  Different-snoc : (c : ℕ) (us : List ℕ) → Different us → Without c us → Different (us ++ c ∷ [])
  Different-snoc c [] h w = (tt, tt)
  Different-snoc c (u ∷ us) h w =
      (Without-snoc u c us h.0 (λ e. w.0 (sym e)), Different-snoc c us h.1 w.1)

  last_of-snoc : (t c : ℕ) (us : List ℕ) → last_of t (us ++ c ∷ []) ≡ c
  last_of-snoc t c [] = refl
  last_of-snoc t c (u ∷ us) = last_of-snoc u c us

  -- What is entered in a round.
  round_registers :
      (us : List ℕ)
      → Without s.tasks.current us
      → map (λ u. entered ((kept frame s).task u).registers) (us ++ s.tasks.current ∷ [])
        ≡ map (λ u. entered (s.task u).registers) us ++ entered (saved_registers frame) ∷ []
  round_registers [] h = ap (λ r. entered r ∷ []) (own-registers frame s)
  round_registers (u ∷ us) h =
      ap₂ (λ c cs. c ∷ cs) (ap (λ fields. entered fields.registers) (other-registers frame s u h.0))
        (round_registers us h.1)

  round_runs :
      (fs : List InterruptFrame) (ts : List ℕ)
      → length fs ≡ length ts
      → IsClocked s
      → IsAlive s s.tasks.current
      → Walk s s.tasks.current (ts ++ s.tasks.current ∷ [])
      → Without s.tasks.current ts
      → Different ts
      → (s' : Machine) × (ticks (frame ∷ fs) s
          ≡ some (
            map (λ u. entered ((kept frame s).task u).registers) (ts ++ s.tasks.current ∷ []),
            s',
          ))
        × (s'.tasks.current ≡ s.tasks.current)
  unfolding ticks
  round_runs [] [] l c alive walk without different =
      let (run, now) = tick frame s s.tasks.current c alive.0 walk.1 walk.0 in
      (
        clocked frame s,
        tick_on frame [] s.tasks.current [] s (clocked frame s) c alive.0 walk.1 walk.0 refl,
        now,
      )
  round_runs [] (u ∷ us) l c alive walk without different = absurd (omega arith)
  round_runs (f ∷ fs) [] l c alive walk without different = absurd (omega arith)
  round_runs (f ∷ fs) (u ∷ us) l c alive walk without different =
      let (run, now) = tick frame s u c alive.0 walk.1 walk.0 in
      let there = sym now in
      let behind = us ++ s.tasks.current ∷ [] in
      let s1 = clocked frame s in
      let (s', more, at) =
        ticks-Walk (f ∷ fs) behind s1 (omega (arith, length-append us (s.tasks.current ∷ [])))
          (IsClocked-clocked frame s c)
          (subst (IsAlive s1) there (IsAlive-clocked frame s u walk.1))
          (subst (λ x. Walk s1 x behind) there (Walk-clocked frame s behind u walk.2))
          (subst (λ x. Without x behind) there
            (Without-snoc u s.tasks.current us different.0 (λ e. without.0 (sym e))))
          (Different-snoc s.tasks.current us different.1 without.1) in
      (
        s',
        tick_on frame (f ∷ fs) u _ s s' c alive.0 walk.1 walk.0 more,
        at ∙ last_of-snoc s1.tasks.current s.tasks.current us,
      )

-- Where the clock has its callback and the tasks behind the current one, around the list to the
-- current one again, are all different and can be switched to, as many interrupts of the clock as
-- there are tasks enter each of the others once, in the order of the list, with its registers,
-- and then the current task with exactly the registers that it had when it was interrupted.
pub ticks-resumes :
    (frame : InterruptFrame) (fs : List InterruptFrame) (ts : List ℕ) (s : Machine)
    → length fs ≡ length ts
    → IsClocked s
    → IsAlive s s.tasks.current
    → Walk s s.tasks.current (ts ++ s.tasks.current ∷ [])
    → Without s.tasks.current ts
    → Different ts
    → (s' : Machine) × (r : Registers) × (ticks (frame ∷ fs) s
        ≡ some (map (λ u. entered (s.task u).registers) ts ++ entered r ∷ [], s'))
      × Restores frame r
      × (s'.tasks.current ≡ s.tasks.current)
unfolding saved_registers
ticks-resumes frame fs ts s l c alive walk without different =
    let (s', run, now) = round_runs frame s fs ts l c alive walk without different in
    (
      s',
      saved_registers frame,
      run ∙ ap (λ cs. some (cs, s')) (round_registers frame s ts without),
      (refl, refl, refl, refl, refl, refl, refl, refl, refl, refl, refl, refl),
      now,
    )
