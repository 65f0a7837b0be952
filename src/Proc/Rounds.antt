-- ===== src/Proc/Rounds.antt =====
-- The rounds of the scheduler: the running process goes back into the queue and the next one runs.
use mathlib.Core.List.{append_assoc, append-nil}
use fusee_os.Base.{
  ℕ, zero, suc, ◌+◌, ◌-◌, ◌^◌, ◌≤◌, ◌<◌, ◌≡◌, refl, sym, ◌∙◌, ap, ap₂, arith, Option, List, [], ◌∷◌,
  ◌++◌, length, length-append,
}
use fusee_os.Proc.{Process, Scheduler, proc_schedule, proc_reschedule, kern_schedule}
use fusee_os.Proc.Arrays.{items}
use fusee_os.Proc.Queue.{
  IsScheduler, contents, head, tail, length-items, proc_schedule-contents, next_proc-contents,
}

head-tail :
    (xs : List (Option ℕ)) (x : Option ℕ) → head (xs ++ x ∷ []) ∷ tail (xs ++ x ∷ []) ≡ xs ++ x ∷ []
head-tail [] x = refl
head-tail (y ∷ xs) x = refl

-- The back buffer is a part of the queue.
back-le : (s : Scheduler) → (s.scheduled (1 - s.front)).size ≤ length (contents s)
back-le s =
    let f = s.scheduled s.front in
    let b = s.scheduled (1 - s.front) in
    omega (
      arith,
      length-append (items f.elements s.index (f.size - s.index)) (items b.elements 0 b.size),
      length-items b.elements 0 b.size,
    )

module _ (fresh : ℕ → Option ℕ) (in8 : ℕ → ℕ) (list : ℕ → Process) where
  -- A timer tick: `proc_reschedule`, then `kern_schedule`.
  pub tick : Scheduler → Scheduler
  tick s = (kern_schedule in8 list (proc_reschedule fresh s)).1

  pub ticks : ℕ → Scheduler → Scheduler
  ticks zero s = s
  ticks (suc n) s = ticks n (tick s)

  -- The processes of a scheduler, the running one first.
  abbrev pub ring : Scheduler → List (Option ℕ)
  ring s = s.current ∷ contents s

  tick-ring :
      (s : Scheduler)
      → IsScheduler s
      → length (contents s) < 1024
      → IsScheduler (tick s) × (ring (tick s) ≡ contents s ++ s.current ∷ [])
  unfolding tick proc_reschedule kern_schedule
  tick-ring s v small =
      let below : (s.scheduled (1 - s.front)).size + 1 < 2 ^ 31 = omega (arith, back-le s) in
      let (v', queued) = proc_schedule-contents fresh s.current s v below in
      let (v'', chosen, left) = next_proc-contents (proc_schedule fresh s.current s) v' in
      (
        v'',
        ap₂ ◌∷◌ (chosen ∙ ap head queued) (left ∙ ap tail queued)
            ∙ head-tail (contents s) s.current,
      )

  turn :
      (xs ys : List (Option ℕ)) (p : Option ℕ) (s : Scheduler)
      → IsScheduler s
      → length (ring s) ≤ 1024
      → ring s ≡ xs ++ p ∷ ys
      → IsScheduler (ticks (length xs) s) × (ring (ticks (length xs) s) ≡ p ∷ ys ++ xs)
  unfolding ticks
  turn [] ys p s v small e = (v, e ∙ ap (◌∷◌ p) (sym (append-nil ys)))
  turn (x ∷ xs) ys p s v small e =
      let first : s.current ≡ x = ap head e in
      let rest : contents s ≡ xs ++ p ∷ ys = ap tail e in
      let (v', e') = tick-ring s v (omega arith) in
      let moved : ring (tick s) ≡ xs ++ p ∷ (ys ++ x ∷ []) =
        e' ∙ ap₂ (λ zs z. zs ++ z ∷ []) rest first ∙ append_assoc xs (p ∷ ys) (x ∷ []) in
      let same_length : length (ring (tick s)) ≤ 1024 =
        omega (arith, ap length e', length-append (contents s) (s.current ∷ [])) in
      let (v'', e'') = turn xs (ys ++ x ∷ []) p (tick s) v' same_length moved in
      (v'', e'' ∙ ap (◌∷◌ p) (append_assoc ys (x ∷ []) xs))

  -- Round robin: in a well-formed scheduler of at most the 1024 processes that gProcessList has,
  -- the running one first, every process runs after as many ticks as there are processes before it,
  -- and those have gone, in their order, behind the ones that waited with it.
  pub ticks-ring :
      (xs ys : List (Option ℕ)) (p : Option ℕ) (s : Scheduler)
      → IsScheduler s
      → length (ring s) ≤ 1024
      → ring s ≡ xs ++ p ∷ ys
      → ((ticks (length xs) s).current ≡ p) × (contents (ticks (length xs) s) ≡ ys ++ xs)
  ticks-ring xs ys p s v small e =
      let (v', e') = turn xs ys p s v small e in (ap head e', ap tail e')
