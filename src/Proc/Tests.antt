-- ===== src/Proc/Tests.antt =====
-- A scheduler with a process in each buffer, a free list and a page allocator, and the theorems
-- there.
use fusee_os.Base.{ℕ, ◌+◌, ◌≡◌, refl, arith, Option, none, some, [], ◌∷◌}
use fusee_os.Phys.{Allocator}
use fusee_os.Phys.Samples.{allocator, allocator-IsValid}
use fusee_os.Base.Bits.{bit}
use fusee_os.Phys.Marks.{page_state}
use fusee_os.Proc.{Array, push, Process, Table, Scheduler, next_proc, proc_create}
use fusee_os.Proc.Arrays.{IsArray, Pushes, push-Pushes}
use fusee_os.Proc.Queue.{IsScheduler, contents, next_proc-contents}
use fusee_os.Proc.Rounds.{ticks, ticks-ring}
use fusee_os.Proc.Create.{Creates, proc_create-Creates}

-- Process 5 waits in the front buffer, process 6 in the back buffer, and process 4 runs.
abbrev buffers : ℕ → Array (Option ℕ)
buffers k = record {
  elements = λ i. some (5 + k);
  size = 1;
  capacity = 16;
  element_size = 8;
  bytes = 128;
}

abbrev scheduler : Scheduler
scheduler = record { scheduled = buffers; front = 0; index = 0; current = some 4 }

buffers-IsArray : (k : ℕ) → IsArray (buffers k)
buffers-IsArray k = record {
  fits = omega arith;
  room = omega arith;
  short = omega arith;
  element = omega arith;
  buffer = refl;
}

scheduler-IsScheduler : IsScheduler scheduler
scheduler-IsScheduler = record {
  side = omega arith;
  cursor = omega arith;
  front_array = buffers-IsArray 0;
  back_array = buffers-IsArray 1;
  few_front = omega arith;
  few_back = omega arith;
}

abbrev fresh : ℕ → Option ℕ
fresh i = none

abbrev full : Array ℕ
full = record { elements = λ i. i; size = 2; capacity = 2; element_size = 8; bytes = 16 }

full-IsArray : IsArray full
full-IsArray = record {
  fits = omega arith;
  room = omega arith;
  short = omega arith;
  element = omega arith;
  buffer = refl;
}

push-Pushes_example : Pushes 7 full (push (λ i. 0) 7 full)
push-Pushes_example = push-Pushes (λ i. 0) 7 full full-IsArray (omega arith)

next_proc-contents_example :
    let (chosen, s') = next_proc scheduler in
    IsScheduler s' × (chosen ≡ some 5) × (contents s' ≡ some 6 ∷ [])
next_proc-contents_example = next_proc-contents scheduler scheduler-IsScheduler

abbrev no_process : Process
no_process = record { regs = λ i. 0; extra = λ i. 0; run = 0; cr3 = 0 }

-- After one tick process 5 runs, before 6 and 4.
ticks-ring_example :
    ((ticks fresh (λ i. 0) (λ i. no_process) 1 scheduler).current ≡ some 5)
    × (contents (ticks fresh (λ i. 0) (λ i. no_process) 1 scheduler) ≡ some 6 ∷ some 4 ∷ [])
ticks-ring_example =
    ticks-ring fresh (λ i. 0) (λ i. no_process) (some 4 ∷ []) (some 6 ∷ []) (some 5) scheduler
      scheduler-IsScheduler (omega arith) refl

abbrev table : Table
table = record {
  list = λ i. no_process;
  list_size = 3;
  free = record { elements = λ i. 0; size = 0; capacity = 16; element_size = 4; bytes = 64 };
}

free_page : page_state allocator.blocks 0x1000000 ≡ some 0
unfolding page_state bit
free_page = refl

proc_create-Creates_example :
    (proc : ℕ) × (t' : Table) × (a' : Allocator) × (dirs' : ℕ → ℕ → ℕ) × (proc_create 0x1234 0x2000
        table allocator
        (λ p i. i)
      ≡ some (proc, t', a', dirs'))
    × Creates 0x1234 0x2000 table allocator (λ p i. i) proc t' a' dirs'
proc_create-Creates_example =
    proc_create-Creates 0x1234 0x2000 table allocator (λ p i. i) 0x1000000 allocator-IsValid
      free_page refl (omega arith)
