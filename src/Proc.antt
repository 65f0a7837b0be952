-- ===== src/Proc.antt =====
-- Processes and their scheduler, src/kernel/proc.c, and the growing array of
-- src/kernel/common/array.c. A process is named by its index in gProcessList. What kmalloc's memory
-- holds at first is a parameter; physical memory is read through its mapping, a page of entries at
-- each physical address.
pub mod Arrays
pub mod Queue
pub mod Rounds
pub mod Create
mod Tests
use fusee_os.Base.{
  ℕ, zero, suc, ◌+◌, ◌-◌, ◌*◌, ◌/◌, ◌%◌, ◌^◌, Bool, true, false, Option, none, some, List, [], ◌∷◌,
  ltb, ◌==◌, if◌then◌else◌, u32, u64, store,
}
use fusee_os.Phys.{Allocator, alloc_phys, page_size}
use fusee_os.Arch.{Out, timer_ns}

-- `Array`, with the elements behind `data`, the size of one that the callers give, and the size in
-- bytes of the buffer at `data`.
pub record Array {ℓ} (A : Type ℓ) : Type ℓ where
  pub elements : ℕ → A
  pub size : ℕ
  pub capacity : ℕ
  pub element_size : ℕ
  pub bytes : ℕ

-- `fresh` is what the memory holds that kmalloc returns.
pub array_init {ℓ} : {A : Type ℓ} → (ℕ → A) → ℕ → ℕ → Array A
array_init fresh element_size capacity = record {
  elements = fresh;
  size = 0;
  capacity = capacity;
  element_size = element_size;
  bytes = u64 (element_size * capacity);
}

-- The buffer of half as much again, with the old elements copied.
pub array_grow {ℓ} : {A : Type ℓ} → (ℕ → A) → Array A → Array A
array_grow fresh a =
    let capacity = u64 (a.capacity + a.capacity / 2) in
    record a {
      elements = λ i. if ltb i a.capacity then a.elements i else fresh i;
      capacity = capacity;
      bytes = u64 (capacity * a.element_size);
    }

-- The index of the new element, and the array that has it.
pub array_emplace {ℓ} : {A : Type ℓ} → (ℕ → A) → Array A → ℕ × Array A
array_emplace fresh a =
    let a' = if ltb a.size a.capacity then a else array_grow fresh a in
    (a'.size, record a' { size = u64 (a'.size + 1) })

-- `*ARRAY_EMPLACE(a, type) = x`
pub push {ℓ} : {A : Type ℓ} → (ℕ → A) → A → Array A → Array A
push fresh x a =
    let (index, a') = array_emplace fresh a in record a' { elements = store a'.elements index x }

-- `ARRAY_BACK`: the element at the index `size`.
pub array_back {ℓ} : {A : Type ℓ} → Array A → A
array_back a = a.elements a.size

pub array_pop {ℓ} : {A : Type ℓ} → Array A → Array A
array_pop a = record a { size = (a.size + 2 ^ 64 - 1) % 2 ^ 64 }

pub array_empty {ℓ} : {A : Type ℓ} → Array A → Bool
array_empty a = a.size == 0

-- `Process`
pub record Process : Type 0 where
  pub regs : ℕ → ℕ
  pub extra : ℕ → ℕ
  pub run : ℕ
  pub cr3 : ℕ

-- The scheduler's variables, with `none` for NULL, and the process of the thread 0.
pub record Scheduler : Type 0 where
  pub scheduled : ℕ → Array (Option ℕ)
  pub front : ℕ
  pub index : ℕ
  pub current : Option ℕ

pub proc_schedule : (ℕ → Option ℕ) → Option ℕ → Scheduler → Scheduler
proc_schedule fresh proc s =
    let back = 1 - s.front in
    record s { scheduled = store s.scheduled back (push fresh proc (s.scheduled back)) }

pub proc_reschedule : (ℕ → Option ℕ) → Scheduler → Scheduler
proc_reschedule fresh s = proc_schedule fresh s.current s

-- The swap of the two buffers.
pub swap_buffers : Scheduler → Scheduler
swap_buffers s = record s {
  scheduled = store s.scheduled s.front (record (s.scheduled s.front) { size = 0 });
  front = 1 - s.front;
  index = 0;
}

-- The element at the cursor of the front buffer, which moves on. `gScheduledProcsIndex` is an
-- `int`, which a count of fewer than 2^31 processes does not exceed.
pub take_front : Scheduler → Option ℕ × Scheduler
take_front s = ((s.scheduled s.front).elements s.index, record s { index = u32 (s.index + 1) })

pub next_proc : Scheduler → Option ℕ × Scheduler
next_proc s =
    if ltb s.index (s.scheduled s.front).size
    then take_front s
    else let s' = swap_buffers s in
      if array_empty (s'.scheduled s'.front) then (none, s') else take_front s'

-- What the processor does once a process is chosen: the table loaded, the writes to the timer, and
-- the process that runs; or the wait for an interrupt.
pub data Switch : Type 0 where
  sched_exec : ℕ → List Out → ℕ → Switch
  sched_wait : Switch

pub switch_to : (ℕ → ℕ) → (ℕ → Process) → Option ℕ → Switch
switch_to in8 list none = sched_wait
switch_to in8 list (some proc) = sched_exec (list proc).cr3 (timer_ns in8 100_000) proc

pub kern_schedule : (ℕ → ℕ) → (ℕ → Process) → Scheduler → Switch × Scheduler
kern_schedule in8 list s =
    let (chosen, s') = next_proc s in (switch_to in8 list chosen, record s' { current = chosen })

-- The length of `gProcessList`.
abbrev pub max_processes : ℕ
max_processes = 1024

-- The process table, and the free list of its indices.
pub record Table : Type 0 where
  pub list : ℕ → Process
  pub list_size : ℕ
  pub free : Array ℕ

-- The new page directory: the low half cleared, the high half that of the kernel.
pub create_cr3 : ℕ → Allocator → (ℕ → ℕ → ℕ) → Option (ℕ × Allocator × (ℕ → ℕ → ℕ))
create_cr3 cr3_kernel a dirs = elim (alloc_phys page_size a) [
  | none ↦ none
  | some (cr3_user, a') ↦ some (
    cr3_user,
    a',
    store dirs cr3_user
        (λ i. if ltb i 256 then 0 else (if ltb i 512 then dirs cr3_kernel i else dirs cr3_user i)),
  )
]

-- The index that `proc_create` takes. `gProcessList` has 1024 entries, which the code does not
-- test.
pub take_index : Table → ℕ × Table
take_index t =
    if array_empty t.free
    then (t.list_size, record t { list_size = u64 (t.list_size + 1) })
    else (array_back t.free, record t { free = array_pop t.free })

-- `proc_run` is the address of the function.
pub proc_create :
    ℕ → ℕ → Table → Allocator → (ℕ → ℕ → ℕ) → Option (ℕ × Table × Allocator × (ℕ → ℕ → ℕ))
proc_create proc_run cr3_kernel t a dirs =
    let (proc, t') = take_index t in
    elim (create_cr3 cr3_kernel a dirs) [
      | none ↦ none
      | some (cr3, a', dirs') ↦ some (
        proc,
        record t' {
          list =
              store t'.list proc
                (record { regs = λ i. 0; extra = λ i. 0; run = proc_run; cr3 = cr3 });
        },
        a',
        dirs',
      )
    ]

-- `proc_init`; an array of 16 elements each.
pub proc_init : (ℕ → ℕ) → (ℕ → Option ℕ) → Table → Scheduler → Table × Scheduler
proc_init fresh_index fresh t s = (
  record t { list_size = 0; free = array_init fresh_index 8 16 },
  record s {
    scheduled = store (store s.scheduled 0 (array_init fresh 8 16)) 1 (array_init fresh 8 16);
    front = 0;
    index = 0;
  },
)
