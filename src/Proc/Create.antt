-- ===== src/Proc/Create.antt =====
-- The processes that `proc_create` makes.
use fusee_os.Base.{
  ℕ, ◌+◌, ◌^◌, ◌%◌, ◌≤◌, ◌<◌, ◌≡◌, ◌≢◌, refl, ap, arith, some, ltb, lt→ltb, le→ltb, store, ◌==◌,
  ne→==, ==_refl, false, if◌then◌else◌,
}
use fusee_os.Phys.{Allocator, alloc_phys, page_size}
use fusee_os.Phys.Marks.{page_state}
use fusee_os.Phys.Valid.{IsValid}
use fusee_os.Phys.Contract.{IsTaken, alloc_phys-Serves, Serves-served}
use fusee_os.Proc.{
  max_processes, push, array_back, array_pop, array_empty, Table, take_index, create_cr3,
  proc_create,
}
use fusee_os.Proc.Arrays.{IsArray, push-Pushes}

-- A new process at an index that was not in use, in an address space of its own.
pub record Creates (proc_run cr3_kernel : ℕ) (t : Table) (a : Allocator) (dirs : ℕ → ℕ → ℕ)
    (proc : ℕ) (t' : Table) (a' : Allocator) (dirs' : ℕ → ℕ → ℕ) : Type 0 where
  pub in_list : proc < max_processes
  pub taken : IsTaken a (t'.list proc).cr3 a'
  pub next : proc ≡ t.list_size
  pub counted : t'.list_size ≡ t.list_size + 1
  pub runs : (t'.list proc).run ≡ proc_run
  pub blank : (i : ℕ) → (t'.list proc).regs i ≡ 0
  pub others : (q : ℕ) → q ≢ proc → t'.list q ≡ t.list q
  pub user_half : (i : ℕ) → i < 256 → dirs' (t'.list proc).cr3 i ≡ 0
  pub kernel_half : (i : ℕ) → 256 ≤ i → i < 512 → dirs' (t'.list proc).cr3 i ≡ dirs cr3_kernel i
  pub other_dirs : (p : ℕ) → p ≢ (t'.list proc).cr3 → dirs' p ≡ dirs p

take_index-empty :
    (t : Table)
    → t.free.size ≡ 0
    → t.list_size + 1 < 2 ^ 64
    → take_index t ≡ (t.list_size, record t { list_size = t.list_size + 1 })
unfolding take_index array_empty
take_index-empty t e small =
    let kept : (t.list_size + 1) % 2 ^ 64 ≡ t.list_size + 1 = omega arith in rw (e, kept) refl

-- The page directory that `create_cr3` fills in.
directory : ℕ → (ℕ → ℕ → ℕ) → ℕ → ℕ → ℕ → ℕ
directory cr3_kernel dirs cr3_user =
    store dirs cr3_user
      (λ i. if ltb i 256 then 0 else (if ltb i 512 then dirs cr3_kernel i else dirs cr3_user i))

create_cr3-alloc_phys :
    (cr3_kernel p : ℕ) (a a' : Allocator) (dirs : ℕ → ℕ → ℕ)
    → alloc_phys page_size a ≡ some (p, a')
    → create_cr3 cr3_kernel a dirs ≡ some (p, a', directory cr3_kernel dirs p)
unfolding create_cr3 directory
create_cr3-alloc_phys cr3_kernel p a a' dirs run = rw (run, create_cr3) refl

created : ℕ → ℕ → Table → Table
created proc_run p t = record t {
  list =
      store t.list t.list_size (record { regs = λ i. 0; extra = λ i. 0; run = proc_run; cr3 = p });
  list_size = t.list_size + 1;
}

created-Creates :
    (proc_run cr3_kernel p : ℕ) (t : Table) (a a' : Allocator) (dirs : ℕ → ℕ → ℕ)
    → t.list_size < max_processes
    → IsTaken a p a'
    → Creates proc_run cr3_kernel t a dirs t.list_size
        (created proc_run p t)
        a'
        (directory cr3_kernel dirs p)
unfolding created directory
created-Creates proc_run cr3_kernel p t a a' dirs few taken =
    let same = ==_refl t.list_size in
    record {
      in_list = few;
      taken = rw same taken;
      next = refl;
      counted = refl;
      runs = rw same refl;
      blank = λ i. rw same refl;
      others = λ j ne. rw (ne→== j t.list_size ne) refl;
      user_half = λ i h. rw (same, ==_refl p, lt→ltb i 256 h) refl;
      kernel_half = λ i lo hi. rw (same, ==_refl p, le→ltb i 256 lo, lt→ltb i 512 hi) refl;
      other_dirs = λ j ne. let apart : j ≢ p = λ e. ne (rw same e) in rw (ne→== j p apart) refl;
    }

-- With valid blocks that have a free page, an empty free list and fewer than the 1024 processes
-- that gProcessList has, `proc_create` makes a process: at the first index that was not in use,
-- with cleared registers, and with a page directory in a page that was free, whose low half is
-- empty and whose high half is the kernel's. No other process and no other page directory changes.
pub proc_create-Creates :
    (proc_run cr3_kernel : ℕ) (t : Table) (a : Allocator) (dirs : ℕ → ℕ → ℕ) (q : ℕ)
    → IsValid a.blocks
    → page_state a.blocks q ≡ some 0
    → t.free.size ≡ 0
    → t.list_size < max_processes
    → (proc : ℕ) × (t' : Table) × (a' : Allocator) × (dirs' : ℕ → ℕ → ℕ) × (proc_create proc_run
          cr3_kernel t a dirs
        ≡ some (proc, t', a', dirs'))
      × Creates proc_run cr3_kernel t a dirs proc t' a' dirs'
unfolding proc_create created
proc_create-Creates proc_run cr3_kernel t a dirs q v free e small =
    let (p, a', run, taken) =
      Serves-served q free (alloc_phys-Serves page_size a (omega arith) (omega arith) v) in
    let directories = create_cr3-alloc_phys cr3_kernel p a a' dirs run in
    (
      t.list_size,
      created proc_run p t,
      a',
      directory cr3_kernel dirs p,
      rw (directories, proc_create) (rw (take_index-empty t e (omega arith)) refl),
      created-Creates proc_run cr3_kernel p t a a' dirs small taken,
    )

-- The last index put in the free list is not the one that `proc_create` takes out: it reads the
-- cell behind the last element, and leaves the list as if it had read the last one.
pub take_index_past_back :
    (fresh : ℕ → ℕ) (index : ℕ) (t : Table)
    → IsArray t.free
    → t.free.size < 2 ^ 31
    → let freed = push fresh index t.free in
      take_index (record t { free = freed })
      ≡ (freed.elements (t.free.size + 1), record t { free = array_pop freed })
unfolding take_index array_back array_empty
take_index_past_back fresh index t v small =
    let done = push-Pushes fresh index t.free v small in
    let some_left : ((push fresh index t.free).size == 0) ≡ false =
      ne→== _ 0 (omega (arith, done.size)) in
    rw some_left (
      ap
        (λ n. (
          (push fresh index t.free).elements n,
          record t { free = array_pop (push fresh index t.free) },
        ))
        done.size)
