-- ===== src/Os/Uproc.antt =====
-- kernel/src/uproc.c and `pgmap` of kernel/src/os.c: the processes.
pub mod Create
pub mod Pages
pub mod Spaces
pub mod Fork
use oslab.Prelude.{
  ℕ, zero, suc, ◌+◌, ◌-◌, ◌%◌, ◌^◌, ◌==◌, ◌∷◌, leb, ltb, not, if◌then◌else◌, Outcome, returns,
  undefined, assert, update, ◌>>=◌, ◌>>◌, Bool, ◌||◌, ◌*◌, true, false,
}
use oslab.Klib.Mem.{memcpy}
use oslab.Os.{
  Kernel, Machine, Status, Context, running, zombie, update_at, lock_cpu, unlock_cpu, pmm_alloc,
  pmm_free,
}

-- Status, as the test `task->status == ZOMBIE`.
abbrev pub is_zombie : Status → Bool
is_zombie zombie = true
is_zombie st = false

-- The context of the child: the parent's last one, on the child's own stack and address space, with
-- the result 0.
abbrev pub fork_context : Context → Context → Context
fork_context child parent = record parent { rsp0 = child.rsp0; cr3 = child.cr3; gprx = 0 }

-- The conversion of a register to an `int`, as its 32 bits, and of those to 64 bits with the sign.
abbrev pub to_int : ℕ → ℕ
to_int value = value % 2 ^ 32

abbrev pub to_long : ℕ → ℕ
to_long value = if ltb value (2 ^ 31) then value else value + 2 ^ 64 - 2 ^ 32

-- `wakeup` of `sleep`, from the clock and the argument, which is converted to the `int` seconds.
unfoldable pub wakeup : ℕ → ℕ → ℕ
wakeup now seconds = (now + 1000000 * to_long (to_int seconds)) % 2 ^ 64

-- `PROT_READ|PROT_WRITE`
abbrev pub prot_read_write : ℕ
prot_read_write = 6

module _ {Space : Type 0} where
  -- `vme_init` is AM's.
  unfoldable pub uproc_init : Kernel Space → Kernel Space
  uproc_init s = record s { pidrec = 1 }

  -- The argument is converted to a `char`; the result is the register that the system call leaves alone.
  unfoldable pub kputs : ℕ → ℕ → Kernel Space → Kernel Space
  kputs task ch s = record s { out = ch % 2 ^ 8 ∷ s.out }

  abbrev pub set_gprx : ℕ → ℕ → ℕ → Kernel Space → Kernel Space
  set_gprx task id value s = record s {
    context = update_at s.context task id (record (s.context task id) { gprx = value });
  }

  unfoldable pub getpid : ℕ → Kernel Space → Outcome (ℕ × Kernel Space)
  getpid task s =
      if s.nc task == 0
      then undefined
      else returns (s.pid task, set_gprx task (s.nc task - 1) (s.pid task) s)

  -- `exit` up to `yield()`; the argument is converted to the `int` status.
  unfoldable pub exit : ℕ → ℕ → Kernel Space → Kernel Space
  exit task status s = record s {
    status = update s.status task zombie;
    excode = update s.excode task (to_int status);
  }

module _ {Space : Type 0} (am : Machine Space) where
  -- `va[64]` and `pa[64]`: the assertion comes behind the stores.
  unfoldable pub pgmap : ℕ → ℕ → ℕ → ℕ → Kernel Space → Outcome (Kernel Space)
  pgmap task va pa prot s =
      let pages : ℕ = s.np task in
      if ltb pages 64
      then (do
        assert (leb (pages + 1) 64)
        (space, pmm) ← am.vmap (s.as_of task) va pa prot s.pmm
        returns (record s {
          va = update_at s.va task pages va;
          pa = update_at s.pa task pages pa;
          np = update s.np task (pages + 1);
          as_of = update s.as_of task space;
          pmm = pmm;
        }))
      else undefined

  -- `ucreate` between the locks, without the address space: the fields of the new task, its number, and
  -- its place behind the current task of CPU `cpu`.
  abbrev pub ucreate_insert : ℕ → ℕ → Kernel Space → Kernel Space
  ucreate_insert cpu uproc s =
      let cur : ℕ = s.cur_task cpu in
      let next1 : ℕ → ℕ = update s.next uproc (s.next cur) in
      record s {
        num_task = update s.num_task cpu (s.num_task cpu + 1);
        entry = update s.entry uproc (am.area_start (s.as_of uproc));
        np = update s.np uproc 0;
        nc = update s.nc uproc 1;
        status = update s.status uproc running;
        nchildren = update s.nchildren uproc 0;
        parent = update s.parent uproc 0;
        children = update s.children uproc 0;
        bros = update s.bros uproc 0;
        pid = update s.pid uproc s.pidrec;
        pidtables = update s.pidtables s.pidrec uproc;
        pidrec = s.pidrec + 1;
        prev = update (update s.prev uproc cur) (next1 cur) uproc;
        next = update next1 cur uproc;
        context =
            update_at s.context uproc 0
              (am.ucontext (s.as_of uproc) uproc (am.area_start (s.as_of uproc)));
      }

  -- On CPU `c`, for CPU `cpu`. A null pointer and an index outside `pidtables[32768]` are undefined
  -- behaviour.
  unfoldable pub ucreate : ℕ → ℕ → Kernel Space → Outcome (ℕ × Kernel Space)
  ucreate c cpu s = do
    (uproc, s1) ← pmm_alloc am.heap c am.sizeof_task s
    s2 ← lock_cpu c cpu s1
    if (uproc == 0) || not (ltb s2.pidrec 32768) then undefined else (do
      (space, pmm) ← am.protect s2.pmm
      s3 ←
          unlock_cpu c cpu (
            ucreate_insert cpu uproc (record s2 { as_of = update s2.as_of uproc space; pmm = pmm }))
      returns (uproc, s3))

  unfoldable pub uteardown : ℕ → ℕ → Kernel Space → Outcome (Kernel Space)
  uteardown c task s = do
    assert (is_zombie (s.status task))
    (space, pmm) ← am.unprotect (s.as_of task) s.pmm
    pmm_free am.heap c task (record s { as_of = update s.as_of task space; pmm = pmm })

  -- The loop of `fork` over the pages from the `i`th on; `n` are left. Copying to a null page is undefined
  -- behaviour.
  unfoldable pub fork_pages : ℕ → ℕ → ℕ → ℕ → ℕ → Kernel Space → Outcome (Kernel Space)
  fork_pages zero i c task nproc s = returns s
  fork_pages (suc n) i c task nproc s = do
    (npa, s1) ← pmm_alloc am.heap c am.pgsize s
    if npa == 0 then undefined else (do
      s2 ←
          pgmap nproc (s.va task i) npa prot_read_write
            (record s1 { mem = memcpy npa (s.pa task i) am.pgsize s1.mem })
      fork_pages n (i + 1) c task nproc s2)

  -- A task without a context has no `context[nc - 1]`.
  unfoldable pub fork : ℕ → ℕ → Kernel Space → Outcome (ℕ × Kernel Space)
  unfolding fork_pages
  fork c task s = do
    (nproc, s1) ← ucreate c c s
    if s1.nc task == 0 then undefined else (do
      let child : Context = fork_context (s1.context nproc 0) (s1.context task (s1.nc task - 1))
      s2 ←
          fork_pages (s1.np task) 0 c task nproc
            (record s1 { context = update_at s1.context nproc 0 child })
      let s3 : Kernel Space = record s2 {
        parent = update s2.parent nproc task;
        bros = update s2.bros nproc (s2.children task);
        children = update s2.children task nproc;
        nchildren = update s2.nchildren task (s2.nchildren task + 1);
      }
      let s4 : Kernel Space = set_gprx task (s3.nc task - 1) (s3.pid nproc) s3
      returns (s4.pid nproc, set_gprx nproc (s4.nc nproc - 1) 0 s4))
