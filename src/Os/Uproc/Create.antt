-- ===== src/Os/Uproc/Create.antt =====
-- `ucreate` of kernel/src/uproc.c: a new process with a number of its own, next in turn on its CPU.
use oslab.Prelude.{
  ℕ, ◌+◌, ◌<◌, ◌≡◌, ◌≢◌, List, ◌∷◌, false, true, arith, refl, returns, update, update_self,
  update_ne, ◌∙◌, bind_eq, if◌then◌else◌, lt→ltb, ==_false,
}
use oslab.Pmm.{Area, Pmm, kalloc, safe_kalloc}
use oslab.Os.{Kernel, Machine, running, pmm_alloc, update_at}
use oslab.Os.Uproc.{ucreate, ucreate_insert}
use oslab.Kmt.{Cpu}
use oslab.Kmt.SpinLaws.{IsCpu}
use oslab.Os.Inv.{IsKernel, CanLock, guarded}
use oslab.Os.Tasks.Create.{IsNew}
use oslab.Ring.Many.{insert-AreRings}

-- The allocator changes nothing of the kernel but itself.
pub pmm_alloc_lem :
    {Space : Type 0} (heap : Area) (c size p : ℕ) (s : Kernel Space) (q : Pmm)
    → kalloc heap size s.pmm ≡ returns (p, q)
    → pmm_alloc heap c size s
      ≡ returns (
        p,
        record s {
          pmm = q;
          cpus =
              update s.cpus c
                (record (s.cpus c) { ienabled = if (s.cpus c).ienabled then true else false });
        },
      )
unfolding pmm_alloc safe_kalloc
pmm_alloc_lem heap c size p s q run = bind_eq _ (bind_eq _ run)

pub CanLock-alloc :
    {Space : Type 0} (c i : ℕ) (s : Kernel Space) (p : Pmm)
    → CanLock c i s
    → CanLock c i (record s {
      pmm = p;
      cpus =
          update s.cpus c
            (record (s.cpus c) { ienabled = if (s.cpus c).ienabled then true else false });
    })
CanLock-alloc c i s p can =
    let cpu : Cpu = record (s.cpus c) { ienabled = if (s.cpus c).ienabled then true else false } in
    let off : IsCpu cpu = record { off = λ h. ground (arith, can.cpu.off h) } in
    record {
      cpu = rw (update_self s.cpus c cpu) off;
      free = rw (update_self s.cpus c cpu) can.free;
    }

-- A process that has just been created: the fields that `ucreate` sets.
pub record Created {Space : Type 0} (am : Machine Space) (cpu uproc : ℕ) (space : Space)
    (tasks : ℕ → List ℕ) (s t : Kernel Space) : Type 0 where
  pub kernel : IsKernel am t (update tasks cpu (uproc ∷ tasks cpu))
  pub pids : t.pid ≡ update s.pid uproc s.pidrec
  pub table : t.pidtables ≡ update s.pidtables s.pidrec uproc
  pub fresh_pid : t.pidrec ≡ s.pidrec + 1
  pub statuses : t.status ≡ update s.status uproc running
  pub counts : t.nc ≡ update s.nc uproc 1
  pub contexts :
      t.context ≡ update_at s.context uproc 0 (am.ucontext space uproc (am.area_start space))
  pub children_same : t.children ≡ update s.children uproc 0
  pub pages : t.np ≡ update s.np uproc 0
  pub vas : t.va ≡ s.va
  pub space_of : t.as_of uproc ≡ space
  pub currents_same : t.currents ≡ s.currents
  pub flag_same : (t.locks cpu).flag ≡ (s.locks cpu).flag

-- `ucreate` with a block from the allocator that is on no CPU, an address space, and a number below 32768,
-- returns the block: a process that is ready, with one context and no pages, under the next number,
-- behind the running task of CPU `cpu`; the other tasks keep their order and their contexts.
pub ucreate-Created :
    {Space : Type 0} {am : Machine Space} {s : Kernel Space} {tasks : ℕ → List ℕ} (c cpu uproc : ℕ)
    (p q : Pmm) (space : Space)
    → cpu < am.cpu_count
    → IsKernel am s tasks
    → CanLock c cpu s
    → kalloc am.heap am.sizeof_task s.pmm ≡ returns (uproc, p)
    → uproc ≢ 0
    → IsNew am s tasks uproc
    → s.pidrec < 32768
    → am.protect p ≡ returns (space, q)
    → (t : Kernel Space) × (ucreate am c cpu s ≡ returns (uproc, t))
      × Created am cpu uproc space tasks s t
      × (t.pmm ≡ q)
unfolding ucreate
ucreate-Created {am} {s} {tasks} c cpu uproc p q space lt v can got nz new room prot =
    let s1 = record s {
      pmm = p;
      cpus =
          update s.cpus c
            (record (s.cpus c) { ienabled = if (s.cpus c).ienabled then true else false });
    } in
    let g = guarded c cpu s1 (CanLock-alloc c cpu s p can) in
    let s2 = record s1 { locks = g.locks_held; cpus = g.cpus_held } in
    let s3 =
      ucreate_insert am cpu uproc (record s2 { as_of = update s2.as_of uproc space; pmm = q }) in
    let e = v.same cpu lt in
    let n : update s.next uproc (s.next (s.cur_task cpu)) (s.cur_task cpu)
        ≡ s.next (s.cur_task cpu) =
      update_ne s.next uproc (s.next (s.cur_task cpu)) (s.cur_task cpu)
        (λ z. ground (arith, new cpu lt, e)) in
    (
      record s3 { locks = g.locks_after; cpus = g.cpus_after },
      bind_eq _ (pmm_alloc_lem am.heap c am.sizeof_task uproc s p got)
          ∙ bind_eq _ g.take
          ∙ rw (==_false uproc 0 nz, lt→ltb s.pidrec 32768 room)
              (bind_eq _ prot ∙ bind_eq _ (g.give s3 refl refl)),
      record {
        kernel = record {
          rings = rw (n, e) (insert-AreRings v.rings cpu uproc lt new);
          same = v.same;
          turn = v.turn;
          unlocked = v.unlocked;
        };
        pids = refl;
        table = refl;
        fresh_pid = refl;
        statuses = refl;
        counts = refl;
        contexts = rw (update_self s.as_of uproc space) refl;
        children_same = refl;
        pages = refl;
        vas = refl;
        space_of = update_self s.as_of uproc space;
        currents_same = refl;
        flag_same = g.flag_same;
      },
      refl,
    )
