-- ===== src/Os/Tests.antt =====
-- Runs of kernel/src/kmt.c, kernel/src/os.c and kernel/src/uproc.c on two CPUs: the first has the running
-- task 1000 and another in the block 0x100280, the second the task 3000 alone.
use oslab.Prelude.{
  ◌%◌, ◌&&◌, panics, ℕ, ◌≡◌, ◌≢◌, refl, arith, List, [], ◌∷◌, false, true, returns, update,
  if◌then◌else◌, ◌==◌, inl, some, ℕ_discrete, ◌+◌, ◌^◌,
}
use oslab.Lock.{lock, unlock, round_self, round_self_loop}
use oslab.Pmm.{kalloc, smallalloc, grab, Pmm}
use oslab.Pmm.Samples.{heap, heap-IsHeap, lone, lone_free, lone-IsPmm, other-IsBlock, not_pagestart}
use oslab.Os.{Kernel, Machine, Context, running, zombie, update_at}
use oslab.Os.Inv.{IsKernel, CanLock}
use oslab.Os.Tasks.{kcreate, kteardown}
use oslab.Os.Tasks.Create.{kcreate-IsKernel}
use oslab.Os.Tasks.Teardown.{kteardown-IsKernel}
use oslab.Os.Trap.{schedule_loop, os_trap, other, syscall}
use oslab.Os.Trap.Schedule.{schedule_lem}
use oslab.Os.Trap.Switch.{Switched, saved, os_trap-other}
use oslab.Os.Trap.Exit.{os_trap-exit}
use oslab.Os.Uproc.{fork, exit}
use oslab.Os.Uproc.Spaces.{CanMap}
use oslab.Os.Uproc.Fork.{Forked, fork-Forked}
use oslab.Ring.Many.{AreRings}
use oslab.Pmm.Inv.{IsPmm}
use oslab.Ring.{IsRing}
use mathlib.Core.Path.{subst, sym}

abbrev blank : Context
blank = record { gprx = 0; gpr1 = 0; rsp0 = 0; cr3 = 0; others = λ i. 0 }

abbrev am : Machine ℕ
am = record {
  cpu_count = 2;
  heap = heap;
  sizeof_task = 100;
  kcontext = λ task entry arg. record blank { rsp0 = task; gpr1 = arg };
  ucontext = λ space task entry. record blank { rsp0 = task; cr3 = space };
  pgsize = 128;
  area_start = λ space. 0x400000;
  protect = λ p. returns (7, p);
  unprotect = λ space p. returns (space, p);
  vmap = λ space va pa prot p.
      if (va % 128 == 0) && (pa % 128 == 0) then returns (space + 1, p) else panics;
}

abbrev tasks : ℕ → List ℕ
tasks i = if i == 0 then 0x100280 ∷ [] else []

-- The running task has one page and a context of the call that has trapped.
abbrev os : Kernel ℕ
os = record {
  next = λ a. if a == 1000 then 0x100280 else if a == 0x100280 then 1000 else a;
  prev = λ a. if a == 1000 then 0x100280 else if a == 0x100280 then 1000 else a;
  status = λ a. running;
  entry = λ a. 0;
  context = λ a i. blank;
  nc = λ a. 1;
  pid = λ a. 1;
  children = λ a. 0;
  parent = λ a. 0;
  bros = λ a. 0;
  nchildren = λ a. 0;
  excode = λ a. 0;
  np = λ a. 1;
  va = λ a i. 0x400000;
  pa = λ a i. 0x50000;
  as_of = λ a. 7;
  cur_task = λ i. if i == 0 then 1000 else 3000;
  num_task = λ i. 2;
  currents = λ i. if i == 0 then 1000 else 3000;
  locks = λ i. record { flag = 0 };
  cpus = λ i. record { nest = 0; ienabled = true; intenb = false };
  glock = record { flag = 0 };
  cpurec = 0;
  pidtables = λ i. 0;
  pidrec = 5;
  pmm = lone;
  mem = λ a. 0;
  out = [];
}

zero-IsRing : IsRing os.next os.prev 1000 (0x100280 ∷ [])
zero-IsRing = record { seg = ((refl, refl), (refl, refl)); distinct = (refl, (refl, tt)) }

one-IsRing : IsRing os.next os.prev 3000 []
one-IsRing = record { seg = (refl, refl); distinct = (refl, tt) }

os-AreRings : AreRings os.next os.prev 2 os.currents tasks
os-AreRings = record {
  ring = λ i lt. elim (ℕ_discrete i 0) [
    | yes e ↦ subst (λ k. IsRing os.next os.prev (os.currents k) (tasks k)) (sym e) zero-IsRing
    | no n ↦
        subst (λ k. IsRing os.next os.prev (os.currents k) (tasks k)) {x = 1} (omega arith)
          one-IsRing
  ];
  apart = λ i j a li lj ne m. ground arith;
}

os-IsKernel : IsKernel am os tasks
os-IsKernel = record {
  rings = os-AreRings;
  same = λ i lt. refl;
  turn = omega arith;
  unlocked = refl;
}

can_lock : CanLock 0 0 os
can_lock = record { cpu = record { off = λ h. absurd (omega arith) }; free = inl refl }

kcreate-IsKernel_example :
    (t : Kernel ℕ) × (kcreate am 0 4000 77 88 os ≡ returns t)
    × IsKernel am t (update tasks 0 (4000 ∷ 0x100280 ∷ []))
    × (t.cpurec ≡ 1)
    × (t.status ≡ update os.status 4000 running)
    × (t.nc ≡ update os.nc 4000 1)
    × (t.context ≡ update_at os.context 4000 0 (record blank { rsp0 = 4000; gpr1 = 88 }))
    × ((t.locks 0).flag ≡ 0)
    × ((t.cpus 0).nest ≡ 0)
    × ((t.cpus 0).ienabled ≡ true)
kcreate-IsKernel_example = kcreate-IsKernel 0 4000 77 88 os-IsKernel can_lock (λ j lt. ground arith)

kteardown-IsKernel_example :
    (t : Kernel ℕ) × (kteardown am 0 0x100280 os ≡ returns t)
    × IsKernel am t (update tasks 0 [])
    × IsPmm heap t.pmm (update lone_free 2 (0x100280 ∷ lone_free 2))
kteardown-IsKernel_example =
    kteardown-IsKernel 0 0x100280 0 2 [] [] (omega arith) os-IsKernel can_lock refl heap-IsHeap
      lone-IsPmm (omega arith) other-IsBlock refl not_pagestart

schedule_lem_example : schedule_loop 5 os.next os.status 1000 ≡ some 0x100280
schedule_lem_example = schedule_lem os.status 5 (os-AreRings.ring 0 (omega arith)) (omega arith)

abbrev timer : Context
timer = record blank { gprx = 42 }

os_trap-other_example :
    (ctx : Context) × (s' : Kernel ℕ) × (os_trap am 5 0 other timer blank 0 0 os
      ≡ returns (ctx, s'))
    × (ctx ≡ blank)
    × Switched am 0 0x100280 tasks (saved 0 timer os) s'
os_trap-other_example =
    os_trap-other 5 0 0x100280 0 0 timer blank (omega arith) os-IsKernel can_lock (omega arith) refl
      (omega arith) (omega arith)

abbrev exit_call : Context
exit_call = record blank { gprx = 3; gpr1 = 2 ^ 32 + 9 }

os_trap-exit_example :
    (s' : Kernel ℕ) × (os_trap am 5 0 syscall exit_call blank 0 0 os ≡ returns (blank, s'))
    × ◌≢◌ {A = ℕ} 0x100280 1000
    × (s'.currents ≡ update os.currents 0 0x100280)
    × (s'.status ≡ update os.status 1000 zombie)
    × (s'.excode ≡ update os.excode 1000 9)
    × Switched am 0 0x100280 tasks
        (saved 0 blank (exit 1000 (2 ^ 32 + 9) (saved 0 exit_call os)))
        s'
os_trap-exit_example =
    os_trap-exit 5 0 0x100280 0 0 exit_call blank (omega arith) os-IsKernel can_lock (omega arith)
      refl refl (omega arith) (omega arith)

-- An allocator with two free blocks of 128 bytes, and what two calls leave of it.
abbrev pair : Pmm
pair = record lone { nxt = λ a. if a == 0x100300 then 0x100380 else 0 }

abbrev after_one : Pmm
after_one = record pair {
  smallmem = update pair.smallmem 3 (record { m = record { flag = 0 }; freelist = 0x100380 });
}

abbrev after_two : Pmm
after_two = record after_one {
  smallmem = update after_one.smallmem 3 (record { m = record { flag = 0 }; freelist = 0 });
}

block_runs : kalloc heap 100 pair ≡ returns (0x100300, after_one)
unfolding kalloc smallalloc grab lock unlock round_self round_self_loop
block_runs = refl

page_runs : kalloc heap 128 after_one ≡ returns (0x100380, after_two)
unfolding kalloc smallalloc grab lock unlock round_self round_self_loop
page_runs = refl

abbrev parent_os : Kernel ℕ
parent_os = record os { pmm = pair }

parent_os-IsKernel : IsKernel am parent_os tasks
parent_os-IsKernel = record {
  rings = os-AreRings;
  same = λ i lt. refl;
  turn = omega arith;
  unlocked = refl;
}

one_page : CanMap am 1 (parent_os.va 1000) 0 7 after_one
one_page = (0x100380, after_two, 8, after_two, page_runs, omega arith, refl, tt)

fork-Forked_example :
    (t : Kernel ℕ) × (fork am 0 1000 parent_os ≡ returns (5, t))
    × Forked am 0 1000 0x100300 7 tasks parent_os t
fork-Forked_example =
    fork-Forked 0 1000 0x100300 after_one after_one 7 (omega arith) refl parent_os-IsKernel
      (record { cpu = can_lock.cpu; free = can_lock.free }) block_runs (omega arith)
      (λ j lt. ground arith) (omega arith) refl one_page (omega arith) (omega arith)
