-- ===== src/Pmm/Chain.antt =====
-- A free list as it lies in memory, and what `give` and `grab` of kernel/src/pmm.c do to it.
use oslab.Prelude.{
  ℕ, ◌≡◌, ◌≢◌, refl, true, false, List, [], ◌∷◌, arith, update, has, returns, update_self,
  update_ne,
}
use mathlib.Core.Path.{subst, sym}
use oslab.Lock.{lock, unlock}
use oslab.Pmm.{Kmem, give, grab}

-- From the pointer `p` the words `nxt` lead through the addresses `xs` to the null pointer.
abbrev pub Chain : (ℕ → ℕ) → ℕ → List ℕ → Type 0
Chain nxt p [] = p ≡ 0
Chain nxt p (x ∷ xs) = (p ≡ x) × (x ≢ 0) × Chain nxt (nxt x) xs

-- A chain survives any change of the memory that spares its own blocks.
pub Chain-frame :
    (nxt nxt' : ℕ → ℕ) (p : ℕ) (xs : List ℕ)
    → ((a : ℕ) → has a xs ≡ true → nxt' a ≡ nxt a)
    → Chain nxt p xs
    → Chain nxt' p xs
Chain-frame nxt nxt' p [] same c = c
Chain-frame nxt nxt' p (x ∷ xs) same (e, n, c) = (
  e,
  n,
  rw (same x (ground arith)) (Chain-frame nxt nxt' (nxt x) xs (λ a h. same a (ground arith)) c),
)

-- A free list whose lock is free, with its blocks.
pub record IsFree (nxt : ℕ → ℕ) (mem : Kmem) (xs : List ℕ) : Type 0 where
  pub unlocked : mem.m.flag ≡ 0
  pub chain : Chain nxt mem.freelist xs

-- `give` puts the block in front, writes one word, and leaves the lock free.
pub give-IsFree :
    (p : ℕ) (mem : Kmem) (nxt : ℕ → ℕ) (xs : List ℕ)
    → IsFree nxt mem xs
    → p ≢ 0
    → has p xs ≡ false
    → (mem' : Kmem) × (give p mem nxt ≡ returns (mem', update nxt p mem.freelist))
      × IsFree (update nxt p mem.freelist) mem' (p ∷ xs)
unfolding give lock unlock
give-IsFree p mem nxt xs f n new = (
  record { m = record { flag = 0 }; freelist = p },
  ground (arith, f.unlocked),
  record {
    unlocked = refl;
    chain = (
      refl,
      n,
      subst (λ q. Chain (update nxt p mem.freelist) q xs) (sym (update_self nxt p mem.freelist))
          (Chain-frame nxt (update nxt p mem.freelist) mem.freelist xs
            (λ a h. update_ne nxt p mem.freelist a λ e. absurd (ground arith)) f.chain),
    );
  },
)

-- The first block of a list, or the null pointer, and the rest.
abbrev pub first : List ℕ → ℕ
first [] = 0
first (x ∷ xs) = x

abbrev pub rest : List ℕ → List ℕ
rest [] = []
rest (x ∷ xs) = xs

-- `grab` takes the first block off, or returns the null pointer; memory is only read.
pub grab-IsFree :
    (mem : Kmem) (nxt : ℕ → ℕ) (xs : List ℕ)
    → IsFree nxt mem xs
    → (mem' : Kmem) × (grab mem nxt ≡ returns (first xs, mem')) × IsFree nxt mem' (rest xs)
unfolding grab lock unlock
grab-IsFree mem nxt [] f = (
  record { m = record { flag = 0 }; freelist = mem.freelist },
  ground (arith, f.unlocked, f.chain),
  record { unlocked = refl; chain = f.chain },
)
grab-IsFree mem nxt (x ∷ xs) f = (
  record { m = record { flag = 0 }; freelist = nxt mem.freelist },
  ground (arith, f.unlocked, f.chain),
  record { unlocked = refl; chain = subst (λ q. Chain nxt (nxt q) xs) (sym f.chain.0) f.chain.2 },
)
