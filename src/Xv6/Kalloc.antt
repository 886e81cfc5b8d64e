-- ===== src/Xv6/Kalloc.antt =====
-- The physical page allocator, xv6/kalloc.c. `kmem.lock` makes each call atomic. Memory is the map
-- from the addresses of aligned 32-bit words to their values; a free page's first word is
-- `r->next`, and 0 is the null pointer.
pub mod FreeList
mod Tests
use asopracticas.Common.{
  ℕ, zero, suc, ◌+◌, ◌-◌, ◌*◌, ◌/◌, ◌%◌, ◌^◌, Bool, true, false, ◌&&◌, ◌||◌, not, Option, none,
  some, ◌==◌, ltb, leb, if◌then◌else◌, add32, sub32, u32_mod,
}

-- PGSIZE, KERNBASE and PHYSTOP
abbrev pub pgsize : ℕ
pgsize = 4096

abbrev pub kernbase : ℕ
kernbase = 0x80000000

abbrev pub phystop : ℕ
phystop = 0xE000000

abbrev pub Memory : Type 0
Memory = ℕ → ℕ

-- `kmem` without its lock, beside the memory.
pub record Kmem : Type 0 where
  pub mem : Memory
  pub use_lock : Bool
  pub freelist : ℕ

-- V2P
abbrev pub v2p : ℕ → ℕ
v2p v = sub32 v kernbase

-- PGROUNDUP
abbrev pub round_up : ℕ → ℕ
round_up a = add32 a (pgsize - 1) / pgsize * pgsize

-- `memset(v, 1, PGSIZE)`
abbrev pub junk : Memory → ℕ → Memory
junk mem v a = if leb v a && ltb a (v + pgsize) then 0x01010101 else mem a

abbrev pub store : Memory → ℕ → ℕ → Memory
store mem p w a = if a == p then w else mem a

-- `kfree(v)` where the kernel ends at `end`; `none` is the panic.
pub kfree : ℕ → ℕ → Kmem → Option Kmem
kfree end v k =
    if not (v % pgsize == 0) || ltb v end || leb phystop (v2p v)
    then none
    else some (record k { mem = store (junk k.mem v) v k.freelist; freelist = v })

-- The page, or 0, and the allocator afterwards.
pub kalloc : Kmem → ℕ × Kmem
kalloc k =
    if k.freelist == 0 then (0, k) else (k.freelist, record k { freelist = k.mem k.freelist })

-- The loop of `freerange` from `p` on; each round passes a page, which bounds the rounds by the
-- number of pages of the address space.
pub free_from : ℕ → ℕ → ℕ → ℕ → Kmem → Option Kmem
free_from zero end p vend k = none
free_from (suc fuel) end p vend k =
    if leb (p + pgsize) vend
    then elim (kfree end p k) [ none ↦ none | some k' ↦ free_from fuel end (p + pgsize) vend k' ]
    else some k

pub freerange : ℕ → ℕ → ℕ → Kmem → Option Kmem
freerange end vstart vend k = free_from (u32_mod / pgsize + 1) end (round_up vstart) vend k

pub kinit1 : ℕ → ℕ → ℕ → Kmem → Option Kmem
kinit1 end vstart vend k = freerange end vstart vend (record k { use_lock = false })

pub kinit2 : ℕ → ℕ → ℕ → Kmem → Option Kmem
kinit2 end vstart vend k = elim (freerange end vstart vend k) [
  | none ↦ none
  | some k' ↦ some (record k' { use_lock = true })
]
