-- ===== src/Xv6/Kalloc/FreeList.antt =====
-- The free list of xv6/kalloc.c: its pages are valid and distinct, and each call keeps it so.
use asopracticas.Common.{
  ℕ, zero, suc, ◌+◌, ◌-◌, ◌/◌, ◌%◌, ◌≤◌, ◌<◌, ◌≡◌, ◌≢◌, refl, sym, subst, false, inl, inr, none,
  some, List, [], ◌∷◌, arith, ◌==◌, ltb, leb, Bool-cases, u32_mod, ne→==, ==_refl, le→leb, not,
  ◌||◌, ◌⊎◌,
}
use asopracticas.Xv6.Kalloc.{
  kernbase, Kmem, Memory, pgsize, phystop, v2p, round_up, junk, store, kfree, kalloc, free_from,
  freerange,
}

-- What `kfree` accepts.
pub record IsPage (end p : ℕ) : Type 0 where
  pub aligned : p % pgsize ≡ 0
  pub above : end ≤ p
  pub backed : v2p p < phystop

abbrev pub NotIn : ℕ → List ℕ → Type 0
NotIn p [] = Unit
NotIn p (q ∷ qs) = (p ≢ q) × NotIn p qs

-- From `h` the `next` words lead through the pages of the list to the null pointer.
abbrev pub Chain : ℕ → Memory → ℕ → List ℕ → Type 0
Chain end mem h [] = h ≡ 0
Chain end mem h (p ∷ ps) = (h ≡ p) × (p ≢ 0) × IsPage end p × NotIn p ps × Chain end mem (mem p) ps

abbrev pub Holds : ℕ → Kmem → List ℕ → Type 0
Holds end k ps = Chain end k.mem k.freelist ps

-- Filling and linking one page leaves a chain of other pages alone.
Chain-frame :
    (end v w h : ℕ) (mem : Memory) (ps : List ℕ)
    → v % pgsize ≡ 0
    → NotIn v ps
    → Chain end mem h ps
    → Chain end (store (junk mem v) v w) h ps
Chain-frame end v w h mem [] al out c = c
Chain-frame end v w h mem (p ∷ ps) al (ne, out) (e, nz, page, fresh, rest) =
    let kept : store (junk mem v) v w p ≡ mem p = apart page.aligned in
    (
      e,
      nz,
      page,
      fresh,
      subst (λ q. Chain end (store (junk mem v) v w) q ps) (sym kept)
          (Chain-frame end v w (mem p) mem ps al out rest),
    )
  where
    apart : p % pgsize ≡ 0 → store (junk mem v) v w p ≡ mem p
    apart h = ground arith

kfree_page :
    (end v : ℕ) (k : Kmem) (ps : List ℕ)
    → 0 < end
    → IsPage end v
    → NotIn v ps
    → Holds end k ps
    → (k' : Kmem) × (kfree end v k ≡ some k')
      × Holds end k' (v ∷ ps)
      × ((a : ℕ) → (a < v) ⊎ (v + pgsize ≤ a) → k'.mem a ≡ k.mem a)
unfolding kfree
kfree_page end v k ps pos page out c = (
  record k { mem = store (junk k.mem v) v k.freelist; freelist = v },
  ground (arith, page.aligned, page.above, page.backed),
  (
    refl,
    omega (arith, page.above),
    page,
    out,
    rw ==_refl (Chain-frame end v k.freelist k.freelist k.mem ps page.aligned out c),
  ),
  λ a o. ground arith,
)

-- What the code tests.
is_page : (end v : ℕ) → IsPage end v ⊎ (IsPage end v → ⊥)
is_page end v = elim (Bool-cases (not (v % pgsize == 0) || ltb v end || leb phystop (v2p v))) [
  | inl bad ↦ inr (λ page. absurd (ground (arith, bad, page.aligned, page.above, page.backed)))
  | inr good ↦ inl (record { aligned = ground arith; above = ground arith; backed = ground arith })
]

pub kfree-panics : (end v : ℕ) (k : Kmem) → (IsPage end v → ⊥) → kfree end v k ≡ none
unfolding kfree
kfree-panics end v k bad =
    elim (Bool-cases (not (v % pgsize == 0) || ltb v end || leb phystop (v2p v))) [
      | inl panics ↦ rw panics refl
      | inr passes ↦
          absurd
            (bad (record { aligned = ground arith; above = ground arith; backed = ground arith }))
    ]

-- `kfree` of an address that is not in the free list, where the free list is sound and the kernel
-- does not end at address 0: if the address is that of a page behind the end of the kernel and below
-- PHYSTOP, the page is put at the head of the list, and memory is changed in that page only; if it
-- is not, `kfree` panics.
pub kfree_lem :
    (end v : ℕ) (k : Kmem) (ps : List ℕ)
    → 0 < end
    → NotIn v ps
    → Holds end k ps
    → (IsPage end v
        × ((k' : Kmem) × (kfree end v k ≡ some k')
            × Holds end k' (v ∷ ps)
            × ((a : ℕ) → (a < v) ⊎ (v + pgsize ≤ a) → k'.mem a ≡ k.mem a)))
      ⊎ ((IsPage end v → ⊥) × (kfree end v k ≡ none))
kfree_lem end v k ps pos out c = elim (is_page end v) [
  | inl page ↦ inl (page, kfree_page end v k ps pos page out c)
  | inr bad ↦ inr (bad, kfree-panics end v k bad)
]

-- `kalloc` takes the head of the list and changes no memory; with no free page it returns 0.
pub kalloc_lem :
    (end p : ℕ) (k : Kmem) (ps : List ℕ)
    → Holds end k (p ∷ ps)
    → let (r, k') = kalloc k in
      (r ≡ p) × Holds end k' ps × NotIn r ps × ((a : ℕ) → k'.mem a ≡ k.mem a)
unfolding kalloc
kalloc_lem end p k ps (e, nz, page, fresh, rest) =
    rw (e, ne→== p 0 nz) (refl, rest, fresh, λ a. refl)

pub kalloc-empty : (end : ℕ) (k : Kmem) → Holds end k [] → kalloc k ≡ (0, k)
unfolding kalloc
kalloc-empty end k e = rw e refl

-- No page of the list starts in [p, e).
abbrev pub Clear : ℕ → ℕ → List ℕ → Type 0
Clear p e [] = Unit
Clear p e (q ∷ qs) = ((q < p) ⊎ (e ≤ q)) × Clear p e qs

Clear-NotIn : (p e : ℕ) (qs : List ℕ) → p < e → Clear p e qs → NotIn p qs
Clear-NotIn p e [] h c = tt
Clear-NotIn p e (q ∷ qs) h (o, c) = (omega arith, Clear-NotIn p e qs h c)

Clear-next : (p e : ℕ) (qs : List ℕ) → Clear p e qs → Clear (p + pgsize) e qs
Clear-next p e [] c = tt
Clear-next p e (q ∷ qs) (o, c) = (omega arith, Clear-next p e qs c)

-- The free list after the pages p, p + PGSIZE, … (`n` of them) are freed in turn.
abbrev pub pushed : ℕ → ℕ → List ℕ → List ℕ
pushed zero p ps = ps
pushed (suc n) p ps = pushed n (p + pgsize) (p ∷ ps)

-- The addresses that the kernel has physical memory for.
pub record IsRange (end p vend : ℕ) : Type 0 where
  pub kernel : 0 < end
  pub aligned : p % pgsize ≡ 0
  pub above : end ≤ p
  pub low : kernbase ≤ p
  pub high : vend ≤ kernbase + phystop

free_from_lem :
    (fuel n end p vend : ℕ) (k : Kmem) (ps : List ℕ)
    → IsRange end p vend
    → n ≡ (vend - p) / pgsize
    → n < fuel
    → Clear p vend ps
    → Holds end k ps
    → (k' : Kmem) × (free_from fuel end p vend k ≡ some k') × Holds end k' (pushed n p ps)
unfolding free_from
free_from_lem zero n end p vend k ps r e f c h = absurd (omega arith)
free_from_lem (suc fuel) zero end p vend k ps r e f c h =
    let stop : leb (p + pgsize) vend ≡ false = small in (k, rw stop refl, h)
  where
    small : leb (p + pgsize) vend ≡ false
    small = ground arith
free_from_lem (suc fuel) (suc n) end p vend k ps r e f c h =
    let page : IsPage end p = record {
      aligned = r.aligned;
      above = r.above;
      backed = omega (arith, r.low, r.high, e);
    } in
    let (k₁, run, held, frame) =
      kfree_page end p k ps r.kernel page (Clear-NotIn p vend ps (omega arith) c) h in
    let r' : IsRange end (p + pgsize) vend = record {
      kernel = r.kernel;
      aligned = omega (arith, r.aligned);
      above = omega (arith, r.above);
      low = omega (arith, r.low);
      high = r.high;
    } in
    let (k₂, rest, all) =
      free_from_lem fuel n end (p + pgsize) vend k₁ (p ∷ ps) r' (omega arith) (omega arith)
        (omega arith, Clear-next p vend ps c) held in
    (k₂, rw (le→leb (p + pgsize) vend (omega arith), run) rest, all)

-- `freerange` over kernel memory does not panic, ends, and frees exactly the whole pages between
-- its rounded start and its end, each once.
pub freerange_lem :
    (end vstart vend : ℕ) (k : Kmem) (ps : List ℕ)
    → IsRange end (round_up vstart) vend
    → Clear (round_up vstart) vend ps
    → Holds end k ps
    → (k' : Kmem) × (freerange end vstart vend k ≡ some k')
      × Holds end k' (pushed ((vend - round_up vstart) / pgsize) (round_up vstart) ps)
unfolding freerange
freerange_lem end vstart vend k ps r c h =
    free_from_lem (u32_mod / pgsize + 1) ((vend - round_up vstart) / pgsize) end (round_up vstart)
      vend k ps r refl (omega (arith, r.high)) c h
