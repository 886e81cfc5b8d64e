-- ===== src/Xv6/Proc/Children.antt =====
-- `allocproc` and `fork` of xv6/proc.c.
use mathlib.Core.Path.{fun_ext}
use asopracticas.Common.{
  ℕ, suc, ◌+◌, ◌-◌, ◌^◌, ◌<◌, ◌≡◌, ◌≢◌, refl, sym, ◌∙◌, subst, inl, inr, ◌⊎◌, true, false, ◌==◌,
  Bool-cases, ==→eq, ne→==, ==_refl, arith, add32,
}
use asopracticas.Xv6.Proc.{
  Proc, ProcState, unused, embryo, sleeping, runnable, running, zombie, Table, System, put, nproc,
  is_unused, find_slot, set_stack, allocproc, copy_parent, start_fork,
}
use asopracticas.Xv6.Proc.Searches.{find_unused_lem}
use asopracticas.Xv6.Proc.Invariant.{IsFree, IsSound}
use asopracticas.Xv6.Proc.Births.{freed-IsSound}
use asopracticas.Xv6.Proc.Fork.{born-IsSound}

pub unused_of : (st : ProcState) → is_unused st ≡ true → st ≡ unused
unused_of unused h = refl
unused_of embryo h = cc
unused_of sleeping h = cc
unused_of runnable h = cc
unused_of running h = cc
unused_of zombie h = cc

-- The ends of `allocproc`: no slot, no memory for the stack, or a slot.
data Allocated (s : System) (stack : ℕ) : Type 0 where
  no_slot :
      allocproc stack s ≡ (0, s)
      → ((j : ℕ) → j < nproc → is_unused (s.procs j).state ≡ false)
      → Allocated s stack
  no_stack :
      (i : ℕ)
      → stack ≡ 0
      → IsFree (s.procs i)
      → allocproc stack s ≡ (
        0,
        record s {
          procs =
              put
                (put s.procs i (record (s.procs i) { state = embryo; pid = s.nextpid }))
                i
                (record (s.procs i) { state = unused; pid = s.nextpid; kstack = 0 });
          nextpid = add32 s.nextpid 1;
        },
      )
      → Allocated s stack
  slot :
      (i : ℕ)
      → i < nproc
      → IsFree (s.procs i)
      → ((l : ℕ) → l < i → is_unused (s.procs l).state ≡ false)
      → allocproc stack s ≡ (
        suc i,
        record s {
          procs =
              put
                (put s.procs i (record (s.procs i) { state = embryo; pid = s.nextpid }))
                i
                (record (s.procs i) { state = embryo; pid = s.nextpid; kstack = stack });
          nextpid = add32 s.nextpid 1;
        },
      )
      → Allocated s stack

allocproc_lem : (s : System) (stack : ℕ) → Allocated s stack
unfolding allocproc find_slot set_stack
allocproc_lem s stack = elim (find_unused_lem nproc 0 s.procs) [
  | inl (missed, busy) ↦
      no_slot (rw (allocproc, find_slot, missed) refl)
        (λ j below. busy j (omega arith) (omega arith))
  | inr (i, hit, _, below, free, busy) ↦
      let free' : IsFree (s.procs i) = unused_of (s.procs i).state free in
      let back : suc i - 1 ≡ i = omega arith in
      elim (Bool-cases (stack == 0)) [
        | inl empty ↦ no_stack i (==→eq stack 0 empty) free' (
            rw
              (
                allocproc,
                find_slot,
                hit,
                ne→== (suc i) 0 (omega arith),
                set_stack,
                empty,
                back,
                ==_refl i,
              )
              refl)
        | inr full ↦
            slot i (omega arith) free' (λ l h. busy l (omega arith) h)
              (rw
                (
                  allocproc,
                  find_slot,
                  hit,
                  ne→== (suc i) 0 (omega arith),
                  set_stack,
                  full,
                  back,
                  ==_refl i,
                )
                refl)
      ]
]

pub put-put : (t : Table) (i : ℕ) (a b : Proc) → put (put t i a) i b ≡ put t i b
put-put t i a b =
    fun_ext λ j. elim (Bool-cases (j == i)) [ inl same ↦ rw same refl | inr other ↦ rw other refl ]

-- How the first part of `fork` by the process in slot `p` ends.
pub data Forked (s : System) (c p stack dir : ℕ) : Type 0 where
  -- -1, for want of memory or of a slot, with every slot that was in use as it was.
  failed :
      (s' : System)
      → start_fork c stack dir s ≡ (0, s')
      → ((stack ≡ 0) ⊎ (dir ≡ 0)) ⊎ ((j : ℕ) → j < nproc → is_unused (s.procs j).state ≡ false)
      → ((j : ℕ) → (s.procs j).state ≢ unused → s'.procs j ≡ s.procs j)
      → IsSound s'
      → Forked s c p stack dir
  -- The first free slot holds a child with a new pid, and the other slots are as they were.
  made :
      (i : ℕ) (s' : System)
      → start_fork c stack dir s ≡ (suc i, s')
      → i < nproc
      → IsFree (s.procs i)
      → ((l : ℕ) → l < i → is_unused (s.procs l).state ≡ false)
      → (s'.procs i).state ≡ embryo
      → (s'.procs i).pid ≡ s.nextpid
      → (s'.procs i).parent ≡ suc p
      → (s'.procs i).killed ≡ (s.procs i).killed
      → ((j : ℕ) → j ≢ i → s'.procs j ≡ s.procs j)
      → IsSound s'
      → Forked s c p stack dir

module _ (s : System) (h : IsSound s) (c p : ℕ) (cur : s.cpus c ≡ suc p)
    (room : s.nextpid + 1 < 2 ^ 31) where
  counted : add32 s.nextpid 1 ≡ s.nextpid + 1
  counted = omega arith

  some_pid : 0 < s.nextpid
  some_pid = let r = h.on_cpu c p cur in let n = h.numbered p (λ f. cc) in omega arith

  -- A failed call leaves a free slot free.
  freed_slot :
      (stack dir i : ℕ) (new : Proc)
      → IsFree (s.procs i)
      → IsFree new
      → new.parent ≡ (s.procs i).parent
      → (stack ≡ 0) ⊎ (dir ≡ 0)
      → start_fork c stack dir s
        ≡ (0, record s { procs = put s.procs i new; nextpid = s.nextpid + 1 })
      → Forked s c p stack dir
  freed_slot stack dir i new free free' same why e =
      failed (record s { procs = put s.procs i new; nextpid = s.nextpid + 1 }) e (inl why)
        (λ j used. rw (ne→== j i (λ e. used (rw e free))) refl)
        (freed-IsSound s i (s.nextpid + 1) new h (rw free refl) free' (same ∙ h.orphan i free)
          (omega arith))

  -- `fork` by the process in slot `p` on CPU `c`, in a sound table with room for a pid, up to the
  -- point where the child waits to be runnable: it puts a child of `p` with the next pid into the
  -- first free slot and leaves the other slots alone, or it returns -1 for want of memory or of a
  -- slot and leaves each slot in use alone. The table stays sound.
  pub start_fork_lem : (stack dir : ℕ) → Forked s c p stack dir
  unfolding start_fork copy_parent
  start_fork_lem stack dir = elim (allocproc_lem s stack) [
    | no_slot e busy ↦ failed s (rw (start_fork, e) refl) (inr busy) (λ j _. refl) h
    | no_stack i empty free e ↦
        freed_slot stack dir i (record (s.procs i) { state = unused; pid = s.nextpid; kstack = 0 })
          free refl refl (inl empty) (rw (start_fork, e, put-put, counted) refl)
    | slot i below free first e ↦
        let taken : suc i == 0 ≡ false = ne→== _ _ (omega arith) in
        let back : suc i - 1 ≡ i = omega arith in
        elim (Bool-cases (dir == 0)) [
          | inl none_there ↦
              freed_slot stack dir i
                (record (s.procs i) { state = unused; pid = s.nextpid; pgdir = dir; kstack = 0 })
                free refl refl (inr (==→eq dir 0 none_there))
                (rw (start_fork, e, taken, none_there, back, put-put, put-put, ==_refl i, counted)
                  refl)
          | inr copied ↦
              let apart : p ≢ i = λ same.
                let r = h.on_cpu c p cur in
                let f : (s.procs p).state ≡ unused =
                  subst (λ x. (s.procs x).state ≡ unused) (sym same) free in
                cc in
              let back_p : suc p - 1 ≡ p = omega arith in
              let runs = h.on_cpu c p cur in
              let new : Proc = record (s.procs i) {
                state = embryo;
                pid = s.nextpid;
                kstack = stack;
                pgdir = dir;
                sz = (s.procs p).sz;
                parent = suc p;
              } in
              made i (record s { procs = put s.procs i new; nextpid = s.nextpid + 1 })
                (rw
                  (
                    start_fork,
                    e,
                    taken,
                    copied,
                    cur,
                    back,
                    back_p,
                    put-put,
                    put-put,
                    ==_refl i,
                    ne→== p i apart,
                    counted,
                  )
                  refl)
                below free first (rw (==_refl i) refl) (rw (==_refl i) refl) (rw (==_refl i) refl)
                (rw (==_refl i) refl) (λ j ne. rw (ne→== j i ne) refl)
                (born-IsSound s i new h free below refl refl (inr (p, refl, rw runs refl)) some_pid)
        ]
  ]
