-- ===== src/Xv6/Proc/Slots.antt =====
-- What `allocproc` and `fork` of xv6/proc.c do to a new slot keeps the invariant, step by step.
use asopracticas.Common.{
  ℕ, suc, ◌+◌, ◌-◌, ◌^◌, ◌<◌, ◌≡◌, refl, ◌∙◌, inl, inr, ◌==◌, Bool-cases, arith, add32,
}
use asopracticas.Xv6.Proc.{Proc, embryo, System, put, nproc, find_slot, set_stack, copy_parent}
use asopracticas.Xv6.Proc.Searches.{find_unused_lem}
use asopracticas.Xv6.Proc.Invariant.{IsFree, IsPending, IsSound}
use asopracticas.Xv6.Proc.Steps.{kept_slot-IsSound}
use asopracticas.Xv6.Proc.Births.{freed-IsSound}
use asopracticas.Xv6.Proc.Fork.{born-IsSound, given-IsSound}
use asopracticas.Xv6.Proc.Children.{unused_of}

pub find_slot-IsSound :
    (s : System)
    → IsSound s
    → (c p : ℕ) → s.cpus c ≡ suc p
    → s.nextpid + 1 < 2 ^ 31
    → IsSound (find_slot s).1
unfolding find_slot
find_slot-IsSound s h c p cur room = elim (find_unused_lem nproc 0 s.procs) [
  | inl (missed, _) ↦ rw (find_slot, missed) h
  | inr (i, hit, _, below, free, _) ↦
      let counted : add32 s.nextpid 1 ≡ s.nextpid + 1 = omega arith in
      let runs = h.on_cpu c p cur in
      let numbered = h.numbered p (λ f. cc) in
      let free' : IsFree (s.procs i) = unused_of (s.procs i).state free in
      rw (find_slot, hit, counted)
        (born-IsSound s i (record (s.procs i) { state = embryo; pid = s.nextpid }) h free'
          (omega arith) refl refl (inl (h.orphan i free')) (omega arith))
]

-- A pending slot is given back.
dropped-IsSound :
    (s : System) (i : ℕ) (new : Proc)
    → IsSound s
    → IsPending (s.procs i)
    → IsFree new
    → new.parent ≡ (s.procs i).parent
    → IsSound (record s { procs = put s.procs i new })
dropped-IsSound s i new h (state, none_yet) free same =
    freed-IsSound s i s.nextpid new h (rw state refl) free (same ∙ none_yet) (omega arith)

pub set_stack-IsSound :
    (s : System)
    → IsSound s
    → (i stack : ℕ) → IsPending (s.procs i)
    → IsSound (set_stack stack (suc i) s).1
unfolding set_stack
set_stack-IsSound s h i stack pending =
    let back : suc i - 1 ≡ i = omega arith in
    elim (Bool-cases (stack == 0)) [
      | inl empty ↦ rw (set_stack, empty, back) (dropped-IsSound s i _ h pending refl refl)
      | inr full ↦
          rw (set_stack, full, back) (kept_slot-IsSound s i _ h pending.0 pending.0 refl refl)
    ]

pub copy_parent-IsSound :
    (s : System)
    → IsSound s
    → (c p : ℕ) → s.cpus c ≡ suc p
    → (i dir : ℕ) → IsPending (s.procs i)
    → IsSound (copy_parent c dir (suc i) s).1
unfolding copy_parent
copy_parent-IsSound s h c p cur i dir pending =
    let back : suc i - 1 ≡ i = omega arith in
    let runs = h.on_cpu c p cur in
    elim (Bool-cases (dir == 0)) [
      | inl none_there ↦
          rw (copy_parent, none_there, back) (dropped-IsSound s i _ h pending refl refl)
      | inr copied ↦
          rw (copy_parent, copied, back)
            (given-IsSound s i p _ h pending (rw runs refl) pending.0 refl cur)
    ]
