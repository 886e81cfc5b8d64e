-- ===== src/Xv6/File/Descs.antt =====
-- The descriptors of xv6/sysfile.c and the counts of the files that they point to.
use asopracticas.Common.{
  ℕ, zero, suc, ◌+◌, ◌≤◌, ◌<◌, ◌≡◌, ◌≢◌, refl, subst, inl, inr, ◌⊎◌, none, some, List, ◌∷◌, ◌==◌,
  Bool-cases, ==→eq, ==→ne, ne→==, ==_refl, arith,
}
use asopracticas.Xv6.Proc.{nproc}
use asopracticas.Xv6.File.{
  Release, nfile, nofile, Files, desc_slot, put, set_ofile, find_null, fdalloc,
}
use asopracticas.Xv6.File.Counts.{count, count-put, occurs, ndesc, Counts, set_desc-Counts}

-- A descriptor of a process below NPROC.
pub slot_below : (p fd : ℕ) → p < nproc → fd < nofile → desc_slot p fd < ndesc
slot_below p fd a b = omega arith

-- The running call takes the pointer out of a descriptor.
pub take_desc-Counts :
    (s : Files) (held : List ℕ) (p fd i : ℕ)
    → Counts s held
    → p < nproc
    → fd < nofile
    → s.ofile (desc_slot p fd) ≡ suc i
    → Counts (set_ofile p fd 0 s) (suc i ∷ held)
take_desc-Counts s held p fd i h a b e =
    set_desc-Counts s held (suc i ∷ held) (desc_slot p fd) 0 h (slot_below p fd a b) (omega arith)
      (λ j. rw (e, ne→== 0 (suc j) (λ z. absurd (omega arith))) (omega arith))

-- It puts one that it holds into a descriptor that is not in use.
pub give_desc-Counts :
    (s : Files) (held : List ℕ) (p fd i : ℕ)
    → Counts s (suc i ∷ held)
    → p < nproc
    → fd < nofile
    → i < nfile
    → s.ofile (desc_slot p fd) ≡ 0
    → Counts (set_ofile p fd (suc i) s) held
give_desc-Counts s held p fd i h a b below e =
    set_desc-Counts s (suc i ∷ held) held (desc_slot p fd) (suc i) h (slot_below p fd a b)
      (omega arith) (λ j. rw (e, ne→== 0 (suc j) (λ z. absurd (omega arith))) (omega arith))

-- A descriptor in use points to a file that is in use.
pub desc_live :
    (s : Files) (held : List ℕ) (p fd i : ℕ)
    → Counts s held
    → p < nproc
    → fd < nofile
    → s.ofile (desc_slot p fd) ≡ suc i
    → (i < nfile) × ((s.file i).ref ≢ 0)
desc_live s held p fd i h a b e =
    let low = h.inside (desc_slot p fd) (slot_below p fd a b) in
    let c = count-put ndesc s.ofile (desc_slot p fd) 0 (suc i) (slot_below p fd a b) in
    let c' : count ndesc (put s.ofile (desc_slot p fd) 0) (suc i) + 1
        ≡ count ndesc s.ofile (suc i) + 0 =
      rw (e, ==_refl (suc i), ne→== 0 (suc i) (λ z. absurd (omega arith))) at c in
    let below : i < nfile = omega (arith, low, e) in
    let r = h.refs i below in (below, λ z. absurd (omega (arith, c', r, z)))

find_null_lem :
    (k fd p : ℕ) (t : ℕ → ℕ)
    → ((find_null k fd p t ≡ none) × ((j : ℕ) → fd ≤ j → j < fd + k → t (desc_slot p j) ≢ 0))
      ⊎ ((j : ℕ) × (find_null k fd p t ≡ some j) × (j < fd + k) × (t (desc_slot p j) ≡ 0))
unfolding find_null
find_null_lem zero fd p t = inl (refl, λ j h h'. absurd (omega arith))
find_null_lem (suc k) fd p t = elim (Bool-cases (t (desc_slot p fd) == 0)) [
  | inl free ↦ inr (fd, rw (find_null, free) refl, omega arith, ==→eq _ _ free)
  | inr used ↦ elim (find_null_lem k (fd + 1) p t) [
    | inl (missed, busy) ↦ inl (
      rw (find_null, used) missed,
      λ j h h'. elim (Bool-cases (fd == j)) [
        | inl same ↦ subst (λ x. t (desc_slot p x) ≢ 0) (==→eq fd j same) (==→ne _ _ used)
        | inr other ↦ (let ne = ==→ne fd j other in busy j (omega arith) (omega arith))
      ],
    )
    | inr (j, hit, high, e) ↦ inr (j, rw (find_null, used) hit, omega arith, e)
  ]
]

-- `fdalloc` finds a descriptor that is not in use, or all 16 are.
pub fdalloc_lem :
    (s : Files) (p f : ℕ)
    → ((fdalloc p f s ≡ none) × ((j : ℕ) → j < nofile → s.ofile (desc_slot p j) ≢ 0))
      ⊎ ((fd : ℕ) × (fdalloc p f s ≡ some (fd, set_ofile p fd f s))
          × (fd < nofile)
          × (s.ofile (desc_slot p fd) ≡ 0))
unfolding fdalloc
fdalloc_lem s p f = elim (find_null_lem nofile 0 p s.ofile) [
  | inl (missed, busy) ↦
      inl (rw (fdalloc, missed) refl, λ j below. busy j (omega arith) (omega arith))
  | inr (fd, hit, below, e) ↦ inr (fd, rw (fdalloc, hit) refl, omega arith, e)
]

pub held_live :
    (s : Files) (held : List ℕ) (i : ℕ) → Counts s (suc i ∷ held) → i < nfile → (s.file i).ref ≢ 0
held_live s held i h below =
    let r : (s.file i).ref ≡ count ndesc s.ofile (suc i) + (1 + occurs (suc i) held) =
      rw (==_refl (suc i)) at (h.refs i below) in
    λ z. absurd (omega (arith, r, z))

pub swap-Counts :
    (s : Files) (held : List ℕ) (a b : ℕ) → Counts s (a ∷ b ∷ held) → Counts s (b ∷ a ∷ held)
swap-Counts s held a b h = record {
  refs = λ i below. let r = h.refs i below in omega (arith, r);
  inside = h.inside;
  free = h.free;
}

-- The calls that are made leave the counts alone.
pub released-Counts :
    (s : Files) (held : List ℕ) (calls : List Release)
    → Counts s held
    → Counts (record s { released = calls }) held
released-Counts s held calls h = record { refs = h.refs; inside = h.inside; free = h.free }
