-- ===== src/Xv6/File/Counts.antt =====
-- Each file of xv6/file.c has as many references as descriptors and running calls point to it.
use asopracticas.Common.{
  ℕ, zero, suc, ◌+◌, ◌-◌, ◌≤◌, ◌<◌, ◌≡◌, ◌≢◌, refl, sym, ◌∙◌, subst, inl, inr, ◌⊎◌, Bool, true,
  false, none, some, List, [], ◌∷◌, ◌==◌, ltb, Bool-cases, ==→eq, ==→ne, ne→==, ==_refl, arith,
  ltb→lt,
}
use asopracticas.Xv6.File.{
  nfile, fd_none, File, Files, put, set_file, find_free, filealloc, filedup, fileclose, release,
}

abbrev pub one_if : Bool → ℕ
one_if true = 1
one_if false = 0

-- How many of the entries of `t` below `n` are `f`.
pub count : ℕ → (ℕ → ℕ) → ℕ → ℕ
count zero t f = 0
count (suc n) t f = one_if (t n == f) + count n t f

abbrev pub occurs : ℕ → List ℕ → ℕ
occurs f [] = 0
occurs f (x ∷ xs) = one_if (x == f) + occurs f xs

-- The descriptors of NPROC processes.
abbrev pub ndesc : ℕ
ndesc = 1024

-- `held` are the pointers that the running call holds.
pub record Counts (s : Files) (held : List ℕ) : Type 0 where
  pub refs :
      (i : ℕ) → i < nfile → (s.file i).ref ≡ count ndesc s.ofile (suc i) + occurs (suc i) held
  pub inside : (d : ℕ) → d < ndesc → s.ofile d ≤ nfile
  pub free : (i : ℕ) → i < nfile → (s.file i).ref ≡ 0 → (s.file i).type ≡ fd_none

count-put_high : (n : ℕ) (t : ℕ → ℕ) (d v f : ℕ) → n ≤ d → count n (put t d v) f ≡ count n t f
unfolding count
count-put_high zero t d v f high = refl
count-put_high (suc n) t d v f high =
    let other = ne→== n d (λ e. absurd (omega arith)) in
    rw (count, other, count-put_high n t d v f (omega arith)) refl

pub count-put :
    (n : ℕ) (t : ℕ → ℕ) (d v f : ℕ)
    → d < n
    → count n (put t d v) f + one_if (t d == f) ≡ count n t f + one_if (v == f)
unfolding count
count-put zero t d v f below = absurd (omega arith)
count-put (suc n) t d v f below = elim (Bool-cases (n == d)) [
  | inl same ↦
      let e = ==→eq n d same in
      let rest = count-put_high n t d v f (omega arith) in
      rw (count, same, rest, sym e) (omega arith)
  | inr other ↦
      let ne = ==→ne n d other in
      let rest = count-put n t d v f (omega arith) in rw (count, other) (omega arith)
]

pub count_none : (n f : ℕ) → count n (λ d. 0) (suc f) ≡ 0
unfolding count
count_none zero f = refl
count_none (suc n) f = rw (count, count_none n f, ne→== 0 (suc f) (λ z. absurd (omega arith))) refl

set_file-Counts :
    (s : Files) (held held' : List ℕ) (i : ℕ) (new : File)
    → Counts s held
    → i < nfile
    → new.ref ≡ count ndesc s.ofile (suc i) + occurs (suc i) held'
    → ((j : ℕ) → j ≢ i → occurs (suc j) held' ≡ occurs (suc j) held)
    → (new.ref ≡ 0 → new.type ≡ fd_none)
    → Counts (set_file i new s) held'
set_file-Counts s held held' i new h below ref others free = record {
  refs = λ j inside. elim (Bool-cases (j == i)) [
    | inl same ↦ rw (same, ==→eq j i same) ref
    | inr other ↦ rw (other, others j (==→ne j i other)) (h.refs j inside)
  ];
  inside = h.inside;
  free = λ j inside. elim (Bool-cases (j == i)) [
    | inl same ↦ rw same free
    | inr other ↦ rw other (h.free j inside)
  ];
}

-- A descriptor changes, and what the call holds makes up for it.
pub set_desc-Counts :
    (s : Files) (held held' : List ℕ) (d v : ℕ)
    → Counts s held
    → d < ndesc
    → v ≤ nfile
    → ((i : ℕ)
        → occurs (suc i) held' + one_if (v == suc i)
          ≡ occurs (suc i) held + one_if (s.ofile d == suc i))
    → Counts (record s { ofile = put s.ofile d v }) held'
set_desc-Counts s held held' d v h below small moved = record {
  refs = λ i inside.
      let c = count-put ndesc s.ofile d v (suc i) below in
      let m = moved i in let r = h.refs i inside in omega (arith, c, m, r);
  inside = λ j below'. elim (Bool-cases (j == d)) [
    | inl same ↦ rw same small
    | inr other ↦ rw other (h.inside j below')
  ];
  free = h.free;
}

other_suc : (i j : ℕ) → i ≢ j → suc i == suc j ≡ false
other_suc i j ne = ne→== (suc i) (suc j) (λ e. ne (omega arith))

occurs_other :
    (held : List ℕ) (i j : ℕ) → j ≢ i → occurs (suc j) (suc i ∷ held) ≡ occurs (suc j) held
occurs_other held i j ne = rw (other_suc i j (λ e. ne (sym e))) (omega arith)

find_free_lem :
    (k i : ℕ) (t : ℕ → File)
    → ((find_free k i t ≡ none) × ((j : ℕ) → i ≤ j → j < i + k → (t j).ref ≢ 0))
      ⊎ ((j : ℕ) × (find_free k i t ≡ some j) × (j < i + k) × ((t j).ref ≡ 0))
unfolding find_free
find_free_lem zero i t = inl (refl, λ j h h'. absurd (omega arith))
find_free_lem (suc k) i t = elim (Bool-cases ((t i).ref == 0)) [
  | inl free ↦ inr (i, rw (find_free, free) refl, omega arith, ==→eq _ _ free)
  | inr used ↦ elim (find_free_lem k (i + 1) t) [
    | inl (missed, busy) ↦ inl (
      rw (find_free, used) missed,
      λ j h h'. elim (Bool-cases (i == j)) [
        | inl same ↦ subst (λ x. (t x).ref ≢ 0) (==→eq i j same) (==→ne _ _ used)
        | inr other ↦ (let ne = ==→ne i j other in busy j (omega arith) (omega arith))
      ],
    )
    | inr (j, hit, high, e) ↦ inr (j, rw (find_free, used) hit, omega arith, e)
  ]
]

-- `filealloc` hands out a file of which nobody knows, or the table is full.
pub filealloc_lem :
    (s : Files) (held : List ℕ)
    → Counts s held
    → ((filealloc s ≡ (0, s)) × ((j : ℕ) → j < nfile → (s.file j).ref ≢ 0))
      ⊎ ((i : ℕ) × (s' : Files) × (filealloc s ≡ (suc i, s'))
          × (i < nfile)
          × ((s'.file i).type ≡ fd_none)
          × Counts s' (suc i ∷ held))
unfolding filealloc
filealloc_lem s held h = elim (find_free_lem nfile 0 s.file) [
  | inl (missed, busy) ↦
      inl (rw (filealloc, missed) refl, λ j below. busy j (omega arith) (omega arith))
  | inr (i, hit, below, idle) ↦
      let new : File = record (s.file i) { ref = 1 } in
      let r = h.refs i (omega arith) in
      inr (
        i,
        set_file i new s,
        rw (filealloc, hit) refl,
        omega arith,
        rw (==_refl i) (h.free i (omega arith) idle),
        set_file-Counts s held (suc i ∷ held) i new h (omega arith)
            (rw (==_refl (suc i)) (omega arith)) (occurs_other held i) (λ e. absurd (omega arith)),
      )
]

pub filedup_live :
    (s : Files) (i : ℕ)
    → (s.file i).ref ≢ 0
    → filedup (suc i) s ≡ some (set_file i (record (s.file i) { ref = (s.file i).ref + 1 }) s)
unfolding filedup
filedup_live s i used =
    let back : suc i - 1 ≡ i = omega arith in
    let some_refs : ltb (s.file i).ref 1 ≡ false = ground (arith, used) in
    rw (filedup, back, some_refs) refl

pub duped-Counts :
    (s : Files) (held : List ℕ) (i : ℕ)
    → Counts s held
    → i < nfile
    → Counts (set_file i (record (s.file i) { ref = (s.file i).ref + 1 }) s) (suc i ∷ held)
duped-Counts s held i h below =
    let r = h.refs i below in
    set_file-Counts s held (suc i ∷ held) i _ h below (rw (==_refl (suc i)) (omega (arith, r)))
      (occurs_other held i) (λ e. absurd (omega arith))

pub fileclose_lem :
    (s : Files) (held : List ℕ) (i : ℕ)
    → Counts s (suc i ∷ held)
    → i < nfile
    → (s' : Files) × (fileclose (suc i) s ≡ some s') × (s'.ofile ≡ s.ofile) × Counts s' held
unfolding fileclose
fileclose_lem s held i h below =
    let back : suc i - 1 ≡ i = omega arith in
    let ff = s.file i in
    let r : ff.ref ≡ count ndesc s.ofile (suc i) + (1 + occurs (suc i) held) =
      rw (==_refl (suc i)) at (h.refs i below) in
    let live : ltb ff.ref 1 ≡ false = ground (arith, r) in
    let less : (j : ℕ) → j ≢ i → occurs (suc j) held ≡ occurs (suc j) (suc i ∷ held) =
      λ j ne. sym (occurs_other held i j ne) in
    elim (Bool-cases (ltb 0 (ff.ref - 1))) [
      | inl stays ↦ (
        set_file i (record ff { ref = ff.ref - 1 }) s,
        rw (fileclose, back, live, stays) refl,
        refl,
        set_file-Counts s (suc i ∷ held) held i _ h below (omega (arith, r)) less
            (λ e. absurd (omega (arith, ltb→lt _ _ stays))),
      )
      | inr last ↦
          let one : ff.ref ≤ 1 = ground (arith, last) in
          let new : File = record ff { ref = 0; type = fd_none } in
          let c =
            set_file-Counts s (suc i ∷ held) held i new h below (omega (arith, r, one)) less
              (λ _. refl) in
          (
            record s { file = put s.file i new; released = release ff s.released },
            rw (fileclose, back, live, last) refl,
            refl,
            record { refs = c.refs; inside = c.inside; free = c.free },
          )
    ]

-- A file in use changes, but its count does not.
pub retype-Counts :
    (s : Files) (held : List ℕ) (i : ℕ) (new : File)
    → Counts s held
    → i < nfile
    → new.ref ≡ (s.file i).ref
    → (s.file i).ref ≢ 0
    → Counts (set_file i new s) held
retype-Counts s held i new h below same used =
    set_file-Counts s held held i new h below (same ∙ h.refs i below) (λ j _. refl)
      (λ e. absurd (used (sym same ∙ e)))
