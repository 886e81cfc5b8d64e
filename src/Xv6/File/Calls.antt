-- ===== src/Xv6/File/Calls.antt =====
-- What the calls of xv6/sysfile.c on one file keep.
use asopracticas.Common.{
  ℕ, suc, ◌+◌, ◌-◌, ◌/◌, ◌%◌, ◌<◌, ◌≡◌, ◌≢◌, refl, ap, inl, inr, ◌⊎◌, Bool, true, false, ◌||◌,
  Option, none, some, [], ◌∷◌, ◌==◌, leb, Bool-cases, ==→ne, ne→==, arith,
}
use asopracticas.Xv6.Proc.{nproc}
use asopracticas.Xv6.File.{
  nofile, fd_inode, File, Files, desc_slot, set_file, set_ofile, argfd, state_of, sys_dup,
  sys_close, open_file, put_inode,
}
use asopracticas.Xv6.File.Counts.{
  Counts, filealloc_lem, filedup_live, duped-Counts, fileclose_lem, retype-Counts,
}
use asopracticas.Xv6.File.Descs.{
  take_desc-Counts, give_desc-Counts, desc_live, fdalloc_lem, held_live, released-Counts,
}

-- A call comes to an end, and each file has as many references as descriptors point to it.
abbrev pub Keeps : Option Files → Type 0
Keeps r = (s : Files) × (r ≡ some s) × Counts s []

or_parts : (a b : Bool) → a || b ≡ false → (a ≡ false) × (b ≡ false)
or_parts true b h = absurd (ground (arith, h))
or_parts false b h = (refl, h)

pub argfd_lem :
    (p fd : ℕ) (s : Files)
    → (argfd p fd s ≡ none)
      ⊎ ((i : ℕ) × (argfd p fd s ≡ some (suc i))
          × (fd < nofile)
          × (s.ofile (desc_slot p fd) ≡ suc i))
unfolding argfd
argfd_lem p fd s = elim (Bool-cases (leb nofile fd || s.ofile (desc_slot p fd) == 0)) [
  | inl bad ↦ inl (rw (argfd, bad) refl)
  | inr good ↦
      let (low, used) = or_parts (leb nofile fd) (s.ofile (desc_slot p fd) == 0) good in
      let some_file : s.ofile (desc_slot p fd) ≢ 0 = ==→ne _ _ used in
      let whole : s.ofile (desc_slot p fd) ≡ suc (s.ofile (desc_slot p fd) - 1) =
        omega (arith, some_file) in
      inr
        (s.ofile (desc_slot p fd) - 1, rw (argfd, good) (ap some whole), ground (arith, low), whole)
]

pub sys_dup-Keeps :
    (p fd : ℕ) (s : Files) → Counts s [] → p < nproc → Keeps (state_of (sys_dup p fd s))
unfolding sys_dup
sys_dup-Keeps p fd s h a = elim (argfd_lem p fd s) [
  | inl bad ↦ (s, rw (sys_dup, bad) refl, h)
  | inr (i, e, low, at_fd) ↦ elim (fdalloc_lem s p (suc i)) [
    | inl (full, _) ↦ (s, rw (sys_dup, e, full) refl, h)
    | inr (fd', e', low', idle) ↦
        let (below, live) = desc_live s [] p fd i h a low at_fd in
        let s' : Files = set_ofile p fd' (suc i) s in
        (
          set_file i (record (s.file i) { ref = (s.file i).ref + 1 }) s',
          rw (sys_dup, e, e', filedup_live s' i live) refl,
          give_desc-Counts (set_file i (record (s.file i) { ref = (s.file i).ref + 1 }) s) [] p fd'
              i (duped-Counts s [] i h below) a low' below idle,
        )
  ]
]

pub sys_close-Keeps :
    (p fd : ℕ) (s : Files) → Counts s [] → p < nproc → Keeps (state_of (sys_close p fd s))
unfolding sys_close
sys_close-Keeps p fd s h a = elim (argfd_lem p fd s) [
  | inl bad ↦ (s, rw (sys_close, bad) refl, h)
  | inr (i, e, low, at_fd) ↦
      let (below, _) = desc_live s [] p fd i h a low at_fd in
      let taken = take_desc-Counts s [] p fd i h a low at_fd in
      let (s', e', _, c) = fileclose_lem (set_ofile p fd 0 s) [] i taken below in
      (s', rw (sys_close, e, e') refl, c)
]

pub open_file-Keeps :
    (p ip omode : ℕ) (s : Files)
    → Counts s []
    → p < nproc
    → Keeps (state_of (open_file p ip omode s))
unfolding open_file
open_file-Keeps p ip omode s h a = elim (filealloc_lem s [] h) [
  | inl (e, _) ↦ (
    record s { released = put_inode ip ∷ s.released },
    rw (open_file, e) refl,
    released-Counts s [] _ h,
  )
  | inr (i, s1, e, below, _, c) ↦
      let taken : suc i == 0 ≡ false = ne→== _ _ (λ z. absurd (omega arith)) in
      let back : suc i - 1 ≡ i = omega arith in
      elim (fdalloc_lem s1 p (suc i)) [
        | inl (full, _) ↦
            let (s2, e2, _, c2) = fileclose_lem s1 [] i c below in
            (
              record s2 { released = put_inode ip ∷ s2.released },
              rw (open_file, e, taken, full, e, e2) refl,
              released-Counts s2 [] _ c2,
            )
        | inr (fd, e', low, idle) ↦
            let s2 : Files = set_ofile p fd (suc i) s1 in
            let new : File = record (s1.file i) {
              type = fd_inode;
              ip = ip;
              readable = omode % 2 == 0;
              writable = omode % 2 == 1 || omode / 2 % 2 == 1;
            } in
            (
              set_file i new s2,
              rw (open_file, e, taken, e', e, back) refl,
              retype-Counts s2 [] i new (give_desc-Counts s1 [] p fd i c a low below idle) below
                  refl (held_live s1 [] i c below),
            )
      ]
]
