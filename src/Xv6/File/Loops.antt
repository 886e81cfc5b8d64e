-- ===== src/Xv6/File/Loops.antt =====
-- The loops of `fork` and `exit` over descriptors.
use asopracticas.Common.{
  ℕ, zero, suc, ◌+◌, ◌-◌, ◌≤◌, ◌<◌, ◌≡◌, refl, inl, inr, ◌⊎◌, false, none, some, [], ◌==◌, ltb,
  Bool-cases, ne→==, arith,
}
use asopracticas.Xv6.Proc.{nproc}
use asopracticas.Xv6.File.{
  nofile, fd_none, Files, desc_slot, put, set_file, set_ofile, fileclose, release, copy_from,
  close_from,
}
use asopracticas.Xv6.File.Counts.{Counts, filedup_live, duped-Counts, fileclose_lem}
use asopracticas.Xv6.File.Descs.{take_desc-Counts, give_desc-Counts, desc_live}
use asopracticas.Xv6.File.Calls.{Keeps}

-- Process `q` has no descriptor in use from `fd` on.
abbrev pub IsIdle : ℕ → ℕ → Files → Type 0
IsIdle q fd s = (j : ℕ) → fd ≤ j → j < nofile → s.ofile (desc_slot q j) ≡ 0

-- A pointer is null, or it names an entry.
pointer : (x : ℕ) → (x ≡ 0) ⊎ ((f : ℕ) × (x ≡ suc f))
pointer zero = inl refl
pointer (suc f) = inr (f, refl)

suc_taken : (i : ℕ) → suc i == 0 ≡ false
suc_taken i = ne→== _ _ (λ z. absurd (omega arith))

pub copy_from-Keeps :
    (k fd p q : ℕ) (s : Files)
    → Counts s []
    → p < nproc
    → q < nproc
    → fd + k ≡ nofile
    → IsIdle q fd s
    → Keeps (copy_from k fd p q s)
unfolding copy_from
copy_from-Keeps zero fd p q s h a b ends idle = (s, refl, h)
copy_from-Keeps (suc k) fd p q s h a b ends idle = elim (pointer (s.ofile (desc_slot p fd))) [
  | inl none_there ↦
      let (s', e, c) =
        copy_from-Keeps k (fd + 1) p q s h a b (omega arith)
          (λ j low high. idle j (omega arith) high) in
      (s', rw (copy_from, none_there) e, c)
  | inr (f, at_fd) ↦
      let (below, live) = desc_live s [] p fd f h a (omega arith) at_fd in
      let s1 : Files = set_file f (record (s.file f) { ref = (s.file f).ref + 1 }) s in
      let s2 : Files = set_ofile q fd (suc f) s1 in
      let c2 : Counts s2 [] =
        give_desc-Counts s1 [] q fd f (duped-Counts s [] f h below) b (omega arith) below
          (idle fd (omega arith) (omega arith)) in
      let still : IsIdle q (fd + 1) s2 = λ j low high.
        rw (ne→== (desc_slot q j) (desc_slot q fd) (λ z. absurd (omega arith)))
          (idle j (omega arith) high) in
      let (s', e, c) = copy_from-Keeps k (fd + 1) p q s2 c2 a b (omega arith) still in
      (s', rw (copy_from, at_fd, suc_taken f, filedup_live s f live) e, c)
]

-- `fileclose` does not look at the descriptors.
fileclose_moves :
    (s s' : Files) (f : ℕ) (t : ℕ → ℕ)
    → fileclose f (record s { ofile = t }) ≡ some s'
    → (s1 : Files) × (fileclose f s ≡ some s1)
      × (s1.ofile ≡ s.ofile)
      × (record s1 { ofile = t } ≡ s')
unfolding fileclose
fileclose_moves s s' f t e =
    let ff = s.file (f - 1) in
    elim (Bool-cases (ltb ff.ref 1)) [
      | inl dead ↦ (let no_end : none ≡ some s' = rw (fileclose, dead) at e in cc)
      | inr live ↦ elim (Bool-cases (ltb 0 (ff.ref - 1))) [
        | inl stays ↦
            let s1 : Files = set_file (f - 1) (record ff { ref = ff.ref - 1 }) s in
            let e' : some (record s1 { ofile = t }) ≡ some s' = rw (fileclose, live, stays) at e in
            (s1, rw (fileclose, live, stays) refl, refl, cc)
        | inr last ↦
            let s1 : Files = record s {
              file = put s.file (f - 1) (record ff { ref = 0; type = fd_none });
              released = release ff s.released;
            } in
            let e' : some (record s1 { ofile = t }) ≡ some s' = rw (fileclose, live, last) at e in
            (s1, rw (fileclose, live, last) refl, refl, cc)
      ]
    ]

pub close_from-Keeps :
    (k fd p : ℕ) (s : Files)
    → Counts s []
    → p < nproc
    → fd + k ≡ nofile
    → Keeps (close_from k fd p s)
unfolding close_from
close_from-Keeps zero fd p s h a ends = (s, refl, h)
close_from-Keeps (suc k) fd p s h a ends = elim (pointer (s.ofile (desc_slot p fd))) [
  | inl none_there ↦
      let (s', e, c) = close_from-Keeps k (fd + 1) p s h a (omega arith) in
      (s', rw (close_from, none_there) e, c)
  | inr (f, at_fd) ↦
      let (below, _) = desc_live s [] p fd f h a (omega arith) at_fd in
      let (s2, e2, _, c2) =
        fileclose_lem (set_ofile p fd 0 s) [] f
          (take_desc-Counts s [] p fd f h a (omega arith) at_fd) below in
      let (s1, e1, same_desc, same) =
        fileclose_moves s s2 (suc f) (put s.ofile (desc_slot p fd) 0) e2 in
      let one_step : set_ofile p fd 0 s1 ≡ s2 = rw same_desc same in
      let (s', e, c) = close_from-Keeps k (fd + 1) p s2 c2 a (omega arith) in
      (s', rw (close_from, at_fd, suc_taken f, e1, one_step) e, c)
]
