-- ===== src/Xv6/File/Pipes.antt =====
-- What `pipealloc` and `sys_pipe` keep, xv6/pipe.c and xv6/sysfile.c.
use asopracticas.Common.{
  ℕ, suc, ◌-◌, ◌<◌, ◌≡◌, refl, inl, inr, true, false, none, some, [], ◌∷◌, ◌==◌, Bool-cases, ne→==,
  ==_refl, arith,
}
use asopracticas.Xv6.Proc.{nproc}
use asopracticas.Xv6.File.{
  nfile, Files, desc_slot, set_file, set_ofile, state_of, drop_both, as_pipe, pipealloc, sys_pipe,
}
use asopracticas.Xv6.File.Counts.{Counts, filealloc_lem, fileclose_lem, retype-Counts}
use asopracticas.Xv6.File.Descs.{
  take_desc-Counts, give_desc-Counts, fdalloc_lem, held_live, swap-Counts,
}
use asopracticas.Xv6.File.Calls.{Keeps}

suc_taken : (i : ℕ) → suc i == 0 ≡ false
suc_taken i = ne→== _ _ (λ z. absurd (omega arith))

drop_both_lem :
    (s : Files) (i j : ℕ)
    → Counts s (suc i ∷ suc j ∷ [])
    → i < nfile
    → j < nfile
    → Keeps (drop_both (suc i) (suc j) s)
unfolding drop_both
drop_both_lem s i j h a b =
    let (s1, e, _, c) = fileclose_lem s (suc j ∷ []) i h a in
    let (s2, e', _, c') = fileclose_lem s1 [] j c b in
    (s2, rw (drop_both, suc_taken i, suc_taken j, e, e') refl, c')

drop_one_lem :
    (s : Files) (i : ℕ) → Counts s (suc i ∷ []) → i < nfile → Keeps (drop_both (suc i) 0 s)
unfolding drop_both
drop_one_lem s i h a =
    let (s1, e, _, c) = fileclose_lem s [] i h a in (s1, rw (drop_both, suc_taken i, e) refl, c)

-- `pipealloc` hands out two files, or returns -1 with both back in the table.
data Piped (page : ℕ) (s : Files) : Type 0 where
  refused : (s' : Files) → pipealloc page s ≡ some (none, s') → Counts s' [] → Piped page s
  piped :
      (i j : ℕ) (s' : Files)
      → pipealloc page s ≡ some (some (suc i, suc j), s')
      → i < nfile
      → j < nfile
      → Counts s' (suc i ∷ suc j ∷ [])
      → Piped page s

pipealloc_lem : (page : ℕ) (s : Files) → Counts s [] → Piped page s
unfolding pipealloc
pipealloc_lem page s h = elim (filealloc_lem s [] h) [
  | inl (e, _) ↦ refused s (rw (pipealloc, e) refl) h
  | inr (i, s1, e, a, _, c) ↦ elim (filealloc_lem s1 (suc i ∷ []) c) [
    | inl (e', _) ↦
        let (s3, e3, c3) = drop_one_lem s1 i c a in
        refused s3 (rw (pipealloc, e, e', suc_taken i, e3) refl) c3
    | inr (j, s2, e', b, _, c') ↦ elim (Bool-cases (page == 0)) [
      | inl no_page ↦
          let (s3, e3, c3) = drop_both_lem s2 i j (swap-Counts s2 [] (suc j) (suc i) c') a b in
          refused s3 (rw (pipealloc, e, e', suc_taken i, suc_taken j, no_page, e3) refl) c3
      | inr paged ↦
          let back : suc i - 1 ≡ i = omega arith in
          let back_j : suc j - 1 ≡ j = omega arith in
          let c2 = swap-Counts s2 [] (suc j) (suc i) c' in
          let s3 : Files = set_file i (as_pipe page true (s2.file i)) s2 in
          let c3 : Counts s3 (suc i ∷ suc j ∷ []) =
            retype-Counts s2 _ i (as_pipe page true (s2.file i)) c2 a refl
              (held_live s2 _ i c2 a) in
          let s4 : Files = set_file j (as_pipe page false (s3.file j)) s3 in
          let c4 : Counts s4 (suc i ∷ suc j ∷ []) =
            retype-Counts s3 _ j (as_pipe page false (s3.file j)) c3 b refl
              (held_live s3 _ j (swap-Counts s3 [] (suc i) (suc j) c3) b) in
          piped i j s4 (rw (pipealloc, e, e', suc_taken i, suc_taken j, paged, back, back_j) refl) a
            b c4
    ]
  ]
]

pub sys_pipe-Keeps :
    (p page : ℕ) (s : Files) → Counts s [] → p < nproc → Keeps (state_of (sys_pipe p page s))
unfolding sys_pipe
sys_pipe-Keeps p page s h a = elim (pipealloc_lem page s h) [
  | refused s1 e c ↦ (s1, rw (sys_pipe, e) refl, c)
  | piped i j s1 e bi bj c ↦ elim (fdalloc_lem s1 p (suc i)) [
    | inl (full, _) ↦
        let (s2, e2, c2) = drop_both_lem s1 i j c bi bj in (s2, rw (sys_pipe, e, full, e2) refl, c2)
    | inr (fd0, e0, low, idle) ↦
        let s2 : Files = set_ofile p fd0 (suc i) s1 in
        let c2 : Counts s2 (suc j ∷ []) = give_desc-Counts s1 _ p fd0 i c a low bi idle in
        elim (fdalloc_lem s2 p (suc j)) [
          | inl (full, _) ↦
              let c3 =
                take_desc-Counts s2 _ p fd0 i c2 a low (rw (==_refl (desc_slot p fd0)) refl) in
              let (s3, e3, c4) = drop_both_lem (set_ofile p fd0 0 s2) i j c3 bi bj in
              (s3, rw (sys_pipe, e, e0, full, e3) refl, c4)
          | inr (fd1, e1, low1, idle1) ↦ (
            set_ofile p fd1 (suc j) s2,
            rw (sys_pipe, e, e0, e1) refl,
            give_desc-Counts s2 [] p fd1 j c2 a low1 bj idle1,
          )
        ]
  ]
]
