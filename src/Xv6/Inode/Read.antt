-- ===== src/Xv6/Inode/Read.antt =====
-- `readi` of xv6/fs.c.
use asopracticas.Common.{
  ℕ, zero, suc, ◌+◌, ◌-◌, ◌/◌, ◌%◌, ◌≤◌, ◌<◌, ◌≡◌, refl, sym, ◌∙◌, ap, ap₂, some, ◌==◌, Bool-cases,
  ==→eq, ==→ne, arith, inl, inr, min, List, [], ◌∷◌, ◌++◌,
}
use asopracticas.Xv6.Inode.{State, bsize, slice, read_from}
use asopracticas.Xv6.Inode.Layout.{block_of, byte_at, IsSound}
use asopracticas.Xv6.Inode.Bmap.{bmap_there}

-- `n` bytes of the content from `off` on.
abbrev pub content : ℕ → ℕ → State → List ℕ
content off zero s = []
content off (suc n) s = byte_at off s ∷ content (off + 1) n s

content-append :
    (off m n : ℕ) (s : State) → content off (m + n) s ≡ content off m s ++ content (off + m) n s
content-append off zero n s =
    let e : 0 + n ≡ n = omega arith in
    let e' : off + 0 ≡ off = omega arith in
    ap (λ k. content off k s) e ∙ ap (λ k. content k n s) (sym e')
content-append off (suc m) n s =
    let e : suc m + n ≡ suc (m + n) = omega arith in
    let e' : off + 1 + m ≡ off + suc m = omega arith in
    ap (λ k. content off k s) e
    ∙ ap (λ l. byte_at off s ∷ l)
        (content-append (off + 1) m n s ∙ ap (λ k. content (off + 1) m s ++ content k n s) e')

-- What one block gives.
slice_lem :
    (m off o : ℕ) (s : State)
    → o ≡ off % bsize
    → o + m ≤ bsize
    → slice (s.vol.bytes (block_of (off / bsize) s)) o m ≡ content off m s
unfolding slice
slice_lem zero off o s at fits = refl
slice_lem (suc zero) off o s at fits = ap (λ k. s.vol.bytes (block_of (off / bsize) s) k ∷ []) at
slice_lem (suc (suc m)) off o s at fits =
    let same : (off + 1) / bsize ≡ off / bsize = omega arith in
    let rest = slice_lem (suc m) (off + 1) (o + 1) s (omega arith) (omega arith) in
    ap₂ (λ x l. x ∷ l) (ap (s.vol.bytes (block_of (off / bsize) s)) at)
      (ap (λ k. slice (s.vol.bytes (block_of k s)) (o + 1) (suc m)) (sym same) ∙ rest)

pub read_from_lem :
    (fuel off n : ℕ) (s : State)
    → IsSound s
    → n ≤ fuel
    → off + n ≤ s.ip.size
    → read_from fuel off n s ≡ some (content off n s, s)
unfolding read_from
read_from_lem zero off n s h enough inside = let e : n ≡ 0 = omega arith in rw e refl
read_from_lem (suc fuel) off n s h enough inside = elim (Bool-cases (n == 0)) [
  | inl done ↦ rw (read_from, done, ==→eq n 0 done) refl
  | inr more ↦
      let nz = ==→ne n 0 more in
      let m = min n (bsize - off % bsize) in
      let pos_m : 0 < m = omega arith in
      let le_n : m ≤ n = omega arith in
      let fits : off % bsize + m ≤ bsize = omega arith in
      let there = h.filled (off / bsize) (omega arith) in
      let found = bmap_there (off / bsize) s (omega (arith, h.short)) there in
      let rest = read_from_lem fuel (off + m) (n - m) s h (omega arith) (omega arith) in
      let whole : m + (n - m) ≡ n = omega arith in
      let same : slice (s.vol.bytes (block_of (off / bsize) s)) (off % bsize) m
            ++ content (off + m) (n - m) s
          ≡ content off n s =
        ap (λ l. l ++ content (off + m) (n - m) s) (slice_lem m off (off % bsize) s refl fits)
        ∙ sym (content-append off m (n - m) s)
        ∙ ap (λ k. content off k s) whole in
      rw (read_from, more, found, rest) (ap (λ l. some (l, s)) same)
]
