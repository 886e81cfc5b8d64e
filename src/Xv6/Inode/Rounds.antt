-- ===== src/Xv6/Inode/Rounds.antt =====
-- The loop of `writei` of xv6/fs.c.
use asopracticas.Common.{
  get_or-take, get_or-drop, ℕ, zero, suc, ◌+◌, ◌-◌, ◌*◌, ◌/◌, ◌%◌, ◌≤◌, ◌<◌, ◌≡◌, ◌≢◌, refl, sym,
  ◌∙◌, ap, some, ◌==◌, ltb, Bool-cases, ==→eq, ==→ne, arith, inl, inr, ◌⊎◌, min, List, length,
  get_or, take, drop, length-take, length-drop, ltb→lt, ltb→le,
}
use asopracticas.Xv6.Inode.{State, bsize, maxfile, set_block, splice, write_from}
use asopracticas.Xv6.Inode.Layout.{block_of, byte_at, IsSound, Grows, Grows-refl, Grows-trans}
use asopracticas.Xv6.Log.Ops.Room.{room_of}
use asopracticas.Xv6.Inode.Blocks.{log_buffer_lem}
use asopracticas.Xv6.Inode.Bmap.{clear_of, log_room, mapped, bmap_lem}
use asopracticas.Xv6.Inode.Write.{
  stored, stored_blocks, stored-IsSound, stored-Grows, stored_inside, stored_outside,
}

-- The blocks that `n` bytes from `off` on lie in.
abbrev pub blocks : ℕ → ℕ → ℕ
blocks off n = (off % bsize + n + 511) / bsize

-- What the loop leaves of the bytes `src` at `off`.
pub data Written (fuel off : ℕ) (src : List ℕ) (s : State) : Type 0 where
  written :
      (s' : State)
      → write_from fuel off src s ≡ some s'
      → IsSound s'
      → Grows s s'
      → ((bn : ℕ)
          → 0 < length src
          → off / bsize ≤ bn
          → bn * bsize < off + length src
          → block_of bn s' ≢ 0)
      → ((x : ℕ) → x < length src → byte_at (off + x) s' ≡ get_or src x 0)
      → ((y : ℕ)
          → y / bsize < maxfile
          → (y < off) ⊎ (off + length src ≤ y)
          → block_of (y / bsize) s ≢ 0
          → byte_at y s' ≡ byte_at y s)
      → (0 < length src → log_room s ≤ log_room s' + 6 * blocks off (length src))
      → (length src ≡ 0 → log_room s ≤ log_room s')
      → Written fuel off src s

no_bytes :
    (fuel off : ℕ) (src : List ℕ) (s : State) → length src ≡ 0 → write_from fuel off src s ≡ some s
unfolding write_from
no_bytes zero off src s e = refl
no_bytes (suc fuel) off src s e = rw (write_from, e) refl

pub write_from_lem :
    (fuel off : ℕ) (src : List ℕ) (s : State)
    → IsSound s
    → length src ≤ fuel
    → off + length src ≤ maxfile * bsize
    → (0 < length src → 2 * blocks off (length src) ≤ clear_of s)
    → (0 < length src → 6 * blocks off (length src) ≤ log_room s)
    → Written fuel off src s
unfolding write_from
write_from_lem zero off src s h enough room left log =
    written s refl h (Grows-refl s) (λ bn some_bytes low high. absurd (omega arith))
      (λ x low. absurd (omega arith)) (λ y _ _ _. refl) (λ some_bytes. absurd (omega arith))
      (λ _. omega arith)
write_from_lem (suc fuel) off src s h enough room left log = elim (Bool-cases (length src == 0)) [
  | inl done ↦
      let e = ==→eq _ _ done in
      written s (no_bytes (suc fuel) off src s e) h (Grows-refl s)
        (λ bn some_bytes low high. absurd (omega arith)) (λ x low. absurd (omega arith))
        (λ y _ _ _. refl) (λ some_bytes. absurd (omega arith)) (λ _. omega arith)
  | inr more ↦
      let n_pos : 0 < length src = omega (arith, ==→ne _ _ more) in
      let left' = left n_pos in
      let log_left = log n_pos in
      elim (bmap_lem (off / bsize) s h (omega arith) (omega arith) (omega arith)) [
        | mapped t e nz ht gt kt count used_room ↦
            let m = min (length src) (bsize - off % bsize) in
            let m_pos : 0 < m = omega arith in
            let len1 : length (take m src) ≡ m = length-take m src ∙ omega arith in
            let len2 : length (drop m src) ≡ length src - m = length-drop m src in
            let below : off / bsize < maxfile = omega arith in
            let fits : off % bsize + length (take m src) ≤ bsize = omega arith in
            let (l, logged, room') =
              log_buffer_lem (block_of (off / bsize) t)
                (set_block (block_of (off / bsize) t)
                  (splice (t.vol.bytes (block_of (off / bsize) t)) (off % bsize) (take m src))
                  t.vol)
                (omega arith) in
            let s1 = stored t ht off (take m src) below nz fits l in
            let rest =
              write_from_lem fuel (off + m) (drop m src) s1
                (stored-IsSound t ht off (take m src) below nz fits l) (omega arith) (omega arith)
                (λ pos. omega arith) (λ pos. omega arith) in
            elim rest [
              | written s' e' h' g' got' bytes' kept' uses' no_use' ↦
                  written s' (rw (write_from, more, e, logged) e') h'
                    (Grows-trans gt
                      (Grows-trans (stored-Grows t ht off (take m src) below nz fits l) g'))
                    (λ bn _ low high. elim (Bool-cases (bn == off / bsize)) [
                      | inl first ↦
                          let at = ==→eq bn _ first in
                          let same =
                            stored_blocks t ht off (take m src) below nz fits l (off / bsize) in
                          let later = g'.stays (off / bsize) below (λ z. nz (sym same ∙ z)) in
                          (λ z. nz (sym same ∙ sym later ∙ ap (λ n. block_of n s') (sym at) ∙ z))
                      | inr next ↦
                          let ne = ==→ne bn _ next in
                          got' bn (omega arith) (omega arith) (omega arith)
                    ])
                    (λ x low. elim (Bool-cases (ltb x m)) [
                      | inl now ↦
                          let now' = ltb→lt x m now in
                          let q : (off + x) / bsize ≡ off / bsize = omega arith in
                          let same =
                            stored_blocks t ht off (take m src) below nz fits l (off / bsize) in
                          kept' (off + x) (omega arith) (inl (omega arith))
                            (λ z. nz (sym same ∙ ap (λ n. block_of n s1) (sym q) ∙ z))
                          ∙ stored_inside t ht off (take m src) below nz fits l x (omega arith)
                          ∙ get_or-take m src x 0 now'
                      | inr late ↦
                          let late' = ltb→le x m late in
                          let at : off + m + (x - m) ≡ off + x = omega arith in
                          let at' : m + (x - m) ≡ x = omega arith in
                          ap (λ y. byte_at y s') (sym at)
                          ∙ bytes' (x - m) (omega arith)
                          ∙ get_or-drop m src (x - m) 0
                          ∙ ap (λ y. get_or src y 0) at'
                    ])
                    (λ y low outside there.
                      let stays = gt.stays (y / bsize) low there in
                      let some_t : block_of (y / bsize) t ≢ 0 = λ z. there (sym stays ∙ z) in
                      let some_s1 : block_of (y / bsize) s1 ≢ 0 = λ z. some_t (
                        sym (stored_blocks t ht off (take m src) below nz fits l (y / bsize))
                        ∙ z) in
                      kept' y low
                        (elim outside [
                          | inl before ↦ inl (omega arith)
                          | inr after ↦ inr (omega arith)
                        ])
                        some_s1
                      ∙ stored_outside t ht off (take m src) below nz fits l y low
                          (elim outside [ inl before ↦ inl before | inr after ↦ inr (omega arith) ])
                          some_t
                      ∙ ap (λ c. t.vol.bytes c (y % bsize)) stays
                      ∙ kt (block_of (y / bsize) s) (y % bsize) (h.held (y / bsize) low)
                          (h.apart_indirect (y / bsize) low there))
                    (λ _. elim (Bool-cases (length (drop m src) == 0)) [
                      | inl last ↦
                          (let spent : room_of l ≤ log_room s' = no_use' (==→eq _ _ last) in
                            omega (arith, spent))
                      | inr on ↦
                          (let some_left : 0 < length (drop m src) = omega (arith, ==→ne _ _ on) in
                            let spent : room_of l
                                ≤ log_room s' + 6 * blocks (off + m) (length (drop m src)) =
                              uses' some_left in
                            omega (arith, spent))
                    ])
                    (λ z. absurd (omega arith))
            ]
      ]
]
