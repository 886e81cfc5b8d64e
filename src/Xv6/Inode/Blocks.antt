-- ===== src/Xv6/Inode/Blocks.antt =====
-- `balloc` of xv6/fs.c, and the blocks and the room in the log that are left.
use asopracticas.Common.{
  ℕ, zero, suc, ◌+◌, ◌/◌, ◌≤◌, ◌<◌, ◌≡◌, refl, Bool, true, false, none, some, ◌==◌, if◌then◌else◌,
  Bool-cases, ==→eq, ==→ne, ne→==, arith, inl, inr, ◌⊎◌, subst,
}
use asopracticas.Xv6.Log.{Log}
use asopracticas.Xv6.Log.Ops.Room.{room_of, log_write_room}
use asopracticas.Xv6.Inode.{log_buffer, Volume, bpb, put, bzero, find_clear, balloc, set_block}

-- How many blocks below `n` are not in use.
unfoldable pub clear_count : ℕ → (ℕ → Bool) → ℕ
clear_count zero used = 0
clear_count (suc n) used = (if used n then 0 else 1) + clear_count n used

clear_count-put_high :
    (n : ℕ) (used : ℕ → Bool) (b : ℕ) (w : Bool)
    → n ≤ b
    → clear_count n (put used b w) ≡ clear_count n used
unfolding clear_count
clear_count-put_high zero used b w high = refl
clear_count-put_high (suc n) used b w high =
    let other = ne→== n b (λ e. absurd (omega arith)) in
    rw (clear_count, other, clear_count-put_high n used b w (omega arith)) refl

pub clear_count-put :
    (n : ℕ) (used : ℕ → Bool) (b : ℕ)
    → b < n
    → used b ≡ false
    → clear_count n (put used b true) + 1 ≡ clear_count n used
unfolding clear_count
clear_count-put zero used b below clear = absurd (omega arith)
clear_count-put (suc n) used b below clear = elim (Bool-cases (n == b)) [
  | inl same ↦
      let e = ==→eq n b same in
      rw (clear_count, same, clear_count-put_high n used b true (omega arith), e, clear)
        (omega arith)
  | inr other ↦
      let ne = ==→ne n b other in
      let rest = clear_count-put n used b (omega arith) clear in
      rw (clear_count, other) (omega arith)
]

find_clear_lem :
    (k b : ℕ) (used : ℕ → Bool)
    → ((find_clear k b used ≡ none) × ((c : ℕ) → b ≤ c → c < b + k → used c ≡ true))
      ⊎ ((c : ℕ) × (find_clear k b used ≡ some c) × (c < b + k) × (used c ≡ false))
unfolding find_clear
find_clear_lem zero b used = inl (refl, λ c h h'. absurd (omega arith))
find_clear_lem (suc k) b used = elim (Bool-cases (used b)) [
  | inr clear ↦ inr (b, rw (find_clear, clear) refl, omega arith, clear)
  | inl busy ↦ elim (find_clear_lem k (b + 1) used) [
    | inl (missed, all) ↦ inl (
      rw (find_clear, busy) missed,
      λ c h h'. elim (Bool-cases (b == c)) [
        | inl same ↦ subst (λ x. used x ≡ true) (==→eq b c same) busy
        | inr other ↦ (let ne = ==→ne b c other in all c (omega arith) (omega arith))
      ],
    )
    | inr (c, hit, high, clear) ↦ inr (c, rw (find_clear, busy) hit, omega arith, clear)
  ]
]

clear_count-full :
    (n : ℕ) (used : ℕ → Bool) → ((c : ℕ) → c < n → used c ≡ true) → clear_count n used ≡ 0
unfolding clear_count
clear_count-full zero used all = refl
clear_count-full (suc n) used all =
    rw (clear_count, all n (omega arith), clear_count-full n used (λ c h. all c (omega arith))) refl

pub log_buffer_lem :
    (b : ℕ) (v : Volume)
    → 0 < room_of v.log
    → (l : Log) × (log_buffer b v ≡ some (record v { log = l })) × (room_of v.log ≤ room_of l + 1)
unfolding log_buffer
log_buffer_lem b v room =
    let (l, _, e, less) = log_write_room v.log (record { blockno = b; dirty = false }) room in
    (l, rw (log_buffer, e) refl, less)

-- The volume once `balloc` has taken `b`.
abbrev pub taken : ℕ → Log → Volume → Volume
taken b l v = record (set_block b (λ o. 0) (record v { used = put v.used b true })) { log = l }

-- Where a block and the room for it in the log are left, `balloc` takes one that was not in use.
pub balloc_lem :
    (v : Volume)
    → 0 < clear_count v.size v.used
    → 2 ≤ room_of v.log
    → (b : ℕ) × (l : Log) × (balloc v ≡ some (b, taken b l v))
      × (b < v.size)
      × (v.used b ≡ false)
      × (clear_count v.size (put v.used b true) + 1 ≡ clear_count v.size v.used)
      × (room_of v.log ≤ room_of l + 2)
unfolding balloc bzero
balloc_lem v left room = elim (find_clear_lem v.size 0 v.used) [
  | inl (_, all) ↦
      let none_left =
        clear_count-full v.size v.used (λ c below. all c (omega arith) (omega arith)) in
      absurd (omega arith)
  | inr (b, hit, below, clear) ↦
      let v1 : Volume = record v { used = put v.used b true } in
      let (l1, e1, room1) = log_buffer_lem (b / bpb + v.bmapstart) v1 (omega arith) in
      let v2 : Volume = set_block b (λ o. 0) (record v1 { log = l1 }) in
      let (l2, e2, room2) = log_buffer_lem b v2 (omega arith) in
      (
        b,
        l2,
        rw (balloc, hit, e1, bzero, e2) refl,
        omega arith,
        clear,
        clear_count-put v.size v.used b (omega arith) clear,
        omega arith,
      )
]
