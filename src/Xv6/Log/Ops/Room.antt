-- ===== src/Xv6/Log/Ops/Room.antt =====
-- How often `log_write` of xv6/log.c can be called before it may panic.
use asopracticas.Common.{
  ◌+◌, ◌-◌, ◌≤◌, ◌<◌, ◌≡◌, refl, true, false, ◌||◌, leb, ◌==◌, if◌then◌else◌, min, some, Bool-cases,
  inl, inr, arith, ℕ,
}
use asopracticas.Xv6.Log.{Log, logsize}
use asopracticas.Xv6.Log.Ops.{Buffer, is_negative, enter, log_write}
use asopracticas.Xv6.Log.Ops.Space.{n-enter}

-- A bound that needs no absorption.
unfoldable pub room_of : Log → ℕ
room_of l =
    if l.outstanding == 0 || is_negative l.outstanding then 0 else min logsize (l.size - 1) - l.lh.n

pub log_write_room :
    (l : Log) (b : Buffer)
    → 0 < room_of l
    → (l' : Log) × (b' : Buffer) × (log_write l b ≡ some (l', b')) × (room_of l ≤ room_of l' + 1)
unfolding log_write room_of
log_write_room l b room = elim (Bool-cases (l.outstanding == 0 || is_negative l.outstanding)) [
  | inl idle ↦ let none_left : room_of l ≡ 0 = rw (room_of, idle) refl in absurd (omega arith)
  | inr in_op ↦
      let l' : Log = record l { lh = enter l.lh b.blockno } in
      let here : room_of l ≡ min logsize (l.size - 1) - l.lh.n = rw (room_of, in_op) refl in
      let after : room_of l' ≡ min logsize (l.size - 1) - (enter l.lh b.blockno).n =
        rw (room_of, in_op) refl in
      let fits : leb logsize l.lh.n || leb (l.size - 1) l.lh.n ≡ false =
        ground (arith, room, here) in
      (
        l',
        record b { dirty = true },
        rw (log_write, fits, in_op) refl,
        omega (arith, here, after, n-enter l.lh b.blockno),
      )
]
