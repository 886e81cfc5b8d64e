-- ===== src/Xv6/Log/Ops.antt =====
-- `begin_op`, `log_write` and `end_op` of xv6/log.c. A call that can sleep is cut at the sleep; the
-- counters are `int`, kept as 32-bit patterns.
pub mod Space
pub mod Absorb
pub mod Room
mod Tests
use asopracticas.Common.{
  ℕ, zero, suc, ◌+◌, ◌-◌, ◌*◌, ◌%◌, ◌^◌, Bool, true, false, ◌&&◌, ◌||◌, Option, none, some, ◌==◌,
  ltb, leb, not, if◌then◌else◌, add32, sub32, u32_mod, set,
}
use asopracticas.Xv6.Log.{Log, Header, log_block, logsize, maxopblocks}

-- The sign of a pattern.
abbrev pub is_negative : ℕ → Bool
is_negative w = leb (2 ^ 31) w

pub data BeginEnd : Type 0 where
  began : Log → BeginEnd
  begin_sleeps : BeginEnd

-- `log.lh.n + (log.outstanding+1)*MAXOPBLOCKS > LOGSIZE`
abbrev pub is_short : Log → Bool
is_short l =
    let w = add32 l.lh.n ((add32 l.outstanding 1 * maxopblocks) % u32_mod) in
    ltb logsize w && not (is_negative w)

-- One turn of the loop of `begin_op`; asleep, it takes another turn when woken.
pub begin_op : Log → BeginEnd
begin_op l =
    if l.committing
    then begin_sleeps
    else if is_short l
    then begin_sleeps
    else began (record l { outstanding = add32 l.outstanding 1 })

-- How the first half of `end_op` ends: by a panic, with the duty to commit, or with a wakeup of
-- those that wait in `begin_op`.
pub data EndEnd : Type 0 where
  end_panics : EndEnd
  must_commit : Log → EndEnd
  ended : Log → EndEnd

pub end_op : Log → EndEnd
end_op l =
    let o = sub32 l.outstanding 1 in
    if l.committing
    then end_panics
    else if o == 0
    then must_commit (record l { outstanding = o; committing = true })
    else ended (record l { outstanding = o })

-- The second half, once `commit` has returned; it also wakes those that wait in `begin_op`.
pub end_commit : Log → Log
end_commit l = record l { committing = false; lh = record { n = 0; block = l.lh.block } }

-- What `log_write` sees of a `struct buf`.
pub record Buffer : Type 0 where
  pub blockno : ℕ
  pub dirty : Bool

-- `for (i = 0; i < log.lh.n; i++) if (log.lh.block[i] == b->blockno) break;` with `k` rounds left.
pub find : Header → ℕ → ℕ → ℕ → ℕ
find lh zero i b = i
find lh (suc k) i b = if log_block lh i == b then i else find lh k (i + 1) b

pub enter : Header → ℕ → Header
enter lh b =
    let i = find lh lh.n 0 b in
    record { n = (if i == lh.n then lh.n + 1 else lh.n); block = set lh.block i b }

-- `none` is one of the two panics.
pub log_write : Log → Buffer → Option (Log × Buffer)
log_write l b =
    if leb logsize l.lh.n || leb (l.size - 1) l.lh.n
    then none
    else if l.outstanding == 0 || is_negative l.outstanding
    then none
    else some (record l { lh = enter l.lh b.blockno }, record b { dirty = true })
