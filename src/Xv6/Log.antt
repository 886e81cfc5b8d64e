-- ===== src/Xv6/Log.antt =====
-- The write-ahead log of the file system, xv6/log.c. The buffer cache (xv6/bio.c) is seen as a map
-- from block numbers to the bytes that `bread` gives, beside the disk; `bwrite` sends a block to
-- both. The count in a header is not negative; the code does not check it against LOGSIZE, and what
-- it would store behind `block` is dropped here. A block is its list of 32-bit words (BSIZE / 4 of them), as the casts to
-- `struct logheader` read it. `left` counts the disk writes until the power fails.

pub mod Replay
pub mod Install
pub mod Recover
pub mod Commit
pub mod Power
pub mod Ops
mod Tests
use asopracticas.Common.{
  ℕ, zero, suc, ◌+◌, ◌-◌, ◌*◌, Bool, true, false, ◌||◌, Option, none, some, List, [], ◌∷◌, ◌==◌,
  ltb, leb, if◌then◌else◌, get_or, set,
}

abbrev pub Block : Type 0
Block = List ℕ

abbrev pub Disk : Type 0
Disk = ℕ → Block

-- LOGSIZE, MAXOPBLOCKS and BSIZE / 4
abbrev pub logsize : ℕ
logsize = 30

abbrev pub maxopblocks : ℕ
maxopblocks = 10

abbrev pub block_words : ℕ
block_words = 128

-- `struct logheader`
pub record Header : Type 0 where
  pub n : ℕ
  pub block : List ℕ

-- `struct log` without its lock.
pub record Log : Type 0 where
  pub start : ℕ
  pub size : ℕ
  pub outstanding : ℕ
  pub committing : Bool
  pub lh : Header

pub record Machine : Type 0 where
  pub disk : Disk
  pub view : Disk
  pub left : ℕ

-- A run ends with the machine up, or with what the disk holds when the power fails.
pub data Run : Type 0 where
  up : Machine → Run
  down : Disk → Run

abbrev pub after : Run → (Machine → Run) → Run
after (up m) k = k m
after (down d) k = down d

abbrev pub update : Disk → ℕ → Block → Disk
update d b v a = if a == b then v else d a

-- `bwrite` of a buffer for block `b` with the bytes `v`.
pub bwrite : ℕ → Block → Machine → Run
bwrite b v m =
    if m.left == 0
    then down m.disk
    else up (record { disk = update m.disk b v; view = update m.view b v; left = m.left - 1 })

abbrev pub log_block : Header → ℕ → ℕ
log_block lh i = get_or lh.block i 0

-- The rounds `tail = i, i + 1, …` of `write_log`, with the count of those left.
pub write_log : ℕ → Header → ℕ → ℕ → Machine → Run
write_log start lh zero i m = up m
write_log start lh (suc k) i m =
    after (bwrite (start + i + 1) (m.view (log_block lh i)) m) (write_log start lh k (i + 1))

-- The rounds of `install_trans`.
pub install_trans : ℕ → Header → ℕ → ℕ → Machine → Run
install_trans start lh zero i m = up m
install_trans start lh (suc k) i m =
    after (bwrite (log_block lh i) (m.view (start + i + 1)) m) (install_trans start lh k (i + 1))

-- `hb->block[i] = log.lh.block[i]` for the rounds left; word 1 + i of the block is `block[i]`.
pub fill_head : Header → ℕ → ℕ → Block → Block
fill_head lh zero i v = v
fill_head lh (suc k) i v = fill_head lh k (i + 1) (set v (i + 1) (log_block lh i))

pub write_head : ℕ → Header → Machine → Run
write_head start lh m = bwrite start (fill_head lh lh.n 0 (set (m.view start) 0 lh.n)) m

-- `log.lh.block[i] = lh->block[i]` for the rounds left.
pub fill_lh : Block → ℕ → ℕ → List ℕ → List ℕ
fill_lh v zero i block = block
fill_lh v (suc k) i block = fill_lh v k (i + 1) (set block i (get_or v (i + 1) 0))

pub read_head : ℕ → Header → Machine → Header
read_head start lh m =
    let v = m.view start in let n = get_or v 0 0 in record { n = n; block = fill_lh v n 0 lh.block }

abbrev pub cleared : Header → Header
cleared lh = record lh { n = 0 }

-- `recover_from_log`; `lh` is what the kernel's memory held before.
pub recover_from_log : ℕ → Header → Machine → Run
recover_from_log start lh m =
    let h = read_head start lh m in
    after (install_trans start h h.n 0 m) (write_head start (cleared h))

-- The steps of `commit` behind its test.
pub commit_steps : ℕ → Header → Machine → Run
commit_steps start lh m = after (write_log start lh lh.n 0 m) λ m.
    after (write_head start lh m)
      λ m. after (install_trans start lh lh.n 0 m) (write_head start (cleared lh))

pub commit : ℕ → Header → Machine → Run
commit start lh m = if ltb 0 lh.n then commit_steps start lh m else up m
