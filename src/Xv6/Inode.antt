-- ===== src/Xv6/Inode.antt =====
-- The blocks and the contents of inodes, xv6/fs.c, within an operation of the log: a block is what
-- `bread` gives. The bitmap is one map from block numbers to bits, the inode blocks are one map from
-- inode numbers to inodes. `none` is a panic of the block allocator or of `log_write`.
pub mod Words
pub mod Blocks
pub mod Layout
pub mod Extend
pub mod Bmap
pub mod Read
pub mod Write
pub mod Rounds
pub mod Resize
pub mod Content
mod Tests
use asopracticas.Xv6.Log.{Log}
use asopracticas.Xv6.Log.Ops.{log_write}
use asopracticas.Common.{
  ℕ, zero, suc, ◌+◌, ◌-◌, ◌*◌, ◌/◌, ◌%◌, ◌^◌, Bool, true, false, ◌&&◌, ◌||◌, not, Option, none,
  some, List, [], ◌∷◌, ◌++◌, length, take, drop, get_or, ◌==◌, ltb, leb, if◌then◌else◌, ◌>>=◌,
  add32, min,
}

abbrev pub bsize : ℕ
bsize = 512

abbrev pub ndirect : ℕ
ndirect = 12

abbrev pub nindirect : ℕ
nindirect = 128

-- MAXFILE
abbrev pub maxfile : ℕ
maxfile = 140

-- T_DEV
abbrev pub t_dev : ℕ
t_dev = 3

abbrev pub ndev : ℕ
ndev = 10

-- The fields that `struct inode` shares with `struct dinode`.
pub record Inode : Type 0 where
  pub type : ℕ
  pub major : ℕ
  pub minor : ℕ
  pub nlink : ℕ
  pub size : ℕ
  pub addrs : ℕ → ℕ

-- `size`, `bmapstart` and `inodestart` are those of the super block.
pub record Volume : Type 0 where
  pub size : ℕ
  pub bytes : ℕ → ℕ → ℕ
  pub used : ℕ → Bool
  pub dinode : ℕ → Inode
  pub bmapstart : ℕ
  pub inodestart : ℕ
  pub log : Log

abbrev pub put {ℓ} : {A : Type ℓ} → (ℕ → A) → ℕ → A → ℕ → A
put t i v j = if j == i then v else t j

abbrev pub set_block : ℕ → (ℕ → ℕ) → Volume → Volume
set_block b bytes v = record v { bytes = put v.bytes b bytes }

-- `log_write` of the buffer of block `b`.
pub log_buffer : ℕ → Volume → Option Volume
log_buffer b v = do
  (l, buffer) ← log_write v.log (record { blockno = b; dirty = false })
  some (record v { log = l })

-- BPB
abbrev pub bpb : ℕ
bpb = 4096

-- IPB
abbrev pub ipb : ℕ
ipb = 8

pub bzero : ℕ → Volume → Option Volume
bzero b v = log_buffer b (set_block b (λ o. 0) v)

-- The two loops of `balloc` pass the bits in order; `k` blocks are left from `b` on.
pub find_clear : ℕ → ℕ → (ℕ → Bool) → Option ℕ
find_clear zero b used = none
find_clear (suc k) b used =
    let later = find_clear k (b + 1) used in if used b then later else some b

pub balloc : Volume → Option (ℕ × Volume)
balloc v = do
  b ← find_clear v.size 0 v.used
  v' ← log_buffer (b / bpb + v.bmapstart) (record v { used = put v.used b true })
  v'' ← bzero b v'
  some (b, v'')

pub bfree : ℕ → Volume → Option Volume
bfree b v =
    if v.used b
    then log_buffer (b / bpb + v.bmapstart) (record v { used = put v.used b false })
    else none

-- `a[i]` of a block seen as an array of `uint`.
pub word_at : (ℕ → ℕ) → ℕ → ℕ
word_at bytes i =
    bytes (4 * i)
    + 256 * bytes (4 * i + 1)
    + 65536 * bytes (4 * i + 2)
    + 16777216 * bytes (4 * i + 3)

-- Byte `k` of a word.
abbrev pub word_byte : ℕ → ℕ → ℕ
word_byte w k =
    if k == 0
    then w % 256
    else if k == 1
    then w / 256 % 256
    else if k == 2
    then w / 65536 % 256
    else w / 16777216 % 256

pub set_word : (ℕ → ℕ) → ℕ → ℕ → ℕ → ℕ
set_word bytes i w o = if o / 4 == i then word_byte w (o % 4) else bytes o

-- An inode in memory, and the volume.
pub record State : Type 0 where
  pub ip : Inode
  pub vol : Volume

abbrev pub set_addr : ℕ → ℕ → Inode → Inode
set_addr i b ip = record ip { addrs = put ip.addrs i b }

-- The entry `i` of `addrs`, with a new block where there is none.
pub direct : ℕ → State → Option (ℕ × State)
direct i s =
    if s.ip.addrs i == 0
    then (do (b, v) ← balloc s.vol; some (b, record { ip = set_addr i b s.ip; vol = v }))
    else some (s.ip.addrs i, s)

-- The word `i` of the block `x`, likewise.
pub indirect : ℕ → ℕ → State → Option (ℕ × State)
indirect x i s =
    let w = word_at (s.vol.bytes x) i in
    if w == 0
    then (do
      (b, v) ← balloc s.vol
      v' ← log_buffer x (set_block x (set_word (v.bytes x) i b) v)
      some (b, record s { vol = v' }))
    else some (w, s)

pub bmap : ℕ → State → Option (ℕ × State)
bmap bn s =
    if ltb bn ndirect
    then direct bn s
    else if ltb (bn - ndirect) nindirect
    then (do (x, s') ← direct ndirect s; indirect x (bn - ndirect) s')
    else none

-- `n` bytes of a block from `o` on.
pub slice : (ℕ → ℕ) → ℕ → ℕ → List ℕ
slice bytes o zero = []
slice bytes o (suc n) = bytes o ∷ slice bytes (o + 1) n

-- The block with `src` at `o`.
pub splice : (ℕ → ℕ) → ℕ → List ℕ → ℕ → ℕ
splice bytes o src j = if leb o j && ltb j (o + length src) then get_or src (j - o) 0 else bytes j

-- The loop of `readi` with `n` bytes to go.
pub read_from : ℕ → ℕ → ℕ → State → Option (List ℕ × State)
read_from zero off n s = some ([], s)
read_from (suc fuel) off n s =
    let m = min n (bsize - off % bsize) in
    let round : Option (List ℕ × State) = (do
      (b, t) ← bmap (off / bsize) s
      (rest, s') ← read_from fuel (off + m) (n - m) t
      some (slice (t.vol.bytes b) (off % bsize) m ++ rest, s')) in
    if n == 0 then some ([], s) else round

-- The loop of `writei` with the bytes `src` to go.
pub write_from : ℕ → ℕ → List ℕ → State → Option State
write_from zero off src s = some s
write_from (suc fuel) off src s =
    let m = min (length src) (bsize - off % bsize) in
    let round : Option State = (do
      (b, t) ← bmap (off / bsize) s
      v ← log_buffer b (set_block b (splice (t.vol.bytes b) (off % bsize) (take m src)) t.vol)
      write_from fuel (off + m) (drop m src) (record t { vol = v })) in
    if length src == 0 then some s else round

-- -1, or the bytes that are read, or what the function of a device answers.
pub data ReadiEnd : Type 0 where
  read_fails : ReadiEnd
  reads : List ℕ → State → ReadiEnd
  reads_device : ℕ → ReadiEnd
  read_panics : ReadiEnd

-- `devsw` says for which major numbers there are functions.
pub readi : (ℕ → Bool) → ℕ → ℕ → State → ReadiEnd
readi devsw off n s =
    if s.ip.type == t_dev
    then (if leb ndev s.ip.major || not (devsw s.ip.major)
        then read_fails
        else reads_device s.ip.major)
    else if ltb s.ip.size off || ltb (add32 off n) off
    then read_fails
    else (let n' = if ltb s.ip.size (add32 off n) then s.ip.size - off else n in
        elim (read_from n' off n' s) [ none ↦ read_panics | some (bytes, s') ↦ reads bytes s' ])

-- -1, or the count that is written, or what the function of a device answers.
pub data WriteiEnd : Type 0 where
  write_fails : WriteiEnd
  writes : ℕ → State → WriteiEnd
  writes_device : ℕ → WriteiEnd
  write_panics : WriteiEnd

-- `inum` is the number of the inode.
pub iupdate : ℕ → State → Option State
iupdate inum s = do
  v ←
      log_buffer (inum / ipb + s.vol.inodestart)
        (record s.vol { dinode = put s.vol.dinode inum s.ip })
  some (record s { vol = v })

abbrev pub set_size : ℕ → State → State
set_size n s = record s { ip = record s.ip { size = n } }

pub writei : (ℕ → Bool) → ℕ → ℕ → List ℕ → State → WriteiEnd
writei devsw inum off src s =
    let n = length src in
    if s.ip.type == t_dev
    then (if leb ndev s.ip.major || not (devsw s.ip.major)
        then write_fails
        else writes_device s.ip.major)
    else if ltb s.ip.size off || ltb (add32 off n) off
    then write_fails
    else if ltb (maxfile * bsize) (add32 off n)
    then write_fails
    else elim (write_from n off src s) [
      | none ↦ write_panics
      | some s' ↦
          if ltb 0 n && ltb s'.ip.size (off + n)
          then (elim (iupdate inum (set_size (off + n) s')) [
            | none ↦ write_panics
            | some t ↦ writes n t
          ])
          else writes n s'
    ]

-- The loop of `itrunc` over `k` entries of `addrs` from `i` on.
pub free_direct : ℕ → ℕ → State → Option State
free_direct zero i s = some s
free_direct (suc k) i s = do
  s' ←
      if s.ip.addrs i == 0
      then some s
      else (do v ← bfree (s.ip.addrs i) s.vol; some (record { ip = set_addr i 0 s.ip; vol = v }))
  free_direct k (i + 1) s'

-- Its loop over `k` words of the indirect block `x` from `j` on.
pub free_words : ℕ → ℕ → ℕ → Volume → Option Volume
free_words zero j x v = some v
free_words (suc k) j x v = do
  v' ← if word_at (v.bytes x) j == 0 then some v else bfree (word_at (v.bytes x) j) v
  free_words k (j + 1) x v'

pub free_indirect : State → Option State
free_indirect s =
    let x = s.ip.addrs ndirect in
    if x == 0 then some s else (do
      v ← free_words nindirect 0 x s.vol
      v' ← bfree x v
      some (record { ip = set_addr ndirect 0 s.ip; vol = v' }))

pub itrunc : ℕ → State → Option State
itrunc inum s = do s' ← free_direct ndirect 0 s; t ← free_indirect s'; iupdate inum (set_size 0 t)
