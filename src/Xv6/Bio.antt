-- ===== src/Xv6/Bio.antt =====
-- The buffer cache, xv6/bio.c, over the disk in memory of xv6/memide.c. The list is the order from
-- `bcache.head.next` on; `bcache.lock` makes each walk atomic. The sleep locks are left out: a call
-- stands for its run once it has the buffer's lock, and the holder's checks succeed.
pub mod Init
pub mod Split
pub mod View
pub mod PutBack
pub mod Read
pub mod Release
mod Tests
use asopracticas.Common.{
  ℕ, zero, suc, ◌+◌, ◌≡◌, Bool, true, false, ◌&&◌, ◌||◌, not, Option, none, some, List, [], ◌∷◌,
  ◌++◌, ◌==◌, leb, if◌then◌else◌, add32, sub32, replicate,
}
use asopracticas.Xv6.Log.{Block, Disk, update, block_words}

-- `struct buf`; `address` tells the buffers apart.
pub record Buf : Type 0 where
  pub address : ℕ
  pub dev : ℕ
  pub blockno : ℕ
  -- B_VALID and B_DIRTY of `flags`
  pub valid : Bool
  pub dirty : Bool
  pub refcnt : ℕ
  -- `data`
  pub content : Block

pub record Cache : Type 0 where
  pub bufs : List Buf
  pub disk : Disk

-- NBUF
abbrev pub nbuf : ℕ
nbuf = 30

-- A buffer as the zeros of the kernel's data segment; `address` is its index in `bcache.buf`.
abbrev pub zeroed : ℕ → Buf
zeroed i = record {
  address = i;
  dev = 0;
  blockno = 0;
  valid = false;
  dirty = false;
  refcnt = 0;
  content = replicate block_words 0;
}

-- The rounds of `binit` from buffer `i` on, each of which puts its buffer in front.
pub link : ℕ → ℕ → List Buf → List Buf
link zero i xs = xs
link (suc k) i xs = link k (i + 1) (zeroed i ∷ xs)

pub binit : List Buf
binit = link nbuf 0 []

-- A place in the list: the buffers before it, the buffer, the buffers behind it.
abbrev pub Place : Type 0
Place = List Buf × Buf × List Buf

abbrev pub with_before : Buf → Option Place → Option Place
with_before x none = none
with_before x (some (before, y, behind)) = some (x ∷ before, y, behind)

-- The walk along `next` to the first buffer that passes a test.
pub find_first : (Buf → Bool) → List Buf → Option Place
find_first test [] = none
find_first test (x ∷ xs) =
    let later = find_first test xs in if test x then some ([], x, xs) else with_before x later

-- The walk along `prev`, from the other end.
pub find_last : (Buf → Bool) → List Buf → Option Place
find_last test [] = none
find_last test (x ∷ xs) = elim (find_last test xs) [
  | some (before, y, behind) ↦ some (x ∷ before, y, behind)
  | none ↦ if test x then some ([], x, xs) else none
]

abbrev pub is_for : ℕ → ℕ → Buf → Bool
is_for dev b x = x.dev == dev && x.blockno == b

abbrev pub is_unused : Buf → Bool
is_unused x = x.refcnt == 0 && not x.dirty

-- `bget`; `none` is the panic.
pub bget : ℕ → ℕ → List Buf → Option Place
bget dev b xs = elim (find_first (is_for dev b) xs) [
  | some (before, x, behind) ↦ some (before, record x { refcnt = add32 x.refcnt 1 }, behind)
  | none ↦ elim (find_last is_unused xs) [
    | some (before, x, behind) ↦ some (
      before,
      record x { dev = dev; blockno = b; valid = false; dirty = false; refcnt = 1 },
      behind,
    )
    | none ↦ none
  ]
]

-- `iderw` of memide.c, on a disk of `disksize` blocks; `none` is a panic.
pub iderw : ℕ → Buf → Disk → Option (Buf × Disk)
iderw disksize x disk =
    if x.valid && not x.dirty
    then none
    else if not (x.dev == 1) || leb disksize x.blockno
    then none
    else if x.dirty
    then some (record x { dirty = false; valid = true }, update disk x.blockno x.content)
    else some (record x { content = disk x.blockno; valid = true }, disk)

-- The buffer and the cache with it.
pub bread : ℕ → ℕ → ℕ → Cache → Option (Buf × Cache)
bread disksize dev b c = elim (bget dev b c.bufs) [
  | none ↦ none
  | some (before, x, behind) ↦
      if x.valid
      then some (x, record c { bufs = before ++ x ∷ behind })
      else elim (iderw disksize x c.disk) [
        | none ↦ none
        | some (x', disk') ↦ some (x', record { bufs = before ++ x' ∷ behind; disk = disk' })
      ]
]

-- `brelse` of the buffer at an address; `none` where there is no such buffer.
pub brelse : ℕ → Cache → Option Cache
brelse address c = elim (find_first (λ x. x.address == address) c.bufs) [
  | none ↦ none
  | some (before, x, behind) ↦
      let x' : Buf = record x { refcnt = sub32 x.refcnt 1 } in
      some (record c {
        bufs = if x'.refcnt == 0 then x' ∷ before ++ behind else before ++ x' ∷ behind;
      })
]
