-- ===== src/Xv6/Pipe.antt =====
-- Pipes, xv6/pipe.c. The calls that can sleep are cut at the sleep: a slice runs from taking
-- `p->lock` to the `sleep` that gives it up, or to the return. `myproc()->killed` is an argument.
pub mod Window
pub mod Slices
pub mod Reads
pub mod Stream
mod Tests
use asopracticas.Common.{
  ℕ, zero, suc, ◌%◌, Bool, true, false, ◌&&◌, ◌||◌, not, List, [], ◌∷◌, ◌==◌, if◌then◌else◌, add32,
  get_or, set,
}

-- PIPESIZE
abbrev pub pipesize : ℕ
pipesize = 512

-- `struct pipe`; the lock is held throughout a slice.
pub record Pipe : Type 0 where
  pub buf : List ℕ
  pub nread : ℕ
  pub nwrite : ℕ
  pub readopen : Bool
  pub writeopen : Bool

-- What `pipealloc` stores in the page that it got. Its bytes are arbitrary.
pub fresh : List ℕ → Pipe
fresh page = record { buf = page; nread = 0; nwrite = 0; readopen = true; writeopen = true }

-- The sleep channels `&p->nread` and `&p->nwrite`.
pub data Channel : Type 0 where
  nread_channel nwrite_channel : Channel

-- How a slice of `pipewrite` ends: `return n`, `return -1`, or asleep on `&p->nwrite` with the
-- bytes from `addr[i]` on still to store.
pub data WriteEnd : Type 0 where
  wrote : ℕ → WriteEnd
  write_failed : WriteEnd
  write_sleeps : List ℕ → WriteEnd

-- `p->data[p->nwrite++ % PIPESIZE] = c`
pub put : Pipe → ℕ → Pipe
put p c = record p { buf = set p.buf (p.nwrite % pipesize) c; nwrite = add32 p.nwrite 1 }

abbrev pub is_full : Pipe → Bool
is_full p = p.nwrite == add32 p.nread pipesize

abbrev pub is_empty : Pipe → Bool
is_empty p = p.nread == p.nwrite

-- `pipewrite` at a full buffer: the body of its inner loop.
pub block_write : Bool → Pipe → List ℕ → Pipe × List Channel × WriteEnd
block_write killed p rest =
    if not p.readopen || killed
    then (p, [], write_failed)
    else (p, nread_channel ∷ [], write_sleeps rest)

-- `pipewrite` from its test `i < n` on; the list is `addr[i..n)`.
pub write_slice : Bool → Pipe → ℕ → List ℕ → Pipe × List Channel × WriteEnd
write_slice killed p n [] = (p, nread_channel ∷ [], wrote n)
write_slice killed p n (c ∷ rest) =
    if is_full p then block_write killed p (c ∷ rest) else write_slice killed (put p c) n rest

-- How a slice of `piperead` ends: `return i` with the bytes left in `addr`, `return -1`, or asleep
-- on `&p->nread`.
pub data ReadEnd : Type 0 where
  got : List ℕ → ReadEnd
  read_failed : ReadEnd
  read_sleeps : ReadEnd

-- The copying loop of `piperead`: the bytes that it stores in `addr`, and the pipe after it.
pub copy_out : Pipe → ℕ → List ℕ × Pipe
copy_out p zero = ([], p)
copy_out p (suc n) =
    let c = get_or p.buf (p.nread % pipesize) 0 in
    let (cs, p') = copy_out (record p { nread = add32 p.nread 1 }) n in
    if is_empty p then ([], p) else (c ∷ cs, p')

pub read_slice : Bool → Pipe → ℕ → Pipe × List Channel × ReadEnd
read_slice killed p n =
    if is_empty p && p.writeopen
    then if killed then (p, [], read_failed) else (p, [], read_sleeps)
    else (let (cs, p') = copy_out p n in (p', nwrite_channel ∷ [], got cs))

abbrev clear_end : Pipe → Bool → Pipe
clear_end p writable =
    if writable then record p { writeopen = false } else record p { readopen = false }

-- `pipeclose`; the last component says whether the page goes back by `kfree`.
pub close : Pipe → Bool → Pipe × List Channel × Bool
close p writable =
    let p' = clear_end p writable in
    (
      p',
      (if writable then nread_channel else nwrite_channel) ∷ [],
      not p'.readopen && not p'.writeopen,
    )
