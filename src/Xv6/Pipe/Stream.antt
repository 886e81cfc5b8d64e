-- ===== src/Xv6/Pipe/Stream.antt =====
-- Any interleaving of readers, writers and closers of a pipe (xv6/pipe.c) sees one byte stream.
use asopracticas.Common.{
  ℕ, ◌+◌, ◌≤◌, ◌≡◌, refl, ap, Bool, true, false, List, [], ◌++◌, append_assoc, arith, sub32, length,
  take, take-min, length-take, length-append, min,
}
use asopracticas.Xv6.Pipe.{Pipe, pipesize, fresh, close, write_slice, read_slice}
use asopracticas.Xv6.Pipe.Window.{IsValid, used, contents, length-window}
use asopracticas.Xv6.Pipe.Slices.{room, write_slice_lem}
use asopracticas.Xv6.Pipe.Reads.{bytes_of, read_slice_lem}

-- A pipe with its history: the bytes that the slices of writers advanced `nwrite` over, and the
-- bytes that `piperead` returned.
pub record History : Type 0 where
  pub pipe : Pipe
  pub sent : List ℕ
  pub received : List ℕ

-- One slice of a call. Each takes `p->lock`, so no two of them overlap.
pub data Step (h : History) : History → Type 0 where
  write :
      (killed : Bool) (n : ℕ) (bs : List ℕ) (t : History)
      → t.pipe ≡ (write_slice killed h.pipe n bs).0
      → t.sent ≡ h.sent ++ take (sub32 t.pipe.nwrite h.pipe.nwrite) bs
      → t.received ≡ h.received
      → Step h t
  read :
      (killed : Bool) (n : ℕ) (t : History)
      → t.pipe ≡ (read_slice killed h.pipe n).0
      → t.sent ≡ h.sent
      → t.received ≡ h.received ++ bytes_of (read_slice killed h.pipe n).2
      → Step h t
  shut :
      (writable : Bool) (t : History)
      → t.pipe ≡ (close h.pipe writable).0
      → t.sent ≡ h.sent
      → t.received ≡ h.received
      → Step h t

pub data Reach (h : History) : History → Type 0 where
  here : Reach h h
  next : {t u : History} → Reach h t → Step t u → Reach h u

pub record IsStream (h : History) : Type 0 where
  pub valid : IsValid h.pipe
  pub order : h.sent ≡ h.received ++ contents h.pipe

abbrev pub start : List ℕ → History
start page = record { pipe = fresh page; sent = []; received = [] }

start-IsStream : (page : List ℕ) → pipesize ≤ length page → IsStream (start page)
unfolding fresh
start-IsStream page h = record {
  valid = record {
    page = h;
    read_word = omega arith;
    write_word = omega arith;
    fits = omega arith;
  };
  order = refl;
}

-- What a slice of a writer stored can be read off the counter `nwrite`.
stored-by-counter :
    (killed : Bool) (p : Pipe) (n : ℕ) (bs : List ℕ) (p' : Pipe)
    → IsValid p
    → p' ≡ (write_slice killed p n bs).0
    → contents p' ≡ contents p ++ take (sub32 p'.nwrite p.nwrite) bs
stored-by-counter killed p n bs p' v e =
    let w = write_slice_lem killed p n bs v in
    let q = (write_slice killed p n bs).0 in
    let more : used q ≡ used p + min (room p) (length bs) = omega (
      arith,
      ap length w.stored,
      length-window q.buf q.nread (used q),
      length-window p.buf p.nread (used p),
      length-append (contents p) (take (room p) bs),
      length-take (room p) bs,
    ) in
    let count : sub32 q.nwrite p.nwrite ≡ min (room p) (length bs) =
      omega (arith, w.same_nread, w.valid.write_word, v.fits, v.write_word, v.read_word) in
    rw (e, count, take-min) w.stored

Step-IsStream : {h t : History} → Step h t → IsStream h → IsStream t
unfolding close
Step-IsStream {h} (write killed n bs t ep es er) s = record {
  valid = rw ep (write_slice_lem killed h.pipe n bs s.valid).valid;
  order =
      rw (es, er, stored-by-counter killed h.pipe n bs t.pipe s.valid ep, s.order)
        (append_assoc h.received (contents h.pipe) _);
}
Step-IsStream {h} (read killed n t ep es er) s =
    let r = read_slice_lem killed h.pipe n s.valid in
    record {
      valid = rw ep r.valid;
      order = rw (es, er, ep, s.order, append_assoc) (ap (λ l. h.received ++ l) r.stream);
    }
Step-IsStream {h} (shut true t ep es er) s = ground arith
Step-IsStream {h} (shut false t ep es er) s = ground arith

-- From a fresh pipe, whatever the calls and however their slices interleave, the bytes sent are
-- the bytes received followed by those held, in order, and the buffer is never overrun; the
-- counters may wrap.
pub Reach-IsStream :
    (page : List ℕ) {h : History} → pipesize ≤ length page → Reach (start page) h → IsStream h
Reach-IsStream page big here = start-IsStream page big
Reach-IsStream page big (next r st) = Step-IsStream st (Reach-IsStream page big r)
