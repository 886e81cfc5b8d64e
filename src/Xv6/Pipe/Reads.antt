-- ===== src/Xv6/Pipe/Reads.antt =====
-- What one slice of `piperead` and a call of `pipeclose` (xv6/pipe.c) do, on every branch.
use mathlib.Core.Bool.{false≢true}
use asopracticas.Common.{
  ℕ, zero, suc, ◌-◌, ◌≡◌, ◌≢◌, refl, sym, ◌∙◌, ap, inl, inr, Bool, true, false, ◌&&◌, List, [], ◌∷◌,
  ◌++◌, arith, if◌then◌else◌, Bool-cases, add32, ◌%◌, take, drop, take-append-drop, take_none,
  drop_none, get_or,
}
use asopracticas.Xv6.Pipe.{
  Pipe, pipesize, is_empty, Channel, nwrite_channel, ReadEnd, got, read_failed, read_sleeps,
  copy_out, read_slice,
}
use asopracticas.Xv6.Pipe.Window.{IsValid, used, contents, window_of_ne_zero, empty_iff}

abbrev advance : Pipe → Pipe
advance p = record p { nread = add32 p.nread 1 }

contents-advance :
    (p : Pipe)
    → IsValid p
    → used p ≢ 0
    → IsValid (advance p)
      × (contents p ≡ get_or p.buf (p.nread % pipesize) 0 ∷ contents (advance p))
contents-advance p v some_left =
    let less : used p - 1 ≡ used (advance p) = omega arith in
    (
      record {
        page = v.page;
        read_word = omega arith;
        write_word = v.write_word;
        fits = omega arith;
      },
      window_of_ne_zero p.buf p.nread (used p) some_left ∙ rw less refl,
    )

pub record Copied (p : Pipe) (n : ℕ) (cs : List ℕ) (p' : Pipe) : Type 0 where
  pub valid : IsValid p'
  pub bytes : cs ≡ take n (contents p)
  pub rest : contents p' ≡ drop n (contents p)
  pub same_reader : p'.readopen ≡ p.readopen
  pub same_writer : p'.writeopen ≡ p.writeopen

Copied-empty : (p : Pipe) (n : ℕ) → IsValid p → used p ≡ 0 → Copied p n [] p
Copied-empty p n v nothing = record {
  valid = v;
  bytes = rw nothing (sym (take_none n));
  rest = rw nothing (sym (drop_none n));
  same_reader = refl;
  same_writer = refl;
}

copy_out_lem : (p : Pipe) (n : ℕ) → IsValid p → let (cs, p') = copy_out p n in Copied p n cs p'
unfolding copy_out
copy_out_lem p zero v = record {
  valid = v;
  bytes = refl;
  rest = refl;
  same_reader = refl;
  same_writer = refl;
}
copy_out_lem p (suc n) v = elim (Bool-cases (is_empty p)) [
  | inl empty ↦ rw empty (Copied-empty p (suc n) v ((empty_iff p v).0 empty))
  | inr filled ↦
      let (v', front) = contents-advance p v (λ e. ground (arith, (empty_iff p v).1 e)) in
      let c = copy_out_lem (advance p) n v' in
      rw filled (record {
        valid = c.valid;
        bytes = rw (front, c.bytes) refl;
        rest = rw front c.rest;
        same_reader = c.same_reader;
        same_writer = c.same_writer;
      })
]

abbrev pub bytes_of : ReadEnd → List ℕ
bytes_of (got cs) = cs
bytes_of read_failed = []
bytes_of read_sleeps = []

-- How `piperead` has to end, and what it has to leave in the pipe.
pub record Read (killed : Bool) (p : Pipe) (n : ℕ) (out : Pipe × List Channel × ReadEnd)
    : Type 0 where
  pub blocked :
      used p ≡ 0 → p.writeopen ≡ true → out ≡ (p, [], (if killed then read_failed else read_sleeps))
  pub served :
      (used p ≡ 0 → p.writeopen ≡ false)
      → (out.2 ≡ got (take n (contents p)))
        × (contents out.0 ≡ drop n (contents p))
        × (out.1 ≡ nwrite_channel ∷ [])
  pub stream : contents p ≡ bytes_of out.2 ++ contents out.0
  pub valid : IsValid out.0
  pub same_reader : out.0.readopen ≡ p.readopen
  pub same_writer : out.0.writeopen ≡ p.writeopen

Read-blocked :
    (killed : Bool) (p : Pipe) (n : ℕ)
    → IsValid p
    → used p ≡ 0
    → p.writeopen ≡ true
    → Read killed p n (p, [], (if killed then read_failed else read_sleeps))
Read-blocked killed p n v nothing open_end = record {
  blocked = λ _ _. refl;
  served = λ h. absurd (false≢true (sym (h nothing) ∙ open_end));
  stream = ground arith;
  valid = v;
  same_reader = refl;
  same_writer = refl;
}

Read-served :
    (killed : Bool) (p : Pipe) (n : ℕ)
    → IsValid p
    → (used p ≡ 0 → p.writeopen ≡ false)
    → Read killed p n (let (cs, p') = copy_out p n in (p', nwrite_channel ∷ [], got cs))
Read-served killed p n v ready =
    let c = copy_out_lem p n v in
    record {
      blocked = λ e o. absurd (false≢true (sym (ready e) ∙ o));
      served = λ h. (ap got c.bytes, c.rest, refl);
      stream = rw (c.bytes, c.rest) (sym (take-append-drop n (contents p)));
      valid = c.valid;
      same_reader = c.same_reader;
      same_writer = c.same_writer;
    }

-- `piperead` on an empty pipe with a writer left sleeps, or fails if the process was killed, and
-- changes nothing. Else it takes the first n bytes held, or all if they are fewer, and wakes the
-- writers. It keeps the pipe valid.
pub read_slice_lem :
    (killed : Bool) (p : Pipe) (n : ℕ) → IsValid p → Read killed p n (read_slice killed p n)
unfolding read_slice
read_slice_lem killed p n v = elim (Bool-cases (is_empty p && p.writeopen)) [
  | inl waits ↦
      rw (waits, blocked-if killed p)
        (Read-blocked killed p n v ((empty_iff p v).0 (ground arith)) (ground arith))
  | inr goes ↦ rw goes (Read-served killed p n v (λ e. ready ((empty_iff p v).1 e) goes))
]
  where
    blocked-if :
        (killed : Bool) (p : Pipe)
        → ◌≡◌ {A = Pipe × List Channel × ReadEnd}
            (if killed then (p, [], read_failed) else (p, [], read_sleeps))
            (p, [], (if killed then read_failed else read_sleeps))
    blocked-if true p = refl
    blocked-if false p = refl

    ready : {a b : Bool} → a ≡ true → (a && b) ≡ false → b ≡ false
    ready e h = ground arith
