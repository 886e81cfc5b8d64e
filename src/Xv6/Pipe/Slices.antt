-- ===== src/Xv6/Pipe/Slices.antt =====
-- What one slice of `pipewrite` and of `piperead` (xv6/pipe.c) does, on every branch.
use asopracticas.Common.{
  ℕ, ◌-◌, ◌<◌, ◌≡◌, ◌≢◌, refl, sym, ◌∙◌, inl, inr, Bool, false, ◌||◌, not, List, [], ◌∷◌, ◌++◌,
  append-nil, append_assoc, arith, leb, if◌then◌else◌, Bool-cases, length, take, drop, take-cons,
  drop-cons, take_none,
}
use asopracticas.Xv6.Pipe.{
  Pipe, pipesize, put, is_full, Channel, nread_channel, WriteEnd, wrote, write_failed, write_sleeps,
  block_write, write_slice,
}
use asopracticas.Xv6.Pipe.Window.{IsValid, used, contents, put_lem, full_iff}

abbrev pub room : Pipe → ℕ
room p = pipesize - used p

-- How a write of `bs` ends with `space` places free; `stuck` says that it may not wait for more.
abbrev pub outcome : Bool → ℕ → ℕ → List ℕ → List Channel × WriteEnd
outcome stuck space n bs =
    if leb (length bs) space
    then (nread_channel ∷ [], wrote n)
    else if stuck
    then ([], write_failed)
    else (nread_channel ∷ [], write_sleeps (drop space bs))

abbrev pub write_outcome : Bool → Pipe → ℕ → List ℕ → List Channel × WriteEnd
write_outcome killed p n bs = outcome (not p.readopen || killed) (room p) n bs

outcome-full :
    (stuck : Bool) (n c : ℕ) (rest : List ℕ)
    → outcome stuck 0 n (c ∷ rest)
      ≡ (if stuck then ([], write_failed) else (nread_channel ∷ [], write_sleeps (c ∷ rest)))
outcome-full stuck n c rest = ground arith

outcome-cons :
    (stuck : Bool) (space n c : ℕ) (rest : List ℕ)
    → space ≢ 0
    → outcome stuck (space - 1) n rest ≡ outcome stuck space n (c ∷ rest)
outcome-cons stuck space n c rest h = ground (arith, drop-cons space c rest h)

pub record Wrote (killed : Bool) (p : Pipe) (n : ℕ) (bs : List ℕ)
    (out : Pipe × List Channel × WriteEnd) : Type 0 where
  pub valid : IsValid out.0
  pub stored : contents out.0 ≡ contents p ++ take (room p) bs
  pub ending : (out.1, out.2) ≡ write_outcome killed p n bs
  pub same_nread : out.0.nread ≡ p.nread
  pub same_reader : out.0.readopen ≡ p.readopen
  pub same_writer : out.0.writeopen ≡ p.writeopen

put-nread : (p : Pipe) (c : ℕ) → (put p c).nread ≡ p.nread
unfolding put
put-nread p c = refl

put-readopen : (p : Pipe) (c : ℕ) → (put p c).readopen ≡ p.readopen
unfolding put
put-readopen p c = refl

put-writeopen : (p : Pipe) (c : ℕ) → (put p c).writeopen ≡ p.writeopen
unfolding put
put-writeopen p c = refl

Wrote-end :
    (killed : Bool) (p : Pipe) (n : ℕ)
    → IsValid p
    → Wrote killed p n [] (p, nread_channel ∷ [], wrote n)
Wrote-end killed p n v = record {
  valid = v;
  stored = rw (take_none (room p)) (sym (append-nil (contents p)));
  ending = ground arith;
  same_nread = refl;
  same_reader = refl;
  same_writer = refl;
}

Wrote-full :
    (killed : Bool) (p : Pipe) (n c : ℕ) (rest : List ℕ)
    → IsValid p
    → room p ≡ 0
    → Wrote killed p n (c ∷ rest) (block_write killed p (c ∷ rest))
unfolding block_write
Wrote-full killed p n c rest v none_left = elim (Bool-cases (not p.readopen || killed)) [
  | inl fails ↦ rw fails (record {
    valid = v;
    stored = rw (none_left, append-nil);
    ending = rw (none_left, fails, outcome-full) refl;
    same_nread = refl;
    same_reader = refl;
    same_writer = refl;
  })
  | inr waits ↦ rw waits (record {
    valid = v;
    stored = rw (none_left, append-nil);
    ending = rw (none_left, waits, outcome-full) refl;
    same_nread = refl;
    same_reader = refl;
    same_writer = refl;
  })
]

Wrote-put :
    (killed : Bool) (p : Pipe) (n c : ℕ) (rest : List ℕ) (out : Pipe × List Channel × WriteEnd)
    → IsValid p
    → used p < pipesize
    → Wrote killed (put p c) n rest out
    → Wrote killed p n (c ∷ rest) out
unfolding put
Wrote-put killed p n c rest out v free w = record {
  valid = w.valid;
  stored =
      let (_, one_more, _) = put_lem p c v free in
      let less : room (put p c) ≡ room p - 1 = omega arith in
      rw (w.stored, one_more, append_assoc, take-cons (room p) c rest (omega arith), less) refl;
  ending =
      let less : room (put p c) ≡ room p - 1 = omega arith in
      w.ending ∙ rw less (outcome-cons (not p.readopen || killed) (room p) n c rest (omega arith));
  same_nread = w.same_nread ∙ put-nread p c;
  same_reader = w.same_reader ∙ put-readopen p c;
  same_writer = w.same_writer ∙ put-writeopen p c;
}

-- `pipewrite` stores the longest prefix that fits behind the bytes held. It returns n when all
-- fits; else it fails if no reader is left or the process was killed, and else it sleeps.
pub write_slice_lem :
    (killed : Bool) (p : Pipe) (n : ℕ) (bs : List ℕ)
    → IsValid p
    → Wrote killed p n bs (write_slice killed p n bs)
unfolding write_slice
write_slice_lem killed p n [] v = Wrote-end killed p n v
write_slice_lem killed p n (c ∷ rest) v =
    let after = write_slice_lem killed (put p c) n rest in
    elim (Bool-cases (is_full p)) [
      | inl full ↦ rw full (Wrote-full killed p n c rest v (omega (arith, (full_iff p v).0 full)))
      | inr free ↦
          let few : used p < pipesize = room_left p v free in
          rw free (Wrote-put killed p n c rest _ v few (after (put_lem p c v few).0))
    ]
  where
    room_left : (p : Pipe) → IsValid p → is_full p ≡ false → used p < pipesize
    room_left p v free = ground (arith, full_iff p v)
