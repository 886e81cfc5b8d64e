-- ===== src/Xv6/Pipe/Tests.antt =====
-- The theorems on pipes at concrete pipes, and runs of the calls.
use asopracticas.Common.{
  ℕ, ◌-◌, ◌^◌, ◌≡◌, refl, true, false, List, [], ◌∷◌, arith, replicate, length-replicate,
}
use asopracticas.Xv6.Pipe.{
  Pipe, fresh, write_slice, read_slice, put, block_write, copy_out, write_failed, got,
}
use asopracticas.Xv6.Pipe.Window.{IsValid}
use asopracticas.Xv6.Pipe.Slices.{Wrote, write_slice_lem}
use asopracticas.Xv6.Pipe.Reads.{Read, read_slice_lem}
use asopracticas.Xv6.Pipe.Stream.{History, Step, Reach, here, next, IsStream, start, Reach-IsStream}

abbrev page : List ℕ
page = replicate 512 0

-- One byte is held and the counters are about to wrap.
abbrev wrapping : Pipe
wrapping = record {
  buf = page;
  nread = 2 ^ 32 - 2;
  nwrite = 2 ^ 32 - 1;
  readopen = true;
  writeopen = true;
}

wrapping-IsValid : IsValid wrapping
wrapping-IsValid = record {
  page = omega (arith, length-replicate 512 (let z : ℕ = 0 in z));
  read_word = omega arith;
  write_word = omega arith;
  fits = omega arith;
}

read_after_wrap :
    (read_slice false (write_slice false wrapping 2 (7 ∷ 8 ∷ [])).0 5).2 ≡ got (0 ∷ 7 ∷ 8 ∷ [])
unfolding read_slice write_slice put copy_out
read_after_wrap = refl

full_pipe_fails :
    (write_slice false (record wrapping { nread = 2 ^ 32 - 513; readopen = false }) 1 (7 ∷ [])).2
    ≡ write_failed
unfolding write_slice block_write
full_pipe_fails = refl

write_slice_lem_example :
    Wrote false wrapping 2 (7 ∷ 8 ∷ []) (write_slice false wrapping 2 (7 ∷ 8 ∷ []))
write_slice_lem_example = write_slice_lem false wrapping 2 (7 ∷ 8 ∷ []) wrapping-IsValid

read_slice_lem_example : Read false wrapping 3 (read_slice false wrapping 3)
read_slice_lem_example = read_slice_lem false wrapping 3 wrapping-IsValid

abbrev after_write : History
after_write = record {
  pipe = (write_slice false (fresh page) 2 (7 ∷ 8 ∷ [])).0;
  sent = 7 ∷ 8 ∷ [];
  received = [];
}

one_write : Reach (start page) after_write
unfolding write_slice fresh put
one_write = next here (Step.write false 2 (7 ∷ 8 ∷ []) after_write refl refl refl)

Reach-IsStream_example : IsStream after_write
Reach-IsStream_example =
    Reach-IsStream page (omega (arith, length-replicate 512 (let z : ℕ = 0 in z))) one_write
