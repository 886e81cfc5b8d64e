-- ===== src/Xv6/Inode/Tests.antt =====
-- Runs of the contents of inodes, xv6/fs.c: an empty file on a volume with eight free blocks.
use asopracticas.Common.{
  ℕ, ◌≤◌, ◌≡◌, refl, Bool, false, List, [], ◌∷◌, ltb, ltb→lt, ltb→le, Bool-cases, inl, inr, arith,
  min, ◌-◌, replicate, ◌<◌,
}
use asopracticas.Xv6.Inode.{Inode, Volume, State, ndirect, readi, reads, writei, writes}
use asopracticas.Xv6.Inode.Layout.{block_of, block_low, block_absent, IsSound}
use asopracticas.Xv6.Inode.Blocks.{clear_count}
use asopracticas.Xv6.Inode.Bmap.{clear_of, log_room}
use asopracticas.Xv6.Log.Ops.Room.{room_of}
use asopracticas.Xv6.Inode.Read.{content}
use asopracticas.Xv6.Inode.Content.{Stored, readi_lem, writei_lem, writei-readi}

abbrev empty_file : Inode
empty_file = record { type = 2; major = 0; minor = 0; nlink = 1; size = 0; addrs = λ i. 0 }

abbrev small_volume : Volume
small_volume = record {
  size = 20;
  bytes = λ b o. 7;
  used = λ b. ltb b 12;
  dinode = λ i. empty_file;
  bmapstart = 3;
  inodestart = 2;
  log = record {
    start = 2;
    size = 30;
    outstanding = 1;
    committing = false;
    lh = record { n = 0; block = replicate 30 0 };
  };
}

abbrev small : State
small = record { ip = empty_file; vol = small_volume }

abbrev no_device : ℕ → Bool
no_device i = false

no_blocks : (bn : ℕ) → block_of bn small ≡ 0
no_blocks bn = elim (Bool-cases (ltb bn ndirect)) [
  | inl low ↦ block_low bn small (ltb→lt _ _ low)
  | inr high ↦ block_absent bn small (ltb→le _ _ high) refl
]

small-IsSound : IsSound small
small-IsSound = record {
  boot_block = refl;
  fits = omega arith;
  held = λ bn low. rw (no_blocks bn) refl;
  held_indirect = refl;
  apart = λ bn bn' low low' there e. absurd (there (no_blocks bn));
  apart_indirect = λ bn low there e. there (no_blocks bn);
  filled = λ bn low z. absurd (omega arith);
  short = omega arith;
}

abbrev three_bytes : List ℕ
three_bytes = 97 ∷ 98 ∷ 99 ∷ []

seven_left : 6 < log_room small
unfolding room_of
seven_left = omega arith

two_left : 2 ≤ clear_of small
unfolding clear_count
two_left = omega arith

readi_lem_example : readi no_device 0 5 small ≡ reads (content 0 (min 5 (0 - 0)) small) small
readi_lem_example =
    readi_lem no_device 0 5 small small-IsSound (λ e. absurd (omega arith)) (omega arith)
      (omega arith)

writei_lem_example :
    (s' : State) × (writei no_device 4 0 three_bytes small ≡ writes 3 s')
    × Stored 4 0 three_bytes small s'
writei_lem_example =
    writei_lem no_device 4 0 three_bytes small small-IsSound (λ e. absurd (omega arith))
      (omega arith) (omega arith) two_left seven_left

writei-readi_example :
    (s' : State) × (writei no_device 4 0 three_bytes small ≡ writes 3 s')
    × (readi no_device 0 3 s' ≡ reads three_bytes s')
writei-readi_example =
    writei-readi no_device 4 0 three_bytes small small-IsSound (λ e. absurd (omega arith))
      (omega arith) (omega arith) two_left seven_left
