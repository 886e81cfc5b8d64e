-- ===== src/Xv6/Log/Replay.antt =====
-- What a disk stands for when the log on it is replayed, as xv6/log.c does at boot.
use native.Mathlib.Decide.{dec_le}
use asopracticas.Common.{
  ℕ, zero, suc, ◌+◌, ◌≤◌, ◌<◌, ◌≡◌, refl, ◌∙◌, inl, inr, List, arith, ◌==◌, if◌then◌else◌,
  Bool-cases, leb, ltb, ◌&&◌, subst, length, get_or, set, get_or-set_self, get_or-set_ne,
  length-set,
}
use asopracticas.Xv6.Log.{Block, Disk, Header, log_block, fill_head, fill_lh}

-- Block `b` once entries 0 to k - 1 are installed over `base`: entry `i` sends `logs i` to block
-- `homes i`.
abbrev pub replay : (ℕ → ℕ) → (ℕ → Block) → Disk → ℕ → Disk
replay homes logs base zero b = base b
replay homes logs base (suc k) b = if homes k == b then logs k else replay homes logs base k b

-- The header that a disk holds.
abbrev pub count_on : ℕ → Disk → ℕ
count_on start d = get_or (d start) 0 0

abbrev pub homes_on : ℕ → Disk → ℕ → ℕ
homes_on start d i = get_or (d start) (i + 1) 0

abbrev pub logs_on : ℕ → Disk → ℕ → Block
logs_on start d i = d (start + i + 1)

-- What block `b` of disk `d` is once its log has been replayed.
abbrev pub logical : ℕ → Disk → Disk
logical start d = replay (homes_on start d) (logs_on start d) d (count_on start d)

-- Only the entries below `k` matter.
pub replay_ext :
    (homes homes' : ℕ → ℕ) (logs logs' : ℕ → Block) (base : Disk) (k b : ℕ)
    → ((i : ℕ) → i < k → homes i ≡ homes' i)
    → ((i : ℕ) → i < k → logs i ≡ logs' i)
    → replay homes logs base k b ≡ replay homes' logs' base k b
replay_ext homes homes' logs logs' base zero b eh el = refl
replay_ext homes homes' logs logs' base (suc k) b eh el =
    let ih =
      replay_ext homes homes' logs logs' base k b (λ i h. eh i (omega arith))
        (λ i h. el i (omega arith)) in
    rw (eh k (omega arith), el k (omega arith), ih) refl

-- Only the base's block `b` matters.
pub replay_base :
    (homes : ℕ → ℕ) (logs : ℕ → Block) (base base' : Disk) (k b : ℕ)
    → base b ≡ base' b
    → replay homes logs base k b ≡ replay homes logs base' k b
replay_base homes logs base base' zero b e = e
replay_base homes logs base base' (suc k) b e = rw (replay_base homes logs base base' k b e) refl

-- Installing again over blocks of which the first `t` entries are installed changes nothing.
pub replay_again :
    (homes : ℕ → ℕ) (logs : ℕ → Block) (base g : Disk) (k t b : ℕ)
    → t ≤ k
    → g b ≡ replay homes logs base t b
    → replay homes logs g k b ≡ replay homes logs base k b
replay_again homes logs base g zero zero b h e = e
replay_again homes logs base g zero (suc t) b h e = absurd (omega arith)
replay_again homes logs base g (suc k) t b h e = elim (Bool-cases (homes k == b)) [
  | inl hit ↦ rw hit refl
  | inr miss ↦ rw miss (elim (dec_le t k) [
    | yes below ↦ replay_again homes logs base g k t b below e
    | no above ↦
        let whole : t ≡ suc k = omega arith in
        let e' : g b ≡ replay homes logs base (suc k) b =
          subst (λ s. g b ≡ replay homes logs base s b) whole e in
        replay_again homes logs base g k k b (omega arith) (rw miss at e')
  ])
]

-- The loops that copy the header between memory and a block.
pub fill_head_word :
    (lh : Header) (k i : ℕ) (v : Block) (j : ℕ)
    → i + k < length v
    → get_or (fill_head lh k i v) (j + 1) 0
      ≡ (if leb i j && ltb j (i + k) then log_block lh j else get_or v (j + 1) 0)
unfolding fill_head
fill_head_word lh zero i v j h = ground arith
fill_head_word lh (suc k) i v j h =
    let x = log_block lh i in
    ground (
      arith,
      fill_head_word lh k (i + 1) (set v (i + 1) x) j,
      length-set v (i + 1) x,
      get_or-set_self v (i + 1) x 0,
      get_or-set_ne v (i + 1) (j + 1) x 0,
    )

pub fill_head_zero :
    (lh : Header) (k i : ℕ) (v : Block) → get_or (fill_head lh k i v) 0 0 ≡ get_or v 0 0
unfolding fill_head
fill_head_zero lh zero i v = refl
fill_head_zero lh (suc k) i v =
    fill_head_zero lh k (i + 1) (set v (i + 1) (log_block lh i))
    ∙ get_or-set_ne v (i + 1) 0 (log_block lh i) 0 (omega arith)

pub length-fill_head : (lh : Header) (k i : ℕ) (v : Block) → length (fill_head lh k i v) ≡ length v
unfolding fill_head
length-fill_head lh zero i v = refl
length-fill_head lh (suc k) i v =
    length-fill_head lh k (i + 1) (set v (i + 1) (log_block lh i))
    ∙ length-set v (i + 1) (log_block lh i)

pub fill_lh_entry :
    (v : Block) (k i : ℕ) (block : List ℕ) (j : ℕ)
    → i + k ≤ length block
    → get_or (fill_lh v k i block) j 0
      ≡ (if leb i j && ltb j (i + k) then get_or v (j + 1) 0 else get_or block j 0)
unfolding fill_lh
fill_lh_entry v zero i block j h = ground arith
fill_lh_entry v (suc k) i block j h =
    let x = get_or v (i + 1) 0 in
    ground (
      arith,
      fill_lh_entry v k (i + 1) (set block i x) j,
      length-set block i x,
      get_or-set_self block i x 0,
      get_or-set_ne block i j x 0,
    )
