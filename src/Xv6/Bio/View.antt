-- ===== src/Xv6/Bio/View.antt =====
-- What a reader of the buffer cache is promised: the block that each buffer stands for.
use asopracticas.Common.{
  and_parts, ℕ, ◌≡◌, ◌≢◌, refl, inl, inr, true, false, List, [], ◌∷◌, ◌++◌, ◌==◌, if◌then◌else◌,
  Bool-cases, ==→eq, ==_refl,
}
use asopracticas.Xv6.Log.{Block, Disk}
use asopracticas.Xv6.Bio.{Buf, Cache, is_for}
use asopracticas.Xv6.Bio.Split.{Each, Each-append, Each-split}

-- The bytes of a block of disk 1 as a reader sees them: those of the first buffer for it, once that
-- holds them, else those on the disk.
abbrev pub view_in : Disk → List Buf → ℕ → Block
view_in disk [] b = disk b
view_in disk (x ∷ xs) b =
    if is_for 1 b x then (if x.valid then x.content else disk b) else view_in disk xs b

abbrev pub view : Cache → ℕ → Block
view c = view_in c.disk c.bufs

-- A buffer that holds nothing and that nobody uses.
pub record IsBlank (x : Buf) : Type 0 where
  pub empty : x.valid ≡ false
  pub clean : x.dirty ≡ false
  pub unused : x.refcnt ≡ 0

-- Buffer `y` is not for the same block as `x`, or is blank.
abbrev pub YieldsTo : Buf → Buf → Type 0
YieldsTo x y = x.dev ≡ y.dev → x.blockno ≡ y.blockno → IsBlank y

-- Of the buffers for one block only the first is in use.
abbrev pub IsClear : List Buf → Type 0
IsClear [] = Unit
IsClear (x ∷ xs) = Each (YieldsTo x) xs × IsClear xs

-- A buffer that nobody uses and that need not be written has what is on the disk.
abbrev pub IsSynced : Disk → Buf → Type 0
IsSynced disk x =
    x.dev ≡ 1 → x.refcnt ≡ 0 → x.valid ≡ true → x.dirty ≡ false → x.content ≡ disk x.blockno

-- The invariant between the calls.
pub record IsSound (c : Cache) : Type 0 where
  pub clear : IsClear c.bufs
  pub synced : Each (IsSynced c.disk) c.bufs
  pub read_before : Each (λ x. x.dirty ≡ true → x.valid ≡ true) c.bufs

pub is_for_eq : (dev b : ℕ) (x : Buf) → is_for dev b x ≡ true → (x.dev ≡ dev) × (x.blockno ≡ b)
is_for_eq dev b x h =
    let (h1, h2) = and_parts (x.dev == dev) (x.blockno == b) h in
    (==→eq x.dev dev h1, ==→eq x.blockno b h2)

pub is_for_here : (dev b : ℕ) (x : Buf) → x.dev ≡ dev → x.blockno ≡ b → is_for dev b x ≡ true
is_for_here dev b x e e' = rw (e, e', ==_refl dev, ==_refl b) refl

pub is_for_ne : (dev b : ℕ) (x : Buf) → is_for dev b x ≡ false → x.dev ≡ dev → x.blockno ≢ b
is_for_ne dev b x h e e' = let yes : is_for dev b x ≡ true = is_for_here dev b x e e' in cc

pub is_for_other : (dev b : ℕ) (x : Buf) → x.blockno ≢ b → is_for dev b x ≡ false
is_for_other dev b x ne = elim (Bool-cases (is_for dev b x)) [
  | inl here ↦ absurd (ne (is_for_eq dev b x here).1)
  | inr other ↦ other
]

-- The clear part behind a place, and a buffer put into that place.
pub IsClear-behind :
    (before : List Buf) (x : Buf) (behind : List Buf)
    → IsClear (before ++ x ∷ behind)
    → Each (YieldsTo x) behind × IsClear behind
IsClear-behind [] x behind h = h
IsClear-behind (y ∷ ys) x behind (_, h) = IsClear-behind ys x behind h

pub IsClear-replace :
    (before : List Buf) (x x' : Buf) (behind : List Buf)
    → IsClear (before ++ x ∷ behind)
    → Each (λ y. YieldsTo y x') before
    → Each (YieldsTo x') behind
    → IsClear (before ++ x' ∷ behind)
IsClear-replace [] x x' behind (_, h) fresh yields = (yields, h)
IsClear-replace (y ∷ ys) x x' behind (hy, h) (f, fresh) yields =
    let (hb, (_, hr)) = Each-split (YieldsTo y) ys (x ∷ behind) hy in
    (
      Each-append (YieldsTo y) ys (x' ∷ behind) hb (f, hr),
      IsClear-replace ys x x' behind h fresh yields,
    )

pub IsClear-remove :
    (before : List Buf) (x : Buf) (behind : List Buf)
    → IsClear (before ++ x ∷ behind)
    → IsClear (before ++ behind)
IsClear-remove [] x behind (_, h) = h
IsClear-remove (y ∷ ys) x behind (hy, h) =
    let (hb, (_, hr)) = Each-split (YieldsTo y) ys (x ∷ behind) hy in
    (Each-append (YieldsTo y) ys behind hb hr, IsClear-remove ys x behind h)

-- Buffers that are not for a block, or hold nothing, leave it to the disk.
pub view_in_blank :
    (disk : Disk) (b : ℕ) (xs : List Buf)
    → Each (λ x. is_for 1 b x ≡ true → x.valid ≡ false) xs
    → view_in disk xs b ≡ disk b
view_in_blank disk b [] h = refl
view_in_blank disk b (x ∷ xs) (p, h) = elim (Bool-cases (is_for 1 b x)) [
  | inl here ↦ rw (here, p here) refl
  | inr other ↦ rw other (view_in_blank disk b xs h)
]

-- What the buffers in front show is not touched by a change behind them.
pub view_in_ext :
    (disk : Disk) (b : ℕ) (before xs ys : List Buf)
    → view_in disk xs b ≡ view_in disk ys b
    → view_in disk (before ++ xs) b ≡ view_in disk (before ++ ys) b
view_in_ext disk b [] xs ys e = e
view_in_ext disk b (x ∷ before) xs ys e = elim (Bool-cases (is_for 1 b x)) [
  | inl here ↦ rw here refl
  | inr other ↦ rw other (view_in_ext disk b before xs ys e)
]

pub view_in_skip :
    (disk : Disk) (b : ℕ) (before xs : List Buf)
    → Each (λ x. is_for 1 b x ≡ false) before
    → view_in disk (before ++ xs) b ≡ view_in disk xs b
view_in_skip disk b [] xs h = refl
view_in_skip disk b (x ∷ before) xs (other, h) = rw other (view_in_skip disk b before xs h)
