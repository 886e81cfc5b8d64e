-- ===== src/Xv6/Bio/Init.antt =====
-- `binit` of xv6/bio.c sets up a sound cache that stands for the disk.
use asopracticas.Common.{ℕ, zero, suc, ◌+◌, ◌≡◌, refl, true, List, [], ◌∷◌, arith}
use asopracticas.Xv6.Log.{Disk}
use asopracticas.Xv6.Bio.{Buf, zeroed, link, nbuf, binit}
use asopracticas.Xv6.Bio.Split.{Each, Each-map}
use asopracticas.Xv6.Bio.View.{view, view_in_blank, IsBlank, IsClear, IsSynced, IsSound, YieldsTo}

zeroed-IsBlank : (i : ℕ) → IsBlank (zeroed i)
zeroed-IsBlank i = record { empty = refl; clean = refl; unused = refl }

link-IsBlank : (k i : ℕ) (xs : List Buf) → Each IsBlank xs → Each IsBlank (link k i xs)
unfolding link
link-IsBlank zero i xs h = h
link-IsBlank (suc k) i xs h = link-IsBlank k (i + 1) (zeroed i ∷ xs) (zeroed-IsBlank i, h)

blank-IsClear : (xs : List Buf) → Each IsBlank xs → IsClear xs
blank-IsClear [] h = tt
blank-IsClear (x ∷ xs) (_, h) =
    (Each-map IsBlank (YieldsTo x) xs (λ y b _ _. b) h, blank-IsClear xs h)

-- n - 1, …, 1, 0
abbrev pub countdown : ℕ → List ℕ
countdown zero = []
countdown (suc n) = n ∷ countdown n

abbrev pub addresses : List Buf → List ℕ
addresses [] = []
addresses (x ∷ xs) = x.address ∷ addresses xs

addresses-binit : addresses binit ≡ countdown nbuf
unfolding binit link
addresses-binit = refl

-- `binit` links each of the NBUF buffers once, the last one in front; each of them is unused, clean
-- and empty. The cache is sound then, and stands for what is on the disk.
pub binit-IsSound :
    (disk : Disk)
    → (addresses binit ≡ countdown nbuf)
      × Each IsBlank binit
      × IsSound (record { bufs = binit; disk = disk })
      × ((b : ℕ) → view (record { bufs = binit; disk = disk }) b ≡ disk b)
unfolding binit
binit-IsSound disk =
    let blank = link-IsBlank nbuf 0 [] tt in
    let xs = link nbuf 0 [] in
    (
      addresses-binit,
      blank,
      record {
        clear = blank-IsClear xs blank;
        synced =
            Each-map IsBlank (IsSynced disk) xs
              (λ x h _ _ valid _. absurd (ground (arith, h.empty, valid))) blank;
        read_before =
            Each-map IsBlank (λ x. x.dirty ≡ true → x.valid ≡ true) xs
              (λ x h dirty. absurd (ground (arith, h.clean, dirty))) blank;
      },
      λ b. view_in_blank disk b xs (Each-map IsBlank _ xs (λ x h _. h.empty) blank),
    )
