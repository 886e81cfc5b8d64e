-- ===== src/Xv6/Bio/Tests.antt =====
-- The buffer cache at small inputs.
use asopracticas.Common.{
  ℕ, ◌≡◌, ◌≢◌, refl, ◌⊎◌, true, false, Option, none, some, List, [], ◌∷◌, ◌==◌, arith,
}
use asopracticas.Xv6.Log.{Block, Disk}
use asopracticas.Xv6.Bio.{
  Buf, Cache, zeroed, is_for, is_unused, find_first, find_last, bget, iderw, bread, brelse, binit,
  nbuf,
}
use asopracticas.Xv6.Bio.Split.{Each}
use asopracticas.Xv6.Bio.View.{view, IsBlank, IsSound}
use asopracticas.Xv6.Bio.Init.{countdown, addresses, binit-IsSound}
use asopracticas.Xv6.Bio.Read.{cache, Served, bread_lem}
use asopracticas.Xv6.Bio.Release.{left, whole, brelse_lem}

abbrev numbered : Disk
numbered b = b ∷ []

-- Block 5 in use by one caller, behind it a free buffer.
abbrev busy : Buf
busy = record (zeroed 0) { dev = 1; blockno = 5; valid = true; refcnt = 1; content = 5 ∷ [] }

abbrev two : List Buf
two = busy ∷ zeroed 1 ∷ []

contents : Option (Buf × Cache) → Block
contents none = []
contents (some (x, _)) = x.content

two-IsSound : IsSound (record { bufs = two; disk = numbered })
two-IsSound = record {
  clear = (((λ e _. absurd (omega (arith, e))), tt), (tt, tt));
  synced = ((λ _ e. absurd (omega (arith, e))), ((λ e. absurd (omega (arith, e))), tt));
  read_before = ((λ e. refl), ((λ e. e), tt));
}

binit-IsSound_example :
    (addresses binit ≡ countdown nbuf)
    × Each IsBlank binit
    × IsSound (record { bufs = binit; disk = numbered })
    × ((b : ℕ) → view (record { bufs = binit; disk = numbered }) b ≡ numbered b)
binit-IsSound_example = binit-IsSound numbered

bread_lem_example :
    ((bread 100 1 7 (cache 100 7 numbered two) ≡ none)
      × Each (λ x. is_unused x ≡ false) two
      × Each (λ x. is_for 1 7 x ≡ false) two)
    ⊎ Served 100 7 numbered two
bread_lem_example =
    bread_lem 100 7 numbered two two-IsSound (omega arith, (omega arith, tt)) (omega arith)

found : find_first (λ y. y.address == 0) two ≡ some ([], busy, zeroed 1 ∷ [])
unfolding find_first
found = refl

brelse_lem_example :
    (c : Cache) × (brelse 0 (whole numbered [] busy (zeroed 1 ∷ [])) ≡ some c)
    × ((b : ℕ) → view c b ≡ view (whole numbered [] busy (zeroed 1 ∷ [])) b)
    × IsSound c
    × (((left numbered [] busy (zeroed 1 ∷ [])).refcnt ≡ 0)
          × (c.bufs ≡ left numbered [] busy (zeroed 1 ∷ []) ∷ zeroed 1 ∷ [])
        ⊎ ((left numbered [] busy (zeroed 1 ∷ [])).refcnt ≢ 0)
          × (c.bufs ≡ left numbered [] busy (zeroed 1 ∷ []) ∷ zeroed 1 ∷ []))
brelse_lem_example =
    brelse_lem numbered [] busy (zeroed 1 ∷ []) 0 found two-IsSound (omega arith) (λ _ _ _ _. refl)

-- The buffer at the end of the list is taken, and reads the block.
read_run : contents (bread 100 1 7 (record { bufs = two; disk = numbered })) ≡ 7 ∷ []
unfolding contents bread bget find_first find_last iderw
read_run = refl
