-- ===== src/Xv6/Dir/Link.antt =====
-- `dirlink` and `dirlookup` of xv6/fs.c.
use asopracticas.Common.{
  ℕ, zero, suc, ◌+◌, ◌%◌, ◌≤◌, ◌<◌, ◌≡◌, ◌≢◌, refl, ap, ◌∙◌, true, false, none, some, List, [], ◌∷◌,
  length, take, ◌==◌, ltb, Bool-cases, Option-cases, ==_refl, ne→==, ==→ne, ==→eq, Bool, ◌++◌,
  arith, inl, inr, ◌⊎◌, ltb→lt, ltb→le,
}
use asopracticas.Xv6.Dir.{
  dirsiz, max_entries, Dirent, is_same, namecmp, dirlookup, put_entry, free_place, is_present,
  linked, link_panics, dirlink,
}

is_same-take : (n : ℕ) (s t : List ℕ) → is_same n s (take n t) ≡ is_same n s t
unfolding is_same
is_same-take zero s t = refl
is_same-take (suc n) [] [] = refl
is_same-take (suc n) [] (d ∷ ds) = refl
is_same-take (suc n) (c ∷ cs) [] = refl
is_same-take (suc n) (c ∷ cs) (d ∷ ds) = rw (is_same, is_same-take n cs ds) refl

is_same_self : (n : ℕ) (s : List ℕ) → is_same n s s ≡ true
unfolding is_same
is_same_self zero s = refl
is_same_self (suc n) [] = refl
is_same_self (suc n) (c ∷ cs) = rw (is_same, ==_refl c, is_same_self n cs) refl

lookup_other :
    (new : Dirent) (name : List ℕ) (ds : List Dirent)
    → namecmp name new.name ≡ false
    → dirlookup name (put_entry new ds) ≡ dirlookup name ds
unfolding dirlookup put_entry
lookup_other new name [] other = elim (Bool-cases (new.inum == 0)) [
  | inl e ↦ rw (put_entry, dirlookup, e) refl
  | inr e ↦ rw (put_entry, dirlookup, e, other) refl
]
lookup_other new name (de ∷ ds) other = elim (Bool-cases (de.inum == 0)) [
  | inl free ↦ elim (Bool-cases (new.inum == 0)) [
    | inl e ↦ rw (put_entry, free, e) refl
    | inr e ↦ rw (put_entry, free, e, other) refl
  ]
  | inr used ↦ rw (put_entry, used, lookup_other new name ds other, used) refl
]

lookup_self :
    (new : Dirent) (name : List ℕ) (ds : List Dirent)
    → namecmp name new.name ≡ true
    → new.inum ≢ 0
    → dirlookup name ds ≡ none
    → dirlookup name (put_entry new ds) ≡ some new.inum
unfolding dirlookup put_entry
lookup_self new name [] same used e = rw (put_entry, dirlookup, ne→== _ _ used, same) refl
lookup_self new name (de ∷ ds) same used e = elim (Bool-cases (de.inum == 0)) [
  | inl free ↦ rw (put_entry, free, ne→== _ _ used, same) refl
  | inr taken ↦ elim (Bool-cases (namecmp name de.name)) [
    | inl hit ↦ (let found : some de.inum ≡ none = rw (dirlookup, taken, hit) at e in cc)
    | inr miss ↦
        let later : dirlookup name ds ≡ none = rw (dirlookup, taken, miss) at e in
        rw (put_entry, taken, taken, miss) (lookup_self new name ds same used later)
  ]
]

-- No entry is empty.
abbrev pub IsFull : List Dirent → Type 0
IsFull [] = Unit
IsFull (de ∷ ds) = (de.inum ≢ 0) × IsFull ds

length-put_entry :
    (new : Dirent) (ds : List Dirent)
    → (length (put_entry new ds) ≡ length ds)
      ⊎ ((length (put_entry new ds) ≡ length ds + 1) × IsFull ds)
unfolding put_entry
length-put_entry new [] = inr (omega arith, tt)
length-put_entry new (de ∷ ds) = elim (Bool-cases (de.inum == 0)) [
  | inl free ↦ inl (rw (put_entry, free) refl)
  | inr used ↦ elim (length-put_entry new ds) [
    | inl same ↦ inl (rw (put_entry, used) (omega (arith, same)))
    | inr (longer, full) ↦
        inr (rw (put_entry, used) (omega (arith, longer)), (==→ne _ _ used, full))
  ]
]

-- Nothing, or an entry that is not in use comes first.
abbrev pub StartsFree : List Dirent → Type 0
StartsFree [] = Unit
StartsFree (de ∷ ds) = de.inum ≡ 0

free_place_lem :
    (ds : List Dirent)
    → (before : List Dirent) × (after : List Dirent) × (ds ≡ before ++ after)
      × IsFull before
      × StartsFree after
      × (length before ≡ free_place ds)
unfolding free_place
free_place_lem [] = ([], [], refl, tt, tt, refl)
free_place_lem (de ∷ ds) = elim (Bool-cases (de.inum == 0)) [
  | inl free ↦ ([], de ∷ ds, refl, tt, ==→eq _ _ free, rw (free_place, free) refl)
  | inr used ↦
      let (before, after, split, full, free, at) = free_place_lem ds in
      (
        de ∷ before,
        after,
        ap (λ l. de ∷ l) split,
        (==→ne _ _ used, full),
        free,
        rw (free_place, used) (omega (arith, at)),
      )
]

-- How `dirlink` of a name ends.
pub data Linked (has_room : ℕ → Bool) (name : List ℕ) (inum : ℕ) (ds : List Dirent) : Type 0 where
  present :
      (old : ℕ)
      → dirlookup name ds ≡ some old
      → dirlink has_room name inum ds ≡ is_present
      → Linked has_room name inum ds
  added :
      (ds' : List Dirent)
      → dirlink has_room name inum ds ≡ linked ds'
      → dirlookup name ds ≡ none
      → dirlookup name ds' ≡ some inum
      → ((other : List ℕ) → namecmp other name ≡ false → dirlookup other ds' ≡ dirlookup other ds)
      → length ds' ≤ max_entries
      → Linked has_room name inum ds
  too_long :
      dirlink has_room name inum ds ≡ link_panics
      → dirlookup name ds ≡ none
      → length ds ≡ max_entries
      → IsFull ds
      → Linked has_room name inum ds
  no_room :
      (before after : List Dirent)
      → dirlink has_room name inum ds ≡ link_panics
      → dirlookup name ds ≡ none
      → ds ≡ before ++ after
      → IsFull before
      → StartsFree after
      → has_room (length before) ≡ false
      → Linked has_room name inum ds

-- `dirlink` of a name and an inode number that fits, into a directory that is not too long, ends in
-- one of four ways: -1, and the name is there; the name is found from then on with that number,
-- and every other name as before; a panic, and all entries of the longest directory are in use; or
-- a panic, and for the first entry that is not in use, or else the one behind the last, `writei`
-- has no block or no room in the log.
pub dirlink_lem :
    (has_room : ℕ → Bool) (name : List ℕ) (inum : ℕ) (ds : List Dirent)
    → 0 < inum
    → inum < 65536
    → length ds ≤ max_entries
    → Linked has_room name inum ds
unfolding dirlink
dirlink_lem has_room name inum ds some_inum fits short = elim (Option-cases (dirlookup name ds)) [
  | inr (old, there) ↦ present old there (rw (dirlink, there) refl)
  | inl missing ↦
      let new : Dirent = record { inum = inum % 65536; name = take dirsiz name } in
      let whole : inum % 65536 ≡ inum = omega arith in
      let used : inum % 65536 ≢ 0 = λ z. absurd (omega arith) in
      let same : namecmp name (take dirsiz name) ≡ true =
        is_same-take dirsiz name name ∙ is_same_self dirsiz name in
      elim (Bool-cases (ltb max_entries (length (put_entry new ds)))) [
        | inr fine ↦ elim (Bool-cases (has_room (free_place ds))) [
          | inl room ↦
              added (put_entry new ds) (rw (dirlink, missing, fine, room) refl) missing
                (lookup_self new name ds same used missing ∙ ap some whole)
                (λ other ne. lookup_other new other ds (is_same-take dirsiz other name ∙ ne))
                (ltb→le _ _ fine)
          | inr stops ↦
              let (before, after, split, full, free, at) = free_place_lem ds in
              no_room before after (rw (dirlink, missing, fine, stops) refl) missing split full free
                (ap has_room at ∙ stops)
        ]
        | inl over ↦
            let high = ltb→lt _ _ over in
            elim (length-put_entry new ds) [
              | inl kept_length ↦ absurd (omega (arith, high, kept_length, short))
              | inr (longer, full) ↦
                  too_long (rw (dirlink, missing, over) refl) missing
                    (omega (arith, high, longer, short)) full
            ]
      ]
]
