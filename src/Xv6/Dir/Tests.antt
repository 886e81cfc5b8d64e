-- ===== src/Xv6/Dir/Tests.antt =====
-- Runs of the directories and path names of xv6/fs.c.
use asopracticas.Common.{
  ℕ, ◌≡◌, refl, true, none, some, List, [], ◌∷◌, arith, ◌==◌, Bool, ltb, if◌then◌else◌,
}
use asopracticas.Xv6.Dir.{
  Dirent, DirMap, skipelem, drop_slashes, span_elem, dirlookup, is_same, walk, namex, names, namei,
  start_of,
}
use asopracticas.Xv6.Dir.Link.{Linked, dirlink_lem}
use asopracticas.Xv6.Dir.Path.{elements, follow, namex_lem}

-- "a" in entry 0, then an entry that is empty.
abbrev root_dir : List Dirent
root_dir = record { inum = 7; name = 97 ∷ [] } ∷ record { inum = 0; name = [] } ∷ []

-- "bb"
abbrev inner_dir : List Dirent
inner_dir = record { inum = 9; name = 98 ∷ 98 ∷ [] } ∷ []

abbrev two_dirs : DirMap
two_dirs i = if i == 1 then some root_dir else if i == 7 then some inner_dir else none

-- "//a//bb"
abbrev slashed : List ℕ
slashed = 47 ∷ 47 ∷ 97 ∷ 47 ∷ 47 ∷ 98 ∷ 98 ∷ []

skipelem_runs : skipelem slashed ≡ some (97 ∷ [], 98 ∷ 98 ∷ [])
unfolding skipelem drop_slashes span_elem
skipelem_runs = refl

namei_runs : namei two_dirs 5 slashed ≡ names 9 (98 ∷ 98 ∷ [])
unfolding namei namex walk skipelem drop_slashes span_elem dirlookup is_same
namei_runs = refl

elements_runs : elements slashed ≡ (97 ∷ []) ∷ (98 ∷ 98 ∷ []) ∷ []
unfolding elements
elements_runs = refl

namex_lem_example :
    namex two_dirs 5 true [] slashed
    ≡ follow two_dirs true (start_of 5 slashed) [] (elements slashed)
namex_lem_example = namex_lem two_dirs 5 true [] slashed

-- The second entry may be written, none behind it.
abbrev two_entries : ℕ → Bool
two_entries k = ltb k 2

dirlink_lem_example : Linked two_entries (99 ∷ []) 12 root_dir
dirlink_lem_example =
    dirlink_lem two_entries (99 ∷ []) 12 root_dir (omega arith) (omega arith) (omega arith)
