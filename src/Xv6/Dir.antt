-- ===== src/Xv6/Dir.antt =====
-- Directories and path names of xv6/fs.c. A directory is the list of its entries, a string the list
-- of its bytes before the NUL, and an inode the number that it has; the references that the code
-- takes to inodes and the blocks behind a directory are left out.
pub mod Path
pub mod Link
mod Tests
use asopracticas.Common.{
  ℕ, zero, suc, ◌+◌, ◌%◌, Bool, true, false, ◌&&◌, Option, none, some, List, [], ◌∷◌, length, take,
  ◌==◌, ltb, if◌then◌else◌, ◌>>=◌,
}

-- DIRSIZ
abbrev pub dirsiz : ℕ
dirsiz = 14

-- MAXFILE * BSIZE / sizeof(struct dirent)
abbrev pub max_entries : ℕ
max_entries = 4480

-- `struct dirent`, with the name less the NULs that pad it.
pub record Dirent : Type 0 where
  pub inum : ℕ
  pub name : List ℕ

-- Whether `strncmp` of at most `n` bytes is 0.
pub is_same : ℕ → List ℕ → List ℕ → Bool
is_same zero s t = true
is_same (suc n) [] [] = true
is_same (suc n) [] (d ∷ ds) = false
is_same (suc n) (c ∷ cs) [] = false
is_same (suc n) (c ∷ cs) (d ∷ ds) = let rest = is_same n cs ds in if c == d then rest else false

-- Whether `namecmp` is 0.
abbrev pub namecmp : List ℕ → List ℕ → Bool
namecmp s t = is_same dirsiz s t

pub dirlookup : List ℕ → List Dirent → Option ℕ
dirlookup name [] = none
dirlookup name (de ∷ ds) =
    let rest = dirlookup name ds in
    if de.inum == 0 then rest else if namecmp name de.name then some de.inum else rest

-- The first empty entry becomes `new`, or it goes behind the last one.
pub put_entry : Dirent → List Dirent → List Dirent
put_entry new [] = new ∷ []
put_entry new (de ∷ ds) =
    let rest = put_entry new ds in if de.inum == 0 then new ∷ ds else de ∷ rest

-- -1, or the directory as it is written, or a panic.
pub data LinkEnd : Type 0 where
  is_present : LinkEnd
  linked : List Dirent → LinkEnd
  link_panics : LinkEnd

-- The place of the first empty entry, or the end.
pub free_place : List Dirent → ℕ
free_place [] = 0
free_place (de ∷ ds) = let rest = free_place ds in if de.inum == 0 then 0 else suc rest

-- `has_room` says of each entry whether `writei` of it finds the block that it may need and the room
-- in the log, where it panics otherwise; beyond the longest file it writes nothing, and `dirlink`
-- panics.
pub dirlink : (ℕ → Bool) → List ℕ → ℕ → List Dirent → LinkEnd
dirlink has_room name inum ds = elim (dirlookup name ds) [
  | some old ↦ is_present
  | none ↦
      let ds' = put_entry (record { inum = inum % 65536; name = take dirsiz name }) ds in
      if ltb max_entries (length ds')
      then link_panics
      else if has_room (free_place ds)
      then linked ds'
      else link_panics
]

-- `while(*path == '/') path++;`
pub drop_slashes : List ℕ → List ℕ
drop_slashes [] = []
drop_slashes (c ∷ cs) = let rest = drop_slashes cs in if c == 47 then rest else c ∷ cs

-- `while(*path != '/' && *path != 0) path++;`, with what it passes.
pub span_elem : List ℕ → List ℕ × List ℕ
span_elem [] = ([], [])
span_elem (c ∷ cs) = let (e, r) = span_elem cs in if c == 47 then ([], c ∷ cs) else (c ∷ e, r)

-- The element, and the path behind it.
pub skipelem : List ℕ → Option (List ℕ × List ℕ)
skipelem path = elim (drop_slashes path) [
  | [] ↦ none
  | c ∷ cs ↦ (let (e, r) = span_elem (c ∷ cs) in some (take dirsiz e, drop_slashes r))
]

-- The entries of an inode that is a directory.
abbrev pub DirMap : Type 0
DirMap = ℕ → Option (List Dirent)

abbrev pub is_end : List ℕ → Bool
is_end [] = true
is_end _ = false

-- What `namex` returns: an inode with the bytes in `name`, or 0, or that the fuel ran out.
pub data Named : Type 0 where
  names : ℕ → List ℕ → Named
  no_name : Named
  no_fuel : Named

-- The loop of `namex` at the inode `ip`.
pub walk : ℕ → DirMap → Bool → ℕ → List ℕ → List ℕ → Named
walk zero disk parent ip name path = no_fuel
walk (suc fuel) disk parent ip name path = elim (skipelem path) [
  | none ↦ if parent then no_name else names ip name
  | some (name', path') ↦ elim (disk ip) [
    | none ↦ no_name
    | some ds ↦ if parent && is_end path' then names ip name' else elim (dirlookup name' ds) [
      | none ↦ no_name
      | some next ↦ walk fuel disk parent next name' path'
    ]
  ]
]

-- ROOTINO, or the current directory.
abbrev pub start_of : ℕ → List ℕ → ℕ
start_of cwd [] = cwd
start_of cwd (c ∷ cs) = if c == 47 then 1 else cwd

pub namex : DirMap → ℕ → Bool → List ℕ → List ℕ → Named
namex disk cwd parent name path = walk (length path + 1) disk parent (start_of cwd path) name path

pub namei : DirMap → ℕ → List ℕ → Named
namei disk cwd path = namex disk cwd false [] path

pub nameiparent : DirMap → ℕ → List ℕ → List ℕ → Named
nameiparent disk cwd name path = namex disk cwd true name path
