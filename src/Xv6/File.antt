-- ===== src/Xv6/File.antt =====
-- The open files of xv6/file.c and the descriptors of xv6/sysfile.c. A pointer to entry `i` of the
-- file table is `suc i`, the null pointer 0. Descriptor `fd` of process `p` is entry `desc_slot p fd`.
-- What `pipeclose` and `iput` are called for is kept as a list of calls.
pub mod Counts
pub mod Descs
pub mod Pipes
pub mod Loops
pub mod Calls
pub mod Reach
mod Tests
use asopracticas.Common.{
  ℕ, zero, suc, ◌+◌, ◌-◌, ◌*◌, Bool, true, false, ◌&&◌, ◌||◌, not, ◌/◌, ◌%◌, Option, none, some,
  List, [], ◌∷◌, ◌++◌, ◌==◌, ltb, leb, if◌then◌else◌, ◌>>=◌,
}

-- NFILE, NOFILE
abbrev pub nfile : ℕ
nfile = 100

abbrev pub nofile : ℕ
nofile = 16

pub data FileType : Type 0 where
  fd_none fd_pipe fd_inode : FileType

-- `struct file`, less `off`.
pub record File : Type 0 where
  pub type : FileType
  pub ref : ℕ
  pub readable : Bool
  pub writable : Bool
  pub pipe : ℕ
  pub ip : ℕ

-- A call of `pipeclose`, or of `iput` within an operation of the log.
pub data Release : Type 0 where
  pipe_close : ℕ → Bool → Release
  put_inode : ℕ → Release

-- `ftable`, `ofile` of all processes, and the calls so far, the last one first.
pub record Files : Type 0 where
  pub file : ℕ → File
  pub ofile : ℕ → ℕ
  pub released : List Release

abbrev pub desc_slot : ℕ → ℕ → ℕ
desc_slot p fd = p * nofile + fd

abbrev pub put {ℓ} : {A : Type ℓ} → (ℕ → A) → ℕ → A → ℕ → A
put t i v j = if j == i then v else t j

abbrev pub set_file : ℕ → File → Files → Files
set_file i f s = record s { file = put s.file i f }

abbrev pub set_ofile : ℕ → ℕ → ℕ → Files → Files
set_ofile p fd f s = record s { ofile = put s.ofile (desc_slot p fd) f }

pub find_free : ℕ → ℕ → (ℕ → File) → Option ℕ
find_free zero i t = none
find_free (suc k) i t =
    let later = find_free k (i + 1) t in if (t i).ref == 0 then some i else later

pub filealloc : Files → ℕ × Files
filealloc s = elim (find_free nfile 0 s.file) [
  | none ↦ (0, s)
  | some i ↦ (suc i, set_file i (record (s.file i) { ref = 1 }) s)
]

-- `none` is a panic.
pub filedup : ℕ → Files → Option Files
filedup f s =
    let old = s.file (f - 1) in
    if ltb old.ref 1 then none else some (set_file (f - 1) (record old { ref = old.ref + 1 }) s)

-- What is called when the last reference to the file goes.
abbrev pub release : File → List Release → List Release
release ff calls = elim ff.type [
  | fd_none ↦ calls
  | fd_pipe ↦ pipe_close ff.pipe ff.writable ∷ calls
  | fd_inode ↦ put_inode ff.ip ∷ calls
]

-- `none` is a panic.
pub fileclose : ℕ → Files → Option Files
fileclose f s =
    let ff = s.file (f - 1) in
    if ltb ff.ref 1
    then none
    else if ltb 0 (ff.ref - 1)
    then some (set_file (f - 1) (record ff { ref = ff.ref - 1 }) s)
    else some (record s {
      file = put s.file (f - 1) (record ff { ref = 0; type = fd_none });
      released = release ff s.released;
    })

pub find_null : ℕ → ℕ → ℕ → (ℕ → ℕ) → Option ℕ
find_null zero fd p t = none
find_null (suc k) fd p t =
    let later = find_null k (fd + 1) p t in if t (desc_slot p fd) == 0 then some fd else later

-- `none` is -1.
pub fdalloc : ℕ → ℕ → Files → Option (ℕ × Files)
fdalloc p f s = do fd ← find_null nofile 0 p s.ofile; some (fd, set_ofile p fd f s)

-- A negative `fd` is a word that is at least 2^31. `none` is -1.
pub argfd : ℕ → ℕ → Files → Option ℕ
argfd p fd s =
    if leb nofile fd || s.ofile (desc_slot p fd) == 0 then none else some (s.ofile (desc_slot p fd))

-- The end of a system call: -1, or a descriptor or 0, or the descriptors of a pipe, or a panic.
pub data CallEnd : Type 0 where
  fails : Files → CallEnd
  gives : ℕ → Files → CallEnd
  gives_pipe : ℕ → ℕ → Files → CallEnd
  panics : CallEnd

pub sys_dup : ℕ → ℕ → Files → CallEnd
sys_dup p fd s = elim (argfd p fd s) [
  | none ↦ fails s
  | some f ↦ elim (fdalloc p f s) [
    | none ↦ fails s
    | some (fd', s') ↦ elim (filedup f s') [ none ↦ panics | some s'' ↦ gives fd' s'' ]
  ]
]

pub sys_close : ℕ → ℕ → Files → CallEnd
sys_close p fd s = elim (argfd p fd s) [
  | none ↦ fails s
  | some f ↦ elim (fileclose f (set_ofile p fd 0 s)) [ none ↦ panics | some s' ↦ gives 0 s' ]
]

-- The tail of `sys_open` from the call of `filealloc` on, for the inode `ip`.
pub open_file : ℕ → ℕ → ℕ → Files → CallEnd
open_file p ip omode s =
    let (f, s1) = filealloc s in
    let no_inode : Files → CallEnd =
      λ t. fails (record t { released = put_inode ip ∷ t.released }) in
    if f == 0 then no_inode s1 else elim (fdalloc p f s1) [
      | none ↦ elim (fileclose f s1) [ none ↦ panics | some s2 ↦ no_inode s2 ]
      | some (fd, s2) ↦ gives fd (
          set_file (f - 1)
            (record (s2.file (f - 1)) {
              type = fd_inode;
              ip = ip;
              readable = omode % 2 == 0;
              writable = omode % 2 == 1 || omode / 2 % 2 == 1;
            })
            s2)
    ]

abbrev pub close_some : ℕ → Files → Option Files
close_some f s = if f == 0 then some s else fileclose f s

-- `bad` of `pipealloc`, where its `p` is 0.
pub drop_both : ℕ → ℕ → Files → Option Files
drop_both f0 f1 s = do s1 ← close_some f0 s; close_some f1 s1

abbrev pub as_pipe : ℕ → Bool → File → File
as_pipe page reads f = record f {
  type = fd_pipe;
  readable = reads;
  writable = not reads;
  pipe = page;
}

-- `page` is what `kalloc` answers. `some (none, _)` is -1, and `none` is a panic.
pub pipealloc : ℕ → Files → Option (Option (ℕ × ℕ) × Files)
pipealloc page s =
    let (f0, s1) = filealloc s in
    let (f1, s2) = filealloc s1 in
    if f0 == 0
    then some (none, s1)
    else if f1 == 0 || page == 0
    then (do s3 ← drop_both f0 f1 s2; some (none, s3))
    else (let s3 = set_file (f0 - 1) (as_pipe page true (s2.file (f0 - 1))) s2 in
        some (some (f0, f1), set_file (f1 - 1) (as_pipe page false (s3.file (f1 - 1))) s3))

-- `sys_pipe` for a good pointer to its result.
pub sys_pipe : ℕ → ℕ → Files → CallEnd
sys_pipe p page s =
    let give_up : ℕ → ℕ → Files → CallEnd =
      λ rf wf t. elim (drop_both rf wf t) [ none ↦ panics | some t' ↦ fails t' ] in
    elim (pipealloc page s) [
      | none ↦ panics
      | some (none, s1) ↦ fails s1
      | some (some (rf, wf), s1) ↦ elim (fdalloc p rf s1) [
        | none ↦ give_up rf wf s1
        | some (fd0, s2) ↦ elim (fdalloc p wf s2) [
          | none ↦ give_up rf wf (set_ofile p fd0 0 s2)
          | some (fd1, s3) ↦ gives_pipe fd0 fd1 s3
        ]
      ]
    ]

-- The loop of `fork` over the descriptors of the parent `p`, for the child `q`.
pub copy_from : ℕ → ℕ → ℕ → ℕ → Files → Option Files
copy_from zero fd p q s = some s
copy_from (suc k) fd p q s =
    let f = s.ofile (desc_slot p fd) in
    do
      s' ← if f == 0 then some s else (do t ← filedup f s; some (set_ofile q fd f t))
      copy_from k (fd + 1) p q s'

-- The loop of `exit` over the descriptors of `p`.
pub close_from : ℕ → ℕ → ℕ → Files → Option Files
close_from zero fd p s = some s
close_from (suc k) fd p s =
    let f = s.ofile (desc_slot p fd) in
    do
      s' ← if f == 0 then some s else (do t ← fileclose f s; some (set_ofile p fd 0 t))
      close_from k (fd + 1) p s'

-- The calls on descriptors. For a fork `child` is the process that `allocproc` gave.
pub data FileCall : Type 0 where
  dup close : ℕ → ℕ → FileCall
  pipes : ℕ → ℕ → FileCall
  open_inode : ℕ → ℕ → ℕ → FileCall
  forks : ℕ → ℕ → FileCall
  exits : ℕ → FileCall

abbrev pub state_of : CallEnd → Option Files
state_of (fails s) = some s
state_of (gives n s) = some s
state_of (gives_pipe a b s) = some s
state_of panics = none

-- `none` is a panic.
pub run_call : FileCall → Files → Option Files
run_call (dup p fd) s = state_of (sys_dup p fd s)
run_call (close p fd) s = state_of (sys_close p fd s)
run_call (pipes p page) s = state_of (sys_pipe p page s)
run_call (open_inode p ip omode) s = state_of (open_file p ip omode s)
run_call (forks p child) s = copy_from nofile 0 p child s
run_call (exits p) s = close_from nofile 0 p s
