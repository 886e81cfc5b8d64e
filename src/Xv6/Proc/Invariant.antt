-- ===== src/Xv6/Proc/Invariant.antt =====
-- What holds of the process table of xv6/proc.c between its locked regions.
use asopracticas.Common.{
  ℕ, suc, ◌≤◌, ◌<◌, ◌≡◌, ◌≢◌, refl, sym, ◌∙◌, subst, inl, inr, ◌⊎◌, Bool, true, false, ◌==◌,
  Bool-cases, ==→eq,
}
use asopracticas.Xv6.Proc.{
  Proc, ProcState, unused, embryo, sleeping, runnable, running, zombie, Table, System, put, nproc,
}

-- A process that can still run.
abbrev pub is_alive : ProcState → Bool
is_alive sleeping = true
is_alive runnable = true
is_alive running = true
is_alive _ = false

abbrev pub IsFree : Proc → Type 0
IsFree p = p.state ≡ unused

-- The parent is a process that can still run.
abbrev pub HasParent : Table → ℕ → Type 0
HasParent t j = (q : ℕ) × ((t j).parent ≡ suc q) × (is_alive (t q).state ≡ true)

-- Process `q` sleeps in `wait`.
abbrev pub WaitsFor : Table → ℕ → Type 0
WaitsFor t q = ((t q).state ≡ sleeping) × ((t q).chan ≡ suc q)

-- A slot that `allocproc` has taken and `fork` has not given to the parent yet.
abbrev pub IsPending : Proc → Type 0
IsPending p = (p.state ≡ embryo) × (p.parent ≡ 0)

pub record IsSound (s : System) : Type 0 where
  pub outside : (j : ℕ) → nproc ≤ j → IsFree (s.procs j)
  pub orphan : (j : ℕ) → IsFree (s.procs j) → (s.procs j).parent ≡ 0
  pub adopted :
      (j : ℕ)
      → (s.procs j).state ≢ unused
      → suc j ≢ s.initproc
      → (IsPending (s.procs j) → ⊥)
      → HasParent s.procs j
  pub root : (j : ℕ) → suc j ≡ s.initproc → (s.procs j).parent ≡ 0
  pub proper : (j : ℕ) → (s.procs j).parent ≢ suc j
  pub numbered :
      (j : ℕ) → (s.procs j).state ≢ unused → (0 < (s.procs j).pid) × ((s.procs j).pid < s.nextpid)
  pub distinct :
      (i j : ℕ)
      → (s.procs i).state ≢ unused
      → (s.procs j).state ≢ unused
      → (s.procs i).pid ≡ (s.procs j).pid
      → i ≡ j
  pub awake :
      (q j : ℕ) → WaitsFor s.procs q → (s.procs j).parent ≡ suc q → (s.procs j).state ≢ zombie
  pub on_cpu : (c p : ℕ) → s.cpus c ≡ suc p → (s.procs p).state ≡ running
  pub one_cpu : (c d p : ℕ) → s.cpus c ≡ suc p → s.cpus d ≡ suc p → c ≡ d
  pub init : (z : ℕ) × (s.initproc ≡ suc z) × (is_alive (s.procs z).state ≡ true)

-- What the steps that make no process and end none do to slot `j`.
pub record Moves (t : Table) (j : ℕ) (p : Proc) : Type 0 where
  pub pid : p.pid ≡ (t j).pid
  pub parent : p.parent ≡ (t j).parent
  pub alive : is_alive (t j).state ≡ true → is_alive p.state ≡ true
  pub free : IsFree p → IsFree (t j)
  pub stays_free : IsFree (t j) → IsFree p
  pub pending : IsPending (t j) → IsPending p
  pub dead : p.state ≡ zombie → (t j).state ≡ zombie
  pub waits :
      p.state ≡ sleeping
      → p.chan ≡ suc j
      → WaitsFor t j ⊎ ((i : ℕ) → (t i).parent ≡ suc j → (t i).state ≢ zombie)

pub Moves-refl : (t : Table) (j : ℕ) → Moves t j (t j)
Moves-refl t j = record {
  pid = refl;
  parent = refl;
  alive = λ h. h;
  free = λ h. h;
  stays_free = λ h. h;
  pending = λ h. h;
  dead = λ h. h;
  waits = λ h h'. inl (h, h');
}

-- One slot changes.
pub put-Moves : (t : Table) (i : ℕ) (p : Proc) → Moves t i p → (j : ℕ) → Moves t j (put t i p j)
put-Moves t i p h j = elim (Bool-cases (j == i)) [
  | inl same ↦ rw same (subst (λ x. Moves t x p) (sym (==→eq j i same)) h)
  | inr other ↦ rw other (Moves-refl t j)
]

pub moved-IsSound :
    (s : System) (t : Table) (cpus : ℕ → ℕ)
    → IsSound s
    → ((j : ℕ) → Moves s.procs j (t j))
    → ((c p : ℕ) → cpus c ≡ suc p → (t p).state ≡ running)
    → ((c d p : ℕ) → cpus c ≡ suc p → cpus d ≡ suc p → c ≡ d)
    → IsSound (record s { procs = t; cpus = cpus })
moved-IsSound s t cpus h m on_cpu one_cpu =
    let (z, at_init, init_alive) = h.init in
    record {
      outside = λ j high. (m j).stays_free (h.outside j high);
      orphan = λ j e. (m j).parent ∙ h.orphan j ((m j).free e);
      adopted = λ j used other settled.
          let (q, e, alive) =
            h.adopted j (λ f. used ((m j).stays_free f)) other (λ f. settled ((m j).pending f)) in
          (q, (m j).parent ∙ e, (m q).alive alive);
      root = λ j e. (m j).parent ∙ h.root j e;
      proper = λ j e. h.proper j (sym (m j).parent ∙ e);
      numbered = λ j used.
          let (low, high) = h.numbered j (λ f. used ((m j).stays_free f)) in
          (subst (λ x. 0 < x) (sym (m j).pid) low, subst (λ x. x < s.nextpid) (sym (m j).pid) high);
      distinct = λ i j ui uj e.
          h.distinct i j (λ f. ui ((m i).stays_free f)) (λ f. uj ((m j).stays_free f))
            (sym (m i).pid ∙ e ∙ (m j).pid);
      awake = λ q j (asleep, chan) e dead. elim ((m q).waits asleep chan) [
        | inl old ↦ h.awake q j old (sym (m j).parent ∙ e) ((m j).dead dead)
        | inr none_dead ↦ none_dead j (sym (m j).parent ∙ e) ((m j).dead dead)
      ];
      on_cpu = on_cpu;
      one_cpu = one_cpu;
      init = (z, at_init, (m z).alive init_alive);
    }
