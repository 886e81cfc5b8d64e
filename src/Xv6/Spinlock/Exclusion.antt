-- ===== src/Xv6/Spinlock/Exclusion.antt =====
-- At most one CPU is inside a spin lock of xv6/spinlock.c.
use asopracticas.Common.{
  ℕ, zero, suc, ◌≡◌, ◌≢◌, refl, sym, ◌∙◌, subst, inl, inr, ◌⊎◌, Bool, true, false, ◌&&◌, not, some,
  List, [], ◌∷◌, ◌==◌, Bool-cases, ==→eq, ==→ne, ne→==, ==_refl, arith,
}
use asopracticas.Xv6.Cli.{Cpu, pushcli}
use asopracticas.Xv6.Cli.Nesting.{HasOpen, pushcli-HasOpen, popcli-HasOpen}
use asopracticas.Xv6.Spinlock.{
  Place, outside, spinning, taken, inside, cleared, System, moved, holding, start_acquire, try_lock,
  set_owner, start_release, unlock, advance, schedule,
}

-- What is true of CPU `i` at a place; `who` is `suc i` for the CPU that has the lock, 0 for none.
abbrev pub IsFine : ℕ → ℕ → Bool → Place → ℕ → Cpu → Type 0
IsFine who owner flag outside i c = (who ≢ suc i) × HasOpen flag 0 c
IsFine who owner flag spinning i c = (who ≢ suc i) × HasOpen flag 1 c
IsFine who owner flag taken i c = (who ≡ suc i) × (owner ≡ 0) × HasOpen flag 1 c
IsFine who owner flag inside i c = (who ≡ suc i) × (owner ≡ suc i) × HasOpen flag 1 c
IsFine who owner flag cleared i c = (who ≡ suc i) × (owner ≡ 0) × HasOpen flag 1 c

pub record IsSafe (flags : ℕ → Bool) (s : System) : Type 0 where
  pub who : ℕ
  pub word : s.locked ≡ not (who == 0)
  pub known : (s.owner ≡ 0) ⊎ (s.owner ≡ who)
  pub fine : (i : ℕ) → IsFine who s.owner (flags i) (s.places i) i (s.cpus i)

-- A step of the CPU that has the lock, or takes it, leaves the others where they are.
others-IsFine :
    (who owner who' owner' i : ℕ) (flag : Bool) (p : Place) (j : ℕ) (c : Cpu)
    → (who ≡ 0) ⊎ (who ≡ suc i)
    → (who' ≡ 0) ⊎ (who' ≡ suc i)
    → j ≢ i
    → IsFine who owner flag p j c
    → IsFine who' owner' flag p j c
others-IsFine who owner who' owner' i flag outside j c h h' ne (_, depth) = ((omega arith), depth)
others-IsFine who owner who' owner' i flag spinning j c h h' ne (_, depth) = ((omega arith), depth)
others-IsFine who owner who' owner' i flag taken j c h h' ne (mine, _, _) = absurd (omega arith)
others-IsFine who owner who' owner' i flag inside j c h h' ne (mine, _, _) = absurd (omega arith)
others-IsFine who owner who' owner' i flag cleared j c h h' ne (mine, _, _) = absurd (omega arith)

some_cpu : (i : ℕ) → not (suc i == 0) ≡ true
some_cpu i = let more : suc i == 0 ≡ false = ne→== _ _ (omega arith) in rw more refl

nobody_in : (who : ℕ) → not (who == 0) ≡ false → who ≡ 0
nobody_in zero h = refl
nobody_in (suc i) h = absurd (let held = some_cpu i in ground (arith, h, held))

module _ (flags : ℕ → Bool) (i : ℕ) where
  moved-IsSafe :
      (s : System) (p : Place) (c : Cpu) (who : ℕ)
      → s.locked ≡ not (who == 0)
      → (s.owner ≡ 0) ⊎ (s.owner ≡ who)
      → IsFine who s.owner (flags i) p i c
      → ((j : ℕ) → j ≢ i → IsFine who s.owner (flags j) (s.places j) j (s.cpus j))
      → IsSafe flags (moved i p c s)
  moved-IsSafe s p c who word known mine others = record {
    who = who;
    word = word;
    known = known;
    fine = λ j. elim (Bool-cases (j == i)) [
      | inl same ↦ rw (same, ==→eq j i same) mine
      | inr other ↦ rw other (others j (==→ne j i other))
    ];
  }

  holding_lem :
      (s : System) (d : ℕ) (c : Cpu)
      → HasOpen (flags i) d c
      → (c' : Cpu) × (holding i s c ≡ some (s.locked && s.owner == suc i, c'))
        × HasOpen (flags i) d c'
  unfolding holding
  holding_lem s d c h =
      let (c', e, h') = popcli-HasOpen (flags i) d (pushcli c) (pushcli-HasOpen (flags i) d c h) in
      (c', rw (holding, e) refl, h')

  -- What one step of CPU `i` at place `p` is to show.
  abbrev Goes : Place → System → Type 0
  Goes p s =
      (h : IsSafe flags s)
      → IsFine h.who s.owner (flags i) p i (s.cpus i)
      → (s' : System) × (advance p i s ≡ some s') × IsSafe flags s'

  outside-Goes : (s : System) → Goes outside s
  unfolding advance start_acquire
  outside-Goes s h (mine, depth) =
      let (c, e, depth') =
        holding_lem s 1 (pushcli (s.cpus i)) (pushcli-HasOpen (flags i) 0 (s.cpus i) depth) in
      let apart : s.locked && s.owner == suc i ≡ false =
        let ne : s.owner ≢ suc i = λ same. elim h.known [
          | inl unowned ↦ omega (arith, unowned, same)
          | inr known ↦ mine (sym known ∙ same)
        ] in
        elim (Bool-cases s.locked) [
          | inl held ↦ rw (held, ne→== _ _ ne) refl
          | inr free ↦ rw free refl
        ] in
      (
        moved i spinning c s,
        rw (advance, start_acquire, e, apart) refl,
        moved-IsSafe s spinning c h.who h.word h.known (mine, depth') (λ j _. h.fine j),
      )

  spinning-Goes : (s : System) → Goes spinning s
  unfolding advance try_lock
  spinning-Goes s h (mine, depth) = elim (Bool-cases s.locked) [
    | inl held ↦ (s, rw (advance, try_lock, held) refl, h)
    | inr free ↦
        let nobody : h.who ≡ 0 = nobody_in h.who (sym h.word ∙ free) in
        let unowned : s.owner ≡ 0 = elim h.known [
          | inl unowned ↦ unowned
          | inr known ↦ known ∙ nobody
        ] in
        let s1 : System = record s { locked = true } in
        (
          moved i taken (s.cpus i) s1,
          rw (advance, try_lock, free) refl,
          moved-IsSafe s1 taken (s.cpus i) (suc i) (sym (some_cpu i)) (inl unowned)
              (refl, unowned, depth)
              (λ j ne.
                others-IsFine h.who s.owner (suc i) s.owner i (flags j) (s.places j) j (s.cpus j)
                  (inl nobody) (inr refl) ne (h.fine j)),
        )
  ]

  taken-Goes : (s : System) → Goes taken s
  unfolding advance set_owner
  taken-Goes s h (mine, unowned, depth) =
      let s1 : System = record s { owner = suc i } in
      (
        _,
        refl,
        moved-IsSafe s1 inside (s.cpus i) h.who h.word (inr (sym mine)) (mine, refl, depth)
            (λ j ne.
              others-IsFine h.who s.owner h.who (suc i) i (flags j) (s.places j) j (s.cpus j)
                (inr mine) (inr mine) ne (h.fine j)),
      )

  inside-Goes : (s : System) → Goes inside s
  unfolding advance start_release
  inside-Goes s h (mine, owned, depth) =
      let (c, e, depth') = holding_lem s 1 (s.cpus i) depth in
      let held : s.locked && s.owner == suc i ≡ true =
        rw (h.word, mine, owned, ==_refl (suc i)) (rw (some_cpu i) refl) in
      let s1 : System = record s { owner = 0 } in
      (
        moved i cleared c s1,
        rw (advance, start_release, e, held) refl,
        moved-IsSafe s1 cleared c h.who h.word (inl refl) (mine, refl, depth')
            (λ j ne.
              others-IsFine h.who s.owner h.who 0 i (flags j) (s.places j) j (s.cpus j) (inr mine)
                (inr mine) ne (h.fine j)),
      )

  cleared-Goes : (s : System) → Goes cleared s
  unfolding advance unlock
  cleared-Goes s h (mine, unowned, depth) =
      let (c, e, depth') = popcli-HasOpen (flags i) 0 (s.cpus i) depth in
      let s1 : System = record s { locked = false } in
      (
        moved i outside c s1,
        rw (advance, unlock, e) refl,
        moved-IsSafe s1 outside c 0 refl (inl unowned) ((omega arith), depth')
            (λ j ne.
              others-IsFine h.who s.owner 0 s.owner i (flags j) (s.places j) j (s.cpus j) (inr mine)
                (inl refl) ne (h.fine j)),
      )

  advance-Goes : (p : Place) (s : System) → Goes p s
  advance-Goes outside s = outside-Goes s
  advance-Goes spinning s = spinning-Goes s
  advance-Goes taken s = taken-Goes s
  advance-Goes inside s = inside-Goes s
  advance-Goes cleared s = cleared-Goes s

schedule-IsSafe :
    (flags : ℕ → Bool) (order : List ℕ) (s : System)
    → IsSafe flags s
    → (s' : System) × (schedule order s ≡ some s') × IsSafe flags s'
unfolding schedule
schedule-IsSafe flags [] s h = (s, refl, h)
schedule-IsSafe flags (i ∷ order) s h =
    let (s1, e1, h1) = advance-Goes flags i (s.places i) s h (h.fine i) in
    let (s2, e2, h2) = schedule-IsSafe flags order s1 h1 in (s2, rw (schedule, e1, e2) refl, h2)

-- The lock as `initlock` leaves it, with every CPU outside.
abbrev pub started : (ℕ → Cpu) → System
started cpus = record { locked = false; owner = 0; cpus = cpus; places = λ _. outside }

at_inside :
    (who owner : ℕ) (flag : Bool) (p : Place) (i : ℕ) (c : Cpu)
    → p ≡ inside
    → IsFine who owner flag p i c
    → (who ≡ suc i) × (c.interrupts ≡ false)
at_inside who owner flag p i c e h =
    let (mine, _, depth) = subst (λ q. IsFine who owner flag q i c) e h in (mine, depth.1)

at_outside :
    (who owner : ℕ) (flag : Bool) (p : Place) (i : ℕ) (c : Cpu)
    → p ≡ outside
    → IsFine who owner flag p i c
    → c.interrupts ≡ flag
at_outside who owner flag p i c e h =
    let (_, depth) = subst (λ q. IsFine who owner flag q i c) e h in depth.1

-- From a free lock and CPUs with no open `pushcli`, in every order of the CPUs' steps: `acquire`
-- and `release` do not panic, two CPUs are never inside the lock at once, interrupts are off on a
-- CPU that is inside, and a CPU that is outside has them as at the start.
pub schedule_lem :
    (cpus : ℕ → Cpu)
    → ((i : ℕ) → (cpus i).ncli ≡ 0)
    → (order : List ℕ)
    → (s : System) × (schedule order (started cpus) ≡ some s)
      × ((i j : ℕ) → s.places i ≡ inside → s.places j ≡ inside → i ≡ j)
      × ((i : ℕ) → s.places i ≡ inside → (s.cpus i).interrupts ≡ false)
      × ((i : ℕ) → s.places i ≡ outside → (s.cpus i).interrupts ≡ (cpus i).interrupts)
schedule_lem cpus none_open order =
    let flags : ℕ → Bool = λ i. (cpus i).interrupts in
    let safe : IsSafe flags (started cpus) = record {
      who = 0;
      word = refl;
      known = inl refl;
      fine = λ i. ((omega arith), (none_open i, refl));
    } in
    let (s, e, h) = schedule-IsSafe flags order (started cpus) safe in
    let mine : (i : ℕ) → s.places i ≡ inside → (h.who ≡ suc i) × ((s.cpus i).interrupts ≡ false) =
      λ i g. at_inside h.who s.owner (flags i) (s.places i) i (s.cpus i) g (h.fine i) in
    (
      s,
      e,
      (λ i j g g'. let a = (mine i g).0 in let b = (mine j g').0 in omega arith),
      (λ i g. (mine i g).1),
      (λ i g. at_outside h.who s.owner (flags i) (s.places i) i (s.cpus i) g (h.fine i)),
    )
