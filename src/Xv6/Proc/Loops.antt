-- ===== src/Xv6/Proc/Loops.antt =====
-- What the loops of xv6/proc.c over the process table do to each slot.
use asopracticas.Common.{
  ℕ, zero, suc, ◌+◌, ◌≤◌, ◌<◌, ◌≡◌, ◌≢◌, refl, sym, ◌∙◌, ap, inl, inr, ◌⊎◌, true, false, ◌&&◌, not,
  ◌==◌, ltb, ltb→lt, ltb→le, and_parts, subst, if◌then◌else◌, Bool-cases, ==→eq, ==→ne, ne→==,
  ==_refl, arith,
}
use asopracticas.Xv6.Proc.{
  Proc, ProcState, unused, embryo, sleeping, runnable, running, zombie, Table, put, wake,
  slots_from, wakeup1, pass_one, pass_from, is_sleeping, is_zombie, nproc,
}

-- What a change of one slot in a loop may do: it wakes the process or leaves its state.
pub record Kept (p p' : Proc) : Type 0 where
  pub pid : p'.pid ≡ p.pid
  pub chan : p'.chan ≡ p.chan
  pub killed : p'.killed ≡ p.killed
  pub state : (p'.state ≡ p.state) ⊎ ((p.state ≡ sleeping) × (p'.state ≡ runnable))

pub Kept_refl : (p : Proc) → Kept p p
Kept_refl p = record { pid = refl; chan = refl; killed = refl; state = inl refl }

pub Kept_trans : (p q r : Proc) → Kept p q → Kept q r → Kept p r
Kept_trans p q r h h' = record {
  pid = h'.pid ∙ h.pid;
  chan = h'.chan ∙ h.chan;
  killed = h'.killed ∙ h.killed;
  state = ground (arith, h.state, h'.state);
}

-- A process that sleeps or is dead after it was so before.
pub Kept-asleep : (p p' : Proc) → Kept p p' → p'.state ≡ sleeping → p.state ≡ sleeping
Kept-asleep p p' h e = ground (arith, h.state)

pub Kept-dead : (p p' : Proc) → Kept p p' → p.state ≡ zombie → p'.state ≡ zombie
Kept-dead p p' h e = ground (arith, h.state)

pub sleeping_of : (st : ProcState) → is_sleeping st ≡ true → st ≡ sleeping
sleeping_of sleeping h = refl
sleeping_of unused h = cc
sleeping_of embryo h = cc
sleeping_of runnable h = cc
sleeping_of running h = cc
sleeping_of zombie h = cc

slots_from_done :
    (f : Proc → Proc) (k i : ℕ) (t : Table) (j : ℕ)
    → (j < i) ⊎ (i + k ≤ j)
    → slots_from f k i t j ≡ t j
unfolding slots_from
slots_from_done f zero i t j h = refl
slots_from_done f (suc k) i t j h =
    let ne : j == i ≡ false = ne→== _ _ (omega arith) in
    slots_from_done f k (i + 1) (put t i (f (t i))) j (ground arith) ∙ rw ne refl

slots_from_lem :
    (f : Proc → Proc) (k i : ℕ) (t : Table) (j : ℕ)
    → i ≤ j
    → j < i + k
    → slots_from f k i t j ≡ f (t j)
unfolding slots_from
slots_from_lem f zero i t j h h' = absurd (omega arith)
slots_from_lem f (suc k) i t j h h' = elim (Bool-cases (j == i)) [
  | inl same ↦
      slots_from_done f k (i + 1) (put t i (f (t i))) j (inl (omega (arith, ==→eq j i same)))
      ∙ rw (==→eq j i same, ==_refl i) refl
  | inr other ↦
      slots_from_lem f k (i + 1) (put t i (f (t i))) j (omega (arith, ==→ne j i other))
        (omega arith)
      ∙ rw other refl
]

wake-Kept : (chan : ℕ) (p : Proc) → Kept p (wake chan p) × ((wake chan p).parent ≡ p.parent)
unfolding wake
wake-Kept chan p = elim (Bool-cases (is_sleeping p.state && p.chan == chan)) [
  | inl hit ↦
      let asleep : p.state ≡ sleeping =
        sleeping_of p.state (and_parts (is_sleeping p.state) (p.chan == chan) hit).0 in
      rw hit (record { pid = refl; chan = refl; killed = refl; state = inr (asleep, refl) }, refl)
  | inr other ↦ rw other (Kept_refl p, refl)
]

wake_lem : (chan : ℕ) (p : Proc) → (wake chan p).state ≡ sleeping → p.chan ≢ chan
unfolding wake
wake_lem chan p h e = elim (Bool-cases (is_sleeping p.state)) [
  | inl asleep ↦ (let hit : p.chan == chan ≡ true = rw e (==_refl chan) in ground arith)
  | inr awake ↦ ground arith
]

-- `wakeup1`: each slot is woken or left, and no process of the table still sleeps on `chan`.
pub wakeup1_lem :
    (chan : ℕ) (t : Table) (j : ℕ)
    → Kept (t j) (wakeup1 chan t j)
      × ((wakeup1 chan t j).parent ≡ (t j).parent)
      × (j < nproc → (wakeup1 chan t j).state ≡ sleeping → (wakeup1 chan t j).chan ≢ chan)
unfolding wakeup1
wakeup1_lem chan t j = elim (Bool-cases (ltb j nproc)) [
  | inl below ↦
      let e : wakeup1 chan t j ≡ wake chan (t j) =
        slots_from_lem (wake chan) nproc 0 t j (omega arith)
          (omega (arith, ltb→lt j nproc below)) in
      let (kept, parent) = wake-Kept chan (t j) in
      rw e (kept, parent, λ _ h. subst (λ c. c ≢ chan) (sym kept.chan) (wake_lem chan (t j) h))
  | inr above ↦
      let e : wakeup1 chan t j ≡ t j =
        slots_from_done (wake chan) nproc 0 t j (inr (omega (arith, ltb→le j nproc above))) in
      rw e (Kept_refl (t j), refl, λ h. absurd (omega (arith, ltb→le j nproc above)))
]

-- One turn of the loop of `exit` over the children of `cur`.
record PassedOne (i cur init : ℕ) (t t' : Table) : Type 0 where
  kept : (j : ℕ) → Kept (t j) (t' j)
  parent : (j : ℕ) → (t' j).parent ≡ (if j == i && (t j).parent == cur then init else (t j).parent)
  woken :
      (t i).state ≡ zombie
      → (t i).parent ≡ cur
      → (q : ℕ) → q < nproc
      → (t' q).state ≡ sleeping
      → (t' q).chan ≢ init

adopted_parent :
    (i cur init : ℕ) (t : Table) (j : ℕ)
    → (t i).parent ≡ cur
    → (put t i (record (t i) { parent = init }) j).parent
      ≡ (if j == i && (t j).parent == cur then init else (t j).parent)
adopted_parent i cur init t j mine = elim (Bool-cases (j == i)) [
  | inl same ↦ rw (same, ==→eq j i same, mine, ==_refl cur) refl
  | inr other ↦ rw other refl
]

adopted-PassedOne :
    (i cur init : ℕ) (t t' : Table)
    → (t i).parent ≡ cur
    → ((j : ℕ) → Kept (put t i (record (t i) { parent = init }) j) (t' j))
    → ((j : ℕ) → (t' j).parent ≡ (put t i (record (t i) { parent = init }) j).parent)
    → ((t i).state ≡ zombie → (q : ℕ) → q < nproc → (t' q).state ≡ sleeping → (t' q).chan ≢ init)
    → PassedOne i cur init t t'
adopted-PassedOne i cur init t t' mine kept parent woken = record {
  kept = λ j. elim (Bool-cases (j == i)) [
    | inl same ↦
        let e : j ≡ i = ==→eq j i same in
        let k : Kept (record (t i) { parent = init }) (t' i) = rw (==_refl i) at (kept i) in
        let here : Kept (t i) (t' i) = record {
          pid = k.pid;
          chan = k.chan;
          killed = k.killed;
          state = k.state;
        } in
        subst (λ x. Kept (t x) (t' x)) (sym e) here
    | inr other ↦ rw other at (kept j)
  ];
  parent = λ j. parent j ∙ adopted_parent i cur init t j mine;
  woken = λ z _. woken z;
}

pass_one-PassedOne : (i cur init : ℕ) (t : Table) → PassedOne i cur init t (pass_one i cur init t)
unfolding pass_one
pass_one-PassedOne i cur init t = elim (Bool-cases ((t i).parent == cur)) [
  | inr other ↦ rw other record {
    kept = λ j. Kept_refl (t j);
    parent = λ j. ground (arith, ==→ne (t i).parent cur other);
    woken = λ z e. absurd (==→ne _ _ other e);
  }
  | inl mine ↦
      let t1 : Table = put t i (record (t i) { parent = init }) in
      elim (Bool-cases (is_zombie (t i).state)) [
        | inl dead ↦
            rw (mine, dead)
              (adopted-PassedOne i cur init t (wakeup1 init t1) (==→eq _ _ mine)
                (λ j. (wakeup1_lem init t1 j).0) (λ j. (wakeup1_lem init t1 j).1)
                (λ _ q. (wakeup1_lem init t1 q).2))
        | inr live ↦
            rw (mine, live)
              (adopted-PassedOne i cur init t t1 (==→eq _ _ mine) (λ j. Kept_refl (t1 j))
                (λ j. refl)
                (λ z.
                  (let dead : is_zombie (t i).state ≡ true = ap is_zombie z in
                    absurd (ground (arith, dead, live)))))
      ]
]

-- The loop of `exit` over the children of `cur`.
pub record Passed (k i cur init : ℕ) (t t' : Table) : Type 0 where
  pub kept : (j : ℕ) → Kept (t j) (t' j)
  pub parent :
      (j : ℕ)
      → (t' j).parent
        ≡ (if ltb j (i + k) && not (ltb j i) && (t j).parent == cur then init else (t j).parent)
  pub woken :
      (j : ℕ)
      → i ≤ j
      → j < i + k
      → (t j).state ≡ zombie
      → (t j).parent ≡ cur
      → (q : ℕ) → q < nproc
      → (t' q).state ≡ sleeping
      → (t' q).chan ≢ init

pub pass_from-Passed :
    (k i cur init : ℕ) (t : Table) → Passed k i cur init t (pass_from k i cur init t)
unfolding pass_from
pass_from-Passed zero i cur init t = record {
  kept = λ j. Kept_refl (t j);
  parent = λ j. ground arith;
  woken = λ j h h'. absurd (omega arith);
}
pass_from-Passed (suc k) i cur init t =
    let t1 = pass_one i cur init t in
    let one = pass_one-PassedOne i cur init t in
    let rest = pass_from-Passed k (i + 1) cur init t1 in
    record {
      kept = λ j. Kept_trans (t j) (t1 j) _ (one.kept j) (rest.kept j);
      parent = λ j. ground (arith, one.parent j, rest.parent j);
      woken = λ j h h' z e. elim (Bool-cases (j == i)) [
        | inl same ↦ λ q hq asleep.
            let kept = rest.kept q in
            let z' : (t i).state ≡ zombie = subst (λ x. (t x).state ≡ zombie) (==→eq j i same) z in
            let e' : (t i).parent ≡ cur = subst (λ x. (t x).parent ≡ cur) (==→eq j i same) e in
            subst (λ c. c ≢ init) (sym kept.chan)
              (one.woken z' e' q hq (Kept-asleep (t1 q) _ kept asleep))
        | inr other ↦
            let parent' : (t1 j).parent ≡ (t j).parent = rw other at (one.parent j) in
            rest.woken j (omega (arith, ==→ne j i other)) (omega arith)
              (Kept-dead (t j) (t1 j) (one.kept j) z) (parent' ∙ e)
      ];
    }
