-- ===== src/Xv6/Proc/Searches.antt =====
-- What the searches of xv6/proc.c through the process table find.
use asopracticas.Common.{
  ℕ, zero, suc, ◌+◌, ◌≤◌, ◌<◌, ◌≡◌, ◌≢◌, refl, ap, inl, inr, ◌⊎◌, Bool, true, false, ◌&&◌, ◌||◌,
  none, some, ◌==◌, and_parts, subst, Bool-cases, ==→eq, ==→ne, ==_refl, arith,
}
use asopracticas.Xv6.Proc.{
  ProcState, unused, embryo, sleeping, runnable, running, zombie, Table, put, find_unused,
  scan_from, found, kids, kill_from, mark_killed, is_unused, is_zombie,
}

-- The search of `allocproc`.
pub find_unused_lem :
    (k i : ℕ) (t : Table)
    → ((find_unused k i t ≡ none) × ((j : ℕ) → i ≤ j → j < i + k → is_unused (t j).state ≡ false))
      ⊎ ((j : ℕ) × (find_unused k i t ≡ some j)
          × (i ≤ j)
          × (j < i + k)
          × (is_unused (t j).state ≡ true)
          × ((l : ℕ) → i ≤ l → l < j → is_unused (t l).state ≡ false))
unfolding find_unused
find_unused_lem zero i t = inl (refl, λ j h h'. absurd (omega arith))
find_unused_lem (suc k) i t = elim (Bool-cases (is_unused (t i).state)) [
  | inl free ↦ inr (
    i,
    rw (find_unused, free) refl,
    omega arith,
    omega arith,
    free,
    λ l h h'. absurd (omega arith),
  )
  | inr used ↦
      let past : (l : ℕ) → i ≤ l → l ≢ i → i + 1 ≤ l = λ l h ne. omega arith in
      elim (find_unused_lem k (i + 1) t) [
        | inl (e, busy) ↦ inl (
          rw (find_unused, used, e) refl,
          λ j h h'. elim (Bool-cases (j == i)) [
            | inl same ↦ rw (==→eq j i same) used
            | inr other ↦ busy j (past j h (==→ne j i other)) (omega arith)
          ],
        )
        | inr (j, e, low, high, free, busy) ↦ inr (
          j,
          rw (find_unused, used, e) refl,
          omega arith,
          omega arith,
          free,
          λ l h h'. elim (Bool-cases (l == i)) [
            | inl same ↦ rw (==→eq l i same) used
            | inr other ↦ busy l (past l h (==→ne l i other)) h'
          ],
        )
      ]
]

-- The search of `kill`: the first slot with that pid.
pub kill_from_lem :
    (k i pid : ℕ) (t : Table)
    → ((kill_from k i pid t ≡ none) × ((j : ℕ) → i ≤ j → j < i + k → (t j).pid ≢ pid))
      ⊎ ((j : ℕ) × (kill_from k i pid t ≡ some (put t j (mark_killed (t j))))
          × (i ≤ j)
          × (j < i + k)
          × ((t j).pid ≡ pid)
          × ((l : ℕ) → i ≤ l → l < j → (t l).pid ≢ pid))
unfolding kill_from
kill_from_lem zero i pid t = inl (refl, λ j h h'. absurd (omega arith))
kill_from_lem (suc k) i pid t = elim (Bool-cases ((t i).pid == pid)) [
  | inl here ↦ inr (
    i,
    rw (kill_from, here) refl,
    omega arith,
    omega arith,
    ==→eq _ _ here,
    λ l h h'. absurd (omega arith),
  )
  | inr other ↦
      let past : (l : ℕ) → i ≤ l → l ≢ i → i + 1 ≤ l = λ l h ne. omega arith in
      elim (kill_from_lem k (i + 1) pid t) [
        | inl (e, absent) ↦ inl (
          rw (kill_from, other, e) refl,
          λ j h h'. elim (Bool-cases (j == i)) [
            | inl same ↦ rw (==→eq j i same) (==→ne _ _ other)
            | inr ne ↦ absent j (past j h (==→ne j i ne)) (omega arith)
          ],
        )
        | inr (j, e, low, high, hit, before) ↦ inr (
          j,
          rw (kill_from, other, e) refl,
          omega arith,
          omega arith,
          hit,
          λ l h h'. elim (Bool-cases (l == i)) [
            | inl same ↦ rw (==→eq l i same) (==→ne _ _ other)
            | inr ne ↦ before l (past l h (==→ne l i ne)) h'
          ],
        )
      ]
]

pub zombie_of : (st : ProcState) → is_zombie st ≡ true → st ≡ zombie
zombie_of zombie h = refl
zombie_of unused h = cc
zombie_of embryo h = cc
zombie_of sleeping h = cc
zombie_of runnable h = cc
zombie_of running h = cc

either : (a : Bool) → a || true ≡ true
either true = refl
either false = refl

-- The scan of `wait`: a dead child, or none.
pub scan_from_lem :
    (k i cur : ℕ) (b : Bool) (t : Table)
    → ((j : ℕ) × (scan_from k i cur b t ≡ found j)
        × (i ≤ j)
        × (j < i + k)
        × ((t j).parent ≡ cur)
        × ((t j).state ≡ zombie))
      ⊎ ((b' : Bool) × (scan_from k i cur b t ≡ kids b')
          × ((j : ℕ)
              → i ≤ j
              → j < i + k
              → (t j).parent ≡ cur
              → ((t j).state ≢ zombie) × (b' ≡ true))
          × (b ≡ true → b' ≡ true))
unfolding scan_from
scan_from_lem zero i cur b t = inr (b, refl, (λ j h h'. absurd (omega arith)), λ h. h)
scan_from_lem (suc k) i cur b t =
    let mine = (t i).parent == cur in
    elim (Bool-cases (mine && is_zombie (t i).state)) [
      | inl hit ↦
          let (own, dead) = and_parts mine (is_zombie (t i).state) hit in
          inl
            (i, rw (scan_from, hit) refl, omega arith, omega arith, ==→eq _ _ own, zombie_of _ dead)
      | inr miss ↦ elim (scan_from_lem k (i + 1) cur (mine || b) t) [
        | inl (j, e, low, high, own, dead) ↦
            inl (j, rw (scan_from, miss, e) refl, omega arith, omega arith, own, dead)
        | inr (b', e, none_dead, more) ↦ inr (
          b',
          rw (scan_from, miss, e) refl,
          (λ j h h' own. elim (Bool-cases (j == i)) [
            | inl same ↦
                let z_of : (t j).state ≡ zombie → (t i).state ≡ zombie =
                  subst (λ x. (t x).state ≡ zombie) (==→eq j i same) in
                let own' : (t i).parent ≡ cur =
                  subst (λ x. (t x).parent ≡ cur) (==→eq j i same) own in
                let owned : mine ≡ true = rw own' (==_refl cur) in
                let dead : (t j).state ≡ zombie → is_zombie (t i).state ≡ true =
                  λ z. ap is_zombie (z_of z) in
                (
                  (λ z. let d = dead z in absurd (ground (arith, miss, owned, d))),
                  more (rw owned refl),
                )
            | inr other ↦ none_dead j (omega (arith, ==→ne j i other)) (omega arith) own
          ]),
          (λ h. more (rw h (either mine))),
        )
      ]
    ]
