-- ===== src/Xv6/Log/Ops/Space.antt =====
-- How full the log of xv6/log.c gets while every operation keeps to MAXOPBLOCKS blocks.
use asopracticas.Common.{
  ℕ, suc, ◌+◌, ◌*◌, ◌≤◌, ◌<◌, ◌≡◌, ◌≢◌, sym, ◌∙◌, subst, ap, true, false, some, List, [], ◌∷◌, ◌++◌,
  arith, inl, inr, ◌⊎◌, length, length-append,
}
use asopracticas.Xv6.Log.{Log, Header, logsize, maxopblocks}
use asopracticas.Xv6.Log.Ops.{
  began, begin_op, must_commit, ended, end_op, end_commit, Buffer, enter, log_write,
}

abbrev pub sum : List ℕ → ℕ
sum [] = 0
sum (x ∷ xs) = x + sum xs

sum-append : (xs ys : List ℕ) → sum (xs ++ ys) ≡ sum xs + sum ys
sum-append [] ys = omega arith
sum-append (x ∷ xs) ys = omega (arith, sum-append xs ys)

abbrev pub AllAtMost : ℕ → List ℕ → Type 0
AllAtMost k [] = Unit
AllAtMost k (x ∷ xs) = (x ≤ k) × AllAtMost k xs

sum-le : (k : ℕ) (xs : List ℕ) → AllAtMost k xs → sum xs ≤ length xs * k
sum-le k [] h = omega arith
sum-le k (x ∷ xs) h = omega (arith, sum-le k xs h.1)

-- The log, and for each operation in progress how many blocks it may still write.
pub record System : Type 0 where
  pub log : Log
  pub allowance : List ℕ

pub data Step (s : System) : System → Type 0 where
  begins :
      (l : Log) (t : System)
      → begin_op s.log ≡ began l
      → t ≡ record { log = l; allowance = maxopblocks ∷ s.allowance }
      → Step s t
  writes :
      (before after : List ℕ) (r : ℕ) (b b' : Buffer) (l : Log) (t : System)
      → s.allowance ≡ before ++ (suc r ∷ after)
      → log_write s.log b ≡ some (l, b')
      → t ≡ record { log = l; allowance = before ++ (r ∷ after) }
      → Step s t
  ends :
      (before after : List ℕ) (r : ℕ) (l : Log) (t : System)
      → s.allowance ≡ before ++ (r ∷ after)
      → (end_op s.log ≡ ended l) ⊎ (end_op s.log ≡ must_commit l)
      → t ≡ record { log = l; allowance = before ++ after }
      → Step s t
  commits :
      (t : System)
      → s.log.committing ≡ true
      → t ≡ record { log = end_commit s.log; allowance = s.allowance }
      → Step s t

pub data Reach (s : System) : System → Type 0 where
  here : Reach s s
  next : {t u : System} → Reach s t → Step t u → Reach s u

pub record IsSafe (s : System) : Type 0 where
  pub counted : s.log.outstanding ≡ length s.allowance
  pub space : s.log.lh.n + sum s.allowance ≤ logsize
  pub bounded : AllAtMost maxopblocks s.allowance
  pub quiet : s.log.committing ≡ true → length s.allowance ≡ 0
  pub few : length s.allowance ≤ 3
  -- `nlog` of mkfs.c, which `initlog` takes over
  pub nlog : s.log.size ≡ logsize

pub n-enter : (lh : Header) (b : ℕ) → (enter lh b).n ≤ lh.n + 1
unfolding enter
n-enter lh b = ground arith

begin_op-space :
    (l : Log) {t : Log}
    → l.lh.n ≤ logsize
    → l.outstanding ≤ 3
    → begin_op l ≡ began t
    → (t.lh.n ≡ l.lh.n)
      × (t.outstanding ≡ l.outstanding + 1)
      × (t.committing ≡ false)
      × (t.size ≡ l.size)
      × (l.lh.n + (l.outstanding + 1) * maxopblocks ≤ logsize)
unfolding begin_op
begin_op-space l hn ho e = ground arith

begins-IsSafe :
    (s : System) (l : Log)
    → begin_op s.log ≡ began l
    → IsSafe s
    → IsSafe (record { log = l; allowance = maxopblocks ∷ s.allowance })
begins-IsSafe s l e v =
    let (n, o, c, sz, room) =
      begin_op-space s.log (omega (arith, v.space)) (omega (arith, v.counted, v.few)) e in
    record {
      counted = omega (arith, v.counted);
      space = omega (arith, sum-le maxopblocks s.allowance v.bounded, v.counted);
      bounded = (omega arith, v.bounded);
      quiet = λ h. ground arith;
      few = omega (arith, v.counted);
      nlog = omega (arith, v.nlog);
    }

AllAtMost-append :
    (k : ℕ) (xs ys : List ℕ) → AllAtMost k (xs ++ ys) → AllAtMost k xs × AllAtMost k ys
AllAtMost-append k [] ys h = (tt, h)
AllAtMost-append k (x ∷ xs) ys h = let (hx, hy) = AllAtMost-append k xs ys h.1 in ((h.0, hx), hy)

append-AllAtMost :
    (k : ℕ) (xs ys : List ℕ) → AllAtMost k xs → AllAtMost k ys → AllAtMost k (xs ++ ys)
append-AllAtMost k [] ys hx hy = hy
append-AllAtMost k (x ∷ xs) ys hx hy = (hx.0, append-AllAtMost k xs ys hx.1 hy)

log_write-space :
    (l : Log) (b : Buffer) {t : Log} {b' : Buffer}
    → log_write l b ≡ some (t, b')
    → (t.lh.n ≤ l.lh.n + 1)
      × (t.outstanding ≡ l.outstanding)
      × (t.committing ≡ l.committing)
      × (t.size ≡ l.size)
unfolding log_write
log_write-space l b e = ground (arith, n-enter l.lh b.blockno)

writes-IsSafe :
    (s : System) (before after : List ℕ) (r : ℕ) (b b' : Buffer) (l : Log)
    → s.allowance ≡ before ++ (suc r ∷ after)
    → log_write s.log b ≡ some (l, b')
    → IsSafe s
    → IsSafe (record { log = l; allowance = before ++ (r ∷ after) })
writes-IsSafe s before after r b b' l split e v =
    let (n, o, c, sz) = log_write-space s.log b e in
    let len = ap length split in
    let (hb, ha) =
      AllAtMost-append maxopblocks before (suc r ∷ after)
        (subst (AllAtMost maxopblocks) split v.bounded) in
    let same : length (before ++ (r ∷ after)) ≡ length s.allowance =
      omega (arith, len, length-append before (r ∷ after), length-append before (suc r ∷ after)) in
    record {
      counted = omega (arith, v.counted, same);
      space = omega (
        arith,
        v.space,
        ap sum split,
        sum-append before (r ∷ after),
        sum-append before (suc r ∷ after),
      );
      bounded = append-AllAtMost maxopblocks before (r ∷ after) hb (omega arith, ha.1);
      quiet = λ h. omega (arith, v.quiet (sym c ∙ h), same);
      few = omega (arith, v.few, same);
      nlog = omega (arith, v.nlog);
    }

end_op-space :
    (l : Log) {t : Log}
    → l.outstanding < 4
    → l.outstanding ≢ 0
    → (end_op l ≡ ended t) ⊎ (end_op l ≡ must_commit t)
    → (t.lh.n ≡ l.lh.n)
      × (t.outstanding + 1 ≡ l.outstanding)
      × (t.size ≡ l.size)
      × (t.committing ≡ true → t.outstanding ≡ 0)
unfolding end_op
end_op-space l few some_op (inl e) = ground arith
end_op-space l few some_op (inr e) = ground arith

ends-IsSafe :
    (s : System) (before after : List ℕ) (r : ℕ) (l : Log)
    → s.allowance ≡ before ++ (r ∷ after)
    → (end_op s.log ≡ ended l) ⊎ (end_op s.log ≡ must_commit l)
    → IsSafe s
    → IsSafe (record { log = l; allowance = before ++ after })
ends-IsSafe s before after r l split e v =
    let len = ap length split in
    let fewer : length (before ++ after) + 1 ≡ length s.allowance =
      omega (arith, len, length-append before (r ∷ after), length-append before after) in
    let (n, o, sz, last) =
      end_op-space s.log (omega (arith, v.counted, v.few)) (omega (arith, v.counted, fewer)) e in
    let (hb, ha) =
      AllAtMost-append maxopblocks before (r ∷ after)
        (subst (AllAtMost maxopblocks) split v.bounded) in
    record {
      counted = omega (arith, v.counted, fewer);
      space =
          omega
            (arith, v.space, ap sum split, sum-append before (r ∷ after), sum-append before after);
      bounded = append-AllAtMost maxopblocks before after hb ha.1;
      quiet = λ h. omega (arith, last h, v.counted, fewer);
      few = omega (arith, v.few, fewer);
      nlog = omega (arith, v.nlog);
    }

commits-IsSafe :
    (s : System) → IsSafe s → IsSafe (record { log = end_commit s.log; allowance = s.allowance })
unfolding end_commit
commits-IsSafe s v = record {
  counted = v.counted;
  space = omega (arith, v.space);
  bounded = v.bounded;
  quiet = λ h. cc;
  few = v.few;
  nlog = v.nlog;
}

Step-IsSafe : {s t : System} → Step s t → IsSafe s → IsSafe t
Step-IsSafe {s} (begins l t e q) v = rw q (begins-IsSafe s l e v)
Step-IsSafe {s} (writes before after r b b' l t split e q) v =
    rw q (writes-IsSafe s before after r b b' l split e v)
Step-IsSafe {s} (ends before after r l t split e q) v =
    rw q (ends-IsSafe s before after r l split e v)
Step-IsSafe {s} (commits t c q) v = rw q (commits-IsSafe s v)

pub Reach-IsSafe : {s t : System} → IsSafe s → Reach s t → IsSafe t
Reach-IsSafe v here = v
Reach-IsSafe v (next r st) = Step-IsSafe st (Reach-IsSafe v r)
