-- ===== src/Xv6/Bio/PutBack.antt =====
-- A buffer of the cache changed in its place, for the caller of `bread` of xv6/bio.c.
use asopracticas.Common.{
  ℕ, ◌≡◌, ◌≢◌, refl, sym, ◌∙◌, inl, inr, true, false, List, ◌∷◌, ◌++◌, ◌==◌, Bool-cases, ==→eq,
  ==→ne,
}
use asopracticas.Xv6.Log.{Disk}
use asopracticas.Xv6.Bio.{Buf, Cache, is_for}
use asopracticas.Xv6.Bio.Split.{Each, Each-append, Each-split, Each-map}
use asopracticas.Xv6.Bio.View.{
  view, view_in, view_in_ext, view_in_skip, YieldsTo, IsSynced, IsSound, is_for_ne, is_for_here,
  is_for_other, IsClear-replace,
}

-- What the caller gets: a buffer in use with the bytes of block `b`, in a sound cache that stands
-- for the same blocks as before.
pub record Serves (b : ℕ) (c : Cache) (x : Buf) (c' : Cache) : Type 0 where
  pub content : x.content ≡ view c b
  pub valid : x.valid ≡ true
  pub place : (x.dev ≡ 1) × (x.blockno ≡ b)
  pub used : x.refcnt ≢ 0
  pub same : (b' : ℕ) → view c' b' ≡ view c b'
  pub sound : IsSound c'

module _ (b : ℕ) (disk : Disk) (before : List Buf) (x : Buf) (behind : List Buf)
    (s : IsSound (record { bufs = before ++ x ∷ behind; disk = disk })) where
  -- A used buffer for block `b` put into the place of `x`.
  pub put_back :
      (x' : Buf)
      → Each (λ y. is_for 1 b y ≡ false) before
      → Each (YieldsTo x') behind
      → ((b' : ℕ) → b' ≢ b → view_in disk (x ∷ behind) b' ≡ view_in disk behind b')
      → x'.content ≡ view_in disk (before ++ x ∷ behind) b
      → x'.valid ≡ true
      → x'.dev ≡ 1
      → x'.blockno ≡ b
      → x'.refcnt ≢ 0
      → Serves b
          (record { bufs = before ++ x ∷ behind; disk = disk })
          x'
          (record { bufs = before ++ x' ∷ behind; disk = disk })
  put_back x' fresh yields old content valid dev blockno used =
      let here : is_for 1 b x' ≡ true = is_for_here 1 b x' dev blockno in
      let (sb, (_, sa)) = Each-split (IsSynced disk) before (x ∷ behind) s.synced in
      let (rb, (_, ra)) =
        Each-split (λ y. y.dirty ≡ true → y.valid ≡ true) before (x ∷ behind) s.read_before in
      let shown : view_in disk (before ++ x' ∷ behind) b ≡ x'.content =
        view_in_skip disk b before (x' ∷ behind) fresh ∙ rw (here, valid) refl in
      record {
        content = content;
        valid = valid;
        place = (dev, blockno);
        used = used;
        same = λ b'. elim (Bool-cases (b' == b)) [
          | inl same ↦ rw (==→eq b' b same) (shown ∙ content)
          | inr other ↦
              let ne : b' ≢ b = ==→ne b' b other in
              let passed : is_for 1 b' x' ≡ false =
                is_for_other 1 b' x' (λ e. ne (sym e ∙ blockno)) in
              view_in_ext disk b' before (x' ∷ behind) (x ∷ behind) (rw passed (sym (old b' ne)))
        ];
        sound = record {
          clear =
              IsClear-replace before x x' behind s.clear
                (Each-map (λ y. is_for 1 b y ≡ false) (λ y. YieldsTo y x') before
                  (λ y h e e'. absurd (is_for_ne 1 b y h (e ∙ dev) (e' ∙ blockno))) fresh)
                yields;
          synced =
              Each-append (IsSynced disk) before (x' ∷ behind) sb
                ((λ _ unused. absurd (used unused)), sa);
          read_before =
              Each-append (λ y. y.dirty ≡ true → y.valid ≡ true) before (x' ∷ behind) rb
                ((λ _. valid), ra);
        };
      }
