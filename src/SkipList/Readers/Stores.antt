-- ===== src/SkipList/Readers/Stores.antt =====
-- The single stores of the loop of Insert of leveldb/db/skiplist.h, beside a reader.
use leveldb_study.Base.{
  ℕ, zero, suc, ◌+◌, ◌<◌, ◌≤◌, ◌≡◌, ◌≢◌, refl, sym, true, false, Option, some, List, Ordering, ◌==◌,
  All, length, arith, Bool-cases, inl, inr, ◌∙◌, some_inj, subst, ap, update,
}
use leveldb_study.Order.{IsOrder}
use leveldb_study.SkipList.{SkipList, head, limit, is_eq, load, store, link_node}
use leveldb_study.SkipList.Chain.{last_below}
use leveldb_study.SkipList.Insertion.{Linked, link_node-Linked}
use leveldb_study.SkipList.Splice.{prev-fits}
use leveldb_study.SkipList.Valid.{IsValid}
use leveldb_study.SkipList.Readers.{Reader, Writer, Beside, Turn, write_store, take_turn}
use leveldb_study.SkipList.Readers.Behind.{All-has}
use leveldb_study.SkipList.Readers.Stands.{rest_of, Stands}
use leveldb_study.SkipList.Readers.Shape.{seen, IsReadable-agree, Linked-IsReadable}
use leveldb_study.SkipList.Readers.Rounds.{link_node-last}
use leveldb_study.SkipList.Readers.Turns.{
  has-place, length-place-le, length-after-place, mh, alloc, nodes, extra, IsReading, IsBeside,
}

store-some :
    {K R : Type 0} (s : SkipList K R) (x level : ℕ) (n : Option ℕ)
    → level < s.height x
    → store s x level n ≡ some (record s { next = update s.next x (update (s.next x) level n) })
unfolding store
store-some s x level n h = ground arith

load-some :
    {K R : Type 0} (s : SkipList K R) (x level : ℕ)
    → level < s.height x
    → load s x level ≡ some (s.next x level)
unfolding load
load-some s x level h = ground arith

module _ {K R : Type 0} {cmp : K → K → Ordering} (o : IsOrder cmp) (kr k : K) (s : SkipList K R)
    (xs : List ℕ) (v : IsValid cmp s xs) (height : ℕ) (low : 0 < height) (high : height ≤ limit)
    (prev : ℕ → ℕ) (at : (i : ℕ) → i < height → prev i ≡ last_below s cmp k i head xs)
    (new : All (λ y. is_eq (cmp k (s.key y)) ≡ false) xs) where
  abbrev the_alloc : SkipList K R
  the_alloc = alloc o kr k s xs v height low high prev at new

  abbrev IsAt : ℕ → ℕ → Beside K R → Type 0
  IsAt = IsBeside o kr k s xs v height low high prev at new

  fits :
      (i : ℕ)
      → i < height
      → (i < the_alloc.height s.fresh) × (i < the_alloc.height (prev i)) × (prev i ≢ s.fresh)
  fits i lt = prev-fits o k s xs v height low high prev i (at i lt) lt

  pub linked :
      (j : ℕ) (t : SkipList K R)
      → j ≤ height
      → link_node prev s.fresh 0 j the_alloc ≡ some t
      → Linked prev s.fresh 0 j the_alloc t
  linked j t le e =
      let (t', e', l) =
        link_node-Linked prev s.fresh j 0 the_alloc (λ i _ lt. fits i (omega arith)) in
      subst (λ u. Linked prev s.fresh 0 j the_alloc u) (some_inj (sym e' ∙ e)) l

  -- The link of the new node on a level, which no reader sees.
  abbrev filled : ℕ → SkipList K R → SkipList K R
  filled j t = record t {
    next = update t.next s.fresh (update (t.next s.fresh) j (t.next (prev j) j));
  }

  fill_store :
      (j n : ℕ) (b : Beside K R)
      → IsAt j n b
      → j < height
      → link_node prev s.fresh 0 j the_alloc ≡ some b.list
      → (write_store prev s.fresh height b.list (Writer.fill j)
          ≡ some (filled j b.list, Writer.publish j))
        × IsAt j n (record b { list = filled j b.list; writer = Writer.publish j })
  unfolding write_store
  fill_store j n b i lt e =
      let (own, other, apart) = fits j lt in
      let h1 : j < b.list.height (prev j) =
        omega (arith, ap (λ (h : ℕ → ℕ). h (prev j)) i.same_height) in
      let h2 : j < b.list.height s.fresh =
        omega (arith, ap (λ (h : ℕ → ℕ). h s.fresh) i.same_height) in
      let more : (j == height) ≡ false = ground arith in
      let stored = store-some b.list s.fresh j (b.list.next (prev j) j) h2 in
      (
        rw (more, load-some b.list (prev j) j h1, stored) refl,
        record {
          within = i.within;
          writing = (refl, lt, (b.list, e, stored));
          reading = i.reading;
          readable =
              IsReadable-agree o kr (seen b.list s.fresh j) (seen (filled j b.list) s.fresh j) _
                refl refl (λ a m h. ground arith) i.readable;
          same_key = i.same_key;
          same_height = i.same_height;
        },
      )

  abbrev published : ℕ → SkipList K R → SkipList K R
  published j t = record t {
    next = update t.next (prev j) (update (t.next (prev j)) j (some s.fresh));
  }

  Stands-grow :
      (j x level : ℕ) (t u : SkipList K R)
      → u.key ≡ t.key
      → u.height ≡ t.height
      → let L = nodes o kr k s xs v height low high prev at new in
        Stands (seen t s.fresh j) cmp o kr (L j) level x
        → Stands (seen u s.fresh (suc j)) cmp o kr (L (suc j)) level x
  Stands-grow j x level t u key h (inl st) = inl st
  Stands-grow zero x level t u key h (inr (there, b, lt)) =
      inr
        (has-place s cmp k s.fresh x xs there, rw key b, ground (arith, ap (λ (g : ℕ → ℕ). g x) h))
  Stands-grow (suc j) x level t u key h (inr (there, b, lt)) =
      inr (there, rw key b, ground (arith, ap (λ (g : ℕ → ℕ). g x) h))

  rest-grow :
      (j x level : ℕ) (t : SkipList K R)
      → let L = nodes o kr k s xs v height low high prev at new in
        Stands (seen t s.fresh j) cmp o kr (L j) level x
        → length (rest_of (seen t s.fresh (suc j)) cmp o kr (L (suc j)) x)
            + extra o kr k s xs v height low high prev at new (suc j)
          ≤ length (rest_of (seen t s.fresh j) cmp o kr (L j) x)
            + extra o kr k s xs v height low high prev at new j
  rest-grow (suc j) x level t st = omega arith
  rest-grow zero x level t (inl (top, _)) = ground (arith, length-place-le s cmp k s.fresh xs)
  rest-grow zero x level t (inr (there, _, _)) =
      let apart : s.fresh ≢ x = All-has (λ a. s.fresh ≢ a) x xs there v.old in
      ground (
        arith,
        length-place-le s cmp k s.fresh xs,
        length-after-place s cmp k s.fresh x xs apart there,
      )

  publish_linked :
      (j : ℕ) (t' t : SkipList K R)
      → j < height
      → link_node prev s.fresh 0 j the_alloc ≡ some t'
      → j < t'.height (prev j)
      → store t' s.fresh j (t'.next (prev j) j) ≡ some t
      → store t (prev j) j (some s.fresh) ≡ some (published j t)
      → link_node prev s.fresh 0 (suc j) the_alloc ≡ some (published j t)
  publish_linked j t' t lt e h filled_eq published_eq =
      link_node-last prev s.fresh j 0 the_alloc
      ∙ rw (e, zero_add j, load-some t' (prev j) j h, filled_eq) published_eq
    where
      zero_add : (i : ℕ) → 0 + i ≡ i
      zero_add i = omega arith

  reading-grow :
      (j n : ℕ) (t u : SkipList K R) (r : Reader)
      → u.key ≡ t.key
      → u.height ≡ t.height
      → IsReading o kr k s xs v height low high prev at new t j n r
      → IsReading o kr k s xs v height low high prev at new u (suc j) n r
  reading-grow j n t u (Reader.found a) key h is = is
  reading-grow j n t u (Reader.at level x) key h (st, less) =
      (Stands-grow j x level t u key h st, omega (arith, rest-grow j x level t st))

  -- The store that puts the new node behind its predecessor on a level.
  publish_store :
      (j n : ℕ) (b : Beside K R) (t' : SkipList K R)
      → IsAt j n b
      → j < height
      → link_node prev s.fresh 0 j the_alloc ≡ some t'
      → store t' s.fresh j (t'.next (prev j) j) ≡ some b.list
      → (write_store prev s.fresh height b.list (Writer.publish j)
          ≡ some (published j b.list, Writer.fill (j + 1)))
        × IsAt (suc j) n (record b { list = published j b.list; writer = Writer.fill (j + 1) })
  unfolding write_store
  publish_store j n b t' i lt e filled_eq =
      let (own, other, apart) = fits j lt in
      let l = linked j t' i.within e in
      let h1 : j < t'.height (prev j) =
        omega (arith, ap (λ (h : ℕ → ℕ). h (prev j)) l.same_height) in
      let h2 : j < b.list.height (prev j) =
        omega (arith, ap (λ (h : ℕ → ℕ). h (prev j)) i.same_height) in
      let stored = store-some b.list (prev j) j (some s.fresh) h2 in
      let e' = publish_linked j t' b.list lt e h1 filled_eq stored in
      let l' = linked (suc j) (published j b.list) lt e' in
      (
        rw stored refl,
        record {
          within = lt;
          writing = (omega arith, e');
          reading = reading-grow j n b.list (published j b.list) b.reader refl refl i.reading;
          readable =
              Linked-IsReadable o kr k s xs v height (mh o kr k s xs v height low high prev at new)
                prev at new (suc j) (published j b.list) lt high l';
          same_key = i.same_key;
          same_height = i.same_height;
        },
      )

  -- Behind the loop.
  idle_store :
      (j n : ℕ) (b : Beside K R)
      → IsAt j n b
      → (j == height) ≡ true
      → link_node prev s.fresh 0 j the_alloc ≡ some b.list
      → (write_store prev s.fresh height b.list (Writer.fill j) ≡ some (b.list, Writer.fill j))
        × IsAt j n (record b { writer = Writer.fill j })
  unfolding write_store
  idle_store j n b i ends e = (
    rw ends refl,
    record {
      within = i.within;
      writing = (refl, e);
      reading = i.reading;
      readable = i.readable;
      same_key = i.same_key;
      same_height = i.same_height;
    },
  )

  pub write_turn :
      (j n : ℕ) (b : Beside K R)
      → IsAt j n b
      → (w : Writer) → b.writer ≡ w
      → (j' : ℕ) × (b' : Beside K R) × (take_turn cmp kr prev s.fresh height Turn.write b ≡ some b')
        × IsAt j' n b'
  unfolding take_turn
  write_turn j n b i (Writer.fill m) e =
      let (same, done) = rw e at i.writing in
      let here : b.writer ≡ Writer.fill j = e ∙ ap Writer.fill same in
      elim (Bool-cases (j == height)) [
        | inl ends ↦
            let (stored, is) = idle_store j n b i ends done in (j, _, rw (here, stored) refl, is)
        | inr more ↦
            let lt : j < height = ground (arith, i.within) in
            let (stored, is) = fill_store j n b i lt done in (j, _, rw (here, stored) refl, is)
      ]
  write_turn j n b i (Writer.publish m) e =
      let (same, lt, (t', done, filled_eq)) = rw e at i.writing in
      let here : b.writer ≡ Writer.publish j = e ∙ ap Writer.publish same in
      let (stored, is) = publish_store j n b t' i lt done filled_eq in
      (suc j, _, rw (here, stored) refl, is)
