-- ===== src/Table/Blocks.antt =====
-- Table::BlockReader of leveldb/table/table.cc: the block cache shows what the file holds.
use leveldb_study.Base.{
  ℕ, ◌+◌, ◌^◌, ◌<◌, ◌≡◌, refl, sym, ◌∙◌, Bool, true, false, ◌&&◌, some, List, [], ◌∷◌, ◌++◌, length,
  arith, Bool-cases, Option-cases, inl, inr,
}
use leveldb_study.Status.{Status, Bytes}
use leveldb_study.Options.{ReadOptions}
use leveldb_study.Cache.{Cache, IsCache}
use leveldb_study.Table.{BlockHandle, TableFormat, TableRep}
use leveldb_study.Table.Reader.{
  cache_key, fill, through_cache, directly, iterator_of, block_reader, Cleanup, delete_block,
  release_block, BlockIterator, over, error,
}

append-injective :
    {A : Type 0} (xs xs' ys ys' : List A)
    → length xs ≡ length xs'
    → xs ++ ys ≡ xs' ++ ys'
    → (xs ≡ xs') × (ys ≡ ys')
append-injective [] [] ys ys' h e = (refl, e)
append-injective [] (x ∷ xs') ys ys' h e = absurd (omega (arith, h))
append-injective (x ∷ xs) [] ys ys' h e = absurd (omega (arith, h))
append-injective (x ∷ xs) (x' ∷ xs') ys ys' h e =
    let rest = append-injective xs xs' ys ys' (omega (arith, h)) cc in (cc, rest.1)

-- EncodeFixed64 writes eight bytes, which tell numbers of 64 bits apart.
pub record IsFixed64 (encode : ℕ → Bytes) : Type 0 where
  pub eight : (n : ℕ) → length (encode n) ≡ 8
  pub injective : (a b : ℕ) → a < 2 ^ 64 → b < 2 ^ 64 → encode a ≡ encode b → a ≡ b

module _ (x : TableFormat) (is_ok : Status → Bool) (c : Cache x.Block) (k : IsCache c)
    (fixed : IsFixed64 x.encode_fixed64) where
  cache_key-injective :
      (id id' offset offset' : ℕ)
      → id < 2 ^ 64
      → id' < 2 ^ 64
      → offset < 2 ^ 64
      → offset' < 2 ^ 64
      → cache_key x is_ok c id offset ≡ cache_key x is_ok c id' offset'
      → (id ≡ id') × (offset ≡ offset')
  unfolding cache_key
  cache_key-injective id id' offset offset' h h' o o' e =
      let (p, q) =
        append-injective (x.encode_fixed64 id) (x.encode_fixed64 id') (x.encode_fixed64 offset)
          (x.encode_fixed64 offset') (fixed.eight id ∙ sym (fixed.eight id')) e in
      (fixed.injective id id' h h' p, fixed.injective offset offset' o o' q)

  -- How many handles of the cache an iterator has to release.
  abbrev pub held : BlockIterator x.Block c.Handle → ℕ
  held (over block delete_block) = 0
  held (over block (release_block h)) = 1
  held (error s) = 0

  module _ (content : ℕ → ℕ → x.Block) where
    -- Every block in the cache is the block of its table, by the table's id in the cache, at its
    -- offset.
    unfoldable pub Coherent : c.State → Type 0
    Coherent s =
        (id offset : ℕ) (b : x.Block)
        → id < 2 ^ 64
        → offset < 2 ^ 64
        → k.contents s (cache_key x is_ok c id offset) ≡ some b
        → b ≡ content id offset

    -- An iterator over the table's block at an offset, or an error that is not ok.
    pub data Shows (id offset : ℕ) : BlockIterator x.Block c.Handle → Type 0 where
      shows_block :
          {b : x.Block} {cleanup : Cleanup c.Handle}
          → b ≡ content id offset
          → Shows id offset (over b cleanup)
      shows_error : {s : Status} → is_ok s ≡ false → Shows id offset (error s)

    -- A table in a file that does not change: a block of a known extent that can be read is the
    -- table's.
    pub record IsStable (extent : ℕ → ℕ) (rep : TableRep x) : Type 0 where
      pub id_bound : rep.cache_id < 2 ^ 64
      pub read_block-content :
          (options : ReadOptions) (handle : BlockHandle) (w : x.World)
          → handle.size ≡ extent handle.offset
          → is_ok (x.read_block rep.file options handle w).0 ≡ true
          → x.new_block (x.read_block rep.file options handle w).1
            ≡ content rep.cache_id handle.offset

    module _ (extent : ℕ → ℕ) (rep : TableRep x) (stable : IsStable extent rep) where
      insert-Coherent :
          (offset n : ℕ) (b : x.Block) (s : c.State)
          → offset < 2 ^ 64
          → b ≡ content rep.cache_id offset
          → Coherent s
          → Coherent (c.insert (cache_key x is_ok c rep.cache_id offset) b n s).1
      unfolding Coherent
      insert-Coherent offset n b s bound is good id o b' id_bound o_bound there =
          elim (k.insert-contents (cache_key x is_ok c rep.cache_id offset)
            (cache_key x is_ok c id o) b b' n s there) [
              | inl (same_key, same) ↦
                  let (p, q) =
                    cache_key-injective id rep.cache_id o offset id_bound stable.id_bound o_bound
                      bound same_key in
                  rw (same, is, p, q) refl
              | inr before ↦ good id o b' id_bound o_bound before
            ]

      -- What a read of the block at `handle` makes of the cache, and what its iterator shows.
      record Reads (handle : BlockHandle) (s : c.State) (it : BlockIterator x.Block c.Handle)
          (s' : c.State) : Type 0 where
        still : Coherent s'
        shows : Shows rep.cache_id handle.offset it
        pins : k.pins s' ≡ k.pins s + held it

      module _ (options : ReadOptions) (handle : BlockHandle) (w : x.World)
          (in_range : handle.offset < 2 ^ 64) (sized : handle.size ≡ extent handle.offset) where
        fill-Reads :
            (s : c.State)
            → Coherent s
            → let r =
                fill x is_ok c rep options handle
                  (cache_key x is_ok c rep.cache_id handle.offset)
                  s
                  w in
              Reads handle s (iterator_of x is_ok c r.0 r.1) r.2
        unfolding fill iterator_of
        fill-Reads s good =
            let r = x.read_block rep.file options handle w in
            elim (Bool-cases (is_ok r.0)) [
              | inr p ↦ rw p (record { still = good; shows = shows_error p; pins = omega arith })
              | inl p ↦
                  let is = stable.read_block-content options handle w sized p in
                  elim (Bool-cases (r.1.cachable && options.fill_cache)) [
                    | inl q ↦
                        rw (p, q)
                          (record {
                            still = insert-Coherent handle.offset _ _ s in_range is good;
                            shows = shows_block is;
                            pins = k.insert-pins _ _ _ s;
                          })
                    | inr q ↦
                        rw (p, q)
                          (record { still = good; shows = shows_block is; pins = omega arith })
                  ]
            ]

        directly-Reads :
            (s : c.State)
            → Coherent s
            → let r = directly x is_ok c rep options handle s w in
              Reads handle s (iterator_of x is_ok c r.0 r.1) r.2
        unfolding directly iterator_of
        directly-Reads s good =
            elim (Bool-cases (is_ok (x.read_block rep.file options handle w).0)) [
              | inr p ↦ rw p (record { still = good; shows = shows_error p; pins = omega arith })
              | inl p ↦ rw p (record {
                still = good;
                shows = shows_block (stable.read_block-content options handle w sized p);
                pins = omega arith;
              })
            ]

        through_cache-Reads :
            (status : Status) (s : c.State)
            → Coherent s
            → let r = through_cache x is_ok c status rep options handle s w in
              Reads handle s (iterator_of x is_ok c r.0 r.1) r.2
        unfolding through_cache iterator_of cache_key Coherent
        through_cache-Reads status s good =
            let key = cache_key x is_ok c rep.cache_id handle.offset in
            let looked : Coherent (c.lookup key s).1 = λ id o b id_bound o_bound there.
              good id o b id_bound o_bound (k.lookup-contents key _ b s there) in
            elim (Option-cases (c.lookup key s).0) [
              | inl miss ↦
                  let filled = fill-Reads (c.lookup key s).1 looked in
                  rw (through_cache, miss)
                    (record {
                      still = filled.still;
                      shows = filled.shows;
                      pins = omega (arith, filled.pins, k.lookup-pins_none key s miss);
                    })
              | inr (h, hit) ↦
                  rw (through_cache, hit)
                    (record {
                      still = looked;
                      shows = shows_block (
                          good rep.cache_id handle.offset _ stable.id_bound in_range
                            (k.lookup-value key h s hit));
                      pins = k.lookup-pins_some key h s hit;
                    })
            ]

    -- BlockReader on a table in a file that does not change, with or without the block cache: the
    -- iterator is over the table's block at the offset in the index value, or an error that is not
    -- ok; the cache still holds, for every table, only blocks of that table at their offsets; and one
    -- more entry of it is pinned if the iterator has a handle to release. The encoded offset has 64 bits
    -- and the encoded size is that of the block.
    pub block_reader-Coherent :
        (extent : ℕ → ℕ) (rep : TableRep x) (options : ReadOptions) (index_value : Bytes)
        (s : c.State) (w : x.World)
        → IsStable extent rep
        → ((x.decode_handle index_value).1.offset < 2 ^ 64)
        → (x.decode_handle index_value).1.size ≡ extent (x.decode_handle index_value).1.offset
        → Coherent s
        → let r = block_reader x is_ok c rep options index_value s w in
          Coherent r.1
          × Shows rep.cache_id (x.decode_handle index_value).1.offset r.0
          × (k.pins r.1 ≡ k.pins s + held r.0)
    unfolding block_reader
    block_reader-Coherent extent rep options index_value s w stable in_range sized good =
        let d = x.decode_handle index_value in
        elim (Bool-cases (is_ok d.0)) [
          | inr p ↦ rw p (good, shows_error p, omega arith)
          | inl p ↦ elim (Bool-cases rep.options.block_cache) [
            | inl q ↦
                let r =
                  through_cache-Reads extent rep stable options d.1 w in_range sized d.0 s good in
                rw (p, q) (r.still, r.shows, r.pins)
            | inr q ↦
                let r = directly-Reads extent rep stable options d.1 w in_range sized s good in
                rw (p, q) (r.still, r.shows, r.pins)
          ]
        ]
