-- ===== src/TableCache/Gets.antt =====
-- Get of leveldb/db/table_cache.cc: its answer, and the handle that it releases.
use leveldb_study.Base.{◌>>=◌, ℕ, ◌^◌, ◌<◌, ◌≡◌, refl, Bool, false, Option, some, arith}
use leveldb_study.Status.{Status, Bytes}
use leveldb_study.Options.{ReadOptions}
use leveldb_study.Cache.{Cache, IsCache}
use leveldb_study.Table.{TableFormat, TableRep}
use leveldb_study.Table.Opening.{Fits}
use leveldb_study.Table.Blocks.{IsFixed64}
use leveldb_study.TableCache.{
  TableAndFile, TableCalls, TableCache, Session, get_from, after_find, get,
}
use leveldb_study.TableCache.Find.{
  IsFileTest, Holds, Coherent, Found, table_found, table_missing, find_table-Found,
}

module _ (x : TableFormat) (blocks : Cache x.Block) (tables : Cache (TableAndFile x)) {Arg : Type 0}
    (t : TableCalls x blocks Arg) (is_ok : Status → Bool) where
  abbrev At : Type 0
  At = Session x blocks tables t is_ok

  module _ (test : IsFileTest x blocks tables t is_ok) (k : IsCache tables)
      (fixed : IsFixed64 x.encode_fixed64) (c : TableCache) where
    -- What Get answers: what InternalGet gives on a table of a file of that number, or an error of
    -- FindTable with the argument as it was. No handle is left.
    pub data Got (options : ReadOptions) (number : ℕ) (key : Bytes)
        (handle_result : Arg → Bytes → Bytes → Arg) (arg : Arg) (before : tables.State)
        : Option (Status × Arg × At) → Type 0 where
      answered :
          {tf : TableAndFile x} {rep : TableRep x} {σ' : At} {s : Status} {arg' : Arg}
          (b : blocks.State) (w : x.World)
          → Holds x blocks tables t is_ok c number tf
          → tf.table ≡ some rep
          → t.internal_get rep options key handle_result arg b w
            ≡ (s, arg', σ'.block_cache, σ'.world)
          → Coherent x blocks tables t is_ok test k fixed c σ'.cache
          → k.pins σ'.cache ≡ k.pins before
          → Got options number key handle_result arg before (some (s, arg', σ'))
      not_found :
          {s : Status} {σ' : At}
          → is_ok s ≡ false
          → Coherent x blocks tables t is_ok test k fixed c σ'.cache
          → k.pins σ'.cache ≡ k.pins before
          → Got options number key handle_result arg before (some (s, arg, σ'))

    release-Coherent :
        (h : tables.Handle) (s : tables.State)
        → Coherent x blocks tables t is_ok test k fixed c s
        → Coherent x blocks tables t is_ok test k fixed c (tables.release h s)
    unfolding Coherent
    release-Coherent h s good n tf bound there = good n tf bound (k.release-contents h _ tf s there)

    fewer-Coherent :
        (s s' : tables.State)
        → ((key : Bytes) (tf : TableAndFile x)
            → k.contents s' key ≡ some tf
            → k.contents s key ≡ some tf)
        → Coherent x blocks tables t is_ok test k fixed c s
        → Coherent x blocks tables t is_ok test k fixed c s'
    unfolding Coherent
    fewer-Coherent s s' fewer good n tf bound there = good n tf bound (fewer _ tf there)

    after_find-Got :
        (options : ReadOptions) (number : ℕ) (key : Bytes)
        (handle_result : Arg → Bytes → Bytes → Arg) (arg : Arg) (before : tables.State)
        (r : Option (Status × Option tables.Handle × At))
        → Coherent x blocks tables t is_ok test k fixed c before
        → Found x blocks tables t is_ok test k fixed c number before r
        → Got options number key handle_result arg before
            (r >>= after_find x blocks tables t is_ok options key handle_result arg)
    unfolding after_find get_from
    after_find-Got options number key handle_result arg before r good
          (table_found {h} {σ'} p held still pins) =
        rw (p, held.same_table)
          (answered σ'.block_cache σ'.world held held.same_table refl
            (release-Coherent h σ'.cache still) (omega (arith, k.release-pins h σ'.cache, pins)))
    after_find-Got options number key handle_result arg before r good
          (table_missing {σ'} p fewer pins) =
        rw p (not_found p (fewer-Coherent before σ'.cache fewer good) pins)

    -- Get on a cache in which every table is that of a file of its number ends without a failed
    -- assertion. It answers what InternalGet gives on a table of a file of the number, opened under one
    -- of its two names, or an error of FindTable with the argument as it was; the cache is as before in
    -- this, and no handle is left. Numbers have 64 bits. The test of a status takes OK for ok, there is
    -- a file where it takes that of NewRandomAccessFile for ok, and the file has room for a footer or the
    -- test tells a corruption from ok: with Status::ok as it is written, which tells nothing, every file
    -- has to be there and to have room.
    pub get-Got :
        (options : ReadOptions) (number file_size : ℕ) (key : Bytes)
        (handle_result : Arg → Bytes → Bytes → Arg) (arg : Arg) (σ : At)
        → number < 2 ^ 64
        → Fits is_ok file_size
        → Coherent x blocks tables t is_ok test k fixed c σ.cache
        → Got options number key handle_result arg σ.cache
            (get x blocks tables t is_ok c options number file_size key handle_result arg σ)
    unfolding get
    get-Got options number file_size key handle_result arg σ bound fits good =
        after_find-Got options number key handle_result arg σ.cache _ good (
          find_table-Found x blocks tables t is_ok test k fixed c number file_size σ bound fits
            good)
