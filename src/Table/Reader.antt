-- ===== src/Table/Reader.antt =====
-- Table::BlockReader of leveldb/table/table.cc: reading a block through the block cache.
use leveldb_study.Base.{ℕ, Bool, ◌&&◌, Option, none, some, ◌++◌, if◌then◌else◌}
use leveldb_study.Status.{Status, Bytes}
use leveldb_study.Options.{ReadOptions}
use leveldb_study.Cache.{Cache}
use leveldb_study.Table.{BlockHandle, TableFormat, TableRep}

-- What is registered to run when an iterator over a block is deleted.
pub data Cleanup (Handle : Type 0) : Type 0 where
  delete_block : Cleanup Handle
  release_block : Handle → Cleanup Handle

pub data BlockIterator (Block Handle : Type 0) : Type 0 where
  over : Block → Cleanup Handle → BlockIterator Block Handle
  error : Status → BlockIterator Block Handle

module _ (x : TableFormat) (is_ok : Status → Bool) (c : Cache x.Block) where
  -- The key of a block in the cache.
  unfoldable pub cache_key : ℕ → ℕ → Bytes
  cache_key cache_id offset = x.encode_fixed64 cache_id ++ x.encode_fixed64 offset

  abbrev pub Read : Type 0
  Read = Status × Option (x.Block × Option c.Handle) × c.State × x.World

  -- The block is not cached: it is read, and cached if both the block and the options allow it.
  unfoldable pub fill : TableRep x → ReadOptions → BlockHandle → Bytes → c.State → x.World → Read
  fill rep options handle key blocks w =
      let (s, contents, w') = x.read_block rep.file options handle w in
      let block = x.new_block contents in
      if is_ok s
      then (if contents.cachable && options.fill_cache
          then (let (h, blocks') = c.insert key block (x.size block) blocks in
              (s, some (block, some h), blocks', w'))
          else (s, some (block, none), blocks, w'))
      else (s, none, blocks, w')

  unfoldable pub through_cache :
      Status → TableRep x → ReadOptions → BlockHandle → c.State → x.World → Read
  unfolding fill cache_key
  through_cache s rep options handle blocks w =
      let key = cache_key rep.cache_id handle.offset in
      let (found, blocks') = c.lookup key blocks in
      elim found [
        | some h ↦ (s, some (c.value h blocks', some h), blocks', w)
        | none ↦ fill rep options handle key blocks' w
      ]

  unfoldable pub directly : TableRep x → ReadOptions → BlockHandle → c.State → x.World → Read
  directly rep options handle blocks w =
      let (s, contents, w') = x.read_block rep.file options handle w in
      if is_ok s then (s, some (x.new_block contents, none), blocks, w') else (s, none, blocks, w')

  -- The iterator over what was read.
  unfoldable pub iterator_of :
      Status → Option (x.Block × Option c.Handle) → BlockIterator x.Block c.Handle
  iterator_of s none = error s
  iterator_of s (some (block, none)) = over block delete_block
  iterator_of s (some (block, some h)) = over block (release_block h)

  unfoldable pub block_reader :
      TableRep x
      → ReadOptions
      → Bytes
      → c.State
      → x.World
      → BlockIterator x.Block c.Handle × c.State × x.World
  unfolding through_cache directly iterator_of
  block_reader rep options index_value blocks w =
      let (s, handle) = x.decode_handle index_value in
      if is_ok s
      then (let (s', found, blocks', w') =
            (if rep.options.block_cache
              then through_cache s rep options handle blocks w
              else directly rep options handle blocks w) in
          (iterator_of s' found, blocks', w'))
      else (error s, blocks, w)
