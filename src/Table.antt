-- ===== src/Table.antt =====
-- class Table of leveldb/table/table.cc: its state, and opening a table file. Blocks, footers, filters
-- and the decoding of handles are declared only and are a parameter. The test of a status is one too.
-- ReadBlock, a parameter as well, reads the file that RandomAccessFile::Read reads: both act on the
-- World, and nothing is assumed of how what they read agrees.
pub mod Reader
pub mod Opening
pub mod Blocks
use leveldb_study.Base.{
  ℕ, ◌+◌, ◌-◌, ◌*◌, Bool, true, false, ◌&&◌, Option, none, some, ◌++◌, if◌then◌else◌, ltb,
}
use leveldb_study.Status.{Status, status_ok, status_corruption, Bytes}
use leveldb_study.Options.{Options, ReadOptions}
use leveldb_study.Filename.{codes}
use leveldb_study.Cache.{Cache}

pub record BlockHandle : Type 0 where
  pub offset : ℕ
  pub size : ℕ

pub record BlockContents : Type 0 where
  pub bytes : Bytes
  pub cachable : Bool
  pub heap_allocated : Bool

-- `BlockHandle::kMaxEncodedLength` and `Footer::kEncodedLength`.
abbrev pub max_encoded_length : ℕ
max_encoded_length = 10 + 10

abbrev pub encoded_length : ℕ
encoded_length = 2 * max_encoded_length + 8

-- A file is what the environment opened. `seek` makes an iterator over a block, and gives the entry
-- at the first key that is not below the given one.
pub record TableFormat : Type 1 where
  pub World : Type 0
  pub Footer : Type 0
  pub Block : Type 0
  pub FilterBlockReader : Type 0
  pub default_read_options : ReadOptions
  pub decode_footer : Bytes → Status × Footer
  pub index_handle : Footer → BlockHandle
  pub metaindex_handle : Footer → BlockHandle
  pub decode_handle : Bytes → Status × BlockHandle
  pub read_block : Option ℕ → ReadOptions → BlockHandle → World → Status × BlockContents × World
  pub new_block : BlockContents → Block
  pub size : Block → ℕ
  pub seek : Block → Bytes → Option (Bytes × Bytes)
  pub slice_eq : Bytes → Bytes → Bool
  pub new_filter_block_reader : Bytes → Bytes → FilterBlockReader
  pub encode_fixed64 : ℕ → Bytes

-- RandomAccessFile::Read: a file, an offset and a number of bytes.
abbrev pub ReadAt : TableFormat → Type 0
ReadAt x = Option ℕ → ℕ → ℕ → x.World → Status × Bytes × x.World

-- Table::Rep.
pub record TableRep (x : TableFormat) : Type 0 where
  pub options : Options
  pub status : Status
  pub file : Option ℕ
  pub cache_id : ℕ
  pub filter : Option x.FilterBlockReader
  pub filter_data : Option Bytes
  pub metaindex_handle : BlockHandle
  pub index_block : x.Block

-- The options for a read of the index block or of metadata.
abbrev pub meta_options : TableFormat → Options → ReadOptions
meta_options x options =
    if options.paranoid_checks
    then record x.default_read_options { verify_checksums = true }
    else x.default_read_options

module _ (x : TableFormat) (is_ok : Status → Bool) where
  unfoldable pub read_filter : Bytes → Bytes → TableRep x → x.World → TableRep x × x.World
  read_filter policy filter_handle_value rep w =
      let (s, filter_handle) = x.decode_handle filter_handle_value in
      let (s2, block, w') = x.read_block rep.file (meta_options x rep.options) filter_handle w in
      if is_ok s
      then (if is_ok s2
          then (
            record rep {
              filter_data = if block.heap_allocated then some block.bytes else rep.filter_data;
              filter = some (x.new_filter_block_reader policy block.bytes);
            },
            w',
          )
          else (rep, w'))
      else (rep, w)

  -- ReadMeta where the iterator has been moved to the filter's key.
  unfoldable pub filter_at :
      Bytes → Bytes → Option (Bytes × Bytes) → TableRep x → x.World → TableRep x × x.World
  unfolding read_filter
  filter_at policy key none rep w = (rep, w)
  filter_at policy key (some (found, value)) rep w =
      if x.slice_eq found key then read_filter policy value rep w else (rep, w)

  -- ReadMeta with the filter policy, if there is one.
  unfoldable pub read_metaindex :
      Option Bytes → x.Footer → TableRep x → x.World → TableRep x × x.World
  unfolding filter_at
  read_metaindex none footer rep w = (rep, w)
  read_metaindex (some policy) footer rep w =
      let (s, contents, w') =
        x.read_block rep.file (meta_options x rep.options) (x.metaindex_handle footer) w in
      if is_ok s
      then (let meta = x.new_block contents in
          let key = codes "filter." ++ policy in filter_at policy key (x.seek meta key) rep w')
      else (rep, w')

  unfoldable pub read_meta : x.Footer → TableRep x → x.World → TableRep x × x.World
  unfolding read_metaindex
  read_meta footer rep w = read_metaindex rep.options.filter_policy footer rep w

  module _ (c : Cache x.Block) where
    -- The table from its footer and its index block.
    unfoldable pub new_table :
        Options
        → Option ℕ
        → x.Footer
        → BlockContents
        → c.State
        → x.World
        → TableRep x × c.State × x.World
    unfolding read_meta
    new_table options file footer index_block_contents blocks w =
        let (cache_id, blocks') = if options.block_cache then c.new_id blocks else (0, blocks) in
        let rep : TableRep x = record {
          options = options;
          status = status_ok;
          file = file;
          cache_id = cache_id;
          filter = none;
          filter_data = none;
          metaindex_handle = x.metaindex_handle footer;
          index_block = x.new_block index_block_contents;
        } in
        let (rep', w') = read_meta footer rep w in (rep', blocks', w')

    -- Open behind the read of the footer's bytes.
    unfoldable pub open_footer :
        Options
        → Option ℕ
        → Bytes
        → c.State
        → x.World
        → Status × Option (TableRep x) × c.State × x.World
    unfolding new_table
    open_footer options file footer_input blocks w =
        let (s, footer) = x.decode_footer footer_input in
        if is_ok s
        then (let (s2, contents, w2) =
              x.read_block file (meta_options x options) (x.index_handle footer) w in
            if is_ok s2
            then (let (rep, blocks', w3) = new_table options file footer contents blocks w2 in
                (s2, some rep, blocks', w3))
            else (s2, none, blocks, w2))
        else (s, none, blocks, w)

    unfoldable pub open_table :
        ReadAt x
        → Options
        → Option ℕ
        → ℕ
        → c.State
        → x.World
        → Status × Option (TableRep x) × c.State × x.World
    unfolding open_footer
    open_table read options file size blocks w =
        if ltb size encoded_length
        then (
          status_corruption (codes "file is too short to be a sstable") (codes ""),
          none,
          blocks,
          w,
        )
        else (let (s, footer_input, w1) = read file (size - encoded_length) encoded_length w in
            if is_ok s
            then open_footer options file footer_input blocks w1
            else (s, none, blocks, w1))
