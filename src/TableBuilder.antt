-- ===== src/TableBuilder.antt =====
-- The constructors, the destructor and ChangeOptions of leveldb/table/table_builder.cc. The block
-- builders are declared only and are a parameter, as are Add and Finish, whose bodies are empty or
-- missing.
pub mod BuildTable
use leveldb_study.Base.{ℕ, Bool, false, Option, none, some, [], if◌then◌else◌}
use leveldb_study.Status.{Status, status_ok, Bytes}
use leveldb_study.Options.{Options}

pub record BlockBuilders : Type 1 where
  pub BlockBuilder : Type 0
  pub FilterBlockBuilder : Type 0
  pub new_block_builder : Options → BlockBuilder
  pub new_filter_block_builder : Bytes → FilterBlockBuilder
  pub start_block : ℕ → FilterBlockBuilder → FilterBlockBuilder

-- TableBuilder::Rep without `pending_handle`, which the constructor leaves as it is, and the buffer
-- `compressed_output`.
pub record Rep (b : BlockBuilders) : Type 0 where
  pub options : Options
  pub index_block_options : Options
  pub file : Option ℕ
  pub offset : ℕ
  pub status : Status
  pub data_block : b.BlockBuilder
  pub index_block : b.BlockBuilder
  pub last_key : Bytes
  pub num_entries : ℕ
  pub closed : Bool
  pub filter_block : Option b.FilterBlockBuilder
  pub pending_index_entry : Bool

module _ (b : BlockBuilders) where
  -- Both block builders are given `options`; `index_block_options` goes to neither.
  unfoldable pub new_rep : Options → Option ℕ → Rep b
  new_rep opt f = record {
    options = opt;
    index_block_options = record opt { block_restart_interval = 1 };
    file = f;
    offset = 0;
    status = status_ok;
    data_block = b.new_block_builder opt;
    index_block = b.new_block_builder opt;
    last_key = [];
    num_entries = 0;
    closed = false;
    filter_block = elim opt.filter_policy [
      | none ↦ none
      | some policy ↦ some (b.new_filter_block_builder policy)
    ];
    pending_index_entry = false;
  }

  unfoldable pub new_table_builder : Options → Option ℕ → Rep b
  unfolding new_rep
  new_table_builder opt f =
      let r = new_rep opt f in
      record r {
        filter_block = elim r.filter_block [
          | none ↦ none
          | some filter ↦ some (b.start_block 0 filter)
        ];
      }

  -- The destructor, which fails its assertion where the table was not finished. It frees what Rep has.
  abbrev destroy : Rep b → Option {0} Unit
  destroy r = if r.closed then some tt else none

  -- ChangeOptions as it is written: no option changes, and none is refused.
  abbrev change_options : Options → Rep b → Status × Rep b
  change_options options r = (status_ok, r)
