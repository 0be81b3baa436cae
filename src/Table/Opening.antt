-- ===== src/Table/Opening.antt =====
-- Table::Open of leveldb/table/table.cc: its outcomes.
use leveldb_study.Base.{
  ℕ, ◌-◌, ◌≤◌, ◌≡◌, refl, Bool, true, false, Option, none, some, ltb, arith, Bool-cases, inl, inr,
  ◌⊎◌,
}
use leveldb_study.Status.{Status, status_corruption, Bytes}
use leveldb_study.Options.{Options}
use leveldb_study.Cache.{Cache}
use leveldb_study.Table.{
  ReadAt, BlockContents, TableFormat, TableRep, encoded_length, meta_options, read_filter,
  filter_at, read_metaindex, read_meta, new_table, open_footer, open_table,
}

-- A file of this size has room for a footer, or the test tells that it has not.
abbrev pub Fits : (Status → Bool) → ℕ → Type 0
Fits is_ok size = (encoded_length ≤ size) ⊎ ((m n : Bytes) → is_ok (status_corruption m n) ≡ false)

module _ (x : TableFormat) (is_ok : Status → Bool) where
  -- What the read of the filter leaves alone.
  record Kept (rep rep' : TableRep x) : Type 0 where
    options : rep'.options ≡ rep.options
    file : rep'.file ≡ rep.file
    index_block : rep'.index_block ≡ rep.index_block

  abbrev kept_all : {rep : TableRep x} → Kept rep rep
  kept_all = record { options = refl; file = refl; index_block = refl }

  read_filter-Kept :
      (policy value : Bytes) (rep : TableRep x) (w : x.World)
      → Kept rep (read_filter x is_ok policy value rep w).0
  unfolding read_filter
  read_filter-Kept policy value rep w =
      let s = x.decode_handle value in
      let r = x.read_block rep.file (meta_options x rep.options) s.1 w in
      elim (Bool-cases (is_ok s.0)) [
        | inl p ↦ elim (Bool-cases (is_ok r.0)) [
          | inl q ↦ rw (p, q) (record { options = refl; file = refl; index_block = refl })
          | inr q ↦ rw (p, q) kept_all
        ]
        | inr p ↦ rw p kept_all
      ]

  filter_at-Kept :
      (policy key : Bytes) (found : Option (Bytes × Bytes)) (rep : TableRep x) (w : x.World)
      → Kept rep (filter_at x is_ok policy key found rep w).0
  unfolding filter_at
  filter_at-Kept policy key none rep w = kept_all
  filter_at-Kept policy key (some (k, value)) rep w = elim (Bool-cases (x.slice_eq k key)) [
    | inl p ↦ rw p (read_filter-Kept policy value rep w)
    | inr p ↦ rw p kept_all
  ]

  read_metaindex-Kept :
      (policy : Option Bytes) (footer : x.Footer) (rep : TableRep x) (w : x.World)
      → Kept rep (read_metaindex x is_ok policy footer rep w).0
  unfolding read_metaindex
  read_metaindex-Kept none footer rep w = kept_all
  read_metaindex-Kept (some policy) footer rep w =
      let r = x.read_block rep.file (meta_options x rep.options) (x.metaindex_handle footer) w in
      elim (Bool-cases (is_ok r.0)) [
        | inl p ↦ rw p (filter_at-Kept policy _ _ rep r.2)
        | inr p ↦ rw p kept_all
      ]

  module _ (c : Cache x.Block) where
    new_table-Kept :
        (options : Options) (file : Option ℕ) (footer : x.Footer) (contents : BlockContents)
        (blocks : c.State) (w : x.World)
        → let rep = (new_table x is_ok c options file footer contents blocks w).0 in
          (rep.options ≡ options) × (rep.file ≡ file) × (rep.index_block ≡ x.new_block contents)
    unfolding new_table read_meta
    new_table-Kept options file footer contents blocks w =
        let k = read_metaindex-Kept options.filter_policy footer _ w in
        (k.options, k.file, k.index_block)

    -- What a table has that Open answers with an ok status.
    pub record Opened (read : ReadAt x) (options : Options) (file : Option ℕ) (size : ℕ)
        (w : x.World) (rep : TableRep x) : Type 0 where
      pub room : encoded_length ≤ size
      pub same_options : rep.options ≡ options
      pub same_file : rep.file ≡ file
      pub index_read :
          let footer = read file (size - encoded_length) encoded_length w in
          let index =
            x.read_block file
              (meta_options x options)
              (x.index_handle (x.decode_footer footer.1).1)
              footer.2 in
          (is_ok index.0 ≡ true) × (rep.index_block ≡ x.new_block index.1)

    pub open_table-Opened :
        (read : ReadAt x) (options : Options) (file : Option ℕ) (size : ℕ) (blocks : c.State)
        (w : x.World)
        → Fits is_ok size
        → ((is_ok (open_table x is_ok c read options file size blocks w).0 ≡ true)
            × ((rep : TableRep x) × ((open_table x is_ok c read options file size blocks w).1
                  ≡ some rep)
                × Opened read options file size w rep))
          ⊎ ((is_ok (open_table x is_ok c read options file size blocks w).0 ≡ false)
              × ((open_table x is_ok c read options file size blocks w).1 ≡ none))
    unfolding open_table open_footer
    open_table-Opened read options file size blocks w h =
        let r = read file (size - encoded_length) encoded_length w in
        let d = x.decode_footer r.1 in
        let i = x.read_block file (meta_options x options) (x.index_handle d.1) r.2 in
        elim (Bool-cases (ltb size encoded_length)) [
          | inl short ↦ elim h [
            | inl fits ↦ absurd (ground arith)
            | inr told ↦ rw short (inr (told _ _, refl))
          ]
          | inr room ↦ elim (Bool-cases (is_ok r.0)) [
            | inr p ↦ rw (room, p) (inr (p, refl))
            | inl p ↦ elim (Bool-cases (is_ok d.0)) [
              | inr q ↦ rw (room, p, q) (inr (q, refl))
              | inl q ↦ elim (Bool-cases (is_ok i.0)) [
                | inr k ↦ rw (room, p, q, k) (inr (k, refl))
                | inl k ↦
                    let kept = new_table-Kept options file d.1 i.1 blocks i.2 in
                    rw (room, p, q, k)
                      (inl (
                        k,
                        (
                          _,
                          refl,
                          record {
                            room = ground arith;
                            same_options = kept.0;
                            same_file = kept.1;
                            index_read = (k, kept.2);
                          },
                        ),
                      ))
              ]
            ]
          ]
        ]
