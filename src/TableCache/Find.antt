-- ===== src/TableCache/Find.antt =====
-- FindTable of leveldb/db/table_cache.cc: what the cache holds, and the handles.
use leveldb_study.Base.{
  ℕ, ◌+◌, ◌^◌, ◌<◌, ◌≡◌, refl, ◌∙◌, ap, is_some, leb, ◌&&◌, not, Bool, true, false, Option, none,
  some, arith, Bool-cases, Option-cases, ◌⊎◌, inl, inr,
}
use leveldb_study.Status.{Status, status_ok, Bytes}
use leveldb_study.Cache.{Cache, IsCache}
use leveldb_study.Table.{TableFormat, TableRep, encoded_length, open_table}
use leveldb_study.Table.Opening.{Opened, Fits, open_table-Opened}
use leveldb_study.Table.Blocks.{IsFixed64}
use leveldb_study.TableCache.{
  TableAndFile, TableCalls, TableCache, Session, open_file, add_table, load_table, look_or_load,
  find_table,
}

module _ (x : TableFormat) (blocks : Cache x.Block) (tables : Cache (TableAndFile x)) {Arg : Type 0}
    (t : TableCalls x blocks Arg) (is_ok : Status → Bool) where
  -- The test takes the status OK for ok, and where it takes that of NewRandomAccessFile for ok, there is
  -- a file. With Status::ok as it is written this says that every file is there.
  pub record IsFileTest : Type 0 where
    pub ok_status : is_ok status_ok ≡ true
    pub opened :
        (name : Bytes) (w : x.World)
        → is_ok (t.new_random_access_file name w).0 ≡ true
        → is_some (t.new_random_access_file name w).1 ≡ true

  -- The table of a file that was opened by a name of that number.
  pub record Holds (c : TableCache) (number : ℕ) (tf : TableAndFile x) : Type 0 where
    pub name : Bytes
    pub named :
        (name ≡ t.table_file_name c.dbname number) ⊎ (name ≡ t.sst_table_file_name c.dbname number)
    pub before : x.World
    pub file_opened : is_ok (t.new_random_access_file name before).0 ≡ true
    pub same_file : tf.file ≡ (t.new_random_access_file name before).1
    pub rep : TableRep x
    pub same_table : tf.table ≡ some rep
    pub size : ℕ
    pub world : x.World
    pub table_opened : Opened x is_ok blocks t.read c.options tf.file size world rep

  abbrev At : Type 0
  At = Session x blocks tables t is_ok

  module _ (test : IsFileTest) (k : IsCache tables) (fixed : IsFixed64 x.encode_fixed64)
      (c : TableCache) where
    -- Every table in the cache is the table of a file of that number.
    unfoldable pub Coherent : tables.State → Type 0
    Coherent s =
        (number : ℕ) (tf : TableAndFile x)
        → number < 2 ^ 64
        → k.contents s (x.encode_fixed64 number) ≡ some tf
        → Holds c number tf

    -- The file that is opened has one of the two names.
    record Named (number : ℕ) (file : Option ℕ) : Type 0 where
      name : Bytes
      named :
          (name ≡ t.table_file_name c.dbname number)
          ⊎ (name ≡ t.sst_table_file_name c.dbname number)
      before : x.World
      file_opened : is_ok (t.new_random_access_file name before).0 ≡ true
      same_file : file ≡ (t.new_random_access_file name before).1

    open_file-Named :
        (number : ℕ) (w : x.World)
        → let r = open_file x blocks tables t is_ok c number w in
          is_ok r.0 ≡ true → Named number r.1
    unfolding open_file
    open_file-Named number w =
        let first = t.table_file_name c.dbname number in
        let old = t.sst_table_file_name c.dbname number in
        let r = t.new_random_access_file first w in
        elim (Bool-cases (is_ok r.0)) [
          | inl p ↦ rw p (λ h. record {
            name = first;
            named = inl refl;
            before = w;
            file_opened = p;
            same_file = refl;
          })
          | inr p ↦ elim (Bool-cases (is_ok (t.new_random_access_file old r.2).0)) [
            | inl q ↦
                rw (p, q)
                  (λ h. record {
                    name = old;
                    named = inr refl;
                    before = r.2;
                    file_opened = q;
                    same_file = refl;
                  })
            | inr q ↦ rw (p, q) (λ h. absurd (ground (arith, p, h)))
          ]
        ]

    -- What FindTable answers: a table of a file of that number, held by a handle, or an error without
    -- a handle, where nothing was added to the cache.
    pub data Found (number : ℕ) (before : tables.State)
        : Option (Status × Option tables.Handle × At) → Type 0 where
      table_found :
          {s : Status} {h : tables.Handle} {σ' : At}
          → is_ok s ≡ true
          → Holds c number (tables.value h σ'.cache)
          → Coherent σ'.cache
          → k.pins σ'.cache ≡ k.pins before + 1
          → Found number before (some (s, some h, σ'))
      table_missing :
          {s : Status} {σ' : At}
          → is_ok s ≡ false
          → ((key : Bytes) (tf : TableAndFile x)
              → k.contents σ'.cache key ≡ some tf
              → k.contents before key ≡ some tf)
          → k.pins σ'.cache ≡ k.pins before
          → Found number before (some (s, none, σ'))

    insert-Coherent :
        (number : ℕ) (tf : TableAndFile x) (s : tables.State)
        → number < 2 ^ 64
        → Holds c number tf
        → Coherent s
        → Coherent (tables.insert (x.encode_fixed64 number) tf 1 s).1
    unfolding Coherent
    insert-Coherent number tf s bound held good n tf' n_bound there =
        elim (k.insert-contents (x.encode_fixed64 number) (x.encode_fixed64 n) tf tf' 1 s there) [
          | inl (same_key, same) ↦ rw (same, fixed.injective n number n_bound bound same_key) held
          | inr before ↦ good n tf' n_bound before
        ]

    add_table-Found :
        (number : ℕ) (s : Status) (file : Option ℕ) (table : Option (TableRep x)) (σ : At)
        → number < 2 ^ 64
        → Coherent σ.cache
        → ((is_ok s ≡ true) × Holds c number (record { file = file; table = table }))
          ⊎ ((is_ok s ≡ false) × (table ≡ none))
        → Found number σ.cache
            (add_table x blocks tables t is_ok (x.encode_fixed64 number) s file table σ)
    unfolding add_table
    add_table-Found number s file table σ bound good (inl (p, held)) =
        let tf : TableAndFile x = record { file = file; table = table } in
        let value = k.insert-value (x.encode_fixed64 number) tf 1 σ.cache in
        rw p (
          table_found p (rw value held) (insert-Coherent number tf σ.cache bound held good)
            (k.insert-pins _ _ _ σ.cache))
    add_table-Found number s file table σ bound good (inr (p, no_table)) =
        rw (p, no_table) (table_missing p (λ key tf there. there) refl)

    lookup-Coherent :
        (key : Bytes) (s : tables.State) → Coherent s → Coherent (tables.lookup key s).1
    unfolding Coherent
    lookup-Coherent key s good n tf bound there =
        good n tf bound (k.lookup-contents key _ tf s there)

    -- A miss before changes nothing.
    since_lookup :
        (number : ℕ) (before : tables.State) {after : tables.State}
        {r : Option (Status × Option tables.Handle × At)}
        → k.pins after ≡ k.pins before
        → ((key : Bytes) (tf : TableAndFile x)
            → k.contents after key ≡ some tf
            → k.contents before key ≡ some tf)
        → Found number after r
        → Found number before r
    since_lookup number before same fewer (table_found p held good pins) =
        table_found p held good (omega (arith, pins, same))
    since_lookup number before same fewer (table_missing p kept pins) =
        table_missing p (λ key tf there. fewer key tf (kept key tf there)) (pins ∙ same)

    load_table-Found :
        (number file_size : ℕ) (σ : At)
        → number < 2 ^ 64
        → Fits is_ok file_size
        → Coherent σ.cache
        → Found number σ.cache
            (load_table x blocks tables t is_ok c number file_size (x.encode_fixed64 number) σ)
    unfolding load_table
    load_table-Found number file_size σ bound fits good =
        let f = open_file x blocks tables t is_ok c number σ.world in
        let key = x.encode_fixed64 number in
        elim (Bool-cases (is_ok f.0)) [
          | inr p ↦ rw p (table_missing p (λ k' tf there. there) refl)
          | inl p ↦
              let r = open_table x is_ok blocks t.read c.options f.1 file_size σ.block_cache f.2 in
              let σ' : At = record σ { block_cache = r.2; world = r.3 } in
              let n = open_file-Named number σ.world p in
              let there : is_some f.1 ≡ true =
                ap (λ (file : Option ℕ). is_some file) n.same_file
                ∙ test.opened n.name n.before n.file_opened in
              let read : (leb encoded_length file_size && not (is_some f.1)) ≡ false =
                ground arith in
              rw (p, read)
                (add_table-Found number r.0 f.1 r.1 σ' bound good
                  (elim (open_table-Opened x is_ok blocks t.read c.options f.1 file_size
                    σ.block_cache f.2 fits) [
                      | inr (bad, no_table) ↦ inr (bad, no_table)
                      | inl (fine, (rep, table, opened)) ↦ inl (
                        fine,
                        record {
                          name = n.name;
                          named = n.named;
                          before = n.before;
                          file_opened = n.file_opened;
                          same_file = n.same_file;
                          rep = rep;
                          same_table = table;
                          size = file_size;
                          world = f.2;
                          table_opened = opened;
                        },
                      )
                    ]))
        ]

    -- FindTable on a cache in which every table is that of a file of its number ends without a failed
    -- assertion. It answers a handle on a table of a file of the number, which is then pinned, and the
    -- cache is as before in this; or an error without a handle, where nothing was added to the cache and
    -- nothing is pinned. Numbers have 64 bits. The test of a status takes OK for ok, there is a file
    -- where it takes that of NewRandomAccessFile for ok, and the file has room for a footer or the test
    -- tells a corruption from ok: with Status::ok as it is written, which tells nothing, every file has to
    -- be there and to have room.
    pub find_table-Found :
        (number file_size : ℕ) (σ : At)
        → number < 2 ^ 64
        → Fits is_ok file_size
        → Coherent σ.cache
        → Found number σ.cache (find_table x blocks tables t is_ok c number file_size σ)
    unfolding find_table look_or_load Coherent
    find_table-Found number file_size σ bound fits good =
        let key = x.encode_fixed64 number in
        let looked = tables.lookup key σ.cache in
        let still : Coherent looked.1 = lookup-Coherent key σ.cache good in
        elim (Option-cases looked.0) [
          | inr (h, hit) ↦ rw hit (
              table_found test.ok_status (good number _ bound (k.lookup-value key h σ.cache hit))
                still (k.lookup-pins_some key h σ.cache hit))
          | inl miss ↦ rw miss (
              since_lookup number σ.cache (k.lookup-pins_none key σ.cache miss)
                (λ k' tf there. k.lookup-contents key k' tf σ.cache there)
                (load_table-Found number file_size (record σ { cache = looked.1 }) bound fits
                  still))
        ]
