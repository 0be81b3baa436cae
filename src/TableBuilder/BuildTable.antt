-- ===== src/TableBuilder/BuildTable.antt =====
-- BuildTable of leveldb/db/builder.cc: a table file from the entries of an iterator. `none` is the use
-- of a null file.
use leveldb_study.Base.{
  ℕ, ◌≡◌, refl, Bool, true, false, ◌&&◌, Option, none, List, [], ◌∷◌, if◌then◌else◌, ltb, arith,
  Bool-cases, inl, inr, ◌⊎◌, ap, ◌∙◌, sym, some_inj, ◌>>=◌, some, not, is_some,
}
use leveldb_study.Status.{Status, status_ok, Bytes}
use leveldb_study.Env.{Env, IsFileSystem}
use leveldb_study.Options.{Options}
use leveldb_study.VersionEdit.{InternalKey, FileMetaData, decode_from}
use leveldb_study.TableBuilder.{BlockBuilders, Rep, new_table_builder}

-- What BuildTable calls and no file defines. `delete_object` is `delete file` on an open file, and
-- `iterator_status` makes an iterator over a table by TableCache::NewIterator and asks its status.
pub record TableFiles (env : Env) : Type 1 where
  pub blocks : BlockBuilders
  pub options : Options
  pub table_file_name : Bytes → ℕ → Bytes
  pub add : Bytes → Bytes → Rep blocks → env.World → Rep blocks × env.World
  pub finish : Rep blocks → env.World → Status × Rep blocks × env.World
  pub delete_object : Option ℕ → env.World → env.World
  pub iterator_status : ℕ → ℕ → env.World → Status × env.World

-- An iterator: its entries from the first one to where it is not valid, and its status there.
pub record Entries : Type 0 where
  pub entries : List (Bytes × Bytes)
  pub status : Status

module _ (env : Env) (t : TableFiles env) (is_ok : Status → Bool) where
  -- The loop over the entries: the largest key, the builder and the world.
  unfoldable pub add_entries :
      List (Bytes × Bytes)
      → InternalKey × Rep t.blocks × env.World
      → InternalKey × Rep t.blocks × env.World
  unfolding decode_from
  add_entries [] s = s
  add_entries ((key, value) ∷ rest) (largest, builder, w) =
      let (builder', w') = t.add key value builder w in
      add_entries rest ((decode_from key).0, builder', w')

  -- Finish, Sync and Close, each if all went well before, and the look at the new table.
  unfoldable pub close_table :
      Option ℕ → FileMetaData → Rep t.blocks → env.World → Option (Status × env.World)
  close_table file meta builder w =
      let (s1, builder', w1) = t.finish builder w in
      let (s2, w2) = if is_ok s1 then env.sync file w1 else (s1, w1) in
      let (s3, w3) = if is_ok s2 then env.close file w2 else (s2, w2) in
      let w4 = t.delete_object file w3 in
      if is_ok s1 && not (is_some file)
      then none
      else some (if is_ok s3 then t.iterator_status meta.number meta.file_size w4 else (s3, w4))

  -- The block for a valid iterator, once the file is there.
  unfoldable pub write_table :
      Option ℕ
      → Bytes
      → List (Bytes × Bytes)
      → FileMetaData
      → env.World
      → Option (Status × FileMetaData × env.World)
  unfolding add_entries close_table decode_from
  write_table file first entries meta w = do
    let meta1 = record meta { smallest = (decode_from first).0 }
    let (largest, builder, w1) =
        add_entries entries (meta1.largest, new_table_builder t.blocks t.options file, w)
    let meta2 = record meta1 { largest = largest }
    (s, w2) ← close_table file meta2 builder w1
    some (s, meta2, w2)

  -- The end: the iterator's error goes before, and a file that is not kept is removed.
  unfoldable pub keep_or_remove :
      Bytes → Status → Status × FileMetaData × env.World → Status × FileMetaData × env.World
  keep_or_remove fname iter_status (s, meta, w) =
      let s' = if is_ok iter_status then s else iter_status in
      if is_ok s' && ltb 0 meta.file_size
      then (s', meta, w)
      else (s', meta, (env.delete_file fname w).1)

  -- What follows the computation of the file's name.
  unfoldable pub build_entries :
      Bytes
      → List (Bytes × Bytes)
      → Status
      → FileMetaData
      → env.World
      → Option (Status × FileMetaData × env.World)
  unfolding write_table keep_or_remove
  build_entries fname [] iter_status meta w =
      some (keep_or_remove fname iter_status (status_ok, meta, w))
  build_entries fname ((key, value) ∷ rest) iter_status meta w = do
    let (s, file, w1) = env.new_writable_file fname w
    if is_ok s
        then (do
          r ← write_table file key ((key, value) ∷ rest) meta w1
          some (keep_or_remove fname iter_status r))
        else some (s, meta, w1)

  unfoldable pub build_table :
      Bytes → Entries → FileMetaData → env.World → Option (Status × FileMetaData × env.World)
  unfolding build_entries
  build_table dbname iter meta w =
      build_entries (t.table_file_name dbname meta.number) iter.entries iter.status
        (record meta { file_size = 0 }) w

  keep_or_remove-removes :
      (fs : IsFileSystem env is_ok) (fname : Bytes) (iter_status s : Status) (meta : FileMetaData)
      (w : env.World)
      → meta.file_size ≡ 0
      → ((keep_or_remove fname iter_status (s, meta, w)).1 ≡ meta)
        × (fs.read (keep_or_remove fname iter_status (s, meta, w)).2 fname ≡ none)
  unfolding keep_or_remove
  keep_or_remove-removes fs fname iter_status s meta w h = ground (arith, fs.read-delete fname w)

  -- The size and the number that BuildTable leaves, and that an ok answer leaves no file.
  abbrev pub Removed :
      IsFileSystem env is_ok → Bytes → FileMetaData → Status × FileMetaData × env.World → Type 0
  Removed fs fname meta (s, meta', w') =
      (meta'.file_size ≡ 0)
      × (meta'.number ≡ meta.number)
      × ((is_ok s ≡ false) ⊎ (fs.read w' fname ≡ none))

  -- NewWritableFile answers ok and a null file.
  abbrev pub NullFile : Bytes → env.World → Type 0
  NullFile fname w =
      (is_ok (env.new_writable_file fname w).0 ≡ true)
      × (is_some (env.new_writable_file fname w).1 ≡ false)

  abbrev size_of : Status × FileMetaData × env.World → ℕ
  size_of (s, meta, w) = meta.file_size

  -- A use of a null file, or an outcome.
  abbrev pub Ends :
      IsFileSystem env is_ok
      → Bytes
      → FileMetaData
      → env.World
      → Option (Status × FileMetaData × env.World)
      → Type 0
  Ends fs fname meta w m =
      (NullFile fname w × (m ≡ none))
      ⊎ ((r : Status × FileMetaData × env.World) × (m ≡ some r) × Removed fs fname meta r)

  -- Of a file that is there the table is written, with the size as it was.
  write_table-some :
      (file : Option ℕ) (first : Bytes) (entries : List (Bytes × Bytes)) (meta : FileMetaData)
      (w : env.World)
      → ((is_some file ≡ false) × (write_table file first entries meta w ≡ none))
        ⊎ ((r : Status × FileMetaData × env.World) × (write_table file first entries meta w
              ≡ some r)
            × (r.1.file_size ≡ meta.file_size)
            × (r.1.number ≡ meta.number))
  unfolding write_table close_table
  write_table-some none first entries meta w =
      let start = new_table_builder t.blocks t.options none in
      let (_, builder, w1) = add_entries entries (meta.largest, start, w) in
      elim (Bool-cases (is_ok (t.finish builder w1).0)) [
        | inl p ↦ rw p (inl (refl, refl))
        | inr p ↦ rw p (inr (_, refl, refl, refl))
      ]
  write_table-some (some file) first entries meta w =
      let start = new_table_builder t.blocks t.options (some file) in
      let (_, builder, w1) = add_entries entries (meta.largest, start, w) in
      elim (Bool-cases (is_ok (t.finish builder w1).0)) [
        | inl p ↦ rw p (inr (_, refl, refl, refl))
        | inr p ↦ rw p (inr (_, refl, refl, refl))
      ]

  kept-Removed :
      (fs : IsFileSystem env is_ok) (fname : Bytes) (iter_status : Status)
      (r : Status × FileMetaData × env.World) (meta : FileMetaData)
      → r.1.file_size ≡ 0
      → r.1.number ≡ meta.number
      → Removed fs fname meta (keep_or_remove fname iter_status r)
  kept-Removed fs fname iter_status r meta size number =
      let e = keep_or_remove-removes fs fname iter_status r.0 r.1 r.2 size in
      (rw e.0 size, rw e.0 number, inr e.1)

  build_entries-Ends :
      (fs : IsFileSystem env is_ok) (fname : Bytes) (entries : List (Bytes × Bytes))
      (iter_status : Status) (meta : FileMetaData) (w : env.World)
      → meta.file_size ≡ 0
      → Ends fs fname meta w (build_entries fname entries iter_status meta w)
  unfolding build_entries
  build_entries-Ends fs fname [] iter_status meta w h =
      inr (_, refl, kept-Removed fs fname iter_status (status_ok, meta, w) meta h refl)
  build_entries-Ends fs fname ((key, value) ∷ rest) iter_status meta w h =
      let opened = env.new_writable_file fname w in
      elim (Bool-cases (is_ok opened.0)) [
        | inl k ↦ elim (write_table-some opened.1 key ((key, value) ∷ rest) meta opened.2) [
          | inl (null, crash) ↦ rw (k, crash) (inl ((refl, null), refl))
          | inr (r, ran, size, number) ↦
              rw (k, ran)
                (inr (_, refl, kept-Removed fs fname iter_status r meta (size ∙ h) number))
        ]
        | inr k ↦ rw k (inr (_, refl, (h, refl, inl k)))
      ]

  -- On a file system where a deleted file cannot be read BuildTable leaves no table: it never learns the size of the file that it has written, so that the
  -- size is 0 in every outcome, and where the answer is ok the file has been removed. It has an outcome,
  -- but for where NewWritableFile answers ok and a null file.
  pub build_table-removes :
      (fs : IsFileSystem env is_ok) (dbname : Bytes) (iter : Entries) (meta : FileMetaData)
      (w : env.World)
      → Ends fs
          (t.table_file_name dbname meta.number)
          (record meta { file_size = 0 })
          w
          (build_table dbname iter meta w)
  unfolding build_table
  build_table-removes fs dbname iter meta w =
      build_entries-Ends fs (t.table_file_name dbname meta.number) iter.entries iter.status
        (record meta { file_size = 0 }) w refl

  keep_or_remove_meta :
      (fname : Bytes) (iter_status s : Status) (meta : FileMetaData) (w : env.World)
      → (keep_or_remove fname iter_status (s, meta, w)).1 ≡ meta
  unfolding keep_or_remove
  keep_or_remove_meta fname iter_status s meta w = ground arith

  build_entries-file_size :
      (fname : Bytes) (entries : List (Bytes × Bytes)) (iter_status : Status) (meta : FileMetaData)
      (w : env.World) {r : Status × FileMetaData × env.World}
      → build_entries fname entries iter_status meta w ≡ some r
      → r.1.file_size ≡ meta.file_size
  unfolding build_entries
  build_entries-file_size fname [] iter_status meta w = λ h.
      ap size_of (sym (some_inj h))
      ∙ ap (λ (m : FileMetaData). m.file_size)
          (keep_or_remove_meta fname iter_status status_ok meta w)
  build_entries-file_size fname ((key, value) ∷ rest) iter_status meta w =
      let opened = env.new_writable_file fname w in
      elim (Bool-cases (is_ok opened.0)) [
        | inl k ↦ elim (write_table-some opened.1 key ((key, value) ∷ rest) meta opened.2) [
          | inl (null, crash) ↦ rw (k, crash) (λ h. cc)
          | inr (q, ran, size, number) ↦
              rw (k, ran)
                (λ h.
                  ap size_of (sym (some_inj h))
                  ∙ ap (λ (m : FileMetaData). m.file_size)
                      (keep_or_remove_meta fname iter_status q.0 q.1 q.2)
                  ∙ size)
        ]
        | inr k ↦ rw k (λ h. ap size_of (sym (some_inj h)))
      ]

  pub build_table-file_size :
      (dbname : Bytes) (iter : Entries) (meta : FileMetaData) (w : env.World)
      {r : Status × FileMetaData × env.World}
      → build_table dbname iter meta w ≡ some r
      → r.1.file_size ≡ 0
  unfolding build_table
  build_table-file_size dbname iter meta w =
      build_entries-file_size (t.table_file_name dbname meta.number) iter.entries iter.status
        (record meta { file_size = 0 }) w
