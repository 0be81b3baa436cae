-- ===== src/VersionSet/Get/Ends.antt =====
-- Version::Get of leveldb/db/version_set.cc over the table cache of leveldb/db/table_cache.cc.
use leveldb_study.Base.{
  ◌>>=◌, ◌≡◌, refl, ◌∙◌, ap, ℕ, suc, ◌^◌, ◌<◌, Bool, Option, some, List, [], ◌∷◌, All, Bool-cases,
  inl, inr,
}
use leveldb_study.Status.{Status, Bytes}
use leveldb_study.Options.{ReadOptions}
use leveldb_study.Cache.{Cache, IsCache}
use leveldb_study.Table.{TableFormat}
use leveldb_study.Table.Opening.{Fits}
use leveldb_study.Table.Blocks.{IsFixed64}
use leveldb_study.TableCache.{TableAndFile, TableCalls, TableCache, Session}
use leveldb_study.TableCache.Find.{IsFileTest, Coherent}
use leveldb_study.TableCache.Gets
use leveldb_study.TableCache.Gets.{Got, answered, get-Got}
use leveldb_study.VersionSet.Version.{File}
use leveldb_study.VersionSet.State.{Version}
use leveldb_study.VersionSet.Get.{
  SaverState, Saver, LookupKey, VersionCalls, IsForEach, version_get,
}
use leveldb_study.VersionSet.Get.Answer.{
  Answer, Result, decide, answer, new_saver, reported, version_get-answer,
}

module _ (x : TableFormat) (blocks : Cache x.Block) (tables : Cache (TableAndFile x))
    (t : TableCalls x blocks Saver) (is_ok : Status → Bool) {D : Type 0} (v : VersionCalls D)
    (c : TableCache) (options : ReadOptions) (test : IsFileTest x blocks tables t is_ok)
    (k : IsCache tables) (fixed : IsFixed64 x.encode_fixed64) where
  abbrev At : Type 0
  At = Session x blocks tables t is_ok

  abbrev IsCoherent : At → Type 0
  IsCoherent σ = Coherent x blocks tables t is_ok test k fixed c σ.cache

  -- A read ends, the cache of tables is still that of files of their numbers, and no handle is left.
  abbrev Ends : {A : Type 0} → At → Option (A × At) → Type 0
  Ends {A} before m =
      (a : A) × (σ : At) × (m ≡ some (a, σ)) × IsCoherent σ × (k.pins σ.cache ≡ k.pins before.cache)

  abbrev InRange : List (ℕ × File) → Type 0
  InRange =
      All (λ (entry : ℕ × File). (entry.1.meta.number < 2 ^ 64) × Fits is_ok entry.1.meta.file_size)

  -- A file read, with its two results.
  record ReadEnds (before : At) (m : Option (Status × Saver × At)) : Type 0 where
    s : Status
    saver : Saver
    after : At
    ended : m ≡ some (s, saver, after)
    coherent : IsCoherent after
    pins : k.pins after.cache ≡ k.pins before.cache

  Got-ReadEnds :
      {number : ℕ} {ikey : Bytes} {f : Saver → Bytes → Bytes → Saver} {saver : Saver} {before : At}
      {m : Option (Status × Saver × At)}
      → Got x blocks tables t is_ok test k fixed c options number ikey f saver before.cache m
      → ReadEnds before m
  Got-ReadEnds (answered {σ'} {s} {arg'} b w held there ran coherent pins) = record {
    s = s;
    saver = arg';
    after = σ';
    ended = refl;
    coherent = coherent;
    pins = pins;
  }
  Got-ReadEnds {saver} (Gets.not_found {s} {σ'} bad coherent pins) = record {
    s = s;
    saver = saver;
    after = σ';
    ended = refl;
    coherent = coherent;
    pins = pins;
  }

  record AnswerEnds (before : At) (m : Option (Answer x blocks tables t is_ok v c options))
      : Type 0 where
    n : ℕ
    s : Status
    saver : Saver
    after : At
    ended : m ≡ some (n, s, saver, after)
    coherent : IsCoherent after
    pins : k.pins after.cache ≡ k.pins before.cache

  decide-ends :
      (st : SaverState) (s : Status) (saver : Saver) (before σ : At)
      (later : Option (Answer x blocks tables t is_ok v c options))
      → IsCoherent σ
      → k.pins σ.cache ≡ k.pins before.cache
      → AnswerEnds before later
      → AnswerEnds before (decide x blocks tables t is_ok v c options st s saver σ later)
  unfolding decide
  decide-ends SaverState.not_found s saver before σ later coherent pins l = record {
    n = suc l.n;
    s = l.s;
    saver = l.saver;
    after = l.after;
    ended = rw l.ended refl;
    coherent = l.coherent;
    pins = l.pins;
  }
  decide-ends SaverState.found s saver before σ later coherent pins l = record {
    n = 1;
    s = s;
    saver = saver;
    after = σ;
    ended = refl;
    coherent = coherent;
    pins = pins;
  }
  decide-ends SaverState.deleted s saver before σ later coherent pins l = record {
    n = 1;
    s = _;
    saver = saver;
    after = σ;
    ended = refl;
    coherent = coherent;
    pins = pins;
  }
  decide-ends SaverState.corrupt s saver before σ later coherent pins l = record {
    n = 1;
    s = _;
    saver = saver;
    after = σ;
    ended = refl;
    coherent = coherent;
    pins = pins;
  }

  answer-ends :
      (ikey : Bytes) (files : List (ℕ × File)) (saver : Saver) (before σ : At)
      → InRange files
      → IsCoherent σ
      → k.pins σ.cache ≡ k.pins before.cache
      → AnswerEnds before (answer x blocks tables t is_ok v c options ikey files saver σ)
  unfolding answer
  answer-ends ikey [] saver before σ bounds coherent pins = record {
    n = 0;
    s = _;
    saver = saver;
    after = σ;
    ended = refl;
    coherent = coherent;
    pins = pins;
  }
  answer-ends ikey ((level, f) ∷ rest) saver before σ ((bound, fits), bounds) coherent pins =
      let r = Got-ReadEnds {before = σ} (
        get-Got x blocks tables t is_ok test k fixed c options f.meta.number f.meta.file_size ikey
          v.save_value saver σ bound fits coherent) in
      let since = r.pins ∙ pins in
      elim (Bool-cases (is_ok r.s)) [
        | inr p ↦
            rw (r.ended, p)
              (record {
                n = 1;
                s = _;
                saver = r.saver;
                after = r.after;
                ended = refl;
                coherent = r.coherent;
                pins = since;
              })
        | inl p ↦
            rw (r.ended, p)
              (decide-ends r.saver.state r.s r.saver before r.after _ r.coherent since
                (answer-ends ikey rest r.saver before r.after bounds r.coherent since))
      ]

  -- Get ends without a failed assertion, for every key, if every table in the cache is that of a file
  -- of its number and numbers have 64 bits. The cache is as before in this, and no handle is left. The
  -- test of a status takes OK for ok, there is a file where it takes that of NewRandomAccessFile for ok,
  -- and each file has room for a footer or the test tells a corruption from ok: with Status::ok as it is
  -- written, which tells nothing, every file has to be there and to have room.
  pub version_get-ends :
      (each : IsForEach v) (version : Version D) (key : LookupKey) (value : Bytes) (σ : At)
      → InRange (each.overlapping version key.user_key key.internal_key)
      → IsCoherent σ
      → (r : Result x blocks tables t is_ok v c options) × (version_get x blocks tables t is_ok v c
            options version key value σ
          ≡ some r)
        × IsCoherent r.3
        × (k.pins r.3.cache ≡ k.pins σ.cache)
  version_get-ends each version key value σ bounds coherent =
      let e =
        answer-ends key.internal_key (each.overlapping version key.user_key key.internal_key)
          (new_saver x blocks tables t is_ok v c options key value) σ σ bounds coherent refl in
      (
        _,
        version_get-answer x blocks tables t is_ok v c options each version key value σ
            ∙ ap
                (λ (m : Option (Answer x blocks tables t is_ok v c options)).
                  m
                  >>= reported x blocks tables t is_ok v c options
                      (each.overlapping version key.user_key key.internal_key))
                e.ended,
        e.coherent,
        e.pins,
      )
