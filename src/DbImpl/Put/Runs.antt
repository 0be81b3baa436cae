-- ===== src/DbImpl/Put/Runs.antt =====
-- Runs of DBImpl::Put of leveldb/db/db_impl.cc by a client that is alone, and what DBImpl::Get reads
-- after them.
use leveldb_study.Base.{
  ◌>>=◌, ◌≡◌, refl, sym, ◌∙◌, ap, ℕ, suc, ◌+◌, ◌≤◌, Bool, true, false, ◌&&◌, Option, none, some,
  List, [], ◌∷◌, ◌++◌, map, All, arith, Bool-cases, inl, inr, ◌⊎◌, update_self, if◌then◌else◌, leb,
}
use leveldb_study.Status.{Status, Bytes}
use leveldb_study.Env.{Env}
use leveldb_study.VersionSet.State.{VersionSet}
use leveldb_study.DbImpl.{External, State, Waiting}
use leveldb_study.DbImpl.Write.{write_group, log_and_insert, signal_front}
use leveldb_study.DbImpl.Write.Leader.{
  KeepsWriters, group_of, queued, write_group-Inserted, write-front,
}
use leveldb_study.DbImpl.Put.{PutCalls, batch_of, put}
use leveldb_study.DbImpl.Get.{GetCalls}

-- An entry of a memtable: its sequence number, its key, and its value, or none for a deletion.
abbrev pub Entry : Type 0
Entry = ℕ × Bytes × Option Bytes

abbrev pub Contents : Type 0
Contents = List (Bytes × Option Bytes)

abbrev pub contents : List Entry → Contents
contents es = map (λ x. (x.1, x.2)) es

-- All entries are among the first `n`.
abbrev pub IsUpTo : ℕ → List Entry → Type 0
IsUpTo n es = All (λ x. x.0 ≤ n) es

IsUpTo-mono : (n m : ℕ) (es : List Entry) → n ≤ m → IsUpTo n es → IsUpTo m es
IsUpTo-mono n m [] le h = tt
IsUpTo-mono n m (x ∷ es) le h = (omega (arith, h.0), IsUpTo-mono n m es le h.1)

-- What a put does to the entries, whether it fails or not.
entries_after :
    (n last : ℕ) (key value : Bytes) (ok : Bool) (old new : List Entry)
    → last ≡ n + 1
    → IsUpTo n old
    → (((ok ≡ false) × (new ≡ old)) ⊎ ((ok ≡ true) × (new ≡ (n + 1, key, some value) ∷ old)))
    → IsUpTo last new
      × (contents new ≡ (if ok then (key, some value) ∷ contents old else contents old))
entries_after n last key value ok old new q h (inl (bad, same)) =
    rw (bad, same) (IsUpTo-mono n last old (omega arith) h, refl)
entries_after n last key value ok old new q h (inr (good, grown)) =
    rw (good, grown) ((omega arith, IsUpTo-mono n last old (omega arith) h), refl)

module _ (key_eq : Bytes → Bytes → Bool) where
  -- The first entry for a key, among those with a number that the lookup may see.
  abbrev pub newest : ℕ → Bytes → List Entry → Option (Option Bytes)
  newest n key [] = none
  newest n key ((i, k, v) ∷ es) =
      let older = newest n key es in if key_eq k key && leb i n then some v else older

  abbrev pub latest : Bytes → Contents → Option (Option Bytes)
  latest key [] = none
  latest key ((k, v) ∷ c) = let older = latest key c in if key_eq k key then some v else older

  pub newest-latest :
      (n : ℕ) (key : Bytes) (es : List Entry)
      → IsUpTo n es
      → newest n key es ≡ latest key (contents es)
  newest-latest n key [] h = refl
  newest-latest n key ((i, k, v) ∷ es) h = ground (arith, newest-latest n key es h.1, h.0)

-- What MemTable::Get does for what it finds.
abbrev pub answer : Status → Option (Option Bytes) → Bytes → Status → Bool × Bytes × Status
answer not_found none before s = (false, before, s)
answer not_found (some none) before s = (true, before, not_found)
answer not_found (some (some value)) before s = (true, value, s)

-- No other thread.
abbrev pub alone : {S : Type 0} → S → S
alone s = s

module _ (e : External) (g : GetCalls e) (p : PutCalls e) (env : Env) (is_ok : Status → Bool) where
  -- Puts with the default options, one after the other. The list grows by those that answer ok.
  unfoldable pub puts :
      (fuel me : ℕ)
      → List (Bytes × Bytes)
      → Contents
      → State e
      → env.World
      → Option (Contents × State e × env.World)
  puts fuel me [] done s w = some (done, s, w)
  puts fuel me ((key, value) ∷ later) done s w = do
    (status, s1, w1) ← put e p env is_ok alone fuel me false key value s w
    puts fuel me later (if is_ok status then (key, some value) ∷ done else done) s1 w1

  -- Documented behaviour of the callees: the last sequence number reads back, and setting it leaves
  -- the current version; the group of a single writer is its batch, after the number it is given; a
  -- batch of one put counts 1, and goes into the memtable before the older entries; and the memtable
  -- answers the newest entry that the lookup may see.
  pub record DocumentedTables : Type 0 where
    pub key_eq : Bytes → Bytes → Bool
    pub not_found : Status
    pub entries : e.MemTable → List Entry
    pub get_last-put_last :
        (n : ℕ) (vs : VersionSet e.config.D) → e.get_last_sequence (e.put_last_sequence n vs) ≡ n
    pub put_last-current :
        (n : ℕ) (vs : VersionSet e.config.D) → (e.put_last_sequence n vs).current ≡ vs.current
    pub own_group :
        (me n : ℕ) (b : e.WriteBatch) (s : State e)
        → s.writers ≡ me ∷ []
        → (s.writer me).batch ≡ some b
        → ((e.build_batch_group s n).0 ≡ b) × ((e.build_batch_group s n).2 ≡ n)
    pub count-put :
        (n : ℕ) (key value : Bytes)
        → e.count (e.set_sequence n (batch_of e p env is_ok alone key value)) ≡ 1
    pub entries-insert_into :
        (n : ℕ) (key value : Bytes) (m : e.MemTable)
        → IsUpTo n (entries m)
        → let r =
            e.insert_into (e.set_sequence (n + 1) (batch_of e p env is_ok alone key value)) m in
          (is_ok r.0 ≡ true) × (entries r.1 ≡ (n + 1, key, some value) ∷ entries m)
    pub mem_get_lem :
        (m : e.MemTable) (key before : Bytes) (n : ℕ) (s : Status)
        → g.mem_get m (g.lookup_key key n) before s
          ≡ answer not_found (newest key_eq n key (entries m)) before s

  module _ (k : KeepsWriters e) (d : DocumentedTables) where
    -- A database without a background error and without writers, whose memtable has only entries up
    -- to the last sequence number.
    pub record IsCalm (current : ℕ) (s : State e) : Type 0 where
      pub healthy : is_ok s.bg_error ≡ true
      pub no_writers : s.writers ≡ []
      pub there : s.versions.current ≡ some current
      pub numbered : IsUpTo (e.get_last_sequence s.versions) (d.entries s.mem)

    abbrev pub held : State e → Contents
    held s = contents (d.entries s.mem)

    -- Without a sync, the block for a batch leaves the background error and the current version.
    write_group-quiet :
        (s : State e) (w : env.World)
        → let r = write_group e env is_ok alone false s w in
          (r.1.bg_error ≡ s.bg_error) × (r.1.versions.current ≡ s.versions.current)
    unfolding write_group log_and_insert
    write_group-quiet s w =
        elim (Bool-cases
          (is_ok (env.add_record s.log (e.contents (group_of e env is_ok alone k s)) w).0)) [
            | inl x ↦ rw x (refl, d.put_last-current _ _)
            | inr x ↦ rw x (refl, d.put_last-current _ _)
          ]

    -- The memtable and the last sequence number after the block for a batch of one put.
    write_group-held :
        (me : ℕ) (key value : Bytes) (s : State e) (w : env.World)
        → s.writers ≡ me ∷ []
        → (s.writer me).batch ≡ some (batch_of e p env is_ok alone key value)
        → IsUpTo (e.get_last_sequence s.versions) (d.entries s.mem)
        → let r = write_group e env is_ok alone false s w in
          IsUpTo (e.get_last_sequence r.1.versions) (d.entries r.1.mem)
          × (held r.1 ≡ (if is_ok r.0 then (key, some value) ∷ held s else held s))
    write_group-held me key value s w single own upto =
        let n = e.get_last_sequence s.versions in
        let b = batch_of e p env is_ok alone key value in
        let (same, number) = d.own_group me n b s single own in
        let group : group_of e env is_ok alone k s ≡ e.set_sequence (n + 1) b = cc (same, number) in
        let (inserted, grown) = d.entries-insert_into n key value s.mem upto in
        let (ends, last) = write_group-Inserted e env is_ok alone k false s w d.get_last-put_last in
        entries_after n _ key value _ (d.entries s.mem) _
          (cc (last, number, group, d.count-put (n + 1) key value)) upto
          (elim ends [
            | inl (bad, mem) ↦ inl (bad, ap d.entries mem)
            | inr (_, _, status, mem) ↦ inr (cc (status, group, inserted), cc (mem, group, grown))
          ])

    -- A Put of a client that is alone ends, and again leaves a calm database.
    put-IsCalm :
        (fuel me : ℕ) (key value : Bytes) (s : State e) (w : env.World) (current : ℕ)
        → IsCalm current s
        → (status : Status) × (s' : State e) × (w' : env.World) × (put e p env is_ok alone
              (suc fuel)
              me
              false
              key
              value
              s
              w
            ≡ some (status, s', w'))
          × IsCalm current s'
          × (held s' ≡ (if is_ok status then (key, some value) ∷ held s else held s))
    unfolding put signal_front
    put-IsCalm fuel me key value s w current c =
        let b = batch_of e p env is_ok alone key value in
        let q = queued e env is_ok alone k me false b s in
        let r = write_group e env is_ok alone false q w in
        let single : q.writers ≡ me ∷ [] = ap (λ (ws : List ℕ). ws ++ me ∷ []) c.no_writers in
        let own : (q.writer me).batch ≡ some b =
          ap (λ (u : Waiting e.WriteBatch). u.batch) (update_self s.writer me _) in
        let (bg_error, version) = write_group-quiet q w in
        let (numbered, new) = write_group-held me key value q w single own c.numbered in
        (
          r.0,
          record r.1 { writers = [] },
          r.2,
          write-front e env is_ok alone k fuel me false b s w [] c.healthy (λ h. cc) c.no_writers
              single,
          record {
            healthy = ap is_ok bg_error ∙ c.healthy;
            no_writers = refl;
            there = version ∙ c.there;
            numbered = numbered;
          },
          new,
        )

    pub puts-IsCalm :
        (fuel me : ℕ) (kvs : List (Bytes × Bytes)) (s : State e) (w : env.World) (current : ℕ)
        → IsCalm current s
        → (s' : State e) × (w' : env.World) × (puts (suc fuel) me kvs (held s) s w
            ≡ some (held s', s', w'))
          × IsCalm current s'
    unfolding puts
    puts-IsCalm fuel me [] s w current c = (s, w, refl, c)
    puts-IsCalm fuel me ((key, value) ∷ later) s w current c =
        let (status, s1, w1, first, c1, new) = put-IsCalm fuel me key value s w current c in
        let (s2, w2, rest, c2) = puts-IsCalm fuel me later s1 w1 current c1 in
        (s2, w2, rw (first, sym new) rest, c2)
