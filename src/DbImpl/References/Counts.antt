-- ===== src/DbImpl/References/Counts.antt =====
-- No memtable of leveldb/db/db_impl.cc is used after its deletion, and none is left behind.
use leveldb_study.Base.{
  ◌>>=◌, >>=-elim, ◌==◌, ℕ, zero, suc, ◌+◌, ◌<◌, ◌≡◌, refl, Option, none, some, List, [], ◌∷◌,
  arith,
}
use leveldb_study.MemTable.{Tables, new_mem_table, ref_at, unref_at, new_at, use_at}
use leveldb_study.MemTable.Counted.{
  hold, IsCounted, IsCounted-cong, use_at-held, ref_at-IsCounted, unref_at-IsCounted,
  new_at-IsCounted,
}
use leveldb_study.DbImpl.References.{
  Reader, Owners, when, make_table, no_tables, open_owners, switch_from, drop_imm_of, begin_get,
  take_reader, look_up, finish_reader, Action, act, act_all,
}

abbrev hold_some : Option ℕ → ℕ → ℕ
hold_some none b = 0
hold_some (some a) b = hold a b

-- How many readers hold a memtable.
abbrev pub reading : List Reader → ℕ → ℕ
reading [] b = 0
reading (r ∷ rs) b = hold r.mem b + hold_some r.imm b + reading rs b

-- How often a memtable is held.
abbrev pub holders : Owners → ℕ → ℕ
holders o b = hold o.mem b + hold_some o.imm b + reading o.readers b

abbrev pub IsOwned : Owners → Type 0
IsOwned o = IsCounted (holders o) o.tables

-- The result of an action: it is there, and its memtables are counted.
abbrev pub Acts : Option Owners → Type 0
Acts r = (o : Owners) × (r ≡ some o) × IsOwned o

make_table-IsCounted :
    {h : ℕ → ℕ} (t : Tables)
    → IsCounted h t
    → (a : ℕ) × (t' : Tables) × (make_table t ≡ some (a, t')) × IsCounted (λ b. hold a b + h b) t'
unfolding make_table
make_table-IsCounted t i =
    let (t', made, counted) = new_at-IsCounted t i in ((new_at t).0, t', rw made refl, counted)

when_ref-IsCounted :
    {h : ℕ → ℕ} (i : Option ℕ) (t : Tables)
    → IsCounted h t
    → ((a : ℕ) → i ≡ some a → 0 < h a)
    → (t' : Tables) × (when ref_at i t ≡ some t') × IsCounted (λ b. hold_some i b + h b) t'
unfolding when
when_ref-IsCounted none t c pos = (t, refl, IsCounted-cong t (λ b. omega arith) c)
when_ref-IsCounted (some a) t c pos = ref_at-IsCounted a t c (pos a refl)

when_unref-IsCounted :
    {h : ℕ → ℕ} (i : Option ℕ) (t : Tables)
    → IsCounted (λ b. hold_some i b + h b) t
    → (t' : Tables) × (when unref_at i t ≡ some t') × IsCounted h t'
unfolding when
when_unref-IsCounted none t c = (t, refl, IsCounted-cong t (λ b. omega arith) c)
when_unref-IsCounted (some a) t c = unref_at-IsCounted a t c

when_use-held :
    {h : ℕ → ℕ} (i : Option ℕ) (t : Tables)
    → IsCounted h t
    → ((a : ℕ) → i ≡ some a → 0 < h a)
    → when use_at i t ≡ some t
unfolding when
when_use-held none t c pos = refl
when_use-held (some a) t c pos = use_at-held t a c (pos a refl)

no_tables-IsCounted : IsCounted (λ b. 0) no_tables
unfolding new_mem_table
no_tables-IsCounted = record {
  counted = λ a. refl;
  deleted_iff = λ a lt. elim lt [ ];
  made = λ a le. refl;
}

open_owners-IsOwned : Acts open_owners
unfolding open_owners
open_owners-IsOwned =
    let (a, t, made, c) = make_table-IsCounted no_tables no_tables-IsCounted in
    (
      record { tables = t; mem = a; imm = none; readers = [] },
      rw made refl,
      IsCounted-cong t (λ b. omega arith) c,
    )

switch_from-IsOwned : (o : Owners) → IsOwned o → (i : Option ℕ) → o.imm ≡ i → Acts (switch_from i o)
unfolding switch_from
switch_from-IsOwned o c (some a) e = (o, refl, c)
switch_from-IsOwned o c none e =
    let (a, t, made, c') = make_table-IsCounted o.tables c in
    (
      record o { tables = t; mem = a; imm = some o.mem },
      rw made refl,
      IsCounted-cong t (λ b. ground arith) c',
    )

drop_imm_of-IsOwned : (o : Owners) → IsOwned o → (i : Option ℕ) → o.imm ≡ i → Acts (drop_imm_of i o)
unfolding drop_imm_of
drop_imm_of-IsOwned o c none e = (o, refl, c)
drop_imm_of-IsOwned o c (some a) e =
    let (t, dropped, c') =
      unref_at-IsCounted {h = λ b. hold o.mem b + reading o.readers b} a o.tables
        (IsCounted-cong o.tables (λ b. ground arith) c) in
    (record o { tables = t; imm = none }, rw dropped refl, IsCounted-cong t (λ b. omega arith) c')

begin_get-IsOwned : (o : Owners) → IsOwned o → Acts (begin_get o)
unfolding begin_get
begin_get-IsOwned o c =
    let (t1, first, c1) = ref_at-IsCounted o.mem o.tables c (ground arith) in
    let (t2, second, c2) = when_ref-IsCounted o.imm t1 c1 (λ a e. ground arith) in
    (
      record o { tables = t2; readers = record { mem = o.mem; imm = o.imm } ∷ o.readers },
      rw (first, second) refl,
      IsCounted-cong t2 (λ b. omega arith) c2,
    )

take_reader-reading :
    (i : ℕ) (rs : List Reader) {r : Reader} {left : List Reader}
    → take_reader i rs ≡ some (r, left)
    → (b : ℕ) → reading rs b ≡ hold r.mem b + hold_some r.imm b + reading left b
unfolding take_reader
take_reader-reading i [] e b = cc
take_reader-reading zero (r ∷ rs) e b = ground arith
take_reader-reading (suc i) (r ∷ rs) e b =
    >>=-elim (take_reader i rs) _
      (λ (q, rest) found ends. ground (arith, take_reader-reading i rs found b)) e

look_up-IsOwned :
    (o : Owners)
    → IsOwned o
    → (p : Option (Reader × List Reader))
    → ((r : Reader) (left : List Reader)
        → p ≡ some (r, left)
        → (b : ℕ) → reading o.readers b ≡ hold r.mem b + hold_some r.imm b + reading left b)
    → Acts (look_up p o)
unfolding look_up
look_up-IsOwned o c none parts = (o, refl, c)
look_up-IsOwned o c (some (r, left)) parts =
    let first = use_at-held o.tables r.mem c (ground (arith, parts r left refl r.mem)) in
    let second = when_use-held r.imm o.tables c (λ a e. ground (arith, parts r left refl a)) in
    (o, rw (first, second) refl, c)

finish_reader-IsOwned :
    (o : Owners)
    → IsOwned o
    → (p : Option (Reader × List Reader))
    → ((r : Reader) (left : List Reader)
        → p ≡ some (r, left)
        → (b : ℕ) → reading o.readers b ≡ hold r.mem b + hold_some r.imm b + reading left b)
    → Acts (finish_reader p o)
unfolding finish_reader
finish_reader-IsOwned o c none parts = (o, refl, c)
finish_reader-IsOwned o c (some (r, left)) parts =
    let rest : ℕ → ℕ = λ b. hold o.mem b + hold_some o.imm b + reading left b in
    let (t1, first, c1) =
      unref_at-IsCounted {h = λ b. hold_some r.imm b + rest b} r.mem o.tables
        (IsCounted-cong o.tables (λ b. omega (arith, parts r left refl b)) c) in
    let (t2, second, c2) = when_unref-IsCounted {h = rest} r.imm t1 c1 in
    (record o { tables = t2; readers = left }, rw (first, second) refl, c2)

pub act-IsOwned : (a : Action) (o : Owners) → IsOwned o → Acts (act a o)
unfolding act
act-IsOwned Action.switch o c = switch_from-IsOwned o c o.imm refl
act-IsOwned Action.insert o c = (o, rw (use_at-held o.tables o.mem c (ground arith)) refl, c)
act-IsOwned Action.flush o c =
    (o, rw (when_use-held o.imm o.tables c (λ a e. ground arith)) refl, c)
act-IsOwned Action.drop_imm o c = drop_imm_of-IsOwned o c o.imm refl
act-IsOwned Action.begin o c = begin_get-IsOwned o c
act-IsOwned (Action.look i) o c =
    look_up-IsOwned o c (take_reader i o.readers) (λ r left e. take_reader-reading i o.readers e)
act-IsOwned (Action.finish i) o c =
    finish_reader-IsOwned o c (take_reader i o.readers)
      (λ r left e. take_reader-reading i o.readers e)

act_all-from : (actions : List Action) (o : Owners) → IsOwned o → Acts (act_all actions o)
unfolding act_all
act_all-from [] o c = (o, refl, c)
act_all-from (a ∷ later) o c =
    let (o1, first, c1) = act-IsOwned a o c in
    let (o2, second, c2) = act_all-from later o1 c1 in (o2, rw first second, c2)

-- After DB::Open has made the first memtable, whatever order the switches, the inserts, the flushes
-- and the Gets, each in parts, come in: no memtable is used after its deletion and no assertion
-- fails. At the end every memtable has one reference for each pointer that holds it, and one that was
-- made is deleted if and only if no pointer holds it.
pub act_all-IsOwned :
    (actions : List Action)
    → (o : Owners) × ((open_owners >>= act_all actions) ≡ some o)
      × ((a : ℕ) → (o.tables.object a).refs ≡ holders o a)
      × ((a : ℕ) → a < o.tables.fresh → (o.tables.object a).deleted ≡ (holders o a == 0))
act_all-IsOwned actions =
    let (o1, opened, c1) = open_owners-IsOwned in
    let (o2, ends, c2) = act_all-from actions o1 c1 in
    (o2, rw opened ends, c2.counted, c2.deleted_iff)
