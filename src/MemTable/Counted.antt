-- ===== src/MemTable/Counted.antt =====
-- References of memtables (leveldb/db/memtable.h): each memtable has as many as it has holders, and is
-- deleted when it has none.
use leveldb_study.Base.{
  ℕ, suc, ◌+◌, ◌≤◌, ◌<◌, ◌≡◌, refl, false, some, if◌then◌else◌, leb, ◌==◌, update, arith, ap, ◌∙◌,
  update_self,
}
use leveldb_study.MemTable.{
  MemTable, Tables, new_mem_table, ref, drop_ref, ref_at, unref_at, new_at, use_at,
}

abbrev pub hold : ℕ → ℕ → ℕ
hold a b = if a == b then 1 else 0

-- Each memtable has `h` references; it is deleted if and only if it has none, and only those that
-- were made have any.
pub record IsCounted (h : ℕ → ℕ) (t : Tables) : Type 0 where
  pub counted : (a : ℕ) → (t.object a).refs ≡ h a
  pub deleted_iff : (a : ℕ) → a < t.fresh → (t.object a).deleted ≡ (h a == 0)
  pub made : (a : ℕ) → t.fresh ≤ a → h a ≡ 0

pub IsCounted-cong :
    {h g : ℕ → ℕ} (t : Tables) → ((a : ℕ) → h a ≡ g a) → IsCounted h t → IsCounted g t
IsCounted-cong t e i = record {
  counted = λ a. omega (arith, e a, i.counted a);
  deleted_iff = λ a lt. i.deleted_iff a lt ∙ ap (λ n. n == 0) (e a);
  made = λ a le. omega (arith, e a, i.made a le);
}

-- A memtable that has a reference is there.
pub held_live :
    {h : ℕ → ℕ} (t : Tables) (a : ℕ) → IsCounted h t → 0 < h a → (t.object a).deleted ≡ false
held_live t a i pos = ground (arith, i.deleted_iff a, i.made a)

pub use_at-held : {h : ℕ → ℕ} (t : Tables) (a : ℕ) → IsCounted h t → 0 < h a → use_at a t ≡ some t
unfolding use_at
use_at-held t a i pos = rw (held_live t a i pos) refl

pub ref_at-IsCounted :
    {h : ℕ → ℕ} (a : ℕ) (t : Tables)
    → IsCounted h t
    → 0 < h a
    → (t' : Tables) × (ref_at a t ≡ some t') × IsCounted (λ b. hold a b + h b) t'
unfolding ref_at
ref_at-IsCounted a t i pos =
    let m : MemTable = record (t.object a) { refs = (t.object a).refs + 1 } in
    (
      record t { object = update t.object a m },
      rw (held_live t a i pos, ref) refl,
      record {
        counted = λ b. ground (arith, i.counted b);
        deleted_iff = λ b lt. ground (arith, i.deleted_iff b lt, held_live t a i pos);
        made = λ b le. ground (arith, i.made b le, i.made a, pos);
      },
    )

pub unref_at-IsCounted :
    {h : ℕ → ℕ} (a : ℕ) (t : Tables)
    → IsCounted (λ b. hold a b + h b) t
    → (t' : Tables) × (unref_at a t ≡ some t') × IsCounted h t'
unfolding unref_at
unref_at-IsCounted {h} a t i =
    let live = held_live t a i (ground arith) in
    let one : (t.object a).refs ≡ suc (h a) = ground (arith, i.counted a) in
    (
      record t {
        object = update t.object a (record (t.object a) { refs = h a; deleted = leb (h a) 0 });
      },
      rw (live, one, drop_ref) refl,
      record {
        counted = λ b. ground (arith, i.counted b);
        deleted_iff = λ b lt. ground (arith, i.deleted_iff b lt);
        made = λ b le. ground (arith, i.made b le);
      },
    )

-- A memtable that is made and referenced at once.
pub new_at-IsCounted :
    {h : ℕ → ℕ} (t : Tables)
    → IsCounted h t
    → (t' : Tables) × (ref_at (new_at t).0 (new_at t).1 ≡ some t')
      × IsCounted (λ b. hold t.fresh b + h b) t'
unfolding new_at ref_at new_mem_table
new_at-IsCounted {h} t i = (
  record {
    fresh = t.fresh + 1;
    object =
        update (update t.object t.fresh new_mem_table) t.fresh
          (record { refs = 1; deleted = false });
  },
  rw (update_self t.object t.fresh new_mem_table, ref, new_mem_table) refl,
  record {
    counted = λ b. ground (arith, i.counted b, i.made t.fresh);
    deleted_iff = λ b lt. ground (arith, i.deleted_iff b, i.made t.fresh);
    made = λ b le. ground (arith, i.made b);
  },
)
