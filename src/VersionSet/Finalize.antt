-- ===== src/VersionSet/Finalize.antt =====
-- VersionSet::Finalize of leveldb/db/version_set.cc: the level that most needs a compaction.
use leveldb_study.Base.{
  ℕ, zero, suc, ◌-◌, ◌<◌, ◌≡◌, true, false, Option, none, some, if◌then◌else◌, ◌==◌, arith,
  Bool-cases, inl, inr,
}
use leveldb_study.Order.{IsWeakOrder}
use leveldb_study.VersionSet.Version.{Files}
use native.Mathlib.Decide.{ℕ_discrete}
use leveldb_study.Base.{length, refl}
use leveldb_study.VersionSet.State.{Version, Config}

module _ (c : Config) where
  unfoldable pub score : Files → ℕ → c.D
  score files level =
      if level == 0
      then c.div (c.of_nat (length (files level))) (c.of_nat c.l0_compaction_trigger)
      else c.div (c.of_nat (c.total_file_size (files level))) (c.max_byte_for_level level)

  -- The best level and score among those below a number.
  unfoldable pub best : Files → ℕ → Option ℕ × c.D
  best files zero = (none, c.minus_one)
  best files (suc level) =
      let (best_level, best_score) = best files level in
      if c.less best_score (score files level)
      then (some level, score files level)
      else (best_level, best_score)

  unfoldable pub finalize : Version c.D → Version c.D
  unfolding best
  finalize v =
      let (best_level, best_score) = best v.files (c.num_levels - 1) in
      record v { compaction_level = best_level; compaction_score = best_score }

  -- A pick among the levels below `n`: either no level, with the score that the search starts
  -- from, or a level with its own score, which is more than that of every level before it.
  abbrev pub IsPick : Files → ℕ → Option ℕ → c.D → Type 0
  IsPick files n none s = s ≡ c.minus_one
  IsPick files n (some l) s =
      (l < n) × (s ≡ score files l) × ((k : ℕ) → k < l → c.less (score files k) s ≡ true)

  IsPick-suc :
      (files : Files) (n : ℕ) (level : Option ℕ) (s : c.D)
      → IsPick files n level s
      → IsPick files (suc n) level s
  IsPick-suc files n none s p = p
  IsPick-suc files n (some l) s p = (omega arith, p.1, p.2)

  module _ (w : IsWeakOrder c.less) where
    best-le : (files : Files) (n l : ℕ) → l < n → c.less (best files n).1 (score files l) ≡ false
    unfolding best
    best-le files zero l h = elim h [ ]
    best-le files (suc n) l h =
        let old = (best files n).1 in
        let new = score files n in
        elim (ℕ_discrete l n) [
          | yes e ↦ rw e (ground (arith, w.asym new new))
          | no k ↦
              let ih = best-le files n l (omega arith) in
              ground (arith, ih, w.asym old new, w.le_trans (score files l) old new)
        ]

    less_of_le : (a b d : c.D) → c.less b a ≡ false → c.less b d ≡ true → c.less a d ≡ true
    less_of_le a b d h k = elim (Bool-cases (c.less a d)) [
      | inl e ↦ e
      | inr e ↦ ground (arith, w.asym b d, w.le_trans d a b)
    ]

    best-IsPick : (files : Files) (n : ℕ) → IsPick files n (best files n).0 (best files n).1
    unfolding best
    best-IsPick files zero = refl
    best-IsPick files (suc n) = elim (Bool-cases (c.less (best files n).1 (score files n))) [
      | inl e ↦ rw e (
        (omega arith),
        refl,
        λ k h. less_of_le (score files k) (best files n).1 (score files n) (best-le files n k h) e,
      )
      | inr e ↦ rw e (IsPick-suc files n (best files n).0 (best files n).1 (best-IsPick files n))
    ]

    -- After Finalize no level but the last scores more than the compaction score, and the
    -- compaction level is the first one with that score, or none if all score -1 or less.
    pub finalize-IsPick :
        (v : Version c.D)
        → IsPick v.files
            (c.num_levels - 1)
            (finalize v).compaction_level
            (finalize v).compaction_score
          × ((l : ℕ)
              → l < c.num_levels - 1
              → c.less (finalize v).compaction_score (score v.files l) ≡ false)
    unfolding finalize
    finalize-IsPick v = (best-IsPick v.files (c.num_levels - 1), best-le v.files (c.num_levels - 1))
