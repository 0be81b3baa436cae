-- ===== src/SkipList/Readers/Rounds.antt =====
-- The loop of Insert of leveldb/db/skiplist.h, store by store.
use leveldb_study.Base.{
  ◌>>=◌, >>=_assoc, >>=_cong, Option-cases, ℕ, zero, suc, ◌+◌, ◌≡◌, refl, sym, Option, none, some,
  arith, inl, inr, ◌∙◌, ap,
}
use leveldb_study.SkipList.{SkipList, load, store, link_node}

module _ {K R : Type 0} (prev : ℕ → ℕ) (x : ℕ) where
  -- A round of the loop.
  abbrev pub round : ℕ → SkipList K R → Option (SkipList K R)
  round i s = do n ← load s (prev i) i; s1 ← store s x i n; store s1 (prev i) i (some x)

  link_node-first :
      (level rounds : ℕ) (s : SkipList K R)
      → link_node prev x level (suc rounds) s
        ≡ (round level s >>= link_node prev x (level + 1) rounds)
  unfolding link_node
  link_node-first level rounds s = elim (Option-cases (load s (prev level) level)) [
    | inl e ↦ rw e refl
    | inr (n, e) ↦ rw e (sym (>>=_assoc (store s x level n) _ _))
  ]

  pub link_node-last :
      (rounds level : ℕ) (s : SkipList K R)
      → link_node prev x level (suc rounds) s
        ≡ (link_node prev x level rounds s >>= round (level + rounds))
  unfolding link_node
  link_node-last zero level s =
      link_node-first level 0 s ∙ ends (round level s) ∙ ap (λ i. round i s) (level_zero)
    where
      ends : (m : Option (SkipList K R)) → (m >>= link_node prev x (level + 1) 0) ≡ m
      ends none = refl
      ends (some a) = refl

      level_zero : level ≡ level + 0
      level_zero = omega arith
  link_node-last (suc rounds) level s =
      link_node-first level (suc rounds) s
      ∙ >>=_cong (round level s) _ _ (λ s2. link_node-last rounds (level + 1) s2)
      ∙ sym (
          >>=_assoc (round level s) (link_node prev x (level + 1) rounds)
            (round (level + 1 + rounds)))
      ∙ ap (λ m. m >>= round (level + 1 + rounds)) (sym (link_node-first level rounds s))
      ∙ ap (λ i. link_node prev x level (suc rounds) s >>= round i) next_level
    where
      next_level : level + 1 + rounds ≡ level + suc rounds
      next_level = omega arith
