-- ===== src/SkipList/Insertion.antt =====
-- Insert of leveldb/db/skiplist.h: the links after the loop that splices a node in.
use leveldb_study.Base.{
  ℕ, zero, suc, ◌+◌, ◌≤◌, ◌<◌, ◌≡◌, ◌≢◌, refl, some, if◌then◌else◌, ◌==◌, arith, ◌∙◌, update, subst,
}
use native.Mathlib.Decide.{ℕ_discrete}
use leveldb_study.SkipList.{SkipList, load, store, link_node}

-- The links after the loop: on the levels that it passed `x` stands behind `prev`, and no other
-- link has changed.
pub record Linked {K R : Type 0} (prev : ℕ → ℕ) (x level rounds : ℕ) (s s' : SkipList K R)
    : Type 0 where
  pub same_key : s'.key ≡ s.key
  pub same_height : s'.height ≡ s.height
  pub same_fresh : s'.fresh ≡ s.fresh
  pub same_max_height : s'.max_height ≡ s.max_height
  pub at_new : (i : ℕ) → level ≤ i → i < level + rounds → s'.next x i ≡ s.next (prev i) i
  pub at_prev : (i : ℕ) → level ≤ i → i < level + rounds → s'.next (prev i) i ≡ some x
  pub elsewhere :
      (i a : ℕ) → level ≤ i → i < level + rounds → a ≢ x → a ≢ prev i → s'.next a i ≡ s.next a i
  pub above : (i a : ℕ) → level + rounds ≤ i → s'.next a i ≡ s.next a i
  pub under : (i a : ℕ) → i < level → s'.next a i ≡ s.next a i

module _ {K R : Type 0} (prev : ℕ → ℕ) (x : ℕ) where
  abbrev spliced : ℕ → SkipList K R → SkipList K R
  spliced level s =
      let next1 = update s.next x (update (s.next x) level (s.next (prev level) level)) in
      record s { next = update next1 (prev level) (update (next1 (prev level)) level (some x)) }

  link_node-suc :
      (level rounds : ℕ) (s : SkipList K R)
      → level < s.height x
      → level < s.height (prev level)
      → link_node prev x level (suc rounds) s
        ≡ link_node prev x (level + 1) rounds (spliced level s)
  unfolding link_node load store
  link_node-suc level rounds s h k = ground arith

  spliced-next :
      (level a i : ℕ) (s : SkipList K R)
      → prev level ≢ x
      → (spliced level s).next a i ≡ (
          if i == level
          then (if a == prev level
              then some x
              else if a == x
              then s.next (prev level) level
              else s.next a i)
          else s.next a i)
  spliced-next level a i s ne = ground arith

  Linked-suc :
      (level rounds : ℕ) (s s' : SkipList K R)
      → ((i : ℕ) → level ≤ i → i < level + suc rounds → prev i ≢ x)
      → Linked prev x (level + 1) rounds (spliced level s) s'
      → Linked prev x level (suc rounds) s s'
  Linked-suc level rounds s s' ne l = record {
    same_key = l.same_key;
    same_height = l.same_height;
    same_fresh = l.same_fresh;
    same_max_height = l.same_max_height;
    at_new = λ i le lt. elim (ℕ_discrete i level) [
      | yes e ↦ rw e (l.under level x (omega arith) ∙ same x level ∙ ground (arith, ne0))
      | no n ↦ l.at_new i (omega arith) (omega arith) ∙ same (prev i) i ∙ ground arith
    ];
    at_prev = λ i le lt. elim (ℕ_discrete i level) [
      | yes e ↦
          rw e (l.under level (prev level) (omega arith) ∙ same (prev level) level ∙ ground arith)
      | no n ↦ l.at_prev i (omega arith) (omega arith)
    ];
    elsewhere = λ i a le lt n m. elim (ℕ_discrete i level) [
      | yes e ↦
          let m' : a ≢ prev level = subst (λ (j : ℕ). a ≢ prev j) e m in
          rw e (l.under level a (omega arith) ∙ same a level ∙ ground arith)
      | no d ↦ l.elsewhere i a (omega arith) (omega arith) n m ∙ same a i ∙ ground arith
    ];
    above = λ i a le. l.above i a (omega arith) ∙ same a i ∙ ground arith;
    under = λ i a lt. l.under i a (omega arith) ∙ same a i ∙ ground arith;
  }
    where
      ne0 : prev level ≢ x
      ne0 = ne level (omega arith) (omega arith)

      same :
          (a i : ℕ)
          → (spliced level s).next a i ≡ (
              if i == level
              then (if a == prev level
                  then some x
                  else if a == x
                  then s.next (prev level) level
                  else s.next a i)
              else s.next a i)
      same a i = spliced-next level a i s ne0

  pub link_node-Linked :
      (rounds level : ℕ) (s : SkipList K R)
      → ((i : ℕ)
          → level ≤ i
          → i < level + rounds
          → (i < s.height x) × (i < s.height (prev i)) × (prev i ≢ x))
      → (s' : SkipList K R) × (link_node prev x level rounds s ≡ some s')
        × Linked prev x level rounds s s'
  unfolding link_node
  link_node-Linked zero level s fits = (
    s,
    refl,
    record {
      same_key = refl;
      same_height = refl;
      same_fresh = refl;
      same_max_height = refl;
      at_new = λ i le lt. absurd (omega arith);
      at_prev = λ i le lt. absurd (omega arith);
      elsewhere = λ i a le lt n m. refl;
      above = λ i a le. refl;
      under = λ i a lt. refl;
    },
  )
  link_node-Linked (suc rounds) level s fits =
      let here = fits level (omega arith) (omega arith) in
      let (s', e, l) =
        link_node-Linked rounds (level + 1) (spliced level s)
          (λ i le lt. fits i (omega arith) (omega arith)) in
      (
        s',
        link_node-suc level rounds s here.0 here.1 ∙ e,
        Linked-suc level rounds s s' (λ i le lt. (fits i le lt).2) l,
      )
