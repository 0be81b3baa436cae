-- ===== src/Base/Maps.antt =====
-- Arrays and stores as functions from an index, and finite sets of numbers as lists.
use mathlib.Core.Path.{◌≡◌}
use native.Mathlib.Omega.{arith}
use mathlib.Core.Bool.{Bool, false, ◌||◌}
use mathlib.Core.List.{List, [], ◌∷◌}
use Prim.Native.Nat.{ℕ}
use leveldb_study.Base.Tests.{◌==◌, if◌then◌else◌}

-- `a[k] = v`.
abbrev pub update {ℓ} : {A : Type ℓ} → (ℕ → A) → ℕ → A → ℕ → A
update f k v j = if j == k then v else f j

-- `std::set<uint64_t>`: `count`, `insert` and `erase`.
abbrev pub has : ℕ → List ℕ → Bool
has n [] = false
has n (m ∷ s) = n == m || has n s

abbrev pub put : ℕ → List ℕ → List ℕ
put n s = if has n s then s else n ∷ s

abbrev pub erase : ℕ → List ℕ → List ℕ
erase n [] = []
erase n (m ∷ s) = if n == m then erase n s else m ∷ erase n s

pub update_self {ℓ} : {A : Type ℓ} (f : ℕ → A) (k : ℕ) (v : A) → update f k v k ≡ v
update_self f k v = ground arith
