-- ===== src/Filename/Numbers.antt =====
-- The numbers in the file names of leveldb/db/filename.cc can be read back.
use leveldb_study.Base.{
  ℕ, zero, suc, ◌+◌, ◌-◌, ◌*◌, ◌/◌, ◌%◌, ◌^◌, ◌<◌, ◌≡◌, refl, ◌∙◌, sym, ap, [], ◌∷◌, ◌++◌, arith,
  ◌==◌, Bool-cases, inl, inr,
}
use native.Mathlib.Nat.{pow-suc}
use leveldb_study.Status.{Bytes}
use leveldb_study.Filename.{decimal, zeros, number_06}

-- The number that a row of digits stands for, read on from what is before it.
unfoldable pub value : ℕ → Bytes → ℕ
value n [] = n
value n (c ∷ cs) = value (n * 10 + (c - 48)) cs

div-lt-pow : (n fuel : ℕ) → n < 10 ^ suc fuel → n / 10 < 10 ^ fuel
div-lt-pow n fuel h = omega (arith, pow-suc 10 fuel)

value-decimal :
    (fuel n : ℕ) (digits : Bytes) → n < 10 ^ fuel → value 0 (decimal fuel n digits) ≡ value n digits
unfolding decimal value
value-decimal zero n digits h = ap (λ m. value m digits) (omega arith)
value-decimal (suc fuel) n digits h = elim (Bool-cases (n == 0)) [
  | inl e ↦ rw e (ap (λ m. value m digits) (let z : n ≡ 0 = ground arith in sym z))
  | inr e ↦ rw e (
      value-decimal fuel (n / 10) ((48 + n % 10) ∷ digits) (div-lt-pow n fuel h)
      ∙ ap (λ m. value m digits) (omega arith))
]

value-zeros : (n : ℕ) (digits : Bytes) → value 0 (zeros n ++ digits) ≡ value 0 digits
unfolding value zeros
value-zeros zero digits = refl
value-zeros (suc n) digits = value-zeros n digits

-- The number in a file name is the number that it was made from.
pub value-number_06 : (n : ℕ) → n < 2 ^ 64 → value 0 (number_06 n) ≡ n
unfolding value number_06
value-number_06 n h = value-zeros _ (decimal 20 n []) ∙ value-decimal 20 n [] (omega arith)
