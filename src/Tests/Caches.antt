-- ===== src/Tests/Caches.antt =====
-- A cache that never evicts, and the encoding of a number in eight bytes.
use leveldb_study.Base.{
  sym, some_inj, ℕ, zero, suc, ◌+◌, ◌-◌, ◌*◌, ◌/◌, ◌%◌, ◌^◌, ◌<◌, ◌≡◌, refl, Option, some, [], ◌∷◌,
  arith, if◌then◌else◌, length, is_some, inl, inr, Bool-cases,
}
use leveldb_study.Demo.{bytes_eq, bytes_eq_lem}
use leveldb_study.Status.{Bytes}
use leveldb_study.Cache.{Cache, IsCache}
use leveldb_study.Table.Blocks.{IsFixed64}

-- The least significant byte first.
abbrev pub fixed : ℕ → ℕ → Bytes
fixed zero n = []
fixed (suc bytes) n = n % 256 ∷ fixed bytes (n / 256)

length-fixed : (bytes n : ℕ) → length (fixed bytes n) ≡ bytes
length-fixed zero n = refl
length-fixed (suc bytes) n = omega (arith, length-fixed bytes (n / 256))

power : (n : ℕ) → 256 ^ suc n ≡ 256 * 256 ^ n
power n = omega arith

below : (a n : ℕ) → a < 256 ^ suc n → a / 256 < 256 ^ n
below a n h = omega (arith, h, power n)

fixed-injective :
    (bytes a b : ℕ) → a < 256 ^ bytes → b < 256 ^ bytes → fixed bytes a ≡ fixed bytes b → a ≡ b
fixed-injective zero a b h k e = omega arith
fixed-injective (suc bytes) a b h k e =
    let heads : a % 256 ≡ b % 256 = cc in
    let tails : fixed bytes (a / 256) ≡ fixed bytes (b / 256) = cc in
    let quotients =
      fixed-injective bytes (a / 256) (b / 256) (below a bytes h) (below b bytes k) tails in
    omega (arith, heads, quotients)

pub fixed-IsFixed64 : IsFixed64 (fixed 8)
fixed-IsFixed64 = record {
  eight = length-fixed 8;
  injective = λ a b h k e. fixed-injective 8 a b (omega arith) (omega arith) e;
}

-- The number of pins and the entries; a handle is its value.
abbrev pub map_cache : (V : Type 0) → Cache V
map_cache V = record {
  State = ℕ × (Bytes → Option V);
  Handle = V;
  new_id = λ s. (7, s);
  lookup = λ k s. (s.1 k, (if is_some (s.1 k) then s.0 + 1 else s.0, s.1));
  insert = λ k v n s. (v, (s.0 + 1, λ k'. if bytes_eq k' k then some v else s.1 k'));
  value = λ h s. h;
  release = λ h s. (s.0 - 1, s.1);
}

abbrev pub map_cache-IsCache : (V : Type 0) → IsCache (map_cache V)
map_cache-IsCache V = record {
  contents = λ s. s.1;
  pins = λ s. s.0;
  new_id-contents = λ s k v h. h;
  lookup-contents = λ k k' v s h. h;
  lookup-value = λ k h s e. e;
  insert-contents = λ k k' v v' n s. elim (Bool-cases (bytes_eq k' k)) [
    | inl p ↦ rw p (λ h. inl (bytes_eq_lem k' k p, sym (some_inj h)))
    | inr p ↦ rw p (λ h. inr h)
  ];
  insert-value = λ k v n s. refl;
  release-contents = λ h k v s there. there;
  new_id-pins = λ s. refl;
  lookup-pins_some = λ k h s e. rw e refl;
  lookup-pins_none = λ k s e. rw e refl;
  insert-pins = λ k v n s. refl;
  release-pins = λ h s. refl;
}
