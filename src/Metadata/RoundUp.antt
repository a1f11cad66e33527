-- ===== src/Metadata/RoundUp.antt =====
-- src/metadata/mod.rs `round_up`, and `round_up_usize` of src/metadata/layout.rs, whose body is
-- the same.
use Prim.Native.Nat.{bit_and}
use native.Mathlib.Nat.{pow-suc, one-le-pow, mul-mod_left}
use erofs_utils_rust.Base.{
  ℕ, zero, suc, ◌+◌, ◌-◌, ◌*◌, ◌/◌, ◌%◌, ◌^◌, ◌≤◌, ◌<◌, ◌≡◌, sym, ap, ap₂, ◌∙◌, arith, add64, sub64,
  not64,
}
use erofs_utils_rust.Base.Bits.{bit_and_high}

-- `(val + align - 1) & !(align - 1)`.
unfoldable pub round_up : ℕ → ℕ → ℕ
round_up val align = bit_and (sub64 (add64 val align) 1) (not64 (sub64 align 1))

pow_add : (m k : ℕ) → 2 ^ (m + k) ≡ 2 ^ m * 2 ^ k
pow_add zero k = let e : 0 + k ≡ k = omega arith in ap (λ (t : ℕ). 2 ^ t) e ∙ omega arith
pow_add (suc m) k =
    let e : suc m + k ≡ suc (m + k) = omega arith in
    ap (λ (t : ℕ). 2 ^ t) e
    ∙ omega (
      arith,
      pow-suc 2 (m + k),
      pow-suc 2 m,
      pow_add m k,
      ap (λ (t : ℕ). t * 2 ^ k) (pow-suc 2 m),
    )

-- For an alignment of 2 ^ k, as a quotient.
module _ (k : ℕ) (hk : k < 64) (val : ℕ) (fits : val + 2 ^ k ≤ 2 ^ 64) where
  word : 2 ^ (64 - k) * 2 ^ k ≡ 2 ^ 64
  word =
      let whole : 64 - k + k ≡ 64 = omega arith in
      sym (pow_add (64 - k) k) ∙ ap (λ (t : ℕ). 2 ^ t) whole

  mask : not64 (sub64 (2 ^ k) 1) ≡ (2 ^ (64 - k) - 1) * 2 ^ k
  mask =
      let pred_one : 2 ^ (64 - k) ≡ (2 ^ (64 - k) - 1) + 1 = omega (arith, one-le-pow (64 - k) 2) in
      omega (arith, word, one-le-pow k 2, ap (λ (t : ℕ). t * 2 ^ k) pred_one)

  total : sub64 (add64 val (2 ^ k)) 1 ≡ val + (2 ^ k - 1)
  total = omega (arith, one-le-pow k 2)

  quotient_fits : (val + (2 ^ k - 1)) / 2 ^ k < 2 ^ (64 - k)
  quotient_fits = grind (arith, word, one-le-pow k 2)

  pub round_up-eq : round_up val (2 ^ k) ≡ (val + (2 ^ k - 1)) / 2 ^ k * 2 ^ k
  unfolding round_up
  round_up-eq = ap₂ bit_and total mask ∙ bit_and_high k (64 - k) (val + (2 ^ k - 1)) quotient_fits

  -- For an alignment 2^k with k below 64, and a value whose sum with it stays within 64 bits,
  -- `round_up` gives the least multiple of the alignment that is not below the value.
  pub round_up-IsLeast :
      (val ≤ round_up val (2 ^ k))
      × (round_up val (2 ^ k) < val + 2 ^ k)
      × (round_up val (2 ^ k) % 2 ^ k ≡ 0)
  round_up-IsLeast =
      rw round_up-eq
        (grind (arith, one-le-pow k 2, mul-mod_left ((val + (2 ^ k - 1)) / 2 ^ k) (2 ^ k)))
