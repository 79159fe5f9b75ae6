-- ===== src/Net/Overlap.antt =====
-- Networks that do not overlap share no address.
use bonerepo.Prelude.{
  ℕ, zero, suc, ◌+◌, ◌-◌, ◌*◌, ◌/◌, ◌%◌, ◌≤◌, ◌<◌, ◌^◌, ◌≡◌, sym, ◌∙◌, ap, true, false, ◌⊎◌, inl,
  inr, arith,
}
use native.Mathlib.Nat.{
  mod-lt, mod-le, mod-add-mod, mod-eq_of_lt, pow-suc, zero-add, mul-mod_right, div-add-mod,
}
use native.Mathlib.Decide.{dec_le}
use bonerepo.Net.{
  Version, Address, Network, size, masked, width, network_of, has_value, has_address, overlaps,
  same_version,
}

-- The network address has no host bits.
abbrev pub IsAligned : Network → Type 0
IsAligned n = n.network_address % size n ≡ 0

pow_pos : (k : ℕ) → 0 < 2 ^ k
pow_pos zero = omega arith
pow_pos (suc k) = rw pow-suc (omega (arith, pow_pos k))

mod_in_block : (b r s : ℕ) → b % s ≡ 0 → r < s → (b + r) % s ≡ r
mod_in_block b r s al lt = sym (mod-add-mod b s r) ∙ rw al (rw zero-add (mod-eq_of_lt lt))

-- An address in a block that starts at a multiple of the size is masked to that start.
masked_in_block : (x b s : ℕ) → b % s ≡ 0 → b ≤ x → x < b + s → masked x s ≡ b
masked_in_block x b s al lo hi =
    let e : x ≡ b + (x - b) = omega arith in
    let m : x % s ≡ x - b = ap (λ t. t % s) e ∙ mod_in_block b (x - b) s al (omega arith) in
    omega arith

-- An address whose masked value is the start of a block lies in the block.
block_of_masked : (x b s : ℕ) → 0 < s → masked x s ≡ b → (b ≤ x) × (x < b + s)
block_of_masked x b s h e = omega (arith, mod-lt x h, mod-le x s)

pub network_of-IsAligned : (v : Version) (value prefix : ℕ) → IsAligned (network_of v value prefix)
unfolding network_of
network_of-IsAligned v value prefix =
    let block : ℕ = 2 ^ (width v - prefix) in
    let e : masked value block ≡ block * (value / block) = omega (arith, div-add-mod value block) in
    rw e (mul-mod_right block (value / block))

-- Two blocks with a common address: the start of one lies in the other.
common_start :
    (x b s c t : ℕ)
    → 0 < s
    → 0 < t
    → b % s ≡ 0
    → c % t ≡ 0
    → masked x s ≡ b
    → masked x t ≡ c
    → (masked c s ≡ b) ⊎ (masked b t ≡ c)
common_start x b s c t hs ht al al' e e' = elim (dec_le b c) [
  | yes le ↦ inl (
      masked_in_block c b s al le
        (omega (arith, block_of_masked x b s hs e, block_of_masked x c t ht e')))
  | no gt ↦ inr (
      masked_in_block b c t al' (omega arith)
        (omega (arith, block_of_masked x b s hs e, block_of_masked x c t ht e')))
]

-- If two aligned networks do not overlap, an address of one is not an address of the other.
pub disjoint_of_overlaps :
    (n m : Network) (a : Address)
    → IsAligned n
    → IsAligned m
    → overlaps n m ≡ false
    → has_address m a ≡ true
    → has_address n a ≡ false
unfolding overlaps has_address has_value same_version
disjoint_of_overlaps n m a al al' no_overlap inside = ground (
  arith,
  common_start a.value n.network_address (size n) m.network_address (size m)
      (pow_pos (width n.version - n.prefixlen)) (pow_pos (width m.version - m.prefixlen)) al al',
)
