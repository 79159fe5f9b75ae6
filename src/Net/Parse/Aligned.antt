-- ===== src/Net/Parse/Aligned.antt =====
-- A network that is read from a text has no host bits.
use bonerepo.Prelude.{ℕ, ◌≡◌, none, some, List, [], ◌∷◌, inl, inr, Option, ◌⊎◌, some_eq}
use mathlib.Core.Path.{subst}
use bonerepo.Prelude.Texts.{Text, split_on}
use bonerepo.Net.{Network, network_of, v4, v6}
use bonerepo.Net.Overlap.{IsAligned, network_of-IsAligned}
use bonerepo.Net.Parse.{
  ip_network, network_v4, network_v6, v4_int, v6_int, prefix_of, prefix_of_mask, or_else, ◌>>=◌,
  ip_network_parts,
}

-- The last step of both readers.
built-IsAligned :
    (a p : Option ℕ) (n : Network)
    → (a >>= λ x. p >>= λ q. some (network_of v4 x q)) ≡ some n
    → IsAligned n
built-IsAligned none p n h = cc
built-IsAligned (some x) none n h = cc
built-IsAligned (some x) (some q) n h = subst IsAligned (some_eq h) (network_of-IsAligned v4 x q)

built_v6-IsAligned :
    (a p : Option ℕ) (n : Network)
    → (a >>= λ x. p >>= λ q. some (network_of v6 x q)) ≡ some n
    → IsAligned n
built_v6-IsAligned none p n h = cc
built_v6-IsAligned (some x) none n h = cc
built_v6-IsAligned (some x) (some q) n h = subst IsAligned (some_eq h) (network_of-IsAligned v6 x q)

or_else-cases :
    {A : Type 0} (a b : Option A) {x : A} → or_else a b ≡ some x → (a ≡ some x) ⊎ (b ≡ some x)
or_else-cases none b h = inr h
or_else-cases (some y) b h = inl h

read-IsAligned : (parts : List Text) (n : Network) → ip_network_parts parts ≡ some n → IsAligned n
unfolding ip_network_parts
read-IsAligned (a ∷ m ∷ []) n h = elim (or_else-cases (network_v4 a m) (network_v6 a m) h) [
  | inl e ↦
      unfold network_v4 in
      built-IsAligned (v4_int a) (or_else (prefix_of 32 m) (prefix_of_mask m)) n e
  | inr e ↦ unfold network_v6 in built_v6-IsAligned (v6_int a) (prefix_of 128 m) n e
]
read-IsAligned [] n h = cc
read-IsAligned (a ∷ []) n h = cc
read-IsAligned (a ∷ b ∷ c ∷ r) n h = cc

pub ip_network-IsAligned : (s : Text) (n : Network) → ip_network s ≡ some n → IsAligned n
unfolding ip_network
ip_network-IsAligned s n h = read-IsAligned (split_on b'/' s) n h
