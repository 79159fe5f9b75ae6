-- ===== src/TargetPolicy/Blocked.antt =====
-- A network that is accepted holds no blocked address.
use bonerepo.Prelude.{◌*◌, ◌^◌, ◌+◌, ◌≡◌, true, false, List, [], ◌∷◌, any_of, none, arith}
use bonerepo.Net.{Address, Network, has_address, overlaps, v4, v6}
use bonerepo.Net.Overlap.{IsAligned, disjoint_of_overlaps, network_of-IsAligned}
use bonerepo.TargetPolicy.{blocked_networks, is_blocked, check_network}

abbrev AllAligned : List Network → Type 0
AllAligned [] = Unit
AllAligned (m ∷ ms) = IsAligned m × AllAligned ms

blocked_networks-AllAligned : AllAligned blocked_networks
blocked_networks-AllAligned = (
  network_of-IsAligned v4 (127 * 2 ^ 24) 8,
  (
    network_of-IsAligned v4 (169 * 2 ^ 24 + 254 * 2 ^ 16) 16,
    (network_of-IsAligned v6 1 128, (network_of-IsAligned v6 (0xfe80 * 2 ^ 112) 10, tt)),
  ),
)

disjoint_from_all :
    (n : Network) (a : Address) (ms : List Network)
    → IsAligned n
    → AllAligned ms
    → any_of (overlaps n) ms ≡ false
    → any_of (λ m. has_address m a) ms ≡ true
    → has_address n a ≡ false
unfolding any_of
disjoint_from_all n a [] al als apart inside = cc
disjoint_from_all n a (m ∷ ms) al als apart inside =
    ground (arith, disjoint_of_overlaps n m a al als.0, disjoint_from_all n a ms al als.1)

pub check_network_sound :
    (n : Network) (a : Address)
    → IsAligned n
    → check_network n ≡ none
    → is_blocked a ≡ true
    → has_address n a ≡ false
unfolding check_network is_blocked
check_network_sound n a al accepted blocked =
    disjoint_from_all n a blocked_networks al blocked_networks-AllAligned (ground arith) blocked
