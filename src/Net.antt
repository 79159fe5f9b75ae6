-- ===== src/Net.antt =====
-- The part of Python's `ipaddress` that the target policy uses: addresses, networks that are read
-- with strict=False, membership and overlap. `Net/Parse` reads the texts.
pub mod Parse
pub mod Overlap
use bonerepo.Prelude.{ℕ, ◌+◌, ◌-◌, ◌%◌, ◌^◌, Bool, true, false, ◌&&◌, ◌||◌, ◌==◌}

pub data Version : Type 0 where
  v4 v6 : Version

unfoldable pub same_version : Version → Version → Bool
same_version v4 v4 = true
same_version v6 v6 = true
same_version _ _ = false

-- max_prefixlen
abbrev pub width : Version → ℕ
width v4 = 32
width v6 = 128

pub record Address : Type 0 where
  pub version : Version
  pub value : ℕ

pub record Network : Type 0 where
  pub version : Version
  pub network_address : ℕ
  pub prefixlen : ℕ

-- The number of addresses, 2 ^ (width - prefixlen).
abbrev pub size : Network → ℕ
size n = 2 ^ (width n.version - n.prefixlen)

-- `ip & netmask`: clears the host bits.
abbrev pub masked : ℕ → ℕ → ℕ
masked value block = value - value % block

-- strict=False: the host bits of the address that is written are dropped.
unfoldable pub network_of : Version → ℕ → ℕ → Network
network_of v value prefix = record {
  version = v;
  network_address = masked value (2 ^ (width v - prefix));
  prefixlen = prefix;
}

abbrev pub broadcast : Network → ℕ
broadcast n = n.network_address + size n - 1

unfoldable pub has_value : Network → ℕ → Bool
has_value n value = masked value (size n) == n.network_address

-- `address in network`: False where the versions differ
unfoldable pub has_address : Network → Address → Bool
unfolding has_value same_version
has_address n a = same_version n.version a.version && has_value n a.value

-- `network.overlaps(other)`
unfoldable pub overlaps : Network → Network → Bool
unfolding has_value same_version
overlaps n m =
    same_version n.version m.version
    && (has_value n m.network_address
        || has_value n (broadcast m)
        || has_value m n.network_address
        || has_value m (broadcast n))
