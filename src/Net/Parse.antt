-- ===== src/Net/Parse.antt =====
-- How `ipaddress` reads texts: `none` is its ValueError.
mod Tests
pub mod Aligned
use bonerepo.Prelude.{
  ℕ, suc, ◌+◌, ◌-◌, ◌*◌, ◌/◌, ◌%◌, ◌^◌, Bool, true, false, not, ◌&&◌, ◌||◌, Option, none, some,
  List, [], ◌∷◌, leb, ◌==◌, if◌then◌else◌, length, all_of,
}
use bonerepo.Prelude.Texts.{Text, is_empty, has_code, split_on, is_digit}
use bonerepo.Net.{v4, v6, Address, Network, network_of}

infixl 5 ◌>>=◌ ◌>>◌
abbrev ◌>>=◌ {ℓ κ} : {A : Type ℓ} {B : Type κ} → Option A → (A → Option B) → Option B
none >>= f = none
some a >>= f = f a

abbrev ◌>>◌ {ℓ} : {B : Type ℓ} → Option (Unit {0}) → Option B → Option B
m >> k = m >>= λ _. k

abbrev require : Bool → Option (Unit {0})
require true = some tt
require false = none

abbrev or_else {ℓ} : {A : Type ℓ} → Option A → Option A → Option A
or_else none b = b
or_else (some a) b = some a

-- int(s) in a base, over the values of the digits
unfoldable pub number_of : ℕ → (ℕ → ℕ) → ℕ → Text → ℕ
number_of base digit acc [] = acc
number_of base digit acc (c ∷ s) = number_of base digit (acc * base + digit c) s

abbrev decimal : Text → ℕ
decimal = number_of 10 (λ c. c - b'0') 0

is_hex : ℕ → Bool
is_hex c = is_digit c || (leb b'a' c && leb c b'f') || (leb b'A' c && leb c b'F')

hex_value : ℕ → ℕ
hex_value c = if is_digit c then c - b'0' else if leb b'a' c then c - b'a' + 10 else c - b'A' + 10

leading_zero : Text → Bool
leading_zero (c ∷ d ∷ s) = c == b'0'
leading_zero _ = false

-- _parse_octet
parse_octet : Text → Option ℕ
unfolding all_of is_digit number_of leading_zero is_empty
parse_octet s = do
  require (not (is_empty s) && all_of is_digit s && leb (length s) 3 && not (leading_zero s))
  let n = decimal s
  require (leb n 255)
  some n

-- IPv4: four decimal octets
v4_int : Text → Option ℕ
unfolding parse_octet split_on
v4_int s = elim (split_on b'.' s) [
  | (a ∷ b ∷ c ∷ d ∷ []) ↦
      (parse_octet a >>= λ p. parse_octet b >>= λ q.
      parse_octet c >>= λ r. parse_octet d >>= λ t. some (((p * 256 + q) * 256 + r) * 256 + t))
  | _ ↦ none
]

-- _parse_hextet
parse_hextet : Text → Option ℕ
unfolding all_of is_hex hex_value number_of is_empty is_digit
parse_hextet s = do
  require (not (is_empty s) && all_of is_hex s && leb (length s) 4)
  some (number_of 16 hex_value 0 s)

unfoldable pub joined : List ℕ → ℕ
joined [] = 0
joined (h ∷ hs) = h * 65536 ^ length hs + joined hs

hextets : List Text → Option (List ℕ)
unfolding parse_hextet
hextets [] = some []
hextets (p ∷ ps) = parse_hextet p >>= λ h. hextets ps >>= λ hs. some (h ∷ hs)

-- The last part may be an IPv4 address, which stands for two hextets.
read_tail : Text → Option (List ℕ)
unfolding has_code v4_int parse_hextet
read_tail p =
    if has_code b'.' p
    then (v4_int p >>= λ n. some (n / 65536 ∷ n % 65536 ∷ []))
    else (parse_hextet p >>= λ h. some (h ∷ []))

append : List ℕ → List ℕ → List ℕ
append [] ys = ys
append (x ∷ xs) ys = x ∷ append xs ys

-- The hextets of parts of which only the last may be dotted.
parts_of : List Text → Option (List ℕ)
unfolding read_tail parse_hextet append
parts_of [] = some []
parts_of (p ∷ []) = read_tail p
parts_of (p ∷ q ∷ ps) = parse_hextet p >>= λ h. parts_of (q ∷ ps) >>= λ hs. some (h ∷ hs)

-- The parts before and after the one empty part inside, the place of `::`; `none` if there is none.
split_gap : List Text → Option (List Text × List Text)
unfolding is_empty
split_gap [] = none
split_gap (p ∷ []) = none
split_gap (p ∷ q ∷ ps) =
    let rest = split_gap (q ∷ ps) in
    if is_empty p
    then some ([], q ∷ ps)
    else elim rest [ none ↦ none | some (hi, lo) ↦ some (p ∷ hi, lo) ]

-- A leading part may be empty only if nothing stands between it and the gap: `^:` requires `^::`.
high_parts : List Text → Option (List ℕ)
unfolding hextets is_empty
high_parts (p ∷ []) = if is_empty p then some [] else hextets (p ∷ [])
high_parts ps = hextets ps

-- Likewise for the last part: `:$` requires `::$`.
low_parts : List Text → Option (List ℕ)
unfolding parts_of is_empty
low_parts (p ∷ []) = if is_empty p then some [] else parts_of (p ∷ [])
low_parts ps = parts_of ps

-- `::`, which must stand for one hextet at least
with_gap : List ℕ → List ℕ → Option ℕ
unfolding joined
with_gap hi lo = do
  require (leb (length hi + length lo) 7)
  some (joined hi * 65536 ^ (8 - length hi) + joined lo)

-- No gap: eight hextets.
without_gap : List Text → Option ℕ
unfolding parts_of joined
without_gap ps = parts_of ps >>= λ hs. require (length hs == 8) >>= λ _. some (joined hs)

v6_parts : List Text → Option ℕ
unfolding split_gap high_parts low_parts with_gap without_gap
v6_parts [] = none
v6_parts (p ∷ rest) = elim (split_gap rest) [
  | none ↦ without_gap (p ∷ rest)
  | some (hi, lo) ↦ (high_parts (p ∷ hi) >>= λ h. low_parts lo >>= λ l. with_gap h l)
]

-- The text before a scope id, which must not be empty and holds no further `%`.
without_scope : Text → Option Text
unfolding split_on is_empty
without_scope s = elim (split_on b'%' s) [
  | (a ∷ []) ↦ some a
  | (a ∷ scope ∷ []) ↦ if is_empty scope then none else some a
  | _ ↦ none
]

v6_int : Text → Option ℕ
unfolding without_scope v6_parts split_on
v6_int s = without_scope s >>= λ a. v6_parts (split_on b':' a)

-- ip_address: IPv4 first, then IPv6
unfoldable pub ip_address : Text → Option Address
unfolding v4_int v6_int has_code
ip_address s =
    if has_code b'/' s
    then none
    else or_else (v4_int s >>= λ n. some (record { version = v4; value = n }))
        (v6_int s >>= λ n. some (record { version = v6; value = n }))

-- _prefix_from_prefix_string
prefix_of : ℕ → Text → Option ℕ
unfolding all_of is_digit number_of is_empty
prefix_of limit s = do
  require (not (is_empty s) && all_of is_digit s)
  let n = decimal s
  require (leb n limit)
  some n

-- The prefix length p with a mask of p ones and 32 - p zeros, for p from the count down to 0.
mask_search : ℕ → ℕ → Option ℕ
mask_search ℕ.zero mask = if mask == 0 then some 0 else none
mask_search (suc p) mask =
    let rest = mask_search p mask in
    if mask == (2 ^ suc p - 1) * 2 ^ (31 - p) then some (suc p) else rest

-- _prefix_from_ip_string: a netmask, or else a hostmask
prefix_of_mask : Text → Option ℕ
unfolding v4_int mask_search
prefix_of_mask s =
    v4_int s >>= λ mask. or_else (mask_search 32 mask) (mask_search 32 (2 ^ 32 - 1 - mask))

network_v4 : Text → Text → Option Network
unfolding v4_int prefix_of prefix_of_mask
network_v4 a m =
    v4_int a >>= λ n. or_else (prefix_of 32 m) (prefix_of_mask m) >>= λ p. some (network_of v4 n p)

network_v6 : Text → Text → Option Network
unfolding v6_int prefix_of
network_v6 a m = v6_int a >>= λ n. prefix_of 128 m >>= λ p. some (network_of v6 n p)

-- ip_network(s, strict=False), for a text with a `/`, which is all that the policy asks for
ip_network_parts : List Text → Option Network
unfolding network_v4 network_v6
ip_network_parts (a ∷ m ∷ []) = or_else (network_v4 a m) (network_v6 a m)
ip_network_parts _ = none

unfoldable pub ip_network : Text → Option Network
unfolding ip_network_parts split_on
ip_network s = ip_network_parts (split_on b'/' s)
