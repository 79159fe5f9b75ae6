-- ===== src/TargetPolicy.antt =====
-- apps/api/plimsoll_api/services/target_policy.py: which entries an allowlist may hold, and which
-- hosts it permits. The stored policy is in Services/TargetPolicies.
pub mod Blocked
pub mod Admission
pub mod Permits
pub mod Runs
mod Tests
use bonerepo.Prelude.{
  ℕ, ◌+◌, ◌*◌, ◌^◌, Bool, true, false, not, ◌&&◌, ◌||◌, Option, none, some, List, [], ◌∷◌, ◌++◌,
  leb, ◌==◌, if◌then◌else◌, length, any_of, all_of, Result, ok, err,
}
use bonerepo.Prelude.Texts.{
  Text, codes, text_eq, lower, strip, is_empty, has_code, starts_with, remove_prefix, ends_with,
  split_on, is_digit, is_letter,
}
use bonerepo.Contracts.Errors.{validation_failed, entry}
use bonerepo.Errors.{PlimsollError}
use bonerepo.Net.{Address, Network, v4, v6, network_of, has_address, overlaps}
use bonerepo.Net.Parse.{ip_address, ip_network}

-- 127.0.0.0/8, 169.254.0.0/16, ::1/128, fe80::/10
abbrev pub blocked_networks : List Network
blocked_networks =
    network_of v4 (127 * 2 ^ 24) 8
    ∷ network_of v4 (169 * 2 ^ 24 + 254 * 2 ^ 16) 16
    ∷ network_of v6 1 128
    ∷ network_of v6 (0xfe80 * 2 ^ 112) 10
    ∷ []

abbrev pub blocked_names : List Text
blocked_names = codes "localhost" ∷ codes "metadata.google.internal" ∷ []

-- The regular expression HOSTNAME: labels of 1 to 63 letters, digits and dashes, joined by dots,
-- no label with a dash at an end.
unfoldable pub is_label_code : ℕ → Bool
unfolding is_letter is_digit
is_label_code c = is_letter c || is_digit c || c == b'-'

unfoldable pub dash_first : Text → Bool
dash_first [] = false
dash_first (c ∷ s) = c == b'-'

unfoldable pub dash_last : Text → Bool
dash_last [] = false
dash_last (c ∷ []) = c == b'-'
dash_last (c ∷ d ∷ s) = dash_last (d ∷ s)

unfoldable pub is_label : Text → Bool
unfolding is_label_code dash_first dash_last is_empty all_of
is_label s =
    not (is_empty s)
    && leb (length s) 63
    && all_of is_label_code s
    && not (dash_first s)
    && not (dash_last s)

unfoldable pub is_hostname : Text → Bool
unfolding is_label split_on all_of
is_hostname s = all_of is_label (split_on b'.' s)

-- The reasons that `_refuse` is called with, in the order of the checks.
pub data Refusal : Type 0 where
  empty_or_padded every_address overlaps_blocked looks_like_path blocked_name blocked_address :
      Refusal
  malformed : Refusal

-- `_refuse`
unfoldable pub refuse : Text → Refusal → PlimsollError
refuse e reason = record { code = validation_failed; details = some (entry e) }

unfoldable pub is_cidr : Text → Bool
unfolding has_code
is_cidr value = has_code b'/' value && elim (ip_network value) [ none ↦ false | some _ ↦ true ]

-- The body of the loop in `validate_entries`: the first reason to refuse the entry, if any.
unfoldable pub check_network : Network → Option Refusal
unfolding any_of
check_network n =
    if n.prefixlen == 0
    then some every_address
    else if any_of (overlaps n) blocked_networks
    then some overlaps_blocked
    else none

unfoldable pub is_blocked : Address → Bool
unfolding any_of
is_blocked a = any_of (λ n. has_address n a) blocked_networks

unfoldable pub check_bare : Text → Option Refusal
unfolding any_of
check_bare bare =
    if any_of (text_eq bare) blocked_names then some blocked_name else elim (ip_address bare) [
      | some a ↦ if is_blocked a then some blocked_address else none
      | none ↦ if is_hostname bare then none else some malformed
    ]

unfoldable pub check_candidate : Text → Option Refusal
check_candidate candidate =
    if is_cidr candidate
    then elim (ip_network candidate) [ none ↦ none | some n ↦ check_network n ]
    else if has_code b'/' candidate
    then some looks_like_path
    else check_bare (remove_prefix (codes ".") candidate)

unfoldable pub check_entry : Text → Option Refusal
check_entry e =
    let candidate = lower (strip e) in
    if is_empty candidate || not (text_eq candidate (lower e))
    then some empty_or_padded
    else check_candidate candidate

unfoldable pub validate_entries : List Text → Result PlimsollError (Unit {0})
unfolding check_entry refuse
validate_entries [] = ok tt
validate_entries (e ∷ entries) =
    let rest = validate_entries entries in
    elim (check_entry e) [ none ↦ rest | some reason ↦ err (refuse e reason) ]

-- The body of the loop in `matches_allowlist`, at a host and a rule that are lowered.
unfoldable pub in_network : Text → Text → Bool
in_network candidate rule = elim (ip_address candidate) [
  | none ↦ false
  | some a ↦ elim (ip_network rule) [ none ↦ false | some n ↦ has_address n a ]
]

unfoldable pub under_suffix : Text → Text → Bool
under_suffix candidate suffix =
    text_eq candidate suffix || ends_with (codes "." ++ suffix) candidate

unfoldable pub permits : Text → Text → Bool
permits candidate rule =
    if is_cidr rule
    then in_network candidate rule
    else if starts_with (codes ".") rule
    then under_suffix candidate (remove_prefix (codes ".") rule)
    else text_eq candidate rule

unfoldable pub matches_allowlist : Text → List Text → Bool
unfolding any_of is_empty
matches_allowlist host entries =
    let candidate = lower (strip host) in
    if is_empty candidate then false else any_of (λ e. permits candidate (lower (strip e))) entries
