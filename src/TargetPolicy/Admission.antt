-- ===== src/TargetPolicy/Admission.antt =====
-- What an allowlist that was accepted can permit of the hosts that are never to be reached.
use mathlib.Core.Path.{subst}
use bonerepo.Prelude.{
  ◌≡◌, refl, true, false, some, none, List, [], ◌∷◌, any_of, ok, Among, here, there, ◌⊎◌, inl, inr,
  arith, Bool-cases, Option-cases, ||-eq-true,
}
use bonerepo.Prelude.Texts.{
  Text, codes, text_eq, text_eq_sound, lower, strip, starts_with, remove_prefix,
}
use bonerepo.Net.{Address}
use bonerepo.Net.Parse.{ip_address, ip_network}
use bonerepo.Net.Parse.Aligned.{ip_network-IsAligned}
use bonerepo.TargetPolicy.{
  blocked_names, is_blocked, is_cidr, check_bare, check_candidate, check_entry, validate_entries,
  in_network, permits, matches_allowlist,
}
use bonerepo.TargetPolicy.Blocked.{check_network_sound}

-- A lowered host that is a blocked address or a blocked name.
abbrev pub IsForbidden : Text → Type 0
IsForbidden candidate =
    ((a : Address) × (ip_address candidate ≡ some a) × (is_blocked a ≡ true))
    ⊎ (any_of (text_eq candidate) blocked_names ≡ true)

blocked_names-not_addresses :
    (c : Text) → any_of (text_eq c) blocked_names ≡ true → ip_address c ≡ none
unfolding any_of ip_address
blocked_names-not_addresses c h = elim (||-eq-true (text_eq c (codes "localhost")) _ h) [
  | inl e ↦ rw (text_eq_sound c _ e)
  | inr rest ↦ elim (||-eq-true (text_eq c (codes "metadata.google.internal")) _ rest) [
    | inl e ↦ rw (text_eq_sound c _ e)
    | inr f ↦ cc
  ]
]

-- No accepted network permits a forbidden host.
network-safe :
    (c rule : Text)
    → is_cidr rule ≡ true
    → check_candidate rule ≡ none
    → IsForbidden c
    → in_network c rule ≡ false
unfolding in_network check_candidate
network-safe c rule cidr accepted (inr name) = rw (blocked_names-not_addresses c name, in_network)
network-safe c rule cidr accepted (inl (a, e, b)) = elim (Option-cases (ip_network rule)) [
  | inl e' ↦ ground arith
  | inr (n, e') ↦ ground (arith, check_network_sound n a (ip_network-IsAligned rule n e'))
]

-- No accepted hostname is a forbidden host.
name-safe :
    (c : Text)
    → is_cidr c ≡ false
    → starts_with (codes ".") c ≡ false
    → check_candidate c ≡ none
    → ¬ IsForbidden c
unfolding check_candidate check_bare starts_with remove_prefix
name-safe c not_cidr plain accepted (inl (a, e, b)) = ground arith
name-safe c not_cidr plain accepted (inr name) = ground arith

-- An entry that was accepted permits a forbidden host only by its suffix.
entry-safe :
    (c e : Text)
    → check_entry e ≡ none
    → IsForbidden c
    → permits c (lower (strip e)) ≡ true
    → starts_with (codes ".") (lower (strip e)) ≡ true
unfolding check_entry permits
entry-safe c e accepted forbidden permitted =
    let rule = lower (strip e) in
    let checked : check_candidate rule ≡ none = ground arith in
    elim (Bool-cases (starts_with (codes ".") rule)) [
      | inl suffix ↦ suffix
      | inr plain ↦ elim (Bool-cases (is_cidr rule)) [
        | inl cidr ↦ ground (arith, network-safe c rule cidr checked forbidden)
        | inr not_cidr ↦
            let same : c ≡ rule = text_eq_sound c rule (ground arith) in
            absurd (name-safe rule not_cidr plain checked (subst IsForbidden same forbidden))
      ]
    ]

validate_entries-head :
    (e : Text) (es : List Text)
    → validate_entries (e ∷ es) ≡ ok tt
    → (check_entry e ≡ none) × (validate_entries es ≡ ok tt)
unfolding validate_entries
validate_entries-head e es h = ground arith

forbidden_by_suffix :
    (c : Text) (es : List Text)
    → validate_entries es ≡ ok tt
    → IsForbidden c
    → any_of (λ e. permits c (lower (strip e))) es ≡ true
    → (e : Text) × Among e es
      × (permits c (lower (strip e)) ≡ true)
      × (starts_with (codes ".") (lower (strip e)) ≡ true)
unfolding any_of
forbidden_by_suffix c [] accepted forbidden h = cc
forbidden_by_suffix c (e ∷ es) accepted forbidden h =
    let heads = validate_entries-head e es accepted in
    elim (||-eq-true (permits c (lower (strip e))) _ h) [
      | inl p ↦ (e, here refl, p, entry-safe c e heads.0 forbidden p)
      | inr rest ↦
          let found = forbidden_by_suffix c es heads.1 forbidden rest in
          (found.0, there found.1, found.2, found.3)
    ]

-- If an allowlist passes validate_entries and permits a host that is an address of a blocked
-- network or a blocked name, then an entry that permits it is a domain suffix.
pub matches_allowlist-forbidden :
    (host : Text) (es : List Text)
    → validate_entries es ≡ ok tt
    → IsForbidden (lower (strip host))
    → matches_allowlist host es ≡ true
    → (e : Text) × Among e es
      × (permits (lower (strip host)) (lower (strip e)) ≡ true)
      × (starts_with (codes ".") (lower (strip e)) ≡ true)
unfolding matches_allowlist
matches_allowlist-forbidden host es accepted forbidden h =
    forbidden_by_suffix (lower (strip host)) es accepted forbidden (ground arith)
