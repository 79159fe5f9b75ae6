-- ===== src/TargetPolicy/Tests.antt =====
-- The entries of the unit tests, and the theorems at concrete allowlists.
use bonerepo.Prelude.{◌≡◌, refl, true, some, List, [], ◌∷◌, ok, ◌↔◌, Among, inl}
use bonerepo.Prelude.Texts.{Text, codes, lower, strip, starts_with}
use bonerepo.Net.{v4}
use bonerepo.TargetPolicy.{
  empty_or_padded, every_address, overlaps_blocked, looks_like_path, blocked_name, blocked_address,
  malformed, check_entry, validate_entries, permits, matches_allowlist,
}
use bonerepo.TargetPolicy.Runs.{runs}
use bonerepo.TargetPolicy.Admission.{matches_allowlist-forbidden}
use bonerepo.TargetPolicy.Permits.{Permits, matches_allowlist_iff}

refused_entries :
    (check_entry (codes "") ≡ some empty_or_padded)
    × (check_entry (codes " example.com") ≡ some empty_or_padded)
    × (check_entry (codes "0.0.0.0/0") ≡ some every_address)
    × (check_entry (codes "127.0.0.0/16") ≡ some overlaps_blocked)
    × (check_entry (codes "http://example.com") ≡ some looks_like_path)
    × (check_entry (codes "LocalHost") ≡ some blocked_name)
    × (check_entry (codes "169.254.169.254") ≡ some blocked_address)
    × (check_entry (codes "-bad.example") ≡ some malformed)
unfolding runs
refused_entries = (refl, refl, refl, refl, refl, refl, refl, refl)

abbrev metadata : Text
metadata = codes "169.254.169.254"

abbrev one_suffix : List Text
one_suffix = codes ".254" ∷ []

matches_allowlist-forbidden_example :
    (e : Text) × Among e one_suffix
    × (permits (lower (strip metadata)) (lower (strip e)) ≡ true)
    × (starts_with (codes ".") (lower (strip e)) ≡ true)
unfolding runs
matches_allowlist-forbidden_example =
    matches_allowlist-forbidden metadata one_suffix refl
      (inl (record { version = v4; value = 2852039166 }, refl, refl)) refl

matches_allowlist_iff_example :
    (matches_allowlist (codes "Shop.example.com") (codes ".example.com" ∷ []) ≡ true) ↔ (
      (e : Text) × Among e (codes ".example.com" ∷ [])
      × Permits (lower (strip (codes "Shop.example.com"))) (lower (strip e)))
unfolding runs
matches_allowlist_iff_example =
    matches_allowlist_iff (codes "Shop.example.com") (codes ".example.com" ∷ []) refl

-- An accepted suffix that permits a blocked address.
suffix_permits_blocked :
    (validate_entries one_suffix ≡ ok tt)
    × (check_entry metadata ≡ some blocked_address)
    × (matches_allowlist metadata one_suffix ≡ true)
unfolding runs
suffix_permits_blocked = (refl, refl, refl)
