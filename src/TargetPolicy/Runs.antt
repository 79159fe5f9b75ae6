-- ===== src/TargetPolicy/Runs.antt =====
-- All that a run of the policy computes with.
use bonerepo.Prelude.{any_of, all_of}
use bonerepo.Prelude.Texts.{
  lower, strip, starts_with, is_empty, text_eq, has_code, remove_prefix, ends_with,
}
use bonerepo.Net.{network_of, overlaps, has_address}
use bonerepo.Net.Parse.{ip_address, ip_network}
use bonerepo.TargetPolicy.{
  is_cidr, is_blocked, is_hostname, check_network, check_bare, check_candidate, check_entry,
  validate_entries, in_network, under_suffix, permits, matches_allowlist,
}

unfoldable pub runs : Unit {0}
unfolding any_of all_of lower strip text_eq is_empty has_code remove_prefix starts_with ends_with
    network_of overlaps has_address ip_address ip_network is_cidr is_blocked is_hostname
    check_network check_bare check_candidate check_entry validate_entries in_network under_suffix
    permits matches_allowlist
runs = tt
