-- ===== src/TargetPolicy/Permits.antt =====
-- What an allowlist permits, described without the tests of the code.
use mathlib.Core.Path.{subst}
use bonerepo.Prelude.{
  ◌≡◌, refl, sym, ap, ◌↔◌, true, false, some, List, ◌++◌, Among, any_of-Among, Among-any_of, inl,
  inr, arith, Bool-cases, Option-cases, ||-eq-true,
}
use bonerepo.Prelude.Texts.{
  Text, codes, text_eq, text_eq_sound, text_eq_refl, lower, strip, is_empty, starts_with,
  remove_prefix, after_prefix,
}
use bonerepo.Prelude.Texts.Affixes.{ends_with-append, ends_with_sound, after_prefix_sound}
use bonerepo.Net.{Address, Network, has_address}
use bonerepo.Net.Parse.{ip_address, ip_network}
use bonerepo.TargetPolicy.{is_cidr, in_network, under_suffix, permits, matches_allowlist}

-- How a rule permits a host, both lowered.
pub data Permits (c rule : Text) : Type 0 where
  -- the rule is a network that holds the host's address
  by_network :
      (n : Network) (a : Address)
      → is_cidr rule ≡ true
      → ip_network rule ≡ some n
      → ip_address c ≡ some a
      → has_address n a ≡ true
      → Permits c rule
  -- the rule is a dot and the host itself
  by_apex : is_cidr rule ≡ false → rule ≡ codes "." ++ c → Permits c rule
  -- the rule begins with a dot, and the host ends with it
  by_suffix :
      (above below : Text)
      → is_cidr rule ≡ false
      → rule ≡ codes "." ++ below
      → c ≡ above ++ rule
      → Permits c rule
  -- the rule is the host
  by_name : is_cidr rule ≡ false → starts_with (codes ".") rule ≡ false → c ≡ rule → Permits c rule

under_suffix-Permits :
    (c suffix : Text)
    → is_cidr (codes "." ++ suffix) ≡ false
    → under_suffix c suffix ≡ true
    → Permits c (codes "." ++ suffix)
unfolding under_suffix
under_suffix-Permits c suffix plain h = elim (||-eq-true (text_eq c suffix) _ h) [
  | inl e ↦ by_apex plain (cc (text_eq_sound c suffix e))
  | inr e ↦
      let found = ends_with_sound (codes "." ++ suffix) c e in
      by_suffix found.0 suffix plain refl found.1
]

-- A rule that is a dot and a suffix is read as that suffix.
permits-dotted :
    (c suffix : Text)
    → is_cidr (codes "." ++ suffix) ≡ false
    → permits c (codes "." ++ suffix) ≡ under_suffix c suffix
unfolding permits starts_with remove_prefix
permits-dotted c suffix plain = ground arith

starts_with-dot :
    (rule : Text) → starts_with (codes ".") rule ≡ true → (s : Text) × (rule ≡ codes "." ++ s)
unfolding starts_with
starts_with-dot rule h = elim (Option-cases (after_prefix (codes ".") rule)) [
  | inl e ↦ ground arith
  | inr (s, e) ↦ (s, after_prefix_sound (codes ".") rule s e)
]

in_network-Permits :
    (c rule : Text) → is_cidr rule ≡ true → in_network c rule ≡ true → Permits c rule
unfolding in_network
in_network-Permits c rule cidr h = elim (Option-cases (ip_address c)) [
  | inl e ↦ ground arith
  | inr (a, e) ↦ elim (Option-cases (ip_network rule)) [
    | inl e' ↦ ground arith
    | inr (n, e') ↦ by_network n a cidr e' e (ground arith)
  ]
]

permits-Permits : (c rule : Text) → permits c rule ≡ true → Permits c rule
permits-Permits c rule h = elim (Bool-cases (is_cidr rule)) [
  | inl cidr ↦ in_network-Permits c rule cidr (unfold permits in ground arith)
  | inr plain ↦ elim (Bool-cases (starts_with (codes ".") rule)) [
    | inl dot ↦
        let (s, e) = starts_with-dot rule dot in
        subst (Permits c) (sym e) (
          under_suffix-Permits c s (cc (plain, ap is_cidr e))
            (cc (permits-dotted c s (cc (plain, ap is_cidr e)), ap (permits c) e, h)))
    | inr no_dot ↦ by_name plain no_dot (text_eq_sound c rule (unfold permits in ground arith))
  ]
]

Permits-permits : (c rule : Text) → Permits c rule → permits c rule ≡ true
unfolding permits in_network under_suffix
Permits-permits c rule (by_network n a cidr read host inside) = ground arith
Permits-permits c rule (by_apex plain e) =
    rw e (rw (permits-dotted c c (cc (plain, ap is_cidr e))) (ground (arith, text_eq_refl c)))
Permits-permits c rule (by_suffix above below plain e h) = rw e (
    rw (permits-dotted c below (cc (plain, ap is_cidr e)))
      (rw (h, e) (ground (arith, ends_with-append above (codes "." ++ below)))))
Permits-permits c rule (by_name plain no_dot e) = ground (arith, text_eq_refl c)

-- For a host that is not empty once stripped, matches_allowlist is true exactly when some entry
-- permits it, as a network, an apex, a suffix or a name. So an empty allowlist permits nothing.
pub matches_allowlist_iff :
    (host : Text) (es : List Text)
    → is_empty (lower (strip host)) ≡ false
    → (matches_allowlist host es ≡ true)
      ↔ ((e : Text) × Among e es × Permits (lower (strip host)) (lower (strip e)))
unfolding matches_allowlist
matches_allowlist_iff host es filled =
    let c = lower (strip host) in
    let rules = λ (e : Text). permits c (lower (strip e)) in
    (
      (λ h.
          let found = any_of-Among rules es (ground arith) in
          (found.0, found.1, permits-Permits c (lower (strip found.0)) found.2)),
      (λ w.
          let hit = Among-any_of rules w.0 es w.1 (Permits-permits c (lower (strip w.0)) w.2) in
          ground arith),
    )
