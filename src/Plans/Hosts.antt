-- ===== src/Plans/Hosts.antt =====
-- The loop of parse_plan: the targets that it adds, and where their hosts come from.
use mathlib.Core.Path.{subst}
use bonerepo.Prelude.{
  ℕ, ◌≡◌, ◌≢◌, refl, sym, ap, ◌∙◌, List, [], ◌∷◌, ◌++◌, Among, here, there, ◌⊎◌, inl, inr,
}
use bonerepo.Prelude.Texts.{Text}
use bonerepo.Plans.{
  Element, PlanTarget, Found, Props, Branch, thread_group, transaction_controller, timer,
  csv_data_set, config_element, http_sampler, no_branch, branch_at, domain_of, domain_prop,
  value_of, or_else, string_props, take_branch, add_file, set_defaults, add_target, target_at, scan,
}

Among-append : {A : Type 0} (x : A) (xs ys : List A) → Among x xs → Among x (xs ++ ys)
Among-append x [] ys m = elim m [ ]
Among-append x (y ∷ xs) ys (here e) = here e
Among-append x (y ∷ xs) ys (there m) = there (Among-append x xs ys m)

append-Among : {A : Type 0} (x a : A) (xs : List A) → Among x (xs ++ a ∷ []) → Among x xs ⊎ (x ≡ a)
append-Among x a [] (here e) = inr e
append-Among x a [] (there m) = elim m [ ]
append-Among x a (y ∷ xs) (here e) = inl (here e)
append-Among x a (y ∷ xs) (there m) = elim (append-Among x a xs m) [
  | inl n ↦ inl (there n)
  | inr e ↦ inr e
]

Among-last : {A : Type 0} (a : A) (xs : List A) → Among a (xs ++ a ∷ [])
Among-last a [] = here refl
Among-last a (x ∷ xs) = there (Among-last a xs)

-- Some target has the host.
abbrev pub HasHost : Text → List PlanTarget → Type 0
HasHost host targets = (t : PlanTarget) × Among t targets × (t.host ≡ host)

pub add_target-grows :
    (props : Props) (host : Text) (t : PlanTarget) (found : Found)
    → Among t found.targets
    → Among t (add_target props host found).targets
unfolding add_target
add_target-grows props [] t found m = m
add_target-grows props (c ∷ s) t found m = Among-append t found.targets _ m

take_branch-grows :
    (b : Branch) (e : Element) (t : PlanTarget) (found : Found)
    → Among t found.targets
    → Among t (take_branch b e found).targets
unfolding take_branch
take_branch-grows thread_group e t found m = m
take_branch-grows transaction_controller e t found m = m
take_branch-grows timer e t found m = m
take_branch-grows csv_data_set e t found m =
    elim (value_of _ (string_props e)) as (λ s. Among t (add_file s found).targets) [
      | [] ↦ unfold add_file in m
      | c ∷ s ↦ unfold add_file in m
    ]
take_branch-grows config_element e t found m =
    elim (domain_of e) as (λ s. Among t (set_defaults (string_props e) s found).targets) [
      | [] ↦ unfold set_defaults in m
      | c ∷ s ↦ unfold set_defaults in m
    ]
take_branch-grows http_sampler e t found m = add_target-grows (string_props e) _ t found m
take_branch-grows no_branch e t found m = m

scan-grows :
    (elements : List Element) (t : PlanTarget) (found : Found)
    → Among t found.targets
    → Among t (scan elements found).targets
unfolding scan
scan-grows [] t found m = m
scan-grows (e ∷ elements) t found m =
    scan-grows elements t _ (take_branch-grows (branch_at e) e t found m)

add_target-HasHost :
    (props : Props) (c : ℕ) (s : Text) (found : Found)
    → HasHost (c ∷ s) (add_target props (c ∷ s) found).targets
unfolding add_target target_at
add_target-HasHost props c s found =
    (target_at props found.defaults (c ∷ s), Among-last _ found.targets, refl)

take_branch-HasHost :
    (e : Element) (found : Found) (host : Text)
    → domain_of e ≡ host
    → host ≢ []
    → HasHost host (take_branch http_sampler e found).targets
unfolding take_branch or_else
take_branch-HasHost e found [] h filled = absurd (filled refl)
take_branch-HasHost e found (c ∷ s) h filled = rw h (add_target-HasHost (string_props e) c s found)

pub scan-HasHost :
    (elements : List Element) (e : Element) (found : Found)
    → Among e elements
    → branch_at e ≡ http_sampler
    → domain_of e ≢ []
    → HasHost (domain_of e) (scan elements found).targets
unfolding scan
scan-HasHost [] e found m b filled = elim m [ ]
scan-HasHost (x ∷ elements) e found (here same) b filled =
    let added = take_branch-HasHost e found (domain_of e) refl filled in
    let step : take_branch http_sampler e found ≡ take_branch (branch_at x) x found =
      ap (λ k. take_branch k e found) (sym b) ∙ ap (λ y. take_branch (branch_at y) y found) same in
    (
      added.0,
      scan-grows elements added.0 _ (subst (λ (f : Found). Among added.0 f.targets) step added.1),
      added.2,
    )
scan-HasHost (x ∷ elements) e found (there m) b filled =
    scan-HasHost elements e (take_branch (branch_at x) x found) m b filled

-- Where a host comes from: it is the domain of a sampler or of a configuration element.
pub record Origin (all : List Element) (host : Text) : Type 0 where
  pub element : Element
  pub among : Among element all
  pub branch : (branch_at element ≡ http_sampler) ⊎ (branch_at element ≡ config_element)
  pub domain : domain_of element ≡ host
  pub filled : host ≢ []

module _ (all : List Element) where
  abbrev pub DefaultsFrom : Props → Type 0
  DefaultsFrom props = value_of domain_prop props ≢ [] → Origin all (value_of domain_prop props)

  abbrev pub TargetsFrom : List PlanTarget → Type 0
  TargetsFrom targets = (t : PlanTarget) → Among t targets → Origin all t.host

  abbrev pub AllFrom : Found → Type 0
  AllFrom found = TargetsFrom found.targets × DefaultsFrom found.defaults

  pub add_target-TargetsFrom :
      (props : Props) (host : Text) (found : Found)
      → (host ≢ [] → Origin all host)
      → TargetsFrom found.targets
      → TargetsFrom (add_target props host found).targets
  unfolding add_target target_at
  add_target-TargetsFrom props [] found o h = h
  add_target-TargetsFrom props (c ∷ s) found o h = λ t m. elim (append-Among t _ found.targets m) [
    | inl n ↦ h t n
    | inr e ↦ subst (λ (u : PlanTarget). Origin all u.host) (sym e) (o (λ e'. cc))
  ]

  add_target-DefaultsFrom :
      (props : Props) (host : Text) (found : Found)
      → DefaultsFrom found.defaults
      → DefaultsFrom (add_target props host found).defaults
  unfolding add_target
  add_target-DefaultsFrom props [] found from = from
  add_target-DefaultsFrom props (c ∷ s) found from = from

  set_defaults-AllFrom :
      (e : Element) (host : Text) (found : Found)
      → domain_of e ≡ host
      → Among e all
      → branch_at e ≡ config_element
      → AllFrom found
      → AllFrom (set_defaults (string_props e) host found)
  unfolding set_defaults domain_of
  set_defaults-AllFrom e [] found h m b from = from
  set_defaults-AllFrom e (c ∷ s) found h m b from = (
    from.0,
    λ filled. record { element = e; among = m; branch = inr b; domain = refl; filled = filled },
  )

  sampler-Origin :
      (e : Element) (own : Text) (props : Props)
      → domain_of e ≡ own
      → Among e all
      → branch_at e ≡ http_sampler
      → DefaultsFrom props
      → or_else own (value_of domain_prop props) ≢ []
      → Origin all (or_else own (value_of domain_prop props))
  unfolding or_else
  sampler-Origin e [] props h m b from filled = from filled
  sampler-Origin e (c ∷ s) props h m b from filled = record {
    element = e;
    among = m;
    branch = inl b;
    domain = h;
    filled = filled;
  }

  take_branch-AllFrom :
      (k : Branch) (e : Element) (found : Found)
      → branch_at e ≡ k
      → Among e all
      → AllFrom found
      → AllFrom (take_branch k e found)
  unfolding take_branch
  take_branch-AllFrom thread_group e found b m from = from
  take_branch-AllFrom transaction_controller e found b m from = from
  take_branch-AllFrom timer e found b m from = from
  take_branch-AllFrom csv_data_set e found b m from =
      elim (value_of _ (string_props e)) as (λ s. AllFrom (add_file s found)) [
        | [] ↦ unfold add_file in from
        | c ∷ s ↦ unfold add_file in from
      ]
  take_branch-AllFrom config_element e found b m from =
      set_defaults-AllFrom e (domain_of e) found refl m b from
  take_branch-AllFrom http_sampler e found b m from =
      let host = or_else (domain_of e) (value_of domain_prop found.defaults) in
      (
        add_target-TargetsFrom (string_props e) host found
            (sampler-Origin e (domain_of e) found.defaults refl m b from.1) from.0,
        add_target-DefaultsFrom (string_props e) host found from.1,
      )
  take_branch-AllFrom no_branch e found b m from = from

  pub scan-AllFrom :
      (elements : List Element) (found : Found)
      → ((e : Element) → Among e elements → Among e all)
      → AllFrom found
      → AllFrom (scan elements found)
  unfolding scan
  scan-AllFrom [] found sub from = from
  scan-AllFrom (e ∷ elements) found sub from =
      scan-AllFrom elements _ (λ x m. sub x (there m))
        (take_branch-AllFrom (branch_at e) e found refl (sub e (here refl)) from)
