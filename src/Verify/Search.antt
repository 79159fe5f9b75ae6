-- ===== src/Verify/Search.antt =====
-- Where _find_manifest looks, and what a path that the contract accepts can reach.
use bonerepo.Prelude.{
  suc, ◌≡◌, refl, sym, ap, ◌∙◌, Bool, true, false, Option, none, some, List, [], ◌∷◌, ◌++◌, ◌↔◌,
  ◌⊎◌, inl, inr, arith, if◌then◌else◌, Bool-cases, any_of, length, length-append, some_eq,
  ||-eq-false,
}
use bonerepo.Prelude.Texts.{Text, codes, text_eq, text_eq_refl, starts_with, split_on}
use bonerepo.Contracts.Scripts.{is_inside}
use bonerepo.Git.{Checkout}
use bonerepo.Git.Paths.{PurePath, path_of, is_name, collect, join, parent, tail, same_names}
use bonerepo.Verify.{manifest_in, among_parents, find_upward, plan_file, find_manifest}

same_names_refl : (p : List Text) → same_names p p ≡ true
unfolding same_names
same_names_refl [] = refl
same_names_refl (a ∷ p) = rw (text_eq_refl a, same_names_refl p) refl

same_names-length : (p q : List Text) → same_names p q ≡ true → length p ≡ length q
unfolding same_names
same_names-length [] [] h = refl
same_names-length [] (b ∷ q) h = cc
same_names-length (a ∷ p) [] h = cc
same_names-length (a ∷ p) (b ∷ q) h = ap suc (same_names-length p q (ground arith))

longer-same_names :
    (root names : List Text) (name : Text) → same_names (name ∷ names ++ root) root ≡ false
longer-same_names root names name = elim (Bool-cases (same_names (name ∷ names ++ root) root)) [
  | inl e ↦
      absurd (
        omega
          (arith, same_names-length (name ∷ names ++ root) root e, length-append {0} names root))
  | inr e ↦ e
]

among_parents_self : (root : List Text) → among_parents root root ≡ true
unfolding among_parents
among_parents_self [] = same_names_refl []
among_parents_self (a ∷ root) = rw (same_names_refl (a ∷ root)) refl

among_parents-append : (root names : List Text) → among_parents root (names ++ root) ≡ true
unfolding among_parents
among_parents-append root [] = among_parents_self root
among_parents-append root (name ∷ names) = ground (arith, among_parents-append root names)

module _ (is_file : PurePath → Bool) (root : List Text) where
  -- The manifest of the nearest directory that has one, from a directory, given by its names below
  -- the root, up to the root.
  pub data Nearest : List Text → PurePath → Type 0 where
    here :
        {below : List Text} {p : PurePath}
        → p ≡ manifest_in (below ++ root)
        → is_file p ≡ true
        → Nearest below p
    above :
        {name : Text} {below : List Text} {p : PurePath}
        → is_file (manifest_in (name ∷ below ++ root)) ≡ false
        → Nearest below p
        → Nearest (name ∷ below) p

  find_upward-root :
      (names : List Text)
      → (names ≡ root)
      → find_upward is_file root names
        ≡ (if is_file (manifest_in names) then some (manifest_in names) else none)
  unfolding find_upward
  find_upward-root [] e = refl
  find_upward-root (name ∷ names) e =
      rw (ap (same_names (name ∷ names)) (sym e) ∙ same_names_refl (name ∷ names)) refl

  find_upward-below :
      (name : Text) (below : List Text)
      → find_upward is_file root (name ∷ below ++ root) ≡ (
          if is_file (manifest_in (name ∷ below ++ root))
          then some (manifest_in (name ∷ below ++ root))
          else find_upward is_file root (below ++ root))
  unfolding find_upward
  find_upward-below name below =
      rw (longer-same_names root below name, among_parents-append root below) refl

  chosen :
      (p q : PurePath) (rest : Option PurePath)
      → (if is_file q then some q else rest) ≡ some p
      → ((p ≡ q) × (is_file p ≡ true)) ⊎ ((is_file q ≡ false) × (rest ≡ some p))
  chosen p q rest h = elim (Bool-cases (is_file q)) [
    | inl e ↦ let same : q ≡ p = some_eq (ground arith) in inl (sym same, ap is_file (sym same) ∙ e)
    | inr e ↦ inr (e, ground arith)
  ]

  Nearest-found :
      (below : List Text) (p : PurePath)
      → find_upward is_file root (below ++ root) ≡ some p
      → Nearest below p
  Nearest-found [] p h =
      elim (chosen p (manifest_in root) none (sym (find_upward-root root refl) ∙ h)) [
        | inl c ↦ here c.0 c.1
        | inr c ↦ cc (c.1)
      ]
  Nearest-found (name ∷ below) p h =
      elim (chosen p (manifest_in (name ∷ below ++ root)) _
        (sym (find_upward-below name below) ∙ h)) [
          | inl c ↦ here c.0 c.1
          | inr c ↦ above c.0 (Nearest-found below p c.1)
        ]

  first_chosen :
      (p q : PurePath) (rest : Option PurePath)
      → p ≡ q
      → is_file p ≡ true
      → (if is_file q then some q else rest) ≡ some p
  first_chosen p q rest e h = rw (ap is_file (sym e) ∙ h) (ap some (sym e))

  found-Nearest :
      (below : List Text) (p : PurePath)
      → Nearest below p
      → find_upward is_file root (below ++ root) ≡ some p
  found-Nearest [] p (here e h) =
      find_upward-root root refl ∙ first_chosen p (manifest_in root) none e h
  found-Nearest (name ∷ below) p (here e h) =
      find_upward-below name below ∙ first_chosen p (manifest_in (name ∷ below ++ root)) _ e h
  found-Nearest (name ∷ below) p (above f n) =
      find_upward-below name below ∙ rw f (found-Nearest below p n)

-- A name that leads upward.
abbrev pub is_up : Text → Bool
is_up = text_eq (codes "..")

collect-any_of :
    (names rest : List Text)
    → any_of is_up names ≡ false
    → any_of is_up rest ≡ false
    → any_of is_up (collect names rest) ≡ false
unfolding collect any_of
collect-any_of names [] h g = h
collect-any_of names (s ∷ rest) h g =
    let split = ||-eq-false (is_up s) (any_of is_up rest) g in
    elim (Bool-cases (is_name s)) [
      | inl e ↦ rw e (collect-any_of (s ∷ names) rest (rw (split.0) h) split.1)
      | inr e ↦ rw e (collect-any_of names rest h split.1)
    ]

module _ (plan_path : Text) (accepted : is_inside plan_path ≡ true) where
  inside_path :
      ((path_of plan_path).absolute ≡ false) × (any_of is_up (path_of plan_path).names ≡ false)
  unfolding is_inside path_of
  inside_path =
      let split =
        ||-eq-false (starts_with (codes "/") plan_path) (any_of is_up (split_on b'/' plan_path))
          (ground arith) in
      (split.0, collect-any_of [] (split_on b'/' plan_path) (unfold any_of in refl) split.1)

  plan_file-names :
      (tree : Checkout)
      → (plan_file tree plan_path).names ≡ (path_of plan_path).names ++ tree.root.names
  unfolding plan_file join
  plan_file-names tree = rw (inside_path.0) refl

  -- A plan path that the validator of ScriptRepoCreate accepts, and that names a file, has no `..`,
  -- and its plan file is below the root of the checkout. The manifest found for it is exactly that of
  -- the nearest directory that has one, from the plan's up to the root of the checkout.
  pub find_manifest_iff :
      (tree : Checkout) (file : Text) (below : List Text)
      → (path_of plan_path).names ≡ file ∷ below
      → ((plan_file tree plan_path).names ≡ file ∷ below ++ tree.root.names)
        × (any_of is_up (file ∷ below) ≡ false)
        × ((p : PurePath)
            → (find_manifest tree plan_path ≡ some p)
              ↔ Nearest tree.is_file tree.root.names below p)
  unfolding find_manifest parent tail
  find_manifest_iff tree file below named =
      let whole : (plan_file tree plan_path).names ≡ file ∷ below ++ tree.root.names =
        plan_file-names tree ∙ ap (λ names. names ++ tree.root.names) named in
      let start : find_manifest tree plan_path
          ≡ find_upward tree.is_file tree.root.names (below ++ tree.root.names) =
        ap (λ names. find_upward tree.is_file tree.root.names (tail names)) whole in
      (
        whole,
        ap (any_of is_up) (sym named) ∙ inside_path.1,
        λ p. (
          λ h. Nearest-found tree.is_file tree.root.names below p (sym start ∙ h),
          λ n. start ∙ found-Nearest tree.is_file tree.root.names below p n,
        ),
      )
