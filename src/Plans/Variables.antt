-- ===== src/Plans/Variables.antt =====
-- Which names find_variables finds, described without its scan.
use bonerepo.Prelude.{
  ℕ, ◌≡◌, refl, sym, ap, ◌∙◌, Bool, true, false, Option, none, some, List, [], ◌∷◌, ◌++◌, Among,
  here, there, ◌↔◌, ◌⊎◌, inl, inr, arith, all_of, ◌==◌, &&-eq-true, ==_iff, some_eq,
}
use mathlib.Core.Path.{subst}
use bonerepo.Prelude.Texts.{Text, codes, is_digit, is_letter, after_prefix, starts_with}
use bonerepo.Prelude.Texts.Affixes.{after_prefix-append, after_prefix_sound}
use bonerepo.Plans.Scanner.{
  is_word_code, closed_step, closed_word, is_name, name_only, name_behind, match_variable, prepend,
  find_variables,
}

word-not_close : (c : ℕ) → is_word_code c ≡ true → (c == b'}') ≡ false
unfolding is_word_code is_letter is_digit
word-not_close c h = ground arith

closed_word-append :
    (w r : Text) → all_of is_word_code w ≡ true → closed_word (w ++ b'}' ∷ r) ≡ some w
unfolding closed_word all_of
closed_word-append [] r h = refl
closed_word-append (c ∷ w) r h =
    let both = &&-eq-true (is_word_code c) (all_of is_word_code w) h in
    rw (closed_word-append w r both.1, word-not_close c both.0, both.0) refl

abbrev Closed : Text → Text → Type 0
Closed s w = (r : Text) × (s ≡ w ++ b'}' ∷ r) × (all_of is_word_code w ≡ true)

closed_step_sound :
    (c : ℕ) (s w : Text) (rest : Option Text)
    → ((v : Text) → rest ≡ some v → Closed s v)
    → (closes is_word : Bool) → (c == b'}') ≡ closes
    → is_word_code c ≡ is_word
    → closed_step closes is_word c rest ≡ some w
    → Closed (c ∷ s) w
unfolding closed_step all_of
closed_step_sound c s [] rest ih true is_word e f h =
    (s, ap (λ x. x ∷ s) ((==_iff c b'}').0 e), refl)
closed_step_sound c s (d ∷ w) rest ih true is_word e f h = cc
closed_step_sound c s w (some v) ih false true e f h =
    let found = ih v refl in
    let whole : c ∷ v ≡ w = some_eq h in
    subst (Closed (c ∷ s)) whole (found.0, ap (λ t. c ∷ t) found.1, rw (f, found.2) refl)
closed_step_sound c s w none ih false true e f h = cc
closed_step_sound c s w rest ih false false e f h = cc

closed_word_sound : (s w : Text) → closed_word s ≡ some w → Closed s w
unfolding closed_word
closed_word_sound [] w h = cc
closed_word_sound (c ∷ s) w h =
    closed_step_sound c s w (closed_word s) (closed_word_sound s) _ _ refl refl h

-- A name that VARIABLE takes: word characters, the first no digit, and not two underscores first.
pub record IsVariable (name : Text) : Type 0 where
  pub word : all_of is_word_code name ≡ true
  pub start : is_name name ≡ true
  pub plain : starts_with (codes "__") name ≡ false

name_only-IsVariable : (name : Text) → IsVariable name → name_only (some name) ≡ some name
unfolding name_only
name_only-IsVariable name v = rw (v.start, v.plain) refl

match_variable-append :
    (name r : Text) → IsVariable name → match_variable (codes "${" ++ name ++ b'}' ∷ r) ≡ some name
unfolding match_variable name_behind
match_variable-append name r v =
    ap name_behind (after_prefix-append (codes "${") (name ++ b'}' ∷ r))
    ∙ ap name_only (closed_word-append name r v.word)
    ∙ name_only-IsVariable name v

name_only_sound :
    (word name : Text)
    → name_only (some word) ≡ some name
    → (word ≡ name) × (is_name word ≡ true) × (starts_with (codes "__") word ≡ false)
unfolding name_only
name_only_sound word name h = (ground arith, ground arith, ground arith)

closed_name_sound :
    (s name : Text) (word : Option Text)
    → closed_word s ≡ word
    → name_only word ≡ some name
    → (r : Text) × (s ≡ name ++ b'}' ∷ r) × IsVariable name
unfolding name_only
closed_name_sound s name none e h = cc
closed_name_sound s name (some word) e h =
    let closed = closed_word_sound s word e in
    let named = name_only_sound word name h in
    (
      closed.0,
      closed.1 ∙ ap (λ t. t ++ b'}' ∷ closed.0) named.0,
      record {
        word = ap (all_of is_word_code) (sym named.0) ∙ closed.2;
        start = ap is_name (sym named.0) ∙ named.1;
        plain = ap (starts_with (codes "__")) (sym named.0) ∙ named.2;
      },
    )

behind_sound :
    (s name : Text) (rest : Option Text)
    → after_prefix (codes "${") s ≡ rest
    → name_behind rest ≡ some name
    → (r : Text) × (s ≡ codes "${" ++ name ++ b'}' ∷ r) × IsVariable name
unfolding name_behind
behind_sound s name none e h = cc
behind_sound s name (some t) e h =
    let closed = closed_name_sound t name (closed_word t) refl h in
    (closed.0, after_prefix_sound (codes "${") s t e ∙ ap (λ u. codes "${" ++ u) closed.1, closed.2)

match_variable_sound :
    (s name : Text)
    → match_variable s ≡ some name
    → (r : Text) × (s ≡ codes "${" ++ name ++ b'}' ∷ r) × IsVariable name
unfolding match_variable
match_variable_sound s name h = behind_sound s name (after_prefix (codes "${") s) refl h

prepend-there :
    (name : Text) (word : Option Text) (names : List Text)
    → Among name names
    → Among name (prepend word names)
unfolding prepend
prepend-there name none names m = m
prepend-there name (some word) names m = there m

prepend-cases :
    (name : Text) (word : Option Text) (names : List Text)
    → Among name (prepend word names)
    → (word ≡ some name) ⊎ Among name names
unfolding prepend
prepend-cases name none names m = inr m
prepend-cases name (some word) names (here e) = inl (ap some (sym e))
prepend-cases name (some word) names (there m) = inr m

-- `${name}` stands in the text.
abbrev pub Refers : Text → Text → Type 0
Refers name s =
    (before after : Text) × (s ≡ before ++ codes "${" ++ name ++ b'}' ∷ after) × IsVariable name

find_variables-Refers : (s name : Text) → Among name (find_variables s) → Refers name s
unfolding find_variables
find_variables-Refers [] name m = elim m [ ]
find_variables-Refers (c ∷ s) name m =
    elim (prepend-cases name (match_variable (c ∷ s)) (find_variables s) m) [
      | inl e ↦ let found = match_variable_sound (c ∷ s) name e in ([], found.0, found.1, found.2)
      | inr n ↦
          let found = find_variables-Refers s name n in
          (c ∷ found.0, found.1, ap (λ t. c ∷ t) found.2, found.3)
    ]

Refers-find_variables :
    (name before after : Text)
    → IsVariable name
    → Among name (find_variables (before ++ codes "${" ++ name ++ b'}' ∷ after))
unfolding find_variables
Refers-find_variables name [] after v =
    let found : match_variable (codes "${" ++ name ++ b'}' ∷ after) ≡ some name =
      match_variable-append name after v in
    subst (λ w. Among name (prepend w (find_variables (codes "{" ++ name ++ b'}' ∷ after))))
      (sym found) (unfold prepend in here refl)
Refers-find_variables name (c ∷ before) after v =
    prepend-there name _ _ (Refers-find_variables name before after v)

-- The scan finds exactly the names that stand in the text between `${` and `}`.
pub find_variables_iff : (s name : Text) → Among name (find_variables s) ↔ Refers name s
find_variables_iff s name = (
  find_variables-Refers s name,
  λ r.
      subst (λ t. Among name (find_variables t)) (sym r.2) (Refers-find_variables name r.0 r.1 r.3),
)
