-- ===== src/Services/Credentials/Deletion.antt =====
-- A credential that a script repository uses stays, and one that is deleted is gone.
use mathlib.Core.Path.{subst}
use bonerepo.Store.{
  credential_tenant, script_repo_tenant, ◌>>=◌, World, Failure, plimsoll, integrity, pure, raise,
  or_raise,
}
use bonerepo.Store.Results.{bind-Ran, kept_after, or_raise-ok}
use bonerepo.Store.Rows.{Credential, ScriptRepo, credential_deleted}
use bonerepo.Store.Table.{visible, by_id, select, select_first, delete_where}
use bonerepo.Prelude.{
  ℕ, ◌≡◌, refl, sym, ap, ◌∙◌, Bool, true, false, not, ◌&&◌, Option, none, some, List, [], ◌∷◌,
  Among, here, there, inl, inr, arith, ◌==◌, if◌then◌else◌, first, keep, map, any_of, Bool-cases,
  Result, ok, err,
}
use bonerepo.Prelude.Texts.{Text}
use bonerepo.Prelude.Sorting.{text_leb, Among-sort}
use bonerepo.Tokens.{AccessClaims}
use bonerepo.Contracts.Errors.{resource_in_use, script_repos}
use bonerepo.Repositories.Credentials as repo
use bonerepo.Services.Credentials.Sealed.{Kept, noted, ok_same}
use bonerepo.Services.Credentials.{refuse_in_use, delete}

Among-keep :
    {A : Type 0} (p : A → Bool) (x : A) (xs : List A)
    → Among x xs
    → p x ≡ true
    → Among x (keep p xs)
unfolding keep
Among-keep p x [] m h = elim m [ ]
Among-keep p x (y ∷ xs) (here e) h = rw (ap p (sym e) ∙ h) (here e)
Among-keep p x (y ∷ xs) (there m) h = elim (Bool-cases (p y)) [
  | inl t ↦ rw t (there (Among-keep p x xs m h))
  | inr f ↦ rw f (Among-keep p x xs m h)
]

Among-names :
    (r : ScriptRepo) (rows : List ScriptRepo)
    → Among r rows
    → Among r.name (map (λ (s : ScriptRepo). s.name) rows)
Among-names r [] m = elim m [ ]
Among-names r (s ∷ rows) (here e) = here (ap (λ (x : ScriptRepo). x.name) e)
Among-names r (s ∷ rows) (there m) = there (Among-names r rows m)

-- The name of a repository that uses the credential is in the list.
Among-referencing :
    (org : Option ℕ) (id : ℕ) (r : ScriptRepo) (rows : List ScriptRepo)
    → Among r rows
    → visible org r ≡ true
    → repo.refers_to id r ≡ true
    → Among r.name (repo.referencing_in org id rows)
unfolding repo.referencing_in select
Among-referencing org id r rows m seen uses = (Among-sort text_leb r.name _).1 (
    Among-names r _
      (Among-keep (λ s. visible org s && repo.refers_to id s) r rows m (ground arith)))

refused :
    (names : List Text) (w : World) (name : Text)
    → Among name names
    → refuse_in_use names w
      ≡ (err (plimsoll (record { code = resource_in_use; details = some (script_repos names) })), w)
unfolding refuse_in_use raise
refused [] w name m = elim m [ ]
refused (n ∷ names) w name m = refl

first-keep : {A : Type 0} (p : A → Bool) (xs : List A) → first p (keep (λ x. not (p x)) xs) ≡ none
unfolding first keep
first-keep p [] = refl
first-keep p (x ∷ xs) = elim (Bool-cases (p x)) [
  | inl t ↦ rw t (first-keep p xs)
  | inr f ↦ rw f (rw f (first-keep p xs))
]

none_of-Among :
    {A : Type 0} (p : A → Bool) (x : A) (xs : List A)
    → any_of p xs ≡ false
    → Among x xs
    → p x ≡ false
unfolding any_of
none_of-Among p x [] h m = elim m [ ]
none_of-Among p x (y ∷ xs) h (here e) = ap p e ∙ (ground arith)
none_of-Among p x (y ∷ xs) h (there m) = none_of-Among p x xs (ground arith) m

-- What a DELETE that returned has done to a credential that was there.
abbrev Gone : ℕ → World → Type 0
Gone id w =
    (by_id w.org id w.db.credentials ≡ none)
    × ((r : ScriptRepo) → Among r w.db.script_repos → repo.refers_to id r ≡ false)

deletion-Gone :
    (id : ℕ) (w : World) (found used : Bool) (done : Bool) (w' : World)
    → found ≡ true
    → any_of (repo.refers_to id) w.db.script_repos ≡ used
    → ◌≡◌ {A = Result Failure Bool × World}
        (if found && used
          then (err integrity, w)
          else (ok found, repo.put (delete_where w.org (λ r. r.id == id) w.db.credentials) w))
        (ok done, w')
    → Gone id w'
unfolding repo.put delete_where by_id select_first
deletion-Gone id w false used done w' e f h = cc
deletion-Gone id w true true done w' e f h = cc
deletion-Gone id w true false done w' e f h =
    subst (Gone id) (ap (λ (x : Result Failure Bool × World). x.1) h) (
      first-keep (λ (r : Credential). visible w.org r && r.id == id) w.db.credentials,
      λ r m. none_of-Among (repo.refers_to id) r w.db.script_repos f m,
    )

is_found-some : (o : Option Credential) (c : Credential) → o ≡ some c → repo.is_found o ≡ true
unfolding repo.is_found
is_found-some none c h = cc
is_found-some (some d) c h = refl

get-same :
    (id : ℕ) (w : World) (found : Option Credential) (w' : World)
    → repo.get id w ≡ (ok found, w')
    → (by_id w.org id w.db.credentials ≡ found) × (w ≡ w')
unfolding repo.get
get-same id w found w' h = (
  ok_same (ap (λ (x : Result Failure (Option Credential) × World). x.0) h),
  ap (λ (x : Result Failure (Option Credential) × World). x.1) h,
)

referencing-same :
    (id : ℕ) (w : World) (names : List Text) (w' : World)
    → repo.referencing_repos id w ≡ (ok names, w')
    → w ≡ w'
unfolding repo.referencing_repos
referencing-same id w names w' h = ap (λ (x : Result Failure (List Text) × World). x.1) h

refuse-same : (names : List Text) (w w' : World) → refuse_in_use names w ≡ (ok tt, w') → w ≡ w'
unfolding refuse_in_use pure raise
refuse-same [] w w' h = ap (λ (x : Result Failure (Unit {0}) × World). x.1) h
refuse-same (name ∷ names) w w' h = cc

delete-deleted :
    (id : ℕ) (w : World) (c : Credential) (done : Bool) (w' : World)
    → by_id w.org id w.db.credentials ≡ some c
    → repo.delete id w ≡ (ok done, w')
    → Gone id w'
unfolding repo.delete
delete-deleted id w c done w' e h =
    deletion-Gone id w _ (any_of (repo.refers_to id) w.db.script_repos) done w'
      (is_found-some (by_id w.org id w.db.credentials) c e) refl h

Gone-Kept :
    (id : ℕ) (v w : World) → Kept v.db.credentials v.db.script_repos v.org w → Gone id v → Gone id w
Gone-Kept id v w k g = ((λ i. by_id (k.2 i) id (k.0 i)) ∙ g.0, λ r m. g.1 r (subst (Among r) k.1 m))

delete-Gone :
    (principal : AccessClaims) (id : ℕ) (w w' : World)
    → delete principal id w ≡ (ok tt, w')
    → Gone id w'
unfolding delete
delete-Gone principal id w w' h =
    let r1 = bind-Ran _ _ w tt w' h in
    let e1 = get-same id w r1.value r1.world r1.started in
    let r2 = bind-Ran _ _ r1.world tt w' r1.continued in
    let e2 = or_raise-ok _ r1.value r1.world r2.value r2.world r2.started in
    let r3 = bind-Ran _ _ r2.world tt w' r2.continued in
    let e3 = referencing-same id r2.world r3.value r3.world r3.started in
    let r4 = bind-Ran _ _ r3.world tt w' r3.continued in
    let e4 = refuse-same r3.value r3.world r4.world r4.started in
    let r5 = bind-Ran _ _ r4.world tt w' r4.continued in
    let at_start : w ≡ r4.world = e1.1 ∙ e2.1 ∙ e3 ∙ e4 in
    let there_is : by_id r4.world.org id r4.world.db.credentials ≡ some r2.value =
      ap (λ (v : World). by_id v.org id v.db.credentials) (sym at_start) ∙ e1.0 ∙ e2.0 in
    let gone = delete-deleted id r4.world r2.value r5.value r5.world there_is r5.started in
    Gone-Kept id r5.world w'
      (kept_after
        (noted r5.world.db.credentials r5.world.db.script_repos r5.world.org principal
          credential_deleted id none)
        r5.continued (refl, refl, refl))
      gone

-- Deleting a credential that a visible script repository uses raises RESOURCE_IN_USE with a list of
-- names in which that repository's is, and changes nothing. After a deletion that returned, the
-- organisation has no credential of that identifier, and no script repository of any uses it.
pub delete_lem :
    (principal : AccessClaims) (id : ℕ) (w : World)
    → ((c : Credential) (r : ScriptRepo)
        → by_id w.org id w.db.credentials ≡ some c
        → Among r w.db.script_repos
        → visible w.org r ≡ true
        → repo.refers_to id r ≡ true
        → (names : List Text) × Among r.name names
          × (delete principal id w ≡ (
            err (plimsoll (record { code = resource_in_use; details = some (script_repos names) })),
            w,
          )))
      × ((w' : World)
          → delete principal id w ≡ (ok tt, w')
          → (by_id w'.org id w'.db.credentials ≡ none)
            × ((r : ScriptRepo) → Among r w'.db.script_repos → repo.refers_to id r ≡ false))
unfolding delete ◌>>=◌ repo.get or_raise repo.referencing_repos
delete_lem principal id w = (
  λ c r found m seen uses.
      let listed = Among-referencing w.org id r w.db.script_repos m seen uses in
      (
        repo.referencing_in w.org id w.db.script_repos,
        listed,
        rw (found, refused _ w r.name listed) refl,
      ),
  λ w' h. delete-Gone principal id w w' h,
)
