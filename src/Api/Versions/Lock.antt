-- ===== src/Api/Versions/Lock.antt =====
-- The version test of the UPDATE statement.
use bonerepo.Store.Results.{kept_after, or_raise-ok, bind-Ran}
use bonerepo.Store.{test_tenant, World}
use bonerepo.Prelude.{
  ℕ, ◌+◌, ◌≡◌, refl, subst, inl, inr, true, false, Bool-cases, ◌&&◌, ◌==◌, &&-eq-true, ==_iff,
  Option, none, some, List, Among, first-Among, ok, arith, ap,
}
use bonerepo.Tokens.{AccessClaims}
use bonerepo.Contracts.Tests.{TestUpdate}
use bonerepo.Store.Rows.{PerformanceTest}
use bonerepo.Store.Table.{visible, select_first, update_where, is_int4}
use bonerepo.Repositories.PerformanceTests as repo
use bonerepo.Services.PerformanceTests as tests
use bonerepo.Services.Keeps.PerformanceTests.{require_test, recheck, after_update}
use bonerepo.Api.Versions.Stable.{Holds}
use bonerepo.Api.Versions.Rows.{kept, changed, Among-update_where}
use bonerepo.Api.Versions.Keyed.{WellKept, Keyed-same, WellKept-Stable, Past, Past-Stable}
use bonerepo.Api.Versions.Requests.{repositories-Stable}

-- What the statement looks for: a visible row of the identifier at the version.
pub matched :
    (org : Option ℕ) (id v : ℕ) (rows : List PerformanceTest) (r : PerformanceTest)
    → select_first org (repo.at_version id v) rows ≡ some r
    → Among r rows
      × ((visible org r && repo.at_version id v r) ≡ true)
      × (r.id ≡ id)
      × (r.version ≡ v)
unfolding select_first repo.at_version
matched org id v rows r h =
    let found = first-Among _ rows r h in
    let both = &&-eq-true (visible org r) (r.id == id && r.version == v) found.1 in
    let parts = &&-eq-true (r.id == id) (r.version == v) both.1 in
    (found.0, found.1, (==_iff r.id id).0 parts.0, (==_iff r.version v).0 parts.1)

-- The rows after the statement, if it found one.
statement-Past :
    (org : Option ℕ) (c : TestUpdate) (now id n : ℕ) (rows : List PerformanceTest)
    (r : PerformanceTest)
    → WellKept n rows
    → select_first org (repo.at_version id c.version) rows ≡ some r
    → Past id c.version n (update_where org (repo.at_version id c.version) (repo.apply c now) rows)
unfolding repo.apply
statement-Past org c now id n rows r k h =
    let found = matched org id c.version rows r h in
    record {
      drawn = let less = k.fresh r found.0 in ground (arith, found.2);
      later = λ s m same. elim (Among-update_where _ _ _ rows s m) [
        | kept t j e miss ↦
            let one =
              Keyed-same rows t r k.keyed j found.0
                (ground (arith, ap (λ x. x.id) e, same, found.2)) in
            cc
        | changed t j e hit ↦
            let one =
              Keyed-same rows t r k.keyed j found.0
                (ground (arith, ap (λ x. x.id) e, same, found.2)) in
            ground (arith, ap (λ x. x.version) e, ap (λ x. x.version) one, found.3)
      ];
    }

-- Where no row is found, none is returned.
pub nothing_found :
    (id : ℕ) (c : TestUpdate) (w : World) (row : PerformanceTest) (w' : World)
    → ¬ (repo.update_found id c none w ≡ (ok (some row), w'))
unfolding repo.update_found
nothing_found id c w row w' h = elim (Bool-cases (is_int4 c.version)) [ inl e ↦ cc | inr e ↦ cc ]

-- Where a row is updated, its next version is in range, and no required column is null.
pub row_accepted :
    (id : ℕ) (c : TestUpdate) (r : PerformanceTest) (w : World) (row : PerformanceTest) (w' : World)
    → repo.update_found id c (some r) w ≡ (ok (some row), w')
    → (is_int4 (r.version + 1) ≡ true) × (repo.nulls_required c ≡ false)
unfolding repo.update_found
row_accepted id c r w row w' h = elim (Bool-cases (is_int4 (r.version + 1))) [
  | inl fits ↦ elim (Bool-cases (repo.nulls_required c)) [ inl e ↦ cc | inr e ↦ (fits, e) ]
  | inr e ↦ cc
]

updated-Past :
    (id : ℕ) (c : TestUpdate) (found : Option PerformanceTest) (w : World) (row : PerformanceTest)
    (w' : World)
    → Holds WellKept w
    → select_first w.org (repo.at_version id c.version) w.db.performance_tests ≡ found
    → repo.update_found id c found w ≡ (ok (some row), w')
    → Holds (Past id c.version) w'
unfolding repo.update_found repo.put
updated-Past id c none w row w' k f h = elim (nothing_found id c w row w' h) [ ]
updated-Past id c (some r) w row w' k f h =
    let past = statement-Past w.org c w.now id w.drawn w.db.performance_tests r k f in
    let accepted = row_accepted id c r w row w' h in
    let same : repo.put _ w ≡ w' = ground (arith, h, accepted) in
    subst (Holds (Past id c.version)) same past

pub update_document-Past :
    (id : ℕ) (c : TestUpdate) (w : World) (row : PerformanceTest) (w' : World)
    → Holds WellKept w
    → repo.update_document id c w ≡ (ok (some row), w')
    → Holds (Past id c.version) w'
unfolding repo.update_document
update_document-Past id c w row w' k h = updated-Past id c _ w row w' k refl h

-- An update that returned has made its version a past one.
pub update-Past :
    (p : AccessClaims) (id : ℕ) (c : TestUpdate) (w : World) (t : tests.TestDocument) (w' : World)
    → Holds WellKept w
    → tests.update p id c w ≡ (ok t, w')
    → Holds (Past id c.version) w'
unfolding tests.update
update-Past p id c w t w' k h =
    let keep = repositories-Stable WellKept WellKept-Stable in
    let r1 = bind-Ran _ _ w t w' h in
    let k1 = kept_after (require_test _ keep id) r1.started k in
    let r2 = bind-Ran _ _ r1.world t w' r1.continued in
    let k2 = kept_after (recheck _ keep r1.value c) r2.started k1 in
    let r3 = bind-Ran _ _ r2.world t w' r2.continued in
    let r4 = bind-Ran _ _ r3.world t w' r3.continued in
    let got = or_raise-ok _ r3.value r3.world r4.value r4.world r4.started in
    let past =
      update_document-Past id c r2.world r4.value r4.world k2
        (ground (arith, r3.started, got.0, got.1)) in
    kept_after (after_update _ (repositories-Stable _ (Past-Stable id c.version)) p id c r4.value)
      r4.continued past

stale-none :
    (id : ℕ) (c : TestUpdate) (v : ℕ) (w : World) (row : PerformanceTest) (w' : World)
    (found : Option PerformanceTest)
    → Holds (Past id v) w
    → c.version ≡ v
    → select_first w.org (repo.at_version id c.version) w.db.performance_tests ≡ found
    → repo.update_found id c found w ≡ (ok (some row), w')
    → ⊥
unfolding repo.update_found
stale-none id c v w row w' none past e f h = nothing_found id c w row w' h
stale-none id c v w row w' (some r) past e f h =
    let found = matched w.org id c.version w.db.performance_tests r f in
    let less = past.later r found.0 found.2 in omega (arith, found.3, e)

-- An update at a past version does not return.
pub update-stale :
    (p : AccessClaims) (id : ℕ) (c : TestUpdate) (v : ℕ) (w : World) (t : tests.TestDocument)
    (w' : World)
    → Holds (Past id v) w
    → c.version ≡ v
    → ¬ (tests.update p id c w ≡ (ok t, w'))
unfolding tests.update repo.update_document
update-stale p id c v w t w' past e h =
    let keep = repositories-Stable (Past id v) (Past-Stable id v) in
    let r1 = bind-Ran _ _ w t w' h in
    let k1 = kept_after (require_test _ keep id) r1.started past in
    let r2 = bind-Ran _ _ r1.world t w' r1.continued in
    let k2 = kept_after (recheck _ keep r1.value c) r2.started k1 in
    let r3 = bind-Ran _ _ r2.world t w' r2.continued in
    let r4 = bind-Ran _ _ r3.world t w' r3.continued in
    let got = or_raise-ok _ r3.value r3.world r4.value r4.world r4.started in
    stale-none id c v r2.world r4.value r4.world _ k2 e refl
      (ground (arith, r3.started, got.0, got.1))
