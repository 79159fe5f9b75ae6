-- ===== src/Api/Reads/Updated.antt =====
-- A performance test that is read after it was updated.
use bonerepo.Store.{test_tenant, World, Failure, or_raise, ◌>>=◌, pure, unless, unexpected}
use bonerepo.Prelude.{
  ℕ, ◌≡◌, refl, ◌∙◌, subst, ap, inl, inr, Bool, true, false, Bool-cases, ◌&&◌, ◌||◌, Option, none,
  some, List, [], ◌∷◌, first, ok, arith,
}
use bonerepo.Tokens.{AccessClaims}
use bonerepo.Contracts.Tests.{TestUpdate}
use bonerepo.Store.Rows.{PerformanceTest, Workload}
use bonerepo.Store.Table.{visible, by_id, select_first, update_where}
use bonerepo.Store.Results.{bind-Ran, kept_after, or_raise-ok}
use bonerepo.Repositories.PerformanceTests as repo
use bonerepo.Services.PerformanceTests as tests
use bonerepo.Api.Versions.Keyed.{Keyed, WellKept}
use bonerepo.Api.Versions.Lock.{matched, nothing_found, row_accepted}
use bonerepo.Api.Reads.Unmoved.{Unmoved, noted, given_plans, given_rules}

-- A document is read, and nothing is written.
document-reads :
    (r : PerformanceTest) (w : World) (t : tests.TestDocument) (w' : World)
    → tests.document r w ≡ (ok t, w')
    → w ≡ w'
unfolding tests.document repo.plans_for repo.sla_rules_for ◌>>=◌ pure
document-reads r w t w' h = cc

require-reads :
    (id : ℕ) (w : World) (t : tests.TestDocument) (w' : World)
    → tests.require id w ≡ (ok t, w')
    → w ≡ w'
unfolding tests.require repo.get
require-reads id w t w' h =
    let r1 = bind-Ran _ _ w t w' h in
    let r2 = bind-Ran _ _ r1.world t w' r1.continued in
    let got = or_raise-ok _ r1.value r1.world r2.value r2.world r2.started in
    ground (arith, r1.started, got.1, document-reads r2.value r2.world t w' r2.continued)

unless-reads :
    (b : Bool) (e : Failure) (w : World) (w' : World) → unless b e w ≡ (ok tt, w') → w ≡ w'
unfolding unless
unless-reads true e w w' h = cc
unless-reads false e w w' h = cc

recheck-reads :
    (t : tests.TestDocument) (c : TestUpdate) (w w' : World)
    → tests.recheck t c w ≡ (ok tt, w')
    → w ≡ w'
unfolding tests.recheck tests.check_references pure
recheck-reads t c w w' h =
    elim (Bool-cases (tests.is_given c.configuration || tests.is_given c.plans)) [
      | inl e ↦
          let workload =
            or_raise unexpected
              (tests.effective_configuration c.configuration t.row.configuration) in
          let check = λ (configuration : Workload).
            tests.check_references configuration (tests.effective c.plans t.plans) in
          let r1 = bind-Ran workload check w tt w' (ground (arith, h, e)) in
          let got = or_raise-ok _ _ w r1.value r1.world r1.started in
          got.1 ∙ unless-reads _ _ r1.world w' r1.continued
      | inr e ↦ ground (arith, h, e)
    ]

-- The document that an update answers with is the one of the row that the statement returned, in
-- the world that it left.
answered :
    (p : AccessClaims) (id : ℕ) (c : TestUpdate) (r : PerformanceTest) (w : World)
    (t : tests.TestDocument) (w' : World)
    → tests.after_update p id c r w ≡ (ok t, w')
    → (tests.document r w' ≡ (ok t, w')) × Unmoved w.org w.db.performance_tests w'
unfolding tests.after_update
answered p id c r w t w' h =
    let o = w.org in
    let rows = w.db.performance_tests in
    let r1 = bind-Ran _ _ w t w' h in
    let k1 =
      kept_after (given_plans o rows p.organization_id id c.plans) r1.started
        (record { setting = refl; table = refl }) in
    let r2 = bind-Ran _ _ r1.world t w' r1.continued in
    let k2 = kept_after (given_rules o rows p.organization_id id c.sla_rules) r2.started k1 in
    let r3 = bind-Ran _ _ r2.world t w' r2.continued in
    let k3 = kept_after (noted o rows p _ id _) r3.started k2 in
    let same = document-reads r r3.world t w' r3.continued in
    (subst (λ x. tests.document r x ≡ (ok t, w')) same r3.continued, subst (Unmoved o rows) same k3)

-- The row that the statement returned is found by its identifier.
found_after :
    (org : Option ℕ) (id v : ℕ) (f : PerformanceTest → PerformanceTest)
    (rows : List PerformanceTest) (r : PerformanceTest)
    → Keyed rows
    → ((s : PerformanceTest) → ((f s).id ≡ s.id) × ((f s).organization_id ≡ s.organization_id))
    → select_first org (repo.at_version id v) rows ≡ some r
    → by_id org id (update_where org (repo.at_version id v) f rows) ≡ some (f r)
unfolding by_id select_first update_where first repo.at_version visible
found_after org id v f [] r k same h = cc
found_after org id v f (x ∷ rows) r k same h =
    elim (Bool-cases (visible org x && repo.at_version id v x)) [
      | inl e ↦ ground (arith, same x, h, e)
      | inr e ↦
          let rest : select_first org (repo.at_version id v) rows ≡ some r = ground (arith, h, e) in
          let row = matched org id v rows r rest in
          let other = k.0 r row.0 in
          ground (arith, found_after org id v f rows r k.1 same rest, row.2, other, e)
    ]

record Stored (id : ℕ) (org : Option ℕ) (row : PerformanceTest) (w : World) : Type 0 where
  pub setting : w.org ≡ org
  pub row_found : by_id w.org id w.db.performance_tests ≡ some row

updated_found :
    (id : ℕ) (c : TestUpdate) (found : Option PerformanceTest) (w : World) (row : PerformanceTest)
    (w' : World)
    → Keyed w.db.performance_tests
    → select_first w.org (repo.at_version id c.version) w.db.performance_tests ≡ found
    → repo.update_found id c found w ≡ (ok (some row), w')
    → Stored id w.org row w'
unfolding repo.update_found repo.put repo.apply
updated_found id c none w row w' k f h = elim (nothing_found id c w row w' h) [ ]
updated_found id c (some r) w row w' k f h =
    let accepted = row_accepted id c r w row w' h in
    let is =
      found_after w.org id c.version (repo.apply c w.now) w.db.performance_tests r k
        (λ s. (refl, refl)) f in
    let value : repo.apply c w.now r ≡ row = ground (arith, h, accepted) in
    let same : repo.put _ w ≡ w' = ground (arith, h, accepted) in
    subst (Stored id w.org row) same (record { setting = refl; row_found = is ∙ ap some value })

-- What an update that returned has left.
pub update-Stored :
    (p : AccessClaims) (id : ℕ) (c : TestUpdate) (w : World) (t : tests.TestDocument) (w' : World)
    → WellKept w.drawn w.db.performance_tests
    → tests.update p id c w ≡ (ok t, w')
    → (row : PerformanceTest) × (tests.document row w' ≡ (ok t, w'))
      × (by_id w'.org id w'.db.performance_tests ≡ some row)
      × (w'.org ≡ w.org)
unfolding tests.update repo.update_document
update-Stored p id c w t w' k h =
    let r1 = bind-Ran _ _ w t w' h in
    let s1 = require-reads id w r1.value r1.world r1.started in
    let r2 = bind-Ran _ _ r1.world t w' r1.continued in
    let s2 = recheck-reads r1.value c r1.world r2.world r2.started in
    let same : w ≡ r2.world = s1 ∙ s2 in
    let r3 = bind-Ran _ _ r2.world t w' r2.continued in
    let r4 = bind-Ran _ _ r3.world t w' r3.continued in
    let got = or_raise-ok _ r3.value r3.world r4.value r4.world r4.started in
    let key : Keyed r2.world.db.performance_tests =
      subst (λ x. Keyed x.db.performance_tests) same k.keyed in
    let stored =
      updated_found id c _ r2.world r4.value r4.world key refl
        (ground (arith, r3.started, got.0, got.1)) in
    let last = answered p id c r4.value r4.world t w' r4.continued in
    (
      r4.value,
      last.0,
      ground (arith, last.1.setting, last.1.table, stored.row_found),
      ground (arith, last.1.setting, stored.setting, ap (λ x. x.org) same),
    )
