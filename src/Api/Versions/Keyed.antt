-- ===== src/Api/Versions/Keyed.antt =====
-- The primary key of performance_tests, and what every row of one key has in common.
use bonerepo.Store.{test_tenant}
use bonerepo.Prelude.{
  ℕ, ◌<◌, ◌≡◌, refl, ◌∙◌, sym, inl, inr, Bool, Option, List, [], ◌∷◌, Among, here, there, arith, ap,
}
use bonerepo.Store.Rows.{PerformanceTest}
use bonerepo.Store.Table.{update_where, insert_row}
use bonerepo.Repositories.PerformanceTests.{at_version, apply, mark_archived}
use bonerepo.Api.Versions.Stable.{Stable}
use bonerepo.Api.Versions.Rows.{kept, changed, Among-update_where, Among-insert_row}

-- No two rows have one identifier.
abbrev pub Keyed : List PerformanceTest → Type 0
Keyed [] = Unit
Keyed (r ∷ rows) = ((s : PerformanceTest) → Among s rows → ¬ (r.id ≡ s.id)) × Keyed rows

-- The primary key holds, and every identifier in the table has been drawn.
pub record WellKept (n : ℕ) (rows : List PerformanceTest) : Type 0 where
  pub keyed : Keyed rows
  pub fresh : (r : PerformanceTest) → Among r rows → r.id < n

pub Keyed-same :
    (rows : List PerformanceTest) (r s : PerformanceTest)
    → Keyed rows
    → Among r rows
    → Among s rows
    → r.id ≡ s.id
    → r ≡ s
Keyed-same [] r s k m n e = elim m [ ]
Keyed-same (x ∷ rows) r s k (here a) (here b) e = a ∙ sym b
Keyed-same (x ∷ rows) r s k (here a) (there n) e =
    elim (k.0 s n (ground (arith, ap (λ t. t.id) a, e))) [ ]
Keyed-same (x ∷ rows) r s k (there m) (here b) e =
    elim (k.0 r m (ground (arith, ap (λ t. t.id) b, e))) [ ]
Keyed-same (x ∷ rows) r s k (there m) (there n) e = Keyed-same rows r s k.1 m n e

Keyed-insert_row :
    (rows : List PerformanceTest) (new : PerformanceTest)
    → Keyed rows
    → ((r : PerformanceTest) → Among r rows → r.id < new.id)
    → Keyed (insert_row new rows)
unfolding insert_row
Keyed-insert_row [] new k less = ((λ s m. elim m [ ]), tt)
Keyed-insert_row (x ∷ rows) new k less = (
  λ s m e. elim (Among-insert_row rows new s m) [
    | inl n ↦ k.0 s n e
    | inr same ↦ let le = less x (here refl) in omega (arith, ap (λ t. t.id) same)
  ],
  Keyed-insert_row rows new k.1 (λ r m. less r (there m)),
)

module _ (org : Option ℕ) (p : PerformanceTest → Bool) (f : PerformanceTest → PerformanceTest)
    (same : (r : PerformanceTest) → (f r).id ≡ r.id) where
  -- The key of a row after the statement is the key of one before it.
  came-id :
      (rows : List PerformanceTest) (s : PerformanceTest)
      → Among s (update_where org p f rows)
      → (r : PerformanceTest) × Among r rows × (s.id ≡ r.id)
  came-id rows s m = elim (Among-update_where org p f rows s m) [
    | kept r n e h ↦ (r, n, ap (λ t. t.id) e)
    | changed r n e h ↦ (r, n, ap (λ t. t.id) e ∙ same r)
  ]

  Keyed-update_where :
      (rows : List PerformanceTest) → Keyed rows → Keyed (update_where org p f rows)
  unfolding update_where
  Keyed-update_where [] k = tt
  Keyed-update_where (x ∷ rows) k = (
    λ s m e. let came = came-id rows s m in k.0 came.0 came.1 (ground (arith, came.2, e, same x)),
    Keyed-update_where rows k.1,
  )

  pub WellKept-update_where :
      (n : ℕ) (rows : List PerformanceTest)
      → WellKept n rows
      → WellKept n (update_where org p f rows)
  WellKept-update_where n rows h = record {
    keyed = Keyed-update_where rows h.keyed;
    fresh = λ s m.
        let came = came-id rows s m in let less = h.fresh came.0 came.1 in omega (arith, came.2);
  }

pub WellKept-Stable : Stable WellKept
unfolding apply mark_archived
WellKept-Stable = record {
  more = λ n m rows le h. record {
    keyed = h.keyed;
    fresh = λ r k. let less = h.fresh r k in omega arith;
  };
  insert = λ n rows new e h. record {
    keyed = Keyed-insert_row rows new h.keyed (λ r m. let less = h.fresh r m in omega arith);
    fresh = λ s m. elim (Among-insert_row rows new s m) [
      | inl k ↦ let less = h.fresh s k in omega arith
      | inr same ↦ omega (arith, ap (λ t. t.id) same)
    ];
  };
  update = λ n rows org id c now h.
      WellKept-update_where org (at_version id c.version) (apply c now) (λ r. refl) n rows h;
  archive =
      λ n rows org p now h. WellKept-update_where org p (mark_archived now) (λ r. refl) n rows h;
}

-- The version `v` of the document `id` is over.
pub record Past (id v : ℕ) (n : ℕ) (rows : List PerformanceTest) : Type 0 where
  pub drawn : id < n
  pub later : (r : PerformanceTest) → Among r rows → r.id ≡ id → v < r.version

pub Past-Stable : (id v : ℕ) → Stable (Past id v)
unfolding apply mark_archived
Past-Stable id v = record {
  more = λ n m rows le h. let less = h.drawn in record { drawn = omega arith; later = h.later };
  insert = λ n rows new e h.
      let less = h.drawn in
      record {
        drawn = omega arith;
        later = λ s m same. elim (Among-insert_row rows new s m) [
          | inl k ↦ h.later s k same
          | inr is ↦ omega (arith, ap (λ t. t.id) is)
        ];
      };
  update = λ n rows org key c now h. record {
    drawn = h.drawn;
    later = λ s m same.
        elim (Among-update_where org (at_version key c.version) (apply c now) rows s m) [
          | kept r k e miss ↦
              let less = h.later r k (ground (arith, ap (λ t. t.id) e, same)) in
              omega (arith, ap (λ t. t.version) e)
          | changed r k e hit ↦
              let less = h.later r k (ground (arith, ap (λ t. t.id) e, same)) in
              omega (arith, ap (λ t. t.version) e)
        ];
  };
  archive = λ n rows org p now h. record {
    drawn = h.drawn;
    later = λ s m same. elim (Among-update_where org p (mark_archived now) rows s m) [
      | kept r k e miss ↦
          let less = h.later r k (ground (arith, ap (λ t. t.id) e, same)) in
          omega (arith, ap (λ t. t.version) e)
      | changed r k e hit ↦
          let less = h.later r k (ground (arith, ap (λ t. t.id) e, same)) in
          omega (arith, ap (λ t. t.version) e)
    ];
  };
}
