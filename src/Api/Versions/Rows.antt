-- ===== src/Api/Versions/Rows.antt =====
-- The keys and the versions of the rows of performance_tests.
use bonerepo.Store.{test_tenant}
use bonerepo.Prelude.{
  ℕ, ◌≡◌, refl, ◌⊎◌, inl, inr, Bool, true, false, Bool-cases, ◌&&◌, Option, List, [], ◌∷◌, Among,
  here, there, arith,
}
use bonerepo.Store.Rows.{PerformanceTest}
use bonerepo.Store.Table.{visible, update_where, insert_row}

-- A row after an UPDATE is one of before that the statement did not match, or the new value of one
-- that it did.
pub data Came (org : Option ℕ) (p : PerformanceTest → Bool) (f : PerformanceTest → PerformanceTest)
    (rows : List PerformanceTest) (s : PerformanceTest) : Type 0 where
  kept :
      (r : PerformanceTest)
      → Among r rows
      → s ≡ r
      → (visible org r && p r) ≡ false
      → Came org p f rows s
  changed :
      (r : PerformanceTest)
      → Among r rows
      → s ≡ f r
      → (visible org r && p r) ≡ true
      → Came org p f rows s

later :
    (org : Option ℕ) (p : PerformanceTest → Bool) (f : PerformanceTest → PerformanceTest)
    (x : PerformanceTest) (rows : List PerformanceTest) (s : PerformanceTest)
    → Came org p f rows s
    → Came org p f (x ∷ rows) s
later org p f x rows s (kept r m e h) = kept r (there m) e h
later org p f x rows s (changed r m e h) = changed r (there m) e h

pub Among-update_where :
    (org : Option ℕ) (p : PerformanceTest → Bool) (f : PerformanceTest → PerformanceTest)
    (rows : List PerformanceTest) (s : PerformanceTest)
    → Among s (update_where org p f rows)
    → Came org p f rows s
unfolding update_where
Among-update_where org p f [] s m = elim m [ ]
Among-update_where org p f (x ∷ rows) s (here e) = elim (Bool-cases (visible org x && p x)) [
  | inl h ↦ changed x (here refl) (ground (arith, e, h)) h
  | inr h ↦ kept x (here refl) (ground (arith, e, h)) h
]
Among-update_where org p f (x ∷ rows) s (there m) =
    later org p f x rows s (Among-update_where org p f rows s m)

pub Among-insert_row :
    (rows : List PerformanceTest) (new s : PerformanceTest)
    → Among s (insert_row new rows)
    → Among s rows ⊎ (s ≡ new)
unfolding insert_row
Among-insert_row [] new s (here e) = inr e
Among-insert_row [] new s (there m) = elim m [ ]
Among-insert_row (x ∷ rows) new s (here e) = inl (here e)
Among-insert_row (x ∷ rows) new s (there m) = elim (Among-insert_row rows new s m) [
  | inl k ↦ inl (there k)
  | inr e ↦ inr e
]
