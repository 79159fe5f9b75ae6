-- ===== src/Pagination/Cuts.antt =====
-- A page as a part of a list.
use bonerepo.Prelude.{
  ℕ, zero, suc, ◌≤◌, ◌<◌, ◌≡◌, refl, ap, ltb, List, [], ◌∷◌, ◌++◌, length, take, map, arith,
}
use bonerepo.Pagination.{last}

-- A list cut behind its first n + 1 elements.
pub record Cut {A : Type 0} (n : ℕ) (xs : List A) : Type 0 where
  pub initial : List A
  pub final : A
  pub rest : List A
  pub whole : xs ≡ initial ++ final ∷ rest
  pub taken : take (suc n) xs ≡ initial ++ final ∷ []

pub cut : {A : Type 0} (n : ℕ) (xs : List A) → n < length xs → Cut n xs
cut n [] h = absurd (omega arith)
cut zero (x ∷ xs) h = record { initial = []; final = x; rest = xs; whole = refl; taken = refl }
cut (suc n) (x ∷ xs) h =
    let c = cut n xs (omega arith) in
    record {
      initial = x ∷ c.initial;
      final = c.final;
      rest = c.rest;
      whole = ap (λ l. x ∷ l) c.whole;
      taken = ap (λ l. x ∷ l) c.taken;
    }

pub take_all : {A : Type 0} (n : ℕ) (xs : List A) → length xs ≤ n → take n xs ≡ xs
take_all zero [] h = refl
take_all zero (x ∷ xs) h = absurd (omega arith)
take_all (suc n) [] h = refl
take_all (suc n) (x ∷ xs) h = ap (λ l. x ∷ l) (take_all n xs (omega arith))

pub take-take_more : {A : Type 0} (n : ℕ) (xs : List A) → take n (take (suc n) xs) ≡ take n xs
take-take_more zero xs = refl
take-take_more (suc n) [] = refl
take-take_more (suc n) (x ∷ xs) = ap (λ l. x ∷ l) (take-take_more n xs)

-- One row more than a page is there exactly when the rows go on.
pub more_rows :
    {A : Type 0} (n : ℕ) (xs : List A) → ltb n (length (take (suc n) xs)) ≡ ltb n (length xs)
more_rows zero [] = refl
more_rows zero (x ∷ xs) = ground arith
more_rows (suc n) [] = refl
more_rows (suc n) (x ∷ xs) = ground (arith, more_rows n xs)

pub last-append : {A : Type 0} (a x : A) (xs : List A) → last a (xs ++ x ∷ []) ≡ x
unfolding last
last-append a x [] = refl
last-append a x (y ∷ xs) = last-append y x xs

pub map-append :
    {A B : Type 0} (f : A → B) (xs ys : List A) → map f (xs ++ ys) ≡ map f xs ++ map f ys
map-append f [] ys = refl
map-append f (x ∷ xs) ys = ap (λ l. f x ∷ l) (map-append f xs ys)
