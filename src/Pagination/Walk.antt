-- ===== src/Pagination/Walk.antt =====
-- A client that follows the cursors.
use bonerepo.Prelude.{
  ℕ, zero, suc, ◌≤◌, ◌<◌, ◌≡◌, refl, ◌∙◌, sym, subst, ap, inl, inr, Bool, true, false, Bool-cases,
  ltb, ok, Option, none, some, List, [], ◌∷◌, ◌++◌, append_assoc, length, length-append, take, keep,
  map, arith,
}
use bonerepo.Prelude.Texts.{Text}
use bonerepo.Store.Table.{Tenant}
use bonerepo.Pagination.{
  Position, Codec, Page, follows, position, position_from, cursor_at, next_after, page_of, listing,
  list_page, page_after, page_at, get_page,
}
use bonerepo.Pagination.Cursor.{position_from-cursor_at}
use bonerepo.Pagination.Order.{DistinctIds, Descending, listing-Descending}
use bonerepo.Pagination.Cuts.{
  Cut, cut, take_all, take-take_more, more_rows, last-append, map-append,
}
use bonerepo.Pagination.Follows.{keep-follows}

next_after-append :
    {A : Type 0} (c : Codec) (pos : A → Position) (xs : List A) (l : A)
    → next_after c pos true (xs ++ l ∷ []) ≡ some (cursor_at c (pos l))
unfolding next_after
next_after-append c pos [] l = refl
next_after-append c pos (x ∷ xs) l = ap (λ a. some (cursor_at c (pos a))) (last-append x l xs)

-- The list of every row, page after page, by at most so many requests; none where a request was
-- refused or the requests ran out.
module _ {B : Type 0} (get : Option Text → Option (Page B)) where
  unfoldable pub walk : ℕ → Option Text → Option (List B)
  walk zero cursor = none
  walk (suc n) cursor = elim (get cursor) [
    | none ↦ none
    | some page ↦ elim page.next_cursor [
      | none ↦ some page.items
      | some next ↦ elim (walk n (some next)) [
        | none ↦ none
        | some more ↦ some (page.items ++ more)
      ]
    ]
  ]

  walk-last :
      (n : ℕ) (cursor : Option Text) (page : Page B)
      → get cursor ≡ some page
      → page.next_cursor ≡ none
      → walk (suc n) cursor ≡ some page.items
  unfolding walk
  walk-last n cursor page h e = ground (arith, h, e)

  walk-next :
      (n : ℕ) (cursor : Option Text) (page : Page B) (next : Text) (more : List B)
      → get cursor ≡ some page
      → page.next_cursor ≡ some next
      → walk n (some next) ≡ some more
      → walk (suc n) cursor ≡ some (page.items ++ more)
  unfolding walk
  walk-next n cursor page next more h e k = ground (arith, h, e, k)

module _ {R : Type 0} ⦃t : Tenant R⦄ (at : R → ℕ) {B : Type 0} (c : Codec) (present : R → B)
    (org : Option ℕ) (p : R → Bool) (rows : List R) (m : ℕ) where
  abbrev every : List R
  every = listing at org p rows

  -- The rows of a page, and its cursor, from what is left to list.
  page_items :
      (after : Option Position) (rest : List R)
      → keep (λ r. follows after (position at r)) every ≡ rest
      → ((page_after at c present org p (suc m) rows after).items ≡ map present (take (suc m) rest))
        × ((page_after at c present org p (suc m) rows after).next_cursor
            ≡ next_after c (position at) (ltb (suc m) (length rest)) (take (suc m) rest))
  unfolding page_after page_of list_page
  page_items after rest e = (
    rw (e, take-take_more (suc m) rest) refl,
    rw (e, take-take_more (suc m) rest, more_rows (suc m) rest) refl,
  )

  got_page :
      (cursor : Option Text) (after : Option Position)
      → position_from c cursor ≡ ok after
      → get_page at c present org p (suc m) rows cursor
        ≡ some (page_after at c present org p (suc m) rows after)
  unfolding get_page page_at
  got_page cursor after from = rw from refl

  short : (rest : List R) → ltb (suc m) (length rest) ≡ false → length rest ≤ suc m
  short rest few = ground arith

  long : (rest : List R) → ltb (suc m) (length rest) ≡ true → m < length rest
  long rest more = ground arith

  shorter : (rest : List R) (k : Cut m rest) (n : ℕ) → length rest < suc n → length k.rest < n
  shorter rest k n h = omega (arith, ap length k.whole, length-append k.initial (k.final ∷ k.rest))

  regroup : (a b : List R) (x : R) (ys : List R) → (a ++ b) ++ x ∷ ys ≡ (a ++ b ++ x ∷ []) ++ ys
  regroup a b x ys = sym (append_assoc (a ++ b) (x ∷ []) ys)

  walk_from :
      (n : ℕ) (cursor : Option Text) (after : Option Position) (before rest : List R)
      → Descending at every
      → position_from c cursor ≡ ok after
      → every ≡ before ++ rest
      → keep (λ r. follows after (position at r)) every ≡ rest
      → length rest < n
      → walk (get_page at c present org p (suc m) rows) n cursor ≡ some (map present rest)
  unfolding next_after
  walk_from zero cursor after before rest d from whole e h = absurd (omega arith)
  walk_from (suc n) cursor after before rest d from whole e h =
      let got = got_page cursor after from in
      let page = page_items after rest e in
      elim (Bool-cases (ltb (suc m) (length rest))) [
        | inr few ↦
            walk-last _ n cursor _ got (page.1 ∙ rw few refl)
            ∙ ap some (page.0 ∙ ap (map present) (take_all (suc m) rest (short rest few)))
        | inl more ↦
            let k = cut m rest (long rest more) in
            let next : next_after c (position at) (ltb (suc m) (length rest)) (take (suc m) rest)
                ≡ some (cursor_at c (position at k.final)) =
              rw (more, k.taken) (next_after-append c (position at) k.initial k.final) in
            let listed : every ≡ (before ++ k.initial) ++ k.final ∷ k.rest =
              whole ∙ ap (λ l. before ++ l) k.whole ∙ sym (append_assoc before k.initial _) in
            let left : keep (λ r. follows (some (position at k.final)) (position at r)) every
                ≡ k.rest =
              ap (keep _) listed
              ∙ keep-follows at (before ++ k.initial) k.final k.rest
                  (subst (Descending at) listed d) in
            let behind : every ≡ (before ++ k.initial ++ k.final ∷ []) ++ k.rest =
              listed ∙ regroup before k.initial k.final k.rest in
            let rest_walked =
              walk_from n (some (cursor_at c (position at k.final))) (some (position at k.final)) _
                k.rest d (position_from-cursor_at c (position at k.final)) behind left
                (shorter rest k n h) in
            walk-next _ n cursor _ _ _ got (page.1 ∙ next) rest_walked
            ∙ ap some (
                ap (λ l. l ++ map present k.rest) (page.0 ∙ ap (map present) k.taken)
                ∙ sym (map-append present (k.initial ++ k.final ∷ []) k.rest)
                ∙ ap (map present) (append_assoc k.initial (k.final ∷ []) k.rest ∙ sym k.whole))
      ]

  -- A client that asks for the first page and follows the cursors is given every row that the
  -- organisation sees, once and in the order of the listing, if no two rows have one identifier and
  -- a page holds at least one row; it needs at most one request more than there are rows.
  pub walk-listing :
      DistinctIds rows
      → walk (get_page at c present org p (suc m) rows) (suc (length every)) none
        ≡ some (map present every)
  unfolding position_from follows keep
  walk-listing d =
      walk_from (suc (length every)) none none [] every (listing-Descending at org p rows d) refl
        refl (keep_each every) (omega arith)
    where
      keep_each : (xs : List R) → keep (λ r. follows none (position at r)) xs ≡ xs
      keep_each [] = refl
      keep_each (x ∷ xs) = ap (λ l. x ∷ l) (keep_each xs)
