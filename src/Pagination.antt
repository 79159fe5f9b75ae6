-- ===== src/Pagination.antt =====
-- plimsoll_contracts/pagination.py, apps/api/plimsoll_api/pagination.py, and the statement that the
-- `list_page` functions of the repositories share.
pub mod Cursor
pub mod Order
pub mod Cuts
pub mod Follows
pub mod Walk
mod Tests
use bonerepo.Prelude.{
  ℕ, zero, suc, ◌+◌, ◌-◌, ◌%◌, ◌≡◌, ◌<◌, Bool, true, false, Result, ok, err, ◌&&◌, ◌||◌, Option,
  none, some, List, [], ◌∷◌, ◌++◌, ltb, ◌==◌, if◌then◌else◌, length, take, keep, map,
}
use bonerepo.Prelude.Sorting.{sort}
use bonerepo.Prelude.Texts.{Text}
use bonerepo.Contracts.Errors.{validation_failed}
use bonerepo.Store.{Failure, plimsoll, unexpected}
use bonerepo.Store.Table.{Tenant, select}

-- (created_at, id)
pub record Position : Type 0 where
  pub at : ℕ
  pub id : ℕ

-- The payload of a cursor: what isoformat() and str() made.
pub record Payload : Type 0 where
  pub at : Text
  pub id : Text

-- The value under a key of what json.loads returned.
pub data Value : Type 0 where
  missing : Value
  string : Text → Value
  null : Value
  -- a number, a Boolean, a list or a dict
  other : Value

-- What json.loads returned: a dict, by its values under "at" and "id", or another value.
pub data Loaded : Type 0 where
  mapping : Value → Value → Loaded
  not_mapping : Loaded

abbrev pub equals : ℕ
equals = b'='

unfoldable pub replicate : ℕ → ℕ → List ℕ
replicate zero c = []
replicate (suc n) c = c ∷ replicate n c

-- rstrip of one character
unfoldable pub rstrip : ℕ → Text → Text
rstrip c [] = []
rstrip c (x ∷ s) = elim (rstrip c s) [ [] ↦ if x == c then [] else x ∷ [] | y ∷ t ↦ x ∷ y ∷ t ]

-- json, base64, datetime and uuid, none where a function raises. The base64 text of a payload is a
-- whole number of groups of four, of which the last ends in fewer than four `=`.
pub record Codec : Type 0 where
  pub dumps : Payload → List ℕ
  pub loads : List ℕ → Option Loaded
  pub loads-dumps : (p : Payload) → loads (dumps p) ≡ some (mapping (string p.at) (string p.id))
  pub b64encode : List ℕ → Text
  pub b64decode : Text → Option (List ℕ)
  pub b64decode-b64encode : (raw : List ℕ) → b64decode (b64encode raw) ≡ some raw
  pub groups :
      (raw : List ℕ)
      → (core : Text) × (k : ℕ) × (b64encode raw ≡ core ++ replicate k equals)
        × (rstrip equals core ≡ core)
        × (k < 4)
        × ((length core + k) % 4 ≡ 0)
  pub isoformat : ℕ → Text
  pub fromisoformat : Text → Option ℕ
  pub fromisoformat-isoformat : (t : ℕ) → fromisoformat (isoformat t) ≡ some t
  pub str : ℕ → Text
  pub uuid : Text → Option ℕ
  pub uuid-str : (i : ℕ) → uuid (str i) ≡ some i

pub record Page (A : Type 0) : Type 0 where
  pub items : List A
  pub next_cursor : Option Text

unfoldable pub last : {A : Type 0} → A → List A → A
last a [] = a
last a (b ∷ xs) = last b xs

-- `-len(cursor) % 4`
unfoldable pub missing_padding : Text → ℕ
missing_padding cursor = (4 - length cursor % 4) % 4

-- PlimsollError(ErrorCode.VALIDATION_FAILED, "The cursor is malformed.")
abbrev malformed : Failure
malformed = plimsoll (record { code = validation_failed; details = none })

module _ (c : Codec) where
  unfoldable pub encode_cursor : Payload → Text
  unfolding rstrip
  encode_cursor payload = rstrip equals (c.b64encode (c.dumps payload))

  -- None is the ValueError.
  unfoldable pub dict_of : Option Loaded → Option (Value × Value)
  dict_of none = none
  dict_of (some not_mapping) = none
  dict_of (some (mapping at id)) = some (at, id)

  unfoldable pub load_bytes : Option (List ℕ) → Option (Value × Value)
  unfolding dict_of
  load_bytes none = none
  load_bytes (some raw) = dict_of (c.loads raw)

  unfoldable pub decode_cursor : Text → Option (Value × Value)
  unfolding load_bytes replicate missing_padding
  decode_cursor cursor =
      load_bytes (c.b64decode (cursor ++ replicate (missing_padding cursor) equals))

  abbrev or_malformed : {A : Type 0} → Option A → Result Failure A
  or_malformed none = err malformed
  or_malformed (some a) = ok a

  -- fromisoformat of a value that is not a string is a TypeError.
  unfoldable pub timestamp_of : Value → Result Failure ℕ
  timestamp_of (string s) = or_malformed (c.fromisoformat s)
  timestamp_of _ = err malformed

  -- UUID(None) is a TypeError; of another value that is not a string it is an AttributeError, which
  -- is not caught.
  unfoldable pub uuid_of : Value → Result Failure ℕ
  uuid_of (string s) = or_malformed (c.uuid s)
  uuid_of other = err unexpected
  uuid_of _ = err malformed

  unfoldable pub with_id : ℕ → Result Failure ℕ → Result Failure (Option Position)
  with_id at (err e) = err e
  with_id at (ok id) = ok (some (record { at = at; id = id }))

  unfoldable pub with_at : Result Failure ℕ → Value → Result Failure (Option Position)
  unfolding with_id uuid_of
  with_at (err e) id = err e
  with_at (ok at) id = with_id at (uuid_of id)

  -- A ValueError, a KeyError and a TypeError are caught alike.
  unfoldable pub position_of : Option (Value × Value) → Result Failure (Option Position)
  unfolding with_at timestamp_of
  position_of none = err malformed
  position_of (some (at, id)) = with_at (timestamp_of at) id

  -- No cursor is the start.
  unfoldable pub position_from : Option Text → Result Failure (Option Position)
  unfolding position_of decode_cursor
  position_from none = ok none
  position_from (some cursor) = position_of (decode_cursor cursor)

  unfoldable pub cursor_at : Position → Text
  unfolding encode_cursor
  cursor_at p = encode_cursor (record { at = c.isoformat p.at; id = c.str p.id })

  module _ {A : Type 0} (position : A → Position) where
    unfoldable pub next_after : Bool → List A → Option Text
    unfolding last cursor_at
    next_after true (row ∷ rows) = some (cursor_at (position (last row rows)))
    next_after _ _ = none

    -- `rows` holds up to limit + 1 rows.
    unfoldable pub page_of : {B : Type 0} → (A → B) → List A → ℕ → Page B
    unfolding next_after
    page_of present rows limit = record {
      items = map present (take limit rows);
      next_cursor = next_after (ltb limit (length rows)) (take limit rows);
    }

-- (created_at, id) < (:after_at, :after_id)
unfoldable pub precedes : Position → Position → Bool
precedes p q = ltb p.at q.at || p.at == q.at && ltb p.id q.id

unfoldable pub follows : Option Position → Position → Bool
unfolding precedes
follows none p = true
follows (some after) p = precedes p after

module _ {R : Type 0} ⦃t : Tenant R⦄ (at : R → ℕ) where
  unfoldable pub position : R → Position
  position r = record { at = at r; id = t.id_of r }

  unfoldable pub newer : R → R → Bool
  unfolding precedes position
  newer r s = precedes (position s) (position r)

  -- The rows that the organisation sees, ORDER BY created_at DESC, id DESC.
  unfoldable pub listing : Option ℕ → (R → Bool) → List R → List R
  unfolding sort newer select
  listing org p rows = sort newer (select org p rows)

  -- SELECT ... WHERE p AND (created_at, id) < :after ORDER BY ... LIMIT :limit
  unfoldable pub list_page : Option ℕ → (R → Bool) → ℕ → Option Position → List R → List R
  unfolding listing follows keep
  list_page org p limit after rows =
      take limit (keep (λ r. follows after (position r)) (listing org p rows))

  -- A page as it is meant to be, with which the endpoints are compared: `page_of` over `limit + 1`
  -- rows from a position; none where the cursor is refused.
  module _ {B : Type 0} (c : Codec) (present : R → B) where
    unfoldable pub page_after : Option ℕ → (R → Bool) → ℕ → List R → Option Position → Page B
    unfolding page_of list_page position
    page_after org p limit rows after =
        page_of c position present (list_page org p (suc limit) after rows) limit

    unfoldable pub page_at :
        Option ℕ → (R → Bool) → ℕ → List R → Result Failure (Option Position) → Option (Page B)
    unfolding page_after
    page_at org p limit rows (err e) = none
    page_at org p limit rows (ok after) = some (page_after org p limit rows after)

    unfoldable pub get_page : Option ℕ → (R → Bool) → ℕ → List R → Option Text → Option (Page B)
    unfolding page_at position_from
    get_page org p limit rows cursor = page_at org p limit rows (position_from c cursor)
