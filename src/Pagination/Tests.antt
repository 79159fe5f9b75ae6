-- ===== src/Pagination/Tests.antt =====
-- A listing of four rows in pages of one, with a small codec in place of the libraries.
use bonerepo.Prelude.{
  ℕ, zero, suc, ◌+◌, ◌-◌, ◌%◌, ◌≡◌, ◌<◌, refl, ◌∙◌, ap, ok, err, Option, none, some, true, Among,
  List, [], ◌∷◌, ◌++◌, length, take, map, arith, here, there,
}
use bonerepo.Prelude.Texts.{text_eq, Text, codes}
use bonerepo.Store.Table.{Tenant, visible}
use bonerepo.Pagination.{
  Codec, string, Loaded, mapping, equals, replicate, rstrip, missing_padding, listing,
  position_from, cursor_at, position_of, malformed, other, null,
}
use bonerepo.Pagination.Cursor.{rstrip-append, position_from-cursor_at}
use bonerepo.Pagination.Order.{DistinctIds}
use bonerepo.Pagination.Walk.{walk}
use bonerepo.Tokens.{AccessClaims}
use bonerepo.Permissions.{project_read, holds}
use bonerepo.Store.Rows.{Project, active}
use bonerepo.Store.{World, unexpected, project_tenant, pool_tenant}
use bonerepo.Api.Listings.{list_projects, list_pools, handle_listing}
use bonerepo.Api.Listings.Complete.{served, projects_listed, pools_listed, list_complete}

abbrev drop : ℕ → List ℕ → List ℕ
drop zero xs = xs
drop (suc n) [] = []
drop (suc n) (x ∷ xs) = drop n xs

take-append : (a b : List ℕ) → take (length a) (a ++ b) ≡ a
take-append [] b = refl
take-append (x ∷ a) b = ap (λ l. x ∷ l) (take-append a b)

drop-append : (a b : List ℕ) → drop (length a) (a ++ b) ≡ b
drop-append [] b = refl
drop-append (x ∷ a) b = drop-append a b

abbrev load : List ℕ → Option Loaded
load [] = none
load (n ∷ s) = some (mapping (string (take n s)) (string (drop n s)))

-- Bytes are moved past the code of `=`.
abbrev shift : ℕ → ℕ
shift x = x + 100

abbrev unshift : ℕ → ℕ
unshift x = x - 100

abbrev pad : List ℕ → Text
pad raw = map shift raw ++ replicate (missing_padding raw) equals

abbrev unpad : Text → Option (List ℕ)
unpad s = some (map unshift (rstrip equals s))

length-map-shift : (raw : List ℕ) → length (map shift raw) ≡ length raw
length-map-shift [] = refl
length-map-shift (x ∷ raw) = ap suc (length-map-shift raw)

unshift-shift : (raw : List ℕ) → map unshift (map shift raw) ≡ raw
unshift-shift [] = refl
unshift-shift (x ∷ raw) = rw (unshift-shift raw) (ap (λ y. y ∷ raw) (omega arith))

rstrip-map-shift : (raw : List ℕ) → rstrip equals (map shift raw) ≡ map shift raw
unfolding rstrip
rstrip-map-shift [] = refl
rstrip-map-shift (x ∷ []) = ground arith
rstrip-map-shift (x ∷ y ∷ raw) = rw (rstrip-map-shift (y ∷ raw)) refl

unpad-pad : (raw : List ℕ) → unpad (pad raw) ≡ some raw
unpad-pad raw =
    ap (λ s. some (map unshift s))
      (rstrip-append equals (missing_padding raw) (map shift raw) ∙ rstrip-map-shift raw)
    ∙ ap some (unshift-shift raw)

pad_whole :
    (raw : List ℕ)
    → (missing_padding raw < 4) × ((length (map shift raw) + missing_padding raw) % 4 ≡ 0)
unfolding missing_padding
pad_whole raw = (omega arith, omega (arith, length-map-shift raw))

abbrev of_single : Text → Option ℕ
of_single (n ∷ []) = some n
of_single _ = none

abbrev codec : Codec
codec = record {
  dumps = λ p. length p.at ∷ p.at ++ p.id;
  loads = load;
  loads-dumps = λ p. ap some (
      ap (λ s. mapping (string s) (string (drop (length p.at) (p.at ++ p.id))))
        (take-append p.at p.id)
      ∙ ap (λ s. mapping (string p.at) (string s)) (drop-append p.at p.id));
  b64encode = pad;
  b64decode = unpad;
  b64decode-b64encode = unpad-pad;
  groups = λ raw. (
    map shift raw,
    missing_padding raw,
    refl,
    rstrip-map-shift raw,
    (pad_whole raw).0,
    (pad_whole raw).1,
  );
  isoformat = λ t. t ∷ [];
  fromisoformat = of_single;
  fromisoformat-isoformat = λ t. refl;
  str = λ i. i ∷ [];
  uuid = of_single;
  uuid-str = λ i. refl;
}

record Row : Type 0 where
  id : ℕ
  org : ℕ
  created_at : ℕ

instance abbrev row_tenant : Tenant Row
row_tenant = record { org_of = λ r. r.org; id_of = λ r. r.id }

abbrev rows : List Row
rows =
    record { id = 4; org = 1; created_at = 10 }
    ∷ record { id = 7; org = 1; created_at = 12 }
    ∷ record { id = 5; org = 2; created_at = 11 }
    ∷ record { id = 9; org = 1; created_at = 10 }
    ∷ []

position_from-cursor_at_example :
    position_from codec (some (cursor_at codec (record { at = 12; id = 7 })))
    ≡ ok (some (record { at = 12; id = 7 }))
position_from-cursor_at_example = position_from-cursor_at codec (record { at = 12; id = 7 })

-- uuid.UUID(5) raises what is not caught; uuid.UUID(None) and a missing key are refused.
uncaught_identifier : position_of codec (some (string (12 ∷ []), other)) ≡ err unexpected
unfolding position_of
uncaught_identifier = refl

null_identifier : position_of codec (some (string (12 ∷ []), null)) ≡ err malformed
unfolding position_of
null_identifier = refl

newest_first :
    map (λ (r : Row). r.id) (listing (λ (r : Row). r.created_at) (some 1) (λ r. true) rows)
    ≡ 7 ∷ 9 ∷ 4 ∷ []
unfolding listing visible
newest_first = refl

abbrev reader : AccessClaims
reader = record { user_id = 4; organization_id = 1; role = codes "VIEWER" }

abbrev project_of : ℕ → Project
project_of id = record {
  id = id;
  organization_id = 1;
  name = codes "P";
  project_key = id ∷ [];
  description = none;
  environment = none;
  status = active;
  tags = [];
  created_by = none;
  created_at = 10;
  updated_at = 10;
}

abbrev world : World
world = record {
  db = record {
    users = [];
    projects = project_of 1 ∷ project_of 2 ∷ [];
    credentials = [];
    script_repos = [];
    performance_tests = [];
    test_plans = [];
    sla_rules = [];
    pools = [];
    runs = [];
    run_generators = [];
    audit_logs = [];
    target_policies = [];
    families = [];
    history = [];
  };
  org = none;
  session_org = none;
  now = 9;
  drawn = 10;
}

may_read : holds reader.role project_read ≡ true
unfolding holds text_eq
may_read = refl

other_than_1 : (s : Project) → Among s (project_of 2 ∷ []) → ◌≡◌ {A = ℕ} 1 s.id → ⊥
other_than_1 s (here e) h = omega (arith, ap (λ (p : Project). p.id) e, h)
other_than_1 s (there m) h = elim m [ ]

projects-DistinctIds : DistinctIds world.db.projects
projects-DistinctIds = (other_than_1, ((λ s m. elim m [ ]), tt))

list_complete_example :
    (walk
        (λ cursor. served (handle_listing reader (list_projects codec 1 cursor) world))
        (suc (length (projects_listed 1 world)))
        none
      ≡ some (map (λ row. row) (projects_listed 1 world)))
    × (walk
          (λ cursor. served (handle_listing reader (list_pools codec 1 cursor) world))
          (suc (length (pools_listed 1 world)))
          none
        ≡ some (map (λ row. row) (pools_listed 1 world)))
list_complete_example = list_complete codec reader world may_read 0 projects-DistinctIds tt
