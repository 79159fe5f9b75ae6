-- ===== src/Pagination/Cursor.antt =====
-- A cursor is read back as the position that it was made from.
use bonerepo.Prelude.{
  ℕ, zero, suc, ◌+◌, ◌%◌, ◌≡◌, ◌<◌, refl, ◌∙◌, sym, ap, ok, some, [], ◌∷◌, ◌++◌, length, arith,
}
use bonerepo.Prelude.Texts.{Text}
use bonerepo.Pagination.{
  Position, Payload, Codec, string, equals, replicate, rstrip, missing_padding, encode_cursor,
  decode_cursor, load_bytes, dict_of, position_of, timestamp_of, uuid_of, with_id, with_at,
  position_from, cursor_at,
}

rstrip-replicate : (c : ℕ) (k : ℕ) → rstrip c (replicate k c) ≡ []
unfolding rstrip replicate
rstrip-replicate c zero = refl
rstrip-replicate c (suc k) = ground (arith, rstrip-replicate c k)

pub rstrip-append : (c k : ℕ) (s : Text) → rstrip c (s ++ replicate k c) ≡ rstrip c s
unfolding rstrip
rstrip-append c k [] = rstrip-replicate c k
rstrip-append c k (x ∷ s) = rw (rstrip-append c k s) refl

padding_restored :
    (core : Text) (k : ℕ) → k < 4 → (length core + k) % 4 ≡ 0 → missing_padding core ≡ k
unfolding missing_padding
padding_restored core k small whole = omega arith

module _ (c : Codec) where
  pub decode_cursor-encode_cursor :
      (p : Payload) → decode_cursor c (encode_cursor c p) ≡ some (string p.at, string p.id)
  unfolding decode_cursor encode_cursor load_bytes dict_of
  decode_cursor-encode_cursor p =
      let g = c.groups (c.dumps p) in
      let core : Text = g.0 in
      let k : ℕ = g.1 in
      let stripped : rstrip equals (c.b64encode (c.dumps p)) ≡ core =
        ap (rstrip equals) g.2 ∙ rstrip-append equals k core ∙ g.3 in
      let padded : core ++ replicate (missing_padding core) equals ≡ c.b64encode (c.dumps p) =
        ap (λ n. core ++ replicate n equals) (padding_restored core k g.4 g.5) ∙ sym g.2 in
      rw (stripped, padded, c.b64decode-b64encode (c.dumps p), c.loads-dumps p) refl

  -- A cursor that the server made is read back as the position of the row that it was made from.
  pub position_from-cursor_at :
      (p : Position) → position_from c (some (cursor_at c p)) ≡ ok (some p)
  unfolding position_from cursor_at position_of timestamp_of uuid_of with_id with_at
  position_from-cursor_at p =
      let payload : Payload = record { at = c.isoformat p.at; id = c.str p.id } in
      rw
        (
          ap (position_of c) (decode_cursor-encode_cursor payload),
          c.fromisoformat-isoformat p.at,
          c.uuid-str p.id,
        )
        refl
