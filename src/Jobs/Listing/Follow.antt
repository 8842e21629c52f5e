-- ===== src/Jobs/Listing/Follow.antt =====
-- What one page holds, and what a client collects that follows the cursors to the end.
use mathlib.Core.List.{map-append}
use becertain.Prelude.{
  ℕ, zero, suc, ◌+◌, ◌≤◌, ◌<◌, ◌≡◌, refl, sym, ap, ◌∙◌, Option, none, some, String, List, [], ◌∷◌,
  ◌++◌, map, inl, inr, arith, filter, Bool-cases, take, drop, length, length-take, length-filter,
  length-drop, take-append-drop, ltb, ltb→lt,
}
use becertain.Store.Documents.{◌>>=◌}
use becertain.Jobs.Rows.{JobStatus, RcaJob, Db, Caller, to_view}
use becertain.Jobs.Listing.{
  CursorCodec, last_of, is_listed, select_rows, page_size, position_of, decode_cursor, page_from,
  list_jobs, follow, collect, sort_rows,
}
use becertain.Jobs.Listing.Order.{
  HasUniqueIds, HasUniqueIds-filter, IsDescending, sort-IsDescending, length-sort,
}
use becertain.Jobs.Listing.Pages.{last_of-take, take-take, select_rows_rest, filter_all}

take-all {ℓ} : {A : Type ℓ} (n : ℕ) (xs : List A) → length xs ≤ n → take n xs ≡ xs
take-all zero [] h = refl
take-all zero (x ∷ xs) h = elim h [ ]
take-all (suc n) [] h = refl
take-all (suc n) (x ∷ xs) h = ap (◌∷◌ x) (take-all n xs (omega arith))

decode-encode_cursor :
    (codec : CursorCodec) (created_at job_id : ℕ)
    → decode_cursor codec (some (codec.encode created_at job_id)) ≡ some (some (created_at, job_id))
decode-encode_cursor codec a b =
    rw (codec.encode-nonempty a b) (ap position_of (codec.decode-encode a b))

-- The extra row that the query asks for tells whether rows are left.
ltb-length-take {ℓ} :
    {A : Type ℓ} (n : ℕ) (xs : List A) → ltb n (length (take (n + 1) xs)) ≡ ltb n (length xs)
ltb-length-take n xs = ground (arith, length-take (n + 1) xs)

module _ {J : Type 0} (codec : CursorCodec) (ctx : Caller) (wanted : Option JobStatus) (limit : ℕ)
    (db : Db J) where
  abbrev rows_at : Option (ℕ × ℕ) → List (RcaJob J)
  rows_at cursor = select_rows ctx wanted cursor db

  -- The last page: its items are all the rows, and there is no cursor.
  page_from_last :
      (cursor : Option (ℕ × ℕ))
      → length (rows_at cursor) ≤ page_size limit
      → page_from codec ctx wanted limit db cursor ≡ (map to_view (rows_at cursor), none)
  unfolding page_from
  page_from_last cursor h =
      rw (take-take, ltb-length-take, take-all (page_size limit) (rows_at cursor) h) (ground arith)

  -- Another page: a full page and the cursor of its last row.
  page_from_more :
      (cursor : Option (ℕ × ℕ)) (c : RcaJob J)
      → page_size limit < length (rows_at cursor)
      → last_of (take (page_size limit) (rows_at cursor)) ≡ some c
      → page_from codec ctx wanted limit db cursor ≡ (
        map to_view (take (page_size limit) (rows_at cursor)),
        some (codec.encode c.created_at c.job_id),
      )
  unfolding page_from
  page_from_more cursor c h e = rw (take-take, ltb-length-take) (ground arith)

  -- Following the cursors from any point collects every row behind it, once and in order.
  follow_from :
      HasUniqueIds db.jobs
      → (fuel : ℕ) (text : Option String) (cursor : Option (ℕ × ℕ))
      → decode_cursor codec text ≡ some cursor
      → length (rows_at cursor) < fuel
      → follow codec fuel ctx wanted limit text db ≡ some (map to_view (rows_at cursor))
  unfolding follow list_jobs
  follow_from u zero start cursor e h = elim h [ ]
  follow_from u (suc fuel) start cursor e h =
      let rest = λ (text : String). follow codec fuel ctx wanted limit (some text) db in
      let first : follow codec (suc fuel) ctx wanted limit start db
          ≡ collect rest (page_from codec ctx wanted limit db cursor) =
        ap (λ k. (k >>= λ at'. some (page_from codec ctx wanted limit db at')) >>= collect rest)
          e in
      first ∙ elim (Bool-cases (ltb (page_size limit) (length (rows_at cursor)))) [
        | inr end ↦ ap (collect rest) (page_from_last cursor (ground arith))
        | inl more ↦
            let rows = rows_at cursor in
            let longer : page_size limit < length rows = ltb→lt _ _ more in
            let (c, found) = last_of-take (page_size limit) rows (omega arith) (omega arith) in
            let text = codec.encode c.created_at c.job_id in
            let beyond : Option (ℕ × ℕ) = some (c.created_at, c.job_id) in
            let next : rows_at beyond ≡ drop (page_size limit) rows =
              select_rows_rest ctx wanted db u cursor (page_size limit) c (omega arith) found in
            let shorter : length (rows_at beyond) < fuel =
              rw next (omega (arith, length-drop (page_size limit) rows)) in
            ap (collect rest) (page_from_more cursor c longer found)
            ∙ ap (λ m. m >>= λ later. some (map to_view (take (page_size limit) rows) ++ later))
                (follow_from u fuel (some text) beyond
                    (decode-encode_cursor codec c.created_at c.job_id) shorter
                  ∙ ap (λ k. some (map to_view k)) next)
            ∙ ap some (
                sym (map-append to_view (take (page_size limit) rows) (drop (page_size limit) rows))
                ∙ ap (map to_view) (take-append-drop (page_size limit) rows))
      ]

-- A client that starts without a cursor and follows `next_cursor` gets every job of its own that is
-- not deleted and is in the state asked for, each once, newest first, whatever the page size.
pub follow-eq-select :
    {J : Type 0} (codec : CursorCodec) (ctx : Caller) (wanted : Option JobStatus) (limit : ℕ)
    (db : Db J) (fuel : ℕ)
    → HasUniqueIds db.jobs
    → length db.jobs < fuel
    → (follow codec fuel ctx wanted limit none db
        ≡ some (map to_view (sort_rows (filter (is_listed ctx wanted) db.jobs))))
      × IsDescending (sort_rows (filter (is_listed ctx wanted) db.jobs))
unfolding select_rows
follow-eq-select codec ctx wanted limit db fuel u h =
    let listed = filter (is_listed ctx wanted) db.jobs in
    (
      follow_from codec ctx wanted limit db u fuel none none refl (
            rw filter_all
              (omega (arith, length-sort listed, length-filter (is_listed ctx wanted) db.jobs)))
          ∙ ap (λ rows. some (map to_view (sort_rows rows))) (filter_all listed),
      sort-IsDescending listed (HasUniqueIds-filter (is_listed ctx wanted) db.jobs u),
    )
