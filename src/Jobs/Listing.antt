-- ===== src/Jobs/Listing.antt =====
-- `list_jobs`: the query with its cursor, the page, and the next cursor. The query's clauses stand
-- in the order in which SQL applies them: where, order by, limit.
pub mod Order
pub mod Pages
pub mod Follow
use becertain.Prelude.{
  ℕ, suc, ◌+◌, zero, min, max, String, Option, none, some, List, [], ◌∷◌, ◌++◌, map, Bool, true,
  false, ◌&&◌, ◌||◌, not, if◌then◌else◌, ltb, ◌==◌, ◌≡◌, str_eq, take, length, filter,
}
use becertain.Store.Documents.{◌>>=◌}
use becertain.Jobs.Rows.{JobStatus, RcaJob, Db, Caller, JobView, to_view, is_deleted, status_eq}

-- What a cursor decodes to: a position, nothing that the code reads, or JSON that is no object, on
-- which `payload.get` is an `AttributeError`.
pub data Decoding : Type 0 where
  at : ℕ → ℕ → Decoding
  undecodable : Decoding
  no_object : Decoding

-- base64 over JSON over an ISO date, which the cursors go through: a cursor that was written is read
-- back.
pub record CursorCodec : Type 0 where
  pub encode : ℕ → ℕ → String
  pub decode : String → Decoding
  pub decode-encode :
      (created_at job_id : ℕ) → decode (encode created_at job_id) ≡ at created_at job_id
  pub encode-nonempty : (created_at job_id : ℕ) → str_eq (encode created_at job_id) "" ≡ false

-- The last row of a page, `page[-1]`.
abbrev pub last_of {ℓ} : {A : Type ℓ} → List A → Option A
last_of [] = none
last_of (x ∷ xs) = elim (last_of xs) [ none ↦ some x | some y ↦ some y ]

-- `RcaJob.created_at < c or (RcaJob.created_at == c and RcaJob.job_id < i)`
abbrev pub is_after : {J : Type 0} → ℕ × ℕ → RcaJob J → Bool
is_after cursor row =
    ltb row.created_at cursor.0 || (row.created_at == cursor.0 && ltb row.job_id cursor.1)

abbrev pub position : {J : Type 0} → RcaJob J → ℕ × ℕ
position row = (row.created_at, row.job_id)

abbrev pub page_size : ℕ → ℕ
page_size limit = max 1 (min 100 limit)

-- The position of a cursor, which may be none; the `except` clause lets the `AttributeError` pass.
abbrev pub position_of : Decoding → Option (Option (ℕ × ℕ))
position_of (at created_at job_id) = some (some (created_at, job_id))
position_of undecodable = some none
position_of no_object = none

-- `_decode_cursor`: no cursor, an empty one and an undecodable one mean the first page.
abbrev pub decode_cursor : CursorCodec → Option String → Option (Option (ℕ × ℕ))
decode_cursor codec none = some none
decode_cursor codec (some text) =
    if str_eq text "" then some none else position_of (codec.decode text)

-- The items of a page, and of the pages behind its cursor.
abbrev pub collect :
    (String → Option (List JobView)) → List JobView × Option String → Option (List JobView)
collect rest (items, none) = some items
collect rest (items, some text) = rest text >>= λ later. some (items ++ later)

module _ {J : Type 0} where
  -- `order_by(created_at.desc(), job_id.desc())`, as an insertion sort
  unfoldable pub insert : RcaJob J → List (RcaJob J) → List (RcaJob J)
  insert x [] = x ∷ []
  insert x (y ∷ ys) = if is_after (position y) x then y ∷ insert x ys else x ∷ y ∷ ys

  unfoldable pub sort_rows : List (RcaJob J) → List (RcaJob J)
  unfolding insert
  sort_rows [] = []
  sort_rows (x ∷ xs) = insert x (sort_rows xs)

  -- The caller's own jobs that are not deleted, in the state asked for.
  abbrev pub is_listed : Caller → Option JobStatus → RcaJob J → Bool
  is_listed ctx status_filter row =
      str_eq row.tenant_id ctx.tenant_id
      && str_eq row.requested_by ctx.user_id
      && not (is_deleted row.status)
      && elim status_filter [ none ↦ true | some wanted ↦ status_eq row.status wanted ]

  -- The cursor clause; without a cursor there is none.
  abbrev pub is_beyond : Option (ℕ × ℕ) → RcaJob J → Bool
  is_beyond none row = true
  is_beyond (some cursor) row = is_after cursor row

  -- `stmt`, up to its limit
  unfoldable pub select_rows : Caller → Option JobStatus → Option (ℕ × ℕ) → Db J → List (RcaJob J)
  unfolding sort_rows
  select_rows ctx status_filter cursor db =
      sort_rows (filter (is_beyond cursor) (filter (is_listed ctx status_filter) db.jobs))

  module _ (codec : CursorCodec) where
    abbrev pub next_cursor : List (RcaJob J) → Option String
    next_cursor page = elim (last_of page) [
      | none ↦ none
      | some tail ↦ some (codec.encode tail.created_at tail.job_id)
    ]

    -- What follows the decoding of the cursor.
    unfoldable pub page_from :
        Caller → Option JobStatus → ℕ → Db J → Option (ℕ × ℕ) → List JobView × Option String
    page_from ctx status_filter limit db cursor =
        let size = page_size limit in
        let rows = take (size + 1) (select_rows ctx status_filter cursor db) in
        let page = take size rows in
        (map to_view page, if ltb size (length rows) then next_cursor page else none)

    -- `none` is the `AttributeError`.
    unfoldable pub list_jobs :
        Caller → Option JobStatus → ℕ → Option String → Db J → Option (List JobView × Option String)
    list_jobs ctx status_filter limit cursor db = do
      decoded ← decode_cursor codec cursor
      some (page_from ctx status_filter limit db decoded)

    -- A client that follows the cursors, for at most so many requests.
    unfoldable pub follow :
        ℕ → Caller → Option JobStatus → ℕ → Option String → Db J → Option (List JobView)
    follow zero ctx status_filter limit cursor db = some []
    follow (suc fuel) ctx status_filter limit cursor db =
        list_jobs ctx status_filter limit cursor db
        >>= collect (λ text. follow fuel ctx status_filter limit (some text) db)
