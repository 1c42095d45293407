-- ===== src/Api/Routes/Pages.antt =====
-- Following the cursors of `block_txs` in crates/nightfrost-api/src/routes.rs through a block.
use nightfrost.Prelude.{
  ℕ, zero, suc, ◌+◌, ◌-◌, ◌*◌, ◌^◌, ◌≤◌, ◌<◌, ◌≡◌, refl, ap, sym, ◌∙◌, true, false, Option, none,
  some, List, [], ◌∷◌, ◌++◌, ltb, length, take, drop, last?, take_all, map-append, length-drop,
  take-append-drop, drop-drop, take-All, drop-All, All, map, arith, Bool-cases, inl, inr, Result,
  ok, ◌>>=◌,
}
use nightfrost.Bytes.{Bytes, IsArray, bytes_eq_refl, to_be}
use nightfrost.Bytes.BigEndian.{length-to_be, to_be-IsArray, read_be-to_be}
use nightfrost.Store.Fjall.{Fjall}
use nightfrost.Store.Keys.{IsU64}
use nightfrost.Store.Records.{Postcard, BlockRecord}
use nightfrost.Api.Pagination.{Pagination, Order, validate, validate_iff}
use nightfrost.Api.Pagination.Cursor.{TipAnchor, Crypto, encode, query_hash}
use nightfrost.Api.Pagination.RoundTrip.{decode-encode, encode_length}
use nightfrost.Api.Routes.Context.{
  ApiError, current_tip, validate_anchor, page_context, next_cursor,
}
use nightfrost.Api.Routes.Blocks.{Formats, map_option, resolve_block}
use nightfrost.Api.Routes.BlockTxs.{
  ordered, is_past, filter, collect, read_position, block_scope, indexed_hash, block_txs,
}
use nightfrost.Api.Routes.Rows.{row, take-map-take, length-map-take, last-map-row, map-map-row}
use nightfrost.Api.Routes.Indexes.{
  position_of, filter-ordered, last-take-ordered, position-below, length-ordered, ordered-All,
}

module _ (X : Formats) (F : Fjall) (P : Postcard) (C : Crypto) (key : Bytes) (s : ℕ → F.Keyspace)
    (id : Bytes) (order : Order) (count : ℕ) where
  abbrev pub request : Option Bytes → Pagination
  request cursor = record { count = count; order = order; cursor = cursor; page = none }

  -- The pages of a block's transactions, the `j`th of them from the store as it is then; `none` when
  -- the fuel runs out.
  unfoldable pub read_pages : ℕ → ℕ → Option Bytes → Result ApiError (Option (List Bytes))
  read_pages zero j cursor = ok none
  read_pages (suc fuel) j cursor = do
    page ← block_txs X F P C key (s j) id (request cursor)
    elim page.next [
      | none ↦ ok (some page.results)
      | some token ↦ do
        rest ← read_pages fuel (suc j) (some token)
        elim rest [ none ↦ ok none | some more ↦ ok (some (page.results ++ more)) ]
    ]

  module _ (height : ℕ) (r : BlockRecord) (anchor : TipAnchor) (hash_at : ℕ → Bytes)
      (resolved : (j : ℕ) → resolve_block X F P C key (s j) id ≡ ok (height, r))
      (hashes : (j i : ℕ)
        → i < r.tx_count
        → indexed_hash X F P C key (s j) r i ≡ ok (i, hash_at i)) where
    collect-rows :
        (j : ℕ) (is : List ℕ)
        → All (λ i. i < r.tx_count) is
        → collect (indexed_hash X F P C key (s j) r) is ≡ ok (map (row hash_at) is)
    unfolding collect row
    collect-rows j [] below = refl
    collect-rows j (i ∷ is) below = rw (hashes j i below.0, collect-rows j is below.1)

    -- One page, of the indexes that stand behind its position.
    page_lem :
        (j : ℕ) (cursor : Option Bytes) (after : Option ℕ) (is : List ℕ)
        → page_context F P C key (s j) (request cursor) (block_scope height order)
          ≡ ok (record { anchor = some anchor; position = map_option (to_be 4) after })
        → read_position (map_option (to_be 4) after) ≡ ok after
        → filter (is_past order after) (ordered order r.tx_count) ≡ is
        → All (λ i. i < r.tx_count) is
        → block_txs X F P C key (s j) id (request cursor) ≡ (
            next_cursor F P C key
              (s j)
              (block_scope height order)
              (some anchor)
              (map_option (to_be 4) (last? (take count is)))
              (ltb count (length is))
            >>= λ token.
                ok (record {
                  results = map hash_at (take count is);
                  tip = some anchor;
                  next = token;
                }))
    unfolding block_txs
    page_lem j cursor after is context position behind below = rw (
      resolved j,
      context,
      position,
      behind,
      collect-rows j (take (count + 1) is) (take-All _ (count + 1) is below),
      take-map-take hash_at count is,
      length-map-take hash_at count is,
      last-map-row hash_at (take count is),
      map-map-row hash_at (take count is),
    )

    read_pages-last :
        (fuel j : ℕ) (cursor : Option Bytes) (results : List Bytes) (tip : Option TipAnchor)
        → block_txs X F P C key (s j) id (request cursor)
          ≡ ok (record { results = results; tip = tip; next = none })
        → read_pages (suc fuel) j cursor ≡ ok (some results)
    unfolding read_pages
    read_pages-last fuel j cursor results tip page = rw page

    read_pages-more :
        (fuel j : ℕ) (cursor : Option Bytes) (results more : List Bytes) (tip : Option TipAnchor)
        (token : Bytes)
        → block_txs X F P C key (s j) id (request cursor)
          ≡ ok (record { results = results; tip = tip; next = some token })
        → read_pages fuel (suc j) (some token) ≡ ok (some more)
        → read_pages (suc fuel) j cursor ≡ ok (some (results ++ more))
    unfolding read_pages
    read_pages-more fuel j cursor results more tip token page later = rw (page, later)

    module _ (tip : current_tip F P C key (s 0) ≡ ok (some anchor))
        (anchored : (j : ℕ) → validate_anchor F P C key (s j) anchor ≡ ok tt)
        (known_height : IsU64 anchor.height) (known_hash : IsArray 32 anchor.hash)
        (few : r.tx_count < 2 ^ 32) (low : 1 ≤ count) (high : count ≤ 5000)
        (short : (bs : Bytes) → length (C.base64_encode bs) ≤ 2 * length bs) where
      query_scope : Bytes
      query_scope = block_scope height order

      ContextAt : ℕ → Option Bytes → ℕ → Type 0
      ContextAt j cursor k =
          page_context F P C key (s j) (request cursor) (block_scope height order)
          ≡ ok (record {
            anchor = some anchor;
            position = map_option (to_be 4) (position_of order r.tx_count k);
          })

      first_context : ContextAt 0 none 0
      unfolding ContextAt page_context
      first_context =
          let valid : validate (request none) ≡ ok tt =
            (validate_iff (request none)).1 (low, high, refl, tt) in
          rw (valid, tip)

      -- The cursor of a position leads to the page behind it.
      cursor_at :
          (j p k : ℕ)
          → p < r.tx_count
          → position_of order r.tx_count k ≡ some p
          → (token : Bytes) × (encode C key query_scope anchor (to_be 4 p) ≡ some token)
            × ContextAt j (some token) k
      unfolding ContextAt page_context query_scope
      cursor_at j p k below at =
          let (token, made, read) =
            decode-encode C key query_scope anchor (to_be 4 p) known_height known_hash
              (omega (arith, length-to_be 4 p)) (to_be-IsArray 4 p).bytes query_scope in
          let small : length token ≤ 1024 = omega (
            arith,
            length-to_be 4 p,
            encode_length C key query_scope anchor (to_be 4 p) known_height known_hash
                (omega (arith, length-to_be 4 p)) (to_be-IsArray 4 p).bytes token short made,
          ) in
          let valid : validate (request (some token)) ≡ ok tt =
            (validate_iff (request (some token))).1 (low, high, refl, small) in
          (token, made, rw (valid, read, bytes_eq_refl (query_hash C query_scope), anchored j, at))

      position-read :
          (k : ℕ)
          → k ≤ r.tx_count
          → read_position (map_option (to_be 4) (position_of order r.tx_count k))
            ≡ ok (position_of order r.tx_count k)
      unfolding read_position
      position-read zero h = refl
      position-read (suc k) h =
          let (p, at, below) = position-below order r.tx_count (suc k) (omega arith) h in
          rw (at, read_be-to_be 4 p (omega (arith, below, few)), read_position)

      left : ℕ → List ℕ
      left k = drop k (ordered order r.tx_count)

      page_at :
          (j k : ℕ) (cursor : Option Bytes)
          → k ≤ r.tx_count
          → ContextAt j cursor k
          → block_txs X F P C key (s j) id (request cursor) ≡ (
              next_cursor F P C key
                (s j)
                (block_scope height order)
                (some anchor)
                (map_option (to_be 4) (last? (take count (left k))))
                (ltb count (length (left k)))
              >>= λ token. ok (record {
                results = map hash_at (take count (left k));
                tip = some anchor;
                next = token;
              }))
      unfolding ContextAt left
      page_at j k cursor h context =
          page_lem j cursor (position_of order r.tx_count k) (drop k (ordered order r.tx_count))
            context (position-read k h) (filter-ordered order r.tx_count k h)
            (drop-All _ k (ordered order r.tx_count) (ordered-All order r.tx_count))

      length-left : (k : ℕ) → length (left k) ≡ r.tx_count - k
      unfolding left
      length-left k =
          omega (arith, length-drop k (ordered order r.tx_count), length-ordered order r.tx_count)

      last_page :
          (j k : ℕ) (cursor : Option Bytes)
          → k ≤ r.tx_count
          → ContextAt j cursor k
          → ltb count (length (left k)) ≡ false
          → block_txs X F P C key (s j) id (request cursor)
            ≡ ok (record { results = map hash_at (left k); tip = some anchor; next = none })
      unfolding next_cursor
      last_page j k cursor h context no_more =
          page_at j k cursor h context
          ∙ rw (no_more, take_all count (left k) (ground (arith, no_more)))

      more_page :
          (j k p : ℕ) (token : Bytes) (cursor : Option Bytes)
          → k ≤ r.tx_count
          → ContextAt j cursor k
          → ltb count (length (left k)) ≡ true
          → k + count < r.tx_count
          → position_of order r.tx_count (k + count) ≡ some p
          → encode C key query_scope anchor (to_be 4 p) ≡ some token
          → block_txs X F P C key (s j) id (request cursor)
            ≡ ok (record {
              results = map hash_at (take count (left k));
              tip = some anchor;
              next = some token;
            })
      unfolding next_cursor left query_scope
      more_page j k p token cursor h context has_more within at made =
          page_at j k cursor h context
          ∙ rw (
            has_more,
            last-take-ordered order r.tx_count k count low (omega (arith, within)),
            at,
            made,
            next_cursor,
          )

      join_pages :
          (k : ℕ)
          → map hash_at (take count (left k)) ++ map hash_at (left (k + count))
            ≡ map hash_at (left k)
      unfolding left
      join_pages k =
          ap (λ l. map hash_at (take count (left k)) ++ map hash_at l)
            (sym (drop-drop k count (ordered order r.tx_count)))
          ∙ sym (map-append hash_at (take count (left k)) (drop count (left k)))
          ∙ ap (map hash_at) (take-append-drop count (left k))

      pages_from :
          (fuel j k : ℕ) (cursor : Option Bytes)
          → k ≤ r.tx_count
          → ContextAt j cursor k
          → r.tx_count - k < fuel
          → read_pages fuel j cursor ≡ ok (some (map hash_at (left k)))
      pages_from zero j k cursor h context enough = ground (arith, enough)
      pages_from (suc fuel) j k cursor h context enough =
          elim (Bool-cases (ltb count (length (left k)))) [
            | inr no_more ↦
                read_pages-last fuel j cursor (map hash_at (left k)) (some anchor)
                  (last_page j k cursor h context no_more)
            | inl has_more ↦
                let within : k + count < r.tx_count = ground (arith, has_more, length-left k) in
                let (p, at, below) =
                  position-below order r.tx_count (k + count) (omega (arith, low))
                    (omega (arith, within)) in
                let (token, made, context_next) = cursor_at (suc j) p (k + count) below at in
                read_pages-more fuel j cursor (map hash_at (take count (left k)))
                  (map hash_at (left (k + count))) (some anchor) token
                  (more_page j k p token cursor h context has_more within at made)
                  (pages_from fuel (suc j) (k + count) (some token) (omega (arith, within))
                    context_next (omega (arith, enough, within, low)))
                ∙ ap (λ l. ok (some l)) (join_pages k)
          ]

      -- Following the cursors from the first page on, while the store may grow in between, comes to an end
      -- and yields the hash of every transaction of the block once, in the order that was asked for. The
      -- block, its transactions and the tip of the first page stay where they are, a page has 1 to 5000
      -- items, and the base64 of a cursor is at most twice as long as its bytes.
      pub read_pages-all :
          read_pages (suc r.tx_count) 0 none ≡ ok (some (map hash_at (ordered order r.tx_count)))
      unfolding left
      read_pages-all =
          pages_from (suc r.tx_count) 0 0 none (omega arith) first_context (omega arith)
