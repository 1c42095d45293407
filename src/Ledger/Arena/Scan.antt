-- ===== src/Ledger/Arena/Scan.antt =====
-- `scan` of crates/nightfrost-core/src/ledger_db.rs: its pages, one after the other.
use Prim.Native.Nat.Ordering.{lt}
use nightfrost.Prelude.{
  ℕ, zero, suc, ◌<◌, ◌≡◌, refl, ap, sym, subst, ◌∙◌, false, Option, none, some, List, [], ◌∷◌, ◌++◌,
  append_assoc, take, drop, take-append-drop, length-drop, length, last?, map, map-append, All,
  drop-All, take-All, Result, ok, ◌>>=◌, arith,
}
use nightfrost.Bytes.{Bytes, IsArray}
use nightfrost.Bytes.Order.{lex, lex_refl, lex_trans}
use nightfrost.Store.Error.{Error}
use nightfrost.Store.Fjall.{Fjall, ledger_db_nodes}
use nightfrost.Store.Ordered.{Entry, IsAfter, IsSorted, Ordered, is_after, excluded, range}
use nightfrost.Ledger.Arena.Operations.{
  ArenaHash, Serialization, traverse, deserialize_object, deserialize_hash, serialize_object,
  decode_node, lower_bound, last_key, scan,
}

not_after : (j k : Bytes) → lex j k ≡ lt → is_after k j ≡ false
not_after j k before = ground (arith, lex_trans k j k, lex_refl k)

range-All : (k : Bytes) (es : List Entry) → All (IsAfter k) es → range (excluded k) es ≡ es
unfolding range
range-All k [] after = refl
range-All k ((j, v) ∷ es) after = ground (arith, range-All k es after.1, after.0)

-- What follows an entry of a sorted list.
range-append :
    (front : List Entry) (k v : Bytes) (back : List Entry)
    → IsSorted (front ++ ((k, v) ∷ back))
    → range (excluded k) (front ++ ((k, v) ∷ back)) ≡ back
unfolding range
range-append [] k v back sorted = ground (arith, lex_refl k, range-All k back sorted.0)
range-append ((j, w) ∷ front) k v back sorted = ground (
  arith,
  not_after j k (All-middle j front k v back sorted.0),
  range-append front k v back sorted.1,
)
  where
    All-middle :
        (j : Bytes) (front : List Entry) (k v : Bytes) (back : List Entry)
        → All (IsAfter j) (front ++ ((k, v) ∷ back))
        → lex j k ≡ lt
    All-middle j [] k v back h = h.0
    All-middle j (e ∷ front) k v back h = All-middle j front k v back h.1

last?-split {ℓ} :
    {A : Type ℓ} (x : A) (xs : List A)
    → (front : List A) × (y : A) × (x ∷ xs ≡ front ++ (y ∷ [])) × (last? (x ∷ xs) ≡ some y)
last?-split x [] = ([], x, refl, refl)
last?-split x (z ∷ zs) =
    let (front, y, split, last) = last?-split z zs in (x ∷ front, y, ap (λ l. x ∷ l) split, last)

take-map {ℓ κ} :
    {A : Type ℓ} {B : Type κ} (f : A → B) (n : ℕ) (xs : List A)
    → take n (map f xs) ≡ map f (take n xs)
take-map f zero xs = refl
take-map f (suc n) [] = refl
take-map f (suc n) (x ∷ xs) = ap (λ l. f x ∷ l) (take-map f n xs)

module _ (Z : Serialization) where
  open Z use {OnDiskObject}

  abbrev pub Row : Type 0
  Row = ArenaHash × OnDiskObject

  -- The entry that stores a node.
  abbrev pub stored : Row → Entry
  stored (key, object) = (key, serialize_object Z object)

  abbrev pub IsRow : Row → Type 0
  IsRow (key, object) = IsArray 32 key

  decode_node-stored : (row : Row) → IsRow row → decode_node Z (stored row) ≡ ok row
  unfolding decode_node deserialize_hash deserialize_object serialize_object
  decode_node-stored (key, object) array =
      rw (Z.read_hash-array key array, Z.object.decode-encode object)

  traverse-stored :
      (rows : List Row) → All IsRow rows → traverse (decode_node Z) (map stored rows) ≡ ok rows
  unfolding traverse
  traverse-stored [] arrays = refl
  traverse-stored (row ∷ rows) arrays =
      rw (decode_node-stored row arrays.0, traverse-stored rows arrays.1)

  module _ (F : Fjall) (O : Ordered F) (s : F.Keyspace) where
    -- Scans from a handle on, of pages of one size, until a page is empty; `none` when the fuel runs
    -- out first.
    unfoldable pub scan_pages : ℕ → Option ArenaHash → ℕ → Result Error (Option (List Row))
    scan_pages zero resume_from batch_size = ok none
    scan_pages (suc fuel) resume_from batch_size = do
      (batch, handle) ← scan Z F s O resume_from batch_size
      elim batch [
        | [] ↦ ok (some [])
        | row ∷ rows ↦ do
          rest ← scan_pages fuel handle batch_size
          elim rest [ none ↦ ok none | some more ↦ ok (some ((row ∷ rows) ++ more)) ]
      ]

    module _ (resume_from : Option ArenaHash) (back : List Row) (arrays : All IsRow back)
        (here : range (lower_bound Z F s O resume_from) (O.entries s ledger_db_nodes)
          ≡ map stored back) where
      scan-page :
          (n : ℕ) → scan Z F s O resume_from n ≡ ok (take n back, last_key Z F s O (take n back))
      unfolding scan
      scan-page n = rw (
        here,
        take-map stored n back,
        traverse-stored (take n back) (take-All IsRow n back arrays),
      )

    -- After a page, the rows from its last one on.
    range-next :
        (front page : List Row) (row : Row) (back : List Row)
        → O.entries s ledger_db_nodes ≡ map stored (front ++ ((page ++ (row ∷ [])) ++ back))
        → range (excluded row.0) (O.entries s ledger_db_nodes) ≡ map stored back
    range-next front page row back e =
        let split : O.entries s ledger_db_nodes
            ≡ map stored (front ++ page) ++ (stored row ∷ map stored back) =
          e
          ∙ ap (map stored) (
              ap (λ xs. front ++ xs) (append_assoc page (row ∷ []) back)
              ∙ sym (append_assoc front page (row ∷ back)))
          ∙ map-append stored (front ++ page) (row ∷ back) in
        rw split (
          range-append (map stored (front ++ page)) row.0 _ (map stored back)
            (subst IsSorted split (O.entries-IsSorted s ledger_db_nodes)))

    scan_pages-from :
        (size fuel : ℕ) (resume_from : Option ArenaHash) (front back : List Row)
        → O.entries s ledger_db_nodes ≡ map stored (front ++ back)
        → All IsRow back
        → range (lower_bound Z F s O resume_from) (O.entries s ledger_db_nodes) ≡ map stored back
        → length back < fuel
        → scan_pages fuel resume_from (suc size) ≡ ok (some back)
    unfolding scan_pages
    scan_pages-from size zero resume_from front back e arrays here enough = ground (arith, enough)
    scan_pages-from size (suc fuel) resume_from front [] e arrays here enough =
        rw (scan-page resume_from [] arrays here (suc size))
    scan_pages-from size (suc fuel) resume_from front (row ∷ rows) e arrays here enough =
        let (page, last_row, split, last) = last?-split row (take size rows) in
        let back = drop size rows in
        let whole : (row ∷ take size rows) ++ back ≡ row ∷ rows =
          ap (λ l. row ∷ l) (take-append-drop size rows) in
        let later =
          scan_pages-from size fuel (some last_row.0) (front ++ (row ∷ take size rows)) back
            (e
              ∙ ap (map stored) (
                  ap (λ xs. front ++ xs) (sym whole)
                  ∙ sym (append_assoc front (row ∷ take size rows) back)))
            (drop-All IsRow size rows arrays.1)
            (range-next front page last_row back
              (e ∙ ap (λ xs. map stored (front ++ xs)) (sym whole ∙ ap (λ xs. xs ++ back) split)))
            (omega (arith, enough, length-drop size rows)) in
        rw (scan-page resume_from (row ∷ rows) arrays here (suc size), last, later)
          (ap (λ xs. ok (some xs)) whole)

    -- Scanning page by page, of any size above 0, comes to an end and yields every node of the
    -- arena once, in the order of the hashes: as many scans are enough as there are nodes, and one.
    pub scan_pages-All :
        (size : ℕ) (rows : List Row)
        → 0 < size
        → All IsRow rows
        → O.entries s ledger_db_nodes ≡ map stored rows
        → scan_pages (suc (length rows)) none size ≡ ok (some rows)
    unfolding range
    scan_pages-All zero rows positive arrays e = ground (arith, positive)
    scan_pages-All (suc size) rows positive arrays e =
        scan_pages-from size (suc (length rows)) none [] rows e arrays e (omega arith)
