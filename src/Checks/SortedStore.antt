-- ===== src/Checks/SortedStore.antt =====
-- Keyspaces as sorted lists of entries: a store of the ordered kind, for the tests.
use Prim.Native.Nat.{Ordering}
use Prim.Native.Nat.Ordering.{lt, eq, gt}
use nightfrost.Prelude.{
  ◌≡◌, refl, ap, sym, subst, ◌∙◌, none, some, List, [], ◌∷◌, All, ◌==◌, if◌then◌else◌, arith,
}
use nightfrost.Bytes.{Bytes, bytes_eq, bytes_eq_iff}
use nightfrost.Bytes.Order.{lex, eq_of_lex, lex_trans, lex_refl, lex_flip}
use nightfrost.Store.Fjall.{
  Fjall, Partition, tag, Write, insert, remove, Batch, same_key, apply_write, latest,
}
use nightfrost.Store.Ordered.{Entry, find, IsAfter, IsSorted, Ordered}

unfoldable pub put : Bytes → Bytes → List Entry → List Entry
put k v [] = (k, v) ∷ []
put k v ((j, w) ∷ es) =
    let rest = put k v es in
    elim (lex k j) [ lt ↦ (k, v) ∷ (j, w) ∷ es | eq ↦ (k, v) ∷ es | gt ↦ (j, w) ∷ rest ]

unfoldable pub delete : Bytes → List Entry → List Entry
delete k [] = []
delete k ((j, w) ∷ es) = let rest = delete k es in if bytes_eq k j then rest else (j, w) ∷ rest

find-put :
    (h k v : Bytes) (es : List Entry)
    → find h (put k v es) ≡ (if bytes_eq h k then some v else find h es)
unfolding put
find-put h k v [] = refl
find-put h k v ((j, w) ∷ es) =
    ground (arith, eq_of_lex k j, lex_refl k, bytes_eq_iff h k, bytes_eq_iff h j, find-put h k v es)

find-delete :
    (h k : Bytes) (es : List Entry)
    → find h (delete k es) ≡ (if bytes_eq h k then none else find h es)
unfolding delete
find-delete h k [] = ground arith
find-delete h k ((j, w) ∷ es) =
    ground (arith, bytes_eq_iff k j, bytes_eq_iff h k, bytes_eq_iff h j, find-delete h k es)

All-IsAfter_trans :
    (k j : Bytes) (es : List Entry) → lex k j ≡ lt → All (IsAfter j) es → All (IsAfter k) es
All-IsAfter_trans k j [] before after = tt
All-IsAfter_trans k j ((i, v) ∷ es) before after =
    (lex_trans k j i before after.0, All-IsAfter_trans k j es before after.1)

put-All :
    (j k v : Bytes) (es : List Entry)
    → lex j k ≡ lt
    → All (IsAfter j) es
    → All (IsAfter j) (put k v es)
unfolding put
put-All j k v [] before after = (before, tt)
put-All j k v ((i, w) ∷ es) before after =
    elim (lex k i)
      as (λ o.
        All (IsAfter j)
          (elim o [ lt ↦ (k, v) ∷ (i, w) ∷ es | eq ↦ (k, v) ∷ es | gt ↦ (i, w) ∷ put k v es ])) [
            | lt ↦ (before, after)
            | eq ↦ (before, after.1)
            | gt ↦ (after.0, put-All j k v es before after.1)
          ]

pub put-IsSorted : (k v : Bytes) (es : List Entry) → IsSorted es → IsSorted (put k v es)
unfolding put
put-IsSorted k v [] sorted = (tt, tt)
put-IsSorted k v ((j, w) ∷ es) sorted = put_cons (lex k j) refl (put-IsSorted k v es sorted.1)
  where
    put_cons :
        (o : Ordering)
        → lex k j ≡ o
        → IsSorted (put k v es)
        → IsSorted (elim o as (λ _. List Entry) [
          | lt ↦ (k, v) ∷ (j, w) ∷ es
          | eq ↦ (k, v) ∷ es
          | gt ↦ (j, w) ∷ put k v es
        ])
    put_cons lt e below = ((e, All-IsAfter_trans k j es e sorted.0), sorted)
    put_cons eq e below =
        (subst (λ i. All (IsAfter i) es) (sym (eq_of_lex k j e)) sorted.0, sorted.1)
    put_cons gt e below = (put-All j k v es (lex_flip k j e) sorted.0, below)

delete-All : (j k : Bytes) (es : List Entry) → All (IsAfter j) es → All (IsAfter j) (delete k es)
unfolding delete
delete-All j k [] after = tt
delete-All j k ((i, w) ∷ es) after = ground (arith, after, delete-All j k es after.1)

delete-IsSorted : (k : Bytes) (es : List Entry) → IsSorted es → IsSorted (delete k es)
unfolding delete
delete-IsSorted k [] sorted = tt
delete-IsSorted k ((j, w) ∷ es) sorted =
    ground (arith, sorted, delete-All j k es sorted.0, delete-IsSorted k es sorted.1)

abbrev pub write_entries : Partition → List Entry → Write → List Entry
write_entries p es (insert q k v) = if tag p == tag q then put k v es else es
write_entries p es (remove q k) = if tag p == tag q then delete k es else es

pub write_entries-IsSorted :
    (p : Partition) (es : List Entry) (w : Write) → IsSorted es → IsSorted (write_entries p es w)
write_entries-IsSorted p es (insert q k v) sorted =
    ground (arith, sorted, put-IsSorted k v es sorted)
write_entries-IsSorted p es (remove q k) sorted =
    ground (arith, sorted, delete-IsSorted k es sorted)

find-write_entries :
    (p : Partition) (h : Bytes) (es : List Entry) (w : Write)
    → find h (write_entries p es w) ≡ apply_write p h (find h es) w
unfolding apply_write same_key
find-write_entries p h es (insert q k v) = ground (arith, find-put h k v es)
find-write_entries p h es (remove q k) = ground (arith, find-delete h k es)

abbrev pub commit_entries : Partition → List Entry → Batch → List Entry
commit_entries p es [] = es
commit_entries p es (w ∷ ws) = commit_entries p (write_entries p es w) ws

pub commit_entries-IsSorted :
    (p : Partition) (es : List Entry) (ws : Batch) → IsSorted es → IsSorted (commit_entries p es ws)
commit_entries-IsSorted p es [] sorted = sorted
commit_entries-IsSorted p es (w ∷ ws) sorted =
    commit_entries-IsSorted p (write_entries p es w) ws (write_entries-IsSorted p es w sorted)

pub find-commit_entries :
    (p : Partition) (h : Bytes) (es : List Entry) (ws : Batch)
    → find h (commit_entries p es ws) ≡ latest p h (find h es) ws
unfolding latest
find-commit_entries p h es [] = refl
find-commit_entries p h es (w ∷ ws) =
    find-commit_entries p h (write_entries p es w) ws
    ∙ ap (λ old. latest p h old ws) (find-write_entries p h es w)

abbrev pub SortedKeyspace : Type 0
SortedKeyspace = (all : Partition → List Entry) × ((p : Partition) → IsSorted (all p))

abbrev pub sorted_write : SortedKeyspace → Write → SortedKeyspace
sorted_write s w = (λ p. write_entries p (s.0 p) w, λ p. write_entries-IsSorted p (s.0 p) w (s.1 p))

pub find-inserted :
    (s : SortedKeyspace) (q : Partition) (j v : Bytes) (p : Partition) (k : Bytes)
    → find k (write_entries p (s.0 p) (insert q j v))
      ≡ (if same_key p k q j then some v else find k (s.0 p))
unfolding apply_write
find-inserted s q j v p k = find-write_entries p k (s.0 p) (insert q j v)

pub find-removed :
    (s : SortedKeyspace) (q : Partition) (j : Bytes) (p : Partition) (k : Bytes)
    → find k (write_entries p (s.0 p) (remove q j))
      ≡ (if same_key p k q j then none else find k (s.0 p))
unfolding apply_write
find-removed s q j p k = find-write_entries p k (s.0 p) (remove q j)

abbrev pub sorted_fjall : Fjall
sorted_fjall = record {
  Keyspace = SortedKeyspace;
  get = λ s p k. find k (s.0 p);
  commit =
      λ s ws. (λ p. commit_entries p (s.0 p) ws, λ p. commit_entries-IsSorted p (s.0 p) ws (s.1 p));
  get-commit = λ s ws p k. find-commit_entries p k (s.0 p) ws;
  insert_entry = λ s q j v. sorted_write s (insert q j v);
  get-insert_entry = λ s q j v p k. find-inserted s q j v p k;
  remove_entry = λ s q j. sorted_write s (remove q j);
  get-remove_entry = λ s q j p k. find-removed s q j p k;
}

abbrev pub sorted_order : Ordered sorted_fjall
sorted_order = record {
  entries = λ s p. s.0 p;
  entries-IsSorted = λ s p. s.1 p;
  find-entries = λ s p k. refl;
}

abbrev pub empty_sorted : SortedKeyspace
empty_sorted = (λ p. [], λ p. tt)
