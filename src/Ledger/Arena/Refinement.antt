-- ===== src/Ledger/Arena/Refinement.antt =====
-- What `FjallLedgerDb` of crates/nightfrost-core/src/ledger_db.rs promises to storage-core: a map
-- of nodes and a map of counts, in which a root of count 0 is no root.
use nightfrost.Prelude.{
  true, ltb, ℕ, zero, suc, ◌^◌, ◌<◌, ◌≡◌, refl, ap, sym, ◌∙◌, fun_ext, Option, none, some, List, [],
  ◌∷◌, map, Result, ok, ◌>>=◌, if◌then◌else◌, All, arith,
}
use nightfrost.Bytes.{Bytes, bytes_eq, to_be}
use nightfrost.Bytes.BigEndian.{read_be-to_be}
use nightfrost.Store.Error.{Error}
use nightfrost.Store.Fjall.{
  Fjall, Partition, ledger_db_nodes, ledger_db_roots, same_key, apply_write, latest, tag,
}
use nightfrost.Ledger.Arena.Operations.{
  ArenaHash, Serialization, deserialize_count, Update, insert_node_update, delete_node_update,
  set_root_count_update, serialize_object, deserialize_object, update_write, get_node, insert_node,
  delete_node, batch_update, get_root_count, set_root_count,
}

module _ (Z : Serialization) where
  open Z use {OnDiskObject}

  pub record View : Type 0 where
    pub nodes : ArenaHash → Option OnDiskObject
    pub counts : ArenaHash → ℕ

  abbrev pub IsUpdate : ArenaHash × Update Z → Type 0
  IsUpdate (key, set_root_count_update n) = n < 2 ^ 32
  IsUpdate _ = Unit {0}

  abbrev pub updated {ℓ} : {A : Type ℓ} → (ArenaHash → A) → ArenaHash → A → ArenaHash → A
  updated f key a h = if bytes_eq h key then a else f h

  abbrev pub view_update : View → ArenaHash × Update Z → View
  view_update a (key, insert_node_update object) = record {
    nodes = updated a.nodes key (some object);
    counts = a.counts;
  }
  view_update a (key, delete_node_update) = record {
    nodes = updated a.nodes key none;
    counts = a.counts;
  }
  view_update a (key, set_root_count_update n) = record {
    nodes = a.nodes;
    counts = updated a.counts key n;
  }

  abbrev pub view_updates : View → List (ArenaHash × Update Z) → View
  view_updates a [] = a
  view_updates a (u ∷ us) = view_updates (view_update a u) us

  -- What the two lookups make of the bytes that they find.
  node_of : Option Bytes → Result Error (Option OnDiskObject)
  node_of none = ok none
  node_of (some bytes) = do object ← deserialize_object Z bytes; ok (some object)

  count_of : Option Bytes → Result Error ℕ
  count_of none = ok 0
  count_of (some bytes) = deserialize_count bytes

  node_of-update :
      (h : ArenaHash) (a : View) (old : Option Bytes) (u : ArenaHash × Update Z)
      → node_of old ≡ ok (a.nodes h)
      → node_of (apply_write ledger_db_nodes h old (update_write Z u))
        ≡ ok ((view_update a u).nodes h)
  unfolding apply_write same_key tag update_write serialize_object deserialize_object node_of
  node_of-update h a old (key, insert_node_update object) e =
      ground (arith, e, Z.object.decode-encode object)
  node_of-update h a old (key, delete_node_update) e = ground (arith, e)
  node_of-update h a old (key, set_root_count_update zero) e = e
  node_of-update h a old (key, set_root_count_update (suc n)) e = e

  count_of-update :
      (h : ArenaHash) (a : View) (old : Option Bytes) (u : ArenaHash × Update Z)
      → IsUpdate u
      → count_of old ≡ ok (a.counts h)
      → count_of (apply_write ledger_db_roots h old (update_write Z u))
        ≡ ok ((view_update a u).counts h)
  unfolding apply_write same_key tag update_write deserialize_count count_of
  count_of-update h a old (key, insert_node_update object) small e = e
  count_of-update h a old (key, delete_node_update) small e = e
  count_of-update h a old (key, set_root_count_update zero) small e = ground (arith, e)
  count_of-update h a old (key, set_root_count_update (suc n)) small e =
      ground (arith, e, read_be-to_be 4 (suc n) small)

  node_of-updates :
      (h : ArenaHash) (us : List (ArenaHash × Update Z)) (a : View) (old : Option Bytes)
      → node_of old ≡ ok (a.nodes h)
      → node_of (latest ledger_db_nodes h old (map (update_write Z) us))
        ≡ ok ((view_updates a us).nodes h)
  unfolding latest
  node_of-updates h [] a old e = e
  node_of-updates h (u ∷ us) a old e =
      node_of-updates h us (view_update a u) _ (node_of-update h a old u e)

  count_of-updates :
      (h : ArenaHash) (us : List (ArenaHash × Update Z)) (a : View) (old : Option Bytes)
      → All IsUpdate us
      → count_of old ≡ ok (a.counts h)
      → count_of (latest ledger_db_roots h old (map (update_write Z) us))
        ≡ ok ((view_updates a us).counts h)
  unfolding latest
  count_of-updates h [] a old small e = e
  count_of-updates h (u ∷ us) a old small e =
      count_of-updates h us (view_update a u) _ small.1 (count_of-update h a old u small.0 e)

  module _ (F : Fjall) where
    abbrev pub Represents : F.Keyspace → View → Type 0
    Represents s a =
        (get_node Z F s ≡ (λ h. ok (a.nodes h))) × (get_root_count Z F s ≡ (λ h. ok (a.counts h)))

    get_node-node_of :
        (s : F.Keyspace) (h : ArenaHash) → get_node Z F s h ≡ node_of (F.get s ledger_db_nodes h)
    unfolding get_node node_of
    get_node-node_of s h = elim (F.get s ledger_db_nodes h) [ none ↦ refl | some bytes ↦ refl ]

    get_root_count-count_of :
        (s : F.Keyspace) (h : ArenaHash)
        → get_root_count Z F s h ≡ count_of (F.get s ledger_db_roots h)
    unfolding get_root_count count_of
    get_root_count-count_of s h = elim (F.get s ledger_db_roots h) [
      | none ↦ refl
      | some bytes ↦ refl
    ]

    -- A batch of updates does to the nodes and the counts that are read back what the updates do,
    -- one after the other, to the two maps, provided that the counts fit in 32 bits.
    pub batch_update-Represents :
        (s : F.Keyspace) (a : View) (updates : List (ArenaHash × Update Z))
        → All IsUpdate updates
        → Represents s a
        → Represents (batch_update Z F s updates) (view_updates a updates)
    unfolding batch_update
    batch_update-Represents s a updates small (nodes_agree, counts_agree) =
        let writes = map (update_write Z) updates in
        let committed = F.commit s writes in
        (
          fun_ext λ h.
              get_node-node_of committed h
              ∙ ap node_of (F.get-commit s writes ledger_db_nodes h)
              ∙ node_of-updates h updates a _
                  (sym (get_node-node_of s h) ∙ ap (λ f. f h) nodes_agree),
          fun_ext λ h.
              get_root_count-count_of committed h
              ∙ ap count_of (F.get-commit s writes ledger_db_roots h)
              ∙ count_of-updates h updates a _ small
                  (sym (get_root_count-count_of s h) ∙ ap (λ f. f h) counts_agree),
        )

    update-Represents :
        (s s' : F.Keyspace) (a : View) (u : ArenaHash × Update Z)
        → IsUpdate u
        → ((p : Partition) (k : Bytes)
            → F.get s' p k ≡ apply_write p k (F.get s p k) (update_write Z u))
        → Represents s a
        → Represents s' (view_update a u)
    update-Represents s s' a u small written (nodes_agree, counts_agree) = (
      fun_ext λ h.
          get_node-node_of s' h
          ∙ ap node_of (written ledger_db_nodes h)
          ∙ node_of-update h a _ u (sym (get_node-node_of s h) ∙ ap (λ f. f h) nodes_agree),
      fun_ext λ h.
          get_root_count-count_of s' h
          ∙ ap count_of (written ledger_db_roots h)
          ∙ count_of-update h a _ u small
              (sym (get_root_count-count_of s h) ∙ ap (λ f. f h) counts_agree),
    )

    set_root_count-write :
        (s : F.Keyspace) (key : ArenaHash) (n : ℕ) (p : Partition) (k : Bytes)
        → F.get (set_root_count Z F s key n) p k
          ≡ apply_write p k (F.get s p k) (update_write Z (key, set_root_count_update n))
    unfolding set_root_count update_write apply_write
    set_root_count-write s key zero p k = F.get-remove_entry s ledger_db_roots key p k
    set_root_count-write s key (suc n) p k =
        let positive : ltb 0 (suc n) ≡ true = ground arith in
        rw positive (F.get-insert_entry s ledger_db_roots key (to_be 4 (suc n)) p k)

    -- The operations on one key do to the nodes and the counts that are read back what they are to
    -- do to the two maps: insert a node, delete one, and set a count, provided that it fits in 32
    -- bits.
    pub single-Represents :
        (s : F.Keyspace) (a : View) (key : ArenaHash) (object : OnDiskObject) (n : ℕ)
        → n < 2 ^ 32
        → Represents s a
        → Represents
            (insert_node Z F s key object)
            (record { nodes = updated a.nodes key (some object); counts = a.counts })
          × Represents
              (delete_node Z F s key)
              (record { nodes = updated a.nodes key none; counts = a.counts })
          × Represents
              (set_root_count Z F s key n)
              (record { nodes = a.nodes; counts = updated a.counts key n })
    unfolding insert_node delete_node update_write serialize_object apply_write
    single-Represents s a key object n small agree = (
      update-Represents s (insert_node Z F s key object) a (key, insert_node_update object) tt
          (F.get-insert_entry s ledger_db_nodes key (serialize_object Z object)) agree,
      update-Represents s (delete_node Z F s key) a (key, delete_node_update) tt
          (F.get-remove_entry s ledger_db_nodes key) agree,
      update-Represents s (set_root_count Z F s key n) a (key, set_root_count_update n) small
          (set_root_count-write s key n) agree,
    )
