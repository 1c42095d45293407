-- ===== src/Checks/Arenas.antt =====
-- The theorems on the ledger's arena, at a store of two nodes and a root.
use nightfrost.Prelude.{ℕ, ◌≡◌, refl, none, some, List, [], ◌∷◌, map, arith, ok}
use nightfrost.Bytes.{Bytes, to_be}
use nightfrost.Bytes.BigEndian.{to_be-IsArray}
use nightfrost.Bytes.Order.{lex}
use nightfrost.Store.Fjall.{ledger_db_nodes, ledger_db_roots, tag}
use nightfrost.Ledger.Arena.Operations.{
  ArenaHash, Serialization, Update, insert_node_update, set_root_count_update, update_write,
  get_node, insert_node, delete_node, set_root_count, batch_update, get_root_count, get_roots,
  serialize_object,
}
use nightfrost.Ledger.Arena.Refinement.{
  View, view_updates, Represents, batch_update-Represents, updated, single-Represents,
}
use nightfrost.Ledger.Arena.Scan.{Row, scan_pages, scan_pages-All, stored}
use nightfrost.Ledger.Arena.Roots.{count_in, stored_root, get_roots-get_root_count}
use nightfrost.Checks.Wire.{codec, list_wire, bytes_wire}
use nightfrost.Checks.SortedStore.{
  sorted_fjall, sorted_order, empty_sorted, SortedKeyspace, put, delete,
}

-- Nodes are lists of their children's hashes.
abbrev plain : Serialization
plain = record {
  OnDiskObject = List Bytes;
  children = λ object. object;
  object = codec (list_wire bytes_wire);
  read_hash = some;
  read_hash-array = λ h array. refl;
}

abbrev leaf : ArenaHash
leaf = to_be 32 7

abbrev root : ArenaHash
root = to_be 32 9

abbrev updates : List (ArenaHash × Update plain)
updates =
    (root, insert_node_update (leaf ∷ []))
    ∷ (leaf, insert_node_update [])
    ∷ (root, set_root_count_update 2)
    ∷ []

abbrev grown : SortedKeyspace
grown = batch_update plain sorted_fjall empty_sorted updates

abbrev blank_view : View plain
blank_view = record { nodes = λ h. none; counts = λ h. 0 }

empty-Represents : Represents plain sorted_fjall empty_sorted blank_view
unfolding get_node get_root_count
empty-Represents = (refl, refl)

batch_update-Represents_example :
    Represents plain sorted_fjall grown (view_updates plain blank_view updates)
batch_update-Represents_example =
    batch_update-Represents plain sorted_fjall empty_sorted blank_view updates
      (tt, (tt, (omega arith, tt))) empty-Represents

single-Represents_example :
    Represents plain sorted_fjall
      (insert_node plain sorted_fjall empty_sorted leaf [])
      (record { nodes = updated plain blank_view.nodes leaf (some []); counts = blank_view.counts })
    × Represents plain sorted_fjall
        (delete_node plain sorted_fjall empty_sorted leaf)
        (record { nodes = updated plain blank_view.nodes leaf none; counts = blank_view.counts })
    × Represents plain sorted_fjall
        (set_root_count plain sorted_fjall empty_sorted leaf 3)
        (record { nodes = blank_view.nodes; counts = updated plain blank_view.counts leaf 3 })
single-Represents_example =
    single-Represents plain sorted_fjall empty_sorted blank_view leaf [] 3 (omega arith)
      empty-Represents

abbrev rows : List (Row plain)
rows = (leaf, []) ∷ (root, leaf ∷ []) ∷ []

grown_nodes : sorted_order.entries grown ledger_db_nodes ≡ map (stored plain) rows
unfolding batch_update update_write serialize_object put delete tag lex to_be
grown_nodes = refl

scan_pages-All_example : scan_pages plain sorted_fjall sorted_order grown 3 none 1 ≡ ok (some rows)
scan_pages-All_example =
    scan_pages-All plain sorted_fjall sorted_order grown 1 rows (omega arith)
      (to_be-IsArray 32 7, (to_be-IsArray 32 9, tt)) grown_nodes

abbrev roots : List (ArenaHash × ℕ)
roots = (root, 2) ∷ []

grown-roots : sorted_order.entries grown ledger_db_roots ≡ map stored_root roots
unfolding batch_update update_write serialize_object put delete tag lex to_be
grown-roots = refl

get_roots-get_root_count_example :
    (get_roots plain sorted_fjall grown sorted_order ≡ ok roots)
    × (get_root_count plain sorted_fjall grown root ≡ ok (count_in root roots))
get_roots-get_root_count_example =
    get_roots-get_root_count plain sorted_fjall sorted_order grown roots root
      ((to_be-IsArray 32 9, omega arith), tt) grown-roots
