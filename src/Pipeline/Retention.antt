-- ===== src/Pipeline/Retention.antt =====
-- The retention window that `run` of crates/nightfrost-chain/src/pipeline.rs keeps in memory: it
-- pushes each block's key and unpersists the keys that fall out.
use nightfrost.Prelude.{
  ◌+◌, ◌-◌, ◌≤◌, ◌≡◌, refl, ap, [], ◌∷◌, ◌++◌, arith, ltb, length, length-append, if◌then◌else◌,
}
use nightfrost.Bytes.{Bytes}
use nightfrost.Store.Records.{LedgerStateWindow, StoredLedgerVersion}
use nightfrost.Pipeline.Writer.Window.{evict, next_window, ledger_state_retention}

-- The loop that pops the oldest key while the window is too long: what stays, and what is
-- unpersisted.
pop_oldest : LedgerStateWindow → LedgerStateWindow × LedgerStateWindow
pop_oldest [] = ([], [])
pop_oldest (entry ∷ window) =
    let rest = pop_oldest window in
    if ltb ledger_state_retention (length (entry ∷ window))
    then (rest.0, entry ∷ rest.1)
    else (entry ∷ window, [])

unfoldable pub push_key :
    LedgerStateWindow → Bytes → StoredLedgerVersion → LedgerStateWindow × LedgerStateWindow
unfolding pop_oldest
push_key window key version = pop_oldest (window ++ (key, version) ∷ [])

pop_oldest-evict : (w : LedgerStateWindow) → (pop_oldest w).0 ≡ evict w
unfolding pop_oldest evict
pop_oldest-evict [] = refl
pop_oldest-evict (x ∷ w) = ground (arith, pop_oldest-evict w)

pop_oldest-append : (w : LedgerStateWindow) → (pop_oldest w).1 ++ (pop_oldest w).0 ≡ w
unfolding pop_oldest
pop_oldest-append [] = refl
pop_oldest-append (x ∷ w) = ground (arith, pop_oldest-append w)

pop_oldest-length :
    (w : LedgerStateWindow) → length (pop_oldest w).1 ≡ length w - ledger_state_retention
unfolding pop_oldest
pop_oldest-length [] = omega arith
pop_oldest-length (x ∷ w) = ground (arith, pop_oldest-length w)

-- The window in memory after a block is the window that the block's batch stored; what stays and
-- what is unpersisted make up the old window and the new key, oldest first; at most 32 keys stay;
-- and no key is unpersisted while there is room.
pub push_key_retains :
    (window : LedgerStateWindow) (key : Bytes) (version : StoredLedgerVersion)
    → ((push_key window key version).0 ≡ next_window window key version)
      × ((push_key window key version).1 ++ (push_key window key version).0
          ≡ window ++ (key, version) ∷ [])
      × (length (push_key window key version).0 ≤ ledger_state_retention)
      × (length (push_key window key version).1 ≡ length window + 1 - ledger_state_retention)
unfolding push_key next_window
push_key_retains window key version =
    let w = window ++ (key, version) ∷ [] in
    let l = length-append window ((key, version) ∷ []) in
    let parts = pop_oldest-append w in
    (
      pop_oldest-evict w,
      parts,
      omega (
        arith,
        l,
        pop_oldest-length w,
        length-append (pop_oldest w).1 (pop_oldest w).0,
        ap (λ (x : LedgerStateWindow). length x) parts,
      ),
      omega (arith, l, pop_oldest-length w),
    )
