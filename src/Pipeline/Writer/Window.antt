-- ===== src/Pipeline/Writer/Window.antt =====
-- The retention window of persisted ledger states: `next_window` of `write_block`, and the push and
-- eviction of `run`, in crates/nightfrost-chain/src/pipeline.rs.
use nightfrost.Prelude.{ℕ, [], ◌∷◌, ◌++◌, ltb, if◌then◌else◌, length}
use nightfrost.Bytes.{Bytes}
use nightfrost.Store.Records.{LedgerStateWindow, StoredLedgerVersion}

abbrev pub ledger_state_retention : ℕ
ledger_state_retention = 32

-- `while window.len() > LEDGER_STATE_RETENTION { window.remove(0); }`
unfoldable pub evict : LedgerStateWindow → LedgerStateWindow
evict [] = []
evict (entry ∷ window) =
    let rest = evict window in
    if ltb ledger_state_retention (length (entry ∷ window)) then rest else entry ∷ window

unfoldable pub next_window : LedgerStateWindow → Bytes → StoredLedgerVersion → LedgerStateWindow
unfolding evict
next_window window key version = evict (window ++ (key, version) ∷ [])
