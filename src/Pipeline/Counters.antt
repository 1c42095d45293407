-- ===== src/Pipeline/Counters.antt =====
-- `Counters::load` of crates/nightfrost-chain/src/pipeline.rs.
use nightfrost.Prelude.{Result, ok, ◌>>=◌}
use nightfrost.Store.Error.{Error}
use nightfrost.Store.Fjall.{Fjall}
use nightfrost.Store.Reads.{next_id}
use nightfrost.Store.Records.{Postcard, next_tx_id_key, next_action_id_key, next_event_id_key}
use nightfrost.Pipeline.Writer.Defs.{Counters}

unfoldable pub load : Postcard → (F : Fjall) → F.Keyspace → Result Error Counters
unfolding next_id
load P F s = do
  tx ← next_id F P s next_tx_id_key
  action ← next_id F P s next_action_id_key
  event ← next_id F P s next_event_id_key
  ok (record { next_tx_id = tx; next_action_id = action; next_event_id = event })
