-- ===== src/Endpoint/Replies.antt =====
-- `spawn_outbound_accept_loop` of src/iroh/endpoint.rs: the streams that a peer opens on a
-- connection that this endpoint dialled. The loop takes the inbox that is registered when the
-- connection is made.
use rust_ma_core.Common.{ℕ, Str, str_eq, Option, none, some}
use rust_ma_core.Common.Maps.{get}
use rust_ma_core.Error.{ServiceResult}
use rust_ma_core.Inbox.{Inbox}
use rust_ma_core.Doc.Types.{Document}
use rust_ma_core.Msg.Crates.{MsgCrates}
use rust_ma_core.Transport.{normalize_protocol}
use rust_ma_core.Inbound.{Clocks, Incoming, Shared, handle_stream}
use rust_ma_core.Endpoint.{IrohEndpoint}

-- The inbox of the loop; `none` if no loop is spawned.
unfoldable pub loop_inbox : Str → IrohEndpoint → Option Inbox
loop_inbox protocol e = get str_eq (normalize_protocol protocol) e.inboxes

module _ (crates : MsgCrates) (resolver : Str → ServiceResult Document) where
  -- One stream on the connection; without a loop nobody accepts it.
  unfoldable pub loop_stream : Option Inbox → Clocks → ℕ → Str → Incoming → Shared → Shared
  loop_stream none clocks now protocol incoming s = s
  loop_stream (some inbox) clocks now protocol incoming s =
      handle_stream crates resolver clocks now (normalize_protocol protocol) inbox incoming s

  unfoldable pub spawn_outbound_accept_loop :
      Str → IrohEndpoint → Clocks → ℕ → Incoming → Shared → Shared
  unfolding loop_inbox loop_stream
  spawn_outbound_accept_loop protocol e clocks now incoming s =
      loop_stream (loop_inbox protocol e) clocks now protocol incoming s
