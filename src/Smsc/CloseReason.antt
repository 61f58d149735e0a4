-- ===== src/Smsc/CloseReason.antt =====
-- internal/smsc/close_reason.go: why a session ended.
use go_smsc_simulator.Common.{Bool, true, false}

pub data CloseReason : Type 0 where
  client_unbind client_eof read_error write_error write_timeout idle_timeout partial_frame_timeout
        protocol_error auth_failed bind_rejected fault_injection scheduled_disconnect shutdown
        panic :
      CloseReason

pub data Initiator : Type 0 where
  client server : Initiator

unfoldable pub initiator : CloseReason → Initiator
initiator client_unbind = client
initiator client_eof = client
initiator read_error = client
initiator write_error = client
initiator r = server

-- The argument says whether the error is a net.Error that is a timeout.
unfoldable pub write_failure : Bool → CloseReason
write_failure true = write_timeout
write_failure false = write_error
