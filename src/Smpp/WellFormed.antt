-- ===== src/Smpp/WellFormed.antt =====
-- The PDUs that the wire format can carry: the ranges of the Go types (uint8, uint16, uint32), the
-- strings that a null terminator can end, and the bounds of codec.go on a field.
use go_smsc_simulator.Common.{ℕ, ◌≤◌, ◌<◌, ◌^◌, List, All, length, Option, none, some}
use go_smsc_simulator.Smpp.Commands.{IsU32}
use go_smsc_simulator.Smpp.Pdu.{
  Tlv, Bind, BindResp, Message, SubmitResp, Body, Pdu, bind, bind_resp, message, submit_resp,
  max_short_message_len,
}
use go_smsc_simulator.Smpp.Reader.{max_c_octet_len, max_tlvs}
use go_smsc_simulator.Smpp.Decode.{Shape, shape}

abbrev pub IsByte : ℕ → Type 0
IsByte b = b < 256

abbrev pub AreBytes : List ℕ → Type 0
AreBytes = All IsByte

-- An octet of a C-octet string is not the terminator.
abbrev pub IsTextByte : ℕ → Type 0
IsTextByte b = (0 < b) × (b < 256)

pub record IsText (s : List ℕ) : Type 0 where
  pub characters : All IsTextByte s
  pub short : length s < max_c_octet_len

pub record TlvIsWf (t : Tlv) : Type 0 where
  pub tag : t.tag < 2 ^ 16
  pub short : length t.value < 2 ^ 16
  pub bytes : AreBytes t.value

pub record TlvsIsWf (ts : List Tlv) : Type 0 where
  pub each : All TlvIsWf ts
  pub few : length ts ≤ max_tlvs

pub record BindIsWf (b : Bind) : Type 0 where
  pub system_id : IsText b.system_id
  pub password : IsText b.password
  pub system_type : IsText b.system_type
  pub interface_version : IsByte b.interface_version
  pub addr_ton : IsByte b.addr_ton
  pub addr_npi : IsByte b.addr_npi
  pub address_range : IsText b.address_range

pub record MessageIsWf (m : Message) : Type 0 where
  pub service_type : IsText m.service_type
  pub source_addr_ton : IsByte m.source_addr_ton
  pub source_addr_npi : IsByte m.source_addr_npi
  pub source_addr : IsText m.source_addr
  pub dest_addr_ton : IsByte m.dest_addr_ton
  pub dest_addr_npi : IsByte m.dest_addr_npi
  pub dest_addr : IsText m.dest_addr
  pub esm_class : IsByte m.esm_class
  pub protocol_id : IsByte m.protocol_id
  pub priority_flag : IsByte m.priority_flag
  pub schedule_delivery_time : IsText m.schedule_delivery_time
  pub validity_period : IsText m.validity_period
  pub registered_delivery : IsByte m.registered_delivery
  pub replace_if_present : IsByte m.replace_if_present
  pub data_coding : IsByte m.data_coding
  pub sm_default_msg_id : IsByte m.sm_default_msg_id
  pub short_message : AreBytes m.short_message
  pub fits : length m.short_message ≤ max_short_message_len
  pub tlvs : TlvsIsWf m.tlvs

-- A body of the shape that its command carries.
pub data BodyIsWf : Shape → Option Body → Type 0 where
  bind_wf : {b : Bind} → BindIsWf b → BodyIsWf Shape.bind_shape (some (bind b))
  bind_resp_wf :
      {b : BindResp}
      → IsText b.system_id
      → TlvsIsWf b.tlvs
      → BodyIsWf Shape.bind_resp_shape (some (bind_resp b))
  message_wf : {m : Message} → MessageIsWf m → BodyIsWf Shape.message_shape (some (message m))
  submit_resp_wf :
      {s : SubmitResp}
      → IsText s.message_id
      → BodyIsWf Shape.submit_resp_shape (some (submit_resp s))
  no_body_wf : BodyIsWf Shape.header_only none

pub record PduIsWf (p : Pdu) : Type 0 where
  pub command_id : IsU32 p.command_id
  pub command_status : IsU32 p.command_status
  pub sequence_number : IsU32 p.sequence_number
  pub body : BodyIsWf (shape p.command_id) p.body
