-- ===== src/Smpp/Pdu.antt =====
-- internal/smpp/pdu.go: the PDU and its bodies. A nil body is `none`.
use go_smsc_simulator.Common.{ℕ, List, Option}

pub record Tlv : Type 0 where
  pub tag : ℕ
  pub value : List ℕ

pub record Bind : Type 0 where
  pub system_id : List ℕ
  pub password : List ℕ
  pub system_type : List ℕ
  pub interface_version : ℕ
  pub addr_ton : ℕ
  pub addr_npi : ℕ
  pub address_range : List ℕ

pub record BindResp : Type 0 where
  pub system_id : List ℕ
  pub tlvs : List Tlv

pub record Message : Type 0 where
  pub service_type : List ℕ
  pub source_addr_ton : ℕ
  pub source_addr_npi : ℕ
  pub source_addr : List ℕ
  pub dest_addr_ton : ℕ
  pub dest_addr_npi : ℕ
  pub dest_addr : List ℕ
  pub esm_class : ℕ
  pub protocol_id : ℕ
  pub priority_flag : ℕ
  pub schedule_delivery_time : List ℕ
  pub validity_period : List ℕ
  pub registered_delivery : ℕ
  pub replace_if_present : ℕ
  pub data_coding : ℕ
  pub sm_default_msg_id : ℕ
  pub short_message : List ℕ
  pub tlvs : List Tlv

pub record SubmitResp : Type 0 where
  pub message_id : List ℕ

-- The sealed interface `Body`: a pointer to one of the four concrete bodies.
pub data Body : Type 0 where
  bind : Bind → Body
  bind_resp : BindResp → Body
  message : Message → Body
  submit_resp : SubmitResp → Body

pub record Pdu : Type 0 where
  pub command_id : ℕ
  pub command_status : ℕ
  pub sequence_number : ℕ
  pub body : Option Body

abbrev pub max_short_message_len : ℕ
max_short_message_len = 254

abbrev pub tag_message_payload : ℕ
tag_message_payload = 0x0424
