-- ===== src/Smpp/Receipt.antt =====
-- internal/smpp/receipt.go and mo.go: the deliver_sm PDUs that the simulator originates.
pub mod Valid
use go_smsc_simulator.Common.{
  ℕ, ltb, ◌==◌, List, [], ◌∷◌, ◌++◌, length, take, if◌then◌else◌, some, codes,
}
use go_smsc_simulator.Smpp.Commands.{deliver_sm}
use go_smsc_simulator.Smpp.Pdu.{Message, Pdu, message}

abbrev pub esm_class_delivery_receipt : ℕ
esm_class_delivery_receipt = 0x04

abbrev pub tag_receipted_message_id : ℕ
tag_receipted_message_id = 0x001E

abbrev pub tag_message_state : ℕ
tag_message_state = 0x0427

-- The values of `MessageState`, a uint8.
abbrev pub state_enroute : ℕ
state_enroute = 1

abbrev pub state_delivered : ℕ
state_delivered = 2

abbrev pub state_expired : ℕ
state_expired = 3

abbrev pub state_deleted : ℕ
state_deleted = 4

abbrev pub state_undeliverable : ℕ
state_undeliverable = 5

abbrev pub state_accepted : ℕ
state_accepted = 6

abbrev pub state_rejected : ℕ
state_rejected = 8

unfoldable pub stat_text : ℕ → List ℕ
stat_text s =
    if s == state_enroute
    then codes "ENROUTE"
    else if s == state_delivered
    then codes "DELIVRD"
    else if s == state_expired
    then codes "EXPIRED"
    else if s == state_deleted
    then codes "DELETED"
    else if s == state_undeliverable
    then codes "UNDELIV"
    else if s == state_accepted
    then codes "ACCEPTD"
    else if s == state_rejected
    then codes "REJECTD"
    else codes "UNKNOWN"

abbrev pub receipt_text_max_len : ℕ
receipt_text_max_len = 20

pub record DeliveryReceipt : Type 0 where
  pub message_id : List ℕ
  pub state : ℕ
  pub error_code : List ℕ
  pub submit_date : List ℕ
  pub done_date : List ℕ
  pub text : List ℕ
  pub source_addr : List ℕ
  pub source_addr_ton : ℕ
  pub source_addr_npi : ℕ
  pub dest_addr : List ℕ
  pub dest_addr_ton : ℕ
  pub dest_addr_npi : ℕ

unfoldable pub receipt_text : DeliveryReceipt → List ℕ
unfolding stat_text
receipt_text r =
    codes "id:"
    ++ r.message_id
    ++ codes " sub:001 dlvrd:"
    ++ (if r.state == state_delivered then codes "001" else codes "000")
    ++ codes " submit date:"
    ++ r.submit_date
    ++ codes " done date:"
    ++ r.done_date
    ++ codes " stat:"
    ++ stat_text r.state
    ++ codes " err:"
    ++ r.error_code
    ++ codes " text:"
    ++ (if ltb receipt_text_max_len (length r.text)
        then take receipt_text_max_len r.text
        else r.text)

-- `cOctetBytes`: the string and the null terminator.
abbrev pub c_octet_bytes : List ℕ → List ℕ
c_octet_bytes s = s ++ 0 ∷ []

-- Go's zero value of `Message`.
abbrev pub empty_message : Message
empty_message = record {
  service_type = [];
  source_addr_ton = 0;
  source_addr_npi = 0;
  source_addr = [];
  dest_addr_ton = 0;
  dest_addr_npi = 0;
  dest_addr = [];
  esm_class = 0;
  protocol_id = 0;
  priority_flag = 0;
  schedule_delivery_time = [];
  validity_period = [];
  registered_delivery = 0;
  replace_if_present = 0;
  data_coding = 0;
  sm_default_msg_id = 0;
  short_message = [];
  tlvs = [];
}

unfoldable pub new_delivery_receipt : DeliveryReceipt → Pdu
unfolding receipt_text
new_delivery_receipt r = record {
  command_id = deliver_sm;
  command_status = 0;
  sequence_number = 0;
  body = some (
      message (record empty_message {
        source_addr = r.source_addr;
        source_addr_ton = r.source_addr_ton;
        source_addr_npi = r.source_addr_npi;
        dest_addr = r.dest_addr;
        dest_addr_ton = r.dest_addr_ton;
        dest_addr_npi = r.dest_addr_npi;
        esm_class = esm_class_delivery_receipt;
        short_message = receipt_text r;
        tlvs =
            record { tag = tag_receipted_message_id; value = c_octet_bytes r.message_id }
            ∷ record { tag = tag_message_state; value = r.state ∷ [] }
            ∷ [];
      }));
}

unfoldable pub new_mobile_originated : List ℕ → List ℕ → List ℕ → Pdu
new_mobile_originated source dest content = record {
  command_id = deliver_sm;
  command_status = 0;
  sequence_number = 0;
  body = some (
      message (record empty_message {
        source_addr = source;
        dest_addr = dest;
        esm_class = 0;
        short_message = content;
      }));
}
