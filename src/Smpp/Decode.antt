-- ===== src/Smpp/Decode.antt =====
-- internal/smpp/codec.go, `ReadPDU` and `Decode`.
pub mod RoundTrip
pub mod Accepted
pub mod Framing
pub mod EdgeCases
use go_smsc_simulator.Common.{
  ℕ, ◌+◌, ◌-◌, ◌==◌, ltb, Bool, ◌||◌, List, [], ◌∷◌, ◌++◌, length, take, drop, Option, none, some,
  Result, ok, err, if◌then◌else◌,
}
use go_smsc_simulator.Smpp.Commands.{
  bind_receiver, bind_transmitter, bind_transceiver, bind_receiver_resp, bind_transmitter_resp,
  bind_transceiver_resp, submit_sm, deliver_sm, submit_sm_resp, deliver_sm_resp, enquire_link,
  enquire_link_resp, unbind, unbind_resp, generic_nack,
}
use go_smsc_simulator.Smpp.Pdu.{
  Pdu, Body, Bind, BindResp, Message, SubmitResp, bind, bind_resp, message, submit_resp,
  max_short_message_len,
}
use go_smsc_simulator.Smpp.Reader.{
  CodecError, short_pdu, bad_command_length, unknown_command, bad_short_message, partial_frame, eof,
  unexpected_eof, Read, ◌>>=◌, return, fail, remaining, read_byte, read_u32, read_c_octet_string,
  read_octets, read_tlvs,
}
use go_smsc_simulator.Smpp.Encode.{header_len, max_pdu_len, u32_of}

unfoldable pub decode_bind : Read Body
decode_bind = do
  system_id ← read_c_octet_string
  password ← read_c_octet_string
  system_type ← read_c_octet_string
  interface_version ← read_byte
  addr_ton ← read_byte
  addr_npi ← read_byte
  address_range ← read_c_octet_string
  return (
      bind (record {
        system_id = system_id;
        password = password;
        system_type = system_type;
        interface_version = interface_version;
        addr_ton = addr_ton;
        addr_npi = addr_npi;
        address_range = address_range;
      }))

unfoldable pub decode_bind_resp_fields : Read Body
decode_bind_resp_fields = do
  system_id ← read_c_octet_string
  tlvs ← read_tlvs
  return (bind_resp (record { system_id = system_id; tlvs = tlvs }))

-- An error bind_resp has no body.
unfoldable pub decode_bind_resp : Read Body
unfolding remaining
decode_bind_resp r =
    if remaining r == 0
    then ok (bind_resp (record { system_id = []; tlvs = [] }), r)
    else decode_bind_resp_fields r

-- `sm_length` is checked before the octets are read.
unfoldable pub read_short_message : Read (List ℕ)
read_short_message = do
  sm_length ← read_byte
  if ltb max_short_message_len sm_length then fail bad_short_message else read_octets sm_length

unfoldable pub decode_message : Read Body
decode_message = do
  service_type ← read_c_octet_string
  source_addr_ton ← read_byte
  source_addr_npi ← read_byte
  source_addr ← read_c_octet_string
  dest_addr_ton ← read_byte
  dest_addr_npi ← read_byte
  dest_addr ← read_c_octet_string
  esm_class ← read_byte
  protocol_id ← read_byte
  priority_flag ← read_byte
  schedule_delivery_time ← read_c_octet_string
  validity_period ← read_c_octet_string
  registered_delivery ← read_byte
  replace_if_present ← read_byte
  data_coding ← read_byte
  sm_default_msg_id ← read_byte
  short_message ← read_short_message
  tlvs ← read_tlvs
  return (
      message (record {
        service_type = service_type;
        source_addr_ton = source_addr_ton;
        source_addr_npi = source_addr_npi;
        source_addr = source_addr;
        dest_addr_ton = dest_addr_ton;
        dest_addr_npi = dest_addr_npi;
        dest_addr = dest_addr;
        esm_class = esm_class;
        protocol_id = protocol_id;
        priority_flag = priority_flag;
        schedule_delivery_time = schedule_delivery_time;
        validity_period = validity_period;
        registered_delivery = registered_delivery;
        replace_if_present = replace_if_present;
        data_coding = data_coding;
        sm_default_msg_id = sm_default_msg_id;
        short_message = short_message;
        tlvs = tlvs;
      }))

unfoldable pub decode_submit_resp_fields : Read Body
decode_submit_resp_fields = do
  message_id ← read_c_octet_string
  return (submit_resp (record { message_id = message_id }))

unfoldable pub decode_submit_resp : Read Body
unfolding remaining
decode_submit_resp r =
    if remaining r == 0
    then ok (submit_resp (record { message_id = [] }), r)
    else decode_submit_resp_fields r

-- The five groups of `decodeBody`'s switch.
pub data Shape : Type 0 where
  bind_shape bind_resp_shape message_shape submit_resp_shape header_only unmodelled : Shape

unfoldable pub shape : ℕ → Shape
shape id =
    if id == bind_receiver || id == bind_transmitter || id == bind_transceiver
    then Shape.bind_shape
    else if id == bind_receiver_resp || id == bind_transmitter_resp || id == bind_transceiver_resp
    then Shape.bind_resp_shape
    else if id == submit_sm || id == deliver_sm
    then Shape.message_shape
    else if id == submit_sm_resp || id == deliver_sm_resp
    then Shape.submit_resp_shape
    else if id == enquire_link
        || id == enquire_link_resp
        || id == unbind
        || id == unbind_resp
        || id == generic_nack
    then Shape.header_only
    else Shape.unmodelled

unfoldable pub body_of_shape : Shape → Read (Option Body)
body_of_shape Shape.bind_shape = do b ← decode_bind; return (some b)
body_of_shape Shape.bind_resp_shape = do b ← decode_bind_resp; return (some b)
body_of_shape Shape.message_shape = do b ← decode_message; return (some b)
body_of_shape Shape.submit_resp_shape = do b ← decode_submit_resp; return (some b)
body_of_shape Shape.header_only = return none
body_of_shape Shape.unmodelled = fail unknown_command

unfoldable pub decode_body : ℕ → Read (Option Body)
decode_body id = body_of_shape (shape id)

unfoldable pub decode_fields : Read Pdu
decode_fields = do
  _ ← read_u32
  id ← read_u32
  status ← read_u32
  seq ← read_u32
  body ← decode_body id
  return (record { command_id = id; command_status = status; sequence_number = seq; body = body })

abbrev pub first : Result CodecError (Pdu × List ℕ) → Result CodecError Pdu
first (ok (p, r)) = ok p
first (err e) = err e

unfoldable pub decode : List ℕ → Result CodecError Pdu
decode frame = if ltb (length frame) header_len then err short_pdu else first (decode_fields frame)

-- A connection as ReadPDU sees it: the octets that will arrive, and how the stream ends then
-- (end of file, or a deadline or transport error).
pub record Stream : Type 0 where
  pub arriving : List ℕ
  pub ending : CodecError

-- The documented error of io.ReadFull when the stream ended after `got` octets.
unfoldable pub full_error : ℕ → CodecError → CodecError
full_error got eof = if got == 0 then eof else unexpected_eof
full_error got e = e

-- `partial`: a truncation stays, and every other cause is hidden.
unfoldable pub partial : CodecError → CodecError
partial unexpected_eof = unexpected_eof
partial e = partial_frame

-- The frame, and the stream left behind it.
unfoldable pub read_rest : Stream → ℕ → Result CodecError (List ℕ × Stream)
read_rest s len =
    let rest = drop 4 s.arriving in
    if ltb (length rest) (len - 4)
    then err (partial (full_error (length rest) s.ending))
    else ok (take 4 s.arriving ++ take (len - 4) rest, record s { arriving = drop (len - 4) rest })

unfoldable pub read_pdu : Stream → Result CodecError (List ℕ × Stream)
read_pdu s =
    let n = length s.arriving in
    let len = u32_of s.arriving in
    if ltb n 4
    then err (if ltb 0 n then partial (full_error n s.ending) else full_error n s.ending)
    else if ltb len header_len || ltb max_pdu_len len
    then err bad_command_length
    else read_rest s len
