-- ===== src/Runs/Wire.antt =====
-- A submit_sm with a TLV on the wire.
use go_smsc_simulator.Common.{
  ℕ, ◌+◌, ◌%◌, ◌^◌, ◌≤◌, ◌≡◌, ◌≢◌, refl, arith, List, [], ◌∷◌, ◌++◌, length, some, ok, err,
}
use go_smsc_simulator.Smpp.Pdu.{Message, Pdu, message}
use go_smsc_simulator.Smpp.WellFormed.{AreBytes, IsText, MessageIsWf, PduIsWf, message_wf}
use go_smsc_simulator.Smpp.Reader.{timeout, unknown_command}
use go_smsc_simulator.Smpp.Writer.{marshal, marshal_message}
use go_smsc_simulator.Smpp.Encode.{
  max_pdu_len, body_octets, frame_of, encode, bad_length, unknown_cmd_id, bad_sequence,
  encode_edge_case, u32_of, bad_length_inflation, bad_sequence_offset,
}
use go_smsc_simulator.Smpp.Decode.{shape, decode, Stream, read_pdu}
use go_smsc_simulator.Smpp.Decode.RoundTrip.{decode-encode}
use go_smsc_simulator.Smpp.Decode.Accepted.{decode-IsWf}
use go_smsc_simulator.Smpp.Decode.Framing.{read_pdu-encode, read_pdu-ok}
use go_smsc_simulator.Smpp.Decode.EdgeCases.{decode-encode_edge_case}

abbrev pub sample_message : Message
sample_message = record {
  service_type = [];
  source_addr_ton = 1;
  source_addr_npi = 1;
  source_addr = 51 ∷ 51 ∷ [];
  dest_addr_ton = 1;
  dest_addr_npi = 1;
  dest_addr = 52 ∷ [];
  esm_class = 0;
  protocol_id = 0;
  priority_flag = 0;
  schedule_delivery_time = [];
  validity_period = [];
  registered_delivery = 1;
  replace_if_present = 0;
  data_coding = 0;
  sm_default_msg_id = 0;
  short_message = 0 ∷ 255 ∷ [];
  tlvs = record { tag = 0x1400; value = 7 ∷ [] } ∷ [];
}

abbrev pub sample : Pdu
sample = record {
  command_id = 4;
  command_status = 0;
  sequence_number = 9;
  body = some (message sample_message);
}

abbrev pub sample_frame : List ℕ
sample_frame =
    0 ∷ 0 ∷ 0 ∷ 43 ∷ 0 ∷ 0 ∷ 0 ∷ 4 ∷ 0 ∷ 0 ∷ 0 ∷ 0 ∷ 0 ∷ 0 ∷ 0 ∷ 9 ∷ 0 ∷ 1 ∷ 1 ∷ 51 ∷ 51 ∷ 0 ∷ 1 ∷ 1
    ∷ 52 ∷ 0 ∷ 0 ∷ 0 ∷ 0 ∷ 0 ∷ 0 ∷ 1 ∷ 0 ∷ 0 ∷ 0 ∷ 2 ∷ 0 ∷ 255 ∷ 20 ∷ 0 ∷ 0 ∷ 1 ∷ 7 ∷ []

pub encode-sample : encode sample ≡ ok sample_frame
unfolding encode body_octets frame_of marshal marshal_message
encode-sample = refl

empty-IsText : IsText []
empty-IsText = record { characters = tt; short = omega arith }

pub sample_message-IsWf : MessageIsWf sample_message
sample_message-IsWf = record {
  service_type = empty-IsText;
  source_addr_ton = omega arith;
  source_addr_npi = omega arith;
  source_addr = record { characters = ground arith; short = omega arith };
  dest_addr_ton = omega arith;
  dest_addr_npi = omega arith;
  dest_addr = record { characters = ground arith; short = omega arith };
  esm_class = omega arith;
  protocol_id = omega arith;
  priority_flag = omega arith;
  schedule_delivery_time = empty-IsText;
  validity_period = empty-IsText;
  registered_delivery = omega arith;
  replace_if_present = omega arith;
  data_coding = omega arith;
  sm_default_msg_id = omega arith;
  short_message = ground arith;
  fits = omega arith;
  tlvs = record {
    each = (record { tag = omega arith; short = omega arith; bytes = ground arith }, tt);
    few = omega arith;
  };
}

pub sample-IsWf : PduIsWf sample
unfolding shape
sample-IsWf = record {
  command_id = omega arith;
  command_status = omega arith;
  sequence_number = omega arith;
  body = message_wf sample_message-IsWf;
}

sample_frame-AreBytes : AreBytes sample_frame
sample_frame-AreBytes = ground arith

decode-encode_example : decode sample_frame ≡ ok sample
decode-encode_example = decode-encode sample sample_frame sample-IsWf encode-sample

decode-sample : decode sample_frame ≡ ok sample
decode-sample = decode-encode sample sample_frame sample-IsWf encode-sample

decode-IsWf_example : PduIsWf sample
decode-IsWf_example = decode-IsWf sample_frame sample sample_frame-AreBytes decode-sample

read_pdu-encode_example :
    (read_pdu (record { arriving = sample_frame ++ 0 ∷ 1 ∷ []; ending = timeout })
      ≡ ok (sample_frame, record { arriving = 0 ∷ 1 ∷ []; ending = timeout }))
    × (decode sample_frame ≡ ok sample)
read_pdu-encode_example =
    read_pdu-encode sample sample_frame (0 ∷ 1 ∷ []) timeout sample-IsWf encode-sample

abbrev arrived : Stream
arrived = record { arriving = sample_frame ++ 0 ∷ 1 ∷ []; ending = timeout }

abbrev behind : Stream
behind = record { arriving = 0 ∷ 1 ∷ []; ending = timeout }

read_pdu-ok_example :
    (sample_frame ++ 0 ∷ 1 ∷ [] ≡ sample_frame ++ 0 ∷ 1 ∷ [])
    × (timeout ≡ timeout)
    × (43 ≡ u32_of (sample_frame ++ 0 ∷ 1 ∷ []))
    × (16 ≤ 43)
    × (43 ≤ max_pdu_len)
read_pdu-ok_example =
    read_pdu-ok arrived behind sample_frame
      (read_pdu-encode sample sample_frame (0 ∷ 1 ∷ []) timeout sample-IsWf encode-sample).0

decode-encode_edge_case_example :
    ((bad : List ℕ) × (encode_edge_case sample bad_length ≡ ok bad)
      × (u32_of bad ≡ length bad + bad_length_inflation)
      × (decode bad ≡ ok sample))
    × ((bad : List ℕ) × (encode_edge_case sample unknown_cmd_id ≡ ok bad)
        × (decode bad ≡ err unknown_command))
    × ((bad : List ℕ) × (encode_edge_case sample bad_sequence ≡ ok bad)
        × (decode bad ≡ ok (record sample { sequence_number = (9 + bad_sequence_offset) % 2 ^ 32 }))
        × ((9 + bad_sequence_offset) % 2 ^ 32 ≢ 9))
decode-encode_edge_case_example =
    decode-encode_edge_case sample sample_frame sample-IsWf encode-sample
