-- ===== src/Runs/Talks.antt =====
-- A client beside a fresh session, and deliver_sm PDUs that it collects.
use go_smsc_simulator.Common.{
  inl, inr, ℕ, ◌+◌, ◌≡◌, refl, arith, false, List, [], ◌∷◌, ◌++◌, length, get_elem?, none, some, ok,
}
use go_smsc_simulator.Smpp.Commands.{
  deliver_sm, enquire_link, enquire_link_resp, status_rok, response,
}
use go_smsc_simulator.Smpp.Pdu.{Pdu}
use go_smsc_simulator.Smpp.Reader.{timeout, eof, ◌>>=◌, read_u32}
use go_smsc_simulator.Smpp.Encode.{encode, body_octets, frame_of}
use go_smsc_simulator.Smpp.Decode.{shape, decode, decode_fields, decode_body, body_of_shape}
use go_smsc_simulator.Smpp.WellFormed.{message_wf, PduIsWf, no_body_wf}
use go_smsc_simulator.Smsc.Session.{send, encode_pdu, queue, Output, kind_resp, at_once}
use go_smsc_simulator.Smsc.Create.{new_session}
use go_smsc_simulator.Smsc.Handle.{handle}
use go_smsc_simulator.Smsc.ReadLoop.{handle_frame}
use go_smsc_simulator.Smsc.Answers.{Answers}
use go_smsc_simulator.Smsc.Answers.Pdus.{handle-Answers}
use go_smsc_simulator.Smpp.Writer.{marshal, marshal_message}
use go_smsc_simulator.Client.{Client, round_trip}
use go_smsc_simulator.Client.Talk.{round_trip-handle}
use go_smsc_simulator.Client.Collect.{drain_deliver_sms, collect_deliver_sms}
use go_smsc_simulator.Client.Collect.Exact.{
  Delivery, Passed, ack_frame, client_with, drain_exact, collect_exact,
}
use go_smsc_simulator.Runs.Wire.{
  sample, sample_message-IsWf, sample_frame, sample-IsWf, encode-sample,
}
use go_smsc_simulator.Runs.Scenarios.{counting}
use go_smsc_simulator.Runs.Sessions.{env, fresh}

abbrev enquire_request : Pdu
enquire_request = record {
  command_id = enquire_link;
  command_status = 0;
  sequence_number = 1;
  body = none;
}

abbrev enquire_answer : Pdu
enquire_answer = record {
  command_id = enquire_link_resp;
  command_status = status_rok;
  sequence_number = 1;
  body = none;
}

abbrev request_frame : List ℕ
request_frame = 0 ∷ 0 ∷ 0 ∷ 16 ∷ 0 ∷ 0 ∷ 0 ∷ 21 ∷ 0 ∷ 0 ∷ 0 ∷ 0 ∷ 0 ∷ 0 ∷ 0 ∷ 1 ∷ []

abbrev answer_frame : List ℕ
answer_frame = 0 ∷ 0 ∷ 0 ∷ 16 ∷ 128 ∷ 0 ∷ 0 ∷ 21 ∷ 0 ∷ 0 ∷ 0 ∷ 0 ∷ 0 ∷ 0 ∷ 0 ∷ 1 ∷ []

abbrev client : Client
client = record {
  seq = 1;
  incoming = record { arriving = answer_frame ++ (7 ∷ []); ending = eof };
  sent = [];
}

enquire_request-IsWf : PduIsWf enquire_request
unfolding shape
enquire_request-IsWf = record {
  command_id = omega arith;
  command_status = omega arith;
  sequence_number = omega arith;
  body = no_body_wf;
}

request_encodes : encode enquire_request ≡ ok request_frame
unfolding encode body_octets frame_of
request_encodes = refl

answer_decodes : decode answer_frame ≡ ok enquire_answer
unfolding decode decode_fields ◌>>=◌ read_u32 decode_body body_of_shape shape
answer_decodes = refl

abbrev answer_output : Output
answer_output = record { bytes = answer_frame; kind = kind_resp; release = at_once }

answer_queued :
    get_elem?
      (handle_frame counting env request_frame (decode request_frame) fresh).out
      (length fresh.out + 0)
    ≡ some answer_output
unfolding decode decode_fields ◌>>=◌ read_u32 decode_body body_of_shape shape handle encode
    body_octets frame_of send encode_pdu queue new_session
answer_queued = refl

handle-Answers_example :
    Answers false 1 (response enquire_link) 1 fresh (handle counting env enquire_request fresh)
handle-Answers_example = handle-Answers counting env enquire_request fresh

round_trip-handle_example :
    round_trip enquire_request client
    ≡ some (
      enquire_answer,
      record {
        seq = 1;
        incoming = record { arriving = 7 ∷ []; ending = eof };
        sent = request_frame ∷ [];
      },
    )
round_trip-handle_example =
    round_trip-handle counting env fresh client enquire_request enquire_answer request_frame
      (7 ∷ []) eof 0 answer_output enquire_request-IsWf refl request_encodes answer_queued refl
      answer_decodes refl

abbrev delivered : Pdu
delivered = record sample { command_id = deliver_sm }

abbrev delivered_frame : List ℕ
delivered_frame =
    0 ∷ 0 ∷ 0 ∷ 43 ∷ 0 ∷ 0 ∷ 0 ∷ 5 ∷ 0 ∷ 0 ∷ 0 ∷ 0 ∷ 0 ∷ 0 ∷ 0 ∷ 9 ∷ 0 ∷ 1 ∷ 1 ∷ 51 ∷ 51 ∷ 0 ∷ 1 ∷ 1
    ∷ 52 ∷ 0 ∷ 0 ∷ 0 ∷ 0 ∷ 0 ∷ 0 ∷ 1 ∷ 0 ∷ 0 ∷ 0 ∷ 2 ∷ 0 ∷ 255 ∷ 20 ∷ 0 ∷ 0 ∷ 1 ∷ 7 ∷ []

delivered-IsWf : PduIsWf delivered
unfolding shape
delivered-IsWf = record {
  command_id = omega arith;
  command_status = omega arith;
  sequence_number = omega arith;
  body = message_wf sample_message-IsWf;
}

encode-delivered : encode delivered ≡ ok delivered_frame
unfolding encode body_octets frame_of marshal marshal_message
encode-delivered = refl

abbrev delivery : Delivery
delivery = record {
  pdu = delivered;
  frame = delivered_frame;
  pdu_wf = delivered-IsWf;
  is_deliver = refl;
  encodes = encode-delivered;
}

abbrev passed : Passed
passed = record {
  pdu = sample;
  frame = sample_frame;
  pdu_wf = sample-IsWf;
  other = refl;
  encodes = encode-sample;
}

drain_exact_example :
    drain_deliver_sms (client_with 3 (delivered_frame ++ (delivered_frame ++ [])) timeout [])
    ≡ some (
      delivered ∷ delivered ∷ [],
      client_with 3 [] timeout (ack_frame delivery ∷ ack_frame delivery ∷ []),
    )
drain_exact_example = drain_exact (delivery ∷ delivery ∷ []) 3 []

collect_exact_example :
    collect_deliver_sms
      (λ i. false)
      2
      (client_with 3 (delivered_frame ++ (sample_frame ++ (delivered_frame ++ (7 ∷ [])))) eof [])
    ≡ some (
      delivered ∷ delivered ∷ [],
      client_with 3 (7 ∷ []) eof (ack_frame delivery ∷ ack_frame delivery ∷ []),
    )
collect_exact_example =
    collect_exact (λ i. false) 3 eof (inl delivery ∷ inr passed ∷ []) delivery (7 ∷ []) []
      (λ i le. refl)
