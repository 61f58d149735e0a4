-- ===== src/Smpp/Decode/EdgeCases.antt =====
-- internal/smpp/codec_edge.go: what each malformation does to a peer that decodes the frame.
use go_smsc_simulator.Common.{
  ℕ, ◌+◌, ◌%◌, ◌^◌, ◌≤◌, ◌≡◌, ◌≢◌, refl, ap, ◌∙◌, arith, List, length, ok, err, append-nil,
}
use go_smsc_simulator.Smpp.Commands.{IsU32}
use go_smsc_simulator.Smpp.Pdu.{Pdu}
use go_smsc_simulator.Smpp.Reader.{◌>>=◌, read_u32, unknown_command}
use go_smsc_simulator.Smpp.Encode.{
  EdgeCaseKind, bad_length, unknown_cmd_id, bad_sequence, bad_length_inflation, unknown_command_id,
  bad_sequence_offset, mutate, encode, encode_edge_case, frame_of, body_octets, u32_of, header_len,
  max_pdu_len,
}
use go_smsc_simulator.Smpp.Decode.{decode, decode_fields, decode_body, body_of_shape, shape, first}
use go_smsc_simulator.Smpp.WellFormed.{PduIsWf}
use go_smsc_simulator.Smpp.Decode.RoundTrip.{decode-frame_of, encode-ok, decode-long}

-- Each mutation in terms of the header fields.
mutate-bad_length :
    (p : Pdu) (total : ℕ) (body : List ℕ)
    → total ≤ max_pdu_len
    → mutate bad_length (frame_of p total body) ≡ frame_of p (total + 16) body
unfolding mutate frame_of
mutate-bad_length p total body h = ground arith

mutate-unknown_cmd_id :
    (p : Pdu) (total : ℕ) (body : List ℕ)
    → mutate unknown_cmd_id (frame_of p total body)
      ≡ frame_of (record p { command_id = unknown_command_id }) total body
unfolding mutate frame_of
mutate-unknown_cmd_id p total body = refl

mutate-bad_sequence :
    (p : Pdu) (total : ℕ) (body : List ℕ)
    → IsU32 p.sequence_number
    → mutate bad_sequence (frame_of p total body)
      ≡ frame_of (record p { sequence_number = (p.sequence_number + 0x1000) % 2 ^ 32 }) total body
unfolding mutate frame_of
mutate-bad_sequence p total body h = ground arith

encode_edge_case-ok :
    (p : Pdu) (kind : EdgeCaseKind) {frame : List ℕ}
    → encode p ≡ ok frame
    → encode_edge_case p kind ≡ ok (mutate kind frame)
unfolding encode_edge_case
encode_edge_case-ok p kind e = rw e

-- The reserved command id is not modelled: the peer cannot decode the frame.
decode_fields_unknown :
    (p : Pdu) (total : ℕ) (body : List ℕ)
    → first (decode_fields (frame_of (record p { command_id = unknown_command_id }) total body))
      ≡ err unknown_command
unfolding frame_of decode_fields decode_body shape body_of_shape ◌>>=◌ read_u32
decode_fields_unknown p total body = refl

length-frame_of :
    (p : Pdu) (total : ℕ) (body : List ℕ)
    → length (frame_of p total body) ≡ header_len + length body
unfolding frame_of
length-frame_of p total body = omega (arith, ap length (append-nil body))

u32_of-frame_of :
    (p : Pdu) (total : ℕ) (body : List ℕ) → IsU32 total → u32_of (frame_of p total body) ≡ total
unfolding frame_of
u32_of-frame_of p total body h = omega arith

decode_unknown :
    (p : Pdu) (total : ℕ) (body : List ℕ)
    → decode (frame_of (record p { command_id = unknown_command_id }) total body)
      ≡ err unknown_command
decode_unknown p total body =
    decode-long _
      (omega (arith, length-frame_of (record p { command_id = unknown_command_id }) total body))
    ∙ decode_fields_unknown p total body

-- What a peer makes of each malformation of a well-formed PDU's frame: a frame length that is 16 too long,
-- a command it does not know, or the same PDU under another sequence number.
pub decode-encode_edge_case :
    (p : Pdu) (frame : List ℕ)
    → PduIsWf p
    → encode p ≡ ok frame
    → ((bad : List ℕ) × (encode_edge_case p bad_length ≡ ok bad)
        × (u32_of bad ≡ length bad + bad_length_inflation)
        × (decode bad ≡ ok p))
      × ((bad : List ℕ) × (encode_edge_case p unknown_cmd_id ≡ ok bad)
          × (decode bad ≡ err unknown_command))
      × ((bad : List ℕ) × (encode_edge_case p bad_sequence ≡ ok bad)
          × (decode bad
              ≡ ok (record p {
                sequence_number = (p.sequence_number + bad_sequence_offset) % 2 ^ 32;
              }))
          × ((p.sequence_number + bad_sequence_offset) % 2 ^ 32 ≢ p.sequence_number))
decode-encode_edge_case p frame w e = (
  (
    mutate bad_length frame,
    encode_edge_case-ok p bad_length e,
    rw (shown, mutate-bad_length p total body fits) announces,
    rw (shown, mutate-bad_length p total body fits)
        (decode-frame_of p (total + 16) w (omega (arith, fits))),
  ),
  (
    mutate unknown_cmd_id frame,
    encode_edge_case-ok p unknown_cmd_id e,
    rw (shown, mutate-unknown_cmd_id p total body) (decode_unknown p total body),
  ),
  (
    mutate bad_sequence frame,
    encode_edge_case-ok p bad_sequence e,
    rw (shown, mutate-bad_sequence p total body w.sequence_number)
        (decode-frame_of (record p { sequence_number = (p.sequence_number + 0x1000) % 2 ^ 32 })
          total
          (record {
            command_id = w.command_id;
            command_status = w.command_status;
            sequence_number = omega arith;
            body = w.body;
          })
          (omega (arith, fits))),
    λ same. omega (arith, w.sequence_number),
  ),
)
  where
    body : List ℕ
    body = body_octets p.body

    total : ℕ
    total = header_len + length body

    shown : frame ≡ frame_of p total body
    shown = (encode-ok p e).0

    fits : total ≤ max_pdu_len
    fits = (encode-ok p e).1

    announces : u32_of (frame_of p (total + 16) body) ≡ length (frame_of p (total + 16) body) + 16
    announces =
        omega
          (arith, length-frame_of p (total + 16) body, u32_of-frame_of p (total + 16) body, fits)
