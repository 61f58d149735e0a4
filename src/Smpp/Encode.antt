-- ===== src/Smpp/Encode.antt =====
-- internal/smpp/codec.go, `Encode`, and internal/smpp/codec_edge.go.
use go_smsc_simulator.Common.{
  ℕ, ◌+◌, ◌*◌, ◌%◌, ◌^◌, ltb, List, ◌∷◌, [], ◌++◌, length, take, drop, Option, none, some, Result,
  ok, err, if◌then◌else◌,
}
use go_smsc_simulator.Smpp.Pdu.{Pdu, Body}
use go_smsc_simulator.Smpp.Writer.{marshal, put_u32, written}
use go_smsc_simulator.Smpp.Reader.{CodecError, bad_command_length}

abbrev pub header_len : ℕ
header_len = 16

abbrev pub max_pdu_len : ℕ
max_pdu_len = 64 * 1024

-- The body's octets; a nil body writes none.
unfoldable pub body_octets : Option Body → List ℕ
body_octets none = []
body_octets (some b) = marshal b

-- The frame of a PDU whose body is already encoded: the four header fields and the body.
unfoldable pub frame_of : Pdu → ℕ → List ℕ → List ℕ
frame_of p total body = written (
    put_u32 total
    ∷ put_u32 p.command_id
    ∷ put_u32 p.command_status
    ∷ put_u32 p.sequence_number
    ∷ body
    ∷ [])

unfoldable pub encode : Pdu → Result CodecError (List ℕ)
encode p =
    let body = body_octets p.body in
    let total = header_len + length body in
    if ltb max_pdu_len total then err bad_command_length else ok (frame_of p total body)

pub data EdgeCaseKind : Type 0 where
  bad_length unknown_cmd_id bad_sequence : EdgeCaseKind

abbrev pub bad_length_inflation : ℕ
bad_length_inflation = 16

abbrev pub unknown_command_id : ℕ
unknown_command_id = 0x000000FF

abbrev pub bad_sequence_offset : ℕ
bad_sequence_offset = 0x1000

-- binary.BigEndian.Uint32 of four octets from `i` on, and PutUint32 over them.
abbrev pub u32_of : List ℕ → ℕ
u32_of (a ∷ b ∷ c ∷ d ∷ r) = a * 2 ^ 24 + b * 2 ^ 16 + c * 2 ^ 8 + d
u32_of _ = 0

abbrev pub u32_at : ℕ → List ℕ → ℕ
u32_at i frame = u32_of (drop i frame)

abbrev pub set_u32_at : ℕ → ℕ → List ℕ → List ℕ
set_u32_at i n frame = take i frame ++ (put_u32 n ++ drop (i + 4) frame)

-- The mutation of an encoded frame; `+` wraps at 32 bits.
unfoldable pub mutate : EdgeCaseKind → List ℕ → List ℕ
mutate bad_length frame = set_u32_at 0 ((u32_at 0 frame + bad_length_inflation) % 2 ^ 32) frame
mutate unknown_cmd_id frame = set_u32_at 4 unknown_command_id frame
mutate bad_sequence frame = set_u32_at 12 ((u32_at 12 frame + bad_sequence_offset) % 2 ^ 32) frame

abbrev pub map_ok : (List ℕ → List ℕ) → Result CodecError (List ℕ) → Result CodecError (List ℕ)
map_ok f (ok b) = ok (f b)
map_ok f (err e) = err e

unfoldable pub encode_edge_case : Pdu → EdgeCaseKind → Result CodecError (List ℕ)
encode_edge_case p kind = map_ok (mutate kind) (encode p)
