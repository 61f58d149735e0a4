-- ===== src/Smpp/Writer.antt =====
-- internal/smpp/codec.go, `writer`: each method gives the octets that it appends to the buffer,
-- and `written` is the buffer after a sequence of such calls. Then the `marshal` methods of
-- pdu.go, in the order of their calls.
use go_smsc_simulator.Common.{
  ℕ, ◌/◌, ◌%◌, ◌^◌, List, [], ◌∷◌, ◌++◌, length, take, ltb, if◌then◌else◌,
}
use go_smsc_simulator.Smpp.Pdu.{
  Tlv, Bind, BindResp, Message, SubmitResp, Body, bind, bind_resp, message, submit_resp,
  max_short_message_len,
}

-- The concatenation, bracketed to the right.
abbrev pub written : List (List ℕ) → List ℕ
written [] = []
written (bs ∷ rest) = bs ++ written rest

-- binary.BigEndian.PutUint16 and PutUint32.
abbrev pub put_u16 : ℕ → List ℕ
put_u16 n = (n / 256 % 256) ∷ (n % 256) ∷ []

abbrev pub put_u32 : ℕ → List ℕ
put_u32 n = (n / 2 ^ 24 % 256) ∷ (n / 2 ^ 16 % 256) ∷ (n / 256 % 256) ∷ (n % 256) ∷ []

abbrev pub byte : ℕ → List ℕ
byte b = b ∷ []

abbrev pub octets : List ℕ → List ℕ
octets b = b

abbrev pub c_octet_string : List ℕ → List ℕ
c_octet_string s = s ++ 0 ∷ []

-- One optional parameter: its tag, `uint16(len(t.Value))` and its value.
abbrev pub tlv : Tlv → List ℕ
tlv t = put_u16 t.tag ++ (put_u16 (length t.value % 2 ^ 16) ++ t.value)

abbrev pub tlvs : List Tlv → List ℕ
tlvs [] = []
tlvs (t ∷ ts) = tlv t ++ tlvs ts

unfoldable pub marshal_bind : Bind → List ℕ
marshal_bind b = written (
    c_octet_string b.system_id
    ∷ c_octet_string b.password
    ∷ c_octet_string b.system_type
    ∷ byte b.interface_version
    ∷ byte b.addr_ton
    ∷ byte b.addr_npi
    ∷ c_octet_string b.address_range
    ∷ [])

unfoldable pub marshal_bind_resp : BindResp → List ℕ
marshal_bind_resp b = written (c_octet_string b.system_id ∷ tlvs b.tlvs ∷ [])

-- `smLen`, clamped to what the single length octet may hold.
abbrev pub sm_len : Message → ℕ
sm_len m =
    if ltb max_short_message_len (length m.short_message)
    then max_short_message_len
    else length m.short_message

unfoldable pub marshal_message : Message → List ℕ
marshal_message m = written (
    c_octet_string m.service_type
    ∷ byte m.source_addr_ton
    ∷ byte m.source_addr_npi
    ∷ c_octet_string m.source_addr
    ∷ byte m.dest_addr_ton
    ∷ byte m.dest_addr_npi
    ∷ c_octet_string m.dest_addr
    ∷ byte m.esm_class
    ∷ byte m.protocol_id
    ∷ byte m.priority_flag
    ∷ c_octet_string m.schedule_delivery_time
    ∷ c_octet_string m.validity_period
    ∷ byte m.registered_delivery
    ∷ byte m.replace_if_present
    ∷ byte m.data_coding
    ∷ byte m.sm_default_msg_id
    ∷ byte (sm_len m)
    ∷ octets (take (sm_len m) m.short_message)
    ∷ tlvs m.tlvs
    ∷ [])

unfoldable pub marshal_submit_resp : SubmitResp → List ℕ
marshal_submit_resp s = written (c_octet_string s.message_id ∷ [])

-- The dynamic dispatch of `Body.marshal`.
unfoldable pub marshal : Body → List ℕ
marshal (bind b) = marshal_bind b
marshal (bind_resp b) = marshal_bind_resp b
marshal (message m) = marshal_message m
marshal (submit_resp s) = marshal_submit_resp s
