-- ===== src/Smpp/Decode/RoundTrip.antt =====
-- Decoding what the writer wrote: one lemma for each accessor of codec.go, then the bodies.
use go_smsc_simulator.Common.{
  ℕ, zero, suc, ◌+◌, ◌%◌, ◌^◌, ◌≤◌, ◌<◌, ◌≡◌, refl, ap, ◌∙◌, arith, List, [], ◌∷◌, ◌++◌, length,
  length-append, append-nil, append_assoc, All, take_all, take-append_length, drop-append_length,
  Option, ok, le→ltb_false, ne→==_false,
}
use native.Mathlib.Nat.{mod-eq_of_lt}
use go_smsc_simulator.Smpp.Commands.{IsU32}
use go_smsc_simulator.Smpp.Pdu.{
  Tlv, Bind, BindResp, Message, SubmitResp, Body, Pdu, bind, bind_resp, message, submit_resp,
  max_short_message_len,
}
use go_smsc_simulator.Smpp.Writer.{
  put_u16, put_u32, byte, c_octet_string, tlv, tlvs, marshal_bind, marshal_bind_resp,
  marshal_message, marshal_submit_resp, marshal,
}
use go_smsc_simulator.Smpp.Reader.{
  Read, ◌>>=◌, read_byte, read_u16, read_u32, scan, read_c_octet_string, read_octets, read_tlv,
  tlvs_loop, read_tlvs, max_tlvs,
}
use go_smsc_simulator.Smpp.Encode.{encode, body_octets, frame_of, header_len, max_pdu_len}
use go_smsc_simulator.Smpp.Decode.{
  decode, decode_fields, decode_body, body_of_shape, decode_bind, decode_bind_resp,
  decode_bind_resp_fields, decode_message, read_short_message, decode_submit_resp,
  decode_submit_resp_fields, first, Shape,
}
use go_smsc_simulator.Smpp.WellFormed.{
  IsText, IsTextByte, TlvIsWf, TlvsIsWf, BindIsWf, MessageIsWf, BodyIsWf, bind_wf, bind_resp_wf,
  message_wf, submit_resp_wf, no_body_wf, PduIsWf,
}

-- A read that gives `a` and leaves `cs`, and then the rest of the block.
pub >>=-ok :
    {A B : Type 0} (m : Read A) (f : A → Read B) (r : List ℕ) {a : A} {cs : List ℕ}
    → m r ≡ ok (a, cs)
    → (m >>= f) r ≡ f a cs
unfolding ◌>>=◌
>>=-ok m f r h = rw (h, ◌>>=◌)

pub read_byte-byte : (b : ℕ) (r : List ℕ) → read_byte (byte b ++ r) ≡ ok (b, r)
unfolding read_byte
read_byte-byte b r = refl

pub read_u16-put_u16 : (n : ℕ) (r : List ℕ) → n < 2 ^ 16 → read_u16 (put_u16 n ++ r) ≡ ok (n, r)
unfolding read_u16
read_u16-put_u16 n r h = ground arith

pub read_u32-put_u32 : (n : ℕ) (r : List ℕ) → IsU32 n → read_u32 (put_u32 n ++ r) ≡ ok (n, r)
unfolding read_u32
read_u32-put_u32 n r h = ground arith

scan-text :
    (n : ℕ) (s r : List ℕ) → All IsTextByte s → length s < n → scan n (s ++ (0 ∷ r)) ≡ ok (s, r)
unfolding scan
scan-text zero s r h k = elim k [ ]
scan-text (suc n) [] r h k = refl
scan-text (suc n) (b ∷ s) r (p, h) k = ground (arith, scan-text n s r h)

pub read_c_octet_string-c_octet_string :
    (s r : List ℕ) → IsText s → read_c_octet_string (c_octet_string s ++ r) ≡ ok (s, r)
unfolding read_c_octet_string
read_c_octet_string-c_octet_string s r h =
    rw (append_assoc s (0 ∷ []) r) (scan-text 256 s r h.characters h.short)

pub read_octets-append : (s r : List ℕ) → read_octets (length s) (s ++ r) ≡ ok (s, r)
unfolding read_octets
read_octets-append s r = rw (
  le→ltb_false (length (s ++ r)) (length s) (omega (arith, length-append s r)),
  take-append_length s r,
  drop-append_length s r,
)

pub read_tlv-tlv : (t : Tlv) (r : List ℕ) → TlvIsWf t → read_tlv (tlv t ++ r) ≡ ok (t, r)
unfolding read_tlv
read_tlv-tlv t r h =
    >>=-ok _ _ _ (read_u16-put_u16 t.tag _ h.tag)
    ∙ >>=-ok _ _ _ (read_u16-put_u16 (length t.value % 2 ^ 16) _ (omega arith))
    ∙ rw (mod-eq_of_lt h.short) (>>=-ok _ _ _ (read_octets-append t.value r))

tlvs_loop-tlvs :
    (ts : List Tlv) (fuel count : ℕ)
    → All TlvIsWf ts
    → length (tlvs ts) ≤ fuel
    → count + length ts ≤ max_tlvs
    → tlvs_loop fuel count (tlvs ts) ≡ ok (ts, [])
unfolding tlvs_loop
tlvs_loop-tlvs [] fuel count h f c = refl
tlvs_loop-tlvs (t ∷ ts) zero count h f c = absurd (omega arith)
tlvs_loop-tlvs (t ∷ ts) (suc fuel) count (h, hs) f c =
    rw (le→ltb_false (length (tlvs (t ∷ ts))) 4 (omega arith), ne→==_false count 64 (omega arith))
      (>>=-ok _ _ _ (read_tlv-tlv t (tlvs ts) h)
        ∙ >>=-ok _ _ _ (
            tlvs_loop-tlvs ts fuel (count + 1) hs (omega (arith, length-append t.value (tlvs ts)))
              (omega arith)))

pub read_tlvs-tlvs : (ts : List Tlv) → TlvsIsWf ts → read_tlvs (tlvs ts) ≡ ok (ts, [])
unfolding read_tlvs
read_tlvs-tlvs ts h =
    tlvs_loop-tlvs ts (length (tlvs ts)) 0 h.each (omega arith) (omega (arith, h.few))

pub read_short_message-sm :
    (s r : List ℕ)
    → length s ≤ max_short_message_len
    → read_short_message (byte (length s) ++ (s ++ r)) ≡ ok (s, r)
unfolding read_short_message read_byte ◌>>=◌
read_short_message-sm s r h = rw (le→ltb_false 254 (length s) h) (read_octets-append s r)

c_octet_then :
    {B : Type 0} (f : List ℕ → Read B) (s r : List ℕ)
    → IsText s
    → (read_c_octet_string >>= f) (c_octet_string s ++ r) ≡ f s r
c_octet_then f s r w = >>=-ok _ f _ (read_c_octet_string-c_octet_string s r w)

byte_then : {B : Type 0} (f : ℕ → Read B) (b : ℕ) (r : List ℕ) → (read_byte >>= f) (b ∷ r) ≡ f b r
byte_then f b r = >>=-ok _ f _ (read_byte-byte b r)

decode_bind-marshal : (b : Bind) → BindIsWf b → decode_bind (marshal_bind b) ≡ ok (bind b, [])
unfolding decode_bind marshal_bind
decode_bind-marshal b w =
    c_octet_then _ b.system_id _ w.system_id
    ∙ c_octet_then _ b.password _ w.password
    ∙ c_octet_then _ b.system_type _ w.system_type
    ∙ byte_then _ b.interface_version _
    ∙ byte_then _ b.addr_ton _
    ∙ byte_then _ b.addr_npi _
    ∙ c_octet_then _ b.address_range _ w.address_range

tlvs_then :
    {B : Type 0} (f : List Tlv → Read B) (ts : List Tlv)
    → TlvsIsWf ts
    → (read_tlvs >>= f) (tlvs ts ++ []) ≡ f ts []
tlvs_then f ts w = rw append-nil (>>=-ok _ f _ (read_tlvs-tlvs ts w))

decode_message-marshal :
    (m : Message) → MessageIsWf m → decode_message (marshal_message m) ≡ ok (message m, [])
unfolding decode_message marshal_message
decode_message-marshal m w =
    rw
      (
        le→ltb_false 254 (length m.short_message) w.fits,
        take_all (length m.short_message) m.short_message (omega arith),
      )
      (c_octet_then _ m.service_type _ w.service_type
        ∙ byte_then _ m.source_addr_ton _
        ∙ byte_then _ m.source_addr_npi _
        ∙ c_octet_then _ m.source_addr _ w.source_addr
        ∙ byte_then _ m.dest_addr_ton _
        ∙ byte_then _ m.dest_addr_npi _
        ∙ c_octet_then _ m.dest_addr _ w.dest_addr
        ∙ byte_then _ m.esm_class _
        ∙ byte_then _ m.protocol_id _
        ∙ byte_then _ m.priority_flag _
        ∙ c_octet_then _ m.schedule_delivery_time _ w.schedule_delivery_time
        ∙ c_octet_then _ m.validity_period _ w.validity_period
        ∙ byte_then _ m.registered_delivery _
        ∙ byte_then _ m.replace_if_present _
        ∙ byte_then _ m.data_coding _
        ∙ byte_then _ m.sm_default_msg_id _
        ∙ >>=-ok _ _ _ (read_short_message-sm m.short_message _ w.fits)
        ∙ tlvs_then _ m.tlvs w.tlvs)

decode_bind_resp-marshal :
    (b : BindResp)
    → IsText b.system_id
    → TlvsIsWf b.tlvs
    → decode_bind_resp (marshal_bind_resp b) ≡ ok (bind_resp b, [])
unfolding decode_bind_resp decode_bind_resp_fields marshal_bind_resp
decode_bind_resp-marshal b w ws =
    rw
      (ne→==_false (length (marshal_bind_resp b)) 0 (
        omega (
          arith,
          length-append (b.system_id) (0 ∷ []),
          length-append (c_octet_string b.system_id) (tlvs b.tlvs ++ []),
        )))
      (c_octet_then _ b.system_id _ w ∙ tlvs_then _ b.tlvs ws)

decode_submit_resp-marshal :
    (s : SubmitResp)
    → IsText s.message_id
    → decode_submit_resp (marshal_submit_resp s) ≡ ok (submit_resp s, [])
unfolding decode_submit_resp decode_submit_resp_fields marshal_submit_resp
decode_submit_resp-marshal s w =
    rw
      (ne→==_false (length (marshal_submit_resp s)) 0 (
        omega (
          arith,
          length-append (s.message_id) (0 ∷ []),
          length-append (c_octet_string s.message_id) [],
        )))
      (c_octet_then _ s.message_id _ w)

pub body_of_shape-body_octets :
    {sh : Shape} {body : Option Body}
    → BodyIsWf sh body
    → body_of_shape sh (body_octets body) ≡ ok (body, [])
unfolding body_of_shape body_octets marshal
body_of_shape-body_octets (bind_wf {b} w) = >>=-ok _ _ _ (decode_bind-marshal b w)
body_of_shape-body_octets (bind_resp_wf {b} w ws) = >>=-ok _ _ _ (decode_bind_resp-marshal b w ws)
body_of_shape-body_octets (message_wf {m} w) = >>=-ok _ _ _ (decode_message-marshal m w)
body_of_shape-body_octets (submit_resp_wf {s} w) = >>=-ok _ _ _ (decode_submit_resp-marshal s w)
body_of_shape-body_octets no_body_wf = refl

-- The four header fields, and the rest by the command's shape.
pub decode_fields_then :
    (total id status seq : ℕ) (r : List ℕ) {body : Option Body} {left : List ℕ}
    → IsU32 total
    → IsU32 id
    → IsU32 status
    → IsU32 seq
    → decode_body id r ≡ ok (body, left)
    → decode_fields (put_u32 total ++ (put_u32 id ++ (put_u32 status ++ (put_u32 seq ++ r))))
      ≡ ok (
        record { command_id = id; command_status = status; sequence_number = seq; body = body },
        left,
      )
unfolding decode_fields
decode_fields_then total id status seq r ht hi hst hs e =
    >>=-ok _ _ _ (read_u32-put_u32 total _ ht)
    ∙ >>=-ok _ _ _ (read_u32-put_u32 id _ hi)
    ∙ >>=-ok _ _ _ (read_u32-put_u32 status _ hst)
    ∙ >>=-ok _ _ _ (read_u32-put_u32 seq _ hs)
    ∙ >>=-ok _ _ _ e

pub decode-long :
    (frame : List ℕ) → header_len ≤ length frame → decode frame ≡ first (decode_fields frame)
unfolding decode
decode-long frame h = rw (le→ltb_false (length frame) 16 h)

-- A frame with any length field in range, and the rest of a well-formed PDU.
pub decode-frame_of :
    (p : Pdu) (total : ℕ)
    → PduIsWf p
    → IsU32 total
    → decode (frame_of p total (body_octets p.body)) ≡ ok p
unfolding frame_of
decode-frame_of p total w h =
    decode-long _ (omega arith)
    ∙ ap first (
        decode_fields_then total p.command_id p.command_status p.sequence_number _ {left = []} h
          w.command_id w.command_status w.sequence_number
          (rw (append-nil (body_octets p.body))
            (unfold decode_body in body_of_shape-body_octets w.body)))

pub encode-ok :
    (p : Pdu) {frame : List ℕ}
    → encode p ≡ ok frame
    → (frame ≡ frame_of p (header_len + length (body_octets p.body)) (body_octets p.body))
      × (header_len + length (body_octets p.body) ≤ max_pdu_len)
unfolding encode
encode-ok p e = ground arith

-- What `encode` makes of a well-formed PDU is decoded to that PDU.
pub decode-encode :
    (p : Pdu) (frame : List ℕ) → PduIsWf p → encode p ≡ ok frame → decode frame ≡ ok p
decode-encode p frame w e =
    let (shown, fits) = encode-ok p e in rw shown (decode-frame_of p _ w (omega arith))
