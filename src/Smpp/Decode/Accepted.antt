-- ===== src/Smpp/Decode/Accepted.antt =====
-- What `decode` accepts: a postcondition for each accessor of codec.go, carried through the blocks.
use go_smsc_simulator.Common.{
  ℕ, zero, suc, ◌+◌, ◌^◌, ◌≤◌, ◌<◌, ◌≡◌, subst, arith, List, [], ◌∷◌, length, length-take, All,
  All-take, All-drop, ltb, ◌==◌, Bool-cases, some, ok, err, inl, inr, Result,
}
use go_smsc_simulator.Smpp.Commands.{IsU32}
use go_smsc_simulator.Smpp.Pdu.{Tlv, Body, Pdu, max_short_message_len}
use go_smsc_simulator.Smpp.Reader.{
  CodecError, Read, ◌>>=◌, return, push, read_byte, read_u16, read_u32, scan, read_c_octet_string,
  read_octets, read_tlv, tlvs_loop, read_tlvs, max_tlvs,
}
use go_smsc_simulator.Smpp.Encode.{encode}
use go_smsc_simulator.Smpp.Decode.{
  decode, decode_fields, decode_body, body_of_shape, decode_bind, decode_bind_resp,
  decode_bind_resp_fields, decode_message, read_short_message, decode_submit_resp,
  decode_submit_resp_fields, first, Shape, shape,
}
use go_smsc_simulator.Smpp.WellFormed.{
  IsByte, AreBytes, IsText, IsTextByte, TlvIsWf, TlvsIsWf, BodyIsWf, bind_wf, bind_resp_wf,
  message_wf, submit_resp_wf, no_body_wf, PduIsWf,
}
use go_smsc_simulator.Smpp.Decode.RoundTrip.{decode-encode}

-- A read that succeeds gives a value in `P`, and leaves octets.
pub data Yields {A : Type 0} (P : A → Type 0) : Result CodecError (A × List ℕ) → Type 0 where
  gives : {a : A} {r : List ℕ} → P a → AreBytes r → Yields P (ok (a, r))
  fails : {e : CodecError} → Yields P (err e)

abbrev pub Ensures : {A : Type 0} → Read A → (A → Type 0) → Type 0
Ensures m P = (r : List ℕ) → AreBytes r → Yields P (m r)

>>=-result :
    {A B : Type 0} {P : A → Type 0} {Q : B → Type 0} (f : A → Read B)
    {x : Result CodecError (A × List ℕ)}
    → Yields P x
    → ((a : A) → P a → Ensures (f a) Q)
    → Yields Q (elim x [ ok (a, r') ↦ f a r' | err e ↦ err e ])
>>=-result f (gives {a} {r} p b) k = k a p r b
>>=-result f fails k = fails

>>=-Ensures :
    {A B : Type 0} {P : A → Type 0} {Q : B → Type 0} {m : Read A} {f : A → Read B}
    → Ensures m P
    → ((a : A) → P a → Ensures (f a) Q)
    → Ensures (m >>= f) Q
unfolding ◌>>=◌
>>=-Ensures {f} h k r b = >>=-result f (h r b) k

return-Ensures : {A : Type 0} {P : A → Type 0} {a : A} → P a → Ensures (return a) P
return-Ensures p r b = gives p b

read_byte-Ensures : Ensures read_byte IsByte
unfolding read_byte
read_byte-Ensures [] h = fails
read_byte-Ensures (b ∷ r) (p, h) = gives p h

read_u16-Ensures : Ensures read_u16 (λ n. n < 2 ^ 16)
unfolding read_u16
read_u16-Ensures [] h = fails
read_u16-Ensures (a ∷ []) h = fails
read_u16-Ensures (a ∷ b ∷ r) (p, (q, h)) = gives (omega arith) h

read_u32-Ensures : Ensures read_u32 IsU32
unfolding read_u32
read_u32-Ensures [] h = fails
read_u32-Ensures (a ∷ []) h = fails
read_u32-Ensures (a ∷ b ∷ []) h = fails
read_u32-Ensures (a ∷ b ∷ c ∷ []) h = fails
read_u32-Ensures (a ∷ b ∷ c ∷ d ∷ r) (p, (q, (s, (t, h)))) = gives (omega arith) h

abbrev TextBelow : ℕ → List ℕ → Type 0
TextBelow n s = All IsTextByte s × (length s < n)

push-Yields :
    (n b : ℕ) {x : Result CodecError (List ℕ × List ℕ)}
    → IsTextByte b
    → Yields (TextBelow n) x
    → Yields (TextBelow (suc n)) (push b x)
push-Yields n b p (gives (h, k) r) = gives ((p, h), omega arith) r
push-Yields n b p fails = fails

scan-Ensures : (n : ℕ) → Ensures (scan n) (TextBelow n)
unfolding scan
scan-Ensures zero r h = fails
scan-Ensures (suc n) [] h = fails
scan-Ensures (suc n) (b ∷ r) (p, h) = elim (Bool-cases (b == 0)) [
  | inl e ↦ rw e (gives (tt, omega arith) h)
  | inr e ↦ rw e (push-Yields n b (ground arith, p) (scan-Ensures n r h))
]

Yields-map :
    {A : Type 0} {P Q : A → Type 0} {x : Result CodecError (A × List ℕ)}
    → ((a : A) → P a → Q a)
    → Yields P x
    → Yields Q x
Yields-map f (gives {a} p b) = gives (f a p) b
Yields-map f fails = fails

read_c_octet_string-Ensures : Ensures read_c_octet_string IsText
unfolding read_c_octet_string
read_c_octet_string-Ensures r h =
    Yields-map (λ s p. record { characters = p.0; short = p.1 }) (scan-Ensures 256 r h)

read_octets-Ensures : (n : ℕ) → Ensures (read_octets n) (λ s. AreBytes s × (length s ≡ n))
unfolding read_octets
read_octets-Ensures n r h = elim (Bool-cases (ltb (length r) n)) [
  | inl e ↦ rw e fails
  | inr e ↦
      rw e (gives (All-take IsByte n r h, ground (arith, length-take n r)) (All-drop IsByte n r h))
]

read_tlv-Ensures : Ensures read_tlv TlvIsWf
unfolding read_tlv
read_tlv-Ensures = >>=-Ensures read_u16-Ensures λ tag ht. >>=-Ensures read_u16-Ensures λ len hl.
    >>=-Ensures (read_octets-Ensures len)
      λ value hv. return-Ensures (record { tag = ht; short = omega arith; bytes = hv.0 })

abbrev TlvsFrom : ℕ → List Tlv → Type 0
TlvsFrom count ts = All TlvIsWf ts × (count + length ts ≤ max_tlvs)

tlvs_round-Ensures :
    (count : ℕ) {rest : Read (List Tlv)}
    → Ensures rest (TlvsFrom (count + 1))
    → Ensures (read_tlv >>= λ t. rest >>= λ ts. return (t ∷ ts)) (TlvsFrom count)
tlvs_round-Ensures count h =
    >>=-Ensures read_tlv-Ensures
      λ t ht. >>=-Ensures h λ ts hts. return-Ensures ((ht, hts.0), omega arith)

tlvs_loop-Ensures :
    (fuel count : ℕ) → count ≤ max_tlvs → Ensures (tlvs_loop fuel count) (TlvsFrom count)
unfolding tlvs_loop
tlvs_loop-Ensures fuel count c [] h = gives (tt, omega arith) tt
tlvs_loop-Ensures zero count c (b ∷ r) h = fails
tlvs_loop-Ensures (suc fuel) count c (b ∷ r) h = elim (Bool-cases (ltb (length (b ∷ r)) 4)) [
  | inl e ↦ rw e fails
  | inr e ↦ elim (Bool-cases (count == 64)) [
    | inl full ↦ rw (e, full) fails
    | inr room ↦
        rw (e, room)
          (tlvs_round-Ensures count (tlvs_loop-Ensures fuel (count + 1) (ground arith)) (b ∷ r) h)
  ]
]

read_tlvs-Ensures : Ensures read_tlvs TlvsIsWf
unfolding read_tlvs
read_tlvs-Ensures r h =
    Yields-map (λ ts p. record { each = p.0; few = omega arith })
      (tlvs_loop-Ensures (length r) 0 (omega arith) r h)

abbrev BodyOf : Shape → Body → Type 0
BodyOf sh b = BodyIsWf sh (some b)

decode_bind-Ensures : Ensures decode_bind (BodyOf Shape.bind_shape)
unfolding decode_bind
decode_bind-Ensures = >>=-Ensures read_c_octet_string-Ensures λ _ w1.
    >>=-Ensures read_c_octet_string-Ensures λ _ w2. >>=-Ensures read_c_octet_string-Ensures λ _ w3.
      >>=-Ensures read_byte-Ensures λ _ w4. >>=-Ensures read_byte-Ensures λ _ w5.
        >>=-Ensures read_byte-Ensures λ _ w6. >>=-Ensures read_c_octet_string-Ensures λ _ w7.
          return-Ensures (
            bind_wf (record {
              system_id = w1;
              password = w2;
              system_type = w3;
              interface_version = w4;
              addr_ton = w5;
              addr_npi = w6;
              address_range = w7;
            }))

empty-IsText : IsText []
empty-IsText = record { characters = tt; short = omega arith }

decode_bind_resp-Ensures : Ensures decode_bind_resp (BodyOf Shape.bind_resp_shape)
unfolding decode_bind_resp decode_bind_resp_fields
decode_bind_resp-Ensures r h = elim (Bool-cases (length r == 0)) [
  | inl e ↦ rw e (gives (bind_resp_wf empty-IsText (record { each = tt; few = omega arith })) h)
  | inr e ↦ rw e (fields r h)
]
  where
    fields : Ensures decode_bind_resp_fields (BodyOf Shape.bind_resp_shape)
    fields =
        >>=-Ensures read_c_octet_string-Ensures
          λ _ w. >>=-Ensures read_tlvs-Ensures λ _ ws. return-Ensures (bind_resp_wf w ws)

decode_submit_resp-Ensures : Ensures decode_submit_resp (BodyOf Shape.submit_resp_shape)
unfolding decode_submit_resp decode_submit_resp_fields
decode_submit_resp-Ensures r h = elim (Bool-cases (length r == 0)) [
  | inl e ↦ rw e (gives (submit_resp_wf empty-IsText) h)
  | inr e ↦ rw e (fields r h)
]
  where
    fields : Ensures decode_submit_resp_fields (BodyOf Shape.submit_resp_shape)
    fields = >>=-Ensures read_c_octet_string-Ensures λ _ w. return-Ensures (submit_resp_wf w)

read_short_message-Ensures :
    Ensures read_short_message (λ s. AreBytes s × (length s ≤ max_short_message_len))
unfolding read_short_message
read_short_message-Ensures = >>=-Ensures read_byte-Ensures λ n hn r h.
    elim (Bool-cases (ltb 254 n)) [
      | inl e ↦ rw e fails
      | inr e ↦ rw e (Yields-map (λ s p. (p.0, ground arith)) (read_octets-Ensures n r h))
    ]

decode_message-Ensures : Ensures decode_message (BodyOf Shape.message_shape)
unfolding decode_message
decode_message-Ensures = >>=-Ensures read_c_octet_string-Ensures λ _ w1.
    >>=-Ensures read_byte-Ensures λ _ w2. >>=-Ensures read_byte-Ensures λ _ w3.
      >>=-Ensures read_c_octet_string-Ensures λ _ w4. >>=-Ensures read_byte-Ensures λ _ w5.
        >>=-Ensures read_byte-Ensures λ _ w6. >>=-Ensures read_c_octet_string-Ensures λ _ w7.
          >>=-Ensures read_byte-Ensures λ _ w8. >>=-Ensures read_byte-Ensures λ _ w9.
            >>=-Ensures read_byte-Ensures λ _ w10. >>=-Ensures read_c_octet_string-Ensures λ _ w11.
              >>=-Ensures read_c_octet_string-Ensures λ _ w12.
                >>=-Ensures read_byte-Ensures λ _ w13. >>=-Ensures read_byte-Ensures λ _ w14.
                  >>=-Ensures read_byte-Ensures λ _ w15. >>=-Ensures read_byte-Ensures λ _ w16.
                    >>=-Ensures read_short_message-Ensures λ _ w17.
                      >>=-Ensures read_tlvs-Ensures λ _ w18. return-Ensures (
                        message_wf (record {
                          service_type = w1;
                          source_addr_ton = w2;
                          source_addr_npi = w3;
                          source_addr = w4;
                          dest_addr_ton = w5;
                          dest_addr_npi = w6;
                          dest_addr = w7;
                          esm_class = w8;
                          protocol_id = w9;
                          priority_flag = w10;
                          schedule_delivery_time = w11;
                          validity_period = w12;
                          registered_delivery = w13;
                          replace_if_present = w14;
                          data_coding = w15;
                          sm_default_msg_id = w16;
                          short_message = w17.0;
                          fits = w17.1;
                          tlvs = w18;
                        }))

body_of_shape-Ensures : (sh : Shape) → Ensures (body_of_shape sh) (BodyIsWf sh)
unfolding body_of_shape
body_of_shape-Ensures Shape.bind_shape = >>=-Ensures decode_bind-Ensures λ _ w. return-Ensures w
body_of_shape-Ensures Shape.bind_resp_shape =
    >>=-Ensures decode_bind_resp-Ensures λ _ w. return-Ensures w
body_of_shape-Ensures Shape.message_shape =
    >>=-Ensures decode_message-Ensures λ _ w. return-Ensures w
body_of_shape-Ensures Shape.submit_resp_shape =
    >>=-Ensures decode_submit_resp-Ensures λ _ w. return-Ensures w
body_of_shape-Ensures Shape.header_only = return-Ensures no_body_wf
body_of_shape-Ensures Shape.unmodelled = λ r h. fails

decode_fields-Ensures : Ensures decode_fields PduIsWf
unfolding decode_fields decode_body
decode_fields-Ensures = >>=-Ensures read_u32-Ensures λ _ w0. >>=-Ensures read_u32-Ensures λ id w1.
    >>=-Ensures read_u32-Ensures λ _ w2. >>=-Ensures read_u32-Ensures λ _ w3.
      >>=-Ensures (body_of_shape-Ensures (shape id)) λ _ w4.
        return-Ensures
          (record { command_id = w1; command_status = w2; sequence_number = w3; body = w4 })

first-IsWf :
    (x : Result CodecError (Pdu × List ℕ)) {p : Pdu} → Yields PduIsWf x → first x ≡ ok p → PduIsWf p
first-IsWf _ (gives w h) e = subst PduIsWf (cc) w
first-IsWf _ fails e = cc

-- A PDU that `decode` accepts from a frame of octets, whatever they are, is well formed.
pub decode-IsWf : (frame : List ℕ) (p : Pdu) → AreBytes frame → decode frame ≡ ok p → PduIsWf p
unfolding decode
decode-IsWf frame p h e = elim (Bool-cases (ltb (length frame) 16)) [
  | inl short ↦ cc (rw short at e)
  | inr long ↦ first-IsWf (decode_fields frame) (decode_fields-Ensures frame h) (rw long at e)
]

-- So a decoded PDU, encoded again, is decoded to the same PDU.
pub decode-encode-decode :
    (frame again : List ℕ) (p : Pdu)
    → AreBytes frame
    → decode frame ≡ ok p
    → encode p ≡ ok again
    → decode again ≡ ok p
decode-encode-decode frame again p h e e' = decode-encode p again (decode-IsWf frame p h e) e'
