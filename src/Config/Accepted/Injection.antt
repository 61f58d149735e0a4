-- ===== src/Config/Accepted/Injection.antt =====
-- internal/config/validate.go: the mobile-originated messages of an accepted virtual SMSC.
use go_smsc_simulator.Common.{
  ℕ, ◌+◌, ◌≤◌, ◌≡◌, arith, ltb, ◌==◌, true, false, List, [], ◌∷◌, ◌++◌, length, length-append,
  length-take, take, some, ok, All, Bool-cases, Result-cases, inl, inr, if◌then◌else◌,
}
use go_smsc_simulator.Smpp.Pdu.{Pdu}
use go_smsc_simulator.Smpp.Writer.{c_octet_string, marshal, marshal_message}
use go_smsc_simulator.Smpp.Encode.{encode, body_octets}
use go_smsc_simulator.Smpp.Decode.{decode, shape}
use go_smsc_simulator.Smpp.Decode.RoundTrip.{decode-encode}
use go_smsc_simulator.Smpp.WellFormed.{AreBytes, IsTextByte, IsText, PduIsWf, message_wf}
use go_smsc_simulator.Smpp.Receipt.{new_mobile_originated}
use go_smsc_simulator.Config.Enums.{MoMode, scheduled, auto, disabled, other_mode, valid_mo_mode}
use go_smsc_simulator.Config.Schema.{MoEvent, MoInjectionConfig}
use go_smsc_simulator.Config.Faults.{fault_if, if_set, clean_both, clean_test, clean_each}
use go_smsc_simulator.Config.Validate.{validate_clock}
use go_smsc_simulator.Config.Topology.{validate_mo_event, validate_mo_mode, validate_mo_injection}

-- What validation does not look at: the content is octets, the addresses are octets other than 0.
pub record MoText (ev : MoEvent) : Type 0 where
  pub source_addr : All IsTextByte ev.source_addr
  pub dest_addr : All IsTextByte ev.dest_addr
  pub content : AreBytes ev.content

abbrev pub mo_pdu : MoEvent → Pdu
mo_pdu ev = new_mobile_originated ev.source_addr ev.dest_addr ev.content

-- The message is encoded, and decoded to the same message.
abbrev pub MoArrives : MoEvent → Type 0
MoArrives ev = (frame : List ℕ) × (encode (mo_pdu ev) ≡ ok frame) × (decode frame ≡ ok (mo_pdu ev))

mo_bounds :
    (ev : MoEvent)
    → validate_mo_event ev ≡ []
    → (length ev.source_addr ≤ 20) × (length ev.dest_addr ≤ 20) × (length ev.content ≤ 254)
unfolding validate_mo_event
mo_bounds ev h = ground arith

mo_pdu-IsWf :
    (ev : MoEvent)
    → MoText ev
    → length ev.source_addr ≤ 20
    → length ev.dest_addr ≤ 20
    → length ev.content ≤ 254
    → PduIsWf (mo_pdu ev)
unfolding new_mobile_originated shape
mo_pdu-IsWf ev text source dest content =
    let none_text : IsText [] = record { characters = tt; short = omega arith } in
    record {
      command_id = omega arith;
      command_status = omega arith;
      sequence_number = omega arith;
      body = message_wf (record {
        service_type = none_text;
        source_addr_ton = omega arith;
        source_addr_npi = omega arith;
        source_addr = record { characters = text.source_addr; short = omega arith };
        dest_addr_ton = omega arith;
        dest_addr_npi = omega arith;
        dest_addr = record { characters = text.dest_addr; short = omega arith };
        esm_class = omega arith;
        protocol_id = omega arith;
        priority_flag = omega arith;
        schedule_delivery_time = none_text;
        validity_period = none_text;
        registered_delivery = omega arith;
        replace_if_present = omega arith;
        data_coding = omega arith;
        sm_default_msg_id = omega arith;
        short_message = text.content;
        fits = content;
        tlvs = record { each = tt; few = omega arith };
      });
    }

encode_fits :
    (p : Pdu) → length (body_octets p.body) ≤ 65520 → (frame : List ℕ) × (encode p ≡ ok frame)
unfolding encode
encode_fits p h = elim (Result-cases (encode p)) [
  | inl (frame, e) ↦ (frame, e)
  | inr (x, bad) ↦ absurd (ground (arith, bad))
]

length-c_octet_string :
    (s rest : List ℕ) → length (c_octet_string s ++ rest) ≡ length s + 1 + length rest
length-c_octet_string s rest =
    omega (arith, length-append (c_octet_string s) rest, length-append s (0 ∷ []))

mo_pdu-encodes :
    (ev : MoEvent)
    → length ev.source_addr ≤ 20
    → length ev.dest_addr ≤ 20
    → length ev.content ≤ 254
    → (frame : List ℕ) × (encode (mo_pdu ev) ≡ ok frame)
unfolding body_octets new_mobile_originated marshal marshal_message
mo_pdu-encodes ev source dest content =
    let n = if ltb 254 (length ev.content) then 254 else length ev.content in
    let last : List ℕ = n ∷ (take n ev.content ++ []) in
    let behind : List ℕ = 0 ∷ 0 ∷ 0 ∷ 0 ∷ 0 ∷ 0 ∷ 0 ∷ 0 ∷ 0 ∷ last in
    encode_fits (mo_pdu ev) (
      omega (
        arith,
        length-c_octet_string ev.source_addr (0 ∷ 0 ∷ (c_octet_string ev.dest_addr ++ behind)),
        length-c_octet_string ev.dest_addr behind,
        length-append (take n ev.content) [],
        length-take n ev.content,
      ))

mo_arrives : (ev : MoEvent) → validate_mo_event ev ≡ [] → MoText ev → MoArrives ev
mo_arrives ev checked text =
    let (source, dest, content) = mo_bounds ev checked in
    let (frame, e) = mo_pdu-encodes ev source dest content in
    let wf = mo_pdu-IsWf ev text source dest content in
    (frame, e, decode-encode (mo_pdu ev) frame wf e)

none_left {ℓ} : {A : Type ℓ} (P : A → Type 0) (xs : List A) → ltb 0 (length xs) ≡ false → All P xs
none_left P [] h = tt
none_left P (x ∷ xs) h = absurd (ground (arith, h))

-- Whatever the mode, the events that validation lets through have been checked.
events_checked :
    (mode : MoMode) (mo : MoInjectionConfig)
    → valid_mo_mode mode ≡ true
    → validate_mo_mode mode mo ≡ []
    → All (λ ev. validate_mo_event ev ≡ []) mo.events
unfolding validate_mo_mode valid_mo_mode
events_checked scheduled mo v h =
    let (_, h') = clean_both {xs = fault_if (length mo.events == 0) _ _} h in
    let (_, h'') = clean_both {xs = if_set mo.rate_per_sec _} h' in
    let (_, each) = clean_both {xs = if_set mo.content_template _} h'' in
    clean_each mo.events validate_mo_event each
events_checked auto mo v h = absurd (cc h)
events_checked disabled mo v h =
    let (_, h') = clean_both {xs = if_set mo.rate_per_sec _} h in
    let (_, h'') = clean_both {xs = if_set mo.content_template _} h' in
    none_left _ mo.events (clean_test _ _ _ h'')
events_checked (other_mode s) mo v h = absurd (cc v)

all_arrive :
    (evs : List MoEvent)
    → All (λ ev. validate_mo_event ev ≡ []) evs
    → All MoText evs
    → All MoArrives evs
all_arrive [] checked text = tt
all_arrive (ev ∷ evs) (c, checked) (t, text) = (mo_arrives ev c t, all_arrive evs checked text)

-- Of an injection block that validation accepts, whatever its mode: each event with octets
-- other than 0 for its addresses and octets for its content becomes a PDU that is encoded to a
-- frame, and what the peer decodes from the frame is that very PDU, neither cut nor refused.
pub mo_injection-arrives :
    (mo : MoInjectionConfig)
    → validate_mo_injection (some mo) ≡ []
    → All MoText mo.events
    → All MoArrives mo.events
unfolding validate_mo_injection
mo_injection-arrives mo h text = elim (Bool-cases (valid_mo_mode mo.mode)) [
  | inl valid ↦
      let (_, mode) =
        clean_both {xs = validate_clock "mo_injection.clock" mo.clock} (ground (arith, valid, h)) in
      all_arrive mo.events (events_checked mo.mode mo valid mode) text
  | inr invalid ↦ absurd (ground (arith, invalid, h))
]
