-- ===== src/Smpp/Receipt/Valid.antt =====
-- The receipts as PDUs that the wire can carry.
use go_smsc_simulator.Common.{
  ℕ, ◌+◌, ◌≤◌, ◌≡◌, arith, ltb, ◌==◌, Bool-cases, if_both, List, [], ◌∷◌, ◌++◌, length, take,
  All-append, All-take, inl, inr, length-append, length-take, if◌then◌else◌, codes, ok,
}
use go_smsc_simulator.Smpp.WellFormed.{IsByte, AreBytes, IsText, PduIsWf, message_wf}
use go_smsc_simulator.Smpp.Encode.{encode}
use go_smsc_simulator.Smpp.Decode.{decode, shape}
use go_smsc_simulator.Smpp.Decode.RoundTrip.{decode-encode}
use go_smsc_simulator.Smpp.Receipt.{
  DeliveryReceipt, stat_text, receipt_text, new_delivery_receipt, receipt_text_max_len,
  state_delivered, state_enroute, state_expired, state_deleted, state_undeliverable, state_accepted,
  state_rejected,
}

-- Octets, at most so many.
pub record Segment (n : ℕ) (s : List ℕ) : Type 0 where
  pub bytes : AreBytes s
  pub short : length s ≤ n

-- What the simulator fills a receipt with: the wire's ranges, an id of at most 64 octets, an error
-- code of three and dates of ten.
pub record ReceiptIsWf (r : DeliveryReceipt) : Type 0 where
  pub message_id : Segment 64 r.message_id
  pub state : IsByte r.state
  pub error_code : Segment 3 r.error_code
  pub submit_date : Segment 10 r.submit_date
  pub done_date : Segment 10 r.done_date
  pub text : AreBytes r.text
  pub source_addr : IsText r.source_addr
  pub source_addr_ton : IsByte r.source_addr_ton
  pub source_addr_npi : IsByte r.source_addr_npi
  pub dest_addr : IsText r.dest_addr
  pub dest_addr_ton : IsByte r.dest_addr_ton
  pub dest_addr_npi : IsByte r.dest_addr_npi

Segment-append : {n k : ℕ} {s t : List ℕ} → Segment n s → Segment k t → Segment (n + k) (s ++ t)
Segment-append {n} {k} {s} {t} a b = record {
  bytes = All-append IsByte s t a.bytes b.bytes;
  short = let x = a.short in let y = b.short in omega (arith, length-append s t);
}

stat_text-Segment : (s : ℕ) → Segment 7 (stat_text s)
unfolding stat_text
stat_text-Segment s =
    if_both (Segment 7) (s == state_enroute) (record { bytes = ground arith; short = omega arith })
      (if_both (Segment 7) (s == state_delivered)
        (record { bytes = ground arith; short = omega arith })
        (if_both (Segment 7) (s == state_expired)
          (record { bytes = ground arith; short = omega arith })
          (if_both (Segment 7) (s == state_deleted)
            (record { bytes = ground arith; short = omega arith })
            (if_both (Segment 7) (s == state_undeliverable)
              (record { bytes = ground arith; short = omega arith })
              (if_both (Segment 7) (s == state_accepted)
                (record { bytes = ground arith; short = omega arith })
                (if_both (Segment 7) (s == state_rejected)
                  (record { bytes = ground arith; short = omega arith })
                  (record { bytes = ground arith; short = omega arith })))))))

cut_text-Segment :
    (text : List ℕ)
    → AreBytes text
    → Segment 20
        (if ltb receipt_text_max_len (length text) then take receipt_text_max_len text else text)
cut_text-Segment text h = elim (Bool-cases (ltb receipt_text_max_len (length text))) [
  | inl long ↦ rw long (record {
    bytes = All-take IsByte receipt_text_max_len text h;
    short = omega (arith, length-take receipt_text_max_len text);
  })
  | inr fits ↦ rw fits (record { bytes = h; short = ground (arith, fits) })
]

-- A fixed part of the text.
fixed_part : (s : List ℕ) → AreBytes s → Segment (length s) s
fixed_part s h = record { bytes = h; short = omega arith }

receipt_text-Segment : (r : DeliveryReceipt) → ReceiptIsWf r → Segment 254 (receipt_text r)
unfolding receipt_text
receipt_text-Segment r w =
    let flag : Segment 3 (if r.state == state_delivered then codes "001" else codes "000") =
      if_both (Segment 3) (r.state == state_delivered) (fixed_part (codes "001") (ground arith))
        (fixed_part (codes "000") (ground arith)) in
    let id = Segment-append (fixed_part (codes "id:") (ground arith)) w.message_id in
    let submitted = Segment-append id (fixed_part (codes " sub:001 dlvrd:") (ground arith)) in
    let delivered = Segment-append submitted flag in
    let since = Segment-append delivered (fixed_part (codes " submit date:") (ground arith)) in
    let sent = Segment-append since w.submit_date in
    let until = Segment-append sent (fixed_part (codes " done date:") (ground arith)) in
    let done = Segment-append until w.done_date in
    let stat = Segment-append done (fixed_part (codes " stat:") (ground arith)) in
    let stated = Segment-append stat (stat_text-Segment r.state) in
    let failed = Segment-append stated (fixed_part (codes " err:") (ground arith)) in
    let coded = Segment-append failed w.error_code in
    let texted = Segment-append coded (fixed_part (codes " text:") (ground arith)) in
    let s = Segment-append texted (cut_text-Segment r.text w.text) in
    record { bytes = s.bytes; short = let k = s.short in omega (arith, k) }

-- A receipt with fields in the ranges of the wire, an id of at most 64 octets, dates of ten and an
-- error code of three is a PDU that the wire can carry, whatever the length of the original text.
pub new_delivery_receipt-IsWf :
    (r : DeliveryReceipt) → ReceiptIsWf r → PduIsWf (new_delivery_receipt r)
unfolding new_delivery_receipt shape
new_delivery_receipt-IsWf r w =
    let s = receipt_text-Segment r w in
    let none_text : IsText [] = record { characters = tt; short = omega arith } in
    let id = Segment-append w.message_id (fixed_part (0 ∷ []) (ground arith)) in
    record {
      command_id = omega arith;
      command_status = omega arith;
      sequence_number = omega arith;
      body = message_wf (record {
        service_type = none_text;
        source_addr_ton = w.source_addr_ton;
        source_addr_npi = w.source_addr_npi;
        source_addr = w.source_addr;
        dest_addr_ton = w.dest_addr_ton;
        dest_addr_npi = w.dest_addr_npi;
        dest_addr = w.dest_addr;
        esm_class = omega arith;
        protocol_id = omega arith;
        priority_flag = omega arith;
        schedule_delivery_time = none_text;
        validity_period = none_text;
        registered_delivery = omega arith;
        replace_if_present = omega arith;
        data_coding = omega arith;
        sm_default_msg_id = omega arith;
        short_message = s.bytes;
        fits = s.short;
        tlvs = record {
          each = (
            record {
              tag = omega arith;
              short = let k = id.short in omega (arith, k);
              bytes = id.bytes;
            },
            (record { tag = omega arith; short = omega arith; bytes = (w.state, tt) }, tt),
          );
          few = omega arith;
        };
      });
    }

-- So the peer that gets such a receipt decodes the very PDU that was sent.
pub decode-new_delivery_receipt :
    (r : DeliveryReceipt) (frame : List ℕ)
    → ReceiptIsWf r
    → encode (new_delivery_receipt r) ≡ ok frame
    → decode frame ≡ ok (new_delivery_receipt r)
decode-new_delivery_receipt r frame w e =
    decode-encode (new_delivery_receipt r) frame (new_delivery_receipt-IsWf r w) e
