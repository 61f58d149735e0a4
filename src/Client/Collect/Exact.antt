-- ===== src/Client/Collect/Exact.antt =====
-- internal/smpptest/client.go: what the two loops that read deliver_sm PDUs return.
use go_smsc_simulator.Common.{
  ℕ, zero, suc, ◌+◌, ◌≤◌, ◌≡◌, refl, ap, arith, ◌==◌, Bool, false, List, [], ◌∷◌, ◌++◌, length,
  length-append, append_assoc, append-nil, some, ok, ◌⊎◌, inl, inr,
}
use go_smsc_simulator.Smpp.Commands.{deliver_sm}
use go_smsc_simulator.Smpp.Pdu.{Pdu}
use go_smsc_simulator.Smpp.Reader.{CodecError, timeout}
use go_smsc_simulator.Smpp.Encode.{encode, frame_of, body_octets}
use go_smsc_simulator.Smpp.Decode.{full_error, read_pdu}
use go_smsc_simulator.Smpp.Decode.Framing.{read_pdu-encode, encode_announces}
use go_smsc_simulator.Smpp.Writer.{put_u32, marshal, marshal_submit_resp}
use go_smsc_simulator.Smpp.WellFormed.{PduIsWf}
use go_smsc_simulator.Client.{Client, write, read_within, acknowledgement, acknowledge}
use go_smsc_simulator.Client.Collect.{
  drain_loop, drain_deliver_sms, collect_loop, collect_deliver_sms,
}

-- A deliver_sm as a server writes it.
pub record Delivery : Type 0 where
  pub pdu : Pdu
  pub frame : List ℕ
  pub pdu_wf : PduIsWf pdu
  pub is_deliver : pdu.command_id ≡ deliver_sm
  pub encodes : encode pdu ≡ ok frame

abbrev pub frames : List Delivery → List ℕ
frames [] = []
frames (d ∷ ds) = d.frame ++ frames ds

abbrev pub pdus : List Delivery → List Pdu
pdus [] = []
pdus (d ∷ ds) = d.pdu ∷ pdus ds

-- The octets of a deliver_sm_resp with status 0, the sequence number of a deliver_sm and an empty
-- message_id: command_length 17, command_id 0x80000005, status, sequence_number, terminator.
abbrev pub ack_frame : Delivery → List ℕ
ack_frame d =
    0 ∷ 0 ∷ 0 ∷ 17 ∷ 128 ∷ 0 ∷ 0 ∷ 5 ∷ 0 ∷ 0 ∷ 0 ∷ 0 ∷ put_u32 d.pdu.sequence_number ++ 0 ∷ []

abbrev pub ack_frames : List Delivery → List (List ℕ)
ack_frames [] = []
ack_frames (d ∷ ds) = ack_frame d ∷ ack_frames ds

abbrev pub client_with : ℕ → List ℕ → CodecError → List (List ℕ) → Client
client_with seq arriving ending sent = record {
  seq = seq;
  incoming = record { arriving = arriving; ending = ending };
  sent = sent;
}

ack_encodes : (d : Delivery) → encode (acknowledgement d.pdu) ≡ ok (ack_frame d)
unfolding encode body_octets frame_of marshal marshal_submit_resp
ack_encodes d = refl

acknowledge_lem :
    (d : Delivery) (c : Client)
    → acknowledge d.pdu c ≡ some (d.pdu, record c { sent = c.sent ++ ack_frame d ∷ [] })
unfolding acknowledge write
acknowledge_lem d c = rw (ap (λ k. k == deliver_sm) d.is_deliver, ack_encodes d) refl

frames-length : (ds : List Delivery) → length ds ≤ length (frames ds)
frames-length [] = omega arith
frames-length (d ∷ ds) = omega (
  arith,
  length-append d.frame (frames ds),
  (encode_announces d.pdu d.frame [] d.encodes).0,
  frames-length ds,
)

drain_loop_quiet :
    (n seq : ℕ) (sent : List (List ℕ))
    → (let c : Client = client_with seq [] timeout sent in drain_loop (suc n) c ≡ some ([], c))
unfolding drain_loop read_pdu full_error
drain_loop_quiet n seq sent = refl

drain_loop_exact :
    (ds : List Delivery) (n seq : ℕ) (sent : List (List ℕ))
    → length ds ≤ n
    → drain_loop (suc n) (client_with seq (frames ds) timeout sent)
      ≡ some (pdus ds, client_with seq [] timeout (sent ++ ack_frames ds))
unfolding drain_loop
drain_loop_exact [] n seq sent h = rw (append-nil sent) (drain_loop_quiet n seq sent)
drain_loop_exact (d ∷ ds) (suc n) seq sent h =
    let (read, decoded) = read_pdu-encode d.pdu d.frame (frames ds) timeout d.pdu_wf d.encodes in
    rw
      (
        drain_loop,
        read,
        decoded,
        acknowledge_lem d (client_with seq (frames ds) timeout sent),
        drain_loop_exact ds n seq (sent ++ ack_frame d ∷ []) (omega arith),
        append_assoc sent (ack_frame d ∷ []) (ack_frames ds),
      )
      refl
drain_loop_exact (d ∷ ds) zero seq sent h = absurd (omega arith)

-- `DrainDeliverSMs` on a connection on which any number of well-formed deliver_sm PDUs arrive,
-- one frame behind another, before it falls silent until the deadline: it returns all of them in
-- the order of their arrival, and has answered each, in that order, with the octets of a
-- deliver_sm_resp with its sequence number, status 0 and an empty message_id.
pub drain_exact :
    (ds : List Delivery) (seq : ℕ) (sent : List (List ℕ))
    → drain_deliver_sms (client_with seq (frames ds) timeout sent)
      ≡ some (pdus ds, client_with seq [] timeout (sent ++ ack_frames ds))
unfolding drain_deliver_sms
drain_exact ds seq sent = drain_loop_exact ds (length (frames ds)) seq sent (frames-length ds)

-- A PDU that is not collected.
pub record Passed : Type 0 where
  pub pdu : Pdu
  pub frame : List ℕ
  pub pdu_wf : PduIsWf pdu
  pub other : (pdu.command_id == deliver_sm) ≡ false
  pub encodes : encode pdu ≡ ok frame

abbrev pub mixed : List (Delivery ⊎ Passed) → List ℕ → List ℕ
mixed [] more = more
mixed (inl d ∷ xs) more = d.frame ++ mixed xs more
mixed (inr p ∷ xs) more = p.frame ++ mixed xs more

abbrev pub deliveries : List (Delivery ⊎ Passed) → List Delivery
deliveries [] = []
deliveries (inl d ∷ xs) = d ∷ deliveries xs
deliveries (inr p ∷ xs) = deliveries xs

mixed-length : (xs : List (Delivery ⊎ Passed)) (more : List ℕ) → length xs ≤ length (mixed xs more)
mixed-length [] more = omega arith
mixed-length (inl d ∷ xs) more = omega (
  arith,
  length-append d.frame (mixed xs more),
  (encode_announces d.pdu d.frame [] d.encodes).0,
  mixed-length xs more,
)
mixed-length (inr p ∷ xs) more = omega (
  arith,
  length-append p.frame (mixed xs more),
  (encode_announces p.pdu p.frame [] p.encodes).0,
  mixed-length xs more,
)

read_within_frame :
    (p : Pdu) (frame more : List ℕ) (ending : CodecError) (seq : ℕ) (sent : List (List ℕ))
    → PduIsWf p
    → encode p ≡ ok frame
    → read_within (client_with seq (frame ++ more) ending sent)
      ≡ some (p, client_with seq more ending sent)
unfolding read_within
read_within_frame p frame more ending seq sent wf e =
    let (read, decoded) = read_pdu-encode p frame more ending wf e in rw (read, decoded) refl

module _ (expired : ℕ → Bool) (seq : ℕ) (ending : CodecError) where
  collect_loop_exact :
      (xs : List (Delivery ⊎ Passed)) (d : Delivery) (more : List ℕ) (round n : ℕ)
      (sent : List (List ℕ))
      → length xs ≤ n
      → ((i : ℕ) → i ≤ round + length xs → expired i ≡ false)
      → collect_loop expired round
          (suc n)
          (suc (length (deliveries xs)))
          (client_with seq (mixed xs (d.frame ++ more)) ending sent)
        ≡ some (
          pdus (deliveries xs) ++ d.pdu ∷ [],
          client_with seq more ending (sent ++ (ack_frames (deliveries xs) ++ ack_frame d ∷ [])),
        )
  unfolding collect_loop
  collect_loop_exact [] d more round n sent h in_time =
      rw
        (
          collect_loop,
          in_time round (omega arith),
          read_within_frame d.pdu d.frame more ending seq sent d.pdu_wf d.encodes,
          ap (λ k. k == deliver_sm) d.is_deliver,
          acknowledge_lem d (client_with seq more ending sent),
        )
        refl
  collect_loop_exact (inl a ∷ xs) d more round (suc n) sent h in_time =
      rw
        (
          collect_loop,
          in_time round (omega arith),
          read_within_frame a.pdu a.frame (mixed xs (d.frame ++ more)) ending seq sent a.pdu_wf
              a.encodes,
          ap (λ k. k == deliver_sm) a.is_deliver,
          acknowledge_lem a (client_with seq (mixed xs (d.frame ++ more)) ending sent),
          collect_loop_exact xs d more (suc round) n (sent ++ ack_frame a ∷ []) (omega arith)
              (λ i le. in_time i (omega arith)),
          append_assoc sent (ack_frame a ∷ []) (ack_frames (deliveries xs) ++ ack_frame d ∷ []),
        )
        refl
  collect_loop_exact (inr p ∷ xs) d more round (suc n) sent h in_time =
      rw
        (
          collect_loop,
          in_time round (omega arith),
          read_within_frame p.pdu p.frame (mixed xs (d.frame ++ more)) ending seq sent p.pdu_wf
              p.encodes,
          p.other,
        )
        (collect_loop_exact xs d more (suc round) n sent (omega arith)
          (λ i le. in_time i (omega arith)))
  collect_loop_exact (x ∷ xs) d more round zero sent h in_time = absurd (omega arith)

  -- `CollectDeliverSMs` on a connection where a number of well-formed PDUs arrive, deliver_sm and
  -- other ones in any order, then one more deliver_sm and whatever octets: asked for as many
  -- as there are and in time for as many reads, it returns every deliver_sm, in the order of their
  -- arrival, has answered each and no other PDU, in that order, with the octets of a
  -- deliver_sm_resp with its sequence number, status 0 and an empty message_id, and has left the
  -- octets behind the last.
  pub collect_exact :
      (xs : List (Delivery ⊎ Passed)) (d : Delivery) (more : List ℕ) (sent : List (List ℕ))
      → ((i : ℕ) → i ≤ length xs → expired i ≡ false)
      → collect_deliver_sms expired
          (suc (length (deliveries xs)))
          (client_with seq (mixed xs (d.frame ++ more)) ending sent)
        ≡ some (
          pdus (deliveries xs) ++ d.pdu ∷ [],
          client_with seq more ending (sent ++ (ack_frames (deliveries xs) ++ ack_frame d ∷ [])),
        )
  unfolding collect_deliver_sms
  collect_exact xs d more sent in_time =
      collect_loop_exact xs d more 0 (length (mixed xs (d.frame ++ more))) sent
        (mixed-length xs (d.frame ++ more)) (λ i le. in_time i (omega arith))
