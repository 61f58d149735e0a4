-- ===== src/Client/Talk.antt =====
-- A client and a session: the answer to a request passes the client's check.
use go_smsc_simulator.Common.{
  ℕ, suc, ◌+◌, ◌%◌, ◌^◌, ◌≡◌, refl, sym, ap, subst, ◌∙◌, arith, ◌==◌, true, false, List, [], ◌∷◌,
  ◌++◌, length, get_elem?, none, some, ok, Result-cases, inl, inr, ◌⊎◌,
}
use go_smsc_simulator.Rng.{Rand}
use go_smsc_simulator.Smpp.Commands.{IsU32, submit_sm, generic_nack, response, is_response}
use go_smsc_simulator.Smpp.Pdu.{Pdu}
use go_smsc_simulator.Smpp.Writer.{put_u32}
use go_smsc_simulator.Smpp.Reader.{CodecError, ◌>>=◌, return}
use go_smsc_simulator.Smpp.Encode.{encode, frame_of, header_len, body_octets}
use go_smsc_simulator.Smpp.Decode.{Stream, first, decode, decode_fields, decode_body, read_pdu}
use go_smsc_simulator.Smpp.Decode.RoundTrip.{
  decode-encode, >>=-ok, read_u32-put_u32, encode-ok, decode-long,
}
use go_smsc_simulator.Smpp.Decode.Framing.{encode_announces, read_pdu_announced}
use go_smsc_simulator.Smpp.WellFormed.{PduIsWf}
use go_smsc_simulator.Smsc.Session.{Env, World, Output, kind_resp, encode_pdu}
use go_smsc_simulator.Smsc.ReadLoop.{handle_frame}
use go_smsc_simulator.Smsc.Answers.{Reply, Fits}
use go_smsc_simulator.Smsc.Answers.Pdus.{handle-Answers}
use go_smsc_simulator.Smsc.Engine.Invariant.{All-get_elem?}
use go_smsc_simulator.Client.{Client, is_answer, round_trip}

-- Behind the four header fields stands the body, whatever it is.
decode_fields_head :
    (total id status seq : ℕ) (r : List ℕ)
    → IsU32 total
    → IsU32 id
    → IsU32 status
    → IsU32 seq
    → decode_fields (put_u32 total ++ (put_u32 id ++ (put_u32 status ++ (put_u32 seq ++ r))))
      ≡ (decode_body id >>= λ body. return (record {
        command_id = id;
        command_status = status;
        sequence_number = seq;
        body = body;
      }))
          r
unfolding decode_fields
decode_fields_head total id status seq r ht hi hst hs =
    >>=-ok _ _ _ (read_u32-put_u32 total _ ht)
    ∙ >>=-ok _ _ _ (read_u32-put_u32 id _ hi)
    ∙ >>=-ok _ _ _ (read_u32-put_u32 status _ hst)
    ∙ >>=-ok _ _ _ (read_u32-put_u32 seq _ hs)

put_u32_mod : (n : ℕ) → put_u32 n ≡ put_u32 (n % 2 ^ 32)
put_u32_mod n = ground arith

-- What a PDU is decoded from has its command and its sequence number, whatever its body.
head_kept :
    (id status seq : ℕ) (r : List ℕ) (q : Pdu)
    → first (
        (decode_body id >>= λ body.
        return
          (record { command_id = id; command_status = status; sequence_number = seq; body = body }))
          r)
      ≡ ok q
    → (q.command_id ≡ id) × (q.sequence_number ≡ seq)
unfolding ◌>>=◌
head_kept id status seq r q h = elim (Result-cases (decode_body id r)) [
  | inl ((body, left), e) ↦ ground arith
  | inr (x, e) ↦ absurd (ground arith)
]

decode_head :
    (q r : Pdu) (frame : List ℕ)
    → IsU32 q.command_id
    → IsU32 q.sequence_number
    → encode q ≡ ok frame
    → decode frame ≡ ok r
    → (r.command_id ≡ q.command_id) × (r.sequence_number ≡ q.sequence_number)
unfolding frame_of
decode_head q r frame hc hs e d =
    let (shown, fits) = encode-ok q e in
    let (lo, _, _) = encode_announces q frame [] e in
    let status = q.command_status % 2 ^ 32 in
    let total = header_len + length (body_octets q.body) in
    let head =
      decode_fields_head total q.command_id status q.sequence_number (body_octets q.body ++ [])
        (omega arith) hc (omega arith) hs in
    head_kept q.command_id status q.sequence_number (body_octets q.body ++ []) r (
      sym (
        decode-long frame lo
        ∙ ap first (
            ap decode_fields (
              shown
              ∙ ap
                  (λ z.
                    put_u32 total
                    ++ (put_u32 q.command_id
                        ++ (z ++ (put_u32 q.sequence_number ++ (body_octets q.body ++ [])))))
                  (put_u32_mod q.command_status))
            ∙ head))
      ∙ d)

module _ {ℓ} {A : Type ℓ} where
  get_elem?-behind :
      (xs ys : List A) (i : ℕ) → get_elem? (xs ++ ys) (length xs + i) ≡ get_elem? ys i
  get_elem?-behind [] ys i = ap (get_elem? ys) (omega arith)
  get_elem?-behind (x ∷ xs) ys i =
      ap (get_elem? (x ∷ xs ++ ys)) {y = suc (length xs + i)} (omega arith)
      ∙ get_elem?-behind xs ys i

response-IsU32 : (c : ℕ) → IsU32 c → IsU32 (response c)
unfolding response is_response
response-IsU32 c h = ground arith

-- The answer is the client's, if its command and its sequence number are.
is_answer_lem :
    (p r : Pdu)
    → r.sequence_number ≡ p.sequence_number
    → (r.command_id ≡ response p.command_id) ⊎ (r.command_id ≡ generic_nack)
    → is_answer p r ≡ true
unfolding is_answer
is_answer_lem p r s c = ground arith

command_in_range :
    (q : Pdu) (c : ℕ)
    → IsU32 c
    → (q.command_id ≡ response c) ⊎ (q.command_id ≡ generic_nack)
    → IsU32 q.command_id
command_in_range q c h (inl e) = omega (arith, response-IsU32 c h)
command_in_range q c h (inr e) = omega arith

either_command : {a b c : ℕ} → (b ≡ c) ⊎ (b ≡ generic_nack) → a ≡ b → (a ≡ c) ⊎ (a ≡ generic_nack)
either_command (inl e) h = inl (h ∙ e)
either_command (inr e) h = inr (h ∙ e)

-- A reply that is not malformed on purpose, and can be decoded, is read as the answer.
taken_back :
    (p r : Pdu) (b : List ℕ)
    → PduIsWf p
    → Reply false p.sequence_number (response p.command_id) b
    → decode b ≡ ok r
    → is_answer p r ≡ true
      × ((more : List ℕ) (ending : CodecError)
          → read_pdu (record { arriving = b ++ more; ending = ending })
            ≡ ok (b, record { arriving = more; ending = ending }))
unfolding encode_pdu
taken_back p r b wf (q, some kind, e, plain, s, c) d = absurd (cc (plain refl))
taken_back p r b wf (q, none, e, plain, s, c) d = elim (Result-cases (encode q)) [
  | inr (x, bad) ↦ absurd (ground arith)
  | inl (frame, enc) ↦
      let same : encode q ≡ ok b = ground arith in
      let hc : IsU32 q.command_id = command_in_range q p.command_id wf.command_id c in
      let hs : IsU32 q.sequence_number = omega (arith, s, wf.sequence_number) in
      let (command, seq) = decode_head q r b hc hs same d in
      (
        is_answer_lem p r (seq ∙ s) (either_command c command),
        λ more ending.
            let (lo, hi, said) = encode_announces q b more same in
            read_pdu_announced b more ending lo hi said,
      )
]

round_trip_reads :
    (c : Client) (p r : Pdu) (b answer : List ℕ) (s : Stream)
    → encode p ≡ ok b
    → read_pdu c.incoming ≡ ok (answer, s)
    → decode answer ≡ ok r
    → is_answer p r ≡ true
    → round_trip p c ≡ some (r, record c { incoming = s; sent = c.sent ++ b ∷ [] })
unfolding round_trip
round_trip_reads c p r b answer s e got d a = rw (e, got, d, a) refl

module _ (R : Rand) where
  open R use {Source, Float}

  -- What a client makes of the answer of a session, in whatever state and under whatever scenario:
  -- if it sends a well-formed PDU other than submit_sm and the session handles that frame, then each
  -- response that the session queues for it and that can be decoded is taken by round_trip as the
  -- answer to the request, and the octets behind it are left.
  pub round_trip-handle :
      (env : Env Source) (w : World Source Float) (c : Client) (p r : Pdu) (b more : List ℕ)
      (ending : CodecError) (i : ℕ) (o : Output)
      → PduIsWf p
      → (p.command_id == submit_sm) ≡ false
      → encode p ≡ ok b
      → get_elem? (handle_frame R env b (decode b) w).out (length w.out + i) ≡ some o
      → o.kind ≡ kind_resp
      → decode o.bytes ≡ ok r
      → c.incoming ≡ record { arriving = o.bytes ++ more; ending = ending }
      → round_trip p c
        ≡ some (
          r,
          record c {
            incoming = record { arriving = more; ending = ending };
            sent = c.sent ++ b ∷ [];
          },
        )
  round_trip-handle env w c p r b more ending i o wf other e at resp d arrives =
      let a = handle-Answers R env p w in
      let queued : get_elem? a.queued i ≡ some o =
        sym (get_elem?-behind w.out a.queued i)
        ∙ (ap (λ z. get_elem? z (length w.out + i)) (sym a.behind)
            ∙ (ap (λ f. get_elem? (handle_frame R env b f w).out (length w.out + i))
                  (sym (decode-encode p b wf e))
                ∙ at)) in
      let fits =
        All-get_elem? (λ (x : Output). Fits _ p.sequence_number _ x.kind x.bytes) a.queued i o
          a.fitting queued in
      let reply =
        subst (λ k. Fits false p.sequence_number (response p.command_id) k o.bytes) resp
          (subst (λ edges. Fits edges p.sequence_number (response p.command_id) o.kind o.bytes)
            other fits) in
      let (answers, reads) = taken_back p r o.bytes wf reply d in
      round_trip_reads c p r b o.bytes _ e (ap read_pdu arrives ∙ reads more ending) d answers
