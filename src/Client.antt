-- ===== src/Client.antt =====
-- internal/smpptest/client.go: the client that drives the server in tests. `none` is t.Fatalf, which
-- ends the test. The connection is the octets that arrive with the way they end, a deadline included,
-- and the frames that were written, which the socket is taken to accept. Dial, TLS and SubmitRaw are
-- left out.
pub mod Talk
pub mod Collect
use go_smsc_simulator.Common.{
  ℕ, ◌+◌, ◌%◌, ◌^◌, ◌==◌, Bool, true, false, not, ◌&&◌, ◌||◌, List, [], ◌∷◌, ◌++◌, if◌then◌else◌,
  Option, none, some, Result, ok, err,
}
use go_smsc_simulator.Smpp.Commands.{
  submit_sm, bind_transmitter, bind_transceiver, enquire_link, unbind, deliver_sm, deliver_sm_resp,
  generic_nack, response, status_rok,
}
use go_smsc_simulator.Smpp.Pdu.{Message, Body, Pdu, bind, message, submit_resp}
use go_smsc_simulator.Smpp.Reader.{CodecError, timeout}
use go_smsc_simulator.Smpp.Encode.{encode}
use go_smsc_simulator.Smpp.Decode.{Stream, decode, read_pdu}

pub record Client : Type 0 where
  pub seq : ℕ
  pub incoming : Stream
  pub sent : List (List ℕ)

infixl 5 ◌>>=◌
abbrev pub ◌>>=◌ : {A B : Type 0} → Option A → (A → Option B) → Option B
none >>= f = none
some a >>= f = f a

-- `nextSeq`, whose result is the new `seq`.
abbrev pub next_seq : Client → Client
next_seq c = record c { seq = (c.seq + 1) % 2 ^ 32 }

abbrev pub ok_or_fatal {ℓ} : {E : Type 0} {A : Type ℓ} → Result E A → Option A
ok_or_fatal (ok a) = some a
ok_or_fatal (err e) = none

unfoldable pub write : Pdu → Client → Option Client
write p c = do b ← ok_or_fatal (encode p); some (record c { sent = c.sent ++ b ∷ [] })

-- `read`, `Read` and `ReadWithin`, which differ in their deadlines.
unfoldable pub read_within : Client → Option (Pdu × Client)
read_within c = do
  got ← ok_or_fatal (read_pdu c.incoming)
  p ← ok_or_fatal (decode (got.0))
  some (p, record c { incoming = got.1 })

unfoldable pub is_answer : Pdu → Pdu → Bool
is_answer req resp = not (
    not (resp.sequence_number == req.sequence_number)
    || not (resp.command_id == response req.command_id) && not (resp.command_id == generic_nack))

unfoldable pub round_trip : Pdu → Client → Option (Pdu × Client)
unfolding write read_within is_answer
round_trip req c = do
  c' ← write req c
  got ← read_within c'
  if is_answer req got.0 then some got else none

abbrev pub request : ℕ → Option Body → Client → Pdu
request command body c = record {
  command_id = command;
  command_status = 0;
  sequence_number = c.seq;
  body = body;
}

abbrev pub credentials : List ℕ → List ℕ → Option Body
credentials system_id password = some (
    bind (record {
      system_id = system_id;
      password = password;
      system_type = [];
      interface_version = 0x34;
      addr_ton = 0;
      addr_npi = 0;
      address_range = [];
    }))

abbrev pub bind_with : ℕ → List ℕ → List ℕ → Client → Option (Pdu × Client)
bind_with command system_id password c =
    let c' = next_seq c in round_trip (request command (credentials system_id password) c') c'

unfoldable pub bind_as_transceiver : List ℕ → List ℕ → Client → Option (Pdu × Client)
unfolding round_trip
bind_as_transceiver system_id password c = bind_with bind_transceiver system_id password c

unfoldable pub bind_as_transmitter : List ℕ → List ℕ → Client → Option (Pdu × Client)
unfolding round_trip
bind_as_transmitter system_id password c = bind_with bind_transmitter system_id password c

abbrev pub text_message : List ℕ → List ℕ → List ℕ → Option Body
text_message source dest text = some (
    message (record {
      service_type = [];
      source_addr_ton = 1;
      source_addr_npi = 1;
      source_addr = source;
      dest_addr_ton = 1;
      dest_addr_npi = 1;
      dest_addr = dest;
      esm_class = 0;
      protocol_id = 0;
      priority_flag = 0;
      schedule_delivery_time = [];
      validity_period = [];
      registered_delivery = 0;
      replace_if_present = 0;
      data_coding = 0;
      sm_default_msg_id = 0;
      short_message = text;
      tlvs = [];
    }))

unfoldable pub submit : List ℕ → List ℕ → List ℕ → Client → Option (Pdu × Client)
unfolding round_trip
submit source dest text c =
    let c' = next_seq c in round_trip (request submit_sm (text_message source dest text) c') c'

unfoldable pub submit_status : List ℕ → List ℕ → List ℕ → Client → Option (ℕ × Client)
unfolding submit
submit_status source dest text c = do
  got ← submit source dest text c
  some ((got.0).command_status, got.1)

unfoldable pub submit_async : List ℕ → List ℕ → List ℕ → Client → Option (ℕ × Client)
unfolding write
submit_async source dest text c = do
  c' ← write (request submit_sm (text_message source dest text) (next_seq c)) (next_seq c)
  some (c'.seq, c')

unfoldable pub enquire : Client → Option (Pdu × Client)
unfolding round_trip
enquire c = let c' = next_seq c in round_trip (request enquire_link none c') c'

unfoldable pub unbind_session : Client → Option (Pdu × Client)
unfolding round_trip
unbind_session c = let c' = next_seq c in round_trip (request unbind none c') c'

-- `errors.As(err, &ne) && ne.Timeout()`
abbrev pub is_timeout : CodecError → Bool
is_timeout timeout = true
is_timeout _ = false

unfoldable pub expect_no_response : Client → Option Client
expect_no_response c = elim (read_pdu c.incoming) [
  | ok got ↦ none
  | err e ↦ if is_timeout e then some c else none
]

unfoldable pub expect_closed : Client → Option Client
expect_closed c = elim (read_pdu c.incoming) [
  | ok got ↦ none
  | err e ↦ if is_timeout e then none else some c
]

unfoldable pub closed_within : Client → Bool × Client
closed_within c = elim (read_pdu c.incoming) [
  | ok got ↦ (false, record c { incoming = got.1 })
  | err e ↦ (not (is_timeout e), c)
]

abbrev pub acknowledgement : Pdu → Pdu
acknowledgement p = record {
  command_id = deliver_sm_resp;
  command_status = status_rok;
  sequence_number = p.sequence_number;
  body = some (submit_resp (record { message_id = [] }));
}

-- A deliver_sm is acknowledged, and any other PDU is fatal.
unfoldable pub acknowledge : Pdu → Client → Option (Pdu × Client)
unfolding write
acknowledge p c =
    if p.command_id == deliver_sm then (do c' ← write (acknowledgement p) c; some (p, c')) else none

unfoldable pub read_deliver_sm : Client → Option (Pdu × Client)
unfolding read_within acknowledge
read_deliver_sm c = do got ← read_within c; acknowledge got.0 got.1
