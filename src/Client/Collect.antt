-- ===== src/Client/Collect.antt =====
-- internal/smpptest/client.go: the two loops that read deliver_sm PDUs and acknowledge them. Each
-- round reads a frame, so that the number of octets that arrive bounds the rounds.
pub mod Exact
use go_smsc_simulator.Common.{
  ℕ, zero, suc, ◌+◌, ◌≤◌, ◌≡◌, refl, ap, arith, ◌==◌, Bool, true, false, List, [], ◌∷◌, ◌++◌,
  length, length-append, append_assoc, append-nil, Option, none, some, ok, err, ◌⊎◌, inl, inr,
  if◌then◌else◌,
}
use go_smsc_simulator.Smpp.Commands.{deliver_sm}
use go_smsc_simulator.Smpp.Pdu.{Pdu}
use go_smsc_simulator.Smpp.Reader.{CodecError, timeout}
use go_smsc_simulator.Smpp.Encode.{encode, frame_of, body_octets}
use go_smsc_simulator.Smpp.Decode.{full_error, decode, read_pdu}
use go_smsc_simulator.Smpp.Decode.Framing.{read_pdu-encode, encode_announces}
use go_smsc_simulator.Smpp.Writer.{marshal, marshal_submit_resp}
use go_smsc_simulator.Smpp.WellFormed.{PduIsWf}
use go_smsc_simulator.Client.{
  Client, ◌>>=◌, ok_or_fatal, is_timeout, write, read_within, acknowledgement, acknowledge,
}

abbrev pub in_front : Pdu → Option (List Pdu × Client) → Option (List Pdu × Client)
in_front p none = none
in_front p (some (out, c)) = some (p ∷ out, c)

-- `DrainDeliverSMs`.
unfoldable pub drain_loop : ℕ → Client → Option (List Pdu × Client)
unfolding acknowledge
drain_loop zero c = none
drain_loop (suc fuel) c = elim (read_pdu c.incoming) [
  | err e ↦ if is_timeout e then some ([], c) else none
  | ok got ↦
      elim ((do p ← ok_or_fatal (decode (got.0)); acknowledge p (record c { incoming = got.1 }))) [
        | none ↦ none
        | some (p, c') ↦ in_front p (drain_loop fuel c')
      ]
]

unfoldable pub drain_deliver_sms : Client → Option (List Pdu × Client)
unfolding drain_loop
drain_deliver_sms c = drain_loop (suc (length c.incoming.arriving)) c

-- `CollectDeliverSMs`, which passes over what is not a deliver_sm. `expired` says after how many
-- rounds `time.Until` is no longer positive.
unfoldable pub collect_loop : (ℕ → Bool) → ℕ → ℕ → ℕ → Client → Option (List Pdu × Client)
unfolding read_within acknowledge
collect_loop expired round fuel zero c = some ([], c)
collect_loop expired round zero (suc count) c = none
collect_loop expired round (suc fuel) (suc count) c =
    elim (if expired round then none else read_within c) [
      | none ↦ none
      | some (p, c') ↦ elim (p.command_id == deliver_sm) [
        | true ↦ elim (acknowledge p c') [
          | none ↦ none
          | some (q, c'') ↦ in_front q (collect_loop expired (suc round) fuel count c'')
        ]
        | false ↦ collect_loop expired (suc round) fuel (suc count) c'
      ]
    ]

unfoldable pub collect_deliver_sms : (ℕ → Bool) → ℕ → Client → Option (List Pdu × Client)
unfolding collect_loop
collect_deliver_sms expired count c =
    collect_loop expired 0 (suc (length c.incoming.arriving)) count c
