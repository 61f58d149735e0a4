-- ===== src/Smpp/Decode/Framing.antt =====
-- `ReadPDU` over a stream: where a frame is cut, what is left behind it, and which errors it gives.
use go_smsc_simulator.Common.{
  ℕ, ◌+◌, ◌-◌, ◌≤◌, ◌≡◌, ◌≢◌, arith, List, [], ◌++◌, length, length-append, length-take,
  length-drop, take, drop, take-append-drop, take-append_le, drop-append_le, take-append_length,
  drop-append_length, append_assoc, ok, err,
}
use go_smsc_simulator.Smpp.Pdu.{Pdu}
use go_smsc_simulator.Smpp.Reader.{CodecError, timeout}
use go_smsc_simulator.Smpp.Encode.{encode, header_len, max_pdu_len, u32_of, frame_of, body_octets}
use go_smsc_simulator.Smpp.Decode.{Stream, full_error, partial, read_rest, read_pdu, decode}
use go_smsc_simulator.Smpp.WellFormed.{PduIsWf}
use go_smsc_simulator.Smpp.Decode.RoundTrip.{decode-encode, encode-ok}

partial-ne-timeout : (e : CodecError) → partial e ≢ timeout
unfolding partial
partial-ne-timeout CodecError.unexpected_eof h = cc
partial-ne-timeout CodecError.eof h = cc
partial-ne-timeout e h = cc

read_rest-ne-timeout : (s : Stream) (len : ℕ) → read_rest s len ≢ err timeout
unfolding read_rest
read_rest-ne-timeout s len h =
    ground (arith, partial-ne-timeout (full_error (length (drop 4 s.arriving)) s.ending))

-- A deadline surfaces as a timeout only when not one octet of a frame was taken.
read_pdu-timeout : (s : Stream) → read_pdu s ≡ err timeout → s.arriving ≡ []
unfolding read_pdu
read_pdu-timeout s h = ground (
  arith,
  partial-ne-timeout (full_error (length s.arriving) s.ending),
  read_rest-ne-timeout s (u32_of s.arriving),
)

cut : (n k : ℕ) (xs : List ℕ) → (take n xs ++ take k (drop n xs)) ++ drop k (drop n xs) ≡ xs
cut n k xs =
    rw
      (
        append_assoc (take n xs) (take k (drop n xs)) (drop k (drop n xs)),
        take-append-drop k (drop n xs),
      )
      (take-append-drop n xs)

length-cut :
    (n k : ℕ) (xs : List ℕ)
    → n ≤ length xs
    → k ≤ length (drop n xs)
    → length (take n xs ++ take k (drop n xs)) ≡ n + k
length-cut n k xs h h' = omega (
  arith,
  length-append (take n xs) (take k (drop n xs)),
  length-take n xs,
  length-take k (drop n xs),
)

-- A frame that was read is a prefix of the stream, and has the length that its first field says,
-- between the bounds.
pub read_pdu-ok :
    (s left : Stream) (frame : List ℕ)
    → read_pdu s ≡ ok (frame, left)
    → (s.arriving ≡ frame ++ left.arriving)
      × (left.ending ≡ s.ending)
      × (length frame ≡ u32_of s.arriving)
      × (header_len ≤ length frame)
      × (length frame ≤ max_pdu_len)
unfolding read_pdu read_rest
read_pdu-ok s left frame h = ground (
  arith,
  cut 4 (u32_of s.arriving - 4) s.arriving,
  length-cut 4 (u32_of s.arriving - 4) s.arriving,
  length-drop 4 s.arriving,
)

-- What announces its own length is read whole, whatever follows.
pub read_pdu_announced :
    (frame more : List ℕ) (ending : CodecError)
    → header_len ≤ length frame
    → length frame ≤ max_pdu_len
    → u32_of (frame ++ more) ≡ length frame
    → read_pdu (record { arriving = frame ++ more; ending = ending })
      ≡ ok (frame, record { arriving = more; ending = ending })
unfolding read_pdu read_rest
read_pdu_announced frame more ending lo hi said = ground (
  arith,
  length-append frame more,
  length-drop 4 frame,
  length-append (drop 4 frame) more,
  take-append_le 4 frame more,
  drop-append_le 4 frame more,
  take-append_length (drop 4 frame) more,
  drop-append_length (drop 4 frame) more,
  take-append-drop 4 frame,
)

pub encode_announces :
    (p : Pdu) (frame more : List ℕ)
    → encode p ≡ ok frame
    → (header_len ≤ length frame)
      × (length frame ≤ max_pdu_len)
      × (u32_of (frame ++ more) ≡ length frame)
encode_announces p frame more e =
    let (shown, fits) = encode-ok p e in rw shown (header (body_octets p.body) fits)
  where
    header :
        (body : List ℕ)
        → header_len + length body ≤ max_pdu_len
        → (header_len ≤ length (frame_of p (header_len + length body) body))
          × (length (frame_of p (header_len + length body) body) ≤ max_pdu_len)
          × (u32_of (frame_of p (header_len + length body) body ++ more)
              ≡ length (frame_of p (header_len + length body) body))
    header body fits =
        unfold frame_of in
        (
          omega (arith, length-append body []),
          omega (arith, length-append body []),
          omega (arith, length-append body []),
        )

-- The frames of a stream are read one after another: an encoded PDU in front of any octets is
-- read whole, it is decoded to that PDU, and the octets behind it are left.
pub read_pdu-encode :
    (p : Pdu) (frame more : List ℕ) (ending : CodecError)
    → PduIsWf p
    → encode p ≡ ok frame
    → (read_pdu (record { arriving = frame ++ more; ending = ending })
        ≡ ok (frame, record { arriving = more; ending = ending }))
      × (decode frame ≡ ok p)
read_pdu-encode p frame more ending w e =
    let (lo, hi, said) = encode_announces p frame more e in
    (read_pdu_announced frame more ending lo hi said, decode-encode p frame w e)
