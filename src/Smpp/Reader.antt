-- ===== src/Smpp/Reader.antt =====
-- internal/smpp/codec.go, `reader`: the cursor over a frame is the list of the octets from `pos`
-- on, so `r.pos+n > len(r.b)` reads "fewer than n octets are left". An accessor returns its value
-- and the octets that it left, or the error.
use go_smsc_simulator.Common.{
  ℕ, zero, suc, ◌+◌, ◌*◌, ◌^◌, ◌==◌, ltb, List, [], ◌∷◌, length, take, drop, if◌then◌else◌, Result,
  ok, err,
}
use go_smsc_simulator.Smpp.Pdu.{Tlv}

-- The sentinel errors, and the transport errors that ReadPDU passes on.
pub data CodecError : Type 0 where
  short_pdu bad_command_length truncated unterminated unknown_command bad_short_message
        too_many_tlvs partial_frame :
      CodecError
  eof unexpected_eof timeout transport : CodecError

abbrev pub Read : Type 0 → Type 0
Read A = List ℕ → Result CodecError (A × List ℕ)

infixl 5 ◌>>=◌
unfoldable pub ◌>>=◌ : {A B : Type 0} → Read A → (A → Read B) → Read B
◌>>=◌ m f r = elim (m r) [ ok (a, r') ↦ f a r' | err e ↦ err e ]

abbrev pub return : {A : Type 0} → A → Read A
return a r = ok (a, r)

abbrev pub fail : {A : Type 0} → CodecError → Read A
fail e r = err e

abbrev pub max_c_octet_len : ℕ
max_c_octet_len = 256

abbrev pub max_tlvs : ℕ
max_tlvs = 64

unfoldable pub remaining : List ℕ → ℕ
remaining r = length r

unfoldable pub read_byte : Read ℕ
read_byte [] = err truncated
read_byte (b ∷ r) = ok (b, r)

unfoldable pub read_u16 : Read ℕ
read_u16 (a ∷ b ∷ r) = ok (a * 2 ^ 8 + b, r)
read_u16 _ = err truncated

unfoldable pub read_u32 : Read ℕ
read_u32 (a ∷ b ∷ c ∷ d ∷ r) = ok (a * 2 ^ 24 + b * 2 ^ 16 + c * 2 ^ 8 + d, r)
read_u32 _ = err truncated

abbrev pub push : ℕ → Result CodecError (List ℕ × List ℕ) → Result CodecError (List ℕ × List ℕ)
push b (ok (s, r)) = ok (b ∷ s, r)
push b (err e) = err e

-- The scan for the terminator, over the octets that the limit still allows.
unfoldable pub scan : ℕ → Read (List ℕ)
scan zero r = err unterminated
scan (suc n) [] = err unterminated
scan (suc n) (b ∷ r) = if b == 0 then ok ([], r) else push b (scan n r)

unfoldable pub read_c_octet_string : Read (List ℕ)
read_c_octet_string r = scan max_c_octet_len r

unfoldable pub read_octets : ℕ → Read (List ℕ)
read_octets n r = if ltb (length r) n then err truncated else ok (take n r, drop n r)

-- One tag, length and value.
unfoldable pub read_tlv : Read Tlv
read_tlv = do
  tag ← read_u16
  len ← read_u16
  value ← read_octets len
  return (record { tag = tag; value = value })

-- The loop of `tlvs`; `count` is `len(out)`. Each round takes four octets at least, so the
-- octets left bound the rounds.
unfoldable pub tlvs_loop : ℕ → ℕ → Read (List Tlv)
tlvs_loop fuel count [] = ok ([], [])
tlvs_loop zero count (b ∷ r) = err truncated
tlvs_loop (suc fuel) count (b ∷ r) =
    if ltb (length (b ∷ r)) 4
    then err truncated
    else if count == max_tlvs
    then err too_many_tlvs
    else (do t ← read_tlv; ts ← tlvs_loop fuel (count + 1); return (t ∷ ts)) (b ∷ r)

unfoldable pub read_tlvs : Read (List Tlv)
read_tlvs r = tlvs_loop (length r) 0 r
