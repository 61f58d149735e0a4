-- ===== src/Smpp/Commands.antt =====
-- internal/smpp/commands.go: command ids and command statuses, uint32 values.
use go_smsc_simulator.Common.{ℕ, ◌+◌, ◌/◌, ◌%◌, ◌^◌, ◌==◌, ◌<◌, Bool, not, if◌then◌else◌}

abbrev pub bind_receiver : ℕ
bind_receiver = 0x00000001

abbrev pub bind_transmitter : ℕ
bind_transmitter = 0x00000002

abbrev pub submit_sm : ℕ
submit_sm = 0x00000004

abbrev pub deliver_sm : ℕ
deliver_sm = 0x00000005

abbrev pub unbind : ℕ
unbind = 0x00000006

abbrev pub bind_transceiver : ℕ
bind_transceiver = 0x00000009

abbrev pub enquire_link : ℕ
enquire_link = 0x00000015

abbrev pub generic_nack : ℕ
generic_nack = 0x80000000

abbrev pub bind_receiver_resp : ℕ
bind_receiver_resp = 0x80000001

abbrev pub bind_transmitter_resp : ℕ
bind_transmitter_resp = 0x80000002

abbrev pub submit_sm_resp : ℕ
submit_sm_resp = 0x80000004

abbrev pub deliver_sm_resp : ℕ
deliver_sm_resp = 0x80000005

abbrev pub unbind_resp : ℕ
unbind_resp = 0x80000006

abbrev pub bind_transceiver_resp : ℕ
bind_transceiver_resp = 0x80000009

abbrev pub enquire_link_resp : ℕ
enquire_link_resp = 0x80000015

abbrev pub response_bit : ℕ
response_bit = 0x80000000

abbrev pub IsU32 : ℕ → Type 0
IsU32 n = n < 2 ^ 32

-- `c & responseBit != 0`: bit 31 of a uint32.
unfoldable pub is_response : ℕ → Bool
is_response c = not (c / response_bit % 2 == 0)

-- `c | responseBit`: bit 31 of a uint32, set.
unfoldable pub response : ℕ → ℕ
unfolding is_response
response c = if is_response c then c else c + response_bit

abbrev pub status_rok : ℕ
status_rok = 0x00000000

abbrev pub status_inv_msg_len : ℕ
status_inv_msg_len = 0x00000001

abbrev pub status_inv_cmd_len : ℕ
status_inv_cmd_len = 0x00000002

abbrev pub status_inv_cmd_id : ℕ
status_inv_cmd_id = 0x00000003

abbrev pub status_inv_bnd_sts : ℕ
status_inv_bnd_sts = 0x00000004

abbrev pub status_sys_err : ℕ
status_sys_err = 0x00000008

abbrev pub status_inv_src_adr : ℕ
status_inv_src_adr = 0x0000000A

abbrev pub status_inv_dst_adr : ℕ
status_inv_dst_adr = 0x0000000B

abbrev pub status_bind_fail : ℕ
status_bind_fail = 0x0000000D

abbrev pub status_msg_q_ful : ℕ
status_msg_q_ful = 0x00000014

abbrev pub status_submit_fail : ℕ
status_submit_fail = 0x00000045

abbrev pub status_throttled : ℕ
status_throttled = 0x00000058
