-- ===== src/Runs/Links.antt =====
-- Runs of a session's link: a submit's responses, a failed write, and teardown.
use go_smsc_simulator.Common.{
  ℕ, ◌+◌, ◌≤◌, ◌≡◌, refl, true, false, List, [], ◌∷◌, ◌++◌, length, Option, none, some,
}
use go_smsc_simulator.Smsc.CloseReason.{client_eof, write_timeout, write_failure}
use go_smsc_simulator.Smsc.Session.{kind_resp}
use go_smsc_simulator.Smsc.Writer.{
  Packet, Link, new_link, LinkEvent, read_send, read_hold, read_end, closer_leave, ready, cancel,
  enter, refuse, take, count_down, write, stop_deferred, close_outbound, drain, finish, write_fail,
  the_reader, deferred, stopping, pick_out, leave, enter_queue, refuse_packet, take_packet,
  count_packet, done_packet, step, run, pdus_dropped, closing_reason, is_ended,
}
use go_smsc_simulator.Smsc.Writer.Accounts.{in_hand, uncounted, handed, in_send}
use go_smsc_simulator.Smsc.Writer.Delivery.{run_channel, run_accounts}
use go_smsc_simulator.Smsc.Writer.Teardown.{work, CanEnd, teardown_bound, teardown_ends}
use go_smsc_simulator.Smsc.Writer.Cause.{closing_reason-first}

abbrev packet : ℕ → Packet
packet n = record { bytes = n ∷ []; kind = kind_resp }

-- One written, one whose write times out, one left behind, one refused and one cancelled.
abbrev failing : List LinkEvent
failing =
    read_send (packet 1)
    ∷ enter the_reader
    ∷ take
    ∷ count_down
    ∷ write
    ∷ read_hold (packet 2)
    ∷ read_hold (packet 3)
    ∷ ready 0
    ∷ enter (deferred 0)
    ∷ read_send (packet 4)
    ∷ enter the_reader
    ∷ take
    ∷ count_down
    ∷ write_fail true
    ∷ read_send (packet 5)
    ∷ refuse the_reader
    ∷ read_end
    ∷ []

abbrev torn : List LinkEvent
torn =
    closer_leave
    ∷ stop_deferred
    ∷ cancel 0
    ∷ close_outbound
    ∷ take
    ∷ count_down
    ∷ drain
    ∷ finish
    ∷ []

abbrev or_new : Option Link → Link
or_new none = new_link
or_new (some l) = l

abbrev broken : Link
broken = or_new (run failing new_link)

abbrev over : Link
over = or_new (run torn broken)

broken_reached : run failing new_link ≡ some broken
unfolding run step leave enter_queue refuse_packet take_packet count_packet done_packet pick_out
broken_reached = refl

torn_reached : run torn broken ≡ some over
unfolding run step leave enter_queue refuse_packet take_packet count_packet done_packet pick_out
torn_reached = refl

over_reached : run (failing ++ torn) new_link ≡ some over
unfolding run step leave enter_queue refuse_packet take_packet count_packet done_packet pick_out
over_reached = refl

over_ended : is_ended over.phase ≡ true
unfolding run step leave enter_queue refuse_packet take_packet count_packet done_packet pick_out
over_ended = refl

broken_torn : broken.phase ≡ stopping
unfolding run step leave enter_queue refuse_packet take_packet count_packet done_packet pick_out
broken_torn = refl

-- One PDU is with the writer, and the next is in the channel.
abbrev in_flight : List LinkEvent
in_flight =
    read_send (packet 1) ∷ enter the_reader ∷ take ∷ read_send (packet 2) ∷ enter the_reader ∷ []

abbrev busy : Link
busy = or_new (run in_flight new_link)

busy_reached : run in_flight new_link ≡ some busy
unfolding run step leave enter_queue refuse_packet take_packet count_packet done_packet pick_out
busy_reached = refl

run_channel_example :
    (busy.entered ≡ busy.written ++ busy.lost ++ in_hand busy.hand ++ busy.queue)
    × (busy.depth_up ≡ busy.depth_down + uncounted busy.hand + length busy.queue + in_send busy)
    × (busy.sent_on_closed ≡ false)
run_channel_example = run_channel in_flight busy busy_reached

run_accounts_example :
    (handed (failing ++ torn) ≡ length over.written + pdus_dropped over + length over.cancelled)
    × (over.depth_up ≡ over.depth_down)
    × (over.writing ≡ false)
run_accounts_example = run_accounts (failing ++ torn) over over_reached over_ended

teardown_bound_example : length torn + work over ≤ work broken
unfolding run step leave enter_queue refuse_packet take_packet count_packet done_packet pick_out
teardown_bound_example = teardown_bound torn broken over refl torn_reached

teardown_ends_example : CanEnd broken
unfolding run step leave enter_queue refuse_packet take_packet count_packet done_packet pick_out
teardown_ends_example = teardown_ends broken refl

closing_reason-first_example : closing_reason (some client_eof) over ≡ write_timeout
unfolding write_failure
closing_reason-first_example =
    closing_reason-first (failing ++ torn) over (some client_eof) over_reached over_ended
