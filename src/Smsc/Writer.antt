-- ===== src/Smsc/Writer.antt =====
-- internal/smsc/session.go: the goroutines around a session's outbound channel, and its teardown.
-- `Link` is what they share: the read goroutine, the goroutines that hold a response back, the
-- closer, and the writer. An event is one atomic action of one of them; `step` is undefined where
-- the goroutine blocks. A goroutine in sendBytes has counted the depth, and waits in its select.
pub mod Accounts
pub mod Senders
pub mod Takes
pub mod Delivery
pub mod Teardown
pub mod Cause
use go_smsc_simulator.Common.{
  ℕ, zero, suc, ◌+◌, ltb, ◌==◌, Bool, true, false, not, ◌&&◌, ◌||◌, List, [], ◌∷◌, ◌++◌, length,
  Option, none, some, if◌then◌else◌, codes,
}
use go_smsc_simulator.Smsc.CloseReason.{CloseReason, panic, write_failure}
use go_smsc_simulator.Smsc.Session.{Kind}

-- `outboundPDU`
pub record Packet : Type 0 where
  pub bytes : List ℕ
  pub kind : Kind

-- How far the teardown is: `done` closed, `stopDeferred` closed, `outbound` closed, and recorded.
pub data Phase : Type 0 where
  reading stopping cancelling draining ended : Phase

pub data Closer : Type 0 where
  closer_idle : Closer
  closer_sending : Packet → Closer
  closer_gone : Closer

-- The packet that the loop over the channel has taken out: before the gauge goes down, and behind it.
pub data Hand : Type 0 where
  empty_hand : Hand
  took counted : Packet → Hand

-- `held` and `sending` are the goroutines of sendWhen, before and after `ready`. The lists from
-- `entered` on are a history: what entered the channel, and what was written, lost in a channel that
-- the writer left, refused by sendBytes, or cancelled. `hand` is of the one loop over the channel that
-- runs: the writer's, and teardown's behind it. An error of the writer is whether it is a timeout.
-- `write` is the return of a write, `write_fail` the closing of writerClosed behind a failed one, and
-- `refuse` the lowering of the gauge.
pub record Link : Type 0 where
  pub queue : List Packet
  pub hand : Hand
  pub reader : Option Packet
  pub closer : Closer
  pub held : List Packet
  pub sending : List Packet
  pub phase : Phase
  pub writing : Bool
  pub write_error : Option Bool
  pub sent_on_closed : Bool
  pub depth_up : ℕ
  pub depth_down : ℕ
  pub writer_failed_first : Bool
  pub queue_depth : ℕ
  pub entered : List Packet
  pub written : List Packet
  pub lost : List Packet
  pub refused : List Packet
  pub cancelled : List Packet

abbrev pub outbound_capacity : ℕ
outbound_capacity = 8

abbrev pub new_link : Link
new_link = record {
  queue = [];
  hand = empty_hand;
  reader = none;
  closer = closer_idle;
  held = [];
  sending = [];
  phase = reading;
  writing = true;
  write_error = none;
  sent_on_closed = false;
  depth_up = 0;
  depth_down = 0;
  writer_failed_first = false;
  queue_depth = 0;
  entered = [];
  written = [];
  lost = [];
  refused = [];
  cancelled = [];
}

pub data Sender : Type 0 where
  the_reader the_closer : Sender
  deferred : ℕ → Sender

pub data LinkEvent : Type 0 where
  read_send read_hold quit_unbind : Packet → LinkEvent
  read_end closer_leave : LinkEvent
  ready cancel : ℕ → LinkEvent
  enter refuse : Sender → LinkEvent
  take count_down write writer_leave stop_deferred close_outbound drain finish : LinkEvent
  write_fail : Bool → LinkEvent

abbrev pub is_reading : Phase → Bool
is_reading reading = true
is_reading p = false

abbrev pub is_stopping : Phase → Bool
is_stopping stopping = true
is_stopping p = false

abbrev pub is_cancelling : Phase → Bool
is_cancelling cancelling = true
is_cancelling p = false

abbrev pub is_draining : Phase → Bool
is_draining draining = true
is_draining p = false

abbrev pub is_ended : Phase → Bool
is_ended ended = true
is_ended p = false

-- Whether close(s.outbound) has run.
abbrev pub outbound_closed : Phase → Bool
outbound_closed p = is_draining p || is_ended p

abbrev pub has_left : Closer → Bool
has_left closer_gone = true
has_left c = false

abbrev pub is_empty : Hand → Bool
is_empty empty_hand = true
is_empty h = false

abbrev pub is_none {ℓ} : {A : Type ℓ} → Option A → Bool
is_none none = true
is_none (some a) = false

abbrev pub guard : Bool → Link → Option Link
guard true l = some l
guard false l = none

-- One of a list of goroutines, and the others.
unfoldable pub pick_out : ℕ → List Packet → Option (Packet × List Packet)
pick_out i [] = none
pick_out zero (p ∷ ps) = some (p, ps)
pick_out (suc i) (p ∷ ps) = elim (pick_out i ps) [ none ↦ none | some (q, qs) ↦ some (q, p ∷ qs) ]

-- The goroutine that leaves its select, and its packet.
unfoldable pub leave : Sender → Link → Option (Packet × Link)
unfolding pick_out
leave the_reader l = elim l.reader [ none ↦ none | some p ↦ some (p, record l { reader = none }) ]
leave the_closer l = elim l.closer [
  | closer_idle ↦ none
  | closer_sending p ↦ some (p, record l { closer = closer_gone })
  | closer_gone ↦ none
]
leave (deferred i) l = elim (pick_out i l.sending) [
  | none ↦ none
  | some (p, ps) ↦ some (p, record l { sending = ps })
]

-- The two arms of sendBytes. A send on a closed channel is never blocked, and panics.
unfoldable pub enter_queue : Packet → Link → Option Link
enter_queue p l =
    guard (ltb (length l.queue) outbound_capacity || outbound_closed l.phase) (record l {
      queue = l.queue ++ p ∷ [];
      entered = l.entered ++ p ∷ [];
      sent_on_closed = l.sent_on_closed || outbound_closed l.phase;
    })

unfoldable pub refuse_packet : Packet → Link → Option Link
refuse_packet p l =
    guard (not l.writing)
      (record l { refused = l.refused ++ p ∷ []; depth_down = l.depth_down + 1 })

-- A round of the loop over the channel: a packet leaves the channel, the gauge goes down, and the
-- packet is written or lost.
unfoldable pub take_packet : Link → Option Link
take_packet l = elim l.queue [
  | [] ↦ none
  | p ∷ ps ↦
      guard (is_empty l.hand && (l.writing || is_draining l.phase))
        (record l { queue = ps; hand = took p })
]

unfoldable pub count_packet : Link → Option Link
count_packet l = elim l.hand [
  | empty_hand ↦ none
  | took p ↦ some (record l { hand = counted p; depth_down = l.depth_down + 1 })
  | counted p ↦ none
]

unfoldable pub done_packet : (Packet → Link → Link) → Link → Option Link
done_packet on_packet l = elim l.hand [
  | empty_hand ↦ none
  | took p ↦ none
  | counted p ↦ some (on_packet p (record l { hand = empty_hand }))
]

unfoldable pub step : LinkEvent → Link → Option Link
unfolding leave enter_queue refuse_packet take_packet count_packet done_packet
step (read_send p) l =
    guard (is_reading l.phase && is_none l.reader)
      (record l { reader = some p; depth_up = l.depth_up + 1 })
step (read_hold p) l =
    guard (is_reading l.phase && is_none l.reader) (record l { held = l.held ++ p ∷ [] })
step (quit_unbind p) l = elim l.closer [
  | closer_idle ↦ some (record l { closer = closer_sending p; depth_up = l.depth_up + 1 })
  | closer_sending q ↦ none
  | closer_gone ↦ none
]
step read_end l = guard (is_reading l.phase && is_none l.reader) (record l {
  phase = stopping;
  writer_failed_first = not l.writing;
  queue_depth = length l.queue;
})
step closer_leave l = elim l.closer [
  | closer_idle ↦ some (record l { closer = closer_gone })
  | closer_sending q ↦ none
  | closer_gone ↦ none
]
step (ready i) l = elim (pick_out i l.held) [
  | none ↦ none
  | some (p, ps) ↦
      some (record l { held = ps; sending = l.sending ++ p ∷ []; depth_up = l.depth_up + 1 })
]
step (cancel i) l = elim (pick_out i l.held) [
  | none ↦ none
  | some (p, ps) ↦
      guard (is_cancelling l.phase) (record l { held = ps; cancelled = l.cancelled ++ p ∷ [] })
]
step (enter s) l = elim (leave s l) [ none ↦ none | some (p, l') ↦ enter_queue p l' ]
step (refuse s) l = elim (leave s l) [ none ↦ none | some (p, l') ↦ refuse_packet p l' ]
step take l = take_packet l
step count_down l = count_packet l
step write l =
    if l.writing then done_packet (λ p l'. record l' { written = l'.written ++ p ∷ [] }) l else none
step (write_fail timed_out) l =
    if l.writing
    then done_packet
        (λ p l'. record l' {
          lost = l'.lost ++ p ∷ [];
          writing = false;
          write_error = some timed_out;
        })
        l
    else none
step writer_leave l =
    guard (l.writing && outbound_closed l.phase && length l.queue == 0 && is_empty l.hand)
      (record l { writing = false })
step stop_deferred l =
    guard (is_stopping l.phase && has_left l.closer) (record l { phase = cancelling })
step close_outbound l =
    guard (is_cancelling l.phase && length l.held == 0 && length l.sending == 0)
      (record l { phase = draining })
step drain l =
    if is_draining l.phase && not l.writing
    then done_packet (λ p l'. record l' { lost = l'.lost ++ p ∷ [] }) l
    else none
step finish l =
    guard (is_draining l.phase && not l.writing && length l.queue == 0 && is_empty l.hand)
      (record l { phase = ended })

unfoldable pub run : List LinkEvent → Link → Option Link
run [] l = some l
run (e ∷ es) l = elim (step e l) [ none ↦ none | some l' ↦ run es l' ]

-- `pdusDropped`
unfoldable pub pdus_dropped : Link → ℕ
pdus_dropped l = length l.lost + length l.refused

-- `recordClose`: the reason that is reported, from the one that closeWith set, if any.
abbrev pub or_panic : Option CloseReason → CloseReason
or_panic none = panic
or_panic (some r) = r

unfoldable pub closing_reason : Option CloseReason → Link → CloseReason
closing_reason set l =
    if l.writer_failed_first
    then elim l.write_error [ none ↦ or_panic set | some timed_out ↦ write_failure timed_out ]
    else or_panic set

unfoldable pub closing_bind_type : List ℕ → List ℕ
closing_bind_type bind_type = if length bind_type == 0 then codes "none" else bind_type
