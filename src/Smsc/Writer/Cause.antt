-- ===== src/Smsc/Writer/Cause.antt =====
-- Which failure a session reports as the reason of its close.
use go_smsc_simulator.Common.{
  ◌≡◌, refl, ◌∙◌, ap, arith, Bool, true, false, not, ◌&&◌, List, [], ◌∷◌, Option, none, some,
  Option-cases, inl, inr, if◌then◌else◌,
}
use go_smsc_simulator.Smsc.CloseReason.{CloseReason, write_failure}
use go_smsc_simulator.Smsc.Writer.{
  Link, new_link, LinkEvent, read_send, read_hold, quit_unbind, read_end, closer_leave, ready,
  cancel, enter, refuse, write, writer_leave, stop_deferred, close_outbound, drain, finish,
  write_fail, the_reader, the_closer, deferred, is_reading, is_ended, leave, enter_queue,
  refuse_packet, take_packet, count_packet, done_packet, take, count_down, step, run, or_panic,
  closing_reason,
}

-- The writer's failure, where it comes before the end of the read loop.
abbrev pub first_failure : List LinkEvent → Option Bool
first_failure [] = none
first_failure (write_fail t ∷ es) = some t
first_failure (read_end ∷ es) = none
first_failure (_ ∷ es) = first_failure es

-- The failure that a link with these events ahead is going to report.
abbrev expected : Link → List LinkEvent → Option Bool
expected l es =
    if is_reading l.phase
    then (if l.writing then first_failure es else l.write_error)
    else (if l.writer_failed_first then l.write_error else none)

-- Only a writer that has left is found to have failed first.
abbrev Settled : Link → Type 0
Settled l = (not (is_reading l.phase) && l.writer_failed_first && l.writing) ≡ false

expected-step :
    (e : LinkEvent) (es : List LinkEvent) (l l' : Link)
    → Settled l
    → step e l ≡ some l'
    → (expected l (e ∷ es) ≡ expected l' es) × Settled l'
unfolding step leave enter_queue refuse_packet take_packet count_packet done_packet
expected-step (read_send p) es l l' s h = (ground arith, ground arith)
expected-step (read_hold p) es l l' s h = (ground arith, ground arith)
expected-step (quit_unbind p) es l l' s h = (ground arith, ground arith)
expected-step read_end es l l' s h = (ground arith, ground arith)
expected-step closer_leave es l l' s h = (ground arith, ground arith)
expected-step (ready i) es l l' s h = (ground arith, ground arith)
expected-step (cancel i) es l l' s h = (ground arith, ground arith)
expected-step (enter the_reader) es l l' s h = (ground arith, ground arith)
expected-step (enter the_closer) es l l' s h = (ground arith, ground arith)
expected-step (enter (deferred i)) es l l' s h = (ground arith, ground arith)
expected-step (refuse the_reader) es l l' s h = (ground arith, ground arith)
expected-step (refuse the_closer) es l l' s h = (ground arith, ground arith)
expected-step (refuse (deferred i)) es l l' s h = (ground arith, ground arith)
expected-step take es l l' s h = (ground arith, ground arith)
expected-step count_down es l l' s h = (ground arith, ground arith)
expected-step write es l l' s h = (ground arith, ground arith)
expected-step (write_fail t) es l l' s h = (ground arith, ground arith)
expected-step writer_leave es l l' s h = (ground arith, ground arith)
expected-step stop_deferred es l l' s h = (ground arith, ground arith)
expected-step close_outbound es l l' s h = (ground arith, ground arith)
expected-step drain es l l' s h = (ground arith, ground arith)
expected-step finish es l l' s h = (ground arith, ground arith)

expected-run :
    (es : List LinkEvent) (l l' : Link)
    → Settled l
    → run es l ≡ some l'
    → expected l es ≡ expected l' []
unfolding run
expected-run [] l l' s h = ap (λ z. expected z []) {x = l} {y = l'} (ground arith)
expected-run (e ∷ es) l l' s h = elim (Option-cases (step e l)) [
  | inl none_left ↦ absurd (ground arith)
  | inr (m, at) ↦
      let (same, settled) = expected-step e es l m s at in
      same ∙ expected-run es m l' settled (ground arith)
]

abbrev pub cause : Option CloseReason → Option Bool → CloseReason
cause set none = or_panic set
cause set (some timed_out) = write_failure timed_out

-- The reason that a session's close is recorded with is the failure of its writer, if that came
-- before the end of the read loop, and otherwise the one that the read loop ended for, where none
-- stands for a panic.
pub closing_reason-first :
    (es : List LinkEvent) (l : Link) (set : Option CloseReason)
    → run es new_link ≡ some l
    → is_ended l.phase ≡ true
    → closing_reason set l ≡ cause set (first_failure es)
unfolding closing_reason
closing_reason-first es l set h over = let same = expected-run es new_link l refl h in ground arith
