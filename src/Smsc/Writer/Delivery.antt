-- ===== src/Smsc/Writer/Delivery.antt =====
-- What becomes of the packets that are handed to a session's link.
use go_smsc_simulator.Common.{
  ℕ, ◌+◌, ◌≡◌, refl, subst, ap, arith, true, false, List, [], ◌∷◌, ◌++◌, length, length-append,
  some, Option-cases, Bool-cases, inl, inr,
}
use go_smsc_simulator.Smsc.Writer.{
  Link, new_link, LinkEvent, read_send, read_hold, quit_unbind, read_end, closer_leave, ready,
  cancel, enter, refuse, take, count_down, write, writer_leave, stop_deferred, close_outbound,
  drain, finish, write_fail, is_ended, pick_out, leave, step, run, pdus_dropped,
}
use go_smsc_simulator.Smsc.Writer.Accounts.{
  in_hand, uncounted, handed, in_send, Accounted, length-snoc, guarded, length-pick_out,
}
use go_smsc_simulator.Smsc.Writer.Senders.{Carried-leave, Accounted-enter, Accounted-refuse}
use go_smsc_simulator.Smsc.Writer.Takes.{
  Accounted-take, Accounted-count, Accounted-write, Accounted-lose,
}

-- Every event keeps the accounts, and hands over what it says.
pub Accounted-step :
    (n : ℕ) (e : LinkEvent) (l l' : Link)
    → Accounted n l
    → step e l ≡ some l'
    → Accounted (n + handed (e ∷ [])) l'
unfolding step
Accounted-step n (read_send p) l l' v h = guarded (Accounted (n + 1)) _ _ l' h (λ b. record {
  all = ground arith;
  fifo = v.fifo;
  alive = v.alive;
  depth = ground arith;
  phases = ground arith;
  open_channel = v.open_channel;
})
Accounted-step n (read_hold p) l l' v h = guarded (Accounted (n + 1)) _ _ l' h (λ b.
    let k = length-snoc l.held p in
    record {
      all = ground arith;
      fifo = v.fifo;
      alive = v.alive;
      depth = v.depth;
      phases = ground arith;
      open_channel = v.open_channel;
    })
Accounted-step n (quit_unbind p) l l' v h = record {
  all = ground arith;
  fifo = ground arith;
  alive = ground arith;
  depth = ground arith;
  phases = ground arith;
  open_channel = ground arith;
}
Accounted-step n closer_leave l l' v h = record {
  all = ground arith;
  fifo = ground arith;
  alive = ground arith;
  depth = ground arith;
  phases = ground arith;
  open_channel = ground arith;
}
Accounted-step n read_end l l' v h = guarded (Accounted (n + 0)) _ _ l' h (λ b. record {
  all = ground arith;
  fifo = ground arith;
  alive = ground arith;
  depth = ground arith;
  phases = ground arith;
  open_channel = ground arith;
})
Accounted-step n (ready i) l l' v h = elim (Option-cases (pick_out i l.held)) [
  | inl e ↦ absurd (ground arith)
  | inr ((q, qs), e) ↦
      let k = length-pick_out i l.held q qs e in
      let k' = length-snoc l.sending q in
      record {
        all = ground arith;
        fifo = ground arith;
        alive = ground arith;
        depth = ground arith;
        phases = ground arith;
        open_channel = ground arith;
      }
]
Accounted-step n (cancel i) l l' v h = elim (Option-cases (pick_out i l.held)) [
  | inl e ↦ absurd (ground arith)
  | inr ((q, qs), e) ↦
      let k = length-pick_out i l.held q qs e in
      let k' = length-snoc l.cancelled q in
      record {
        all = ground arith;
        fifo = ground arith;
        alive = ground arith;
        depth = ground arith;
        phases = ground arith;
        open_channel = ground arith;
      }
]
Accounted-step n (enter s) l l' v h = elim (Option-cases (leave s l)) [
  | inl e ↦ absurd (ground arith)
  | inr ((p, m), e) ↦
      subst (λ k. Accounted k l') (omega arith)
        (Accounted-enter n p m l' (Carried-leave n s l p m v e) (ground arith))
]
Accounted-step n (refuse s) l l' v h = elim (Option-cases (leave s l)) [
  | inl e ↦ absurd (ground arith)
  | inr ((p, m), e) ↦
      subst (λ k. Accounted k l') (omega arith)
        (Accounted-refuse n p m l' (Carried-leave n s l p m v e) (ground arith))
]
Accounted-step n take l l' v h =
    subst (λ k. Accounted k l') (omega arith) (Accounted-take n l l' v h)
Accounted-step n count_down l l' v h =
    subst (λ k. Accounted k l') (omega arith) (Accounted-count n l l' v h)
Accounted-step n write l l' v h = elim (Bool-cases l.writing) [
  | inl e ↦ subst (λ k. Accounted k l') (omega arith) (Accounted-write n l l' v e (ground arith))
  | inr e ↦ absurd (ground arith)
]
Accounted-step n (write_fail t) l l' v h = elim (Bool-cases l.writing) [
  | inl e ↦
      subst (λ k. Accounted k l') (omega arith)
        (Accounted-lose n l l' false (some t) v refl (ground arith))
  | inr e ↦ absurd (ground arith)
]
Accounted-step n writer_leave l l' v h = guarded (Accounted (n + 0)) _ _ l' h (λ b. record {
  all = ground arith;
  fifo = ground arith;
  alive = ground arith;
  depth = ground arith;
  phases = ground arith;
  open_channel = ground arith;
})
Accounted-step n stop_deferred l l' v h = guarded (Accounted (n + 0)) _ _ l' h (λ b. record {
  all = ground arith;
  fifo = ground arith;
  alive = ground arith;
  depth = ground arith;
  phases = ground arith;
  open_channel = ground arith;
})
Accounted-step n close_outbound l l' v h = guarded (Accounted (n + 0)) _ _ l' h (λ b. record {
  all = ground arith;
  fifo = ground arith;
  alive = ground arith;
  depth = ground arith;
  phases = ground arith;
  open_channel = ground arith;
})
Accounted-step n drain l l' v h = elim (Bool-cases l.writing) [
  | inl e ↦ absurd (ground arith)
  | inr e ↦
      subst (λ k. Accounted k l') (omega arith)
        (Accounted-lose n l l' l.writing l.write_error v e (ground arith))
]
Accounted-step n finish l l' v h = guarded (Accounted (n + 0)) _ _ l' h (λ b. record {
  all = ground arith;
  fifo = ground arith;
  alive = ground arith;
  depth = ground arith;
  phases = ground arith;
  open_channel = ground arith;
})

handed-cons : (e : LinkEvent) (es : List LinkEvent) → handed (e ∷ es) ≡ handed (e ∷ []) + handed es
handed-cons (read_send p) es = omega arith
handed-cons (read_hold p) es = omega arith
handed-cons (quit_unbind p) es = omega arith
handed-cons e es = omega arith

pub Accounted-run :
    (n : ℕ) (es : List LinkEvent) (l l' : Link)
    → Accounted n l
    → run es l ≡ some l'
    → Accounted (n + handed es) l'
unfolding run
Accounted-run n [] l l' v h =
    subst (Accounted (n + 0)) (ground arith) (subst (λ k. Accounted k l) (omega arith) v)
Accounted-run n (e ∷ es) l l' v h = elim (Option-cases (step e l)) [
  | inl none_left ↦ absurd (ground arith)
  | inr (m, at) ↦
      subst (λ k. Accounted k l') (omega (arith, handed-cons e es))
        (Accounted-run (n + handed (e ∷ [])) es m l' (Accounted-step n e l m v at) (ground arith))
]

pub new_link-Accounted : Accounted 0 new_link
new_link-Accounted = record {
  all = refl;
  fifo = refl;
  alive = refl;
  depth = refl;
  phases = refl;
  open_channel = refl;
}

-- At any point of a session, whatever its goroutines have done in whatever order: what entered the
-- outbound channel is, in this order, what was written, then what was lost behind a failed write,
-- then the PDU that has been taken out of it and is not done with, if any, then what is still in it;
-- the depth gauge counts what is in it, a PDU that was taken out until the gauge goes down for it,
-- and the goroutines that are in sendBytes; and nothing was sent on the closed channel.
pub run_channel :
    (es : List LinkEvent) (l : Link)
    → run es new_link ≡ some l
    → (l.entered ≡ l.written ++ l.lost ++ in_hand l.hand ++ l.queue)
      × (l.depth_up ≡ l.depth_down + uncounted l.hand + length l.queue + in_send l)
      × (l.sent_on_closed ≡ false)
run_channel es l h =
    let v = Accounted-run 0 es new_link l new_link-Accounted h in (v.fifo, v.depth, v.open_channel)

-- Once the close of a session is recorded, every PDU that was handed over to be sent is either
-- written, or counted as dropped, or cancelled within its latency, and the depth gauge is back.
pub run_accounts :
    (es : List LinkEvent) (l : Link)
    → run es new_link ≡ some l
    → is_ended l.phase ≡ true
    → (handed es ≡ length l.written + pdus_dropped l + length l.cancelled)
      × (l.depth_up ≡ l.depth_down)
      × (l.writing ≡ false)
unfolding pdus_dropped
run_accounts es l h over =
    let v = Accounted-run 0 es new_link l new_link-Accounted h in
    let k = ap length v.fifo in
    let a = length-append (l.written ++ l.lost ++ in_hand l.hand) l.queue in
    let c = length-append (l.written ++ l.lost) (in_hand l.hand) in
    let b = length-append l.written l.lost in (ground arith, ground arith, ground arith)
