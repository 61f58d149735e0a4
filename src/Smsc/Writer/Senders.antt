-- ===== src/Smsc/Writer/Senders.antt =====
-- A sender puts its packet into the outbound channel, or it is refused: the accounts stay right.
use go_smsc_simulator.Common.{
  ℕ, ◌≡◌, ap, ◌∙◌, arith, [], ◌∷◌, ◌++◌, append_assoc, some, Option-cases, inl, inr,
}
use go_smsc_simulator.Smsc.Writer.{
  Packet, Link, Sender, the_reader, the_closer, deferred, pick_out, leave, enter_queue,
  refuse_packet,
}
use go_smsc_simulator.Smsc.Writer.Accounts.{
  in_hand, Accounted, Carried, length-snoc, guarded, length-pick_out,
}

pub Carried-leave :
    (n : ℕ) (s : Sender) (l : Link) (p : Packet) (m : Link)
    → Accounted n l
    → leave s l ≡ some (p, m)
    → Carried n m
unfolding leave
Carried-leave n the_reader l p m v h = elim (Option-cases l.reader) [
  | inl e ↦ absurd (ground arith)
  | inr (q, e) ↦ record {
    all = ground arith;
    fifo = ground arith;
    alive = ground arith;
    depth = ground arith;
    phases = ground arith;
    open_channel = ground arith;
    unclosed = ground arith;
  }
]
Carried-leave n the_closer l p m v h = record {
  all = ground arith;
  fifo = ground arith;
  alive = ground arith;
  depth = ground arith;
  phases = ground arith;
  open_channel = ground arith;
  unclosed = ground arith;
}
Carried-leave n (deferred i) l p m v h = elim (Option-cases (pick_out i l.sending)) [
  | inl e ↦ absurd (ground arith)
  | inr ((q, qs), e) ↦
      let k = length-pick_out i l.sending q qs e in
      record {
        all = ground arith;
        fifo = ground arith;
        alive = ground arith;
        depth = ground arith;
        phases = ground arith;
        open_channel = ground arith;
        unclosed = ground arith;
      }
]

pub Accounted-enter :
    (n : ℕ) (p : Packet) (m l' : Link) → Carried n m → enter_queue p m ≡ some l' → Accounted n l'
unfolding enter_queue
Accounted-enter n p m l' v h = guarded (Accounted n) _ _ l' h (λ b.
    let a = v.all in
    let d = v.depth in
    let t = v.phases in
    let u = v.unclosed in
    let q = length-snoc m.queue p in
    let k = length-snoc m.entered p in
    record {
      all = omega (arith, a, k);
      fifo =
          ap (λ z. z ++ p ∷ []) v.fifo
          ∙ append_assoc (m.written ++ m.lost ++ in_hand m.hand) m.queue (p ∷ []);
      alive = v.alive;
      depth = omega (arith, d, q);
      phases = ground arith;
      open_channel = ground (arith, v.open_channel);
    })

pub Accounted-refuse :
    (n : ℕ) (p : Packet) (m l' : Link) → Carried n m → refuse_packet p m ≡ some l' → Accounted n l'
unfolding refuse_packet
Accounted-refuse n p m l' v h = guarded (Accounted n) _ _ l' h (λ b.
    let k = length-snoc m.refused p in
    record {
      all = omega (arith, v.all, k);
      fifo = v.fifo;
      alive = v.alive;
      depth = omega (arith, v.depth);
      phases = ground arith;
      open_channel = v.open_channel;
    })
