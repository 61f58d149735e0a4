-- ===== src/Smsc/Writer/Takes.antt =====
-- The loop over the outbound channel, one action after another: the accounts stay right.
use go_smsc_simulator.Common.{
  List-cases, nil_of, ℕ, ◌+◌, ◌≡◌, refl, sym, subst, ap, ◌∙◌, arith, Bool, true, false, ◌&&◌, ◌||◌,
  List, [], ◌∷◌, ◌++◌, append_assoc, append-nil, Option, some, inl, inr,
}
use go_smsc_simulator.Smsc.Writer.{
  Packet, Link, empty_hand, took, counted, is_empty, is_draining, take_packet, count_packet,
  done_packet,
}
use go_smsc_simulator.Smsc.Writer.Accounts.{in_hand, Accounted, Hand-cases, guarded}

-- What is done with the packet in hand.
abbrev to_written : Packet → Link → Link
to_written p l = record l { written = l.written ++ p ∷ [] }

taken_fifo :
    (w ls ps : List Packet) (p : Packet) → w ++ ls ++ [] ++ p ∷ ps ≡ w ++ ls ++ p ∷ [] ++ ps
taken_fifo w ls ps p =
    ap (λ z. z ++ p ∷ ps) (append-nil (w ++ ls)) ∙ sym (append_assoc (w ++ ls) (p ∷ []) ps)

written_fifo :
    (w ls ps : List Packet) (p : Packet)
    → ls ≡ []
    → w ++ ls ++ p ∷ [] ++ ps ≡ w ++ p ∷ [] ++ ls ++ [] ++ ps
written_fifo w ls ps p e =
    rw (e, append-nil w, append-nil (w ++ p ∷ []), append-nil (w ++ p ∷ [])) refl

lost_fifo :
    (w ls ps : List Packet) (p : Packet) → w ++ ls ++ p ∷ [] ++ ps ≡ w ++ (ls ++ p ∷ []) ++ [] ++ ps
lost_fifo w ls ps p = rw (append-nil (w ++ (ls ++ p ∷ [])), append_assoc w ls (p ∷ [])) refl

pub Accounted-take :
    (n : ℕ) (l l' : Link) → Accounted n l → take_packet l ≡ some l' → Accounted n l'
unfolding take_packet
Accounted-take n l l' v h = elim (List-cases l.queue) [
  | inl e ↦ absurd (ground arith)
  | inr (p, ps, e) ↦
      guarded (Accounted n) (is_empty l.hand && (l.writing || is_draining l.phase))
        (record l { queue = ps; hand = took p }) l' (ground arith)
        (λ free. elim (Hand-cases l.hand) [
          | inl none_in ↦ record {
            all = v.all;
            fifo =
                v.fifo
                ∙ (ap (λ q. l.written ++ l.lost ++ in_hand l.hand ++ q) e
                    ∙ (ap (λ k. l.written ++ l.lost ++ in_hand k ++ p ∷ ps) none_in
                        ∙ taken_fifo l.written l.lost ps p));
            alive = v.alive;
            depth = ground (arith, v.depth);
            phases = ground arith;
            open_channel = v.open_channel;
          }
          | inr (inl (q, some_in)) ↦ absurd (ground arith)
          | inr (inr (q, some_in)) ↦ absurd (ground arith)
        ])
]

pub Accounted-count :
    (n : ℕ) (l l' : Link) → Accounted n l → count_packet l ≡ some l' → Accounted n l'
unfolding count_packet
Accounted-count n l l' v h = elim (Hand-cases l.hand) [
  | inl e ↦ absurd (ground arith)
  | inr (inr (p, e)) ↦ absurd (ground arith)
  | inr (inl (p, e)) ↦
      subst (Accounted n) {x = record l { hand = counted p; depth_down = l.depth_down + 1 }}
        (ground arith)
        (record {
          all = v.all;
          fifo = v.fifo ∙ ap (λ k. l.written ++ l.lost ++ in_hand k ++ l.queue) e;
          alive = v.alive;
          depth = ground (arith, v.depth);
          phases = ground arith;
          open_channel = v.open_channel;
        })
]

pub Accounted-write :
    (n : ℕ) (l l' : Link)
    → Accounted n l
    → l.writing ≡ true
    → done_packet to_written l ≡ some l'
    → Accounted n l'
unfolding done_packet
Accounted-write n l l' v w h = elim (Hand-cases l.hand) [
  | inl e ↦ absurd (ground arith)
  | inr (inl (p, e)) ↦ absurd (ground arith)
  | inr (inr (p, e)) ↦
      let none_lost = nil_of l.lost (ground arith) in
      subst (Accounted n) {x = to_written p (record l { hand = empty_hand })} (ground arith)
        (record {
          all = v.all;
          fifo =
              v.fifo
              ∙ (ap (λ k. l.written ++ l.lost ++ in_hand k ++ l.queue) e
                  ∙ written_fifo l.written l.lost l.queue p none_lost);
          alive = v.alive;
          depth = ground (arith, v.depth);
          phases = ground arith;
          open_channel = v.open_channel;
        })
]

-- A packet in hand that is lost: the writer is not writing from then on.
pub Accounted-lose :
    (n : ℕ) (l l' : Link) (still : Bool) (error : Option Bool)
    → Accounted n l
    → still ≡ false
    → done_packet
        (λ p z. record z { lost = z.lost ++ p ∷ []; writing = still; write_error = error })
        l
      ≡ some l'
    → Accounted n l'
unfolding done_packet
Accounted-lose n l l' still error v stopped h = elim (Hand-cases l.hand) [
  | inl e ↦ absurd (ground arith)
  | inr (inl (p, e)) ↦ absurd (ground arith)
  | inr (inr (p, e)) ↦
      subst (Accounted n)
        {x = record l {
          hand = empty_hand;
          lost = l.lost ++ p ∷ [];
          writing = still;
          write_error = error;
        }}
        (ground arith)
        (record {
          all = v.all;
          fifo =
              v.fifo
              ∙ (ap (λ k. l.written ++ l.lost ++ in_hand k ++ l.queue) e
                  ∙ lost_fifo l.written l.lost l.queue p);
          alive = ground arith;
          depth = ground (arith, v.depth);
          phases = ground arith;
          open_channel = v.open_channel;
        })
]
