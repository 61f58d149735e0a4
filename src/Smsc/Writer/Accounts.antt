-- ===== src/Smsc/Writer/Accounts.antt =====
-- The accounts of a session's link: where each packet that was handed over is.
use go_smsc_simulator.Common.{
  ℕ, zero, suc, ◌+◌, ◌≡◌, refl, subst, arith, ◌==◌, Bool, true, false, not, ◌&&◌, List, [], ◌∷◌,
  ◌++◌, length, length-append, Option, none, some, Option-cases, inl, inr, ◌⊎◌,
}
use go_smsc_simulator.Smsc.Writer.{
  Packet, Phase, reading, stopping, cancelling, draining, ended, Closer, closer_sending, Link,
  LinkEvent, read_send, read_hold, quit_unbind, outbound_closed, has_left, is_none, is_empty, Hand,
  empty_hand, took, counted, guard, pick_out,
}

-- The packets that the read goroutine and the closer hand over.
abbrev pub handed : List LinkEvent → ℕ
handed [] = 0
handed (read_send p ∷ es) = suc (handed es)
handed (read_hold p ∷ es) = suc (handed es)
handed (quit_unbind p ∷ es) = suc (handed es)
handed (_ ∷ es) = handed es

abbrev of_reader : Option Packet → ℕ
of_reader none = 0
of_reader (some p) = 1

abbrev of_closer : Closer → ℕ
of_closer (closer_sending p) = 1
of_closer c = 0

-- The packet in hand, and whether the gauge still counts it.
abbrev pub in_hand : Hand → List Packet
in_hand empty_hand = []
in_hand (took p) = p ∷ []
in_hand (counted p) = p ∷ []

abbrev pub uncounted : Hand → ℕ
uncounted (took p) = 1
uncounted h = 0

-- The goroutines in sendBytes.
abbrev pub in_send : Link → ℕ
in_send l = of_reader l.reader + of_closer l.closer + length l.sending

-- The goroutines that the phase says are through.
abbrev through : Phase → Link → Bool
through reading l = true
through stopping l = is_none l.reader
through cancelling l = is_none l.reader && has_left l.closer
through draining l =
    is_none l.reader && has_left l.closer && length l.held == 0 && length l.sending == 0
through ended l =
    is_none l.reader
    && has_left l.closer
    && length l.held == 0
    && length l.sending == 0
    && length l.queue == 0
    && is_empty l.hand
    && not l.writing

-- The packets of a link: `n` have been handed over.
pub record Accounted (n : ℕ) (l : Link) : Type 0 where
  pub all : n ≡ length l.held + in_send l + length l.entered + length l.refused + length l.cancelled
  pub fifo : l.entered ≡ l.written ++ l.lost ++ in_hand l.hand ++ l.queue
  pub alive : (l.writing && not (length l.lost == 0)) ≡ false
  pub depth : l.depth_up ≡ l.depth_down + uncounted l.hand + length l.queue + in_send l
  pub phases : through l.phase l ≡ true
  pub open_channel : l.sent_on_closed ≡ false

-- The same with one packet that has left its goroutine, and is neither in the channel nor refused.
pub record Carried (n : ℕ) (l : Link) : Type 0 where
  pub all :
      n ≡ length l.held + in_send l + length l.entered + length l.refused + length l.cancelled + 1
  pub fifo : l.entered ≡ l.written ++ l.lost ++ in_hand l.hand ++ l.queue
  pub alive : (l.writing && not (length l.lost == 0)) ≡ false
  pub depth : l.depth_up ≡ l.depth_down + uncounted l.hand + length l.queue + in_send l + 1
  pub phases : through l.phase l ≡ true
  pub open_channel : l.sent_on_closed ≡ false
  pub unclosed : outbound_closed l.phase ≡ false

pub Hand-cases :
    (h : Hand)
    → (h ≡ empty_hand) ⊎ (((p : Packet) × (h ≡ took p)) ⊎ ((p : Packet) × (h ≡ counted p)))
Hand-cases empty_hand = inl refl
Hand-cases (took p) = inr (inl (p, refl))
Hand-cases (counted p) = inr (inr (p, refl))

pub length-snoc : {A : Type 0} (xs : List A) (x : A) → length (xs ++ x ∷ []) ≡ suc (length xs)
length-snoc xs x = omega (arith, length-append xs (x ∷ []))

pub guarded :
    (P : Link → Type 0) (b : Bool) (l l' : Link) → guard b l ≡ some l' → (b ≡ true → P l) → P l'
guarded P true l l' h f = subst P (cc h) (f refl)
guarded P false l l' h f = absurd (cc h)

pub length-pick_out :
    (i : ℕ) (ps : List Packet) (p : Packet) (qs : List Packet)
    → pick_out i ps ≡ some (p, qs)
    → length ps ≡ suc (length qs)
unfolding pick_out
length-pick_out i [] p qs h = absurd (cc h)
length-pick_out zero (q ∷ ps) p qs h = ground arith
length-pick_out (suc i) (q ∷ ps) p qs h = elim (Option-cases (pick_out i ps)) [
  | inl e ↦ absurd (ground arith)
  | inr ((r, rs), e) ↦ ground (arith, length-pick_out i ps r rs e)
]
