-- ===== src/Smsc/Writer/Teardown.antt =====
-- The teardown of a session ends, whatever the order in which its goroutines run.
use go_smsc_simulator.Common.{
  List-cases, ℕ, zero, suc, ◌+◌, ◌*◌, ◌≤◌, ◌<◌, ◌≡◌, refl, arith, Bool, true, false, List, [], ◌∷◌,
  length, ◌||◌, Option, none, some, Option-cases, Bool-cases, inl, inr, ◌⊎◌,
}
use go_smsc_simulator.Smsc.Writer.{
  Packet, Phase, reading, stopping, cancelling, draining, ended, Closer, closer_idle,
  closer_sending, closer_gone, Link, LinkEvent, read_send, read_hold, quit_unbind, read_end,
  closer_leave, ready, cancel, enter, refuse, write, writer_leave, stop_deferred, close_outbound,
  drain, finish, write_fail, Sender, the_reader, the_closer, deferred, is_reading, is_ended,
  is_draining, is_empty, Hand, empty_hand, took, counted, take, count_down, count_packet,
  done_packet, has_left, is_none, pick_out, leave, enter_queue, refuse_packet, take_packet, step,
  run,
}
use go_smsc_simulator.Smsc.Writer.Accounts.{Hand-cases, length-pick_out, length-snoc, guarded}

abbrev phase_left : Phase → ℕ
phase_left reading = 4
phase_left stopping = 3
phase_left cancelling = 2
phase_left draining = 1
phase_left ended = 0

abbrev closer_left : Closer → ℕ
closer_left closer_idle = 5
closer_left (closer_sending p) = 4
closer_left closer_gone = 0

abbrev reader_left : Option Packet → ℕ
reader_left none = 0
reader_left (some p) = 4

abbrev hand_left : Hand → ℕ
hand_left empty_hand = 0
hand_left (took p) = 2
hand_left (counted p) = 1

abbrev writer_left : Bool → ℕ
writer_left true = 1
writer_left false = 0

-- What is still to be done: a packet is made ready, enters the channel, is taken out of it, counted and written or lost.
abbrev pub work : Link → ℕ
work l =
    phase_left l.phase
    + closer_left l.closer
    + reader_left l.reader
    + writer_left l.writing
    + length l.held * 5
    + length l.sending * 4
    + hand_left l.hand
    + length l.queue * 3

-- A goroutine that leaves its select has one action behind it, and three are left for its packet.
work-leave :
    (s : Sender) (l : Link) (p : Packet) (m : Link) → leave s l ≡ some (p, m) → work l ≡ work m + 4
unfolding leave
work-leave the_reader l p m h = ground arith
work-leave the_closer l p m h = ground arith
work-leave (deferred i) l p m h = elim (Option-cases (pick_out i l.sending)) [
  | inl e ↦ absurd (ground arith)
  | inr ((q, qs), e) ↦ ground (arith, length-pick_out i l.sending q qs e)
]

enter-work : (p : Packet) (m l' : Link) → enter_queue p m ≡ some l' → work l' ≡ work m + 3
unfolding enter_queue
enter-work p m l' h =
    guarded (λ z. work z ≡ work m + 3) _ _ l' h (λ b. let q = length-snoc m.queue p in omega arith)

refuse-work : (p : Packet) (m l' : Link) → refuse_packet p m ≡ some l' → work l' ≡ work m
unfolding refuse_packet
refuse-work p m l' h = guarded (λ z. work z ≡ work m) _ _ l' h (λ b. omega arith)

-- From the end of the read loop on, each action of any goroutine leaves less to be done.
step-work :
    (e : LinkEvent) (l l' : Link)
    → is_reading l.phase ≡ false
    → step e l ≡ some l'
    → work l' < work l
unfolding step
step-work (read_send p) l l' r h = absurd (ground arith)
step-work (read_hold p) l l' r h = absurd (ground arith)
step-work (quit_unbind p) l l' r h = ground arith
step-work read_end l l' r h = absurd (ground arith)
step-work closer_leave l l' r h = ground arith
step-work (ready i) l l' r h = elim (Option-cases (pick_out i l.held)) [
  | inl e ↦ absurd (ground arith)
  | inr ((q, qs), e) ↦
      let k = length-pick_out i l.held q qs e in let k' = length-snoc l.sending q in ground arith
]
step-work (cancel i) l l' r h = elim (Option-cases (pick_out i l.held)) [
  | inl e ↦ absurd (ground arith)
  | inr ((q, qs), e) ↦ let k = length-pick_out i l.held q qs e in ground arith
]
step-work (enter s) l l' r h = elim (Option-cases (leave s l)) [
  | inl e ↦ absurd (ground arith)
  | inr ((p, m), e) ↦
      let k = work-leave s l p m e in let k' = enter-work p m l' (ground arith) in omega arith
]
step-work (refuse s) l l' r h = elim (Option-cases (leave s l)) [
  | inl e ↦ absurd (ground arith)
  | inr ((p, m), e) ↦
      let k = work-leave s l p m e in let k' = refuse-work p m l' (ground arith) in omega arith
]
step-work take l l' r h = ground arith
step-work count_down l l' r h = ground arith
step-work write l l' r h = ground arith
step-work (write_fail t) l l' r h = ground arith
step-work writer_leave l l' r h = ground arith
step-work stop_deferred l l' r h = ground arith
step-work close_outbound l l' r h = ground arith
step-work drain l l' r h = ground arith
step-work finish l l' r h = ground arith

Closer-cases :
    (c : Closer) → (c ≡ closer_idle) ⊎ (((p : Packet) × (c ≡ closer_sending p)) ⊎ (c ≡ closer_gone))
Closer-cases closer_idle = inl refl
Closer-cases (closer_sending p) = inr (inl (p, refl))
Closer-cases closer_gone = inr (inr refl)

Phase-cases :
    (p : Phase)
    → (p ≡ reading) ⊎ ((p ≡ stopping) ⊎ ((p ≡ cancelling) ⊎ ((p ≡ draining) ⊎ (p ≡ ended))))
Phase-cases reading = inl refl
Phase-cases stopping = inr (inl refl)
Phase-cases cancelling = inr (inr (inl refl))
Phase-cases draining = inr (inr (inr (inl refl)))
Phase-cases ended = inr (inr (inr (inr refl)))

-- An action that a goroutine can take now.
abbrev Enabled : Link → Type 0
Enabled l = (e : LinkEvent) × (is_none (step e l) ≡ false)

-- The loop over the channel goes on with the packet in hand.
hand-Enabled :
    (l : Link) → is_empty l.hand ≡ false → (l.writing || is_draining l.phase) ≡ true → Enabled l
unfolding step count_packet done_packet
hand-Enabled l h r = elim (Hand-cases l.hand) [
  | inl e ↦ absurd (ground arith)
  | inr (inl (p, e)) ↦ (count_down, ground arith)
  | inr (inr (p, e)) ↦ elim (Bool-cases l.writing) [
    | inl w ↦ (write, ground arith)
    | inr w ↦ (drain, ground arith)
  ]
]

round-Enabled :
    (l : Link) (q : Packet) (qs : List Packet)
    → l.queue ≡ q ∷ qs
    → (l.writing || is_draining l.phase) ≡ true
    → Enabled l
unfolding step take_packet
round-Enabled l q qs e r = elim (Bool-cases (is_empty l.hand)) [
  | inl free ↦ (take, ground arith)
  | inr full ↦ hand-Enabled l full r
]

-- A goroutine in sendBytes can go on, or the writer can.
sender-Enabled :
    (s : Sender) (l : Link) (p : Packet) (m : Link)
    → leave s l ≡ some (p, m)
    → (m.queue ≡ l.queue) × (m.writing ≡ l.writing)
    → Enabled l
unfolding step enter_queue refuse_packet
sender-Enabled s l p m h (same, same') = elim (Bool-cases l.writing) [
  | inl e ↦ elim (List-cases l.queue) [
    | inl none_in ↦ (enter s, ground arith)
    | inr (q, qs, some_in) ↦ round-Enabled l q qs some_in (ground arith)
  ]
  | inr e ↦ (refuse s, ground arith)
]

first-Enabled : (l : Link) (p : Packet) (ps : List Packet) → l.sending ≡ p ∷ ps → Enabled l
unfolding leave pick_out
first-Enabled l p ps h =
    sender-Enabled (deferred 0) l p (record l { sending = ps }) (ground arith) (refl, refl)

closer-Enabled : (l : Link) → has_left l.closer ≡ false → Enabled l
unfolding step leave
closer-Enabled l h = elim (Closer-cases l.closer) [
  | inl e ↦ (closer_leave, ground arith)
  | inr (inl (p, e)) ↦
      sender-Enabled the_closer l p (record l { closer = closer_gone }) (ground arith) (refl, refl)
  | inr (inr e) ↦ absurd (ground arith)
]

drained-Enabled : (l : Link) → l.phase ≡ draining → Enabled l
unfolding step
drained-Enabled l h = elim (Bool-cases (is_empty l.hand)) [
  | inr full ↦ hand-Enabled l full (ground arith)
  | inl free ↦ elim (List-cases l.queue) [
    | inr (q, qs, e) ↦ round-Enabled l q qs e (ground arith)
    | inl e ↦ elim (Bool-cases l.writing) [
      | inl w ↦ (writer_leave, ground arith)
      | inr w ↦ (finish, ground arith)
    ]
  ]
]

-- The teardown is never stuck.
teardown-Enabled : (l : Link) → is_reading l.phase ≡ false → is_ended l.phase ≡ false → Enabled l
unfolding step pick_out
teardown-Enabled l r d = elim (Phase-cases l.phase) [
  | inl e ↦ absurd (ground arith)
  | inr (inl e) ↦ elim (Bool-cases (has_left l.closer)) [
    | inl gone ↦ (stop_deferred, ground arith)
    | inr there ↦ closer-Enabled l there
  ]
  | inr (inr (inl e)) ↦ elim (List-cases l.held) [
    | inl no_held ↦ elim (List-cases l.sending) [
      | inl no_sending ↦ (close_outbound, ground arith)
      | inr (p, ps, e') ↦ first-Enabled l p ps e'
    ]
    | inr (p, ps, e') ↦ (cancel 0, ground arith)
  ]
  | inr (inr (inr (inl e))) ↦ drained-Enabled l e
  | inr (inr (inr (inr e))) ↦ absurd (ground arith)
]

-- The teardown does not go back to reading.
pub step-torn :
    (e : LinkEvent) (l l' : Link)
    → is_reading l.phase ≡ false
    → step e l ≡ some l'
    → is_reading l'.phase ≡ false
unfolding step leave enter_queue refuse_packet take_packet count_packet done_packet
step-torn (read_send p) l l' r h = ground arith
step-torn (read_hold p) l l' r h = ground arith
step-torn (quit_unbind p) l l' r h = ground arith
step-torn read_end l l' r h = ground arith
step-torn closer_leave l l' r h = ground arith
step-torn (ready i) l l' r h = ground arith
step-torn (cancel i) l l' r h = ground arith
step-torn (enter the_reader) l l' r h = ground arith
step-torn (enter the_closer) l l' r h = ground arith
step-torn (enter (deferred i)) l l' r h = ground arith
step-torn (refuse the_reader) l l' r h = ground arith
step-torn (refuse the_closer) l l' r h = ground arith
step-torn (refuse (deferred i)) l l' r h = ground arith
step-torn take l l' r h = ground arith
step-torn count_down l l' r h = ground arith
step-torn write l l' r h = ground arith
step-torn (write_fail t) l l' r h = ground arith
step-torn writer_leave l l' r h = ground arith
step-torn stop_deferred l l' r h = ground arith
step-torn close_outbound l l' r h = ground arith
step-torn drain l l' r h = ground arith
step-torn finish l l' r h = ground arith

-- From the end of the read loop on, the goroutines of a session take at most as many actions as
-- there is work, in any order: no schedule runs for ever.
pub teardown_bound :
    (es : List LinkEvent) (l l' : Link)
    → is_reading l.phase ≡ false
    → run es l ≡ some l'
    → length es + work l' ≤ work l
unfolding run
teardown_bound [] l l' r h = ground arith
teardown_bound (e ∷ es) l l' r h = elim (Option-cases (step e l)) [
  | inl none_left ↦ absurd (ground arith)
  | inr (m, at) ↦
      let less = step-work e l m r at in
      let rest = teardown_bound es m l' (step-torn e l m r at) (ground arith) in omega arith
]

-- While it is not ended, the teardown has an action that leaves less to be done.
advance :
    (l : Link)
    → is_reading l.phase ≡ false
    → is_ended l.phase ≡ false
    → (e : LinkEvent) × (m : Link) × (step e l ≡ some m)
      × (work m < work l)
      × (is_reading m.phase ≡ false)
advance l r more =
    let (e, can) = teardown-Enabled l r more in
    elim (Option-cases (step e l)) [
      | inl none_left ↦ absurd (ground arith)
      | inr (m, at) ↦ (e, m, at, step-work e l m r at, step-torn e l m r at)
    ]

abbrev pub CanEnd : Link → Type 0
CanEnd l = (es : List LinkEvent) × (l' : Link) × (run es l ≡ some l') × (is_ended l'.phase ≡ true)

ends_within : (n : ℕ) (l : Link) → work l ≤ n → is_reading l.phase ≡ false → CanEnd l
unfolding run
ends_within zero l h r = elim (Bool-cases (is_ended l.phase)) [
  | inl over ↦ ([], l, refl, over)
  | inr more ↦ let (e, m, at, less, torn) = advance l r more in absurd (omega arith)
]
ends_within (suc n) l h r = elim (Bool-cases (is_ended l.phase)) [
  | inl over ↦ ([], l, refl, over)
  | inr more ↦
      let (e, m, at, less, torn) = advance l r more in
      let (es, l', runs, over) = ends_within n m (omega arith) torn in
      (e ∷ es, l', ground arith, over)
]

-- From the end of the read loop on, a session is never stuck: from whatever its goroutines have done
-- by then, some order of their actions reaches the point where its close is recorded.
pub teardown_ends : (l : Link) → is_reading l.phase ≡ false → CanEnd l
teardown_ends l r = ends_within (work l) l (omega arith) r
