-- ===== src/AckHandler/Sender/Kept.antt =====
-- Bytes in flight after the calls that send, time out and probe, where they do not panic or refuse.
use uquic.Shared.{
  ℕ, ◌+◌, ◌-◌, ◌≡◌, refl, sym, subst, inl, inr, Bool, true, false, Option, none, some, [], arith,
  if_intro_known, Bool-cases, Ensures, Ensures-bind, Result-cases, Result, ok, err, Panic, ◌>>=◌,
}
use mathlib.Core.List.{append-nil}
use uquic.Wire.Frame.{EncryptionLevel}
use uquic.AckHandler.Sent.{
  SentHistory, follows, sent_ack_eliciting_packet, sent_non_ack_eliciting_packet,
  sent_path_probe_packet,
}
use uquic.AckHandler.Sent.State.{IsTracked}
use uquic.AckHandler.Sent.Flight.{AllHandled}
use uquic.AckHandler.Sent.Added.{IsMore, refused, skip-Ensures}
use uquic.AckHandler.Space.{PacketNumberSpace, pop_packet_number, pop, skip_before}
use uquic.AckHandler.Sender.{
  SendAlgorithm, Sender, SenderError, lift, need, get_packet_number_space, put_space,
}
use uquic.AckHandler.Sender.Calls.{
  SentInfo, is_ack_eliciting, tell_sent, send_packet, track_sent, track_probe,
}
use uquic.AckHandler.Sender.Control.{pop_number}
use uquic.AckHandler.Sender.Spaces.{IsBalanced, get-IsFine}
use uquic.AckHandler.Sender.Paid.{Leaves}
use uquic.AckHandler.Sender.Charged.{counted, put-more, track_probe-StaysEven, track_sent-StaysEven}

pub Ensures-lift {κ} :
    {A : Type 0} (P : A → Type κ) (r : Result Panic A) → Ensures P r → Ensures P (lift r)
Ensures-lift P (ok a) holds = holds
Ensures-lift P (err e) holds = tt

-- From a call on a space that is there.
pub Ensures-need {κ} :
    {A : Type 0} (P : A → Type κ) (o : Option PacketNumberSpace)
    (f : PacketNumberSpace → Result SenderError A)
    → ((space : PacketNumberSpace) → o ≡ some space → Ensures P (f space))
    → Ensures P (need o >>= f)
Ensures-need P none f holds = tt
Ensures-need P (some space) f holds = holds space refl

module _ {C : Type 0} where
  abbrev pub Keeps : Result SenderError (Sender C) → Type 0
  Keeps r = Ensures (IsBalanced 0) r

  pub Leaves-Keeps : (r : Result SenderError (Sender C)) → Leaves 0 r → Keeps r
  Leaves-Keeps r (h, (is, balanced)) = subst Keeps (sym is) balanced

  pub put_more :
      (algorithm : SendAlgorithm C) (h : Sender C) (level : EncryptionLevel)
      (space space' : PacketNumberSpace)
      → IsBalanced 0 h
      → get_packet_number_space h level ≡ some space
      → IsTracked space'.history × IsMore 0 [] space.history space'.history
      → IsBalanced 0 (put_space h level space')
  put_more algorithm h level space space' (fine, balance) is (tracked, more) =
      put-more algorithm h level space space' 0 [] fine balance is tracked more tt

module _ {C : Type 0} (algorithm : SendAlgorithm C) where
  -- With a number that does not follow.
  track_sent-refused :
      (h : Sender C) (level : EncryptionLevel) (space : PacketNumberSpace) (i : SentInfo)
      → follows space.history.highest_packet_number i.packet_number ≡ false
      → Keeps
          (track_sent algorithm h level (record space { largest_sent = some i.packet_number }) i)
  unfolding track_sent sent_ack_eliciting_packet sent_non_ack_eliciting_packet
  track_sent-refused h level space i other =
      elim (Result-cases (tell_sent level i.packet_number i.ecn h.ecn_tracker)) [
        | inl (t, told) ↦ elim (Bool-cases (is_ack_eliciting i)) [
          | inl eliciting ↦ rw (eliciting, told, refused space.history i.packet_number other) tt
          | inr not_eliciting ↦
              rw (not_eliciting, told, refused space.history i.packet_number other) tt
        ]
        | inr (e, told) ↦ rw told tt
      ]

  track_sent-Keeps :
      (h : Sender C) (level : EncryptionLevel) (space : PacketNumberSpace) (i : SentInfo)
      → IsBalanced 0 h
      → get_packet_number_space h level ≡ some space
      → Keeps
          (track_sent algorithm h level (record space { largest_sent = some i.packet_number }) i)
  track_sent-Keeps h level space i balanced is =
      elim (Bool-cases (follows space.history.highest_packet_number i.packet_number)) [
        | inl next ↦ elim (Result-cases (tell_sent level i.packet_number i.ecn h.ecn_tracker)) [
          | inl (t, told) ↦
              Leaves-Keeps _
                (track_sent-StaysEven algorithm h level space i t balanced is next told)
          | inr (e, told) ↦ unfold track_sent in rw told tt
        ]
        | inr other ↦ track_sent-refused h level space i other
      ]

  track_probe-Keeps :
      (h : Sender C) (level : EncryptionLevel) (space : PacketNumberSpace) (i : SentInfo)
      → IsBalanced 0 h
      → get_packet_number_space h level ≡ some space
      → AllHandled i.frames
      → Keeps
          (track_probe algorithm h level (record space { largest_sent = some i.packet_number }) i)
  unfolding sent_path_probe_packet
  track_probe-Keeps h level space i balanced is handled =
      elim (Bool-cases (follows space.history.highest_packet_number i.packet_number)) [
        | inl next ↦
            Leaves-Keeps _
              (track_probe-StaysEven algorithm h level space i balanced is next handled)
        | inr other ↦ unfold track_probe in rw (refused space.history i.packet_number other) tt
      ]

  pub send_packet-Keeps :
      (h : Sender C) (level : EncryptionLevel) (i : SentInfo)
      → IsBalanced 0 h
      → (i.is_path_probe_packet ≡ true → AllHandled i.frames)
      → Keeps (send_packet algorithm h level i)
  unfolding send_packet
  send_packet-Keeps h level i balanced handled =
      let h1 =
        counted algorithm h (h.bytes_sent + i.size) h.bytes_in_flight h.num_probes_to_send
          h.congestion h.ecn_tracker in
      Ensures-need (IsBalanced 0) (get_packet_number_space h1 level) _ (λ space is.
        if_intro_known Keeps i.is_path_probe_packet
          (λ probe. track_probe-Keeps h1 level space i balanced is (handled probe))
          (λ _. track_sent-Keeps h1 level space i balanced is))

  skip_before-Ensures :
      (skipped : Bool) (pn : ℕ) (history : SentHistory)
      → IsTracked history
      → Ensures (λ x. IsTracked x × IsMore 0 [] history x) (skip_before skipped pn history)
  skip_before-Ensures true pn history tracked = skip-Ensures history (pn - 1) tracked
  skip_before-Ensures false pn history tracked =
      (tracked, (omega arith, ((λ sent. sent), sym (append-nil history.path_probe_packets))))

  pub pop_number-Keeps :
      (h : Sender C) (level : EncryptionLevel) (drawn : ℕ)
      → IsBalanced 0 h
      → Ensures (λ (r : ℕ × Sender C). IsBalanced 0 r.1) (pop_number h level drawn)
  unfolding pop_number pop_packet_number
  pop_number-Keeps h level drawn balanced =
      Ensures-need (λ (r : ℕ × Sender C). IsBalanced 0 r.1) (get_packet_number_space h level) _
        (λ space is.
          let popped = pop space.pns drawn in
          Ensures-bind
            (λ (r : ℕ × PacketNumberSpace).
              IsTracked r.1.history × IsMore 0 [] space.history r.1.history)
            (λ (r : ℕ × Sender C). IsBalanced 0 r.1) (lift (pop_packet_number space drawn)) _
            (Ensures-lift
              (λ (r : ℕ × PacketNumberSpace).
                IsTracked r.1.history × IsMore 0 [] space.history r.1.history)
              (pop_packet_number space drawn)
              (Ensures-bind (λ x. IsTracked x × IsMore 0 [] space.history x)
                (λ (r : ℕ × PacketNumberSpace).
                  IsTracked r.1.history × IsMore 0 [] space.history r.1.history)
                (skip_before popped.0 popped.1.0 space.history) _
                (skip_before-Ensures popped.0 popped.1.0 space.history
                  (get-IsFine h level space is balanced.0).0)
                (λ history kept. kept)))
            (λ (pn, space') kept. put_more algorithm h level space space' balanced is kept))
