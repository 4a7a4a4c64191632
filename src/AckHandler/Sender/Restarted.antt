-- ===== src/AckHandler/Sender/Restarted.antt =====
-- Bytes in flight after a migration and after a Retry.
use uquic.Shared.{
  ℕ, zero, suc, ◌+◌, ◌-◌, ◌≤◌, ◌≡◌, refl, sym, ap, subst, inl, inr, not, ◌&&◌, List, [], ◌∷◌, ◌++◌,
  arith, if◌then◌else◌, if_intro, Ensures, Ensures-bind, ok, length, get_elem?,
}
use uquic.Wire.Frame.{one_rtt}
use uquic.AckHandler.Sent.{is_empty_list, Packet, yielded, remove_probe, new_sent_packet_history}
use uquic.AckHandler.Sent.Entries.{tally}
use uquic.AckHandler.Sent.State.{IsTracked}
use uquic.AckHandler.Sent.Yield.{IsRising, AllFound, tracked-IsRising, tracked-AllFound}
use uquic.AckHandler.Sent.Flight.{
  charge, charge-le, flight, AllProbes, AllSent-at, declare_lost-LosesOne,
}
use uquic.AckHandler.Rtt.{reset_for_path_migration}
use uquic.AckHandler.Space.{new_packet_number_space}
use uquic.AckHandler.Sender.{
  SendAlgorithm, Sender, put_space, queue_frames_for_retransmission, notices_of, on_lost,
}
use uquic.AckHandler.Sender.Alarm.{set_loss_detection_timer}
use uquic.AckHandler.Sender.Restart.{
  number_of, leave_last, remove_while_iterating, remove_probes, lose_on_migration, migrated_path,
  requeue_all, reset_for_retry,
}
use uquic.AckHandler.Sender.Spaces.{
  IsBalanced, IsFine, flight_of, get-IsFine, put-AllFine, put-total, flight-le,
  remove_from_bytes_in_flight_lem,
}
use uquic.AckHandler.Sender.Picked.{remove_probe-IsProbe, IsProbe-left}
use uquic.AckHandler.Sender.Flight.{Forgets-AllFound}
use uquic.AckHandler.Sender.Kept.{Keeps, Ensures-need}

-- The path probes that are left are path probes.
remove_while_iterating-AllProbes :
    (rounds i : ℕ) (live dead : List Packet)
    → AllProbes live
    → AllProbes (remove_while_iterating rounds i live dead)
unfolding remove_while_iterating
remove_while_iterating-AllProbes zero i live dead fine = fine
remove_while_iterating-AllProbes (suc rounds) i live dead fine =
    let pn = number_of (get_elem? (live ++ dead) i) in
    let (found, left) = remove_probe live pn in
    remove_while_iterating-AllProbes rounds (i + 1) left (leave_last found live dead)
      (IsProbe-left pn (remove_probe live pn) (remove_probe-IsProbe live pn fine))

module _ {C : Type 0} where
  lose_on_migration-Keeps :
      (h : Sender C) (n : ℕ) (ps : List Packet)
      → IsBalanced 0 h
      → IsRising n ps
      → AllFound h.app_data_packets.history.packets ps
      → Keeps (lose_on_migration h ps)
  unfolding lose_on_migration queue_frames_for_retransmission
  lose_on_migration-Keeps h n [] balanced rising found = balanced
  lose_on_migration-Keeps h n (p ∷ ps) (fine, balance) (from, rising) (here, found) =
      let space = h.app_data_packets in
      let (tracked, (sent, probes)) = get-IsFine h one_rtt space refl fine in
      let owed : charge p ≤ h.bytes_in_flight = omega (
        arith,
        charge-le space.history.packets p.packet_number p here,
        flight-le h one_rtt space refl,
        balance,
      ) in
      let (history, (lost, (tracked', (forgets, less)))) =
        declare_lost-LosesOne space.history p.packet_number p tracked here in
      let space' = record space { history = history } in
      let h1 = put_space h one_rtt space' in
      let fine1 =
        put-AllFine h one_rtt space' fine
          (tracked', (less.1.0 sent, subst AllProbes (sym less.1.1) probes)) in
      let sum = put-total h one_rtt space space' refl in
      let kept =
        Forgets-AllFound p.packet_number (p.packet_number + 1) space.history history ps forgets
          (omega arith) rising found in
      let paid = remove_from_bytes_in_flight_lem h1 p owed in
      let next =
        λ (x : Sender C) (b : IsBalanced 0 x) (f : AllFound x.app_data_packets.history.packets ps).
          lose_on_migration-Keeps x (p.packet_number + 1) ps b rising f in
      elim (AllSent-at space.history.packets p.packet_number p sent here) [
        | inl (regular, frames) ↦
            rw (lost, regular, paid, frames)
              (next
                (record h1 {
                  bytes_in_flight = h1.bytes_in_flight - charge p;
                  notices = h1.notices ++ notices_of on_lost p;
                })
                (fine1, omega (arith, sum, less.0, balance, owed)) kept)
        | inr (irregular, free) ↦
            rw (lost, irregular) (next h1 (fine1, omega (arith, sum, less.0, free, balance)) kept)
      ]

  pub migrated_path-Keeps :
      (algorithm : SendAlgorithm C) (h : Sender C) (now size : ℕ)
      → IsBalanced 0 h
      → Keeps (migrated_path algorithm h now size)
  unfolding migrated_path set_loss_detection_timer remove_probes
  migrated_path-Keeps algorithm h now size balanced =
      let history = h.app_data_packets.history in
      let tracked = (get-IsFine h one_rtt h.app_data_packets refl balanced.0).0 in
      Ensures-bind (IsBalanced 0) (IsBalanced 0)
        (lose_on_migration (record h { rtt_stats = reset_for_path_migration h.rtt_stats })
          (yielded history.packets))
        _
        (lose_on_migration-Keeps (record h { rtt_stats = reset_for_path_migration h.rtt_stats }) 0
          (yielded history.packets) balanced (tracked-IsRising history tracked)
          (tracked-AllFound history tracked))
        (λ h2 (fine2, balance2).
          let history2 = h2.app_data_packets.history in
          let (tracked2, (sent2, probes2)) = get-IsFine h2 one_rtt h2.app_data_packets refl fine2 in
          let tracked3 : IsTracked
              (record history2 { path_probe_packets = remove_probes history2.path_probe_packets }) =
            record {
              numbered = tracked2.numbered;
              counted = tracked2.counted;
              starts = tracked2.starts;
            } in
          let probes = history2.path_probe_packets in
          (
            (
              fine2.0,
              (
                fine2.1.0,
                (
                  tracked3,
                  (sent2, remove_while_iterating-AllProbes (length probes) 0 probes [] probes2),
                ),
              ),
            ),
            balance2,
          ))

  -- The spaces stay, and no bytes are in flight.
  abbrev IsEmptied : Sender C → Sender C → Type 0
  IsEmptied h h' = (h'.bytes_in_flight ≡ 0) × (h'.handshake_packets ≡ h.handshake_packets)

  requeue_all-Ensures :
      (h h1 : Sender C) (ps : List Packet)
      → IsEmptied h h1
      → Ensures (IsEmptied h) (requeue_all h1 ps)
  unfolding requeue_all queue_frames_for_retransmission
  requeue_all-Ensures h h1 [] emptied = emptied
  requeue_all-Ensures h h1 (p ∷ ps) emptied =
      Ensures-bind (IsEmptied h) (IsEmptied h)
        (if not p.declared_lost && not p.skipped_packet
          then queue_frames_for_retransmission h1 p
          else ok h1)
        _
        (if_intro (Ensures (IsEmptied h)) (not p.declared_lost && not p.skipped_packet)
          (if_intro (Ensures (IsEmptied h))
            (is_empty_list p.frames && is_empty_list p.stream_frames) tt emptied)
          emptied)
        (λ h2 emptied2. requeue_all-Ensures h h2 ps emptied2)

  pub reset_for_retry-Keeps :
      (f g : ℕ → ℕ → ℕ) (h : Sender C) (now drawn : ℕ)
      → IsBalanced 0 h
      → flight_of h.handshake_packets ≡ 0
      → Keeps (reset_for_retry f g h now drawn)
  unfolding reset_for_retry new_packet_number_space new_sent_packet_history tally flight
  reset_for_retry-Keeps f g h now drawn (fine, balance) quiet =
      Ensures-need (IsBalanced 0) h.initial_packets _ (λ space is.
        Ensures-bind (IsEmptied h) (IsBalanced 0)
          (requeue_all (record h { bytes_in_flight = 0 }) (yielded space.history.packets)) _
          (requeue_all-Ensures h (record h { bytes_in_flight = 0 }) (yielded space.history.packets)
            (refl, refl))
          (λ h1 emptied1.
            Ensures-bind (IsEmptied h) (IsBalanced 0)
              (requeue_all h1 (yielded h.app_data_packets.history.packets)) _
              (requeue_all-Ensures h h1 (yielded h.app_data_packets.history.packets) emptied1)
              (λ h2 (no_bytes, same).
                let empty : IsTracked new_sent_packet_history = record {
                  numbered = refl;
                  counted = refl;
                  starts = refl;
                } in
                (
                  ((empty, (tt, tt)), (subst IsFine (sym same) fine.1.0, (empty, (tt, tt)))),
                  omega (arith, no_bytes, ap flight_of same, quiet),
                ))))
