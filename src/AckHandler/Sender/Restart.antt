-- ===== src/AckHandler/Sender/Restart.antt =====
-- ResetForRetry, MigratedPath and newSentPacketHandler of sent_packet_handler.go. What the packet number generator
-- draws at random, and the weighted means of RTTStats, are arguments.
use uquic.Shared.{
  ℕ, zero, suc, ◌+◌, ◌-◌, ◌*◌, ◌^◌, min, max, Bool, true, false, not, ◌&&◌, Option, none, some,
  List, [], ◌∷◌, ◌++◌, ◌==◌, if◌then◌else◌, Result, ok, ◌>>=◌, length, get_elem?,
}
use uquic.Protocol.StreamId.{Perspective, server, client}
use uquic.AckHandler.Ecn.{new_ecn_tracker}
use uquic.AckHandler.Rtt.{RttStats, update_rtt, reset_for_path_migration}
use uquic.AckHandler.Sent.{Packet, yielded, declare_lost, remove_probe}
use uquic.AckHandler.Space.{
  sequential_generator, new_skipping_packet_number_generator, new_packet_number_space, peek,
}
use uquic.AckHandler.Sender.{
  SendAlgorithm, Sender, SenderError, lift, need, remove_from_bytes_in_flight,
  queue_frames_for_retransmission, send_none, no_alarm,
}
use uquic.AckHandler.Sender.Losses.{is_regular}
use uquic.AckHandler.Sender.Alarm.{set_loss_detection_timer}
use uquic.AckHandler.Sender.Calls.{last_of}

-- SkipPacketInitialPeriod and SkipPacketMaxPeriod
abbrev pub skip_packet_initial_period : ℕ
skip_packet_initial_period = 256

abbrev pub skip_packet_max_period : ℕ
skip_packet_max_period = 128 * 1024

-- minRTTAfterRetry
abbrev pub min_rtt_after_retry : ℕ
min_rtt_after_retry = 5000000

abbrev pub number_of : Option Packet → ℕ
number_of none = 0
number_of (some p) = p.packet_number

-- Removing an element moves the later ones down, and leaves the last in place after the slice.
abbrev pub leave_last : Option Packet → (live dead : List Packet) → List Packet
leave_last none live dead = dead
leave_last (some p) [] dead = dead
leave_last (some p) (q ∷ qs) dead = last_of q qs ∷ dead

-- The state of a slice while it is iterated over: `live` is the slice as it is now, `dead` the cells after
-- it in the array, which the iteration still reads.
unfoldable pub remove_while_iterating : (rounds i : ℕ) (live dead : List Packet) → List Packet
remove_while_iterating zero i live dead = live
remove_while_iterating (suc rounds) i live dead =
    let (found, left) = remove_probe live (number_of (get_elem? (live ++ dead) i)) in
    remove_while_iterating rounds (i + 1) left (leave_last found live dead)

-- The loop of MigratedPath over PathProbes, which calls RemovePathProbe.
unfoldable pub remove_probes : List Packet → List Packet
remove_probes probes = remove_while_iterating (length probes) 0 probes []

-- The send time of the first packet that has one.
unfoldable pub first_send_time : List Packet → ℕ
first_send_time [] = 0
first_send_time (p ∷ ps) = if p.send_time == 0 then first_send_time ps else p.send_time

module _ {C : Type 0} where
  unfoldable pub requeue_all : Sender C → List Packet → Result SenderError (Sender C)
  requeue_all h [] = ok h
  requeue_all h (p ∷ ps) = do
    h1 ←
        (if not p.declared_lost && not p.skipped_packet
          then queue_frames_for_retransmission h p
          else ok h)
    requeue_all h1 ps

  -- ResetForRetry
  unfoldable pub reset_for_retry :
      (mean_deviation_of smoothed_of : ℕ → ℕ → ℕ)
      → Sender C
      → (now drawn : ℕ) → Result SenderError (Sender C)
  reset_for_retry mean_deviation_of smoothed_of h now drawn = do
    space ← need h.initial_packets
    let sent = yielded space.history.packets
    h1 ← requeue_all (record h { bytes_in_flight = 0 }) sent
    h2 ← requeue_all h1 (yielded h.app_data_packets.history.packets)
    let delta = max min_rtt_after_retry (min (now - first_send_time sent) (2 ^ 63 - 1))
    ok (record h2 {
      rtt_stats =
          if h.pto_count == 0
          then update_rtt mean_deviation_of smoothed_of h.rtt_stats delta 0
          else h.rtt_stats;
      initial_packets = some (new_packet_number_space (sequential_generator (peek space.pns)));
      app_data_packets = new_packet_number_space (
          new_skipping_packet_number_generator (peek h.app_data_packets.pns)
            skip_packet_initial_period skip_packet_max_period drawn);
      alarm = no_alarm;
      pto_count = 0;
    })

  unfoldable pub lose_on_migration : Sender C → List Packet → Result SenderError (Sender C)
  lose_on_migration h [] = ok h
  lose_on_migration h (p ∷ ps) = do
    history ← lift (declare_lost h.app_data_packets.history p.packet_number)
    let h1 = record h { app_data_packets = record h.app_data_packets { history = history } }
    h2 ←
        (if is_regular p
          then remove_from_bytes_in_flight h1 p >>= (λ x. queue_frames_for_retransmission x p)
          else ok h1)
    lose_on_migration h2 ps

  -- MigratedPath
  unfoldable pub migrated_path :
      SendAlgorithm C
      → Sender C
      → (now initial_max_datagram_size : ℕ) → Result SenderError (Sender C)
  migrated_path algorithm h now initial_max_datagram_size = do
    let h1 = record h { rtt_stats = reset_for_path_migration h.rtt_stats }
    h2 ← lose_on_migration h1 (yielded h.app_data_packets.history.packets)
    let history = h2.app_data_packets.history
    let h3 = record h2 {
      app_data_packets = record h2.app_data_packets {
        history = record history { path_probe_packets = remove_probes history.path_probe_packets };
      };
      congestion = algorithm.fresh initial_max_datagram_size;
    }
    ok (set_loss_detection_timer h3 now)

-- newSentPacketHandler
unfoldable pub new_sent_packet_handler :
    {C : Type 0}
    → SendAlgorithm C
    → (initial_pn initial_max_datagram_size : ℕ) → RttStats
    → (client_address_validated enable_ecn : Bool) → Perspective
    → (drawn : ℕ) → Sender C
new_sent_packet_handler algorithm initial_pn size rtt_stats validated enable_ecn pers drawn =
    record {
      initial_packets = some (new_packet_number_space (sequential_generator initial_pn));
      handshake_packets = some (new_packet_number_space (sequential_generator 0));
      app_data_packets = new_packet_number_space (
          new_skipping_packet_number_generator 0 skip_packet_initial_period skip_packet_max_period
            drawn);
      peer_completed_address_validation = elim pers [ server ↦ true | client ↦ false ];
      bytes_received = 0;
      bytes_sent = 0;
      peer_address_validated = elim pers [ server ↦ validated | client ↦ true ];
      handshake_confirmed = false;
      lowest_not_confirmed_acked = 0;
      bytes_in_flight = 0;
      congestion = algorithm.fresh size;
      rtt_stats = rtt_stats;
      pto_count = 0;
      pto_mode = send_none;
      num_probes_to_send = 0;
      alarm = no_alarm;
      ecn_tracker = if enable_ecn then some new_ecn_tracker else none;
      perspective = pers;
      notices = [];
    }
