-- ===== src/AckHandler/Sender/Dropped.antt =====
-- Bytes in flight when the packets of a level are dropped.
use uquic.Shared.{
  ℕ, ◌+◌, ◌-◌, ◌≤◌, ◌≡◌, refl, sym, ap, ◌∙◌, subst, not, ◌&&◌, ◌||◌, Option, none, some, List, [],
  ◌∷◌, arith, if_intro, Ensures-bind, ok, ◌>>=◌,
}
use uquic.Wire.Frame.{EncryptionLevel, initial, handshake, zero_rtt, one_rtt}
use uquic.AckHandler.Sent.{Packet, yielded}
use uquic.AckHandler.Sent.Yield.{IsRising, AllFound, tracked-IsRising, tracked-AllFound}
use uquic.AckHandler.Sent.Flight.{charge, charge-le, flight, AllProbes, remove-RemovesOne}
use uquic.AckHandler.Space.{PacketNumberSpace}
use uquic.AckHandler.Sender.{Sender, put_space, remove_all_from_bytes_in_flight}
use uquic.AckHandler.Sender.Alarm.{set_loss_detection_timer}
use uquic.AckHandler.Sender.Control.{
  packets_of, is_zero_rtt_packet, drop_zero_rtt, drop_space, is_gone, completes_on_drop,
  drop_packets,
}
use uquic.AckHandler.Sender.Spaces.{
  IsBalanced, flight_of, get-IsFine, put-AllFine, put-bytes, put-total, flight-le,
  remove_from_bytes_in_flight_lem,
}
use uquic.AckHandler.Sender.Picked.{charges, AllOwed, Forgets-AllOwed}
use uquic.AckHandler.Sender.Kept.{Keeps}

charges-yielded : (entries : List (Option Packet)) → charges (yielded entries) ≡ flight entries
unfolding charges yielded flight
charges-yielded [] = refl
charges-yielded (none ∷ entries) = charges-yielded entries
charges-yielded (some p ∷ entries) = ap (λ n. charge p + n) (charges-yielded entries)

charges-packets_of :
    (space : Option PacketNumberSpace) → charges (packets_of space) ≡ flight_of space
unfolding charges
charges-packets_of none = refl
charges-packets_of (some space) = charges-yielded space.history.packets

AllFound-AllOwed :
    (entries : List (Option Packet)) (ps : List Packet) → AllFound entries ps → AllOwed entries ps
AllFound-AllOwed entries [] found = tt
AllFound-AllOwed entries (p ∷ ps) (here, found) =
    ((p, (here, refl)), AllFound-AllOwed entries ps found)

module _ {C : Type 0} where
  remove_all-paid :
      (h : Sender C) (ps : List Packet) (left : ℕ)
      → h.bytes_in_flight ≡ charges ps + left
      → remove_all_from_bytes_in_flight h ps ≡ ok (record h { bytes_in_flight = left })
  unfolding remove_all_from_bytes_in_flight charges
  remove_all-paid h [] left sum =
      ap (λ n. ok (record h { bytes_in_flight = n })) (omega (arith, sum))
  remove_all-paid h (p ∷ ps) left sum =
      let paid = remove_from_bytes_in_flight_lem h p (omega (arith, sum)) in
      let h1 : Sender C = record h { bytes_in_flight = h.bytes_in_flight - charge p } in
      ap (λ r. r >>= λ x. remove_all_from_bytes_in_flight x ps) paid
      ∙ remove_all-paid h1 ps left (omega (arith, sum))

  drop_zero_rtt-Keeps :
      (h : Sender C) (n : ℕ) (ps : List Packet)
      → IsBalanced 0 h
      → IsRising n ps
      → AllOwed h.app_data_packets.history.packets ps
      → Keeps (drop_zero_rtt h ps)
  unfolding drop_zero_rtt
  drop_zero_rtt-Keeps h n [] balanced rising owed = balanced
  drop_zero_rtt-Keeps h n (p ∷ ps) (fine, balance) (from, rising) ((q, (found, same)), all_owed) =
      let space = h.app_data_packets in
      let (tracked, (sent, probes)) = get-IsFine h one_rtt space refl fine in
      let owed : charge p ≤ h.bytes_in_flight = omega (
        arith,
        charge-le space.history.packets p.packet_number q found,
        same,
        flight-le h one_rtt space refl,
        balance,
      ) in
      let paid = remove_from_bytes_in_flight_lem h p owed in
      let h1 : Sender C = record h { bytes_in_flight = h.bytes_in_flight - charge p } in
      let (history, (removed, (tracked', (forgets, less)))) =
        remove-RemovesOne space.history p.packet_number q tracked sent found in
      let space' = record space { history = history } in
      let balanced' : IsBalanced 0 (put_space h1 one_rtt space') = (
        put-AllFine h1 one_rtt space' fine
            (tracked', (less.1.0 sent, subst AllProbes (sym less.1.1) probes)),
        omega (
          arith,
          put-bytes h1 one_rtt space',
          put-total h1 one_rtt space space' refl,
          less.0,
          same,
          balance,
          owed,
        ),
      ) in
      let kept =
        Forgets-AllOwed p.packet_number (p.packet_number + 1) space.history history ps forgets
          (omega arith) rising all_owed in
      if_intro Keeps (not (is_zero_rtt_packet p) && not p.skipped_packet) (fine, balance)
        (rw (paid, removed)
          (drop_zero_rtt-Keeps (put_space h1 one_rtt space') (p.packet_number + 1) ps balanced'
            rising kept))

  drop_space-Keeps :
      (h : Sender C) (level : EncryptionLevel) → IsBalanced 0 h → Keeps (drop_space h level)
  unfolding drop_space
  drop_space-Keeps h initial (fine, balance) =
      let charged = charges-packets_of h.initial_packets in
      let left = flight_of h.handshake_packets + flight_of (some h.app_data_packets) in
      rw (remove_all-paid h (packets_of h.initial_packets) left (omega (arith, balance, charged)))
        ((tt, fine.1), omega arith)
  drop_space-Keeps h handshake (fine, balance) =
      let charged = charges-packets_of h.handshake_packets in
      let left = flight_of h.initial_packets + flight_of (some h.app_data_packets) in
      rw (remove_all-paid h (packets_of h.handshake_packets) left (omega (arith, balance, charged)))
        ((fine.0, (tt, fine.1.1)), omega arith)
  drop_space-Keeps h zero_rtt balanced =
      let history = h.app_data_packets.history in
      let tracked = (get-IsFine h one_rtt h.app_data_packets refl balanced.0).0 in
      drop_zero_rtt-Keeps h 0 (yielded history.packets) balanced (tracked-IsRising history tracked)
        (AllFound-AllOwed history.packets (yielded history.packets)
          (tracked-AllFound history tracked))
  drop_space-Keeps h one_rtt balanced = tt

  pub drop_packets-Keeps :
      (h : Sender C) (level : EncryptionLevel) (now : ℕ)
      → IsBalanced 0 h
      → Keeps (drop_packets h level now)
  unfolding drop_packets set_loss_detection_timer
  drop_packets-Keeps h level now balanced =
      let h1 : Sender C = record h {
        peer_completed_address_validation =
            completes_on_drop h level || h.peer_completed_address_validation;
      } in
      if_intro Keeps (is_gone h level) balanced (
        Ensures-bind (IsBalanced 0) (IsBalanced 0) (drop_space h1 level) _
          (drop_space-Keeps h1 level balanced) (λ h2 balanced2. balanced2))
