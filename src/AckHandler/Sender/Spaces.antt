-- ===== src/AckHandler/Sender/Spaces.antt =====
-- The packet number spaces of a sender, and the sum of their bytes in flight.
use uquic.Shared.{
  ℕ, ◌+◌, ◌-◌, ◌≤◌, ◌≡◌, refl, ap, subst, inl, inr, false, Option, none, some, List, arith, ltb,
  Bool-cases, ok,
}
use uquic.Wire.Frame.{EncryptionLevel, initial, handshake, zero_rtt, one_rtt}
use uquic.AckHandler.Ecn.{EcnTracker}
use uquic.AckHandler.Sent.{Packet}
use uquic.AckHandler.Sent.State.{IsTracked}
use uquic.AckHandler.Sent.Flight.{charge, flight, AllProbes, AllSent}
use uquic.AckHandler.Space.{PacketNumberSpace}
use uquic.AckHandler.Sender.{
  Sender, Notice, get_packet_number_space, put_space, remove_from_bytes_in_flight,
}

-- The bytes in flight of a space.
abbrev pub flight_of : Option PacketNumberSpace → ℕ
flight_of none = 0
flight_of (some space) = flight space.history.packets

-- A space with a tracked history of packets that were sent, and of path probes.
abbrev pub IsFine : Option PacketNumberSpace → Type 0
IsFine none = Unit
IsFine (some space) =
    IsTracked space.history
    × (AllSent space.history.packets × AllProbes space.history.path_probe_packets)

module _ {C : Type 0} where
  abbrev pub total : Sender C → ℕ
  total h =
      flight_of h.initial_packets
      + flight_of h.handshake_packets
      + flight_of (some h.app_data_packets)

  abbrev pub AllFine : Sender C → Type 0
  AllFine h =
      IsFine h.initial_packets × (IsFine h.handshake_packets × IsFine (some h.app_data_packets))

  -- All histories are tracked, and bytes in flight are the sum of the packets in them that count, and the
  -- bytes owed by packets that left a history.
  abbrev pub IsBalanced : ℕ → Sender C → Type 0
  IsBalanced owed h = AllFine h × (h.bytes_in_flight ≡ total h + owed)

  pub get-put :
      (h : Sender C) (level : EncryptionLevel) (space : PacketNumberSpace)
      → get_packet_number_space (put_space h level space) level ≡ some space
  get-put h initial space = refl
  get-put h handshake space = refl
  get-put h zero_rtt space = refl
  get-put h one_rtt space = refl

  pub put-bytes :
      (h : Sender C) (level : EncryptionLevel) (space : PacketNumberSpace)
      → (put_space h level space).bytes_in_flight ≡ h.bytes_in_flight
  put-bytes h initial space = refl
  put-bytes h handshake space = refl
  put-bytes h zero_rtt space = refl
  put-bytes h one_rtt space = refl

  -- The same spaces.
  abbrev pub rest_of : Sender C → ℕ → C → Option EcnTracker → List Notice → Sender C
  rest_of h bytes congestion tracker notices = record h {
    bytes_in_flight = bytes;
    congestion = congestion;
    ecn_tracker = tracker;
    notices = notices;
  }

  pub get-rest_of :
      (h : Sender C) (bytes : ℕ) (c : C) (t : Option EcnTracker) (ns : List Notice)
      (level : EncryptionLevel)
      → get_packet_number_space (rest_of h bytes c t ns) level ≡ get_packet_number_space h level
  get-rest_of h bytes c t ns initial = refl
  get-rest_of h bytes c t ns handshake = refl
  get-rest_of h bytes c t ns zero_rtt = refl
  get-rest_of h bytes c t ns one_rtt = refl

  pub put-total :
      (h : Sender C) (level : EncryptionLevel) (space space' : PacketNumberSpace)
      → get_packet_number_space h level ≡ some space
      → total (put_space h level space') + flight space.history.packets
        ≡ total h + flight space'.history.packets
  put-total h initial space space' is = omega (arith, ap flight_of is)
  put-total h handshake space space' is = omega (arith, ap flight_of is)
  put-total h zero_rtt space space' is = omega (arith, ap flight_of is)
  put-total h one_rtt space space' is = omega (arith, ap flight_of is)

  pub get-IsFine :
      (h : Sender C) (level : EncryptionLevel) (space : PacketNumberSpace)
      → get_packet_number_space h level ≡ some space
      → AllFine h
      → IsFine (some space)
  get-IsFine h initial space is fine = subst IsFine is fine.0
  get-IsFine h handshake space is fine = subst IsFine is fine.1.0
  get-IsFine h zero_rtt space is fine = subst IsFine is fine.1.1
  get-IsFine h one_rtt space is fine = subst IsFine is fine.1.1

  pub put-AllFine :
      (h : Sender C) (level : EncryptionLevel) (space : PacketNumberSpace)
      → AllFine h
      → IsFine (some space)
      → AllFine (put_space h level space)
  put-AllFine h initial space fine here = (here, fine.1)
  put-AllFine h handshake space fine here = (fine.0, (here, fine.1.1))
  put-AllFine h zero_rtt space fine here = (fine.0, (fine.1.0, here))
  put-AllFine h one_rtt space fine here = (fine.0, (fine.1.0, here))

  pub flight-le :
      (h : Sender C) (level : EncryptionLevel) (space : PacketNumberSpace)
      → get_packet_number_space h level ≡ some space
      → flight space.history.packets ≤ total h
  flight-le h initial space is = omega (arith, ap flight_of is)
  flight-le h handshake space is = omega (arith, ap flight_of is)
  flight-le h zero_rtt space is = omega (arith, ap flight_of is)
  flight-le h one_rtt space is = omega (arith, ap flight_of is)

  pub remove_from_bytes_in_flight_lem :
      (h : Sender C) (p : Packet)
      → charge p ≤ h.bytes_in_flight
      → remove_from_bytes_in_flight h p
        ≡ ok (record h { bytes_in_flight = h.bytes_in_flight - charge p })
  unfolding remove_from_bytes_in_flight
  remove_from_bytes_in_flight_lem h p enough = elim (Bool-cases p.included_in_bytes_in_flight) [
    | inl included ↦
        let few : ltb h.bytes_in_flight p.length ≡ false = ground arith in rw (included, few) refl
    | inr not_included ↦
        let same : h.bytes_in_flight ≡ h.bytes_in_flight - 0 = omega arith in
        rw not_included (ap (λ n. ok (record h { bytes_in_flight = n })) same)
  ]
