-- ===== src/AckHandler/Sender/Acks.antt =====
-- detectAndRemoveAckedPackets of sent_packet_handler.go.
use uquic.Shared.{
  ℕ, ◌+◌, max, Bool, true, false, ◌&&◌, Option, none, some, List, [], ◌∷◌, ◌++◌, reverse, ltb, leb,
  if◌then◌else◌, Result, ok, err, ◌>>=◌,
}
use uquic.Wire.AckFrame.{AckRange, AckFrame}
use uquic.Wire.AckFrame.Query.{largest_acked, lowest_acked, has_missing_ranges}
use uquic.Wire.Frame.{EncryptionLevel}
use uquic.AckHandler.Sent.{Packet, SentHistory, yielded, remove, remove_probe}
use uquic.AckHandler.Sender.{
  Sender, SenderError, panics, ack_for_skipped_packet, bug_wrong_packet, not_in_history, lift, need,
  is_one_rtt, get_packet_number_space, put_space, notices_of, on_acked,
}

-- The loop that moves on to the next higher range; the ranges are listed from the lowest up.
unfoldable pub advance : ℕ → AckRange → List AckRange → AckRange × List AckRange
advance pn cur [] = (cur, [])
advance pn cur (r ∷ rs) = if ltb cur.largest pn then advance pn r rs else (cur, r ∷ rs)

-- What the loop does with a packet, after it moved on to a range.
pub data Verdict : Type 0 where
  passes stops takes takes_probe : Verdict
  fails : SenderError → Verdict

unfoldable pub judge : (missing : Bool) (lowest largest : ℕ) → AckRange → Packet → Verdict
judge missing lowest largest range p =
    if ltb p.packet_number lowest
    then passes
    else if ltb largest p.packet_number
    then stops
    else if missing && ltb p.packet_number range.smallest
    then passes
    else if missing && ltb range.largest p.packet_number
    then fails (bug_wrong_packet p.packet_number)
    else if p.skipped_packet
    then fails (ack_for_skipped_packet p.packet_number)
    else if p.is_path_probe_packet
    then takes_probe
    else takes

-- The range that is looked at for a packet.
unfoldable pub ranges_for :
    (missing : Bool) (lowest largest : ℕ)
    → Packet
    → AckRange
    → List AckRange
    → AckRange × List AckRange
ranges_for missing lowest largest p cur more =
    if missing && (leb lowest p.packet_number && leb p.packet_number largest)
    then advance p.packet_number cur more
    else (cur, more)

-- The newly acknowledged packets, and the path probes that are left.
abbrev pub Collected : Type 0
Collected = Result SenderError (List Packet × List Packet)

abbrev pub add_acked : Packet → Collected → Collected
add_acked p (ok (acked, probes)) = ok (p ∷ acked, probes)
add_acked p (err e) = err e

abbrev pub add_probe : Option Packet → Collected → Collected
add_probe none c = c
add_probe (some p) c = add_acked p c

abbrev pub follow : Verdict → Packet → Option Packet → List Packet → Collected → Collected
follow passes p probe probes rest = rest
follow stops p probe probes rest = ok ([], probes)
follow takes p probe probes rest = add_acked p rest
follow takes_probe p probe probes rest = add_probe probe rest
follow (fails e) p probe probes rest = err e

-- A probe packet may have been declared lost already.
abbrev pub take_probe : Verdict → List Packet → ℕ → Option Packet × List Packet
take_probe takes_probe probes pn = remove_probe probes pn
take_probe _ probes pn = (none, probes)

-- The first loop.
unfoldable pub collect :
    (missing : Bool) (lowest largest : ℕ)
    → AckRange
    → List AckRange
    → List Packet
    → List Packet
    → Collected
collect missing lowest largest cur more [] probes = ok ([], probes)
collect missing lowest largest cur more (p ∷ ps) probes =
    let (cur1, more1) = ranges_for missing lowest largest p cur more in
    let verdict = judge missing lowest largest cur1 p in
    let (probe, probes1) = take_probe verdict probes p.packet_number in
    follow verdict p probe probes (collect missing lowest largest cur1 more1 ps probes1)

abbrev pub collect_from :
    (missing : Bool) (lowest largest : ℕ) → List AckRange → List Packet → List Packet → Collected
collect_from missing lowest largest [] ps probes = err panics
collect_from missing lowest largest (r ∷ rs) ps probes =
    collect missing lowest largest r rs ps probes

-- `max(h.lowestNotConfirmedAcked, p.LargestAcked+1)`
abbrev pub confirm_acked : EncryptionLevel → Option ℕ → ℕ → ℕ
confirm_acked level none lowest = lowest
confirm_acked level (some l) lowest = if is_one_rtt level then max lowest (l + 1) else lowest

abbrev pub found_in : ℕ → Bool × SentHistory → Result SenderError SentHistory
found_in pn (true, history) = ok history
found_in pn (false, history) = err (not_in_history pn)

module _ {C : Type 0} where
  -- The second loop, for one packet.
  unfoldable pub acknowledge : Sender C → EncryptionLevel → Packet → Result SenderError (Sender C)
  acknowledge h level p = do
    let h1 = record h {
      lowest_not_confirmed_acked = confirm_acked level p.largest_acked h.lowest_not_confirmed_acked;
      notices = h.notices ++ notices_of on_acked p;
    }
    space ← need (get_packet_number_space h1 level)
    removed ← lift (remove space.history p.packet_number)
    history ← found_in p.packet_number removed
    ok (put_space h1 level (record space { history = history }))

  unfoldable pub acknowledge_all :
      Sender C → EncryptionLevel → List Packet → Result SenderError (Sender C)
  acknowledge_all h level [] = ok h
  acknowledge_all h level (p ∷ ps) = do h1 ← acknowledge h level p; acknowledge_all h1 level ps

  unfoldable pub detect_and_remove_acked_packets :
      Sender C → AckFrame → EncryptionLevel → Result SenderError (List Packet × Sender C)
  detect_and_remove_acked_packets h ack level = do
    space ← need (get_packet_number_space h level)
    lowest ← lift (lowest_acked ack)
    largest ← lift (largest_acked ack)
    let history = space.history
    (acked, probes) ←
        collect_from (has_missing_ranges ack) lowest largest (reverse ack.ack_ranges)
          (yielded history.packets) history.path_probe_packets
    let space1 = record space { history = record history { path_probe_packets = probes } }
    h1 ← acknowledge_all (put_space h level space1) level acked
    ok (acked, h1)
