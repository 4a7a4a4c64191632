-- ===== src/AckHandler/Sent.antt =====
-- internal/ackhandler/sent_packet_history.go and packet.go: the packets that await an acknowledgement.
-- The slice is a list, a nil pointer in it is `none`. A time is a number, 0 the zero time. Packet numbers
-- do not reach 2^62, so sums and differences of them do not wrap. `none` stands for InvalidPacketNumber.
pub mod Entries
pub mod Removal
pub mod State
pub mod Calls
pub mod Sends
pub mod First
pub mod Flight
pub mod Added
pub mod Yield
mod Runs
use uquic.Shared.{
  ℕ, zero, suc, ◌+◌, ◌-◌, Bool, true, false, not, ◌&&◌, Option, none, some, List, [], ◌∷◌, ◌++◌,
  ltb, ◌==◌, if◌then◌else◌, Result, ok, err, Panic, panic, ◌>>=◌, ◌>>◌, length, get_elem?,
}
use uquic.Wire.Frame.{EncryptionLevel}

-- A frame with its handler, or with a nil handler. The number tells frames apart.
pub record HandledFrame : Type 0 where
  pub frame : ℕ
  pub has_handler : Bool

pub record Packet : Type 0 where
  pub send_time : ℕ
  pub packet_number : ℕ
  pub stream_frames : List HandledFrame
  pub frames : List HandledFrame
  pub largest_acked : Option ℕ
  pub length : ℕ
  -- none for the zero value
  pub encryption_level : Option EncryptionLevel
  pub is_path_mtu_probe_packet : Bool
  pub included_in_bytes_in_flight : Bool
  pub declared_lost : Bool
  pub skipped_packet : Bool
  pub is_path_probe_packet : Bool

-- `&packet{PacketNumber: pn}`
abbrev pub packet_at : ℕ → Packet
packet_at pn = record {
  send_time = 0;
  packet_number = pn;
  stream_frames = [];
  frames = [];
  largest_acked = some 0;
  length = 0;
  encryption_level = none;
  is_path_mtu_probe_packet = false;
  included_in_bytes_in_flight = false;
  declared_lost = false;
  skipped_packet = false;
  is_path_probe_packet = false;
}

abbrev pub is_empty_list {ℓ} : {A : Type ℓ} → List A → Bool
is_empty_list [] = true
is_empty_list (x ∷ xs) = false

unfoldable pub outstanding : Packet → Bool
outstanding p =
    not p.declared_lost
    && (not p.skipped_packet && (not p.is_path_mtu_probe_packet && not p.is_path_probe_packet))

pub record SentHistory : Type 0 where
  pub packets : List (Option Packet)
  pub path_probe_packets : List Packet
  pub num_outstanding : ℕ
  pub highest_packet_number : Option ℕ

unfoldable pub new_sent_packet_history : SentHistory
new_sent_packet_history = record {
  packets = [];
  path_probe_packets = [];
  num_outstanding = 0;
  highest_packet_number = none;
}

abbrev pub follows : Option ℕ → ℕ → Bool
follows none pn = true
follows (some highest) pn = pn == highest + 1

unfoldable pub check_sequential_packet_number_use : SentHistory → ℕ → Result Panic SentHistory
check_sequential_packet_number_use h pn =
    if follows h.highest_packet_number pn
    then ok (record h { highest_packet_number = some pn })
    else err panic

-- `&packet{PacketNumber: pn, skippedPacket: true}`
abbrev pub skipped_at : ℕ → Packet
skipped_at pn = record (packet_at pn) { skipped_packet = true }

-- `&packet{PacketNumber: p.PacketNumber, isPathProbePacket: true}`
abbrev pub probe_at : ℕ → Packet
probe_at pn = record (packet_at pn) { is_path_probe_packet = true }

abbrev pub push : Option Packet → SentHistory → SentHistory
push entry h = record h { packets = h.packets ++ (entry ∷ []) }

unfoldable pub skipped_packet_number : SentHistory → ℕ → Result Panic SentHistory
skipped_packet_number h pn = do
  h1 ← check_sequential_packet_number_use h pn
  ok (push (some (skipped_at pn)) h1)

abbrev pub is_empty : List (Option Packet) → Bool
is_empty [] = true
is_empty (entry ∷ entries) = false

unfoldable pub sent_non_ack_eliciting_packet : SentHistory → ℕ → Result Panic SentHistory
sent_non_ack_eliciting_packet h pn = do
  h1 ← check_sequential_packet_number_use h pn
  ok (if is_empty h1.packets then h1 else push none h1)

unfoldable pub sent_ack_eliciting_packet : SentHistory → Packet → Result Panic SentHistory
sent_ack_eliciting_packet h p = do
  h1 ← check_sequential_packet_number_use h p.packet_number
  let h2 = push (some p) h1
  ok (if outstanding p then record h2 { num_outstanding = h2.num_outstanding + 1 } else h2)

unfoldable pub sent_path_probe_packet : SentHistory → Packet → Result Panic SentHistory
sent_path_probe_packet h p = do
  h1 ← check_sequential_packet_number_use h p.packet_number
  let h2 = push (some (probe_at p.packet_number)) h1
  ok (record h2 { path_probe_packets = h2.path_probe_packets ++ (p ∷ []) })

-- What `Packets` and `PathProbes` yield.
unfoldable pub yielded : List (Option Packet) → List Packet
yielded [] = []
yielded (none ∷ entries) = yielded entries
yielded (some p ∷ entries) = p ∷ yielded entries

unfoldable pub has_outstanding_packets : SentHistory → Bool
has_outstanding_packets h = ltb 0 h.num_outstanding

unfoldable pub has_outstanding_path_probes : SentHistory → Bool
has_outstanding_path_probes h = ltb 0 (length h.path_probe_packets)

unfoldable pub find_outstanding : List (Option Packet) → Option Packet
find_outstanding [] = none
find_outstanding (none ∷ entries) = find_outstanding entries
find_outstanding (some p ∷ entries) = if outstanding p then some p else find_outstanding entries

unfoldable pub first_outstanding : SentHistory → Option Packet
first_outstanding h = if not (has_outstanding_packets h) then none else find_outstanding h.packets

unfoldable pub first_outstanding_path_probe : SentHistory → Option Packet
first_outstanding_path_probe h = get_elem? h.path_probe_packets 0

-- The index of a packet number. A nil pointer at the start panics.
unfoldable pub index_in : List (Option Packet) → ℕ → Result Panic (Option ℕ)
index_in [] pn = ok none
index_in (none ∷ entries) pn = err panic
index_in (some first ∷ entries) pn =
    if ltb pn first.packet_number
    then ok none
    else if ltb (length entries) (pn - first.packet_number)
    then ok none
    else ok (some (pn - first.packet_number))

unfoldable pub get_index : SentHistory → ℕ → Result Panic (Option ℕ)
get_index h pn = index_in h.packets pn

-- `h.packets[idx] = nil`
unfoldable pub clear : ℕ → List (Option Packet) → List (Option Packet)
clear i [] = []
clear zero (entry ∷ entries) = none ∷ entries
clear (suc i) (entry ∷ entries) = entry ∷ clear i entries

-- `p != nil && p.skippedPacket`
abbrev pub is_skipped : Option (Option Packet) → Bool
is_skipped (some (some p)) = p.skipped_packet
is_skipped (some none) = false
is_skipped none = false

-- The loop that cleans up the skipped packets directly before an index: the index where it ends, too.
unfoldable pub clear_skipped : ℕ → List (Option Packet) → ℕ × List (Option Packet)
clear_skipped zero entries = (0, entries)
clear_skipped (suc i) entries =
    let rest = clear_skipped i (clear i entries) in
    if is_skipped (get_elem? entries i) then rest else (i, entries)

unfoldable pub cleanup_start : List (Option Packet) → List (Option Packet)
cleanup_start [] = []
cleanup_start (none ∷ entries) = cleanup_start entries
cleanup_start (some p ∷ entries) = some p ∷ entries

-- `numOutstanding--` for an outstanding packet, with its check.
unfoldable pub discount : Packet → ℕ → Result Panic ℕ
discount p n = if outstanding p then (if n == 0 then err panic else ok (n - 1)) else ok n

-- `p.outstanding()` on the entry at an index, which panics on a nil pointer.
unfoldable pub discount_entry : Option (Option Packet) → ℕ → Result Panic ℕ
discount_entry (some (some p)) n = discount p n
discount_entry (some none) n = err panic
discount_entry none n = err panic

abbrev pub starts_with_nil : List (Option Packet) → Bool
starts_with_nil (none ∷ entries) = true
starts_with_nil _ = false

-- Remove answers whether the packet number was found, the nil error, or panics.
unfoldable pub remove_at : SentHistory → ℕ → Result Panic SentHistory
remove_at h i = do
  n ← discount_entry (get_elem? h.packets i) h.num_outstanding
  let (at, entries) = clear_skipped i (clear i h.packets)
  let entries1 = if at == 0 then cleanup_start entries else entries
  if starts_with_nil entries1
      then err panic
      else ok (record h { packets = entries1; num_outstanding = n })

unfoldable pub remove_found : SentHistory → Option ℕ → Result Panic (Bool × SentHistory)
remove_found h none = ok (false, h)
remove_found h (some i) = do h1 ← remove_at h i; ok (true, h1)

unfoldable pub remove : SentHistory → ℕ → Result Panic (Bool × SentHistory)
remove h pn = do found ← get_index h pn; remove_found h found

unfoldable pub declare_lost_at : SentHistory → Option ℕ → Result Panic SentHistory
declare_lost_at h none = ok h
declare_lost_at h (some i) = do
  n ← discount_entry (get_elem? h.packets i) h.num_outstanding
  let entries = clear i h.packets
  ok (record h { packets = if i == 0 then cleanup_start entries else entries; num_outstanding = n })

unfoldable pub declare_lost : SentHistory → ℕ → Result Panic SentHistory
declare_lost h pn = do found ← get_index h pn; declare_lost_at h found

unfoldable pub remove_probe : List Packet → ℕ → Option Packet × List Packet
remove_probe [] pn = (none, [])
remove_probe (p ∷ probes) pn =
    let (found, rest) = remove_probe probes pn in
    if p.packet_number == pn then (some p, probes) else (found, p ∷ rest)

unfoldable pub remove_path_probe : SentHistory → ℕ → Option Packet × SentHistory
remove_path_probe h pn =
    let (found, probes) = remove_probe h.path_probe_packets pn in
    (found, record h { path_probe_packets = probes })

-- `h.packets[0].PacketNumber`, which panics on a nil pointer.
unfoldable pub lowest_of : List (Option Packet) → Result Panic (Option ℕ)
lowest_of [] = ok none
lowest_of (none ∷ entries) = err panic
lowest_of (some p ∷ entries) = ok (some p.packet_number)

unfoldable pub lowest_packet_number : SentHistory → Result Panic (Option ℕ)
lowest_packet_number h = lowest_of h.packets
