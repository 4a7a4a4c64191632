-- ===== src/AckHandler/Sender/Paid.antt =====
-- Bytes in flight when packets are acknowledged or path probes are lost.
use uquic.Shared.{
  ℕ, ◌+◌, ◌-◌, ◌≡◌, refl, sym, ap, ◌∙◌, subst, some, List, [], ◌∷◌, ◌++◌, arith, leb, if_intro,
  Result, ok, ◌>>=◌,
}
use uquic.Wire.Frame.{EncryptionLevel, initial, handshake, zero_rtt, one_rtt}
use uquic.AckHandler.Sent.{
  HandledFrame, Packet, remove_probe, remove_path_probe, has_outstanding_path_probes,
}
use uquic.AckHandler.Sent.Entries.{lookup}
use uquic.AckHandler.Sent.State.{IsTracked}
use uquic.AckHandler.Sent.Calls.{Forgets}
use uquic.AckHandler.Sent.Yield.{IsRising}
use uquic.AckHandler.Sent.Flight.{charge, AllProbes, AllHandled, remove-RemovesOne}
use uquic.AckHandler.Space.{PacketNumberSpace}
use uquic.AckHandler.Sender.{
  Sender, SenderError, Notice, on_lost, on_acked, notices_of, get_packet_number_space, put_space,
}
use uquic.AckHandler.Sender.Acks.{acknowledge, acknowledge_all, confirm_acked}
use uquic.AckHandler.Sender.Losses.{
  notify_lost, lost_probes, lose_probes, detect_lost_path_probes, path_probe_packet_loss_timeout,
}
use uquic.AckHandler.Sender.Spaces.{
  IsBalanced, get-put, put-bytes, put-total, get-IsFine, put-AllFine,
}
use uquic.AckHandler.Sender.Picked.{
  charges, AllOwed, remove_probe-IsProbe, IsProbe-left, Forgets-AllOwed,
}

-- A loop over lost probes, all of whose frames have handlers.
notify_lost-ok :
    (fs : List HandledFrame) → AllHandled fs → (ns : List Notice) × (notify_lost fs ≡ ok ns)
unfolding notify_lost
notify_lost-ok [] handled = ([], refl)
notify_lost-ok (f ∷ fs) (here, handled) =
    let (ns, done) = notify_lost-ok fs handled in (on_lost f.frame ∷ ns, rw (here, done) refl)

lost_probes-AllProbes :
    (time : ℕ) (ps : List Packet) → AllProbes ps → AllProbes (lost_probes time ps)
unfolding lost_probes
lost_probes-AllProbes time [] fine = tt
lost_probes-AllProbes time (p ∷ ps) (here, fine) =
    let rest = lost_probes-AllProbes time ps fine in
    if_intro AllProbes (leb p.send_time time) (here, rest) rest

module _ {C : Type 0} where
  -- A packet is told of, and the spaces are the same.
  abbrev told : Sender C → EncryptionLevel → Packet → Sender C
  told h level p = record h {
    lowest_not_confirmed_acked = confirm_acked level p.largest_acked h.lowest_not_confirmed_acked;
    notices = h.notices ++ notices_of on_acked p;
  }

  get-told :
      (h : Sender C) (l level : EncryptionLevel) (p : Packet)
      → get_packet_number_space (told h l p) level ≡ get_packet_number_space h level
  get-told h l initial p = refl
  get-told h l handshake p = refl
  get-told h l zero_rtt p = refl
  get-told h l one_rtt p = refl

  -- The result of an operation on a space, with what it owes.
  abbrev pub Leaves : ℕ → Result SenderError (Sender C) → Type 0
  Leaves owed r = (h' : Sender C) × ((r ≡ ok h') × IsBalanced owed h')

  acknowledge-Leaves :
      (h : Sender C) (level : EncryptionLevel) (owed : ℕ) (space : PacketNumberSpace) (p q : Packet)
      → IsBalanced owed h
      → get_packet_number_space h level ≡ some space
      → lookup space.history.packets p.packet_number ≡ some q
      → charge q ≡ charge p
      → (h' : Sender C) × ((space' : PacketNumberSpace) × ((acknowledge h level p ≡ ok h')
            × (IsBalanced (charge p + owed) h'
                × ((get_packet_number_space h' level ≡ some space')
                    × Forgets p.packet_number space.history space'.history))))
  unfolding acknowledge
  acknowledge-Leaves h level owed space p q (fine, balance) is found same =
      let h1 = told h level p in
      let is1 = get-told h level level p ∙ is in
      let (tracked, (sent, probes)) = get-IsFine h level space is fine in
      let (history, (removed, (tracked', (forgets, less)))) =
        remove-RemovesOne space.history p.packet_number q tracked sent found in
      let space' = record space { history = history } in
      let fine' =
        put-AllFine h1 level space' fine
          (tracked', (less.1.0 sent, subst AllProbes (sym less.1.1) probes)) in
      let bytes = put-bytes h1 level space' in
      let sum = put-total h1 level space space' is1 in
      (
        put_space h1 level space',
        (
          space',
          (
            rw (is1, removed) refl,
            (
              (fine', omega (arith, bytes, sum, less.0, same, balance)),
              (get-put h1 level space', forgets),
            ),
          ),
        ),
      )

  pub acknowledge_all-Leaves :
      (h : Sender C) (level : EncryptionLevel) (owed n : ℕ) (space : PacketNumberSpace)
      (ps : List Packet)
      → IsBalanced owed h
      → get_packet_number_space h level ≡ some space
      → IsRising n ps
      → AllOwed space.history.packets ps
      → (h' : Sender C) × ((space' : PacketNumberSpace) × ((acknowledge_all h level ps ≡ ok h')
            × (IsBalanced (charges ps + owed) h'
                × (get_packet_number_space h' level ≡ some space'))))
  unfolding acknowledge_all charges
  acknowledge_all-Leaves h level owed n space [] balanced is rising all_owed =
      (h, (space, (refl, ((balanced.0, omega (arith, balanced.1)), is))))
  acknowledge_all-Leaves h level owed n space (p ∷ ps) balanced is (from, rising)
        ((q, (found, same)), all_owed) =
      let (h1, (space1, (done, (balanced1, (is1, forgets))))) =
        acknowledge-Leaves h level owed space p q balanced is found same in
      let kept =
        Forgets-AllOwed p.packet_number (p.packet_number + 1) space.history space1.history ps
          forgets (omega arith) rising all_owed in
      let (h2, (space2, (done2, (balanced2, is2)))) =
        acknowledge_all-Leaves h1 level (charge p + owed) (p.packet_number + 1) space1 ps balanced1
          is1 rising kept in
      (
        h2,
        (
          space2,
          (
            ap (λ r. r >>= λ x. acknowledge_all x level ps) done ∙ done2,
            ((balanced2.0, omega (arith, balanced2.1)), is2),
          ),
        ),
      )

  lose_probes-Leaves :
      (h : Sender C) (owed : ℕ) (ps : List Packet)
      → IsBalanced owed h
      → AllProbes ps
      → Leaves owed (lose_probes h ps)
  unfolding lose_probes remove_path_probe
  lose_probes-Leaves h owed [] balanced fine = (h, (refl, balanced))
  lose_probes-Leaves h owed (p ∷ ps) (all_fine, balance) (here, fine) =
      let (ns, told_lost) = notify_lost-ok p.frames here.1 in
      let r = remove_probe h.app_data_packets.history.path_probe_packets p.packet_number in
      let app = all_fine.1.1 in
      let left = IsProbe-left p.packet_number r (
        remove_probe-IsProbe h.app_data_packets.history.path_probe_packets p.packet_number
          app.1.1) in
      let h1 : Sender C = record h {
        notices = h.notices ++ ns;
        app_data_packets = record h.app_data_packets {
          history = record h.app_data_packets.history { path_probe_packets = r.1 };
        };
      } in
      let tracked1 : IsTracked h1.app_data_packets.history = record {
        numbered = app.0.numbered;
        counted = app.0.counted;
        starts = app.0.starts;
      } in
      let (h2, (done, balanced2)) =
        lose_probes-Leaves h1 owed ps
          ((all_fine.0, (all_fine.1.0, (tracked1, (app.1.0, left)))), balance) fine in
      (
        h2,
        (
          ap
                (λ x. x >>= λ notices.
                  lose_probes
                    (record h {
                      notices = h.notices ++ notices;
                      app_data_packets = record h.app_data_packets {
                        history = record h.app_data_packets.history { path_probe_packets = r.1 };
                      };
                    })
                    ps)
                told_lost
              ∙ done,
          balanced2,
        ),
      )

  pub detect_lost_path_probes-Leaves :
      (h : Sender C) (owed now : ℕ)
      → IsBalanced owed h
      → Leaves owed (detect_lost_path_probes h now)
  unfolding detect_lost_path_probes
  detect_lost_path_probes-Leaves h owed now balanced =
      let probes = h.app_data_packets.history.path_probe_packets in
      if_intro (Leaves owed) (has_outstanding_path_probes h.app_data_packets.history)
        (lose_probes-Leaves h owed (lost_probes (now - path_probe_packet_loss_timeout) probes)
          balanced
          (lost_probes-AllProbes (now - path_probe_packet_loss_timeout) probes balanced.0.1.1.1.1))
        (h, (refl, balanced))
