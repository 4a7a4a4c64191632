-- ===== src/AckHandler/Sender/Migration.antt =====
-- What the loop of MigratedPath over the path probes leaves.
use uquic.Shared.{
  ℕ, zero, suc, ◌+◌, ◌≤◌, ◌<◌, ◌≡◌, refl, sym, ap, ◌∙◌, true, false, none, some, List, [], ◌∷◌,
  ◌++◌, arith, ◌==◌, length, get_elem?, All, length-append,
}
use mathlib.Core.List.{append_assoc, append-nil}
use uquic.AckHandler.Sent.{Packet, remove_probe}
use uquic.AckHandler.Sender.Calls.{last_of}
use uquic.AckHandler.Sender.Restart.{number_of, leave_last, remove_while_iterating, remove_probes}
use uquic.AckHandler.Sent.Yield.{IsRising}

-- Every second one, from the second on, without the last.
unfoldable pub left_behind : List Packet → List Packet
left_behind [] = []
left_behind (p ∷ []) = []
left_behind (p ∷ q ∷ []) = []
left_behind (p ∷ q ∷ r ∷ rest) = q ∷ left_behind (r ∷ rest)

abbrev Below : ℕ → List Packet → Type 0
Below b ps = All (λ (p : Packet). p.packet_number < b) ps

-- The cells after the slice hold the packet that was last.
abbrev IsStale : ℕ → List Packet → Type 0
IsStale pn ps = All (λ (p : Packet). p.packet_number ≡ pn) ps

remove_probe-first :
    (b : ℕ) (ks : List Packet) (r : Packet) (rs : List Packet)
    → Below b ks
    → b ≤ r.packet_number
    → remove_probe (ks ++ r ∷ rs) r.packet_number ≡ (some r, ks ++ rs)
unfolding remove_probe
remove_probe-first b [] r rs below from =
    let same : (r.packet_number == r.packet_number) ≡ true = ground arith in rw same refl
remove_probe-first b (k ∷ ks) r rs (low, below) from =
    let other : (k.packet_number == r.packet_number) ≡ false = ground arith in
    rw (other, remove_probe-first b ks r rs below from) refl

remove_probe-none :
    (b pn : ℕ) (ks : List Packet) → Below b ks → b ≤ pn → remove_probe ks pn ≡ (none, ks)
unfolding remove_probe
remove_probe-none b pn [] below from = refl
remove_probe-none b pn (k ∷ ks) (low, below) from =
    let other : (k.packet_number == pn) ≡ false = ground arith in
    rw (other, remove_probe-none b pn ks below from) refl

get_elem-length :
    (ks : List Packet) (r : Packet) (rs : List Packet)
    → get_elem? (ks ++ r ∷ rs) (length ks) ≡ some r
get_elem-length [] r rs = refl
get_elem-length (k ∷ ks) r rs = get_elem-length ks r rs

get_elem-stale :
    (pn j : ℕ) (dead : List Packet)
    → IsStale pn dead
    → j < length dead
    → number_of (get_elem? dead j) ≡ pn
get_elem-stale pn j [] stale h = absurd (omega arith)
get_elem-stale pn zero (d ∷ dead) (same, stale) h = same
get_elem-stale pn (suc j) (d ∷ dead) (same, stale) h = get_elem-stale pn j dead stale (omega arith)

get_elem-append :
    (ks dead : List Packet) (j : ℕ) → get_elem? (ks ++ dead) (length ks + j) ≡ get_elem? dead j
get_elem-append [] dead j = let same : 0 + j ≡ j = omega arith in ap (get_elem? dead) same
get_elem-append (k ∷ ks) dead j =
    let next : length (k ∷ ks) + j ≡ suc (length ks + j) = omega arith in
    rw next (get_elem-append ks dead j)

-- Rounds that read the cells after the slice change nothing.
stale_rounds :
    (rounds j b pn : ℕ) (ks dead : List Packet)
    → Below b ks
    → b ≤ pn
    → IsStale pn dead
    → j + rounds ≤ length dead
    → remove_while_iterating rounds (length ks + j) ks dead ≡ ks
unfolding remove_while_iterating
stale_rounds zero j b pn ks dead below from stale h = refl
stale_rounds (suc rounds) j b pn ks dead below from stale h =
    let next : length ks + j + 1 ≡ length ks + (j + 1) = omega arith in
    rw
      (
        get_elem-append ks dead j,
        get_elem-stale pn j dead stale (omega arith),
        remove_probe-none b pn ks below from,
        next,
      )
      (stale_rounds rounds (j + 1) b pn ks dead below from stale (omega arith))

last_of-append :
    (k : Packet) (ks : List Packet) (r : Packet) (rs : List Packet)
    → last_of k (ks ++ r ∷ rs) ≡ last_of r rs
last_of-append k [] r rs = refl
last_of-append k (l ∷ ks) r rs = last_of-append l ks r rs

leave_last-append :
    (p : Packet) (ks : List Packet) (r : Packet) (rs dead : List Packet)
    → leave_last (some p) (ks ++ r ∷ rs) dead ≡ last_of r rs ∷ dead
leave_last-append p [] r rs dead = refl
leave_last-append p (k ∷ ks) r rs dead = ap (λ q. q ∷ dead) (last_of-append k ks r rs)

-- A round that reads the slice.
live_round :
    (rounds b : ℕ) (ks : List Packet) (r : Packet) (rs dead : List Packet)
    → Below b ks
    → b ≤ r.packet_number
    → remove_while_iterating (suc rounds) (length ks) (ks ++ r ∷ rs) dead
      ≡ remove_while_iterating rounds (length ks + 1) (ks ++ rs) (last_of r rs ∷ dead)
unfolding remove_while_iterating
live_round rounds b ks r rs dead below from =
    rw
      (
        append_assoc ks (r ∷ rs) dead,
        get_elem-length ks r (rs ++ dead),
        remove_probe-first b ks r rs below from,
        leave_last-append r ks r rs dead,
      )
      refl

Below-snoc :
    (b : ℕ) (ks : List Packet) (s : Packet)
    → Below b ks
    → b ≤ s.packet_number
    → Below (s.packet_number + 1) (ks ++ s ∷ [])
Below-snoc b [] s below from = (omega arith, tt)
Below-snoc b (k ∷ ks) s (low, below) from = (omega arith, Below-snoc b ks s below from)

-- The round after the one that leaves a last packet reads it after the slice.
dead_round :
    (rounds b : ℕ) (ks : List Packet) (s : Packet) (dead : List Packet)
    → Below b ks
    → b ≤ s.packet_number
    → remove_while_iterating (suc rounds) (length ks + 1) (ks ++ s ∷ []) (s ∷ dead)
      ≡ remove_while_iterating rounds (length ks + 2) ks (s ∷ s ∷ dead)
unfolding remove_while_iterating
dead_round rounds b ks s dead below from =
    let at : length ks + 1 ≡ length (ks ++ s ∷ []) + 0 = omega (arith, length-append ks (s ∷ [])) in
    let next : length ks + 1 + 1 ≡ length ks + 2 = omega arith in
    let read : get_elem? ((ks ++ s ∷ []) ++ s ∷ dead) (length ks + 1) ≡ some s =
      ap (get_elem? ((ks ++ s ∷ []) ++ s ∷ dead)) at
      ∙ get_elem-append (ks ++ s ∷ []) (s ∷ dead) 0 in
    rw
      (
        read,
        remove_probe-first b ks s [] below from,
        leave_last-append s ks s [] (s ∷ dead),
        append-nil ks,
        next,
      )
      refl

rounds_from :
    (b : ℕ) (ks : List Packet) (r : Packet) (rs dead : List Packet)
    → Below b ks
    → IsRising b (r ∷ rs)
    → IsStale (last_of r rs).packet_number dead
    → remove_while_iterating (suc (length rs + length dead)) (length ks) (ks ++ r ∷ rs) dead
      ≡ ks ++ left_behind (r ∷ rs)
rounds_from b ks r [] dead below (from, rising) stale =
    live_round (0 + length dead) b ks r [] dead below from
    ∙ (ap (λ l. remove_while_iterating (0 + length dead) (length ks + 1) l (r ∷ dead))
          (append-nil ks)
        ∙ (stale_rounds (0 + length dead) 1 b r.packet_number ks (r ∷ dead) below from (refl, stale)
              (omega arith)
            ∙ sym (unfold left_behind in append-nil ks)))
rounds_from b ks r (s ∷ []) dead below (from, (above, rising)) stale =
    let count : length (s ∷ []) + length dead ≡ suc (length dead) = omega arith in
    live_round (length (s ∷ []) + length dead) b ks r (s ∷ []) dead below from
    ∙ (ap (λ n. remove_while_iterating n (length ks + 1) (ks ++ s ∷ []) (s ∷ dead)) count
        ∙ (dead_round (length dead) b ks s dead below (omega arith)
            ∙ (stale_rounds (length dead) 2 b s.packet_number ks (s ∷ s ∷ dead) below (omega arith)
                  (refl, (refl, stale)) (omega arith)
                ∙ sym (unfold left_behind in append-nil ks))))
rounds_from b ks r (s ∷ t ∷ rest) dead below (from, (above, rising)) stale =
    let dead1 = last_of t rest ∷ dead in
    let count : length (s ∷ t ∷ rest) + length dead ≡ suc (length rest + length dead1) =
      omega arith in
    let at : length ks + 1 ≡ length (ks ++ s ∷ []) = omega (arith, length-append ks (s ∷ [])) in
    live_round (length (s ∷ t ∷ rest) + length dead) b ks r (s ∷ t ∷ rest) dead below from
    ∙ (ap (λ n. remove_while_iterating n (length ks + 1) (ks ++ s ∷ t ∷ rest) dead1) count
        ∙ (ap
              (λ i.
                remove_while_iterating (suc (length rest + length dead1)) i (ks ++ s ∷ t ∷ rest)
                  dead1)
              at
            ∙ (ap
                  (λ l.
                    remove_while_iterating (suc (length rest + length dead1))
                      (length (ks ++ s ∷ [])) l dead1)
                  (sym (append_assoc ks (s ∷ []) (t ∷ rest)))
                ∙ (rounds_from (s.packet_number + 1) (ks ++ s ∷ []) t rest dead1
                      (Below-snoc b ks s below (omega arith)) rising (refl, stale)
                    ∙ (append_assoc ks (s ∷ []) (left_behind (t ∷ rest))
                        ∙ unfold left_behind in refl)))))

-- On path probes whose packet numbers rise, the loop leaves every second one, the last one excepted.
pub remove_probes-left_behind :
    (probes : List Packet) → IsRising 0 probes → remove_probes probes ≡ left_behind probes
unfolding remove_probes
remove_probes-left_behind [] rising = unfold remove_while_iterating left_behind in refl
remove_probes-left_behind (p ∷ probes) rising =
    let all : suc (length probes) ≡ suc (length probes + 0) = omega arith in
    ap (λ n. remove_while_iterating n 0 (p ∷ probes) []) all
    ∙ rounds_from 0 [] p probes [] tt rising tt
