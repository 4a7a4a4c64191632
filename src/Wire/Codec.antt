-- ===== src/Wire/Codec.antt =====
-- What the frame parsers of internal/wire share: reading a varint off the front of the input, the
-- errors of the package, and `replaceUnexpectedEOF` of frame_parser.go.
use uquic.Shared.{
  Ensures, bind_step, ℕ, ◌-◌, ◌≤◌, ◌<◌, ◌≡◌, sym, ap, ◌∙◌, inl, inr, List, [], ◌∷◌, ◌++◌, arith,
  Result-cases, Result, ok, err, Panic, ◌>>=◌, length, drop, All, length-append, length-drop,
  drop_append, All-drop,
}
use uquic.Varint
use uquic.Varint.{IsByte, parse, append, len, max_var_int8}
use uquic.Varint.Encode.{width, encoding, len-width, append-encoding, length-encoding}
use uquic.Varint.Decode.{parse_bounds}
use uquic.Varint.RoundTrip.{parse-encoding}
use mathlib.Core.List.{append_assoc}

-- The errors of the package; those that carry a message are named for it.
pub data Error : Type 0 where
  -- a panic of the code, which is no error value of Go
  panicked : Error
  eof unexpected_eof : Error
  invalid_first_ack_range invalid_ack_ranges : Error
  too_many_streams : ℕ → Error
  empty_token retire_prior_to_too_large zero_length_connection_id : Error
  invalid_connection_id_len : Error
  stream_data_overflow empty_stream_frame : Error
  unknown_frame_type not_allowed_at_enc_level : Error

unfoldable pub replace_unexpected_eof : Varint.Error → Error
replace_unexpected_eof Varint.Error.eof = eof
replace_unexpected_eof Varint.Error.unexpected_eof = eof

-- The check of `err`, and `b = b[l:]`.
unfoldable pub advance : List ℕ → Result Varint.Error (ℕ × ℕ) → Result Error (ℕ × List ℕ)
unfolding replace_unexpected_eof
advance b (ok (v, l)) = ok (v, drop l b)
advance b (err e) = err (replace_unexpected_eof e)

-- `x, l, err := quicvarint.Parse(b)` and what follows it.
unfoldable pub next : List ℕ → Result Error (ℕ × List ℕ)
unfolding advance
next b = advance b (parse b)

-- A value that a varint can hold.
abbrev pub IsVarint : ℕ → Type 0
IsVarint v = v ≤ max_var_int8

pub next-encoding : (v : ℕ) (rest : List ℕ) → IsVarint v → next (encoding v ++ rest) ≡ ok (v, rest)
unfolding next advance
next-encoding v rest h =
    ap (advance (encoding v ++ rest)) (parse-encoding v rest h)
    ∙ ap (λ n. ok (v, drop n (encoding v ++ rest))) (sym (length-encoding v))
    ∙ ap (λ r. ok (v, r)) (drop_append (encoding v) rest)

-- Reading a varint leaves less than there was, and gives a value below 2^62.
abbrev pub Shorter : List ℕ → ℕ × List ℕ → Type 0
Shorter b (v, rest) = IsVarint v × All IsByte rest × (length rest < length b)

pub next-Shorter : (b : List ℕ) → All IsByte b → Ensures (Shorter b) (next b)
unfolding next advance
next-Shorter b h = elim (Result-cases (parse b)) [
  | inl ((v, n), q) ↦
      let (small, some_bytes, within, _) = parse_bounds b v n h q in
      rw q (small, All-drop IsByte n b h, omega (arith, length-drop n b))
  | inr (x, q) ↦ rw q tt
]

-- `b = quicvarint.Append(b, v)` in front of what follows.
pub append_step {ℓ} :
    {X : Type ℓ} (b : List ℕ) (v : ℕ) (k : List ℕ → Result Panic X)
    → IsVarint v
    → (append b v >>= k) ≡ k (b ++ encoding v)
append_step b v k h = ap (λ r. r >>= k) (append-encoding b v h)

pub next_step {ℓ} :
    {X : Type ℓ} (v : ℕ) (rest : List ℕ) (k : ℕ × List ℕ → Result Error X)
    → IsVarint v
    → (next (encoding v ++ rest) >>= k) ≡ k (v, rest)
next_step v rest k h = ap (λ r. r >>= k) (next-encoding v rest h)

pub len_step {ℓ} :
    {X : Type ℓ} (v : ℕ) (k : ℕ → Result Panic X) → IsVarint v → (len v >>= k) ≡ k (width v)
len_step v k h = ap (λ r. r >>= k) (len-width v h)

unfoldable pub lift_panic {ℓ} : {A : Type ℓ} → Result Panic A → Result Error A
lift_panic (ok a) = ok a
lift_panic (err e) = err panicked

-- `b = quicvarint.Append(b, v)` in an `Append` that can fail as well.
unfoldable pub put : List ℕ → ℕ → Result Error (List ℕ)
unfolding lift_panic
put b v = lift_panic (append b v)

pub put-encoding : (b : List ℕ) (v : ℕ) → IsVarint v → put b v ≡ ok (b ++ encoding v)
unfolding put lift_panic
put-encoding b v h = ap lift_panic (append-encoding b v h)

pub put_step {ℓ} :
    {X : Type ℓ} (b : List ℕ) (v : ℕ) (k : List ℕ → Result Error X)
    → IsVarint v
    → (put b v >>= k) ≡ k (b ++ encoding v)
put_step b v k h = ap (λ r. r >>= k) (put-encoding b v h)

-- `next` on an input that is known to begin with the encoding of `v`.
pub next_at {ℓ} :
    {X : Type ℓ} {b : List ℕ} (v : ℕ) (rest : List ℕ) (k : ℕ × List ℕ → Result Error X)
    → IsVarint v
    → b ≡ encoding v ++ rest
    → (next b >>= k) ≡ k (v, rest)
next_at v rest k h e = ap (λ c. next c >>= k) e ∙ next_step v rest k h

pub consumed : (e more : List ℕ) → length (e ++ more) - length more ≡ length e
consumed e more = omega (arith, length-append e more)

module _ (b : List ℕ) (t : ℕ) where
  pub put_one : (u : ℕ) → IsVarint u → put (b ++ (t ∷ [])) u ≡ ok (b ++ (t ∷ encoding u))
  put_one u hu = put-encoding (b ++ (t ∷ [])) u hu ∙ ap ok (append_assoc b (t ∷ []) (encoding u))

  pub put_two :
      (u v : ℕ)
      → IsVarint u
      → IsVarint v
      → (put (b ++ (t ∷ [])) u >>= λ b1. put b1 v) ≡ ok (b ++ (t ∷ (encoding u ++ encoding v)))
  put_two u v hu hv =
      bind_step _ _ _ (put_one u hu)
      ∙ put-encoding (b ++ (t ∷ encoding u)) v hv
      ∙ ap ok (append_assoc b (t ∷ encoding u) (encoding v))

  pub put_three :
      (u v w : ℕ)
      → IsVarint u
      → IsVarint v
      → IsVarint w
      → (put (b ++ (t ∷ [])) u >>= λ b1. put b1 v >>= λ b2. put b2 w)
        ≡ ok (b ++ (t ∷ (encoding u ++ (encoding v ++ encoding w))))
  put_three u v w hu hv hw =
      bind_step _ _ _ (put_one u hu)
      ∙ put_step (b ++ (t ∷ encoding u)) v _ hv
      ∙ put-encoding ((b ++ (t ∷ encoding u)) ++ encoding v) w hw
      ∙ ap ok (simp append_assoc)
