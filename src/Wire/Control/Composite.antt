-- ===== src/Wire/Control/Composite.antt =====
-- NEW_CONNECTION_ID and CONNECTION_CLOSE: parsing after writing.
use uquic.Shared.{
  guard_step, bind_step, ℕ, ◌%◌, ◌^◌, ◌≤◌, ◌≡◌, refl, sym, ap, ◌∙◌, inl, inr, Bool, true, false,
  List, [], ◌∷◌, ◌++◌, arith, ltb, leb, ◌==◌, if◌then◌else◌, Bool-cases, ok, lt→ltb, le→leb, length,
}
use uquic.Varint.Encode.{encoding}
use uquic.Wire.Codec.{
  IsVarint, next_at, next_step, put_step, put-encoding, next-encoding, consumed, put_one,
}
use uquic.Wire.Frame.{
  new_connection_id, connection_close, ConnectionCloseFrame, NewConnectionIdFrame, max_conn_id_len,
}
use uquic.Wire.Control.{
  first_byte, parse_frame_type, put_frame_type, parse_new_connection_id_frame,
  parse_connection_close_frame, append_new_connection_id_frame, append_connection_close_frame,
}
use uquic.Wire.Control.RoundTrip.{next_bytes_lem}
use mathlib.Core.List.{append_assoc, append-nil}

pub record IsConnectionId (f : NewConnectionIdFrame) : Type 0 where
  pub seq : IsVarint f.sequence_number
  pub ret : f.retire_prior_to ≤ f.sequence_number
  pub not_empty : 1 ≤ length f.connection_id
  pub short : length f.connection_id ≤ max_conn_id_len
  pub token : length f.stateless_reset_token ≡ 16

unfoldable pub connection_id_body : NewConnectionIdFrame → List ℕ
connection_id_body f =
    encoding f.sequence_number
    ++ (encoding f.retire_prior_to
        ++ (length f.connection_id ∷ (f.connection_id ++ f.stateless_reset_token)))

module _ (f : NewConnectionIdFrame) (v : IsConnectionId f) where
  pub append_new_connection_id :
      (b : List ℕ) → append_new_connection_id_frame b f ≡ ok (b ++ (0x18 ∷ connection_id_body f))
  unfolding append_new_connection_id_frame connection_id_body
  append_new_connection_id b =
      let small : length f.connection_id % 2 ^ 8 ≡ length f.connection_id = omega arith in
      bind_step _ _ _ (put_one b 0x18 f.sequence_number v.seq)
      ∙ put_step (b ++ (0x18 ∷ encoding f.sequence_number)) f.retire_prior_to _ (omega arith)
      ∙ guard_step (leb (length f.connection_id) max_conn_id_len) _ _
          (le→leb (length f.connection_id) max_conn_id_len v.short)
      ∙ rw small (ap ok (simp append_assoc))

  pub parse_new_connection_id :
      (more : List ℕ)
      → parse_new_connection_id_frame (connection_id_body f ++ more)
        ≡ ok (new_connection_id f, length (connection_id_body f))
  unfolding parse_new_connection_id_frame
  parse_new_connection_id more =
      let id = f.connection_id in
      let token = f.stateless_reset_token in
      let after2 = length id ∷ (id ++ (token ++ more)) in
      next_at f.sequence_number (encoding f.retire_prior_to ++ after2) _ v.seq
        (unfold connection_id_body in simp append_assoc)
      ∙ next_step f.retire_prior_to after2 _ (omega arith)
      ∙ guard_step (leb f.retire_prior_to f.sequence_number) _ _
          (le→leb f.retire_prior_to f.sequence_number v.ret)
      ∙ bind_step (first_byte after2) (length id, id ++ (token ++ more)) _
          (unfold first_byte in refl)
      ∙ guard_step (ltb 0 (length id)) _ _ (lt→ltb 0 (length id) v.not_empty)
      ∙ guard_step (leb (length id) max_conn_id_len) _ _
          (le→leb (length id) max_conn_id_len v.short)
      ∙ bind_step _ _ _ (next_bytes_lem (length id) id (token ++ more) refl)
      ∙ bind_step _ _ _ (next_bytes_lem 16 token more v.token)
      ∙ ap (λ n. ok (new_connection_id f, n)) (consumed (connection_id_body f) more)

-- An application error has no frame type.
pub record IsClose (f : ConnectionCloseFrame) : Type 0 where
  pub code : IsVarint f.error_code
  pub typ : IsVarint f.frame_type
  pub no_type : f.is_application_error ≡ true → f.frame_type ≡ 0
  pub reason : IsVarint (length f.reason_phrase)

abbrev pub type_bytes : Bool → ℕ → List ℕ
type_bytes true t = []
type_bytes false t = encoding t

unfoldable pub close_body : ConnectionCloseFrame → List ℕ
close_body f =
    encoding f.error_code
    ++ (type_bytes f.is_application_error f.frame_type
        ++ (encoding (length f.reason_phrase) ++ f.reason_phrase))

abbrev pub close_type : ConnectionCloseFrame → ℕ
close_type f = if f.is_application_error then 0x1d else 0x1c

put_frame_type_lem :
    (app : Bool) (b : List ℕ) (t : ℕ)
    → IsVarint t
    → put_frame_type app b t ≡ ok (b ++ type_bytes app t)
unfolding put_frame_type
put_frame_type_lem true b t h = ap ok (sym (append-nil b))
put_frame_type_lem false b t h = put-encoding b t h

parse_frame_type_lem :
    (app : Bool) (t : ℕ) (more : List ℕ)
    → IsVarint t
    → (app ≡ true → t ≡ 0)
    → parse_frame_type app (type_bytes app t ++ more) ≡ ok (t, more)
unfolding parse_frame_type
parse_frame_type_lem true t more h z = ap (λ n. ok (n, more)) (sym (z refl))
parse_frame_type_lem false t more h z = next-encoding t more h

module _ (f : ConnectionCloseFrame) (v : IsClose f) where
  pub append_connection_close :
      (b : List ℕ) → append_connection_close_frame b f ≡ ok (b ++ (close_type f ∷ close_body f))
  unfolding append_connection_close_frame close_body
  append_connection_close b =
      let b1 = b ++ (close_type f ∷ encoding f.error_code) in
      let t = type_bytes f.is_application_error f.frame_type in
      bind_step _ _ _ (put_one b (close_type f) f.error_code v.code)
      ∙ bind_step _ _ _ (put_frame_type_lem f.is_application_error b1 f.frame_type v.typ)
      ∙ put_step (b1 ++ t) (length f.reason_phrase) _ v.reason
      ∙ ap ok (simp append_assoc)

  close_type_test : (close_type f == 0x1d) ≡ f.is_application_error
  close_type_test = elim (Bool-cases f.is_application_error) [ inl e ↦ rw e | inr e ↦ rw e ]

  pub parse_connection_close :
      (more : List ℕ)
      → parse_connection_close_frame (close_body f ++ more) (close_type f)
        ≡ ok (connection_close f, length (close_body f))
  unfolding parse_connection_close_frame
  parse_connection_close more =
      let t = type_bytes f.is_application_error f.frame_type in
      let after2 = encoding (length f.reason_phrase) ++ (f.reason_phrase ++ more) in
      next_at f.error_code (t ++ after2) _ v.code (unfold close_body in simp append_assoc)
      ∙ rw close_type_test (
          bind_step _ _ _
            (parse_frame_type_lem f.is_application_error f.frame_type after2 v.typ v.no_type)
          ∙ next_step (length f.reason_phrase) (f.reason_phrase ++ more) _ v.reason
          ∙ bind_step _ _ _ (next_bytes_lem (length f.reason_phrase) f.reason_phrase more refl)
          ∙ ap (λ n. ok (connection_close f, n)) (consumed (close_body f) more))
