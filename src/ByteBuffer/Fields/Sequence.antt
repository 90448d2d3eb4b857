-- ===== src/ByteBuffer/Fields/Sequence.antt =====
-- src/common/packet/ByteBuffer.hpp: a run of writes, and the same run of reads.
use purity.Common.{
  ℕ, ◌≡◌, sym, ap, ◌∙◌, List, [], ◌∷◌, ◌++◌, append_assoc, append-nil, ok, length, All, arith,
}
use purity.ByteBuffer.{ByteBuffer, M, pure, ◌>>=◌, empty, reset_read}
use purity.ByteBuffer.Wire.{before, behind, behind-before, behind-append, Small}
use purity.ByteBuffer.Fields.{Field, write_field, read_field, encode, IsValid}
use purity.ByteBuffer.Fields.RoundTrip.{write_field-encode, read_field-encode}

unfoldable pub write_fields : ByteBuffer → List Field → ByteBuffer
write_fields b [] = b
write_fields b (f ∷ fs) = write_fields (write_field b f) fs

unfoldable pub read_fields : List Field → M (List Field)
read_fields [] = pure []
read_fields (f ∷ fs) = do g ← read_field f; gs ← read_fields fs; pure (g ∷ gs)

unfoldable pub encode_fields : List Field → List ℕ
encode_fields [] = []
encode_fields (f ∷ fs) = encode f ++ encode_fields fs

pub write_fields-encode_fields :
    (b : ByteBuffer) (fs : List Field)
    → write_fields b fs ≡ record b { buffer = b.buffer ++ encode_fields fs }
unfolding write_fields encode_fields
write_fields-encode_fields b [] = ap (λ x. record b { buffer = x }) (sym (append-nil b.buffer))
write_fields-encode_fields b (f ∷ fs) = rw (write_field-encode b f) (
    write_fields-encode_fields (record b { buffer = b.buffer ++ encode f }) fs
    ∙ ap (λ x. record b { buffer = x }) (append_assoc b.buffer (encode f) (encode_fields fs)))

read_fields-encode_fields :
    (fs : List Field) (pre post : List ℕ)
    → All IsValid fs
    → Small (pre ++ (encode_fields fs ++ post))
    → read_fields fs (before pre (encode_fields fs) post)
      ≡ ok (fs, behind pre (encode_fields fs) post)
unfolding read_fields encode_fields
read_fields-encode_fields [] pre post h small =
    ap (λ n. ok ([], record { buffer = pre ++ post; read_pos = n })) (omega arith)
read_fields-encode_fields (f ∷ fs) pre post h small =
    let e = append_assoc (encode f) (encode_fields fs) post in
    let small' : Small (pre ++ (encode f ++ (encode_fields fs ++ post))) = rw e at small in
    let small'' : Small ((pre ++ encode f) ++ (encode_fields fs ++ post)) =
      rw (append_assoc pre (encode f) (encode_fields fs ++ post)) small' in
    rw (
      e,
      read_field-encode f pre (encode_fields fs ++ post) h.0 small',
      behind-before pre (encode f) (encode_fields fs) post,
      read_fields-encode_fields fs (pre ++ encode f) post h.1 small'',
      behind-append pre (encode f) (encode_fields fs) post,
      e,
    )

-- Values that lie in their types, written one after another into an empty buffer, are read back by
-- the matching calls in the same order, and nothing is left; the sizes are below 2 ^ 64.
pub read_fields-write_fields :
    (fs : List Field)
    → All IsValid fs
    → Small (encode_fields fs)
    → let b = write_fields empty fs in
      read_fields fs (reset_read b) ≡ ok (fs, record b { read_pos = length b.buffer })
unfolding reset_read empty
read_fields-write_fields fs h small =
    let e = append-nil (encode_fields fs) in
    let read = read_fields-encode_fields fs [] [] h (rw e small) in
    rw (write_fields-encode_fields empty fs) (
      (rw e at read)
      ∙ ap (λ n. ok (fs, record { buffer = encode_fields fs; read_pos = n })) (omega arith))
