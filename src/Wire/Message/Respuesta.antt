-- ===== src/Wire/Message/Respuesta.antt =====
-- An answer that was encoded is decoded to itself.
use tp_sistemas_operativos.Base.{
  ℕ, ◌^◌, ◌≤◌, ◌<◌, ◌≡◌, refl, ap, ◌∙◌, sym, some, List, ◌++◌, arith, ltb,
}
use tp_sistemas_operativos.Wire.Bytes.{
  Buffer, write_bytes, le_bytes, length-le_bytes, read-write_bytes, Holds, Holds-left, Holds-right,
  of_le-Holds, write_bytes-append,
}
use tp_sistemas_operativos.Wire.Message.{
  Message, message_function_ret, message_type, copiar, sumar, encode_cuerpo,
  message_function_return_encode, message_encode, decode_cuerpo, message_decode,
}
use tp_sistemas_operativos.Wire.Message.Image.{
  image_header, copiar_size, message_encode-header, int_as_size_t-small, not_ltb,
}
use tp_sistemas_operativos.Wire.Message.RoundTrip.{header_decode-Holds}

-- An answer with the size of one word in its header, for a buffer that has room for it.
pub record IsAnswer (msg : Message) (r : ℕ) (buffer_size : ℕ) : Type 0 where
  pub answer : msg.cuerpo ≡ message_function_ret r
  pub word : r < 2 ^ 32
  pub caller : msg.caller_id < 2 ^ 16
  pub sized : msg.data_size ≡ 4
  pub room : 11 ≤ buffer_size

return_encode-room :
    (n r : ℕ) (b : Buffer) (at : ℕ)
    → 11 ≤ n
    → message_function_return_encode n 4 r (b, at) ≡ (copiar (b, at) (le_bytes 4 r), some 4)
unfolding message_function_return_encode
return_encode-room n r b at room =
    rw (ap (ltb n) (int_as_size_t-small 11 (omega arith)) ∙ not_ltb 11 n room) (
      ap (λ k. (copiar (b, at) (le_bytes 4 r), some k))
        (copiar_size b at (le_bytes 4 r) ∙ length-le_bytes 4 r))

encode_cuerpo-ret :
    (n r : ℕ) (b : Buffer) (xs : List ℕ)
    → 11 ≤ n
    → encode_cuerpo n 4 7 (message_function_ret r) (copiar (b, 0) xs)
      ≡ (write_bytes b 0 (xs ++ le_bytes 4 r), some 11)
unfolding encode_cuerpo copiar
encode_cuerpo-ret n r b xs room =
    ap (λ d. (d.0.0, some (sumar 7 d.1))) (return_encode-room n r _ _ room)
    ∙ ap (λ w. (w, some 11)) (write_bytes-append xs b 0 (le_bytes 4 r))

answer_encode-image :
    (msg : Message) (r : ℕ) (b : Buffer) (n : ℕ)
    → IsAnswer msg r n
    → message_encode msg b n ≡ (write_bytes b 0 (image_header msg ++ le_bytes 4 r), some 11)
answer_encode-image msg r b n h =
    message_encode-header msg b n (omega (arith, h.sized, h.room))
    ∙ (λ i. encode_cuerpo n (h.sized i) 7 (h.answer i) (copiar (b, 0) (image_header msg)))
    ∙ encode_cuerpo-ret n r b (image_header msg) h.room

answer_decode-Holds :
    (msg : Message) (r : ℕ) (b : Buffer) (n : ℕ)
    → IsAnswer msg r n
    → Holds b 0 (image_header msg ++ le_bytes 4 r)
    → message_decode b n ≡ some (msg, some 11)
unfolding message_decode decode_cuerpo message_type image_header le_bytes
answer_decode-Holds msg r b n h e =
    let head =
      header_decode-Holds msg 2 b (ap message_type h.answer) (omega arith) h.caller
        (omega (arith, h.sized)) (Holds-left (image_header msg) (le_bytes 4 r) b 0 e) in
    let body = of_le-Holds b 7 4 r h.word (Holds-right (image_header msg) (le_bytes 4 r) b 0 e) in
    rw (not_ltb 1 n (omega (arith, h.room)), head.0, head.1, head.2)
      (λ i. some (record msg { cuerpo = (ap message_function_ret body ∙ sym h.answer) i }, some 11))

-- An answer of one word of 32 bits from a caller of 16 bits, with the size 4 in its header and a
-- buffer of at least 11 bytes, is encoded in 11 bytes and decoded to itself.
pub answer_decode-encode :
    (msg : Message) (r : ℕ) (b : Buffer) (n : ℕ)
    → IsAnswer msg r n
    → let (encoded, written) = message_encode msg b n in
      (written ≡ some 11) × (message_decode encoded n ≡ some (msg, some 11))
answer_decode-encode msg r b n h = rw (answer_encode-image msg r b n h) (
  refl,
  answer_decode-Holds msg r _ n h (read-write_bytes b 0 (image_header msg ++ le_bytes 4 r)),
)
