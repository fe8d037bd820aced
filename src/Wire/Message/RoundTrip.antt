-- ===== src/Wire/Message/RoundTrip.antt =====
-- A message that was encoded is decoded to itself.
use tp_sistemas_operativos.Base.{
  ℕ, ◌+◌, ◌-◌, ◌^◌, ◌<◌, ◌≡◌, refl, ap, ◌∙◌, sym, some, List, [], ◌∷◌, ◌++◌, arith, length,
  length-append, All, take,
}
use tp_sistemas_operativos.Wire.Bytes.{
  Buffer, read_bytes, le_bytes, read-write_bytes, Holds, Holds-left, Holds-right, of_le-Holds,
}
use tp_sistemas_operativos.Wire.Message.{
  Valor, var_uint32, var_char_ptr, var_void_ptr, var_size_t, otro, Arg, Function, message_call,
  Message, var_type, message_type, contenido, leer, message_encode, leer_valor, tras_valor,
  function_arg_decode, decode_args, message_function_decode, decode_cuerpo, message_decode,
  tam_data_function,
}
use tp_sistemas_operativos.Wire.Message.Image.{
  FitsValue, IsArg, IsFunction, IsCall, image_arg, image_args, image_function, image_header,
  take_self, length-image_arg, not_ltb, message_encode-image, tam_data_function-image,
}

block-Holds :
    (b : Buffer) (at size : ℕ) (xs : List ℕ)
    → length xs ≡ size
    → Holds b at (take size xs)
    → read_bytes b at size ≡ xs
block-Holds b at size xs h e =
    ap (read_bytes b at) (sym h ∙ ap length (sym (take_self size xs h))) ∙ e ∙ take_self size xs h

leer_valor-Holds :
    (b : Buffer) (at size : ℕ) (v : Valor)
    → FitsValue size v
    → Holds b at (contenido size v)
    → leer_valor b at size (var_type v) ≡ v
unfolding leer_valor var_type contenido
leer_valor-Holds b at size (var_uint32 w) h e = ap var_uint32 (of_le-Holds b at size w h.0 e)
leer_valor-Holds b at size (var_char_ptr xs) h e = ap var_char_ptr (block-Holds b at size xs h e)
leer_valor-Holds b at size (var_void_ptr xs) h e = ap var_void_ptr (block-Holds b at size xs h e)
leer_valor-Holds b at size (var_size_t w) h e = ap var_size_t (of_le-Holds b at size w h.0 e)
leer_valor-Holds b at size (otro t) h e = absurd h

tras_valor-fits :
    (at size : ℕ) (v : Valor) → FitsValue size v → tras_valor at size v ≡ at + 5 + size
unfolding tras_valor
tras_valor-fits at size (var_uint32 w) h = refl
tras_valor-fits at size (var_char_ptr xs) h = refl
tras_valor-fits at size (var_void_ptr xs) h = refl
tras_valor-fits at size (var_size_t w) h = refl
tras_valor-fits at size (otro t) h = absurd h

var_type-lt : (size : ℕ) (v : Valor) → FitsValue size v → var_type v < 256 ^ 1
unfolding var_type
var_type-lt size (var_uint32 w) h = omega arith
var_type-lt size (var_char_ptr xs) h = omega arith
var_type-lt size (var_void_ptr xs) h = omega arith
var_type-lt size (var_size_t w) h = omega arith
var_type-lt size (otro t) h = absurd h

arg_decode-Holds :
    (b : Buffer) (at : ℕ) (a : Arg)
    → IsArg a
    → Holds b at (image_arg a)
    → function_arg_decode b at ≡ (a, at + length (image_arg a))
unfolding function_arg_decode image_arg le_bytes
arg_decode-Holds b at a h e =
    let type = le_bytes 1 (var_type a.value) in
    let size = le_bytes 4 a.size in
    let front = Holds-left (type ++ size) (contenido a.size a.value) b at e in
    let value = Holds-right (type ++ size) (contenido a.size a.value) b at e in
    let et =
      of_le-Holds b at 1 (var_type a.value) (var_type-lt a.size a.value h.fits)
        (Holds-left type size b at front) in
    let es = of_le-Holds b (at + 1) 4 a.size h.small (Holds-right type size b at front) in
    let ev = leer_valor-Holds b (at + 5) a.size a.value h.fits value in
    let fin = tras_valor-fits at a.size a.value h.fits in
    let len : at + 5 + a.size ≡ at + length (image_arg a) = omega (arith, length-image_arg a h) in
    rw (et, es, ev, fin) (λ i. (a, len i))

decode_args-Holds :
    (b : Buffer) (at : ℕ) (l : List Arg)
    → All IsArg l
    → Holds b at (image_args l)
    → decode_args b at (length l) ≡ (l, at + length (image_args l))
unfolding decode_args image_args
decode_args-Holds b at [] h e = λ i. ([], at_end i)
  where
    at_end : at ≡ at + 0
    at_end = omega arith
decode_args-Holds b at (a ∷ l) h e =
    let first = arg_decode-Holds b at a h.0 (Holds-left (image_arg a) (image_args l) b at e) in
    let rest =
      decode_args-Holds b (at + length (image_arg a)) l h.1
        (Holds-right (image_arg a) (image_args l) b at e) in
    rw (first, rest) (λ i. (a ∷ l, at_end i))
  where
    at_end :
        at + length (image_arg a) + length (image_args l)
        ≡ at + length (image_arg a ++ image_args l)
    at_end = omega (arith, length-append (image_arg a) (image_args l))

pub header_decode-Holds :
    (msg : Message) (t : ℕ) (b : Buffer)
    → message_type msg.cuerpo ≡ t
    → t < 256
    → msg.caller_id < 2 ^ 16
    → msg.data_size < 2 ^ 31
    → Holds b 0 (image_header msg)
    → (leer b 0 1 ≡ t) × (leer b 1 2 ≡ msg.caller_id) × (leer b 3 4 ≡ msg.data_size)
unfolding image_header le_bytes
header_decode-Holds msg t b byte fits caller size e =
    let type = le_bytes 1 (message_type msg.cuerpo) in
    let id = le_bytes 2 msg.caller_id in
    let front = Holds-left (type ++ id) (le_bytes 4 msg.data_size) b 0 e in
    (
      of_le-Holds b 0 1 (message_type msg.cuerpo) (omega (arith, byte, fits))
            (Holds-left type id b 0 front)
          ∙ byte,
      of_le-Holds b 1 2 msg.caller_id caller (Holds-right type id b 0 front),
      of_le-Holds b 3 4 msg.data_size (omega (arith, size))
          (Holds-right (type ++ id) (le_bytes 4 msg.data_size) b 0 e),
    )

function_decode-Holds :
    (f : Function) (b : Buffer) (at : ℕ)
    → IsFunction f
    → Holds b at (image_function f)
    → message_function_decode b at ≡ (f, length (image_function f))
unfolding message_function_decode image_function le_bytes
function_decode-Holds f b at h e =
    let type = le_bytes 1 f.type in
    let count = le_bytes 1 (length f.args) in
    let front = Holds-left (type ++ count) (image_args f.args) b at e in
    let et = of_le-Holds b at 1 f.type h.type_byte (Holds-left type count b at front) in
    let ec =
      of_le-Holds b (at + 1) 1 (length f.args) (omega (arith, h.at_most_nine))
        (Holds-right type count b at front) in
    let ea =
      decode_args-Holds b (at + 2) f.args h.all_args
        (Holds-right (type ++ count) (image_args f.args) b at e) in
    let len : at + 2 + length (image_args f.args) - at ≡ length (image_function f) = omega arith in
    rw (et, ec, ea) (λ i. (f, len i))

decode_cuerpo-call :
    (b : Buffer) (f : Function) (k : ℕ)
    → message_function_decode b 7 ≡ (f, k)
    → decode_cuerpo b 1 ≡ (message_call f, some (7 + k))
unfolding decode_cuerpo
decode_cuerpo-call b f k h = ap (λ d. (message_call d.0, some (7 + d.1))) h

message_decode-Holds :
    (msg : Message) (f : Function) (b : Buffer) (n : ℕ)
    → IsCall msg f n
    → Holds b 0 (image_header msg ++ image_function f)
    → message_decode b n ≡ some (msg, some (7 + msg.data_size))
unfolding message_decode message_type image_header le_bytes
message_decode-Holds msg f b n h e =
    let head =
      header_decode-Holds msg 1 b (ap message_type h.call) (omega arith) h.caller
        (omega (arith, h.small)) (Holds-left (image_header msg) (image_function f) b 0 e) in
    let body =
      function_decode-Holds f b 7 h.function
        (Holds-right (image_header msg) (image_function f) b 0 e) in
    let size = h.sized ∙ tam_data_function-image f h.function in
    rw (not_ltb 1 n (omega (arith, h.room)), head.0, head.1, head.2)
      (ap (λ d. some (record msg { cuerpo = d.0 }, d.1)) (decode_cuerpo-call b f _ body)
        ∙ (λ i. some (record msg { cuerpo = sym h.call i }, some (7 + sym size i))))

-- A call of at most nine arguments, whose words fit in their sizes and these in 4 or 8 bytes, whose
-- blocks have their sizes, below 2 ^ 31 bytes and with room for it in the buffer, with the size in
-- its header that `tamDataFunction` computes, is encoded in 7 bytes and that size, and decoded to
-- itself, with the same number of bytes.
pub message_decode-encode :
    (msg : Message) (f : Function) (b : Buffer) (n : ℕ)
    → IsCall msg f n
    → let (encoded, written) = message_encode msg b n in
      (written ≡ some (7 + tam_data_function f))
      × (message_decode encoded n ≡ some (msg, some (7 + tam_data_function f)))
message_decode-encode msg f b n h =
    rw (message_encode-image msg f b n h, ← h.sized)
      (
        refl,
        message_decode-Holds msg f _ n h
            (read-write_bytes b 0 (image_header msg ++ image_function f)),
      )
