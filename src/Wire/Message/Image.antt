-- ===== src/Wire/Message/Image.antt =====
-- The bytes that a message is encoded as.
use tp_sistemas_operativos.Base.{
  ℕ, ◌+◌, ◌-◌, ◌^◌, ◌≤◌, ◌<◌, ◌≡◌, refl, ap, ap₂, ◌∙◌, sym, none, some, List, [], ◌∷◌, ◌++◌, arith,
  length, length-append, All, take, take-length, ltb, false,
}
use tp_sistemas_operativos.Wire.Bytes.{
  Buffer, write_bytes, le_bytes, length-le_bytes, write_bytes-append,
}
use tp_sistemas_operativos.Wire.Message.{
  Valor, var_uint32, var_char_ptr, var_void_ptr, var_size_t, otro, Arg, Function, message_call,
  Message, var_type, message_type, contenido, Cursor, copiar, function_arg_encode, encode_args,
  int_as_size_t, sumar, message_function_encode, header_encode, encode_cuerpo, message_encode,
  tam_args, tam_data_function,
}

-- The size of an argument is that of its value: the word fits in it, and in its member of the union,
-- or the block has it.
abbrev pub FitsValue : ℕ → Valor → Type 0
FitsValue size (var_uint32 w) = (w < 256 ^ size) × (size ≤ 4)
FitsValue size (var_char_ptr xs) = length xs ≡ size
FitsValue size (var_void_ptr xs) = length xs ≡ size
FitsValue size (var_size_t w) = (w < 256 ^ size) × (size ≤ 8)
FitsValue size (otro t) = ⊥

pub record IsArg (a : Arg) : Type 0 where
  pub small : a.size < 2 ^ 32
  pub fits : FitsValue a.size a.value

-- A function that the wire can carry: one byte for its type, and nine arguments at most, for which
-- there is room in what `message_function_decode` allocates.
pub record IsFunction (f : Function) : Type 0 where
  pub type_byte : f.type < 256
  pub at_most_nine : length f.args ≤ 9
  pub all_args : All IsArg f.args

copiar-copiar : (c : Cursor) (xs ys : List ℕ) → copiar (copiar c xs) ys ≡ copiar c (xs ++ ys)
unfolding copiar
copiar-copiar (b, at) xs ys = λ i. (write_bytes-append xs b at ys i, at_end i)
  where
    at_end : at + length xs + length ys ≡ at + length (xs ++ ys)
    at_end = omega (arith, length-append xs ys)

unfoldable pub image_arg : Arg → List ℕ
image_arg a = (le_bytes 1 (var_type a.value) ++ le_bytes 4 a.size) ++ contenido a.size a.value

unfoldable pub image_args : List Arg → List ℕ
image_args [] = []
image_args (a ∷ l) = image_arg a ++ image_args l

copiar-nil : (c : Cursor) → c ≡ copiar c []
unfolding copiar write_bytes
copiar-nil (b, at) = λ i. (b, at_end i)
  where
    at_end : at ≡ at + 0
    at_end = omega arith

arg_encode-image : (a : Arg) (c : Cursor) → function_arg_encode a c ≡ copiar c (image_arg a)
unfolding function_arg_encode image_arg
arg_encode-image a c =
    ap (λ d. copiar d (contenido a.size a.value)) (copiar-copiar c _ (le_bytes 4 a.size))
    ∙ copiar-copiar c _ (contenido a.size a.value)

encode_args-image : (l : List Arg) (c : Cursor) → encode_args l c ≡ copiar c (image_args l)
unfolding encode_args image_args
encode_args-image [] c = copiar-nil c
encode_args-image (a ∷ l) c =
    encode_args-image l (function_arg_encode a c)
    ∙ ap (λ d. copiar d (image_args l)) (arg_encode-image a c)
    ∙ copiar-copiar c (image_arg a) (image_args l)

pub take_self : (size : ℕ) (xs : List ℕ) → length xs ≡ size → take size xs ≡ xs
take_self size xs h = ap (λ n. take n xs) (sym h) ∙ take-length xs

length-contenido : (size : ℕ) (v : Valor) → FitsValue size v → length (contenido size v) ≡ size
unfolding contenido
length-contenido size (var_uint32 w) h = length-le_bytes size w
length-contenido size (var_char_ptr xs) h = ap length (take_self size xs h) ∙ h
length-contenido size (var_void_ptr xs) h = ap length (take_self size xs h) ∙ h
length-contenido size (var_size_t w) h = length-le_bytes size w
length-contenido size (otro t) h = absurd h

pub length-image_arg : (a : Arg) → IsArg a → length (image_arg a) ≡ 5 + a.size
unfolding image_arg
length-image_arg a h = omega (
  arith,
  length-append (le_bytes 1 (var_type a.value) ++ le_bytes 4 a.size) (contenido a.size a.value),
  length-append (le_bytes 1 (var_type a.value)) (le_bytes 4 a.size),
  length-le_bytes 1 (var_type a.value),
  length-le_bytes 4 a.size,
  length-contenido a.size a.value h.fits,
)

-- The size of the arguments as a sender computes it is the size of their image.
tam_args-image : (l : List Arg) (n : ℕ) → All IsArg l → tam_args l n ≡ n + length (image_args l)
unfolding tam_args image_args
tam_args-image [] n h = omega arith
tam_args-image (a ∷ l) n h = omega (
  arith,
  tam_args-image l (n + 1 + 4 + a.size) h.1,
  length-append (image_arg a) (image_args l),
  length-image_arg a h.0,
)

unfoldable pub image_function : Function → List ℕ
image_function f = (le_bytes 1 f.type ++ le_bytes 1 (length f.args)) ++ image_args f.args

unfoldable pub image_header : Message → List ℕ
image_header msg =
    (le_bytes 1 (message_type msg.cuerpo) ++ le_bytes 2 msg.caller_id) ++ le_bytes 4 msg.data_size

-- A call whose header has the size that its sender computes, for a buffer that has room for it.
pub record IsCall (msg : Message) (f : Function) (buffer_size : ℕ) : Type 0 where
  pub call : msg.cuerpo ≡ message_call f
  pub function : IsFunction f
  pub caller : msg.caller_id < 2 ^ 16
  pub sized : msg.data_size ≡ tam_data_function f
  pub room : 7 + msg.data_size ≤ buffer_size
  pub small : 7 + msg.data_size < 2 ^ 31

function_encode-image :
    (f : Function) (c : Cursor)
    → encode_args f.args (copiar (copiar c (le_bytes 1 f.type)) (le_bytes 1 (length f.args)))
      ≡ copiar c (image_function f)
unfolding image_function
function_encode-image f c =
    encode_args-image f.args _
    ∙ ap (λ d. copiar d (image_args f.args)) (copiar-copiar c _ (le_bytes 1 (length f.args)))
    ∙ copiar-copiar c _ (image_args f.args)

header_encode-image :
    (msg : Message) (c : Cursor)
    → copiar
        (copiar (copiar c (le_bytes 1 (message_type msg.cuerpo))) (le_bytes 2 msg.caller_id))
        (le_bytes 4 msg.data_size)
      ≡ copiar c (image_header msg)
unfolding image_header
header_encode-image msg c =
    ap (λ d. copiar d (le_bytes 4 msg.data_size)) (copiar-copiar c _ (le_bytes 2 msg.caller_id))
    ∙ copiar-copiar c _ (le_bytes 4 msg.data_size)

pub tam_data_function-image :
    (f : Function) → IsFunction f → tam_data_function f ≡ length (image_function f)
unfolding tam_data_function image_function le_bytes
tam_data_function-image f h = omega (arith, tam_args-image f.args 2 h.all_args)

pub copiar_size : (b : Buffer) (at : ℕ) (xs : List ℕ) → (copiar (b, at) xs).1 - at ≡ length xs
unfolding copiar
copiar_size b at xs = omega arith

length-image_header : (msg : Message) → length (image_header msg) ≡ 7
unfolding image_header le_bytes
length-image_header msg = refl

header_encode-room :
    (n : ℕ) (msg : Message) (b : Buffer)
    → ltb n 1 ≡ false
    → header_encode n msg (b, 0) ≡ (copiar (b, 0) (image_header msg), some 7)
unfolding header_encode
header_encode-room n msg b small = rw small (
    ap (λ d. (d, some (d.1 - 0))) (header_encode-image msg (b, 0))
    ∙ ap (λ k. (copiar (b, 0) (image_header msg), some k))
        (copiar_size b 0 (image_header msg) ∙ length-image_header msg))

function_encode-room :
    (n size : ℕ) (f : Function) (b : Buffer) (at : ℕ)
    → ltb n (int_as_size_t (7 + size)) ≡ false
    → message_function_encode n size f (b, at)
      ≡ (copiar (b, at) (image_function f), some (length (image_function f)))
unfolding message_function_encode
function_encode-room n size f b at small = rw small (
    ap (λ d. (d, some (d.1 - at))) (function_encode-image f (b, at))
    ∙ ap (λ k. (copiar (b, at) (image_function f), some k)) (copiar_size b at (image_function f)))

pub int_as_size_t-small : (n : ℕ) → n < 2 ^ 31 → int_as_size_t n ≡ n
unfolding int_as_size_t
int_as_size_t-small n h = ground arith

pub not_ltb : (m n : ℕ) → m ≤ n → ltb n m ≡ false
not_ltb m n h = ground arith

pub message_encode-header :
    (msg : Message) (b : Buffer) (n : ℕ)
    → 7 + msg.data_size ≤ n
    → message_encode msg b n
      ≡ encode_cuerpo n msg.data_size 7 msg.cuerpo (copiar (b, 0) (image_header msg))
unfolding message_encode
message_encode-header msg b n room = rw (not_ltb (7 + msg.data_size) n room) (
    ap
      (λ d. elim d.1 [
        | none ↦ (d.0.0, none)
        | some k ↦ encode_cuerpo n msg.data_size k msg.cuerpo d.0
      ])
      (header_encode-room n msg b (not_ltb 1 n (omega (arith, room)))))

encode_cuerpo-call :
    (n size : ℕ) (f : Function) (b : Buffer) (xs : List ℕ)
    → IsFunction f
    → size ≡ tam_data_function f
    → 7 + size ≤ n
    → 7 + size < 2 ^ 31
    → encode_cuerpo n size 7 (message_call f) (copiar (b, 0) xs)
      ≡ (write_bytes b 0 (xs ++ image_function f), some (7 + size))
unfolding encode_cuerpo copiar
encode_cuerpo-call n size f b xs h sized room small =
    ap (λ d. (d.0.0, some (sumar 7 d.1)))
      (function_encode-room n size f _ _
        (ap (ltb n) (int_as_size_t-small (7 + size) small) ∙ not_ltb (7 + size) n room))
    ∙ ap₂ (λ w k. (w, some (7 + k))) (write_bytes-append xs b 0 (image_function f))
        (sym (sized ∙ tam_data_function-image f h))

-- A call is encoded as its image, in 7 bytes and as many as its header says.
pub message_encode-image :
    (msg : Message) (f : Function) (b : Buffer) (n : ℕ)
    → IsCall msg f n
    → message_encode msg b n
      ≡ (write_bytes b 0 (image_header msg ++ image_function f), some (7 + msg.data_size))
message_encode-image msg f b n h =
    message_encode-header msg b n h.room
    ∙ ap (λ x. encode_cuerpo n msg.data_size 7 x (copiar (b, 0) (image_header msg))) h.call
    ∙ encode_cuerpo-call n msg.data_size f b (image_header msg) h.function h.sized h.room h.small
