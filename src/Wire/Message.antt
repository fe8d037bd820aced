-- ===== src/Wire/Message.antt =====
-- utils_suse/message.c and message.h: messages between libmuse, MUSE and SAC, in a buffer. The type
-- tags of message.h are constructors here, with the code that goes over the wire. The size of a
-- buffer is an argument and not checked further: the code checks it where these functions do.
-- The code keeps an argument in a union of 8 bytes and allocates 2 bytes and 10 arguments for a
-- function, whose struct starts its arguments at byte 8, and it tests neither: a word of more than 8
-- bytes, or a tenth argument, is written outside of what it has. The lists and numbers here have no
-- such end, so the definitions follow the code for functions of at most nine arguments with words of
-- at most 8 bytes.
pub mod Image
pub mod RoundTrip
pub mod Respuesta
use tp_sistemas_operativos.Base.{
  ℕ, zero, suc, ◌+◌, ◌-◌, ◌%◌, ◌^◌, Option, none, some, List, [], ◌∷◌, ◌++◌, ◌==◌, ltb,
  if◌then◌else◌, length,
}
use tp_sistemas_operativos.Base.Lists.{take}
use tp_sistemas_operativos.Wire.Bytes.{Buffer, write_bytes, read_bytes, le_bytes, of_le}

-- `VarValue` with its `VarType`; `otro` is a type that no `case` names.
pub data Valor : Type 0 where
  var_uint32 : ℕ → Valor
  var_char_ptr : List ℕ → Valor
  var_void_ptr : List ℕ → Valor
  var_size_t : ℕ → Valor
  otro : ℕ → Valor

-- `Arg`: a word is written with `size` bytes into the union, which has 8.
pub record Arg : Type 0 where
  pub size : ℕ
  pub value : Valor

-- `num_args` is the length of `args`, an array of 10 in message.h.
pub record Function : Type 0 where
  pub type : ℕ
  pub args : List Arg

-- What `data` points at, with the `message_type` of the header.
pub data Cuerpo : Type 0 where
  message_call : Function → Cuerpo
  message_function_ret : ℕ → Cuerpo
  message_new_ult : Cuerpo
  desconocido : ℕ → Cuerpo

pub record Message : Type 0 where
  pub caller_id : ℕ
  pub data_size : ℕ
  pub cuerpo : Cuerpo

unfoldable pub var_type : Valor → ℕ
var_type (var_uint32 w) = 0
var_type (var_char_ptr xs) = 1
var_type (var_void_ptr xs) = 2
var_type (var_size_t w) = 3
var_type (otro t) = t

unfoldable pub message_type : Cuerpo → ℕ
message_type (message_call f) = 1
message_type (message_function_ret r) = 2
message_type message_new_ult = 3
message_type (desconocido t) = t

-- What `function_arg_encode` copies behind type and size.
unfoldable pub contenido : ℕ → Valor → List ℕ
contenido size (var_uint32 w) = le_bytes size w
contenido size (var_char_ptr xs) = take size xs
contenido size (var_void_ptr xs) = take size xs
contenido size (var_size_t w) = le_bytes size w
contenido size (otro t) = []

-- A buffer and the cursor in it.
abbrev pub Cursor : Type 0
Cursor = Buffer × ℕ

-- `memcpy(cursor, …, n); cursor += n;`
unfoldable pub copiar : Cursor → List ℕ → Cursor
copiar (b, at) xs = (write_bytes b at xs, at + length xs)

unfoldable pub function_arg_encode : Arg → Cursor → Cursor
unfolding copiar
function_arg_encode arg c =
    copiar (copiar (copiar c (le_bytes 1 (var_type arg.value))) (le_bytes 4 arg.size))
      (contenido arg.size arg.value)

-- The `for` over the arguments.
unfoldable pub encode_args : List Arg → Cursor → Cursor
encode_args [] c = c
encode_args (arg ∷ resto) c = encode_args resto (function_arg_encode arg c)

-- An `int` as `size_t`: the comparison of `buffer_size` with `min_size` makes it one.
unfoldable pub int_as_size_t : ℕ → ℕ
int_as_size_t n = let w = n % 2 ^ 32 in if ltb w (2 ^ 31) then w else 2 ^ 64 - 2 ^ 32 + w

-- `none` is the result -1.
unfoldable pub message_function_encode : ℕ → ℕ → Function → Cursor → Cursor × Option ℕ
message_function_encode buffer_size data_size f c =
    if ltb buffer_size (int_as_size_t (7 + data_size))
    then (c, none)
    else (let fin =
          encode_args f.args (copiar (copiar c (le_bytes 1 f.type)) (le_bytes 1 (length f.args))) in
        (fin, some (fin.1 - c.1)))

unfoldable pub message_function_return_encode : ℕ → ℕ → ℕ → Cursor → Cursor × Option ℕ
message_function_return_encode buffer_size data_size response c =
    if ltb buffer_size (int_as_size_t (7 + data_size))
    then (c, none)
    else (let fin = copiar c (le_bytes 4 response) in (fin, some (fin.1 - c.1)))

-- The header proper: type, caller and size of the data.
unfoldable pub header_encode : ℕ → Message → Cursor → Cursor × Option ℕ
header_encode buffer_size msg c =
    if ltb buffer_size 1
    then (c, none)
    else (let fin =
          copiar
            (copiar (copiar c (le_bytes 1 (message_type msg.cuerpo))) (le_bytes 2 msg.caller_id))
            (le_bytes 4 msg.data_size) in
        (fin, some (fin.1 - c.1)))

-- `result += r`, where -1 takes one away.
abbrev pub sumar : ℕ → Option ℕ → ℕ
sumar result none = result - 1
sumar result (some r) = result + r

-- The `switch` of `message_encode`, behind a header of `result` bytes.
unfoldable pub encode_cuerpo : ℕ → ℕ → ℕ → Cuerpo → Cursor → Buffer × Option ℕ
encode_cuerpo buffer_size data_size result (message_call f) c =
    let (fin, r) = message_function_encode buffer_size data_size f c in
    (fin.0, some (sumar result r))
encode_cuerpo buffer_size data_size result (message_function_ret v) c =
    let (fin, r) = message_function_return_encode buffer_size data_size v c in
    (fin.0, some (sumar result r))
encode_cuerpo buffer_size data_size result message_new_ult c = (c.0, some result)
encode_cuerpo buffer_size data_size result (desconocido t) c = (c.0, none)

unfoldable pub message_encode : Message → Buffer → ℕ → Buffer × Option ℕ
message_encode msg buffer buffer_size =
    if ltb buffer_size (7 + msg.data_size)
    then (buffer, none)
    else (let (c, result) = header_encode buffer_size msg (buffer, 0) in
        elim result [
          | none ↦ (c.0, none)
          | some n ↦ encode_cuerpo buffer_size msg.data_size n msg.cuerpo c
        ])

-- `memcpy(…, cursor, n); cursor += n;` into a word that was zero.
abbrev pub leer : Buffer → ℕ → ℕ → ℕ
leer b at n = of_le (read_bytes b at n)

-- The `switch` of `function_arg_decode`: the value of a type and a size, read at `at`.
unfoldable pub leer_valor : Buffer → ℕ → ℕ → ℕ → Valor
leer_valor b at size zero = var_uint32 (leer b at size)
leer_valor b at size (suc zero) = var_char_ptr (read_bytes b at size)
leer_valor b at size (suc (suc zero)) = var_void_ptr (read_bytes b at size)
leer_valor b at size (suc (suc (suc zero))) = var_size_t (leer b at size)
leer_valor b at size (suc (suc (suc (suc t)))) = otro (suc (suc (suc (suc t))))

-- Where the cursor goes after the argument that starts at `at`: a type that no `case` names makes
-- the result -1, and the cursor goes back one.
unfoldable pub tras_valor : ℕ → ℕ → Valor → ℕ
tras_valor at size (var_uint32 w) = at + 5 + size
tras_valor at size (var_char_ptr xs) = at + 5 + size
tras_valor at size (var_void_ptr xs) = at + 5 + size
tras_valor at size (var_size_t w) = at + 5 + size
tras_valor at size (otro t) = at - 1

unfoldable pub function_arg_decode : Buffer → ℕ → Arg × ℕ
unfolding leer_valor tras_valor
function_arg_decode b at =
    let size = leer b (at + 1) 4 in
    let value = leer_valor b (at + 5) size (leer b at 1) in
    (record { size = size; value = value }, tras_valor at size value)

-- The `for` over the arguments, with the rounds left. The array of the code ends behind the tenth, and
-- what is allocated for it inside the tenth; the list here does not.
unfoldable pub decode_args : Buffer → ℕ → ℕ → List Arg × ℕ
decode_args b at zero = ([], at)
decode_args b at (suc quedan) =
    let (arg, at') = function_arg_decode b at in
    let (resto, fin) = decode_args b at' quedan in (arg ∷ resto, fin)

unfoldable pub message_function_decode : Buffer → ℕ → Function × ℕ
unfolding decode_args
message_function_decode b at =
    let (args, fin) = decode_args b (at + 2) (leer b (at + 1) 1) in
    (record { type = leer b at 1; args = args }, fin - at)

-- The `switch` of `message_decode`, behind a header of 7 bytes.
unfoldable pub decode_cuerpo : Buffer → ℕ → Cuerpo × Option ℕ
unfolding message_function_decode
decode_cuerpo b (suc zero) =
    let (f, n) = message_function_decode b 7 in (message_call f, some (7 + n))
decode_cuerpo b (suc (suc zero)) = (message_function_ret (leer b 7 4), some (7 + 4))
decode_cuerpo b (suc (suc (suc zero))) = (message_new_ult, some 7)
decode_cuerpo b t = (desconocido t, none)

unfoldable pub message_decode : Buffer → ℕ → Option (Message × Option ℕ)
unfolding decode_cuerpo
message_decode b buffer_size =
    if ltb buffer_size 1
    then none
    else (let (cuerpo, res) = decode_cuerpo b (leer b 0 1) in
        some (record { caller_id = leer b 1 2; data_size = leer b 3 4; cuerpo = cuerpo }, res))

-- `tamDataFunction`: the bytes of a call, as libmuse, MUSE and SAC put them into `data_size`.
unfoldable pub tam_args : List Arg → ℕ → ℕ
tam_args [] tamano = tamano
tam_args (arg ∷ resto) tamano = tam_args resto (tamano + 1 + 4 + arg.size)

unfoldable pub tam_data_function : Function → ℕ
unfolding tam_args
tam_data_function f = tam_args f.args 2
