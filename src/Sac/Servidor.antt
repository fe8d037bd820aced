-- ===== src/Sac/Servidor.antt =====
-- filesystem/sac_servidor.c: the arguments of the requests and what the replies are made of. A text
-- of a request is read up to its NUL; one without a NUL, or a value of another type, is a fault.
pub mod Respuestas
pub mod Pedidos
pub mod Mkdir
use tp_sistemas_operativos.Base.{
  ℕ, zero, suc, put, ◌+◌, ◌-◌, ◌%◌, ◌^◌, ◌*◌, Bool, true, false, Option, none, some, List, [], ◌∷◌,
  ◌++◌, ◌==◌, if◌then◌else◌, length,
}
use tp_sistemas_operativos.Base.Int.{ℤ, pos, negsuc}
use tp_sistemas_operativos.Comandos.{
  Run, ok, fault, blocks, Cmd, gets, modify, or_fault, pure, agotar, ◌>>=◌, ◌>>◌,
}
use tp_sistemas_operativos.Wire.Bytes.{Buffer, read_bytes}
use tp_sistemas_operativos.Wire.Message.{
  Arg, Function, Valor, var_uint32, var_char_ptr, var_void_ptr, var_size_t, otro, Message, Cuerpo,
  message_call, message_function_ret, message_new_ult, desconocido, tam_data_function,
}
use tp_sistemas_operativos.Sac.Disco.{Bitarrays, Rutas, Disco, Cadena}
use tp_sistemas_operativos.Sac.Ordenes.{a_uint32}
use tp_sistemas_operativos.Sac.Nodos.{
  bloque_de_nodo, determine_nodo, completar_lista_con_file_names, lista_a_string, mismo_texto,
}
use tp_sistemas_operativos.Sac.Nodos.Crear.{crear_nuevo_nodo, renombrar_archivo}
use tp_sistemas_operativos.Sac.Espacio.{truncar_archivo}
use tp_sistemas_operativos.Sac.Borrar.{borrar_archivo, borrar_directorio}
use tp_sistemas_operativos.Sac.Lectura.{leer_archivo}
use tp_sistemas_operativos.Sac.Escritura.{Dictionaries, Servidor, en_disco, escribir_archivo}

-- `FuncType` of utils_suse/message.h, the replies of SAC.
abbrev pub function_rta_getattr : ℕ
function_rta_getattr = 10

abbrev pub function_rta_readdir : ℕ
function_rta_readdir = 12

abbrev pub function_rta_open : ℕ
function_rta_open = 14

abbrev pub function_rta_opendir : ℕ
function_rta_opendir = 16

abbrev pub function_rta_read : ℕ
function_rta_read = 18

abbrev pub function_rta_mknod : ℕ
function_rta_mknod = 20

abbrev pub function_rta_write : ℕ
function_rta_write = 22

abbrev pub function_rta_unlink : ℕ
function_rta_unlink = 24

abbrev pub function_rta_mkdir : ℕ
function_rta_mkdir = 26

abbrev pub function_rta_rmdir : ℕ
function_rta_rmdir = 28

abbrev pub function_rta_getattr_nodoraiz : ℕ
function_rta_getattr_nodoraiz = 29

abbrev pub function_rta_truncate : ℕ
function_rta_truncate = 31

abbrev pub function_rta_rename : ℕ
function_rta_rename = 33

-- An argument of type VAR_UINT32.
unfoldable pub arg_uint32 : ℕ → Arg
arg_uint32 w = record { size = 4; value = var_uint32 w }

-- The type -1 of an enum, and the word -1.
unfoldable pub retornar_error : Function
unfolding arg_uint32
retornar_error = record { type = 2 ^ 32 - 1; args = arg_uint32 (2 ^ 32 - 1) ∷ [] }

unfoldable pub enviar_respuesta_basica : ℤ → ℕ → Function
unfolding retornar_error arg_uint32
enviar_respuesta_basica (pos zero) tipo = record { type = tipo; args = arg_uint32 0 ∷ [] }
enviar_respuesta_basica (pos (suc n)) tipo = retornar_error
enviar_respuesta_basica (negsuc e) tipo = retornar_error

-- The bytes up to the first NUL.
unfoldable pub hasta_nul : List ℕ → Option Cadena
hasta_nul [] = none
hasta_nul (zero ∷ xs) = some []
hasta_nul (suc x ∷ xs) = elim (hasta_nul xs) [ none ↦ none | some ys ↦ some (suc x ∷ ys) ]

unfoldable pub val_charptr : Arg → Option (List ℕ)
val_charptr a = elim (a.value) [
  | var_char_ptr xs ↦ some xs
  | var_uint32 w ↦ none
  | var_void_ptr xs ↦ none
  | var_size_t w ↦ none
  | otro t ↦ none
]

unfoldable pub val_u32 : Arg → Option ℕ
val_u32 a = elim (a.value) [
  | var_uint32 w ↦ some w
  | var_size_t w ↦ some (w % 2 ^ 32)
  | var_char_ptr xs ↦ none
  | var_void_ptr xs ↦ none
  | otro t ↦ none
]

-- `f->args[i]`; an argument that the request does not have is unset.
unfoldable pub arg_en : List Arg → ℕ → Option Arg
arg_en [] i = none
arg_en (a ∷ args) zero = some a
arg_en (a ∷ args) (suc i) = arg_en args i

-- `"/"`.
abbrev pub raiz : Cadena
raiz = 47 ∷ []

module _ {S : Type 0} where
  unfoldable pub texto_de : List Arg → ℕ → Cmd S Cadena
  unfolding ◌>>=◌ or_fault arg_en val_charptr hasta_nul
  texto_de args i = do
    a ← or_fault (arg_en args i)
    xs ← or_fault (val_charptr a)
    or_fault (hasta_nul xs)

  unfoldable pub palabra_de : List Arg → ℕ → Cmd S ℕ
  unfolding ◌>>=◌ or_fault arg_en val_u32
  palabra_de args i = do a ← or_fault (arg_en args i); or_fault (val_u32 a)

  -- The bytes of an argument, and its size.
  unfoldable pub bytes_y_size : List Arg → ℕ → Cmd S (List ℕ × ℕ)
  unfolding ◌>>=◌ pure or_fault arg_en val_charptr
  bytes_y_size args i = do
    a ← or_fault (arg_en args i)
    xs ← or_fault (val_charptr a)
    pure (xs, a.size)
