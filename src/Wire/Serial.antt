-- ===== src/Wire/Serial.antt =====
-- utils_suse/libraries.c: integers, strings and lists of strings in a buffer with a running
-- displacement. An `int` is its 32-bit pattern; a string is its characters, without the final NUL.
-- The displacement is an `int` that the code adds to: it is a number without end here, so the
-- definitions follow the code as long as it stays below 2 ^ 31, as a buffer of that size does.
pub mod RoundTrip
use tp_sistemas_operativos.Base.{
  ℕ, zero, suc, ◌+◌, ◌*◌, Bool, true, false, List, [], ◌∷◌, ◌++◌, ◌==◌, if◌then◌else◌, length,
}
use tp_sistemas_operativos.Wire.Bytes.{Buffer, write_bytes, read_bytes, le_bytes, of_le}

-- A buffer and the displacement at which the next value goes, an `int` below 2 ^ 31 in the code.
abbrev pub Salida : Type 0
Salida = Buffer × ℕ

abbrev pub CString : Type 0
CString = List ℕ

-- `strlen(string) * sizeof(char) + 1`.
unfoldable pub size_of_string : CString → ℕ
size_of_string s = length s + 1

-- What stands in memory for a string: its characters and a NUL.
abbrev pub with_nul : CString → List ℕ
with_nul s = s ++ 0 ∷ []

-- The string that starts at a block of memory.
unfoldable pub c_string : List ℕ → CString
c_string [] = []
c_string (x ∷ xs) = let rest = x ∷ c_string xs in if x == 0 then [] else rest

-- `*desplazamiento += sizeof(int)` behind the copy: a sum of `int`s, which must not overflow.
unfoldable pub serializar_int : Salida → ℕ → Salida
serializar_int (b, at) valor = (write_bytes b at (le_bytes 4 valor), at + 4)

unfoldable pub deserializar_int : Buffer → ℕ → ℕ × ℕ
deserializar_int b at = (of_le (read_bytes b at 4), at + 4)

unfoldable pub serializar_string : Salida → CString → Salida
unfolding size_of_string serializar_int
serializar_string salida valor =
    let tamanio_valor = size_of_string valor in
    let (b, at) = serializar_int salida tamanio_valor in
    (write_bytes b at (with_nul valor), at + tamanio_valor)

-- The copy that `malloc` and `memcpy` make, as the block of memory that it is.
unfoldable pub deserializar_string : Buffer → ℕ → List ℕ × ℕ
unfolding deserializar_int
deserializar_string b desplazamiento =
    let (tamanio_valor, at) = deserializar_int b desplazamiento in
    (read_bytes b at tamanio_valor, at + tamanio_valor)

-- `list_iterate(lista, serializar_valor)`.
unfoldable pub serializar_valores : Salida → List CString → Salida
serializar_valores salida [] = salida
serializar_valores salida (valor ∷ resto) =
    serializar_valores (serializar_string salida valor) resto

unfoldable pub serializar_lista_strings : Salida → List CString → Salida
unfolding serializar_valores
serializar_lista_strings salida lista =
    serializar_valores (serializar_int salida (length lista)) lista

-- The `for` of `deserializar_lista_strings`, with the rounds left.
unfoldable pub deserializar_valores : Buffer → ℕ → ℕ → List (List ℕ) × ℕ
deserializar_valores b at zero = ([], at)
deserializar_valores b at (suc quedan) =
    let (valor, at') = deserializar_string b at in
    let (resto, fin) = deserializar_valores b at' quedan in (valor ∷ resto, fin)

unfoldable pub deserializar_lista_strings : Buffer → ℕ → List (List ℕ) × ℕ
unfolding deserializar_int deserializar_valores
deserializar_lista_strings b desplazamiento =
    let (tamanio_lista, at) = deserializar_int b desplazamiento in
    deserializar_valores b at tamanio_lista

-- `list_iterate(list, agregar_tamanio_string)`.
unfoldable pub agregar_tamanios : ℕ → List CString → ℕ
agregar_tamanios result [] = result
agregar_tamanios result (string ∷ resto) = agregar_tamanios (result + size_of_string string) resto

unfoldable pub size_of_list_of_strings_to_serialize : List CString → ℕ
unfolding agregar_tamanios
size_of_list_of_strings_to_serialize list = agregar_tamanios (length list * 4 + 4) list
