-- ===== src/Sac/Bloques.antt =====
-- The functions of filesystem/sac_handlers.c that find free blocks and give them to files. `none` is
-- a call that never returns, on a mutex that is held.
use tp_sistemas_operativos.Base.{
  ℕ, put, zero, suc, ◌+◌, ◌-◌, ◌*◌, ◌/◌, ◌%◌, ◌^◌, true, false, ltb, ◌&&◌, not, Option, none, some,
  ◌==◌, if◌then◌else◌,
}
use tp_sistemas_operativos.Base.Int.{ℤ, pos, negsuc}
use tp_sistemas_operativos.Sac.Disco.{
  Bitarrays, Disco, Gfile, bloque_size, punteros_a_bloques_datos, blkindirect,
}

-- The pattern of an `int` of which the negative is given.
abbrev opuesto : ℕ → ℕ
opuesto k = (2 ^ 32 - k) % 2 ^ 32

-- `setear_posicion`: the number of the block of pointers, and the position in it, of an offset. `div`
-- takes an `int`, so the offset is cut to one; with a negative one both results are negative, rounded
-- towards 0. They are 32-bit patterns here. Its callers index with them, and a negative index, in front
-- of an array, is an entry of its own in the model.
unfoldable pub setear_posicion : ℕ → ℕ × ℕ
setear_posicion offset =
    let o = offset % 2 ^ 32 in
    let n = 2 ^ 32 - o in
    if ltb o (2 ^ 31)
    then (
      o / (bloque_size * punteros_a_bloques_datos),
      o % (bloque_size * punteros_a_bloques_datos) / bloque_size,
    )
    else (
      opuesto (n / (bloque_size * punteros_a_bloques_datos)),
      opuesto (n % (bloque_size * punteros_a_bloques_datos) / bloque_size),
    )

-- `-ENOSPC`.
abbrev pub menos_enospc : ℤ
menos_enospc = negsuc 27

module _ ⦃c : Bitarrays⦄ where
  open c use {Bits, bitarray_test_bit, bitarray_set_bit, bitarray_get_max_bit}

  -- The `while` of `get_bloque_vacio`, with the rounds left up to the last bit.
  unfoldable pub buscar_vacio : Bits → ℕ → ℕ → ℕ
  buscar_vacio b bit_actual zero = bit_actual
  buscar_vacio b bit_actual (suc quedan) =
      let sigue = buscar_vacio b (bit_actual + 1) quedan in
      if bitarray_test_bit b bit_actual then sigue else bit_actual

  -- The bit that `get_bloque_vacio` starts at, and the number of bits behind it.
  abbrev pub bit_inicial : Disco → ℕ
  bit_inicial d = d.bloque_inicio_datos - 1

  abbrev pub bits_de_datos : Disco → ℕ
  bits_de_datos d = bitarray_get_max_bit d.bitmap - bit_inicial d

  -- With no bit free the result is -1, and `s_bitmap` is not given back.
  unfoldable pub get_bloque_vacio : Disco → Option (ℤ × Disco)
  get_bloque_vacio d =
      if d.s_bitmap
      then none
      else (let bit_actual = buscar_vacio d.bitmap (bit_inicial d) (bits_de_datos d) in
          if bit_actual == bitarray_get_max_bit d.bitmap
          then some (negsuc 0, record d { s_bitmap = true })
          else some (pos bit_actual, record d { bitmap = bitarray_set_bit d.bitmap bit_actual }))

  -- The `for` of `cantidad_bloques_libres`, with the rounds left.
  unfoldable pub contar_libres : Bits → ℕ → ℕ → ℕ → ℕ
  contar_libres b i zero contador = contador
  contar_libres b i (suc quedan) contador =
      contar_libres b (i + 1) quedan (if bitarray_test_bit b i then contador else contador + 1)

  unfoldable pub cantidad_bloques_libres : Disco → Option (ℕ × Disco)
  cantidad_bloques_libres d =
      if d.s_bitmap
      then none
      else some (contar_libres d.bitmap (bit_inicial d) (bits_de_datos d) 0, d)

  abbrev pub con_nodo : Disco → ℕ → Gfile → Disco
  con_nodo d n g = record d { tabla_de_nodos = put d.tabla_de_nodos n g }

  -- `nodo_punteros->punteros_a_bloques[position] = numeroNodo`, and the unlock.
  abbrev pub apuntar : Disco → ℕ → ℕ → ℕ → Disco
  apuntar d bloque position numero = record d {
    bloques = put d.bloques bloque (put (d.bloques bloque) position numero);
    s_tabla_de_nodos = false;
  }

  -- A new block of pointers, cleared, becomes the one with a number, and the next is marked as 0.
  abbrev pub con_bloque_de_punteros : Disco → ℕ → ℕ → ℕ → Disco
  con_bloque_de_punteros d nodo numero bloque =
      let g = d.tabla_de_nodos nodo in
      con_nodo (record d { bloques = put d.bloques bloque (λ _. 0) }) nodo
        (record g {
          indirect_blocks_array = put (put g.indirect_blocks_array numero bloque) (numero + 1) 0;
        })

  -- What `agregar_nodo` does at the first position of a block of pointers, with what
  -- `get_bloque_vacio` gave. On -1 it returns with `s_tablaDeNodos` held.
  unfoldable pub agregar_primero : ℕ → ℕ → ℕ → Option (ℤ × Disco) → Option (ℤ × Disco)
  agregar_primero nodo numero_nodo numero none = none
  agregar_primero nodo numero_nodo numero (some (negsuc e, d)) = some (negsuc e, d)
  agregar_primero nodo numero_nodo numero (some (pos bloque, d)) =
      some (pos 0, apuntar (con_bloque_de_punteros d nodo numero bloque) bloque 0 numero_nodo)

  -- `setear_posicion` never gives the position 1024 that the code tests for; the test is here all the
  -- same.
  unfoldable pub posicion_de_nodo : Gfile → ℕ × ℕ
  unfolding setear_posicion
  posicion_de_nodo g =
      let (numero, position) = setear_posicion g.file_size in
      if not (g.indirect_blocks_array numero == 0) && (position == 1024)
      then (numero + 1, 0)
      else (numero, position)

  unfoldable pub agregar_en : Disco → ℕ → ℕ → ℕ × ℕ → Option (ℤ × Disco)
  unfolding get_bloque_vacio agregar_primero
  agregar_en d nodo numero_nodo (numero, position) =
      if position == 0
      then agregar_primero nodo numero_nodo numero (get_bloque_vacio d)
      else some (
        pos 0,
        apuntar d ((d.tabla_de_nodos nodo).indirect_blocks_array numero) position numero_nodo,
      )

  -- `agregar_nodo`. With no place left in the file it returns with `s_tablaDeNodos` held.
  unfoldable pub agregar_nodo : Disco → ℕ → ℕ → Option (ℤ × Disco)
  agregar_nodo d nodo numero_nodo =
      if d.s_tabla_de_nodos
      then none
      else (let g = d.tabla_de_nodos nodo in
          let d' = record d { s_tabla_de_nodos = true } in
          let (numero, position) = setear_posicion g.file_size in
          if (numero == blkindirect - 1) && (position == punteros_a_bloques_datos - 1)
          then some (menos_enospc, d')
          else agregar_en d' nodo numero_nodo (posicion_de_nodo g))
