-- ===== src/Sac/Espacio.antt =====
-- `truncar_archivo`, `get_new_space` and `delete_nodes_upto` of filesystem/sac_handlers.c. The
-- `DELETE_MODE` is 0 always: nothing calls `ENABLE_DELETE_MODE`.
use tp_sistemas_operativos.Base.{
  ℕ, zero, suc, put, ◌+◌, ◌*◌, ◌-◌, ◌%◌, ◌^◌, true, false, ◌&&◌, ◌==◌, ltb, leb, if◌then◌else◌,
}
use tp_sistemas_operativos.Base.Int.{ℤ, pos, negsuc}
use tp_sistemas_operativos.Comandos.{Cmd, fault, gets, modify, pure, agotar, ◌>>=◌, ◌>>◌}
use tp_sistemas_operativos.Sac.Disco.{Bitarrays, Disco, bloque_size, punteros_a_bloques_datos}
use tp_sistemas_operativos.Wire.Message.{int_as_size_t}
use tp_sistemas_operativos.Sac.Bloques.{
  setear_posicion, get_bloque_vacio, cantidad_bloques_libres, agregar_nodo, menos_enospc,
}
use tp_sistemas_operativos.Sac.Ordenes.{
  a_uint32, tomar_bitmap, soltar_bitmap, tomar_tabla, soltar_tabla, limpiar_bit, cambiar_nodo,
  nodo_valido, llamar,
}

module _ ⦃c : Bitarrays⦄ where
  -- `lock; file_data->file_size += n; unlock`, in 32 bits.
  unfoldable pub sumar_file_size : ℕ → ℕ → Cmd Disco (Unit {0})
  unfolding ◌>>◌ tomar_tabla soltar_tabla cambiar_nodo
  sumar_file_size nodo n = do
    tomar_tabla
    cambiar_nodo nodo (λ g. record g { file_size = (g.file_size + n) % 2 ^ 32 })
    soltar_tabla

  -- The `while` of `get_new_space` and the sum behind it. `size` is the pattern of an `int`, which
  -- the test reads as a `size_t`. A loop with no rounds left is `agotado`.
  unfoldable pub agregar_bloques : ℕ → ℕ → ℕ → ℕ → Cmd Disco ℤ
  unfolding ◌>>=◌ ◌>>◌ pure agotar llamar get_bloque_vacio agregar_nodo sumar_file_size a_uint32
      int_as_size_t
  agregar_bloques zero nodo space_in_block size = agotar
  agregar_bloques (suc tope) nodo space_in_block size =
      elim (leb space_in_block (int_as_size_t size)) [
        | true ↦ (do
          new_node ← llamar get_bloque_vacio
          llamar λ d. agregar_nodo d nodo (a_uint32 new_node)
          sumar_file_size nodo bloque_size
          agregar_bloques tope nodo space_in_block ((size + 2 ^ 32 - bloque_size) % 2 ^ 32))
        | false ↦ (do sumar_file_size nodo size; pure (pos 0))
      ]

  -- `size - space_in_block` is a `size_t`, as is the product with the count of free blocks.
  unfoldable pub get_new_space : ℕ → ℕ → ℕ → Cmd Disco ℤ
  unfolding ◌>>=◌ ◌>>◌ pure gets llamar cantidad_bloques_libres sumar_file_size agregar_bloques
      int_as_size_t
  get_new_space tope nodo size = do
    file_size ← gets λ d. (d.tabla_de_nodos nodo).file_size
    let space_in_block = bloque_size - file_size % bloque_size
    libres ← llamar cantidad_bloques_libres
    let falta = (int_as_size_t size + 2 ^ 64 - space_in_block) % 2 ^ 64
    if ltb (libres * bloque_size) falta then pure menos_enospc else (do
      if leb (int_as_size_t size) space_in_block
          then (do sumar_file_size nodo size; pure (pos 0))
          else (do
            sumar_file_size nodo space_in_block
            agregar_bloques tope nodo space_in_block size))

  -- One round of the inner `while` of `delete_nodes_upto`.
  unfoldable pub borrar_dato : ℕ → ℕ → Cmd Disco (Unit {0})
  unfolding ◌>>=◌ ◌>>◌ gets modify tomar_tabla soltar_tabla tomar_bitmap soltar_bitmap limpiar_bit
  borrar_dato aux data_pos = do
    node_to_delete ← gets λ d. d.bloques aux data_pos
    tomar_tabla
    modify λ d. record d { bloques = put d.bloques aux (put (d.bloques aux) data_pos 0) }
    soltar_tabla
    tomar_bitmap
    limpiar_bit node_to_delete
    soltar_bitmap

  -- The inner `while`. Below the position 0 it would go on in front of the block: a fault.
  unfoldable pub borrar_datos : ℕ → ℕ → ℕ → Cmd Disco (Unit {0})
  unfolding ◌>>◌ pure borrar_dato
  borrar_datos aux delete_upto zero =
      if delete_upto == 0 then pure tt else (do borrar_dato aux 0; λ d. fault)
  borrar_datos aux delete_upto (suc data_pos) = elim (suc data_pos == delete_upto) [
    | true ↦ pure tt
    | false ↦ (do borrar_dato aux (suc data_pos); borrar_datos aux delete_upto data_pos)
  ]

  -- What `delete_nodes_upto` does with a block of pointers that it has emptied.
  unfoldable pub borrar_puntero : ℕ → ℕ → Cmd Disco (Unit {0})
  unfolding ◌>>=◌ ◌>>◌ gets tomar_tabla soltar_tabla tomar_bitmap soltar_bitmap limpiar_bit
      cambiar_nodo
  borrar_puntero nodo pointer_pos = do
    bloque ← gets λ d. (d.tabla_de_nodos nodo).indirect_blocks_array pointer_pos
    tomar_bitmap
    limpiar_bit bloque
    soltar_bitmap
    tomar_tabla
    cambiar_nodo nodo
        (λ g. record g { indirect_blocks_array = put g.indirect_blocks_array pointer_pos 0 })
    soltar_tabla

  -- The outer `while`, at the pointer `quedan - 1`. After the inner one `data_pos` is `delete_upto`,
  -- so the loop ends with the block of pointers `pointer_upto`.
  unfoldable pub borrar_punteros : ℕ → ℕ → ℕ → ℕ → ℕ → Cmd Disco (Unit {0})
  unfolding ◌>>=◌ ◌>>◌ pure gets borrar_datos borrar_puntero
  borrar_punteros nodo pointer_upto data_upto data_pos zero = pure tt
  borrar_punteros nodo pointer_upto data_upto data_pos (suc pointer_pos) =
      elim ((data_pos == data_upto) && (pointer_pos == pointer_upto)) [
        | true ↦ pure tt
        | false ↦ (do
          aux ← gets λ d. (d.tabla_de_nodos nodo).indirect_blocks_array pointer_pos
          elim (pointer_pos == pointer_upto) [
            | true ↦ borrar_datos aux data_upto data_pos
            | false ↦ (do
              borrar_datos aux 0 data_pos
              borrar_puntero nodo pointer_pos
              borrar_punteros nodo pointer_upto data_upto 0 pointer_pos)
          ])
      ]

  -- Where the last block of a file is: the number of its block of pointers plus one, and its position.
  -- The sums are those of the code for files below 2 ^ 31 bytes, whose positions are not negative.
  unfoldable pub ultima_posicion : ℕ → ℕ × ℕ
  unfolding setear_posicion
  ultima_posicion file_size =
      let (pointer_pos, data_pos) = setear_posicion file_size in
      if file_size % (bloque_size * punteros_a_bloques_datos) == 0
      then (pointer_pos, punteros_a_bloques_datos - 1)
      else if file_size % bloque_size == 0
      then (pointer_pos + 1, data_pos - 1)
      else (pointer_pos + 1, data_pos)

  unfoldable pub delete_nodes_upto : ℕ → ℕ → ℕ → Cmd Disco ℤ
  unfolding ◌>>=◌ ◌>>◌ pure gets ultima_posicion borrar_punteros
  delete_nodes_upto nodo pointer_upto data_upto = do
    p ← gets λ d. ultima_posicion (d.tabla_de_nodos nodo).file_size
    borrar_punteros nodo pointer_upto data_upto p.1 p.0
    pure (pos 0)

  -- `size > file_size` compares words: the `int` becomes one again.
  unfoldable pub cambiar_tamano : ℕ → ℕ → ℕ → ℕ → Cmd Disco ℤ
  unfolding get_new_space setear_posicion delete_nodes_upto
  cambiar_tamano tope n file_size size =
      if ltb file_size size
      then get_new_space tope n (size - file_size)
      else delete_nodes_upto n (setear_posicion size).0 (setear_posicion size).1

  unfoldable pub truncar_archivo : ℕ → ℤ → ℕ → Cmd Disco ℤ
  unfolding ◌>>=◌ ◌>>◌ pure gets nodo_valido cambiar_tamano tomar_tabla soltar_tabla cambiar_nodo
  truncar_archivo tope (negsuc e) size = pure (negsuc 0)
  truncar_archivo tope (pos nodo) size = do
    n ← nodo_valido (pos nodo)
    file_size ← gets λ d. (d.tabla_de_nodos n).file_size
    respuesta ← cambiar_tamano tope n file_size size
    tomar_tabla
    cambiar_nodo n (λ g. record g { file_size = size })
    soltar_tabla
    pure respuesta
