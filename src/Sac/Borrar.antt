-- ===== src/Sac/Borrar.antt =====
-- `borrar_contenido`, `borrar_archivo` and `borrar_directorio` of filesystem/sac_handlers.c.
pub mod Contenido
pub mod Cambio
pub mod Arbol
pub mod Subarbol
use tp_sistemas_operativos.Base.{
  ℕ, zero, suc, ◌+◌, ◌*◌, ◌-◌, ◌/◌, ◌%◌, true, false, ◌&&◌, not, ◌==◌, if◌then◌else◌,
}
use tp_sistemas_operativos.Base.Int.{ℤ, pos, negsuc, ◌+ℤ◌}
use tp_sistemas_operativos.Comandos.{Cmd, gets, modify, pure, agotar, ◌>>=◌, ◌>>◌}
use tp_sistemas_operativos.Sac.Disco.{
  Bitarrays, Disco, bloque_size, punteros_a_bloques_datos, max_number_of_files,
}
use tp_sistemas_operativos.Sac.Ordenes.{
  a_uint32, a_int, tomar_bitmap, soltar_bitmap, limpiar_bit, cambiar_nodo, nodo_valido,
}

module _ ⦃c : Bitarrays⦄ where
  -- A `for` over the pointers of a block, from `j` on, with the rounds left: it frees their blocks.
  unfoldable pub limpiar_datos : ℕ → ℕ → ℕ → Cmd Disco (Unit {0})
  unfolding ◌>>=◌ ◌>>◌ pure gets limpiar_bit
  limpiar_datos bloque j zero = pure tt
  limpiar_datos bloque j (suc quedan) = do
    dato ← gets λ d. d.bloques bloque j
    limpiar_bit dato
    limpiar_datos bloque (j + 1) quedan

  -- The `for` over the blocks of pointers that are full.
  unfoldable pub limpiar_punteros : ℕ → ℕ → ℕ → Cmd Disco (Unit {0})
  unfolding ◌>>=◌ ◌>>◌ pure gets limpiar_bit limpiar_datos
  limpiar_punteros nodo i zero = pure tt
  limpiar_punteros nodo i (suc quedan) = do
    bloque ← gets λ d. (d.tabla_de_nodos nodo).indirect_blocks_array i
    limpiar_datos bloque 0 punteros_a_bloques_datos
    limpiar_bit bloque
    limpiar_punteros nodo (i + 1) quedan

  -- How many blocks of pointers are full, and how many pointers the last one has: the loops of a
  -- negative size have no round.
  unfoldable pub punteros_llenos : ℤ → ℕ
  punteros_llenos (pos t) = t / (punteros_a_bloques_datos * bloque_size)
  punteros_llenos (negsuc t) = 0

  unfoldable pub datos_del_ultimo : ℤ → ℕ
  datos_del_ultimo (pos t) =
      (t % (punteros_a_bloques_datos * bloque_size) + bloque_size - 1) / bloque_size
  datos_del_ultimo (negsuc t) = 0

  -- The last block of pointers, and the unlock.
  unfoldable pub borrar_ultimo : ℤ → ℕ → Cmd Disco (Unit {0})
  unfolding ◌>>◌ soltar_bitmap limpiar_bit limpiar_datos datos_del_ultimo
  borrar_ultimo tamanio ultimo = do
    limpiar_datos ultimo 0 (datos_del_ultimo tamanio)
    limpiar_bit ultimo
    soltar_bitmap

  abbrev pub ultimo_bloque : ℕ → ℤ → Disco → ℕ
  ultimo_bloque nodo tamanio d =
      (d.tabla_de_nodos nodo).indirect_blocks_array (punteros_llenos tamanio)

  unfoldable pub borrar_contenido : ℕ → ℤ → Cmd Disco (Unit {0})
  unfolding ◌>>=◌ ◌>>◌ gets tomar_bitmap limpiar_punteros punteros_llenos borrar_ultimo
  borrar_contenido nodo tamanio = do
    tomar_bitmap
    limpiar_punteros nodo 0 (punteros_llenos tamanio)
    ultimo ← gets (ultimo_bloque nodo tamanio)
    borrar_ultimo tamanio ultimo

  -- `nodoABorrar->state = 0; nodoABorrar->file_size = 0`.
  unfoldable pub desocupar : ℕ → Cmd Disco (Unit {0})
  unfolding cambiar_nodo
  desocupar n = cambiar_nodo n (λ g. record g { state = 0; file_size = 0 })

  abbrev pub borrar_contenido_de : ℕ → ℕ → Cmd Disco (Unit {0})
  borrar_contenido_de n file_size =
      if not (file_size == 0) then borrar_contenido n (a_int file_size) else pure tt

  -- A directory has no content; what is written to the node is the same.
  unfoldable pub borrar_nodo_con : ℕ → ℕ → ℕ → Cmd Disco ℤ
  unfolding ◌>>◌ pure desocupar borrar_contenido
  borrar_nodo_con n state file_size = do
    if state == 2 then pure tt else borrar_contenido_de n file_size
    desocupar n
    pure (pos 0)

  unfoldable pub borrar_nodo : ℕ → Cmd Disco ℤ
  unfolding borrar_nodo_con
  borrar_nodo n d = borrar_nodo_con n (d.tabla_de_nodos n).state (d.tabla_de_nodos n).file_size d

  -- `nodoABorrar` is always `tablaDeNodos + nodoABorrarPosicion`, so it is no argument here.
  unfoldable pub borrar_archivo : ℤ → Cmd Disco ℤ
  unfolding ◌>>=◌ pure nodo_valido borrar_nodo
  borrar_archivo (negsuc e) = pure (negsuc 0)
  borrar_archivo (pos n) = do v ← nodo_valido (pos n); borrar_nodo v

  -- The body of the `while` of `borrar_directorio`, with what the recursive call does.
  unfoldable pub borrar_hijo : (ℤ → Cmd Disco ℤ) → ℤ → ℕ → Cmd Disco (Unit {0})
  unfolding ◌>>=◌ ◌>>◌ pure gets a_uint32 borrar_archivo
  borrar_hijo recursiva nodo i = do
    g ← gets λ d. d.tabla_de_nodos i
    if not (g.state == 0) && (g.parent_dir_block == a_uint32 (nodo +ℤ pos 2))
        then (do if g.state == 1 then borrar_archivo (pos i) else recursiva (pos i); pure tt)
        else pure tt

  unfoldable pub recorrer_hijos : (ℤ → Cmd Disco ℤ) → ℤ → ℕ → ℕ → Cmd Disco (Unit {0})
  unfolding ◌>>◌ pure borrar_hijo
  recorrer_hijos recursiva nodo i zero = pure tt
  recorrer_hijos recursiva nodo i (suc quedan) = do
    borrar_hijo recursiva nodo i
    recorrer_hijos recursiva nodo (i + 1) quedan

  -- `borrar_directorio`, with `tope` calls one inside the other at most.
  unfoldable pub borrar_directorio : ℕ → ℤ → Cmd Disco ℤ
  unfolding ◌>>◌ pure agotar borrar_archivo recorrer_hijos
  borrar_directorio zero nodo = agotar
  borrar_directorio (suc tope) nodo = do
    borrar_archivo nodo
    recorrer_hijos (borrar_directorio tope) nodo 0 max_number_of_files
    pure (pos 0)
