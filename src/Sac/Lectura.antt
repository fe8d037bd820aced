-- ===== src/Sac/Lectura.antt =====
-- `leer_archivo` of filesystem/sac_handlers.c. The size that is read is its result, an `int` that the
-- caller stores as `uint32_t`; it is a number here, below 2 ^ 32 like the size of a file. The code also
-- reads `punteros_a_bloques` at the number of the block of pointers, a number that can lie outside of
-- that array, into a variable that nothing uses; that read has no counterpart here.
pub mod Copia
pub mod Bloques
pub mod Punteros
pub mod Contenido
use tp_sistemas_operativos.Base.{ℕ, zero, suc, ◌+◌, ◌*◌, ◌-◌, true, false, ltb, leb, if◌then◌else◌}
use tp_sistemas_operativos.Comandos.{Cmd, gets, ◌>>=◌}
use tp_sistemas_operativos.Wire.Bytes.{Buffer, write_bytes, read_bytes}
use tp_sistemas_operativos.Sac.Disco.{Bitarrays, Rutas, Disco, Cadena, bloque_size, blkindirect}
use tp_sistemas_operativos.Sac.Ordenes.{nodo_valido}
use tp_sistemas_operativos.Sac.Nodos.{determine_nodo}

-- The variables of `leer_archivo` that its loops change, with the buffer that `cursor` goes through.
pub record Lee : Type 0 where
  pub offset : ℕ
  pub tamanio : ℕ
  pub cursor : ℕ
  pub buffer : Buffer

-- How much of `tamanio` one `memcpy` takes.
unfoldable pub parte : ℕ → ℕ
parte tamanio = if ltb tamanio bloque_size then tamanio else bloque_size

module _ ⦃c : Bitarrays⦄ where
  -- The copy out of one block. With an offset in the block it goes on behind the end of the block.
  unfoldable pub copiar_de_bloque : Disco → ℕ → ℕ → Lee → Lee
  unfolding parte write_bytes read_bytes
  copiar_de_bloque d bloque num l =
      let n = parte l.tamanio in
      let data_block = d.bloques bloque num * bloque_size + l.offset in
      record {
        offset = 0;
        tamanio = l.tamanio - n;
        cursor = l.cursor + n;
        buffer = write_bytes l.buffer l.cursor (read_bytes d.datos data_block n);
      }

  -- The inner `for`, with the rounds left.
  unfoldable pub leer_bloques : Disco → ℕ → ℕ → ℕ → Lee → Lee
  unfolding copiar_de_bloque
  leer_bloques d bloque num zero l = l
  leer_bloques d bloque num (suc quedan) l = elim (leb bloque_size l.offset) [
    | true ↦ leer_bloques d bloque (num + 1) quedan (record l { offset = l.offset - bloque_size })
    | false ↦ elim ((copiar_de_bloque d bloque num l).tamanio) [
      | zero ↦ copiar_de_bloque d bloque num l
      | suc t ↦ leer_bloques d bloque (num + 1) quedan (copiar_de_bloque d bloque num l)
    ]
  ]

  -- The outer `for`, with the rounds left.
  unfoldable pub leer_punteros : Disco → ℕ → ℕ → ℕ → Lee → Lee
  unfolding leer_bloques
  leer_punteros d nodo i zero l = l
  leer_punteros d nodo i (suc quedan) l = elim (ltb (bloque_size * 1024) l.offset) [
    | true ↦
        leer_punteros d nodo (i + 1) quedan (record l { offset = l.offset - bloque_size * 1024 })
    | false ↦
        let bloque = (d.tabla_de_nodos nodo).indirect_blocks_array i in
        let l' = leer_bloques d bloque 0 1024 l in
        elim (l'.tamanio) [ zero ↦ l' | suc t ↦ leer_punteros d nodo (i + 1) quedan l' ]
  ]

  -- The size that is left to read: up to the end of the file.
  unfoldable pub recortar : ℕ → ℕ → ℕ → ℕ
  recortar file_size size offset =
      if leb file_size (offset + size) then file_size - offset else size

  unfoldable pub leer_nodo : Disco → ℕ → Buffer → ℕ → ℕ → ℕ × Buffer
  unfolding leer_punteros recortar
  leer_nodo d nodo buffer size offset =
      let file_size = (d.tabla_de_nodos nodo).file_size in
      elim (leb file_size offset) [
        | true ↦ (0, buffer)
        | false ↦
            let l : Lee = record {
              offset = offset;
              tamanio = recortar file_size size offset;
              cursor = 0;
              buffer = buffer;
            } in
            (recortar file_size size offset, (leer_punteros d nodo 0 blkindirect l).buffer)
      ]

-- The result is an `int`, here the number that it stands for.
module _ ⦃c : Bitarrays⦄ ⦃r : Rutas⦄ where
  unfoldable pub leer_archivo : Buffer → Cadena → ℕ → ℕ → Cmd Disco (ℕ × Buffer)
  unfolding ◌>>=◌ gets determine_nodo nodo_valido leer_nodo
  leer_archivo buffer path size offset = do
    nodo ← gets λ d. determine_nodo d path
    n ← nodo_valido nodo
    gets λ d. leer_nodo d n buffer size offset
