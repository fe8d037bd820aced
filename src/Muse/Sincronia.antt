-- ===== src/Muse/Sincronia.antt =====
-- `memory_sync` of main_memory.c.
use tp_sistemas_operativos.Base.{
  ℕ, zero, suc, ◌+◌, ◌*◌, ◌-◌, ◌/◌, ◌%◌, ◌||◌, ◌&&◌, false, List, [], ◌++◌, ◌==◌, ltb, leb, take,
  if◌then◌else◌,
}
use tp_sistemas_operativos.Commons.{null, Lists}
use tp_sistemas_operativos.Comandos.{pure, gets, ◌>>=◌, ◌>>◌}
use tp_sistemas_operativos.Wire.Bytes.{Buffer, read_bytes, write_bytes}
use tp_sistemas_operativos.Muse.State.{Segment, mutex_lock}
use tp_sistemas_operativos.Muse.Run.{M, load_segment, load_program, lock, unlock}
use tp_sistemas_operativos.Muse.Frames.{frames_needed}
use tp_sistemas_operativos.Muse.Clock.{lista_de_segmentos}
use tp_sistemas_operativos.Muse.Metadata.{u32, resta_u32}
use tp_sistemas_operativos.Muse.Programs.{search_program, busca_segmento}
use tp_sistemas_operativos.Muse.Free.{segmento_numero}
use tp_sistemas_operativos.Muse.Copias.{obtener_data_marco_mmap, ceros, min}
use tp_sistemas_operativos.Muse.Lectura.{programa_que_lee}
use tp_sistemas_operativos.Muse.Escritura.{menos}
use tp_sistemas_operativos.Muse.Mapas.{update_archivo, usa_archivo}

module _ ⦃c : Lists⦄ where
  open c use {list_get, list_size}

  -- The `for` that reads the pages, from page `nro_pagina` on, `quedan` in number.
  unfoldable pub juntar_paginas : ℕ → Segment → ℕ → ℕ → List ℕ → M (List ℕ)
  unfolding ◌>>=◌ pure gets obtener_data_marco_mmap
  juntar_paginas tope x nro_pagina zero buffer = pure buffer
  juntar_paginas tope x nro_pagina (suc quedan) buffer = do
    datos ← obtener_data_marco_mmap tope x (list_get x.page_table nro_pagina) nro_pagina
    bytes ← gets λ s. read_bytes s.main_memory datos s.page_size
    juntar_paginas tope x (nro_pagina + 1) quedan (buffer ++ bytes)

  -- What is written to the file: the bytes, and, one place behind them, zeros for all that the length
  -- does not cover.
  unfoldable pub volcar : ℕ → ℕ → ℕ → List ℕ → Buffer → Buffer
  unfolding write_bytes
  volcar desde tam nro_bytes buffer archivo =
      let escrito = write_bytes archivo desde (take nro_bytes buffer) in
      if ltb nro_bytes tam
      then write_bytes escrito (desde + nro_bytes + 1) (ceros (tam - nro_bytes))
      else escrito

  unfoldable pub sincronizar : ℕ → Segment → ℕ → ℕ → M ℕ
  unfolding ◌>>=◌ ◌>>◌ pure gets unlock juntar_paginas volcar update_archivo
  sincronizar tope x direccion length = do
    page_size ← gets λ s. s.page_size
    let nro_pagina = resta_u32 direccion x.base / page_size
    buffer ← juntar_paginas tope x nro_pagina (frames_needed page_size length) []
    if leb (nro_pagina * page_size) x.tam_archivo_mmap
        then (do
          update_archivo x.archivo_mapeado λ a. record a {
            archivo =
                volcar (nro_pagina * page_size) x.tam_archivo_mmap (min length x.tam_archivo_mmap)
                  buffer a.archivo;
          }
          unlock mutex_lock
          pure 0)
        else (do unlock mutex_lock; pure (menos 1))

  -- The tests of `memory_sync` on the segment.
  unfoldable pub sincronizar_segmento : ℕ → Segment → ℕ → ℕ → ℕ → M ℕ
  unfolding ◌>>=◌ ◌>>◌ pure gets unlock usa_archivo sincronizar
  sincronizar_segmento tope x pid direccion length = do
    page_size ← gets λ s. s.page_size
    if ltb (list_size x.page_table) (frames_needed page_size length)
          || ltb (u32 (x.base + x.limit)) (direccion + length)
        then (do unlock mutex_lock; pure (menos 2))
        else (do
          usa ← if x.is_heap then pure false else usa_archivo x.archivo_mapeado pid
          if usa && (direccion % page_size == 0)
              then sincronizar tope x direccion length
              else (do unlock mutex_lock; pure (menos 1)))

  -- The number of the segment among those of the program is used among those of all programs.
  unfoldable pub memory_sync : ℕ → ℕ → ℕ → ℕ → ℕ → M ℕ
  unfolding ◌>>=◌ ◌>>◌ pure lock unlock search_program programa_que_lee lista_de_segmentos
      busca_segmento load_program load_segment sincronizar_segmento
  memory_sync tope sin_iniciar direccion length pid = do
    lock mutex_lock
    nro_prog ← search_program pid
    prog ← programa_que_lee sin_iniciar nro_prog pid
    lista_seg ← lista_de_segmentos
    num_seg ← busca_segmento prog direccion
    p ← load_program prog
    let segmento = segmento_numero lista_seg num_seg
    if segmento == null
        then (do unlock mutex_lock; pure (menos 2))
        else (do x ← load_segment segmento; sincronizar_segmento tope x p.pid direccion length)
