-- ===== src/Muse/Lectura.antt =====
-- `memory_get` of main_memory.c.
pub mod Lee
use tp_sistemas_operativos.Base.{
  ℕ, zero, suc, ◌+◌, ◌-◌, ◌*◌, ◌/◌, ◌%◌, ◌^◌, Bool, true, false, not, Option, none, some, List, [],
  ◌∷◌, ◌++◌, ◌==◌, ltb, take, if◌then◌else◌,
}
use tp_sistemas_operativos.Base.Lists.{drop}
use tp_sistemas_operativos.Base.Int.{ℤ, negsuc}
use tp_sistemas_operativos.Commons.{Ref, null, Lists}
use tp_sistemas_operativos.Comandos.{Run, Cmd, pure, gets, modify, ◌>>=◌, ◌>>◌}
use tp_sistemas_operativos.Muse.State.{Page, Segment, Program, ArchivoMmap, Muse, mutex_lock}
use tp_sistemas_operativos.Muse.Run.{
  M, load_segment, load_program, load_archivo, new_program, lock, unlock,
}
use tp_sistemas_operativos.Muse.Frames.{frames_needed}
use tp_sistemas_operativos.Muse.Marcos.{obtener_data_marco_heap}
use tp_sistemas_operativos.Muse.Metadata.{u32, resta_u32}
use tp_sistemas_operativos.Muse.Programs.{search_program, busca_segmento}
use tp_sistemas_operativos.Muse.Free.{segmento_numero}
use tp_sistemas_operativos.Muse.Copias.{obtener_data_marco_mmap}
use tp_sistemas_operativos.Wire.Bytes.{read_bytes}

-- What `memory_get` returns: one of its codes of error, or the bytes at `dst`.
pub data Lectura : Type 0 where
  fallo : ℤ → Lectura
  leidos : List ℕ → Lectura

module _ ⦃c : Lists⦄ where
  open c use {list_get, list_add, list_find}

  -- A program that is not on the list is added; `using_memory` is not set, and is whatever `malloc`
  -- gave.
  unfoldable pub programa_que_lee : ℕ → Option ℕ → ℕ → M Ref
  programa_que_lee sin_iniciar none pid = do
    prog ←
        new_program (record { pid = pid % 2 ^ 16; segment_table = []; using_memory = sin_iniciar })
    modify λ s. record s { program_list = list_add s.program_list prog }
    pure prog
  programa_que_lee sin_iniciar (some i) pid = gets λ s. list_get s.program_list i

  -- Whether the program may read the segment: 0, or one of the codes of error.
  unfoldable pub permiso_de_mmap : Segment → ℕ → M (Option ℤ)
  permiso_de_mmap x pid = do
    a ← load_archivo x.archivo_mapeado
    pure (elim a.path_archivo [
      | none ↦ some (negsuc 0)
      | some path ↦ if list_find a.programas (λ q. q == pid) == null then some (negsuc 1) else none
    ])

  unfoldable pub permiso_de_lectura : Segment → ℕ → M (Option ℤ)
  unfolding permiso_de_mmap
  permiso_de_lectura x pid =
      if x.is_heap
      then pure none
      else (do lock mutex_lock; codigo ← permiso_de_mmap x pid; unlock mutex_lock; pure codigo)

  unfoldable pub datos_de : ℕ → Segment → Ref → ℕ → M ℕ
  datos_de tope x pagina nro_pagina =
      if x.is_heap
      then obtener_data_marco_heap tope pagina
      else obtener_data_marco_mmap tope x pagina nro_pagina

  -- The `for` that loads the buffer, from page `nro_pagina` on, `quedan` in number.
  unfoldable pub cargar_paginas : ℕ → Segment → ℕ → ℕ → List ℕ → M (List ℕ)
  unfolding datos_de
  cargar_paginas tope x nro_pagina zero buffer = pure buffer
  cargar_paginas tope x nro_pagina (suc quedan) buffer = do
    datos ← datos_de tope x (list_get x.page_table nro_pagina) nro_pagina
    bytes ← gets λ s. read_bytes s.main_memory datos s.page_size
    cargar_paginas tope x (nro_pagina + 1) quedan (buffer ++ bytes)

  unfoldable pub leer_de : ℕ → Segment → ℕ → ℕ → M Lectura
  unfolding cargar_paginas
  leer_de tope x src num_bytes = do
    page_size ← gets λ s. s.page_size
    let offset = resta_u32 src x.base % page_size
    lock mutex_lock
    buffer ←
        cargar_paginas tope x (resta_u32 src x.base / page_size)
          (frames_needed page_size (offset + num_bytes)) []
    unlock mutex_lock
    pure (leidos (take num_bytes (drop offset buffer)))

  -- The end of `memory_get`, with the segment.
  unfoldable pub leer_segmento : ℕ → Segment → ℕ → ℕ → ℕ → M Lectura
  unfolding leer_de permiso_de_lectura
  leer_segmento tope x pid src num_bytes =
      if ltb (u32 (x.base + x.limit)) (src + num_bytes)
      then (do unlock mutex_lock; pure (fallo (negsuc 3)))
      else (do
        codigo ← permiso_de_lectura x pid
        elim codigo [ some e ↦ pure (fallo e) | none ↦ leer_de tope x src num_bytes ])

  unfoldable pub memory_get : ℕ → ℕ → ℕ → ℕ → ℕ → M Lectura
  unfolding leer_segmento programa_que_lee
  memory_get tope sin_iniciar src num_bytes pid = do
    search_program pid
    num_prog ← search_program pid
    prog ← programa_que_lee sin_iniciar num_prog pid
    num_seg ← busca_segmento prog src
    p ← load_program prog
    let segmento = segmento_numero p.segment_table num_seg
    if segmento == null
        then (do unlock mutex_lock; pure (fallo (negsuc 2)))
        else (do x ← load_segment segmento; leer_segmento tope x p.pid src num_bytes)
