-- ===== src/Muse/Malloc.antt =====
-- `memory_malloc` of main_memory.c.
pub mod Rechazo
pub mod Partidos
pub mod Partir
use tp_sistemas_operativos.Base.{
  ℕ, zero, suc, ◌+◌, ◌-◌, ◌*◌, ◌/◌, ◌%◌, ◌^◌, Bool, true, false, not, ◌&&◌, Option, none, some,
  List, [], ◌==◌, ltb, leb, if◌then◌else◌,
}
use tp_sistemas_operativos.Base.Int.{ℤ, pos, negsuc}
use tp_sistemas_operativos.Commons.{Ref, null, Lists}
use tp_sistemas_operativos.Comandos.{Run, Cmd, pure, gets, modify, agotar, ◌>>=◌, ◌>>◌}
use tp_sistemas_operativos.Muse.State.{Segment, Program, ArchivoMmap, Muse, mutex_lock}
use tp_sistemas_operativos.Muse.Run.{
  M, load_segment, load_program, load_archivo, update_segment, update_program, update_page,
  new_segment, lock, unlock,
}
use tp_sistemas_operativos.Muse.Frames.{number_of_free_frames, frames_needed}
use tp_sistemas_operativos.Muse.Marcos.{page_with_free_size}
use tp_sistemas_operativos.Muse.Metadata.{
  metadata_size, u32, siguiente, buscar_metadata_por_direccion, modificar_metadata,
  direccion_ultima, proxima_metadata_libre_con_size,
}
use tp_sistemas_operativos.Muse.Programs.{
  search_program, metricas_por_socket_conectado, ultimo_segmento_programa, se_puede_agrandar,
  programa_de,
}
use tp_sistemas_operativos.Muse.Crecer.{ultimo_es_heap, hacer_lugar}

-- `(uint32_t) -1`.
abbrev pub menos_uno : ℕ
menos_uno = 2 ^ 32 - 1

module _ ⦃c : Lists⦄ where
  open c use {list_get, list_size, list_add, list_find}

  -- What `segment_with_free_space` asks a segment.
  unfoldable pub tiene_espacio : ℕ → Ref → Segment → ℕ → M (Option ℕ)
  tiene_espacio tope seg x size =
      if x.is_heap then proxima_metadata_libre_con_size tope x.base seg size tope else pure none

  -- The `while` of `segment_with_free_space`, with the rounds left; `none` is -1.
  unfoldable pub segment_desde : ℕ → List Ref → ℕ → ℕ → ℕ → M (Option ℕ)
  unfolding tiene_espacio
  segment_desde tope segment_table size i zero = pure none
  segment_desde tope segment_table size i (suc quedan) = do
    let resto = segment_desde tope segment_table size (i + 1) quedan
    let seg = list_get segment_table i
    x ← load_segment seg
    encontrada ← tiene_espacio tope seg x size
    elim encontrada [
      | none ↦ resto
      | some dir ↦ (do buscar_metadata_por_direccion tope dir seg; pure (some i))
    ]

  unfoldable pub segment_with_free_space : ℕ → Ref → ℕ → M (Option ℕ)
  unfolding segment_desde
  segment_with_free_space tope prog size = do
    p ← load_program prog
    segment_desde tope p.segment_table size 0 (list_size p.segment_table)

  -- Whether the program may use the file of a segment that is not heap.
  unfoldable pub tiene_permiso : Segment → ℕ → M Bool
  tiene_permiso x pid = if x.is_heap then pure true else (do
    a ← load_archivo x.archivo_mapeado
    pure (not (list_find a.programas (λ q. q == pid) == null)))

  -- The block of the metadata at `dir` is split: the first part has `size` bytes and is not free.
  unfoldable pub partir_bloque : ℕ → Ref → ℕ → ℕ → M (Unit {0})
  partir_bloque tope seg dir size = do
    buscada ← buscar_metadata_por_direccion tope dir seg
    modificar_metadata tope dir seg size false
    nueva ← buscar_metadata_por_direccion tope dir seg
    let dir_final = siguiente dir nueva.size
    buscar_metadata_por_direccion tope dir_final seg
    modificar_metadata tope dir_final seg (buscada.size + 2 ^ 32 - (size + metadata_size)) true
    ultima ← direccion_ultima tope seg
    buscar_metadata_por_direccion tope ultima seg
    pure tt

  -- The end of a `memory_malloc` that found a block: the address behind its metadata.
  unfoldable pub fin_de_malloc : Ref → ℕ → ℕ → ℕ → M ℕ
  fin_de_malloc prog pid dir size = do
    unlock mutex_lock
    metricas_por_socket_conectado pid
    update_program prog λ p. record p { using_memory = u32 (p.using_memory + size) }
    pure (u32 (dir + metadata_size))

  -- `some dir` of `proxima_metadata_libre_con_size`, or -1.
  abbrev pub direccion_int : Option ℕ → ℕ
  direccion_int none = menos_uno
  direccion_int (some dir) = dir

  unfoldable pub rechazar_malloc : M ℕ
  rechazar_malloc = do unlock mutex_lock; pure menos_uno

  -- The branch for a segment that has space.
  unfoldable pub allocar_en : ℕ → Ref → ℕ → ℕ → ℕ → M ℕ
  unfolding rechazar_malloc
  allocar_en tope prog pid nro_seg size = do
    p ← load_program prog
    let seg = list_get p.segment_table nro_seg
    if seg == null then rechazar_malloc else do
      x ← load_segment seg
      permiso ← tiene_permiso x p.pid
      if not permiso then rechazar_malloc else do
        libre ← proxima_metadata_libre_con_size tope x.base seg (size + metadata_size) tope
        let dir = direccion_int libre
        partir_bloque tope seg dir size
        fin_de_malloc prog pid dir size

  -- With a segment that has space, the second search finds the same; otherwise room is made, and all
  -- is done again.
  unfoldable pub malloc_en : ℕ → Ref → ℕ → ℕ → M ℕ → Option ℕ → M ℕ
  unfolding hacer_lugar allocar_en
  malloc_en tope prog pid size otra_vez none = do
    es_heap ← ultimo_es_heap prog
    hacer_lugar tope prog es_heap size
    otra_vez
  malloc_en tope prog pid size otra_vez (some i) = do
    nro_seg ← segment_with_free_space tope prog (size + metadata_size)
    elim nro_seg [ none ↦ rechazar_malloc | some n ↦ allocar_en tope prog pid n size ]

  unfoldable pub malloc_de_programa : ℕ → ℕ → ℕ → M ℕ → M ℕ
  unfolding malloc_en
  malloc_de_programa tope size pid otra_vez = do
    nro_prog ← search_program pid
    prog ← programa_de nro_prog pid
    lock mutex_lock
    con_espacio ← segment_with_free_space tope prog (size + metadata_size)
    malloc_en tope prog pid size otra_vez con_espacio

  -- `memory_malloc` of a size that is positive, with the recursive calls left.
  unfoldable pub malloc_positivo : ℕ → ℕ → ℕ → ℕ → M ℕ
  unfolding malloc_de_programa
  malloc_positivo tope size pid zero = agotar
  malloc_positivo tope size pid (suc llamadas) = do
    let otra_vez = malloc_positivo tope size pid llamadas
    lock mutex_lock
    libres ← number_of_free_frames
    page_size ← gets λ s. s.page_size
    if ltb (libres * page_size) (size + metadata_size)
        then rechazar_malloc
        else do unlock mutex_lock; malloc_de_programa tope size pid otra_vez

  -- `memory_malloc`. A size that is not positive gives 0 back, with `mutex_lock` held.
  unfoldable pub memory_malloc : ℕ → ℤ → ℕ → M ℕ
  unfolding malloc_positivo
  memory_malloc tope (negsuc n) pid = do lock mutex_lock; pure 0
  memory_malloc tope (pos zero) pid = do lock mutex_lock; pure 0
  memory_malloc tope (pos (suc n)) pid = malloc_positivo tope (suc n) pid tope
