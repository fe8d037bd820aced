-- ===== src/Muse/Escritura.antt =====
-- `memory_cpy` of main_memory.c. The amount `n`, an `int`, is read as a number that is not negative.
use tp_sistemas_operativos.Base.{
  ℕ, zero, suc, ◌+◌, ◌-◌, ◌*◌, ◌/◌, ◌%◌, ◌^◌, true, not, ◌&&◌, Option, none, some, List, [], ◌++◌,
  ◌==◌, ltb, leb, take, if◌then◌else◌,
}
use tp_sistemas_operativos.Base.Lists.{drop}
use tp_sistemas_operativos.Commons.{Ref, null, Lists}
use tp_sistemas_operativos.Comandos.{pure, gets, or_fault, ◌>>=◌, ◌>>◌}
use tp_sistemas_operativos.Muse.State.{Segment, mutex_lock}
use tp_sistemas_operativos.Muse.Run.{
  M, load_segment, load_program, load_archivo, update_page, lock, unlock,
}
use tp_sistemas_operativos.Muse.Frames.{frames_needed}
use tp_sistemas_operativos.Muse.Metadata.{metadata_size, metadata_de, resta_u32}
use tp_sistemas_operativos.Muse.Programs.{search_program, busca_segmento}
use tp_sistemas_operativos.Muse.Free.{segmento_numero}
use tp_sistemas_operativos.Muse.Copias.{memcpy_a, min}
use tp_sistemas_operativos.Muse.Lectura.{datos_de}
use tp_sistemas_operativos.Wire.Bytes.{read_bytes}

-- A code of error, -codigo, as `uint32_t`.
abbrev pub menos : ℕ → ℕ
menos codigo = 2 ^ 32 - codigo

-- `memcpy(buffer + at, bytes, length)`.
abbrev pub pegar : ℕ → ℕ → List ℕ → List ℕ → List ℕ
pegar at n bytes buffer = take at buffer ++ take n bytes ++ drop (at + n) buffer

-- Where a copy works: the first page is number `pagina` less `atras`, `cuantas` pages are loaded,
-- and the metadata of a heap segment is at `posicion` of them.
pub record TramoCopia : Type 0 where
  pub pagina : ℕ
  pub atras : ℕ
  pub cuantas : ℕ
  pub offset : ℕ
  pub posicion : ℕ

module _ ⦃c : Lists⦄ where
  open c use {list_get, list_size, list_find}

  -- The pages that `n` bytes from an offset on need; with the metadata in front of them in a heap
  -- segment. An offset in the first bytes of a page goes back to the pages before.
  unfoldable pub tramo_de : ℕ → Segment → ℕ → ℕ → TramoCopia
  tramo_de page_size x dst n =
      let offset = resta_u32 dst x.base % page_size in
      let pagina = resta_u32 dst x.base / page_size in
      let cuantas = frames_needed page_size (offset + n) in
      let aux = frames_needed page_size (metadata_size - offset) in
      let total = list_size x.page_table in
      if x.is_heap && ltb offset metadata_size
      then record {
        pagina = pagina;
        atras = aux;
        cuantas = min (cuantas + aux) total;
        offset = offset;
        posicion = aux * page_size + offset - metadata_size;
      }
      else record {
        pagina = pagina;
        atras = 0;
        cuantas = min cuantas total;
        offset = offset;
        posicion = offset - metadata_size;
      }

  -- `list_get(segment->page_table, numPage + i)`; in front of the table there is `NULL`.
  unfoldable pub pagina_de : Segment → TramoCopia → ℕ → Ref
  pagina_de x t i =
      if ltb (t.pagina + i) t.atras then null else list_get x.page_table (t.pagina + i - t.atras)

  -- The `for` that loads the buffer.
  unfoldable pub cargar_tramo : ℕ → Segment → TramoCopia → ℕ → ℕ → List ℕ → M (List ℕ)
  unfolding pagina_de
  cargar_tramo tope x t i zero buffer = pure buffer
  cargar_tramo tope x t i (suc quedan) buffer = do
    datos ← datos_de tope x (pagina_de x t i) (t.pagina + i - t.atras)
    bytes ← gets λ s. read_bytes s.main_memory datos s.page_size
    cargar_tramo tope x t (i + 1) quedan (buffer ++ bytes)

  -- The `for` that writes the buffer back.
  unfoldable pub devolver_tramo : ℕ → Segment → TramoCopia → List ℕ → ℕ → ℕ → M (Unit {0})
  unfolding pagina_de
  devolver_tramo tope x t buffer i zero = pure tt
  devolver_tramo tope x t buffer i (suc quedan) = do
    update_page (pagina_de x t i) λ p. record p { is_modify = true }
    datos ← datos_de tope x (pagina_de x t i) (t.pagina + i - t.atras)
    page_size ← gets λ s. s.page_size
    memcpy_a datos (take page_size (drop (page_size * i) buffer))
    devolver_tramo tope x t buffer (i + 1) quedan

  -- A heap block takes the bytes if it is not free and has room for them.
  unfoldable pub copiar_a_heap : ℕ → Segment → TramoCopia → ℕ → List ℕ → ℕ → List ℕ → M ℕ
  unfolding devolver_tramo
  copiar_a_heap tope x t dst src n buffer =
      let metadata = metadata_de (take metadata_size (drop t.posicion buffer)) in
      if not metadata.is_free && leb n metadata.size
      then (do
        devolver_tramo tope x t (pegar (t.posicion + metadata_size) n src buffer) 0 t.cuantas
        unlock mutex_lock
        pure dst)
      else (do unlock mutex_lock; pure (menos 1))

  unfoldable pub copiar_a_mmap : ℕ → Segment → TramoCopia → ℕ → List ℕ → ℕ → List ℕ → ℕ → M ℕ
  unfolding devolver_tramo
  copiar_a_mmap tope x t dst src n buffer page_size =
      if leb n (t.offset + t.cuantas * page_size)
      then (do
        devolver_tramo tope x t (pegar t.offset n src buffer) 0 t.cuantas
        unlock mutex_lock
        pure dst)
      else (do unlock mutex_lock; pure (menos 1))

  unfoldable pub copiar_en : ℕ → Segment → ℕ → List ℕ → ℕ → M ℕ
  unfolding tramo_de cargar_tramo copiar_a_heap copiar_a_mmap
  copiar_en tope x dst src n = do
    page_size ← gets λ s. s.page_size
    let t = tramo_de page_size x dst n
    lock mutex_lock
    buffer ← cargar_tramo tope x t 0 t.cuantas []
    if x.is_heap
        then copiar_a_heap tope x t dst src n buffer
        else copiar_a_mmap tope x t dst src n buffer page_size

  -- Whether the program may write to the segment: none, or the code of an error.
  unfoldable pub permiso_de_copia : Segment → ℕ → M (Option ℕ)
  permiso_de_copia x pid = if x.is_heap then pure none else (do
    a ← load_archivo x.archivo_mapeado
    pure (elim a.path_archivo [
      | none ↦ some (menos 1)
      | some path ↦ if list_find a.programas (λ q. q == pid) == null then some (menos 2) else none
    ]))

  -- A program that is not on the list gets `sizeof(prog)` bytes, those of a pointer, and its fields
  -- are written behind them.
  unfoldable pub programa_que_copia : Option ℕ → M Ref
  programa_que_copia none = or_fault none
  programa_que_copia (some i) = gets λ s. list_get s.program_list i

  unfoldable pub copiar_con_permiso : ℕ → Segment → ℕ → ℕ → List ℕ → ℕ → M ℕ
  unfolding copiar_en permiso_de_copia
  copiar_con_permiso tope x pid dst src n = do
    lock mutex_lock
    codigo ← permiso_de_copia x pid
    unlock mutex_lock
    elim codigo [ some e ↦ pure e | none ↦ copiar_en tope x dst src n ]

  unfoldable pub memory_cpy : ℕ → ℕ → List ℕ → ℕ → ℕ → M ℕ
  unfolding copiar_con_permiso programa_que_copia
  memory_cpy tope dst src n pid = do
    search_program pid
    num_prog ← search_program pid
    prog ← programa_que_copia num_prog
    num_seg ← busca_segmento prog dst
    p ← load_program prog
    let segment = segmento_numero p.segment_table num_seg
    if segment == null
        then pure (menos 3)
        else (do x ← load_segment segment; copiar_con_permiso tope x p.pid dst src n)
