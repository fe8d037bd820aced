-- ===== src/Muse/Crecer.antt =====
-- The branches of `memory_malloc` in main_memory.c that make room: the last segment grows, or a
-- segment is made.
use tp_sistemas_operativos.Base.{
  ℕ, zero, suc, ◌+◌, ◌-◌, ◌*◌, ◌/◌, Bool, true, false, [], ◌==◌, leb, if◌then◌else◌,
}
use tp_sistemas_operativos.Commons.{Ref, null, Lists}
use tp_sistemas_operativos.Comandos.{pure, gets, ◌>>=◌, ◌>>◌}
use tp_sistemas_operativos.Muse.State.{Segment, Program, mutex_lock}
use tp_sistemas_operativos.Muse.Run.{
  M, load_segment, load_program, update_segment, update_program, update_page, new_segment, lock,
  unlock,
}
use tp_sistemas_operativos.Muse.Frames.{frames_needed}
use tp_sistemas_operativos.Muse.Marcos.{page_with_free_size}
use tp_sistemas_operativos.Muse.Metadata.{
  metadata_size, u32, buscar_metadata_por_direccion, modificar_metadata, direccion_ultima,
}
use tp_sistemas_operativos.Muse.Programs.{ultimo_segmento_programa, se_puede_agrandar}

module _ ⦃c : Lists⦄ where
  open c use {list_get, list_size, list_add, list_find}

  -- `cantidad` pages more for a segment; each makes its limit grow or not.
  unfoldable pub agregar_paginas : ℕ → Ref → Bool → ℕ → M (Unit {0})
  agregar_paginas tope seg crece zero = pure tt
  agregar_paginas tope seg crece (suc quedan) = do
    pag ← page_with_free_size tope
    update_page pag λ p. record p { is_used = true }
    page_size ← gets λ s. s.page_size
    update_segment seg λ x. record x {
      page_table = list_add x.page_table pag;
      limit = if crece then u32 (x.limit + page_size) else x.limit;
    }
    agregar_paginas tope seg crece quedan

  -- `cantidadDePaginasAAgrandar * PAGE_SIZE + sizeAnterior`, for sizes that a `float` holds (below
  -- 2 ^ 24). The count is negative for a last block that has more than a page to spare; the loop does
  -- not run then.
  abbrev pub size_agrandado : ℕ → ℕ → ℕ → ℕ
  size_agrandado page_size total_size size_anterior =
      if leb size_anterior total_size
      then frames_needed page_size (total_size - size_anterior) * page_size + size_anterior
      else size_anterior - (size_anterior - total_size) / page_size * page_size

  -- The branch that makes the last segment grow.
  unfoldable pub agrandar : ℕ → Ref → ℕ → M (Unit {0})
  agrandar tope seg size = do
    lock mutex_lock
    dir_ultima ← direccion_ultima tope seg
    ultima ← buscar_metadata_por_direccion tope dir_ultima seg
    page_size ← gets λ s. s.page_size
    modificar_metadata tope dir_ultima seg
        (size_agrandado page_size (size + metadata_size) ultima.size) true
    buscar_metadata_por_direccion tope dir_ultima seg
    agregar_paginas tope seg true (frames_needed page_size (size + metadata_size - ultima.size))
    buscar_metadata_por_direccion tope dir_ultima seg
    unlock mutex_lock

  -- A new heap segment. Its first metadata is written at address 0 whatever its base is.
  abbrev pub segmento_nuevo : ℕ → Segment
  segmento_nuevo base = record {
    is_heap = true;
    base = base;
    limit = 0;
    page_table = [];
    archivo_mapeado = null;
    tipo_map = 0;
    tam_archivo_mmap = 0;
  }

  unfoldable pub base_nueva : Program → M ℕ
  base_nueva p = if list_size p.segment_table == 0 then pure 0 else (do
    x ← load_segment (list_get p.segment_table (list_size p.segment_table - 1))
    pure (u32 (x.limit + 1)))

  -- The branch for a last segment that cannot grow.
  unfoldable pub crear_segmento_detras : ℕ → Ref → ℕ → M (Unit {0})
  crear_segmento_detras tope prog size = do
    page_size ← gets λ s. s.page_size
    let paginas = frames_needed page_size (size + metadata_size * 2)
    p ← load_program prog
    base ← base_nueva p
    seg ← new_segment (segmento_nuevo base)
    update_program prog λ q. record q { segment_table = list_add q.segment_table seg }
    lock mutex_lock
    agregar_paginas tope seg false paginas
    unlock mutex_lock
    update_segment seg λ x. record x { limit = u32 (paginas * page_size + x.base) }
    lock mutex_lock
    modificar_metadata tope 0 seg (paginas * page_size - metadata_size) true
    buscar_metadata_por_direccion tope 0 seg
    unlock mutex_lock

  -- The branch for a program whose last segment is not heap, or that has none.
  unfoldable pub crear_segmento : ℕ → Ref → ℕ → M (Unit {0})
  crear_segmento tope prog size = do
    page_size ← gets λ s. s.page_size
    let paginas = frames_needed page_size (size + metadata_size * 2)
    seg ← new_segment (segmento_nuevo 0)
    update_program prog λ q. record q { segment_table = list_add q.segment_table seg }
    lock mutex_lock
    agregar_paginas tope seg true paginas
    modificar_metadata tope 0 seg (paginas * page_size - metadata_size) true
    buscar_metadata_por_direccion tope 0 seg
    unlock mutex_lock

  unfoldable pub crecer_o_crear : ℕ → Ref → Ref → ℕ → M (Unit {0})
  unfolding agrandar crear_segmento_detras
  crecer_o_crear tope prog seg size = do
    crece ← se_puede_agrandar seg prog
    if crece then agrandar tope seg size else crear_segmento_detras tope prog size

  -- Whether the program has segments, and the last is heap.
  unfoldable pub ultimo_es_heap : Ref → M Bool
  ultimo_es_heap prog = do
    p ← load_program prog
    if list_size p.segment_table == 0
        then pure false
        else (do ultimo ← ultimo_segmento_programa prog; x ← load_segment ultimo; pure x.is_heap)

  unfoldable pub hacer_lugar : ℕ → Ref → Bool → ℕ → M (Unit {0})
  unfolding crecer_o_crear crear_segmento
  hacer_lugar tope prog true size = do
    unlock mutex_lock
    seg ← ultimo_segmento_programa prog
    crecer_o_crear tope prog seg size
  hacer_lugar tope prog false size = do unlock mutex_lock; crear_segmento tope prog size
