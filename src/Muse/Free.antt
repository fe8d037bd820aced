-- ===== src/Muse/Free.antt =====
-- `memory_free` of main_memory.c, and the joining of free blocks.
use tp_sistemas_operativos.Base.{
  ℕ, zero, suc, ◌+◌, true, Option, none, some, List, ◌==◌, if◌then◌else◌,
}
use tp_sistemas_operativos.Commons.{Ref, null, Lists}
use tp_sistemas_operativos.Comandos.{pure, agotar, ◌>>=◌, ◌>>◌}
use tp_sistemas_operativos.Muse.State.{HeapMetadata, mutex_lock}
use tp_sistemas_operativos.Muse.Run.{M, load_segment, load_program, update_program, lock, unlock}
use tp_sistemas_operativos.Muse.Metadata.{
  metadata_size, resta_u32, siguiente, buscar_metadata_por_direccion, modificar_metadata,
  direccion_ultima, proxima_metadata_libre,
}
use tp_sistemas_operativos.Muse.Programs.{search_program, programa_numero, busca_segmento}

module _ ⦃c : Lists⦄ where
  open c use {list_get, list_size}

  -- The metadata at `sig`, which is free, is joined to the one at `ini`; it is written again as it
  -- was.
  unfoldable pub unir : ℕ → Ref → ℕ → HeapMetadata → ℕ → HeapMetadata → M (Unit {0})
  unir tope seg ini inicial sig metadata_siguiente = do
    modificar_metadata tope ini seg (inicial.size + metadata_siguiente.size + metadata_size)
        inicial.is_free
    modificar_metadata tope sig seg metadata_siguiente.size true

  -- What `compactar_en_segmento` does with the next free metadata; `none` is -1.
  unfoldable pub desde_libre : ℕ → Ref → (ℕ → ℕ → M (Unit {0})) → ℕ → Option ℕ → M (Unit {0})
  desde_libre tope seg sigue ultima none = pure tt
  desde_libre tope seg sigue ultima (some ini) = if ultima == ini then pure tt else (do
    inicial ← buscar_metadata_por_direccion tope ini seg
    sigue ini (siguiente ini inicial.size))

  -- The branch for a metadata behind which there are more.
  unfoldable pub compactar_medio :
      ℕ → Ref → (ℕ → ℕ → M (Unit {0})) → ℕ → ℕ → HeapMetadata → ℕ → M (Unit {0})
  unfolding desde_libre unir
  compactar_medio tope seg sigue ultima ini inicial sig = do
    metadata_siguiente ← buscar_metadata_por_direccion tope sig seg
    if metadata_siguiente.is_free
        then (do
          unir tope seg ini inicial sig metadata_siguiente
          sigue ini (siguiente sig metadata_siguiente.size))
        else (do
          libre ← proxima_metadata_libre tope sig seg tope
          desde_libre tope seg sigue ultima libre)

  -- The branch for the last metadata.
  unfoldable pub compactar_fin : ℕ → Ref → ℕ → HeapMetadata → ℕ → M (Unit {0})
  unfolding unir
  compactar_fin tope seg ini inicial sig = do
    metadata_siguiente ← buscar_metadata_por_direccion tope sig seg
    if metadata_siguiente.is_free then unir tope seg ini inicial sig metadata_siguiente else pure tt

  -- `compactar_en_segmento`, with the recursive calls left.
  unfoldable pub compactar_en_segmento : ℕ → Ref → ℕ → ℕ → ℕ → M (Unit {0})
  unfolding compactar_medio compactar_fin
  compactar_en_segmento tope seg zero ini sig = agotar
  compactar_en_segmento tope seg (suc llamadas) ini sig = do
    let sigue = compactar_en_segmento tope seg llamadas
    inicial ← buscar_metadata_por_direccion tope ini seg
    ultima ← direccion_ultima tope seg
    if sig == ultima
        then compactar_fin tope seg ini inicial sig
        else compactar_medio tope seg sigue ultima ini inicial sig

  unfoldable pub compactar_desde : ℕ → Ref → ℕ → Option ℕ → M (Unit {0})
  unfolding compactar_en_segmento
  compactar_desde tope seg ultima none = pure tt
  compactar_desde tope seg ultima (some ini) = do
    inicial ← buscar_metadata_por_direccion tope ini seg
    if ini == ultima
        then pure tt
        else compactar_en_segmento tope seg tope ini (siguiente ini inicial.size)

  -- The `for` of `compactar_espacios_libres`, with the rounds left. It does not tell heap segments
  -- from others.
  unfoldable pub compactar_segmentos : ℕ → List Ref → ℕ → ℕ → M (Unit {0})
  unfolding compactar_desde
  compactar_segmentos tope segment_table i zero = pure tt
  compactar_segmentos tope segment_table i (suc quedan) = do
    let seg = list_get segment_table i
    ultima ← direccion_ultima tope seg
    x ← load_segment seg
    libre ← proxima_metadata_libre tope x.base seg tope
    compactar_desde tope seg ultima libre
    compactar_segmentos tope segment_table (i + 1) quedan

  unfoldable pub compactar_espacios_libres : ℕ → Ref → M (Unit {0})
  unfolding compactar_segmentos
  compactar_espacios_libres tope prog = do
    p ← load_program prog
    compactar_segmentos tope p.segment_table 0 (list_size p.segment_table)

  -- `listar_metadatas`, with the recursive calls left: it reads each metadata for the log.
  unfoldable pub listar_metadatas : ℕ → Ref → ℕ → ℕ → M (Unit {0})
  listar_metadatas tope seg zero dir = agotar
  listar_metadatas tope seg (suc llamadas) dir = do
    actual ← buscar_metadata_por_direccion tope dir seg
    ultima ← direccion_ultima tope seg
    let dir_siguiente = siguiente dir actual.size
    let resto = listar_metadatas tope seg llamadas dir_siguiente
    if dir == ultima
        then pure tt
        else if ultima == dir_siguiente
        then (do buscar_metadata_por_direccion tope dir_siguiente seg; pure tt)
        else resto

  -- `list_get(prog->segment_table, nro_seg)`, where -1 gives `NULL`.
  abbrev pub segmento_numero : List Ref → Option ℕ → Ref
  segmento_numero segment_table none = null
  segmento_numero segment_table (some i) = list_get segment_table i

  -- `memory_free`: the block is marked, whatever stood at the address, and the free blocks of the
  -- program are joined.
  unfoldable pub memory_free : ℕ → ℕ → ℕ → M ℕ
  unfolding compactar_espacios_libres listar_metadatas
  memory_free tope virtual_address pid = do
    nro_prog ← search_program pid
    prog ← programa_numero nro_prog
    nro_seg ← busca_segmento prog virtual_address
    p ← load_program prog
    let seg = segmento_numero p.segment_table nro_seg
    let dir = resta_u32 virtual_address metadata_size
    lock mutex_lock
    metadata ← buscar_metadata_por_direccion tope dir seg
    modificar_metadata tope dir seg metadata.size true
    compactar_espacios_libres tope prog
    update_program prog λ q. record q { using_memory = resta_u32 q.using_memory metadata.size }
    x ← load_segment seg
    listar_metadatas tope seg tope x.base
    unlock mutex_lock
    pure 0
