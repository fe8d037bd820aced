-- ===== src/Muse/Metadata.antt =====
-- The metadata of the heap segments of main_memory.c: 5 bytes in front of each block, the size in
-- four and the flag, which may stand across two pages. Addresses and sizes are 32-bit patterns.
pub mod Contigua
pub mod Residente
pub mod Partes
pub mod Refina
pub mod Escritura
pub mod RoundTrip
pub mod Bloques
pub mod Busqueda
pub mod Eleccion
pub mod Reescritura
use tp_sistemas_operativos.Base.{
  ℕ, zero, suc, ◌+◌, ◌-◌, ◌*◌, ◌/◌, ◌%◌, ◌^◌, Bool, true, false, not, ◌&&◌, Option, none, some,
  List, [], ◌∷◌, ◌++◌, ◌==◌, ltb, leb, take, if◌then◌else◌,
}
use tp_sistemas_operativos.Base.Lists.{drop}
use tp_sistemas_operativos.Commons.{Ref, Lists}
use tp_sistemas_operativos.Comandos.{Run, Cmd, pure, gets, modify, agotar, ◌>>=◌, ◌>>◌}
use tp_sistemas_operativos.Muse.State.{Page, Segment, HeapMetadata, Muse}
use tp_sistemas_operativos.Muse.Run.{M, load_page, load_segment}
use tp_sistemas_operativos.Muse.Marcos.{obtener_data_marco_heap}
use tp_sistemas_operativos.Wire.Bytes.{Buffer, read_bytes, write_bytes, le_bytes, of_le}

-- `sizeof(struct HeapMetadata)`.
abbrev pub metadata_size : ℕ
metadata_size = 5

-- `uint32_t` arithmetic.
abbrev pub u32 : ℕ → ℕ
u32 n = n % 2 ^ 32

-- `a - b` on `uint32_t`.
abbrev pub resta_u32 : ℕ → ℕ → ℕ
resta_u32 a b = (a + 2 ^ 32 - b) % 2 ^ 32

-- The bytes of a `heap_metadata`, and a `heap_metadata` from its bytes.
unfoldable pub bytes_de : HeapMetadata → List ℕ
bytes_de h = le_bytes 4 h.size ++ (if h.is_free then 1 else 0) ∷ []

unfoldable pub metadata_de : List ℕ → HeapMetadata
metadata_de bytes = record {
  size = of_le (take 4 bytes);
  is_free = not (of_le (drop 4 bytes) == 0);
}

-- The address of the metadata behind one of a size.
abbrev pub siguiente : ℕ → ℕ → ℕ
siguiente dir_logica size = u32 (size + metadata_size + dir_logica)

module _ ⦃c : Lists⦄ where
  open c use {list_get}

  -- The page of a logical address and the offset in it.
  unfoldable pub pagina_y_offset : ℕ → Segment → M (ℕ × ℕ)
  pagina_y_offset direccion_logica x = gets λ s. (
    resta_u32 direccion_logica x.base / s.page_size,
    resta_u32 direccion_logica x.base % s.page_size,
  )

  -- `if (!pagina->is_present) obtener_data_marco_heap(pagina);`
  unfoldable pub asegurar : ℕ → Ref → M (Unit {0})
  asegurar tope pagina = do
    p ← load_page pagina
    if p.is_present then pure tt else (do obtener_data_marco_heap tope pagina; pure tt)

  -- A metadata that is cut: the first part is copied before the next page is brought in.
  unfoldable pub leer_cortada : ℕ → Segment → ℕ → ℕ → ℕ → ℕ → M HeapMetadata
  leer_cortada tope x pagina_buscada fr offset page_size = do
    parte_1 ← gets λ s. read_bytes s.main_memory (fr + offset) (page_size - offset)
    let proxima_pagina = list_get x.page_table (pagina_buscada + 1)
    asegurar tope proxima_pagina
    q ← load_page proxima_pagina
    parte_2 ← gets λ s. read_bytes s.main_memory q.fr (metadata_size - (page_size - offset))
    pure (metadata_de (parte_1 ++ parte_2))

  unfoldable pub leer_entera : ℕ → M HeapMetadata
  leer_entera at = gets λ s. metadata_de (read_bytes s.main_memory at metadata_size)

  unfoldable pub buscar_metadata_por_direccion : ℕ → ℕ → Ref → M HeapMetadata
  unfolding pagina_y_offset
  buscar_metadata_por_direccion tope direccion_logica segmento_buscado = do
    x ← load_segment segmento_buscado
    lugar ← pagina_y_offset direccion_logica x
    let pagina = list_get x.page_table lugar.0
    asegurar tope pagina
    p ← load_page pagina
    page_size ← gets λ s. s.page_size
    if ltb page_size (lugar.1 + metadata_size)
        then leer_cortada tope x lugar.0 p.fr lugar.1 page_size
        else leer_entera (p.fr + lugar.1)

  -- A metadata that is cut: the place of the first part is that from before the next page is brought
  -- in.
  unfoldable pub escribir_cortada : ℕ → Segment → ℕ → ℕ → ℕ → ℕ → HeapMetadata → M (Unit {0})
  escribir_cortada tope x pagina_buscada fr offset page_size nueva = do
    let proxima_pagina = list_get x.page_table (pagina_buscada + 1)
    asegurar tope proxima_pagina
    q ← load_page proxima_pagina
    let cortada = page_size - offset
    modify λ s. record s {
      main_memory = write_bytes s.main_memory (fr + offset) (take cortada (bytes_de nueva));
    }
    modify λ s. record s {
      main_memory = write_bytes s.main_memory q.fr (drop cortada (bytes_de nueva));
    }

  unfoldable pub escribir_entera : ℕ → HeapMetadata → M (Unit {0})
  escribir_entera at nueva =
      modify λ s. record s { main_memory = write_bytes s.main_memory at (bytes_de nueva) }

  unfoldable pub modificar_metadata : ℕ → ℕ → Ref → ℕ → Bool → M (Unit {0})
  unfolding pagina_y_offset
  modificar_metadata tope direccion_logica segmento_buscado nuevo_size is_free = do
    x ← load_segment segmento_buscado
    lugar ← pagina_y_offset direccion_logica x
    let pagina = list_get x.page_table lugar.0
    asegurar tope pagina
    p ← load_page pagina
    page_size ← gets λ s. s.page_size
    let nueva : HeapMetadata = record { size = u32 nuevo_size; is_free = is_free }
    if ltb page_size (lugar.1 + metadata_size)
        then escribir_cortada tope x lugar.0 p.fr lugar.1 page_size nueva
        else escribir_entera (p.fr + lugar.1) nueva

  -- `ultima_metadata_segmento`, with the recursive calls left.
  unfoldable pub ultima_metadata_segmento : ℕ → ℕ → Ref → ℕ → M ℕ
  ultima_metadata_segmento tope dir_logica segmento_actual zero = agotar
  ultima_metadata_segmento tope dir_logica segmento_actual (suc pasos) = do
    metadata_actual ← buscar_metadata_por_direccion tope dir_logica segmento_actual
    let dir_siguiente = siguiente dir_logica metadata_actual.size
    let resto = ultima_metadata_segmento tope dir_siguiente segmento_actual pasos
    x ← load_segment segmento_actual
    if dir_siguiente == x.limit then pure dir_logica else resto

  -- The last metadata from the base of the segment on.
  unfoldable pub direccion_ultima : ℕ → Ref → M ℕ
  unfolding ultima_metadata_segmento
  direccion_ultima tope segmento_actual = do
    x ← load_segment segmento_actual
    ultima_metadata_segmento tope x.base segmento_actual tope

  -- The branch for a metadata in front of the last.
  unfoldable pub ante_ultima_con_size : ℕ → ℕ → Ref → ℕ → M (Option ℕ)
  ante_ultima_con_size tope dir_siguiente segmento_actual size = do
    ultima ← buscar_metadata_por_direccion tope dir_siguiente segmento_actual
    pure (if ultima.is_free && leb size ultima.size then some dir_siguiente else none)

  -- `proxima_metadata_libre_con_size`, with the recursive calls left; `none` is -1.
  unfoldable pub proxima_metadata_libre_con_size : ℕ → ℕ → Ref → ℕ → ℕ → M (Option ℕ)
  unfolding direccion_ultima
  proxima_metadata_libre_con_size tope dir_logica segmento_actual size zero = agotar
  proxima_metadata_libre_con_size tope dir_logica segmento_actual size (suc pasos) = do
    actual ← buscar_metadata_por_direccion tope dir_logica segmento_actual
    ultima ← direccion_ultima tope segmento_actual
    let dir_siguiente = siguiente dir_logica actual.size
    let resto = proxima_metadata_libre_con_size tope dir_siguiente segmento_actual size pasos
    if dir_logica == ultima
        then pure (if leb size actual.size then some dir_logica else none)
        else if ultima == dir_siguiente
        then ante_ultima_con_size tope dir_siguiente segmento_actual size
        else if actual.is_free && leb size actual.size
        then pure (some dir_logica)
        else resto

  -- The branch of `proxima_metadata_libre` for a metadata in front of the last.
  unfoldable pub ante_ultima_libre : ℕ → ℕ → ℕ → Ref → M (Option ℕ)
  ante_ultima_libre tope dir_logica dir_siguiente segmento_actual = do
    ultima ← buscar_metadata_por_direccion tope dir_siguiente segmento_actual
    pure (if ultima.is_free then some dir_logica else none)

  -- `proxima_metadata_libre`, with the recursive calls left; `none` is -1.
  unfoldable pub proxima_metadata_libre : ℕ → ℕ → Ref → ℕ → M (Option ℕ)
  unfolding direccion_ultima
  proxima_metadata_libre tope dir_logica segmento_actual zero = agotar
  proxima_metadata_libre tope dir_logica segmento_actual (suc pasos) = do
    actual ← buscar_metadata_por_direccion tope dir_logica segmento_actual
    ultima ← direccion_ultima tope segmento_actual
    let dir_siguiente = siguiente dir_logica actual.size
    let resto = proxima_metadata_libre tope dir_siguiente segmento_actual pasos
    if ultima == dir_siguiente
        then ante_ultima_libre tope dir_logica dir_siguiente segmento_actual
        else if actual.is_free
        then pure (some dir_logica)
        else resto
