-- ===== src/Muse/Copias.antt =====
-- `memory_get` of main_memory.c, and the pages of mapped files that it brings to the main memory.
use tp_sistemas_operativos.Base.{
  ℕ, zero, suc, ◌+◌, ◌-◌, ◌*◌, ◌/◌, true, false, none, List, [], ◌∷◌, ◌==◌, ltb, leb, if◌then◌else◌,
  put,
}
use tp_sistemas_operativos.Commons.{Ref, Lists}
use tp_sistemas_operativos.Comandos.{pure, gets, modify, ◌>>=◌, ◌>>◌}
use tp_sistemas_operativos.Muse.State.{Segment, mutex_bitmap_heap, mutex_bitmap_mmap, mutex_mm}
use tp_sistemas_operativos.Muse.Run.{
  M, load_page, load_archivo, update_page, set_bitmap, lock, unlock,
}
use tp_sistemas_operativos.Muse.Frames.{number_of_free_frames_upcm}
use tp_sistemas_operativos.Muse.Clock.{dame_nro_frame_reemplazado}
use tp_sistemas_operativos.Muse.Marcos.{page_with_free_size}
use tp_sistemas_operativos.Muse.Metadata.{u32, resta_u32}
use tp_sistemas_operativos.Wire.Bytes.{read_bytes, write_bytes}

-- `memset(…, '\0', n)`.
abbrev pub ceros : ℕ → List ℕ
ceros zero = []
ceros (suc n) = 0 ∷ ceros n

unfoldable pub memcpy_a : ℕ → List ℕ → M (Unit {0})
memcpy_a at bytes = modify λ s. record s { main_memory = write_bytes s.main_memory at bytes }

abbrev pub min : ℕ → ℕ → ℕ
min a b = if leb a b then a else b

module _ ⦃c : Lists⦄ where
  open c use {list_get, list_add, list_find}

  -- The bytes of the file that go to a replaced frame: those that `fmin` counts, with the zeros that
  -- follow written from the start of the frame on.
  unfoldable pub leer_del_archivo : Segment → ℕ → ℕ → ℕ → M (Unit {0})
  unfolding memcpy_a
  leer_del_archivo segmento fr nro_pagina page_size =
      if leb (nro_pagina * page_size) segmento.limit
      then (do
        a ← load_archivo segmento.archivo_mapeado
        let bytes_a_leer =
            min page_size (resta_u32 (u32 (nro_pagina * page_size + page_size)) segmento.limit)
        memcpy_a fr (read_bytes a.archivo (nro_pagina * page_size) bytes_a_leer)
        memcpy_a fr (ceros (page_size - bytes_a_leer)))
      else memcpy_a fr (ceros page_size)

  -- No frame is free. The bitmap is guarded by the other mutex here.
  unfoldable pub mapear_con_reemplazo : ℕ → Segment → Ref → ℕ → M (Unit {0})
  unfolding leer_del_archivo
  mapear_con_reemplazo tope segmento pagina nro_pagina = do
    num_frame ← dame_nro_frame_reemplazado tope
    lock mutex_bitmap_mmap
    set_bitmap num_frame false
    unlock mutex_bitmap_mmap
    lock mutex_mm
    page_size ← gets λ s. s.page_size
    update_page pagina λ p. record p { fr = num_frame * page_size }
    unlock mutex_mm
    update_page pagina λ p. record p { is_present = true; is_used = true }
    leer_del_archivo segmento (num_frame * page_size) nro_pagina page_size

  -- Some frame is free. The page that was made to find it is freed.
  unfoldable pub mapear_a_libre : ℕ → Segment → Ref → ℕ → M (Unit {0})
  unfolding memcpy_a
  mapear_a_libre tope segmento pagina nro_pagina = do
    sacar_frame ← page_with_free_size tope
    f ← load_page sacar_frame
    lock mutex_bitmap_heap
    page_size ← gets λ s. s.page_size
    set_bitmap (f.fr / page_size) false
    unlock mutex_bitmap_heap
    update_page pagina λ p. record p { fr = f.fr; is_present = true; is_used = true }
    modify λ s. record s { pages = put s.pages sacar_frame none }
    a ← load_archivo segmento.archivo_mapeado
    memcpy_a f.fr (read_bytes a.archivo (nro_pagina * page_size) page_size)

  unfoldable pub mapear_si_hay : ℕ → Segment → Ref → ℕ → M (Unit {0})
  unfolding mapear_a_libre
  mapear_si_hay tope segmento pagina nro_pagina = do
    libres ← number_of_free_frames_upcm
    if ltb 0 libres then mapear_a_libre tope segmento pagina nro_pagina else pure tt

  unfoldable pub mapear : ℕ → Segment → Ref → ℕ → M (Unit {0})
  unfolding mapear_con_reemplazo mapear_si_hay
  mapear tope segmento pagina nro_pagina = do
    libres ← number_of_free_frames_upcm
    if libres == 0
        then mapear_con_reemplazo tope segmento pagina nro_pagina
        else mapear_si_hay tope segmento pagina nro_pagina

  unfoldable pub obtener_data_marco_mmap : ℕ → Segment → Ref → ℕ → M ℕ
  unfolding mapear
  obtener_data_marco_mmap tope segmento pagina nro_pagina = do
    p ← load_page pagina
    if p.is_present then pure tt else mapear tope segmento pagina nro_pagina
    q ← load_page pagina
    pure q.fr
