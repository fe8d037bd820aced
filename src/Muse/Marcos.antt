-- ===== src/Muse/Marcos.antt =====
-- The frames that main_memory.c gives to pages: new pages, and pages that come back from the swap
-- file.
use tp_sistemas_operativos.Base.{ℕ, zero, suc, ◌+◌, ◌*◌, ◌/◌, true, false, ◌==◌, ltb, if◌then◌else◌}
use tp_sistemas_operativos.Commons.{Ref, Lists}
use tp_sistemas_operativos.Comandos.{pure, gets, modify, agotar, ◌>>=◌, ◌>>◌}
use tp_sistemas_operativos.Muse.State.{Page, mutex_bitmap_heap, mutex_mm}
use tp_sistemas_operativos.Muse.Run.{M, load_page, update_page, new_page, set_bitmap, lock, unlock}
use tp_sistemas_operativos.Muse.Frames.{number_of_free_frames_upcm, liberar_frame_swap}
use tp_sistemas_operativos.Muse.Clock.{dame_nro_frame_reemplazado}
use tp_sistemas_operativos.Wire.Bytes.{read_bytes, write_bytes}

-- `malloc(sizeof(page))`.
abbrev pub pagina_sin_marco : Page
pagina_sin_marco = record { is_modify = false; is_used = false; is_present = false; fr = 0 }

-- The frame is taken for the page.
unfoldable pub tomar_marco : Ref → ℕ → M Ref
tomar_marco pag curr_frame_num = do
  set_bitmap curr_frame_num false
  lock mutex_mm
  page_size ← gets λ s. s.page_size
  update_page pag λ p. record p {
    is_present = true;
    is_used = true;
    is_modify = false;
    fr = curr_frame_num * page_size;
  }
  unlock mutex_mm
  unlock mutex_bitmap_heap
  pure pag

module _ ⦃c : Lists⦄ where
  -- At the last frame the replacement gives a frame that is free again.
  unfoldable pub frame_a_mirar : ℕ → ℕ → M ℕ
  frame_a_mirar tope curr_frame_num = do
    total ← gets λ s. s.total_frame_num
    if curr_frame_num == total then dame_nro_frame_reemplazado tope else pure curr_frame_num

  -- The `for (;;)` of `page_with_free_size`, with the rounds left.
  unfoldable pub buscar_marco : ℕ → ℕ → Ref → ℕ → M Ref
  unfolding frame_a_mirar
  buscar_marco tope zero pag curr_frame_num = agotar
  buscar_marco tope (suc vueltas) pag curr_frame_num = do
    n ← frame_a_mirar tope curr_frame_num
    let resto = buscar_marco tope vueltas pag (n + 1)
    lock mutex_bitmap_heap
    libre ← gets λ s. s.bitmap n
    if libre then tomar_marco pag n else (do unlock mutex_bitmap_heap; resto)

  unfoldable pub page_with_free_size : ℕ → M Ref
  unfolding buscar_marco
  page_with_free_size tope = do pag ← new_page pagina_sin_marco; buscar_marco tope tope pag 0

  -- `fread` of a frame of the swap file, and the `memcpy` to the frame of the main memory.
  unfoldable pub traer_de_swap : Ref → ℕ → ℕ → M (Unit {0})
  traer_de_swap pagina en_swap fr = do
    buffer ← gets λ s. read_bytes s.swapfile (en_swap * s.page_size) s.page_size
    update_page pagina λ p. record p { fr = fr; is_present = true; is_used = true }
    modify λ s. record s { main_memory = write_bytes s.main_memory fr buffer }

  -- No frame is free: one is replaced, and taken at once. `fr` of the page is read again behind the
  -- replacement.
  unfoldable pub traer_con_reemplazo : ℕ → Ref → M (Unit {0})
  traer_con_reemplazo tope pagina = do
    num_frame ← dame_nro_frame_reemplazado tope
    lock mutex_bitmap_heap
    set_bitmap num_frame false
    unlock mutex_bitmap_heap
    p ← load_page pagina
    liberar_frame_swap p.fr
    lock mutex_mm
    fr ← gets λ s. num_frame * s.page_size
    unlock mutex_mm
    traer_de_swap pagina p.fr fr

  -- Some frame is free. The swap file is read in front of the search for it.
  unfoldable pub traer_a_libre : ℕ → Ref → M (Unit {0})
  traer_a_libre tope pagina = do
    p ← load_page pagina
    buffer ← gets λ s. read_bytes s.swapfile (p.fr * s.page_size) s.page_size
    sacar_frame ← page_with_free_size tope
    q ← load_page pagina
    liberar_frame_swap q.fr
    f ← load_page sacar_frame
    lock mutex_bitmap_heap
    page_size ← gets λ s. s.page_size
    set_bitmap (f.fr / page_size) false
    unlock mutex_bitmap_heap
    update_page pagina λ r. record r { fr = f.fr; is_present = true; is_used = true }
    modify λ s. record s { main_memory = write_bytes s.main_memory f.fr buffer }

  -- The test of the second `if`, of a page that is still not present.
  unfoldable pub segunda_rama : ℕ → Ref → M (Unit {0})
  segunda_rama tope pagina = do
    libres ← number_of_free_frames_upcm
    if ltb 0 libres then traer_a_libre tope pagina else pure tt

  unfoldable pub traer_pagina : ℕ → Ref → M (Unit {0})
  traer_pagina tope pagina = do
    libres ← number_of_free_frames_upcm
    if libres == 0 then traer_con_reemplazo tope pagina else segunda_rama tope pagina

  -- `obtener_data_marco_heap`: the place in the main memory of a page, which is brought back first if
  -- it is not present.
  unfoldable pub obtener_data_marco_heap : ℕ → Ref → M ℕ
  obtener_data_marco_heap tope pagina = do
    p ← load_page pagina
    if p.is_present then pure tt else traer_pagina tope pagina
    q ← load_page pagina
    pure q.fr
