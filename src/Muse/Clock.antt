-- ===== src/Muse/Clock.antt =====
-- The replacement of main_memory.c: the modified clock picks a victim, which goes to the swap file.
pub mod Victima
pub mod Vuelta
pub mod Visita
pub mod Rondas
pub mod Segmentos
pub mod Termina
pub mod Reemplazo
use tp_sistemas_operativos.Base.{
  ℕ, zero, suc, ◌+◌, ◌-◌, ◌*◌, ◌/◌, Bool, true, false, not, ◌&&◌, Option, none, some, List, ◌++◌,
  [], ◌==◌, if◌then◌else◌,
}
use tp_sistemas_operativos.Commons.{Ref, Lists}
use tp_sistemas_operativos.Comandos.{Run, Cmd, pure, gets, modify, agotar, ◌>>=◌, ◌>>◌}
use tp_sistemas_operativos.Muse.State.{
  Page, Segment, Program, Muse, mutex_bitmap_heap, mutex_mm, mutex_clock,
}
use tp_sistemas_operativos.Muse.Run.{
  M, load_page, load_segment, load_program, update_page, set_bitmap, lock, unlock,
}
use tp_sistemas_operativos.Muse.Frames.{frame_swap_libre}
use tp_sistemas_operativos.Wire.Bytes.{read_bytes, write_bytes}

-- `memcpy(buffer, MAIN_MEMORY + …, PAGE_SIZE)`, and the `fwrite` to the frame of the swap file.
unfoldable pub copiar_a_swap : ℕ → ℕ → M (Unit {0})
copiar_a_swap nro_frame nro_frame_swap = do
  lock mutex_mm
  buffer ← gets λ s. read_bytes s.main_memory (nro_frame * s.page_size) s.page_size
  unlock mutex_mm
  modify λ s. record s { swapfile = write_bytes s.swapfile (nro_frame_swap * s.page_size) buffer }

-- The body of `mandar_al_archivo_swap…` once the frame is known; `none` is -1.
unfoldable pub mandar_a : ℕ → Option ℕ → M (Option ℕ)
mandar_a nro_frame none = pure none
mandar_a nro_frame (some n) = do copiar_a_swap nro_frame n; pure (some n)

unfoldable pub mandar_al_archivo_swap_toda_la_pagina_que_esta_en : ℕ → M (Option ℕ)
mandar_al_archivo_swap_toda_la_pagina_que_esta_en nro_frame = do
  nro_frame_swap ← frame_swap_libre
  mandar_a nro_frame nro_frame_swap

-- The page is in the swap file from now on; with no frame there, it is left as it was.
unfoldable pub marcar_en_swap : Ref → Option ℕ → M (Unit {0})
marcar_en_swap pag none = pure tt
marcar_en_swap pag (some n) = update_page pag λ p. record p { fr = n; is_present = false }

unfoldable pub se_hace_la_vistima : Ref → M ℕ
se_hace_la_vistima pag = do
  lock mutex_mm
  p ← load_page pag
  nro_frame_upcm ← gets λ s. p.fr / s.page_size
  unlock mutex_mm
  lock mutex_bitmap_heap
  set_bitmap nro_frame_upcm true
  unlock mutex_bitmap_heap
  nro_frame_swap ← mandar_al_archivo_swap_toda_la_pagina_que_esta_en nro_frame_upcm
  marcar_en_swap pag nro_frame_swap
  pure nro_frame_upcm

-- What a visit finds: a victim in round 1 is neither used nor modified, in round 2 not used but
-- modified.
pub data Paso : Type 0 where
  paso_1 paso_2 : Paso

abbrev pub es_victima : Paso → Page → Bool
es_victima paso_1 p = not p.is_used && not p.is_modify
es_victima paso_2 p = not p.is_used && p.is_modify

abbrev pub otro_paso : Paso → Paso
otro_paso paso_1 = paso_2
otro_paso paso_2 = paso_1

module _ ⦃c : Lists⦄ where
  open c use {list_get, list_size, list_add_all}

  -- `lista_de_segmentos`, over the programs `i`, …, `quedan` in number.
  unfoldable pub juntar_segmentos : ℕ → ℕ → List Ref → M (List Ref)
  juntar_segmentos i zero lista = pure lista
  juntar_segmentos i (suc quedan) lista = do
    ref ← gets λ s. list_get s.program_list i
    prog ← load_program ref
    juntar_segmentos (i + 1) quedan (list_add_all lista prog.segment_table)

  unfoldable pub lista_de_segmentos : M (List Ref)
  unfolding juntar_segmentos
  lista_de_segmentos = do n ← gets λ s. list_size s.program_list; juntar_segmentos 0 n []

  -- The hand of the clock stays at the victim.
  unfoldable pub elegir : Ref → ℕ → ℕ → M (Option ℕ)
  elegir pag nro_de_pag nro_de_segmento = do
    nro_frame ← se_hace_la_vistima pag
    modify λ s. record s { segmento_clock = nro_de_segmento; pagina_clock = nro_de_pag }
    unlock mutex_clock
    pure (some nro_frame)

  -- What round 2 does to a page that it passes.
  unfoldable pub pasar : Paso → Ref → M (Unit {0})
  pasar paso_1 pag = pure tt
  pasar paso_2 pag = update_page pag λ p. record p { is_used = false }

  -- The rounds of the inner `for`, from page `nro_de_pag` on, `quedan` in number: the frame of the
  -- victim, or `none` when the segment has none.
  unfoldable pub recorrer_paginas : Paso → Ref → ℕ → ℕ → ℕ → M (Option ℕ)
  recorrer_paginas paso seg nro_de_segmento nro_de_pag zero = pure none
  recorrer_paginas paso seg nro_de_segmento nro_de_pag (suc quedan) = do
    let resto = recorrer_paginas paso seg nro_de_segmento (nro_de_pag + 1) quedan
    x ← load_segment seg
    let pag = list_get x.page_table nro_de_pag
    p ← load_page pag
    if not p.is_present
        then resto
        else if es_victima paso p
        then elegir pag nro_de_pag nro_de_segmento
        else (do pasar paso pag; resto)

  -- The frame found, or what to do without one.
  abbrev pub si_no : M (Option ℕ) → Option ℕ → M (Option ℕ)
  si_no sigue none = sigue
  si_no sigue (some n) = pure (some n)

  -- The rounds of the outer `for`, from segment `nro_de_segmento` on, `quedan` in number, the first
  -- from page `nro_de_pag` on.
  unfoldable pub recorrer_segmentos : Paso → List Ref → ℕ → ℕ → ℕ → M (Option ℕ)
  unfolding recorrer_paginas
  recorrer_segmentos paso lista nro_de_segmento nro_de_pag zero = pure none
  recorrer_segmentos paso lista nro_de_segmento nro_de_pag (suc quedan) = do
    let resto = recorrer_segmentos paso lista (nro_de_segmento + 1) 0 quedan
    let seg = list_get lista nro_de_segmento
    x ← load_segment seg
    encontrado ←
        recorrer_paginas paso seg nro_de_segmento nro_de_pag (list_size x.page_table - nro_de_pag)
    si_no resto encontrado

  -- The `while (true)`, with the rounds left.
  unfoldable pub rondas : ℕ → Paso → List Ref → ℕ → ℕ → M ℕ
  unfolding recorrer_segmentos
  rondas zero paso lista nro_de_segmento nro_de_pag = agotar
  rondas (suc tope) paso lista nro_de_segmento nro_de_pag = do
    let sigue = rondas tope (otro_paso paso) lista 0 0
    encontrado ←
        recorrer_segmentos paso lista nro_de_segmento nro_de_pag (list_size lista - nro_de_segmento)
    elim encontrado [ none ↦ sigue | some n ↦ pure n ]

  -- `dame_nro_frame_reemplazado`: the hand starts behind the page that was chosen last.
  unfoldable pub dame_nro_frame_reemplazado : ℕ → M ℕ
  unfolding rondas
  dame_nro_frame_reemplazado tope = do
    lock mutex_clock
    lista_seg ← lista_de_segmentos
    segmento_clock ← gets λ s. s.segmento_clock
    pagina_clock ← gets λ s. s.pagina_clock
    load_segment (list_get lista_seg segmento_clock)
    rondas tope paso_1 lista_seg segmento_clock (pagina_clock + 1)
