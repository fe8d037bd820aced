-- ===== src/Muse/Mapas.antt =====
-- `memory_map` and `memory_unmap` of main_memory.c. The files of the operating system are a
-- parameter; what a file keeps outside of its mapping is not modelled, nor is `truncate`.
use Prim.Native.String.{String}
use text.Mathlib.Text.{◌==◌ as str_eq}
use tp_sistemas_operativos.Base.{
  ℕ, zero, suc, put, ◌+◌, ◌*◌, ◌-◌, ◌/◌, ◌%◌, ◌^◌, ◌&&◌, Bool, false, not, Option, none, some, List,
  [], ◌∷◌, ◌==◌, if◌then◌else◌,
}
use tp_sistemas_operativos.Commons.{Ref, null, Lists}
use tp_sistemas_operativos.Comandos.{ok, pure, gets, modify, or_fault, ◌>>=◌, ◌>>◌}
use tp_sistemas_operativos.Wire.Bytes.{Buffer}
use tp_sistemas_operativos.Muse.State.{ArchivoMmap, Segment, Muse, mutex_lock, mutex_mm}
use tp_sistemas_operativos.Muse.Run.{
  M, load_page, load_segment, load_program, load_archivo, update_segment, update_program, new_page,
  new_segment, lock, unlock,
}
use tp_sistemas_operativos.Muse.Frames.{liberar_frame}
use tp_sistemas_operativos.Muse.Programs.{search_program, busca_segmento, programa_de}
use tp_sistemas_operativos.Muse.Free.{segmento_numero}
use tp_sistemas_operativos.Muse.Lectura.{programa_que_lee}
use tp_sistemas_operativos.Muse.Escritura.{menos}

-- The operating system: the descriptor that `open` gives, if any, and the bytes that `mmap` maps for
-- a length, a flag and a descriptor.
pub record Archivos : Type 0 where
  pub open_rdwr : String → Option ℕ
  pub mmap : ℕ → ℕ → ℕ → Buffer

-- `MAP_SHARED` and `MAP_PRIVATE`.
abbrev pub map_shared : ℕ
map_shared = 1

abbrev pub map_private : ℕ
map_private = 2

unfoldable pub new_archivo : ArchivoMmap → M Ref
new_archivo a s =
    ok s.next_ref
      (record s { archivos = put s.archivos s.next_ref (some a); next_ref = suc s.next_ref })

unfoldable pub update_archivo : Ref → (ArchivoMmap → ArchivoMmap) → M (Unit {0})
unfolding ◌>>=◌ load_archivo modify
update_archivo r f = do
  a ← load_archivo r
  modify λ s. record s { archivos = put s.archivos r (some (f a)) }

-- `!strcmp(archivo->pathArchivo, path)`.
abbrev pub path_es : Muse → String → Ref → Bool
path_es s path r = elim (s.archivos r) [
  | none ↦ false
  | some a ↦ elim (a.path_archivo) [ none ↦ false | some p ↦ str_eq p path ]
]

module _ ⦃c : Lists⦄ where
  open c use {
    list_get, list_add, list_find, list_size, list_remove, list_remove_by_condition, list_is_empty,
  }

  unfoldable pub buscar_archivo_mmap : String → M Ref
  unfolding gets
  buscar_archivo_mmap path = gets λ s. list_find s.lista_archivos_mmap (path_es s path)

  -- Where the new segment starts: behind the limit of the last one.
  unfoldable pub base_de_mmap : List Ref → M ℕ
  unfolding ◌>>=◌ pure load_segment
  base_de_mmap segment_table = if list_is_empty segment_table then pure 0 else (do
    ultimo ← load_segment (list_get segment_table (list_size segment_table - 1))
    pure ((ultimo.limit + 1) % 2 ^ 32))

  -- The length is divided as an integer, so that `ceil` changes nothing. The fields for the file are
  -- set by `memory_map`.
  unfoldable pub crear_nuevo_segmento_mmap : ℕ → Ref → M ℕ
  unfolding ◌>>=◌ ◌>>◌ pure gets base_de_mmap new_segment update_program
  crear_nuevo_segmento_mmap length prog = do
    p ← load_program prog
    base ← base_de_mmap p.segment_table
    page_size ← gets λ s. s.page_size
    let nuevo : Segment = record {
      is_heap = false;
      base = base;
      limit = (length / page_size * page_size + base) % 2 ^ 32;
      page_table = [];
      archivo_mapeado = null;
      tipo_map = 0;
      tam_archivo_mmap = 0;
    }
    seg ← new_segment nuevo
    update_program prog λ q. record q { segment_table = list_add q.segment_table seg }
    pure base

  -- The pages of a new file. `fr` is set when a page is brought to memory.
  unfoldable pub paginas_nuevas : ℕ → List Ref → M (List Ref)
  unfolding ◌>>=◌ pure new_page
  paginas_nuevas zero tabla = pure tabla
  paginas_nuevas (suc quedan) tabla = do
    pag ← new_page (record { is_modify = false; is_used = false; is_present = false; fr = 0 })
    paginas_nuevas quedan (list_add tabla pag)

  unfoldable pub archivo_nuevo : ⦃o : Archivos⦄ → String → ℕ → ℕ → ℕ → M Ref
  unfolding ◌>>=◌ ◌>>◌ pure gets modify paginas_nuevas new_archivo
  archivo_nuevo ⦃o⦄ path length flag fd = do
    page_size ← gets λ s. s.page_size
    tabla ← paginas_nuevas (length / page_size) []
    a ← new_archivo (record {
      path_archivo = some path;
      archivo = o.mmap length flag fd;
      tabla_paginas = tabla;
      programas = [];
    })
    modify λ s. record s { lista_archivos_mmap = list_add s.lista_archivos_mmap a }
    pure a

  -- Whether a program is on the list of those that use a file.
  unfoldable pub usa_archivo : Ref → ℕ → M Bool
  unfolding ◌>>=◌ pure load_archivo
  usa_archivo archivo pid = do
    a ← load_archivo archivo
    pure (not (list_find a.programas (λ q. q == pid) == null))

  -- `open`, and a new file if it opens; -1 is `none`.
  unfoldable pub abrir_archivo : ⦃o : Archivos⦄ → String → ℕ → ℕ → M (Option Ref)
  unfolding ◌>>=◌ pure archivo_nuevo
  abrir_archivo ⦃o⦄ path length flag = elim (o.open_rdwr path) [
    | none ↦ pure none
    | some fd ↦ (do a ← archivo_nuevo path length flag fd; pure (some a))
  ]

  -- The end of `memory_map`, by its flag.
  unfoldable pub segun_flag : Ref → Ref → ℕ → ℕ → M ℕ
  unfolding ◌>>=◌ ◌>>◌ pure load_archivo load_segment update_archivo update_segment unlock
  segun_flag seg archivo flag pid = do
    a ← load_archivo archivo
    if flag == map_shared
        then (do
          update_segment seg λ x. record x { tipo_map = 1 }
          update_archivo archivo λ b. record b { programas = list_add b.programas pid }
          unlock mutex_lock
          x ← load_segment seg
          pure x.base)
        else if flag == map_private
        then (do
          update_segment seg λ x. record x { tipo_map = 0 }
          if list_size a.programas == 0
              then update_archivo archivo (λ b. record b { programas = list_add b.programas pid })
              else pure tt
          unlock mutex_lock
          x ← load_segment seg
          pure x.base)
        else (do unlock mutex_lock; pure (menos 1))

  unfoldable pub mapear_en : Ref → Ref → ℕ → ℕ → ℕ → M ℕ
  unfolding ◌>>=◌ ◌>>◌ crear_nuevo_segmento_mmap busca_segmento load_archivo update_segment
      load_program segun_flag
  mapear_en prog archivo length flag pid = do
    direccion ← crear_nuevo_segmento_mmap length prog
    nro ← busca_segmento prog direccion
    p ← load_program prog
    let seg = segmento_numero p.segment_table nro
    a ← load_archivo archivo
    update_segment seg λ x. record x {
      archivo_mapeado = archivo;
      page_table = a.tabla_paginas;
      tam_archivo_mmap = length;
    }
    segun_flag seg archivo flag pid

  unfoldable pub mapear_nuevo : ⦃o : Archivos⦄ → Ref → String → ℕ → ℕ → ℕ → M ℕ
  unfolding ◌>>=◌ ◌>>◌ pure unlock abrir_archivo mapear_en
  mapear_nuevo prog path length flag pid = do
    a ← abrir_archivo path length flag
    elim a [
      | none ↦ (do unlock mutex_lock; pure (menos 1))
      | some archivo ↦ mapear_en prog archivo length flag pid
    ]

  unfoldable pub mapear_conocido : Ref → Ref → ℕ → ℕ → ℕ → M ℕ
  unfolding ◌>>=◌ ◌>>◌ pure unlock load_program usa_archivo mapear_en
  mapear_conocido prog archivo length flag pid = do
    p ← load_program prog
    usa ← usa_archivo archivo p.pid
    if (flag == map_private) && not usa
        then (do unlock mutex_lock; pure (menos 2))
        else mapear_en prog archivo length flag pid

  unfoldable pub memory_map : ⦃o : Archivos⦄ → String → ℕ → ℕ → ℕ → M ℕ
  unfolding ◌>>=◌ ◌>>◌ lock search_program programa_de buscar_archivo_mmap mapear_nuevo
      mapear_conocido
  memory_map path length flag pid = do
    lock mutex_lock
    nro_prog ← search_program pid
    prog ← programa_de nro_prog pid
    archivo ← buscar_archivo_mmap path
    if archivo == null
        then mapear_nuevo prog path length flag pid
        else mapear_conocido prog archivo length flag pid

  -- A page of a file that is removed, with its frame.
  unfoldable pub eliminar_pagina : Ref → M (Unit {0})
  unfolding ◌>>=◌ ◌>>◌ pure gets modify load_page lock unlock liberar_frame
  eliminar_pagina pagina = do
    p ← load_page pagina
    page_size ← gets λ s. s.page_size
    if p.is_present
        then (do lock mutex_mm; unlock mutex_mm; liberar_frame (p.fr / page_size))
        else pure tt
    modify λ s. record s { pages = put s.pages pagina none }

  unfoldable pub eliminar_archivo_mmap : List Ref → M (Unit {0})
  unfolding ◌>>◌ pure eliminar_pagina
  eliminar_archivo_mmap [] = pure tt
  eliminar_archivo_mmap (pagina ∷ resto) = do eliminar_pagina pagina; eliminar_archivo_mmap resto

  -- When nobody uses the file any more: its table of pages is destroyed with it, and once more as
  -- that of the segment, which is a fault.
  unfoldable pub quitar_archivo : Ref → M ℕ
  unfolding ◌>>=◌ ◌>>◌ or_fault modify load_archivo eliminar_archivo_mmap
  quitar_archivo archivo = do
    a ← load_archivo archivo
    modify λ s. record s {
      lista_archivos_mmap = list_remove_by_condition s.lista_archivos_mmap (λ r. r == archivo);
    }
    eliminar_archivo_mmap a.tabla_paginas
    or_fault none

  unfoldable pub desmapear : Ref → Ref → ℕ → Ref → Segment → M ℕ
  unfolding ◌>>=◌ ◌>>◌ pure modify load_program load_archivo update_archivo update_program unlock
      quitar_archivo
  desmapear prog seg nro archivo x = do
    p ← load_program prog
    update_archivo archivo
        λ a. record a { programas = list_remove_by_condition a.programas (λ q. q == p.pid) }
    update_program prog λ q. record q { segment_table = list_remove q.segment_table nro }
    a ← load_archivo archivo
    if list_size a.programas == 0 then quitar_archivo archivo else (do
      modify λ s. record s { segments = put s.segments seg none }
      unlock mutex_lock
      pure 0)

  -- A program that is not on the list is added, as in `memory_get`. A segment of the heap is refused
  -- whatever the address is.
  unfoldable pub memory_unmap : ℕ → ℕ → ℕ → M ℕ
  unfolding ◌>>=◌ ◌>>◌ pure lock unlock search_program programa_que_lee busca_segmento load_program
      load_segment usa_archivo desmapear
  memory_unmap sin_iniciar dir pid = do
    lock mutex_lock
    nro_prog ← search_program pid
    prog ← programa_que_lee sin_iniciar nro_prog pid
    nro_segmento ← busca_segmento prog dir
    p ← load_program prog
    elim nro_segmento [
      | none ↦ (do unlock mutex_lock; pure (menos 1))
      | some nro ↦ (do
        let seg = list_get p.segment_table nro
        x ← load_segment seg
        usa ← if x.is_heap then pure false else usa_archivo x.archivo_mapeado p.pid
        if usa
            then desmapear prog seg nro x.archivo_mapeado x
            else (do unlock mutex_lock; pure (menos 1)))
    ]
