-- ===== src/Muse/Programs.antt =====
-- The programs of main_memory.c and their segments.
pub mod Busca
use tp_sistemas_operativos.Base.{
  ℕ, zero, suc, ◌+◌, ◌-◌, ◌%◌, ◌^◌, Bool, true, false, ◌&&◌, Option, none, some, List, [], ◌==◌,
  leb, if◌then◌else◌,
}
use tp_sistemas_operativos.Commons.{Ref, null, Lists}
use tp_sistemas_operativos.Comandos.{pure, gets, modify, ◌>>=◌, ◌>>◌}
use tp_sistemas_operativos.Muse.Run.{M, load_segment, load_program, new_program}
use tp_sistemas_operativos.Muse.Frames.{number_of_free_frames}
use tp_sistemas_operativos.Muse.Clock.{lista_de_segmentos}
use tp_sistemas_operativos.Muse.Metadata.{u32, resta_u32}

module _ ⦃c : Lists⦄ where
  open c use {list_get, list_size, list_add}

  -- The `while` of `search_program`, with the rounds left; `none` is -1.
  unfoldable pub search_desde : ℕ → ℕ → ℕ → M (Option ℕ)
  search_desde pid i zero = pure none
  search_desde pid i (suc quedan) = do
    let resto = search_desde pid (i + 1) quedan
    ref ← gets λ s. list_get s.program_list i
    prog ← load_program ref
    if prog.pid == pid then pure (some i) else resto

  unfoldable pub search_program : ℕ → M (Option ℕ)
  unfolding search_desde
  search_program pid = do n ← gets λ s. list_size s.program_list; search_desde pid 0 n

  -- The `for` of `busca_segmento`, with the rounds left; `none` is -1.
  unfoldable pub busca_desde : List Ref → ℕ → ℕ → ℕ → M (Option ℕ)
  busca_desde segment_table direccion i zero = pure none
  busca_desde segment_table direccion i (suc quedan) = do
    let resto = busca_desde segment_table direccion (i + 1) quedan
    x ← load_segment (list_get segment_table i)
    if leb x.base direccion && leb direccion x.limit then pure (some i) else resto

  unfoldable pub busca_segmento : Ref → ℕ → M (Option ℕ)
  unfolding busca_desde
  busca_segmento prog direccion = do
    p ← load_program prog
    busca_desde p.segment_table direccion 0 (list_size p.segment_table)

  unfoldable pub ultimo_segmento_programa : Ref → M Ref
  ultimo_segmento_programa prog = do
    p ← load_program prog
    pure (list_get p.segment_table (list_size p.segment_table - 1))

  -- The address is the limit and one more.
  unfoldable pub se_puede_agrandar : Ref → Ref → M Bool
  unfolding busca_segmento
  se_puede_agrandar segmento_a_agrandar prog = do
    x ← load_segment segmento_a_agrandar
    proximo ← busca_segmento prog (u32 (x.base + resta_u32 x.limit x.base + 1))
    pure (elim proximo [ none ↦ true | some i ↦ false ])

  -- `list_get(program_list, nro_prog)`, where -1 gives `NULL`.
  unfoldable pub programa_numero : Option ℕ → M Ref
  programa_numero none = pure null
  programa_numero (some i) = gets λ s. list_get s.program_list i

  -- How many segments the program has, how many there are, and how many frames are free: what
  -- `metricas_por_socket_conectado` writes to the log.
  unfoldable pub metricas_por_socket_conectado : ℕ → M (ℕ × ℕ × ℕ)
  metricas_por_socket_conectado pid = do
    nro_prog ← search_program pid
    ref ← programa_numero nro_prog
    lista_seg ← lista_de_segmentos
    prog ← load_program ref
    libres ← number_of_free_frames
    pure (list_size prog.segment_table, list_size lista_seg, libres)

  -- The memory that a program leaves behind, in bytes.
  unfoldable pub el_cliente_se_tomo_el_palo : ℕ → M ℕ
  el_cliente_se_tomo_el_palo pid = do
    nro_prog ← search_program pid
    ref ← programa_numero nro_prog
    prog ← load_program ref
    pure prog.using_memory

  -- A program that is not on the list is added at its end, and is the one at the index that
  -- `list_add` returns.
  unfoldable pub agregar_programa : ℕ → M Ref
  agregar_programa pid = do
    prog ← new_program (record { pid = pid % 2 ^ 16; segment_table = []; using_memory = 0 })
    modify λ s. record s { program_list = list_add s.program_list prog }
    pure prog

  unfoldable pub programa_de : Option ℕ → ℕ → M Ref
  unfolding agregar_programa
  programa_de none pid = agregar_programa pid
  programa_de (some i) pid = gets λ s. list_get s.program_list i
