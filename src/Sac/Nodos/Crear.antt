-- ===== src/Sac/Nodos/Crear.antt =====
-- `crear_nuevo_nodo` and `renombrar_archivo` of filesystem/sac_handlers.c. The results EDQUOT, which
-- is positive, and -EEXIST of the first leave `s_tablaDeNodos` held, as the code does.
use tp_sistemas_operativos.Base.{
  ℕ, zero, suc, put, ◌+◌, ◌/◌, Option, none, some, List, [], ◌∷◌, ◌==◌, ltb, leb, if◌then◌else◌,
  length,
}
use tp_sistemas_operativos.Base.Int.{ℤ, pos, negsuc}
use tp_sistemas_operativos.Comandos.{Cmd, ok, fault, gets, or_fault, pure, ◌>>=◌, ◌>>◌}
use tp_sistemas_operativos.Sac.Disco.{
  Bitarrays, Rutas, Disco, Cadena, bloque_size, max_number_of_files, max_name_size,
}
use tp_sistemas_operativos.Sac.Bloques.{get_bloque_vacio, agregar_nodo}
use tp_sistemas_operativos.Sac.Ordenes.{
  a_uint32, tomar_tabla, soltar_tabla, cambiar_nodo, nodo_valido, llamar,
}
use tp_sistemas_operativos.Sac.Nodos.{bloque_de_nodo, determine_nodo, validar_si_ya_existe_otro}

-- `EDQUOT`.
abbrev pub edquot : ℤ
edquot = pos 122

-- `lista[dim - 1]`; before the list there is nothing to read.
unfoldable pub ultimo_nombre : List Cadena → Option Cadena
ultimo_nombre [] = none
ultimo_nombre (nombre ∷ []) = some nombre
ultimo_nombre (nombre ∷ otro ∷ resto) = ultimo_nombre (otro ∷ resto)

module _ ⦃c : Bitarrays⦄ where
  -- The `while` of `crear_nuevo_nodo`, with the rounds left.
  unfoldable pub nodo_sin_uso : Disco → ℕ → ℕ → ℕ
  nodo_sin_uso d i zero = i
  nodo_sin_uso d i (suc quedan) =
      let sigue = nodo_sin_uso d (i + 1) quedan in
      if (d.tabla_de_nodos i).state == 0 then i else sigue

  -- `memset(bloqueDeDatos->bytes, 0, BLOQUE_SIZE)`; there is no block -1.
  unfoldable pub poner_ceros : ℤ → Cmd Disco (Unit {0})
  poner_ceros (negsuc e) d = fault
  poner_ceros (pos b) d = ok tt (record d {
    bloques = put d.bloques b (λ i. 0);
    datos = λ i. if i / bloque_size == b then 0 else d.datos i;
  })

  -- `strcpy(nodo->fname, fileName)`: a name that does not fit with its NUL is a fault.
  unfoldable pub poner_nombre : ℕ → Cadena → Cmd Disco (Unit {0})
  unfolding cambiar_nodo
  poner_nombre n file_name d =
      if ltb (length file_name) max_name_size
      then cambiar_nodo n (λ g. record g { fname = file_name }) d
      else fault

  -- What `crear_nuevo_nodo` does for a file: its first block.
  unfoldable pub primer_bloque : ℕ → ℕ → Cmd Disco (Unit {0})
  unfolding ◌>>=◌ ◌>>◌ pure llamar get_bloque_vacio agregar_nodo a_uint32 poner_ceros
  primer_bloque nodo tipo_de_archivo =
      if tipo_de_archivo == 1
      then (do
        nuevo ← llamar get_bloque_vacio
        llamar λ d. agregar_nodo d nodo (a_uint32 nuevo)
        poner_ceros nuevo)
      else pure tt

module _ ⦃c : Bitarrays⦄ ⦃r : Rutas⦄ where
  open r use {string_split, dirname, basename, time}

  unfoldable pub leer_reloj : Cmd Disco ℕ
  leer_reloj d = ok (time d.lecturas_reloj) (record d { lecturas_reloj = suc d.lecturas_reloj })

  -- The block of the parent of a new node.
  unfoldable pub bloque_del_padre : Disco → Cadena → List Cadena → ℕ
  unfolding bloque_de_nodo determine_nodo
  bloque_del_padre d path [] = 0
  bloque_del_padre d path (nombre ∷ []) = 0
  bloque_del_padre d path (nombre ∷ otro ∷ resto) =
      bloque_de_nodo d (determine_nodo d (dirname path))

  -- `crear_nuevo_nodo` with a node that is free and a name that is new.
  unfoldable pub llenar_nodo : ℕ → Cadena → ℕ → ℕ → Cmd Disco ℤ
  unfolding ◌>>=◌ ◌>>◌ pure poner_nombre cambiar_nodo leer_reloj soltar_tabla primer_bloque
  llenar_nodo nodo file_name padre tipo_de_archivo = do
    poner_nombre nodo file_name
    cambiar_nodo nodo
        (λ g. record g { file_size = 0; parent_dir_block = padre; state = tipo_de_archivo })
    creado ← leer_reloj
    cambiar_nodo nodo (λ g. record g { create_date = creado })
    modificado ← leer_reloj
    cambiar_nodo nodo (λ g. record g { modify_date = modificado })
    soltar_tabla
    primer_bloque nodo tipo_de_archivo
    pure (pos 0)

  -- What follows the answer of `validar_si_ya_existe_otro`.
  unfoldable pub si_no_existe : ℤ → Cmd Disco ℤ → Cmd Disco ℤ
  unfolding pure
  si_no_existe (negsuc e) sigue = pure (negsuc e)
  si_no_existe (pos n) sigue = sigue

  -- `crear_nuevo_nodo` with the first node that is not in use.
  unfoldable pub crear_en : ℕ → Cadena → Cadena → ℕ → Cmd Disco ℤ
  unfolding ◌>>=◌ gets validar_si_ya_existe_otro llenar_nodo bloque_del_padre si_no_existe
  crear_en curr_node path file_name tipo_de_archivo = do
    padre ← gets λ d. bloque_del_padre d path (string_split path)
    respuesta ← gets λ d. validar_si_ya_existe_otro d path file_name
    si_no_existe respuesta (llenar_nodo curr_node file_name padre tipo_de_archivo)

  unfoldable pub crear_con_tabla : Cadena → Cadena → ℕ → Cmd Disco ℤ
  unfolding ◌>>=◌ pure gets nodo_sin_uso crear_en
  crear_con_tabla path file_name tipo_de_archivo = do
    curr_node ← gets λ d. nodo_sin_uso d 0 max_number_of_files
    if leb max_number_of_files curr_node
        then pure edquot
        else crear_en curr_node path file_name tipo_de_archivo

  unfoldable pub crear_nuevo_nodo : Cadena → ℕ → Cmd Disco ℤ
  unfolding ◌>>=◌ ◌>>◌ or_fault tomar_tabla ultimo_nombre crear_con_tabla
  crear_nuevo_nodo path tipo_de_archivo = do
    file_name ← or_fault (ultimo_nombre (string_split path))
    tomar_tabla
    crear_con_tabla path file_name tipo_de_archivo

  -- The new parent of a node: the root and the node 0 are told apart no more.
  unfoldable pub padre_nuevo : Disco → ℤ → ℕ
  unfolding bloque_de_nodo
  padre_nuevo d (pos zero) = 0
  padre_nuevo d (pos (suc n)) = bloque_de_nodo d (pos (suc n))
  padre_nuevo d (negsuc e) = bloque_de_nodo d (negsuc e)

  -- `renombrar_archivo` behind its tests.
  unfoldable pub mover_nodo : ℤ → Cadena → ℤ → Cmd Disco ℤ
  unfolding ◌>>=◌ ◌>>◌ pure gets tomar_tabla soltar_tabla nodo_valido poner_nombre cambiar_nodo
      padre_nuevo
  mover_nodo nodo file_name nodo_nuevo_padre = do
    tomar_tabla
    n ← nodo_valido nodo
    poner_nombre n file_name
    padre ← gets λ d. padre_nuevo d nodo_nuevo_padre
    cambiar_nodo n (λ g. record g { parent_dir_block = padre })
    soltar_tabla
    pure (pos 0)

  -- The parameter `path` is not used by the code.
  unfoldable pub renombrar_archivo : ℤ → Cadena → Cmd Disco ℤ
  unfolding ◌>>=◌ ◌>>◌ pure gets validar_si_ya_existe_otro determine_nodo mover_nodo
  renombrar_archivo nodo nuevo_path = do
    let file_name = basename nuevo_path
    existencia_de_otro ← gets λ d. validar_si_ya_existe_otro d nuevo_path file_name
    elim existencia_de_otro [
      | negsuc e ↦ pure (negsuc e)
      | pos n ↦ (do
        nodo_nuevo_padre ← gets λ d. determine_nodo d (dirname nuevo_path)
        elim nodo_nuevo_padre [
          | negsuc e ↦ pure (negsuc 0)
          | pos p ↦ mover_nodo nodo file_name (pos p)
        ])
    ]
