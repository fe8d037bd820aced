-- ===== src/Sac/Nodos.antt =====
-- The functions of filesystem/sac_handlers.c that find nodes by their names.
pub mod Crear
pub mod Busqueda
pub mod Camino
pub mod Igual
pub mod Nuevo
pub mod Directorio
pub mod Mkdir
use tp_sistemas_operativos.Base.{
  ℕ, zero, suc, ◌+◌, ◌-◌, Bool, true, false, ◌&&◌, not, List, [], ◌∷◌, ◌++◌, ◌==◌, if◌then◌else◌,
  length,
}
use tp_sistemas_operativos.Base.Int.{ℤ, pos, negsuc, ◌+ℤ◌, ◌-ℤ◌}
use tp_sistemas_operativos.Sac.Disco.{Bitarrays, Rutas, Disco, Cadena, max_number_of_files}
use tp_sistemas_operativos.Sac.Ordenes.{a_uint32}

-- `!strcmp(a, b)`.
unfoldable pub mismo_texto : Cadena → Cadena → Bool
mismo_texto [] [] = true
mismo_texto [] (y ∷ ys) = false
mismo_texto (x ∷ xs) [] = false
mismo_texto (x ∷ xs) (y ∷ ys) = (x == y) && mismo_texto xs ys

-- The `for` of `tamano_malloc_list`.
unfoldable pub tamano_malloc_list : List Cadena → ℕ
tamano_malloc_list [] = 0
tamano_malloc_list (nombre ∷ resto) = length nombre + 1 + tamano_malloc_list resto

-- The `for` of `lista_a_string`: "/" and the next name.
unfoldable pub pegar_nombres : List Cadena → Cadena
pegar_nombres [] = []
pegar_nombres (nombre ∷ resto) = 47 ∷ (nombre ++ pegar_nombres resto)

-- An empty list leaves the block of `malloc` as it is, which nobody reads then.
unfoldable pub lista_a_string : List Cadena → Cadena
unfolding pegar_nombres
lista_a_string [] = []
lista_a_string (nombre ∷ resto) = nombre ++ pegar_nombres resto

module _ ⦃c : Bitarrays⦄ where
  unfoldable pub es_el_nodo_buscado : Disco → ℕ → Cadena → ℕ → Bool
  unfolding mismo_texto
  es_el_nodo_buscado d nodo filename nodo_padre =
      let g = d.tabla_de_nodos nodo in
      not (g.state == 0) && (g.parent_dir_block == nodo_padre) && mismo_texto g.fname filename

  -- The `for` of `buscar_nodo_por_nombre`, with the rounds left.
  unfoldable pub buscar_desde : Disco → Cadena → ℕ → ℕ → ℕ → ℤ
  buscar_desde d filename nodo_padre i zero = negsuc 0
  buscar_desde d filename nodo_padre i (suc quedan) =
      let sigue = buscar_desde d filename nodo_padre (i + 1) quedan in
      if es_el_nodo_buscado d i filename nodo_padre then pos i else sigue

  unfoldable pub buscar_nodo_por_nombre : Disco → Cadena → ℕ → ℤ
  unfolding buscar_desde
  buscar_nodo_por_nombre d filename nodo_padre =
      buscar_desde d filename nodo_padre 0 max_number_of_files

  -- `nodo + bloqueInicioTablaDeNodos`, as a block number.
  unfoldable pub bloque_de_nodo : Disco → ℤ → ℕ
  unfolding a_uint32
  bloque_de_nodo d nodo = a_uint32 (nodo +ℤ pos d.bloque_inicio_tabla_de_nodos)

  -- The `for` of `determine_nodo` behind the first name.
  unfoldable pub bajar : Disco → ℕ → List Cadena → ℤ
  bajar d ultimo_padre [] = pos ultimo_padre -ℤ pos d.bloque_inicio_tabla_de_nodos
  bajar d ultimo_padre (nombre ∷ resto) = elim (buscar_nodo_por_nombre d nombre ultimo_padre) [
    | negsuc e ↦ negsuc 0
    | pos n ↦ bajar d (bloque_de_nodo d (pos n)) resto
  ]

  -- `determine_nodo`, with the names that `string_split` gives. The first of several names is not
  -- tested for -1.
  unfoldable pub determinar : Disco → List Cadena → ℤ
  unfolding bajar buscar_nodo_por_nombre bloque_de_nodo
  determinar d [] = pos 0
  determinar d (nombre ∷ []) = buscar_nodo_por_nombre d nombre 0
  determinar d (nombre ∷ otro ∷ resto) =
      bajar d (bloque_de_nodo d (buscar_nodo_por_nombre d nombre 0)) (otro ∷ resto)

  -- The `for` of `completar_lista_con_fileNames`, with the rounds left.
  unfoldable pub completar_desde : Disco → ℕ → ℕ → ℕ → List Cadena
  completar_desde d nodo_padre i zero = []
  completar_desde d nodo_padre i (suc quedan) =
      let g = d.tabla_de_nodos i in
      let resto = completar_desde d nodo_padre (i + 1) quedan in
      if not (g.state == 0) && (g.parent_dir_block == nodo_padre) then g.fname ∷ resto else resto

  unfoldable pub completar_lista_con_file_names : Disco → ℕ → List Cadena
  unfolding completar_desde
  completar_lista_con_file_names d nodo_padre = completar_desde d nodo_padre 0 max_number_of_files

  -- The `for` of `validar_si_ya_existe_otro`: deleted nodes count too.
  unfoldable pub existe_desde : Disco → ℕ → Cadena → ℕ → ℕ → Bool
  unfolding mismo_texto
  existe_desde d bloque_padre file_name i zero = false
  existe_desde d bloque_padre file_name i (suc quedan) =
      let g = d.tabla_de_nodos i in
      let resto = existe_desde d bloque_padre file_name (i + 1) quedan in
      if (g.parent_dir_block == bloque_padre) && mismo_texto g.fname file_name then true else resto

-- `-EEXIST`.
abbrev pub menos_eexist : ℤ
menos_eexist = negsuc 16

module _ ⦃c : Bitarrays⦄ ⦃r : Rutas⦄ where
  open r use {string_split, dirname}

  unfoldable pub determine_nodo : Disco → Cadena → ℤ
  unfolding determinar
  determine_nodo d path = determinar d (string_split path)

  unfoldable pub validar_si_ya_existe_otro : Disco → Cadena → Cadena → ℤ
  unfolding existe_desde bloque_de_nodo determine_nodo
  validar_si_ya_existe_otro d path file_name =
      let bloque_padre = bloque_de_nodo d (determine_nodo d (dirname path)) in
      if existe_desde d bloque_padre file_name 0 max_number_of_files then menos_eexist else pos 0
