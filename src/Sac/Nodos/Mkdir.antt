-- ===== src/Sac/Nodos/Mkdir.antt =====
-- What `crear_nuevo_nodo` of filesystem/sac_handlers.c promises of a new directory.
use tp_sistemas_operativos.Base.{
  ℕ, suc, ◌<◌, ◌≡◌, refl, sym, ap, ◌∙◌, true, false, List, [], ◌∷◌, ◌++◌, ◌==◌, ==_refl, ltb, leb,
  if◌then◌else◌, length, arith,
}
use tp_sistemas_operativos.Base.Int.{pos}
use tp_sistemas_operativos.Comandos.{ok, fault, gets, modify, or_fault, pure, ◌>>=◌, ◌>>◌}
use tp_sistemas_operativos.Comandos.Eval.{bind-ok, then-ok, if-false}
use tp_sistemas_operativos.Sac.Disco.{
  Bitarrays, Rutas, Disco, Gfile, Cadena, max_number_of_files, max_name_size,
}
use tp_sistemas_operativos.Sac.Bloques.{con_nodo}
use tp_sistemas_operativos.Sac.Ordenes.{tomar_tabla, tomar_si, soltar_tabla, cambiar_nodo}
use tp_sistemas_operativos.Sac.Nodos.{
  existe_desde, bloque_de_nodo, determinar, determine_nodo, validar_si_ya_existe_otro, menos_eexist,
}
use tp_sistemas_operativos.Sac.Nodos.Crear.{
  nodo_sin_uso, ultimo_nombre, poner_nombre, primer_bloque, leer_reloj, bloque_del_padre,
  llenar_nodo, si_no_existe, crear_en, crear_con_tabla, crear_nuevo_nodo, edquot,
}
use tp_sistemas_operativos.Sac.Nodos.Busqueda.{BienFormado}
use tp_sistemas_operativos.Sac.Nodos.Camino.{Llega, determinar-completo}
use tp_sistemas_operativos.Sac.Nodos.Nuevo.{
  ConNuevo, ConNuevo-BienFormado, nodo_sin_uso-libre, Ninguno, existe_desde-Ninguno,
  ultimo_nombre-snoc,
}
use tp_sistemas_operativos.Sac.Nodos.Directorio.{
  Directorio, es_raiz, es_nodo, con_tabla_tomada, nodo_sin_uso-tabla, Directorio-tabla,
  Directorio-lugar, Directorio-nuevo, Directorio-validado,
}

module _ ⦃c : Bitarrays⦄ ⦃r : Rutas⦄ where
  open r use {string_split, dirname, time}

  abbrev con_cambio : Disco → ℕ → (Gfile → Gfile) → Disco
  con_cambio d k f = con_nodo d k (f (d.tabla_de_nodos k))

  abbrev con_lectura : Disco → Disco
  con_lectura d = record d { lecturas_reloj = suc d.lecturas_reloj }

  -- The table after a new directory, step by step.
  abbrev con_directorio : Disco → ℕ → ℕ → Cadena → Disco
  con_directorio d k padre nombre =
      let d1 = con_cambio d k (λ g. record g { fname = nombre }) in
      let d2 =
        con_cambio d1 k (λ g. record g { file_size = 0; parent_dir_block = padre; state = 2 }) in
      let d3 =
        con_cambio (con_lectura d2) k (λ g. record g { create_date = time d.lecturas_reloj }) in
      let d4 =
        con_cambio (con_lectura d3) k
          (λ g. record g { modify_date = time (suc d.lecturas_reloj) }) in
      record d4 { s_tabla_de_nodos = false }

  con_directorio-ConNuevo :
      (d : Disco) (k padre : ℕ) (nombre : Cadena)
      → k < max_number_of_files
      → ((d.tabla_de_nodos k).state == 0) ≡ true
      → ConNuevo d (con_directorio d k padre nombre) k padre nombre
  con_directorio-ConNuevo d k padre nombre h libre = (
    h,
    refl,
    libre,
    (h, rw (==_refl k) refl, rw (==_refl k) refl, rw (==_refl k) refl),
    λ n e. rw e refl,
  )

  poner_nombre-cabe :
      (d : Disco) (k : ℕ) (nombre : Cadena)
      → length nombre < max_name_size
      → poner_nombre k nombre d ≡ ok tt (con_cambio d k (λ g. record g { fname = nombre }))
  unfolding poner_nombre cambiar_nodo modify
  poner_nombre-cabe d k nombre h =
      ap (λ b. if b then ok tt (con_cambio d k (λ g. record g { fname = nombre })) else fault) cabe
    where
      cabe : ltb (length nombre) max_name_size ≡ true
      cabe = ground (arith, h)

  llenar_nodo-ok :
      (d : Disco) (k padre : ℕ) (nombre : Cadena)
      → length nombre < max_name_size
      → llenar_nodo k nombre padre 2 d ≡ ok (pos 0) (con_directorio d k padre nombre)
  unfolding llenar_nodo ◌>>◌ ◌>>=◌ leer_reloj cambiar_nodo modify soltar_tabla primer_bloque pure
  llenar_nodo-ok d k padre nombre h =
      then-ok (poner_nombre k nombre) _ d _ tt (poner_nombre-cabe d k nombre h)

  -- `crear_en` with the two results that it computes first.
  crear_en-ok :
      (d : Disco) (path nombre : Cadena) (k padre tipo : ℕ)
      → bloque_del_padre d path (string_split path) ≡ padre
      → validar_si_ya_existe_otro d path nombre ≡ pos 0
      → crear_en k path nombre tipo d ≡ llenar_nodo k nombre padre tipo d
  unfolding crear_en ◌>>=◌ gets si_no_existe
  crear_en-ok d path nombre k padre tipo p v =
      ap
        (λ z.
          si_no_existe z (llenar_nodo k nombre (bloque_del_padre d path (string_split path)) tipo)
            d)
        v
      ∙ ap (λ z. llenar_nodo k nombre z tipo d) p

  validar-Ninguno :
      (d : Disco) (path nombre : Cadena) (nombres : List Cadena) (validado : ℕ)
      → bloque_de_nodo d (determinar d nombres) ≡ validado
      → string_split (dirname path) ≡ nombres
      → Ninguno d validado nombre
      → validar_si_ya_existe_otro d path nombre ≡ pos 0
  unfolding validar_si_ya_existe_otro determine_nodo
  validar-Ninguno d path nombre nombres validado e f h =
      ap (λ v. if existe_desde d v nombre 0 1024 then menos_eexist else pos 0)
        (ap (λ l. bloque_de_nodo d (determinar d l)) f ∙ e)
      ∙ ap (λ b. if b then menos_eexist else pos 0)
          (existe_desde-Ninguno d validado 0 1024 nombre h (omega arith))

  bloque_del_padre-Directorio :
      (d : Disco) (path nombre : Cadena) (nombres : List Cadena) (padre validado : ℕ)
      → BienFormado d
      → string_split (dirname path) ≡ nombres
      → Directorio d nombres padre validado
      → bloque_del_padre d path (nombres ++ nombre ∷ []) ≡ padre
  unfolding bloque_del_padre determine_nodo
  bloque_del_padre-Directorio d path nombre nombres padre validado w e es_raiz = refl
  bloque_del_padre-Directorio d path nombre nombres padre validado w e
        (es_nodo {nombre = s} {resto = []} h) =
      ap (λ l. bloque_de_nodo d (determinar d l)) e
      ∙ Directorio-validado d nombres padre validado w (es_nodo h)
  bloque_del_padre-Directorio d path nombre nombres padre validado w e
        (es_nodo {nombre = s} {resto = t ∷ l} h) =
      ap (λ l. bloque_de_nodo d (determinar d l)) e
      ∙ Directorio-validado d nombres padre validado w (es_nodo h)

  no_llena : (k : ℕ) → k < max_number_of_files → leb max_number_of_files k ≡ false
  no_llena k h = ground (arith, h)

  crear_con_tabla-ok :
      (d : Disco) (path nombre : Cadena) (k tipo : ℕ)
      → nodo_sin_uso d 0 max_number_of_files ≡ k
      → k < max_number_of_files
      → crear_con_tabla path nombre tipo d ≡ crear_en k path nombre tipo d
  unfolding crear_con_tabla ◌>>=◌ gets
  crear_con_tabla-ok d path nombre k tipo e h =
      ap (λ z. (if leb max_number_of_files z then pure edquot else crear_en z path nombre tipo) d) e
      ∙ if-false _ (pure edquot) (crear_en k path nombre tipo) d (no_llena k h)

  crear_nuevo_nodo-tabla :
      (d : Disco) (path nombre : Cadena) (nombres : List Cadena) (tipo : ℕ)
      → d.s_tabla_de_nodos ≡ false
      → string_split path ≡ nombres ++ nombre ∷ []
      → crear_nuevo_nodo path tipo d ≡ crear_con_tabla path nombre tipo (con_tabla_tomada d)
  unfolding crear_nuevo_nodo tomar_tabla or_fault
  crear_nuevo_nodo-tabla d path nombre nombres tipo suelta e =
      bind-ok (or_fault (ultimo_nombre (string_split path)))
        (λ f. tomar_tabla >> crear_con_tabla path f tipo) d d nombre
        (ap (λ l. or_fault (ultimo_nombre l) d) e
          ∙ ap (λ o. or_fault o d) (ultimo_nombre-snoc nombres nombre))
      ∙ then-ok tomar_tabla (crear_con_tabla path nombre tipo) d (con_tabla_tomada d) tt
          (ap (λ b. tomar_si b (con_tabla_tomada d)) suelta)

  crear_nuevo_nodo-pasos :
      (d : Disco) (path nombre : Cadena) (nombres : List Cadena) (padre validado k : ℕ)
      → BienFormado d
      → d.s_tabla_de_nodos ≡ false
      → nodo_sin_uso d 0 max_number_of_files ≡ k
      → k < max_number_of_files
      → string_split path ≡ nombres ++ nombre ∷ []
      → string_split (dirname path) ≡ nombres
      → Directorio (con_tabla_tomada d) nombres padre validado
      → length nombre < max_name_size
      → Ninguno d validado nombre
      → crear_nuevo_nodo path 2 d ≡ ok (pos 0) (con_directorio (con_tabla_tomada d) k padre nombre)
  crear_nuevo_nodo-pasos d path nombre nombres padre validado k w suelta ek hk ep ed dirt cabe nv =
      let dt = con_tabla_tomada d in
      crear_nuevo_nodo-tabla d path nombre nombres 2 suelta ep
      ∙ crear_con_tabla-ok dt path nombre k 2 (nodo_sin_uso-tabla d 0 1024 ∙ ek) hk
      ∙ crear_en-ok dt path nombre k padre 2
          (ap (bloque_del_padre dt path) ep
            ∙ bloque_del_padre-Directorio dt path nombre nombres padre validado w ed dirt)
          (validar-Ninguno dt path nombre nombres validado
            (Directorio-validado dt nombres padre validado w dirt) ed nv)
      ∙ llenar_nodo-ok dt k padre nombre cabe

  camino :
      (d : Disco) (path nombre : Cadena) (nombres : List Cadena) (k : ℕ)
      → string_split path ≡ nombres ++ nombre ∷ []
      → BienFormado d
      → Llega d 0 (nombres ++ nombre ∷ []) k
      → determine_nodo d path ≡ pos k
  unfolding determine_nodo
  camino d path nombre [] k e w h = ap (determinar d) e ∙ determinar-completo d k nombre [] w h
  camino d path nombre (s ∷ l) k e w h =
      ap (determinar d) e ∙ determinar-completo d k s (l ++ nombre ∷ []) w h

  -- In a table that is well formed, with `s_tablaDeNodos` free, a node `k` that is not in use as the
  -- first one, a path whose directory is the root or a node that its names lead to, and a last name
  -- that fits and that no node has (deleted ones included) in this directory nor in the one that
  -- `validar_si_ya_existe_otro` takes for it: `crear_nuevo_nodo` returns 0 for a directory, the
  -- table is well formed again, `determine_nodo` finds at the path the node `k`, which is a
  -- directory, and `s_tablaDeNodos` is free.
  pub crear_nuevo_nodo-determine_nodo :
      (d : Disco) (path nombre : Cadena) (nombres : List Cadena) (padre validado k : ℕ)
      → BienFormado d
      → d.s_tabla_de_nodos ≡ false
      → nodo_sin_uso d 0 max_number_of_files ≡ k
      → k < max_number_of_files
      → string_split path ≡ nombres ++ nombre ∷ []
      → string_split (dirname path) ≡ nombres
      → Directorio d nombres padre validado
      → length nombre < max_name_size
      → Ninguno d padre nombre
      → Ninguno d validado nombre
      → (d' : Disco) × (crear_nuevo_nodo path 2 d ≡ ok (pos 0) d')
        × BienFormado d'
        × (determine_nodo d' path ≡ pos k)
        × ((d'.tabla_de_nodos k).state ≡ 2)
        × (d'.s_tabla_de_nodos ≡ false)
  crear_nuevo_nodo-determine_nodo d path nombre nombres padre validado k w suelta ek hk ep ed dir
        cabe np nv =
      let dt = con_tabla_tomada d in
      let d' = con_directorio dt k padre nombre in
      let libre =
        ap (λ z. (d.tabla_de_nodos z).state == 0) (sym ek)
        ∙ nodo_sin_uso-libre d 0 1024 (omega (arith, ek, hk)) in
      let nuevo = con_directorio-ConNuevo dt k padre nombre hk libre in
      let dirt = Directorio-tabla d nombres padre validado dir in
      let wt : BienFormado dt = w in
      let w' =
        ConNuevo-BienFormado dt d' k padre nombre wt nuevo (λ n h. np n (h.0) (h.2) (h.3))
          (Directorio-lugar dt nombres padre validado dirt) in
      (
        d',
        crear_nuevo_nodo-pasos d path nombre nombres padre validado k w suelta ek hk ep ed dirt cabe
            nv,
        w',
        camino d' path nombre nombres k ep w'
            (Directorio-nuevo dt d' nombres padre validado k nombre dirt nuevo),
        rw (==_refl k) refl,
        refl,
      )
