-- ===== src/Sac/Nodos/Directorio.antt =====
-- The directory of a path in the table of nodes of filesystem/sac_handlers.c, and a new node in it.
use tp_sistemas_operativos.Base.{
  ℕ, zero, suc, ◌+◌, ◌≤◌, ◌≡◌, refl, sym, ap, subst, ◌∙◌, ◌⊎◌, inl, inr, true, List, [], ◌∷◌, ◌++◌,
  ◌==◌, if◌then◌else◌, arith,
}
use tp_sistemas_operativos.Sac.Disco.{Bitarrays, Disco, Cadena}
use tp_sistemas_operativos.Sac.Nodos.{bloque_de_nodo, determinar}
use tp_sistemas_operativos.Sac.Nodos.Crear.{nodo_sin_uso}
use tp_sistemas_operativos.Sac.Nodos.Busqueda.{EsHijo, BienFormado, bloque_de_nodo-pos}
use tp_sistemas_operativos.Sac.Nodos.Camino.{Llega, llega, determinar-completo}
use tp_sistemas_operativos.Sac.Nodos.Nuevo.{
  ConNuevo, ConNuevo-Conserva, Llega-Conserva, Llega-snoc, Llega-rango,
}

module _ ⦃c : Bitarrays⦄ where
  -- The block of the directory that names lead to, and the one that `validar_si_ya_existe_otro`
  -- compares with: for the root this is that of the node 0.
  pub data Directorio (d : Disco) : List Cadena → ℕ → ℕ → Type 0 where
    es_raiz : Directorio d [] 0 d.bloque_inicio_tabla_de_nodos
    es_nodo :
        {nombre : Cadena} {resto : List Cadena} {m : ℕ}
        → Llega d 0 (nombre ∷ resto) m
        → Directorio d
            (nombre ∷ resto)
            (m + d.bloque_inicio_tabla_de_nodos)
            (m + d.bloque_inicio_tabla_de_nodos)

  abbrev pub con_tabla_tomada : Disco → Disco
  con_tabla_tomada d = record d { s_tabla_de_nodos = true }

  pub nodo_sin_uso-tabla :
      (d : Disco) (i q : ℕ) → nodo_sin_uso (con_tabla_tomada d) i q ≡ nodo_sin_uso d i q
  unfolding nodo_sin_uso
  nodo_sin_uso-tabla d i zero = refl
  nodo_sin_uso-tabla d i (suc q) =
      ap (λ z. if (d.tabla_de_nodos i).state == 0 then i else z) (nodo_sin_uso-tabla d (i + 1) q)

  pub Directorio-tabla :
      (d : Disco) (nombres : List Cadena) (padre validado : ℕ)
      → Directorio d nombres padre validado
      → Directorio (con_tabla_tomada d) nombres padre validado
  Directorio-tabla d nombres padre validado es_raiz = es_raiz
  Directorio-tabla d nombres padre validado (es_nodo {m = m} h) =
      es_nodo (Llega-Conserva d (con_tabla_tomada d) 0 m nombres (λ p s n g. g) refl h)

  pub Directorio-lugar :
      (d : Disco) (nombres : List Cadena) (padre validado : ℕ)
      → Directorio d nombres padre validado
      → (padre ≡ 0) ⊎ (d.bloque_inicio_tabla_de_nodos ≤ padre)
  Directorio-lugar d nombres padre validado es_raiz = inl refl
  Directorio-lugar d nombres padre validado (es_nodo h) = inr (omega arith)

  -- The names of the directory and one more lead to the new node.
  pub Directorio-nuevo :
      (d d' : Disco) (nombres : List Cadena) (padre validado k : ℕ) (nombre : Cadena)
      → Directorio d nombres padre validado
      → ConNuevo d d' k padre nombre
      → Llega d' 0 (nombres ++ nombre ∷ []) k
  Directorio-nuevo d d' nombres padre validado k nombre es_raiz nuevo = llega (nuevo.3)
  Directorio-nuevo d d' nombres padre validado k nombre (es_nodo {m = m} h) nuevo =
      Llega-snoc d' 0 m k nombres nombre
        (Llega-Conserva d d' 0 m nombres (ConNuevo-Conserva d d' k padre nombre nuevo) (nuevo.1) h)
        (subst (λ i. EsHijo d' (m + i) nombre k) (sym (nuevo.1)) (nuevo.3))

  pub Directorio-validado :
      (d : Disco) (nombres : List Cadena) (padre validado : ℕ)
      → BienFormado d
      → Directorio d nombres padre validado
      → bloque_de_nodo d (determinar d nombres) ≡ validado
  unfolding determinar
  Directorio-validado d nombres padre validado w es_raiz =
      bloque_de_nodo-pos d 0 (omega arith) (w.1) ∙ omega arith
  Directorio-validado d nombres padre validado w (es_nodo {nombre = s} {resto = l} {m = m} h) =
      ap (bloque_de_nodo d) (determinar-completo d m s l w h)
      ∙ bloque_de_nodo-pos d m (Llega-rango d 0 m nombres h) (w.1)
