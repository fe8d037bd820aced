-- ===== src/Sac/Nodos/Camino.antt =====
-- What `determine_nodo` of filesystem/sac_handlers.c promises.
use tp_sistemas_operativos.Base.{ℕ, ◌+◌, ◌≡◌, ◌↔◌, sym, ap, ◌∙◌, inl, inr, List, [], ◌∷◌, arith}
use tp_sistemas_operativos.Base.Int.{pos, negsuc, ◌-ℤ◌}
use tp_sistemas_operativos.Sac.Disco.{Bitarrays, Rutas, Disco, Cadena}
use tp_sistemas_operativos.Sac.Nodos.{
  buscar_nodo_por_nombre, bloque_de_nodo, bajar, determinar, determine_nodo,
}
use tp_sistemas_operativos.Sac.Nodos.Busqueda.{
  EsHijo, BienFormado, buscar-EsHijo, buscar-encuentra, buscar-cases, bloque_de_nodo-pos,
  bloque_de_nodo-menos_uno,
}

module _ ⦃c : Bitarrays⦄ where
  -- From a parent, the names lead to a node: each is that of a child of the one before.
  pub data Llega (d : Disco) : ℕ → List Cadena → ℕ → Type 0 where
    llega :
        {padre n : ℕ} {nombre : Cadena} → EsHijo d padre nombre n → Llega d padre (nombre ∷ []) n
    sigue :
        {padre m n : ℕ} {nombre otro : Cadena} {resto : List Cadena}
        → EsHijo d padre nombre m
        → Llega d (m + d.bloque_inicio_tabla_de_nodos) (otro ∷ resto) n
        → Llega d padre (nombre ∷ otro ∷ resto) n

  restar : (m i : ℕ) → pos (m + i) -ℤ pos i ≡ pos m
  unfolding ◌-ℤ◌
  restar m i = ground arith

  bajar-pos :
      (d : Disco) (padre m : ℕ) (nombre : Cadena) (resto : List Cadena)
      → buscar_nodo_por_nombre d nombre padre ≡ pos m
      → bajar d padre (nombre ∷ resto) ≡ bajar d (bloque_de_nodo d (pos m)) resto
  unfolding bajar
  bajar-pos d padre m nombre resto e =
      ap (λ z. elim z [ negsuc k ↦ negsuc 0 | pos n ↦ bajar d (bloque_de_nodo d (pos n)) resto ]) e

  bajar-negsuc :
      (d : Disco) (padre : ℕ) (nombre : Cadena) (resto : List Cadena)
      → buscar_nodo_por_nombre d nombre padre ≡ negsuc 0
      → bajar d padre (nombre ∷ resto) ≡ negsuc 0
  unfolding bajar
  bajar-negsuc d padre nombre resto e =
      ap (λ z. elim z [ negsuc k ↦ negsuc 0 | pos n ↦ bajar d (bloque_de_nodo d (pos n)) resto ]) e

  -- One step down.
  bajar-hijo :
      (d : Disco) (padre m : ℕ) (nombre : Cadena) (resto : List Cadena)
      → BienFormado d
      → buscar_nodo_por_nombre d nombre padre ≡ pos m
      → bajar d padre (nombre ∷ resto) ≡ bajar d (m + d.bloque_inicio_tabla_de_nodos) resto
  bajar-hijo d padre m nombre resto (a, b, p, u) e =
      bajar-pos d padre m nombre resto e
      ∙ ap (λ k. bajar d k resto) (bloque_de_nodo-pos d m ((buscar-EsHijo d nombre padre m e).0) b)

  bajar-vacio : (d : Disco) (m : ℕ) → bajar d (m + d.bloque_inicio_tabla_de_nodos) [] ≡ pos m
  unfolding bajar
  bajar-vacio d m = restar m d.bloque_inicio_tabla_de_nodos

  bajar-completo :
      (d : Disco) (padre n : ℕ) (nombres : List Cadena)
      → BienFormado d
      → Llega d padre nombres n
      → bajar d padre nombres ≡ pos n
  bajar-completo d padre n nombres w (llega {nombre = s} h) =
      bajar-hijo d padre n s [] w (buscar-encuentra d s padre n (w.3) h) ∙ bajar-vacio d n
  bajar-completo d padre n nombres w (sigue {m = m} {nombre = s} {otro = t} {resto = l} h k) =
      bajar-hijo d padre m s (t ∷ l) w (buscar-encuentra d s padre m (w.3) h)
      ∙ bajar-completo d (m + d.bloque_inicio_tabla_de_nodos) n (t ∷ l) w k

  bajar-correcto :
      (d : Disco) (padre n : ℕ) (nombre : Cadena) (resto : List Cadena)
      → BienFormado d
      → bajar d padre (nombre ∷ resto) ≡ pos n
      → Llega d padre (nombre ∷ resto) n
  bajar-correcto d padre n nombre [] w e = elim (buscar-cases d nombre padre) [
    | inl f ↦ absurd (ground (arith, e, bajar-negsuc d padre nombre [] f))
    | inr (m, f) ↦
        let g = sym (bajar-hijo d padre m nombre [] w f ∙ bajar-vacio d m) ∙ e in
        llega (buscar-EsHijo d nombre padre n (f ∙ g))
  ]
  bajar-correcto d padre n nombre (otro ∷ resto) w e = elim (buscar-cases d nombre padre) [
    | inl f ↦ absurd (ground (arith, e, bajar-negsuc d padre nombre (otro ∷ resto) f))
    | inr (m, f) ↦ sigue (buscar-EsHijo d nombre padre m f) (
        bajar-correcto d (m + d.bloque_inicio_tabla_de_nodos) n otro resto w
          (sym (bajar-hijo d padre m nombre (otro ∷ resto) w f) ∙ e))
  ]

  -- Below the block in front of the table there is nothing.
  sin_hijos :
      (d : Disco) (n : ℕ) (nombre : Cadena)
      → BienFormado d
      → ¬ EsHijo d (bloque_de_nodo d (negsuc 0)) nombre n
  sin_hijos d n nombre (a, b, p, u) (h, usado, pa, f) =
      absurd (omega (arith, p n h usado, bloque_de_nodo-menos_uno d a b, pa, a))

  Llega-primero :
      (d : Disco) (padre n : ℕ) (nombre : Cadena) (resto : List Cadena)
      → Llega d padre (nombre ∷ resto) n
      → (m : ℕ) × EsHijo d padre nombre m
  Llega-primero d padre n nombre resto (llega h) = (n, h)
  Llega-primero d padre n nombre resto (sigue {m = m} h k) = (m, h)

  determinar-correcto :
      (d : Disco) (n : ℕ) (nombre : Cadena) (resto : List Cadena)
      → BienFormado d
      → determinar d (nombre ∷ resto) ≡ pos n
      → Llega d 0 (nombre ∷ resto) n
  unfolding determinar
  determinar-correcto d n nombre [] w e = llega (buscar-EsHijo d nombre 0 n e)
  determinar-correcto d n nombre (otro ∷ resto) w e = elim (buscar-cases d nombre 0) [
    | inl f ↦
        let k = Llega-primero d _ n otro resto (
          bajar-correcto d (bloque_de_nodo d (negsuc 0)) n otro resto w
            (ap (λ z. bajar d (bloque_de_nodo d z) (otro ∷ resto)) (sym f) ∙ e)) in
        absurd (sin_hijos d k.0 otro w k.1)
    | inr (m, f) ↦
        let h = buscar-EsHijo d nombre 0 m f in
        sigue h (
          bajar-correcto d (m + d.bloque_inicio_tabla_de_nodos) n otro resto w (
            ap (λ k. bajar d k (otro ∷ resto)) (sym (bloque_de_nodo-pos d m (h.0) (w.1)))
            ∙ ap (λ z. bajar d (bloque_de_nodo d z) (otro ∷ resto)) (sym f)
            ∙ e))
  ]

  pub determinar-completo :
      (d : Disco) (n : ℕ) (nombre : Cadena) (resto : List Cadena)
      → BienFormado d
      → Llega d 0 (nombre ∷ resto) n
      → determinar d (nombre ∷ resto) ≡ pos n
  unfolding determinar
  determinar-completo d n nombre resto w (llega h) = buscar-encuentra d nombre 0 n (w.3) h
  determinar-completo d n nombre resto w (sigue {m = m} {otro = t} {resto = l} h k) =
      ap (λ z. bajar d (bloque_de_nodo d z) (t ∷ l)) (buscar-encuentra d nombre 0 m (w.3) h)
      ∙ ap (λ b. bajar d b (t ∷ l)) (bloque_de_nodo-pos d m (h.0) (w.1))
      ∙ bajar-completo d (m + d.bloque_inicio_tabla_de_nodos) n (t ∷ l) w k

module _ ⦃c : Bitarrays⦄ ⦃r : Rutas⦄ where
  open r use {string_split}

  -- In a table that is well formed, `determine_nodo` answers `n` for a path that has a name exactly
  -- when the names of the path lead from the root to the node `n`.
  pub determine_nodo-Llega :
      (d : Disco) (path : Cadena) (nombre : Cadena) (resto : List Cadena) (n : ℕ)
      → BienFormado d
      → string_split path ≡ nombre ∷ resto
      → (determine_nodo d path ≡ pos n) ↔ Llega d 0 (nombre ∷ resto) n
  unfolding determine_nodo
  determine_nodo-Llega d path nombre resto n w e = (
    λ h. determinar-correcto d n nombre resto w (ap (determinar d) (sym e) ∙ h),
    λ h. ap (determinar d) e ∙ determinar-completo d n nombre resto w h,
  )
