-- ===== src/Sac/Nodos/Igual.antt =====
-- `determine_nodo` of filesystem/sac_handlers.c looks at the states, the parents and the names of
-- the nodes alone.
use tp_sistemas_operativos.Base.{
  put, ==_iff, Bool-cases, inl, inr, ℕ, zero, suc, ◌+◌, ◌≡◌, refl, sym, ap, ◌∙◌, ◌&&◌, not, List,
  [], ◌∷◌, ◌==◌, if◌then◌else◌,
}
use tp_sistemas_operativos.Base.Int.{ℤ, pos, negsuc, ◌+ℤ◌, ◌-ℤ◌}
use tp_sistemas_operativos.Sac.Disco.{Bitarrays, Rutas, Disco, Gfile, Cadena, max_number_of_files}
use tp_sistemas_operativos.Sac.Bloques.{con_nodo}
use tp_sistemas_operativos.Sac.Ordenes.{a_uint32}
use tp_sistemas_operativos.Sac.Nodos.{
  mismo_texto, es_el_nodo_buscado, buscar_desde, buscar_nodo_por_nombre, bloque_de_nodo, bajar,
  determinar, determine_nodo,
}

module _ ⦃c : Bitarrays⦄ where
  -- Two tables with the same states, parents and names at the same place.
  abbrev pub MismosNodos : Disco → Disco → Type 0
  MismosNodos d d' =
      ((n : ℕ) → (d'.tabla_de_nodos n).state ≡ (d.tabla_de_nodos n).state)
      × ((n : ℕ) → (d'.tabla_de_nodos n).parent_dir_block ≡ (d.tabla_de_nodos n).parent_dir_block)
      × ((n : ℕ) → (d'.tabla_de_nodos n).fname ≡ (d.tabla_de_nodos n).fname)
      × (d'.bloque_inicio_tabla_de_nodos ≡ d.bloque_inicio_tabla_de_nodos)

  put-campo :
      {A : Type 0} (f : Gfile → A) (t : ℕ → Gfile) (n : ℕ) (g : Gfile) (j : ℕ)
      → f g ≡ f (t n)
      → f (put t n g j) ≡ f (t j)
  put-campo f t n g j e = elim (Bool-cases (j == n)) [
    | inl h ↦ rw h (e ∙ ap (λ i. f (t i)) (sym ((==_iff j n).0 h)))
    | inr h ↦ rw h refl
  ]

  -- A change of a node that keeps its state, its parent and its name.
  pub con_nodo-MismosNodos :
      (d : Disco) (n : ℕ) (g : Gfile)
      → g.state ≡ (d.tabla_de_nodos n).state
      → g.parent_dir_block ≡ (d.tabla_de_nodos n).parent_dir_block
      → g.fname ≡ (d.tabla_de_nodos n).fname
      → MismosNodos d (con_nodo d n g)
  con_nodo-MismosNodos d n g a b f = (
    λ j. put-campo (λ x. x.state) d.tabla_de_nodos n g j a,
    λ j. put-campo (λ x. x.parent_dir_block) d.tabla_de_nodos n g j b,
    λ j. put-campo (λ x. x.fname) d.tabla_de_nodos n g j f,
    refl,
  )

  pub MismosNodos-trans : (d e f : Disco) → MismosNodos d e → MismosNodos e f → MismosNodos d f
  MismosNodos-trans d e f h k =
      (λ j. k.0 j ∙ h.0 j, λ j. k.1 j ∙ h.1 j, λ j. k.2 j ∙ h.2 j, k.3 ∙ h.3)

  es_el_nodo_buscado-igual :
      (d d' : Disco) (n p : ℕ) (s : Cadena)
      → MismosNodos d d'
      → es_el_nodo_buscado d' n s p ≡ es_el_nodo_buscado d n s p
  unfolding es_el_nodo_buscado
  es_el_nodo_buscado-igual d d' n p s (a, b, f, i) =
      λ k. not (a n k == 0) && (b n k == p) && mismo_texto (f n k) s

  buscar_desde-igual :
      (d d' : Disco) (s : Cadena) (p i q : ℕ)
      → MismosNodos d d'
      → buscar_desde d' s p i q ≡ buscar_desde d s p i q
  unfolding buscar_desde
  buscar_desde-igual d d' s p i zero h = refl
  buscar_desde-igual d d' s p i (suc q) h = λ k.
      if es_el_nodo_buscado-igual d d' i p s h k
      then pos i
      else buscar_desde-igual d d' s p (i + 1) q h k

  buscar-igual :
      (d d' : Disco) (s : Cadena) (p : ℕ)
      → MismosNodos d d'
      → buscar_nodo_por_nombre d' s p ≡ buscar_nodo_por_nombre d s p
  unfolding buscar_nodo_por_nombre
  buscar-igual d d' s p h = buscar_desde-igual d d' s p 0 max_number_of_files h

  bloque_de_nodo-igual :
      (d d' : Disco) (n : ℤ) → MismosNodos d d' → bloque_de_nodo d' n ≡ bloque_de_nodo d n
  unfolding bloque_de_nodo
  bloque_de_nodo-igual d d' n (a, b, f, i) = ap (λ z. a_uint32 (n +ℤ pos z)) i

  bajar-igual :
      (d d' : Disco) (l : List Cadena) (p : ℕ) → MismosNodos d d' → bajar d' p l ≡ bajar d p l
  unfolding bajar
  bajar-igual d d' [] p (a, b, f, i) = ap (λ z. pos p -ℤ pos z) i
  bajar-igual d d' (s ∷ l) p h =
      let f : ℤ → ℤ = elim [
        | negsuc e ↦ negsuc 0
        | pos n ↦ bajar d' (bloque_de_nodo d' (pos n)) l
      ] in
      ap f (buscar-igual d d' s p h)
      ∙ segun (buscar_nodo_por_nombre d s p) (λ n.
        ap (λ z. bajar d' z l) (bloque_de_nodo-igual d d' (pos n) h)
        ∙ bajar-igual d d' l (bloque_de_nodo d (pos n)) h)
    where
      segun :
          (z : ℤ)
          → ((n : ℕ)
              → bajar d' (bloque_de_nodo d' (pos n)) l ≡ bajar d (bloque_de_nodo d (pos n)) l)
          → let f : ℤ → ℤ = elim [
            | negsuc e ↦ negsuc 0
            | pos n ↦ bajar d' (bloque_de_nodo d' (pos n)) l
          ] in
            let g : ℤ → ℤ = elim [
              | negsuc e ↦ negsuc 0
              | pos n ↦ bajar d (bloque_de_nodo d (pos n)) l
            ] in
            f z ≡ g z
      segun (pos n) e = e n
      segun (negsuc k) e = refl

  determinar-igual :
      (d d' : Disco) (l : List Cadena) → MismosNodos d d' → determinar d' l ≡ determinar d l
  unfolding determinar
  determinar-igual d d' [] h = refl
  determinar-igual d d' (s ∷ []) h = buscar-igual d d' s 0 h
  determinar-igual d d' (s ∷ t ∷ l) h =
      ap (λ z. bajar d' (bloque_de_nodo d' z) (t ∷ l)) (buscar-igual d d' s 0 h)
      ∙ ap (λ z. bajar d' z (t ∷ l)) (bloque_de_nodo-igual d d' (buscar_nodo_por_nombre d s 0) h)
      ∙ bajar-igual d d' (t ∷ l) (bloque_de_nodo d (buscar_nodo_por_nombre d s 0)) h

module _ ⦃c : Bitarrays⦄ ⦃r : Rutas⦄ where
  open r use {string_split}

  pub determine_nodo-igual :
      (d d' : Disco) (path : Cadena)
      → MismosNodos d d'
      → determine_nodo d' path ≡ determine_nodo d path
  unfolding determine_nodo
  determine_nodo-igual d d' path h = determinar-igual d d' (string_split path) h
