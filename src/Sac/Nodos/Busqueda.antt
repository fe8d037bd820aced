-- ===== src/Sac/Nodos/Busqueda.antt =====
-- What `buscar_nodo_por_nombre` of filesystem/sac_handlers.c finds in a table of nodes.
use tp_sistemas_operativos.Base.{
  ℕ, zero, suc, ◌+◌, ◌≤◌, ◌<◌, ◌≡◌, refl, sym, ap, ap₂, ◌∙◌, ◌⊎◌, inl, inr, Bool, true, false, [],
  ◌∷◌, ◌==◌, if◌then◌else◌, arith,
}
use tp_sistemas_operativos.Base.Int.{ℤ, pos, negsuc, ◌+ℤ◌}
use tp_sistemas_operativos.Sac.Disco.{Bitarrays, Disco, Cadena, max_number_of_files}
use tp_sistemas_operativos.Sac.Ordenes.{a_uint32}
use tp_sistemas_operativos.Sac.Nodos.{
  mismo_texto, es_el_nodo_buscado, buscar_desde, buscar_nodo_por_nombre, bloque_de_nodo,
}

pub mismo_texto-igual : (a b : Cadena) → mismo_texto a b ≡ true → a ≡ b
unfolding mismo_texto
mismo_texto-igual [] [] h = refl
mismo_texto-igual [] (y ∷ ys) h = absurd (ground (arith, h))
mismo_texto-igual (x ∷ xs) [] h = absurd (ground (arith, h))
mismo_texto-igual (x ∷ xs) (y ∷ ys) h =
    ap₂ ◌∷◌ (ground (arith, h)) (mismo_texto-igual xs ys (ground (arith, h)))

pub mismo_texto_refl : (a : Cadena) → mismo_texto a a ≡ true
unfolding mismo_texto
mismo_texto_refl [] = refl
mismo_texto_refl (x ∷ xs) = ground (arith, mismo_texto_refl xs)

module _ ⦃c : Bitarrays⦄ where
  -- A node that is in use, with its parent and its name.
  abbrev pub EsHijo : Disco → ℕ → Cadena → ℕ → Type 0
  EsHijo d padre nombre n =
      (n < max_number_of_files)
      × (((d.tabla_de_nodos n).state == 0) ≡ false)
      × ((d.tabla_de_nodos n).parent_dir_block ≡ padre)
      × ((d.tabla_de_nodos n).fname ≡ nombre)

  -- The table as the operations leave it: the table starts behind the header and at most 64 blocks
  -- of bitmap, a parent is 0 or a block of the table, and no two nodes in use share parent and name.
  abbrev pub BienFormado : Disco → Type 0
  BienFormado d =
      (2 ≤ d.bloque_inicio_tabla_de_nodos)
      × (d.bloque_inicio_tabla_de_nodos ≤ 65)
      × ((n : ℕ)
          → n < max_number_of_files
          → ((d.tabla_de_nodos n).state == 0) ≡ false
          → ((d.tabla_de_nodos n).parent_dir_block ≡ 0)
            ⊎ (d.bloque_inicio_tabla_de_nodos ≤ (d.tabla_de_nodos n).parent_dir_block))
      × ((padre : ℕ) (nombre : Cadena) (n m : ℕ)
          → EsHijo d padre nombre n
          → EsHijo d padre nombre m
          → n ≡ m)

  pub EsHijo-si :
      (d : Disco) (padre n : ℕ) (nombre : Cadena)
      → n < max_number_of_files
      → es_el_nodo_buscado d n nombre padre ≡ true
      → EsHijo d padre nombre n
  unfolding es_el_nodo_buscado
  EsHijo-si d padre n nombre h e =
      (h, ground (arith, e), ground (arith, e), mismo_texto-igual _ _ (ground (arith, e)))

  pub es_el_nodo_si :
      (d : Disco) (padre n : ℕ) (nombre : Cadena)
      → EsHijo d padre nombre n
      → es_el_nodo_buscado d n nombre padre ≡ true
  unfolding es_el_nodo_buscado
  es_el_nodo_si d padre n nombre (h, usado, p, f) = ground (
    arith,
    usado,
    p,
    ap (mismo_texto (d.tabla_de_nodos n).fname) (sym f),
    mismo_texto_refl (d.tabla_de_nodos n).fname,
  )

  -- A result of the search from `i` on with `q` rounds.
  abbrev Resultado : Disco → Cadena → ℕ → ℕ → ℕ → ℤ → Type 0
  Resultado d nombre padre i q (pos n) =
      (i ≤ n) × (n < i + q) × (es_el_nodo_buscado d n nombre padre ≡ true)
  Resultado d nombre padre i q (negsuc e) =
      (e ≡ 0) × ((j : ℕ) → i ≤ j → j < i + q → es_el_nodo_buscado d j nombre padre ≡ false)

  un_paso :
      (d : Disco) (nombre : Cadena) (padre i q : ℕ) (r : ℤ)
      → es_el_nodo_buscado d i nombre padre ≡ false
      → Resultado d nombre padre (i + 1) q r
      → Resultado d nombre padre i (suc q) r
  un_paso d nombre padre i q (pos n) e (a, b, h) = (omega (arith, a), omega (arith, b), h)
  un_paso d nombre padre i q (negsuc k) e (z, h) = (z, λ j p s. paso j p s (j == i) refl)
    where
      paso :
          (j : ℕ)
          → i ≤ j
          → j < i + suc q
          → (b : Bool) → (j == i) ≡ b
          → es_el_nodo_buscado d j nombre padre ≡ false
      paso j p s true g = ap (λ x. es_el_nodo_buscado d x nombre padre) (ground (arith, g)) ∙ e
      paso j p s false g = h j (ground (arith, g, p)) (omega (arith, s))

  buscar_desde-Resultado :
      (d : Disco) (nombre : Cadena) (padre i q : ℕ)
      → Resultado d nombre padre i q (buscar_desde d nombre padre i q)
  unfolding buscar_desde
  buscar_desde-Resultado d nombre padre i zero = (refl, λ j p s. absurd (omega (arith, p, s)))
  buscar_desde-Resultado d nombre padre i (suc q) =
      paso (es_el_nodo_buscado d i nombre padre) refl
        (buscar_desde-Resultado d nombre padre (i + 1) q)
    where
      paso :
          (b : Bool)
          → es_el_nodo_buscado d i nombre padre ≡ b
          → Resultado d nombre padre (i + 1) q (buscar_desde d nombre padre (i + 1) q)
          → Resultado d nombre padre i
              (suc q)
              (if b then pos i else buscar_desde d nombre padre (i + 1) q)
      paso true e h = (omega arith, omega arith, e)
      paso false e h = un_paso d nombre padre i q _ e h

  -- What the search finds is a child, and what it does not find is none.
  pub buscar-EsHijo :
      (d : Disco) (nombre : Cadena) (padre n : ℕ)
      → buscar_nodo_por_nombre d nombre padre ≡ pos n
      → EsHijo d padre nombre n
  unfolding buscar_nodo_por_nombre
  buscar-EsHijo d nombre padre n e =
      let r = rw e at (buscar_desde-Resultado d nombre padre 0 1024) in
      EsHijo-si d padre n nombre (omega (arith, r.1)) (r.2)

  abbrev Unico : Disco → Type 0
  Unico d =
      (padre : ℕ) (nombre : Cadena) (n m : ℕ)
      → EsHijo d padre nombre n
      → EsHijo d padre nombre m
      → n ≡ m

  pub buscar-encuentra :
      (d : Disco) (nombre : Cadena) (padre n : ℕ)
      → Unico d
      → EsHijo d padre nombre n
      → buscar_nodo_por_nombre d nombre padre ≡ pos n
  unfolding buscar_nodo_por_nombre
  buscar-encuentra d nombre padre n unico h =
      segun (buscar_desde d nombre padre 0 1024) (buscar_desde-Resultado d nombre padre 0 1024)
    where
      segun : (r : ℤ) → Resultado d nombre padre 0 1024 r → r ≡ pos n
      segun (pos m) (a, b, e) =
          ap pos (unico padre nombre m n (EsHijo-si d padre m nombre (omega (arith, b)) e) h)
      segun (negsuc k) (z, ninguno) = absurd (
          ground
            (arith, ninguno n (omega arith) (omega (arith, h.0)), es_el_nodo_si d padre n nombre h))

  -- The search gives -1 or a number.
  pub buscar-cases :
      (d : Disco) (nombre : Cadena) (padre : ℕ)
      → (buscar_nodo_por_nombre d nombre padre ≡ negsuc 0)
        ⊎ ((n : ℕ) × (buscar_nodo_por_nombre d nombre padre ≡ pos n))
  unfolding buscar_nodo_por_nombre
  buscar-cases d nombre padre =
      segun (buscar_desde d nombre padre 0 1024) (buscar_desde-Resultado d nombre padre 0 1024)
    where
      segun : (r : ℤ) → Resultado d nombre padre 0 1024 r → (r ≡ negsuc 0) ⊎ ((n : ℕ) × (r ≡ pos n))
      segun (pos m) h = inr (m, refl)
      segun (negsuc k) (z, ninguno) = inl (ap negsuc z)

  pub bloque_de_nodo-pos :
      (d : Disco) (n : ℕ)
      → n < max_number_of_files
      → d.bloque_inicio_tabla_de_nodos ≤ 65
      → bloque_de_nodo d (pos n) ≡ n + d.bloque_inicio_tabla_de_nodos
  unfolding bloque_de_nodo a_uint32 ◌+ℤ◌
  bloque_de_nodo-pos d n h i = ground (arith, h, i)

  -- A first name that is not found gives the block in front of the table.
  pub bloque_de_nodo-menos_uno :
      (d : Disco)
      → 2 ≤ d.bloque_inicio_tabla_de_nodos
      → d.bloque_inicio_tabla_de_nodos ≤ 65
      → bloque_de_nodo d (negsuc 0) + 1 ≡ d.bloque_inicio_tabla_de_nodos
  unfolding bloque_de_nodo a_uint32 ◌+ℤ◌
  bloque_de_nodo-menos_uno d i j = ground (arith, i, j)
