-- ===== src/Sac/Borrar/Subarbol.antt =====
-- What `borrar_directorio` of filesystem/sac_handlers.c promises.
use tp_sistemas_operativos.Base.{
  ℕ, zero, suc, ◌<◌, ◌≤◌, ◌≡◌, ◌≢◌, refl, ap, ◌∙◌, true, false, ◌==◌, arith, Bool-cases, ◌⊎◌, inl,
  inr,
}
use tp_sistemas_operativos.Base.Int.{ℤ, pos}
use tp_sistemas_operativos.Comandos.{ok, pure, ◌>>◌}
use tp_sistemas_operativos.Comandos.Logic.{Devuelve, Devuelve-then}
use tp_sistemas_operativos.Sac.Disco.{Bitarrays, Disco, max_number_of_files}
use tp_sistemas_operativos.Sac.Borrar.{borrar_archivo, recorrer_hijos, borrar_directorio}
use tp_sistemas_operativos.Sac.Borrar.Contenido.{Desocupa, borrar_archivo-Desocupa}
use tp_sistemas_operativos.Sac.Borrar.Cambio.{
  bloque_de_hijos, sin_uso, padre_de, Bajo, Bajo-igual, Cambio, Cambio-sin_uso, Cambio-trans,
  Cambio-mas, Desocupa-Cambio, usados, usados-uno_menos, usados-tope,
}
use tp_sistemas_operativos.Sac.Borrar.Arbol.{
  SinHijos, Borrado, Recursiva, Rondas, recorrer_hijos-Rondas, Baja-usados,
}

module _ ⦃c : Bitarrays⦄ where
  -- The removal of the node and the rounds behind it.
  junta-Borrado :
      {A : Type 0} (a : A) (d e f : Disco) (n : ℕ)
      → Desocupa n d a e
      → Rondas e n 0 max_number_of_files tt f
      → Borrado d n (pos 0) f
  junta-Borrado a d e f n h (l, y) =
      let k = Desocupa-Cambio a n d e h in
      let Q : ℕ → Type 0 = λ j. (j ≡ n) ⊎ Bajo d (pos n) j in
      (
        refl,
        Cambio-trans (λ m. m ≡ n) Q d e f
            (Cambio-mas (λ m. m ≡ n) (λ m. m ≡ n) (λ j. j ≡ n) Q d e (λ j x. inl x) (λ j x. x) k)
            (Cambio-mas (λ m. ⊥) (λ m. m ≡ n) (Bajo e (pos n)) Q e f
              (λ j x. inr (Bajo-igual d e (pos n) j (k.0) x)) (λ j x. absurd x) l),
        λ j hj u p. y j (omega arith) (omega (arith, hj)) u (k.0 j ∙ p),
        Cambio-sin_uso (λ m. ⊥) (Bajo e (pos n)) e f l n (h.0),
      )

  -- Where the rounds of a call find fewer nodes in use than calls are left.
  abbrev Holgura : Disco → ℕ → ℕ → Type 0
  Holgura d n tope =
      ((sin_uso d n ≡ false) × (usados d 0 max_number_of_files < suc tope))
      ⊎ (usados d 0 max_number_of_files < tope)

  borrar_en-Borrado :
      (tope : ℕ) (d : Disco) (n : ℕ)
      → Recursiva tope (borrar_directorio tope)
      → n < max_number_of_files
      → d.s_bitmap ≡ false
      → Holgura d n tope
      → Devuelve (Borrado d n) (borrar_directorio (suc tope) (pos n) d)
  unfolding borrar_directorio pure
  borrar_en-Borrado tope d n r h s m =
      let todos = recorrer_hijos (borrar_directorio tope) (pos n) 0 max_number_of_files in
      Devuelve-then (Desocupa n d) (Borrado d n) (borrar_archivo (pos n)) (todos >> pure (pos 0)) d
        (borrar_archivo-Desocupa d n s h)
        (λ a e k.
          Devuelve-then (Rondas e n 0 max_number_of_files) (Borrado d n) todos (pure (pos 0)) e
            (recorrer_hijos-Rondas tope (borrar_directorio tope) n 0 max_number_of_files e r
              (omega arith) (k.3) (quedan a e k m))
            (λ b f l. (pos 0, f, refl, junta-Borrado a d e f n k l)))
    where
      quedan :
          (a : ℤ) (e : Disco)
          → Desocupa n d a e
          → ((sin_uso d n ≡ false) × (usados d 0 max_number_of_files < suc tope))
            ⊎ (usados d 0 max_number_of_files < tope)
          → usados e 0 max_number_of_files < tope
      quedan a e k (inl (u, g)) =
          let w = Desocupa-Cambio a n d e k in
          let z =
            usados-uno_menos d e n 0 max_number_of_files
              (Cambio-sin_uso (λ m. m ≡ n) (λ m. m ≡ n) d e w) (omega arith) (omega (arith, h)) u
              (k.0) in
          omega (arith, z, g)
      quedan a e k (inr g) =
          let w = Desocupa-Cambio a n d e k in
          omega (arith, g, Baja-usados (λ m. m ≡ n) (λ m. m ≡ n) d e w)

  borrar_directorio-Recursiva : (tope : ℕ) → Recursiva tope (borrar_directorio tope)
  borrar_directorio-Recursiva zero d i h u s m = absurd (omega (arith, m))
  borrar_directorio-Recursiva (suc tope) d i h u s m =
      borrar_en-Borrado tope d i (borrar_directorio-Recursiva tope) h s (inl (u, m))

  -- A node that `borrar_directorio` reaches from a node: a child of it, or a child of a directory in
  -- use that it reaches.
  pub data Alcanza (d : Disco) (n : ℕ) : ℕ → Type 0 where
    por_hijo : {j : ℕ} → padre_de d j ≡ bloque_de_hijos (pos n) → Alcanza d n j
    por_nieto :
        {i j : ℕ}
        → Alcanza d n i
        → i < max_number_of_files
        → sin_uso d i ≡ false
        → ((d.tabla_de_nodos i).state == 1) ≡ false
        → padre_de d j ≡ bloque_de_hijos (pos i)
        → Alcanza d n j

  Alcanza-sin_uso :
      (d d' : Disco) (n j : ℕ)
      → Cambio (λ m. m ≡ n) (λ k. (k ≡ n) ⊎ Bajo d (pos n) k) d d'
      → SinHijos d n d'
      → Alcanza d n j
      → j < max_number_of_files
      → sin_uso d' j ≡ true
  Alcanza-sin_uso d d' n j k y (por_hijo e) hj = elim (Bool-cases (sin_uso d' j)) [
    | inl g ↦ g
    | inr g ↦ absurd (y j hj g e)
  ]
  Alcanza-sin_uso d d' n j k y (por_nieto {i = i} b hi u t e) hj =
      let v = Alcanza-sin_uso d d' n i k y b hi in
      elim (Bool-cases (sin_uso d' j)) [
        | inl g ↦ g
        | inr g ↦
            absurd (y j hj g (e ∙ ap (λ z. bloque_de_hijos (pos z)) (k.2 i j hi hj u t v g e)))
      ]

  -- With `s_bitmap` free, a node of the table and 1026 or more calls allowed one inside the other,
  -- `borrar_directorio` returns 0. After it neither the node nor a node that it reaches is in use, and
  -- every node that is neither it nor below it is as it was.
  pub borrar_directorio-Alcanza :
      (d : Disco) (n tope : ℕ)
      → d.s_bitmap ≡ false
      → n < max_number_of_files
      → 1026 ≤ tope
      → (d' : Disco) × (borrar_directorio tope (pos n) d ≡ ok (pos 0) d')
        × (sin_uso d' n ≡ true)
        × ((j : ℕ) → j < max_number_of_files → Alcanza d n j → sin_uso d' j ≡ true)
        × ((j : ℕ) → j ≢ n → ¬ Bajo d (pos n) j → d'.tabla_de_nodos j ≡ d.tabla_de_nodos j)
  borrar_directorio-Alcanza d n zero s h m = absurd (omega (arith, m))
  borrar_directorio-Alcanza d n (suc tope) s h m =
      let (a, d', e, (z, k, y, v)) =
        borrar_en-Borrado tope d n (borrar_directorio-Recursiva tope) h s
          (inr (omega (arith, m, usados-tope d 0 max_number_of_files))) in
      (
        d',
        e ∙ ap (λ x. ok x d') z,
        v,
        λ j hj b. Alcanza-sin_uso d d' n j k y b hj,
        λ j p q. elim (k.1 j) [
          | inl g ↦ g
          | inr (u, inl g) ↦ absurd (p g)
          | inr (u, inr g) ↦ absurd (q g)
        ],
      )
