-- ===== src/Sac/Borrar/Arbol.antt =====
-- The rounds of `borrar_directorio` of filesystem/sac_handlers.c.
use tp_sistemas_operativos.Base.{
  ℕ, zero, suc, ◌+◌, ◌<◌, ◌≤◌, ◌≡◌, ◌≢◌, refl, sym, ap, ◌∙◌, Bool, true, false, ◌&&◌, not, ◌==◌,
  ==_iff, if◌then◌else◌, arith, Bool-cases, ◌⊎◌, inl, inr,
}
use tp_sistemas_operativos.Base.Int.{ℤ, pos}
use tp_sistemas_operativos.Comandos.{Cmd, gets, pure, ◌>>=◌, ◌>>◌}
use tp_sistemas_operativos.Comandos.Logic.{Devuelve, Devuelve-then}
use tp_sistemas_operativos.Sac.Disco.{Bitarrays, Disco, Gfile, max_number_of_files}
use tp_sistemas_operativos.Sac.Borrar.{borrar_archivo, borrar_hijo, recorrer_hijos}
use tp_sistemas_operativos.Sac.Borrar.Contenido.{Desocupa, borrar_archivo-Desocupa}
use tp_sistemas_operativos.Sac.Borrar.Cambio.{
  bloque_de_hijos, sin_uso, padre_de, Bajo, hijo, Bajo-trans, Bajo-igual, Cambio, Cambio-refl,
  Cambio-sin_uso, Cambio-trans, Cambio-mas, Desocupa-Cambio, usados, usados-menos,
}

module _ ⦃c : Bitarrays⦄ where
  -- No node in use has its parent in the node `n`.
  abbrev pub SinHijos : Disco → ℕ → Disco → Type 0
  SinHijos d n d' =
      (j : ℕ)
      → j < max_number_of_files
      → sin_uso d' j ≡ false
      → padre_de d j ≢ bloque_de_hijos (pos n)

  -- What a call for the node `n` leaves.
  abbrev pub Borrado : Disco → ℕ → ℤ → Disco → Type 0
  Borrado d n a d' =
      (a ≡ pos 0)
      × Cambio (λ m. m ≡ n) (λ j. (j ≡ n) ⊎ Bajo d (pos n) j) d d'
      × SinHijos d n d'
      × (sin_uso d' n ≡ true)

  -- A call, for nodes in use, in tables with fewer nodes in use than `t`.
  abbrev pub Recursiva : ℕ → (ℤ → Cmd Disco ℤ) → Type 0
  Recursiva t rec =
      (d : Disco) (i : ℕ)
      → i < max_number_of_files
      → sin_uso d i ≡ false
      → d.s_bitmap ≡ false
      → usados d 0 max_number_of_files < t
      → Devuelve (Borrado d i) (rec (pos i) d)

  abbrev pub Baja : Disco → ℕ → Disco → Type 0
  Baja d n d' = Cambio (λ m. ⊥) (Bajo d (pos n)) d d'

  -- What one round leaves, at the node `i`.
  abbrev Ronda : Disco → ℕ → ℕ → Unit {0} → Disco → Type 0
  Ronda d n i a d' = Baja d n d' × (sin_uso d' i ≡ false → padre_de d i ≢ bloque_de_hijos (pos n))

  archivo-Baja :
      {A : Type 0} (a : A) (d d' : Disco) (n i : ℕ)
      → ((d.tabla_de_nodos i).state == 1) ≡ true
      → padre_de d i ≡ bloque_de_hijos (pos n)
      → Desocupa i d a d'
      → Ronda d n i tt d'
  archivo-Baja a d d' n i e p h =
      let k = Desocupa-Cambio a i d d' h in
      (
        (
          k.0,
          λ j. elim (k.1 j) [ inl b ↦ inl b | inr (v, q) ↦ inr (v, hijo (ap (padre_de d) q ∙ p)) ],
          λ m j hm hj u t v w x.
              let f = ap (λ z. (d.tabla_de_nodos z).state == 1) (k.2 m j hm hj u t v w x) in
              absurd (ground (arith, f, e, t)),
          k.3,
        ),
        λ u. absurd (ground (arith, u, h.0)),
      )

  directorio-Baja :
      (d d' : Disco) (n i : ℕ) (a : ℤ)
      → padre_de d i ≡ bloque_de_hijos (pos n)
      → Borrado d i a d'
      → Ronda d n i tt d'
  directorio-Baja d d' n i a p (z, k, y, v) = (
    (
      k.0,
      λ j. elim (k.1 j) [
        | inl b ↦ inl b
        | inr (u, inl q) ↦ inr (u, hijo (ap (padre_de d) q ∙ p))
        | inr (u, inr q) ↦ inr (u, Bajo-trans d (pos n) i j (hijo p) q)
      ],
      λ m j hm hj u t w x e.
          y j hj x (e ∙ ap (λ z. bloque_de_hijos (pos z)) (k.2 m j hm hj u t w x e)),
      k.3,
    ),
    λ u. absurd (ground (arith, u, v)),
  )

  -- The call that a round makes.
  llamada-Ronda :
      (t : ℕ) (rec : ℤ → Cmd Disco ℤ) (d : Disco) (n i : ℕ)
      → Recursiva t rec
      → i < max_number_of_files
      → d.s_bitmap ≡ false
      → usados d 0 max_number_of_files < t
      → sin_uso d i ≡ false
      → padre_de d i ≡ bloque_de_hijos (pos n)
      → (b : Bool) → ((d.tabla_de_nodos i).state == 1) ≡ b
      → Devuelve (Ronda d n i) (((if b then borrar_archivo (pos i) else rec (pos i)) >> pure tt) d)
  unfolding pure
  llamada-Ronda t rec d n i r h s m u p true e =
      Devuelve-then (Desocupa i d) (Ronda d n i) (borrar_archivo (pos i)) (pure tt) d
        (borrar_archivo-Desocupa d i s h) (λ a d' k. (tt, d', refl, archivo-Baja a d d' n i e p k))
  llamada-Ronda t rec d n i r h s m u p false e =
      Devuelve-then (Borrado d i) (Ronda d n i) (rec (pos i)) (pure tt) d (r d i h u s m)
        (λ a d' k. (tt, d', refl, directorio-Baja d d' n i a p k))

  abbrev toca : Gfile → ℕ → Bool
  toca g n = not (g.state == 0) && (g.parent_dir_block == bloque_de_hijos (pos n))

  Ronda-segun :
      (t : ℕ) (rec : ℤ → Cmd Disco ℤ) (d : Disco) (n i : ℕ)
      → Recursiva t rec
      → i < max_number_of_files
      → d.s_bitmap ≡ false
      → usados d 0 max_number_of_files < t
      → (b : Bool) → toca (d.tabla_de_nodos i) n ≡ b
      → Devuelve (Ronda d n i) (
          (if b
              then (if (d.tabla_de_nodos i).state == 1 then borrar_archivo (pos i) else rec (pos i))
                >> pure tt
              else pure tt)
            d)
  unfolding pure
  Ronda-segun t rec d n i r h s m true e =
      llamada-Ronda t rec d n i r h s m (ground (arith, e)) (ground (arith, e)) _ refl
  Ronda-segun t rec d n i r h s m false e =
      (tt, d, refl, (Cambio-refl (λ k. ⊥) (Bajo d (pos n)) d s, λ u p. ground (arith, e, u, p)))

  borrar_hijo-Ronda :
      (t : ℕ) (rec : ℤ → Cmd Disco ℤ) (d : Disco) (n i : ℕ)
      → Recursiva t rec
      → i < max_number_of_files
      → d.s_bitmap ≡ false
      → usados d 0 max_number_of_files < t
      → Devuelve (Ronda d n i) (borrar_hijo rec (pos n) i d)
  unfolding borrar_hijo ◌>>=◌ gets
  borrar_hijo-Ronda t rec d n i r h s m = Ronda-segun t rec d n i r h s m _ refl

  -- What the rounds from `i` on leave.
  abbrev pub Rondas : Disco → ℕ → ℕ → ℕ → Unit {0} → Disco → Type 0
  Rondas d n i q a d' =
      Baja d n d'
      × ((j : ℕ)
          → i ≤ j
          → j < i + q
          → sin_uso d' j ≡ false
          → padre_de d j ≢ bloque_de_hijos (pos n))

  Baja-trans : (d e f : Disco) (n : ℕ) → Baja d n e → Baja e n f → Baja d n f
  Baja-trans d e f n k l =
      Cambio-trans (λ m. ⊥) (Bajo d (pos n)) d e f k
        (Cambio-mas (λ m. ⊥) (λ m. ⊥) (Bajo e (pos n)) (Bajo d (pos n)) e f
          (λ j. Bajo-igual d e (pos n) j (k.0)) (λ j x. x) l)

  pub Baja-usados :
      (X Q : ℕ → Type 0) (d e : Disco)
      → Cambio X Q d e
      → usados e 0 max_number_of_files ≤ usados d 0 max_number_of_files
  Baja-usados X Q d e k = usados-menos d e 0 max_number_of_files (Cambio-sin_uso X Q d e k)

  una_mas :
      (d e f : Disco) (n i q : ℕ)
      → Ronda d n i tt e
      → Rondas e n (i + 1) q tt f
      → Rondas d n i (suc q) tt f
  una_mas d e f n i q (k, x) (l, y) = (
    Baja-trans d e f n k l,
    λ j a b u. elim (Bool-cases (j == i)) [
      | inl g ↦
          let z = (==_iff j i).0 g in
          λ p. x (en_uso i (ap (sin_uso f) (sym z) ∙ u)) (ap (padre_de d) (sym z) ∙ p)
      | inr g ↦ λ p. y j (mayor j a g) (omega (arith, b)) u (k.0 j ∙ p)
    ],
  )
    where
      en_uso : (j : ℕ) → sin_uso f j ≡ false → sin_uso e j ≡ false
      en_uso j w = elim (Bool-cases (sin_uso e j)) [
        | inl g ↦ absurd (ground (arith, Cambio-sin_uso (λ m. ⊥) (Bajo e (pos n)) e f l j g, w))
        | inr g ↦ g
      ]

      mayor : (j : ℕ) → i ≤ j → (j == i) ≡ false → i + 1 ≤ j
      mayor j a g = ground (arith, a, g)

  pub recorrer_hijos-Rondas :
      (t : ℕ) (rec : ℤ → Cmd Disco ℤ) (n i q : ℕ) (d : Disco)
      → Recursiva t rec
      → i + q ≤ max_number_of_files
      → d.s_bitmap ≡ false
      → usados d 0 max_number_of_files < t
      → Devuelve (Rondas d n i q) (recorrer_hijos rec (pos n) i q d)
  unfolding recorrer_hijos pure
  recorrer_hijos-Rondas t rec n i zero d r h s m = (
    tt,
    d,
    refl,
    (Cambio-refl (λ k. ⊥) (Bajo d (pos n)) d s, λ j a b. absurd (omega (arith, a, b))),
  )
  recorrer_hijos-Rondas t rec n i (suc q) d r h s m =
      Devuelve-then (Ronda d n i) (Rondas d n i (suc q)) (borrar_hijo rec (pos n) i)
        (recorrer_hijos rec (pos n) (i + 1) q) d
        (borrar_hijo-Ronda t rec d n i r (omega (arith, h)) s m)
        (λ a e k.
          let (b, f, g, l) =
            recorrer_hijos-Rondas t rec n (i + 1) q e r (omega (arith, h)) (k.0.3)
              (omega (arith, m, Baja-usados (λ z. ⊥) (Bajo d (pos n)) d e (k.0))) in
          (b, f, g, una_mas d e f n i q k l))
