-- ===== src/Sac/Borrar/Cambio.antt =====
-- What a removal changes in the table of nodes of filesystem/sac_handlers.c: some nodes are no more
-- in use, and with a directory its children.
use tp_sistemas_operativos.Base.{
  ℕ, zero, suc, ◌+◌, ◌<◌, ◌≤◌, ◌≡◌, refl, sym, ap, ◌∙◌, Bool, true, false, ◌==◌, ==_iff,
  if◌then◌else◌, arith, Bool-cases, ◌⊎◌, inl, inr,
}
use tp_sistemas_operativos.Base.Int.{ℤ, pos, ◌+ℤ◌}
use tp_sistemas_operativos.Sac.Disco.{Bitarrays, Disco, max_number_of_files}
use tp_sistemas_operativos.Sac.Ordenes.{a_uint32}
use tp_sistemas_operativos.Sac.Borrar.Contenido.{Desocupa}

-- The block that `borrar_directorio` takes for that of a node.
abbrev pub bloque_de_hijos : ℤ → ℕ
bloque_de_hijos nodo = a_uint32 (nodo +ℤ pos 2)

module _ ⦃c : Bitarrays⦄ where
  abbrev pub sin_uso : Disco → ℕ → Bool
  sin_uso d n = (d.tabla_de_nodos n).state == 0

  abbrev pub padre_de : Disco → ℕ → ℕ
  padre_de d n = (d.tabla_de_nodos n).parent_dir_block

  -- A node below a node: a child of it, or a child of a node below it.
  pub data Bajo (d : Disco) (nodo : ℤ) : ℕ → Type 0 where
    hijo : {j : ℕ} → padre_de d j ≡ bloque_de_hijos nodo → Bajo d nodo j
    nieto : {i j : ℕ} → Bajo d nodo i → padre_de d j ≡ bloque_de_hijos (pos i) → Bajo d nodo j

  pub Bajo-trans :
      (d : Disco) (nodo : ℤ) (i j : ℕ) → Bajo d nodo i → Bajo d (pos i) j → Bajo d nodo j
  Bajo-trans d nodo i j h (hijo e) = nieto h e
  Bajo-trans d nodo i j h (nieto k e) = nieto (Bajo-trans d nodo i _ h k) e

  pub Bajo-igual :
      (d d' : Disco) (nodo : ℤ) (j : ℕ)
      → ((i : ℕ) → padre_de d' i ≡ padre_de d i)
      → Bajo d' nodo j
      → Bajo d nodo j
  Bajo-igual d d' nodo j p (hijo {j = k} e) = hijo (sym (p k) ∙ e)
  Bajo-igual d d' nodo j p (nieto {i = i} {j = k} h e) =
      nieto (Bajo-igual d d' nodo i p h) (sym (p k) ∙ e)

  -- From `d` to `d'` the nodes that change are no more in use and satisfy `Q`; where a directory is
  -- gone, its children are, unless it is one that `X` excepts.
  abbrev pub Cambio : (ℕ → Type 0) → (ℕ → Type 0) → Disco → Disco → Type 0
  Cambio X Q d d' =
      ((j : ℕ) → padre_de d' j ≡ padre_de d j)
      × ((j : ℕ) → (d'.tabla_de_nodos j ≡ d.tabla_de_nodos j) ⊎ ((sin_uso d' j ≡ true) × Q j))
      × ((m j : ℕ)
          → m < max_number_of_files
          → j < max_number_of_files
          → sin_uso d m ≡ false
          → ((d.tabla_de_nodos m).state == 1) ≡ false
          → sin_uso d' m ≡ true
          → sin_uso d' j ≡ false
          → padre_de d j ≡ bloque_de_hijos (pos m)
          → X m)
      × (d'.s_bitmap ≡ false)

  pub Cambio-refl : (X Q : ℕ → Type 0) (d : Disco) → d.s_bitmap ≡ false → Cambio X Q d d
  Cambio-refl X Q d s =
      (λ j. refl, λ j. inl refl, λ m j hm hj u f v w p. absurd (ground (arith, u, v)), s)

  -- What was not in use stays so.
  pub Cambio-sin_uso :
      (X Q : ℕ → Type 0) (d d' : Disco)
      → Cambio X Q d d'
      → (j : ℕ) → sin_uso d j ≡ true
      → sin_uso d' j ≡ true
  Cambio-sin_uso X Q d d' k j u = elim (k.1 j) [
    | inl e ↦ ap (λ g. g.state == 0) e ∙ u
    | inr (v, q) ↦ v
  ]

  -- A node that is in use afterwards has not changed.
  Cambio-en_uso :
      (X Q : ℕ → Type 0) (d d' : Disco)
      → Cambio X Q d d'
      → (j : ℕ) → sin_uso d' j ≡ false
      → d'.tabla_de_nodos j ≡ d.tabla_de_nodos j
  Cambio-en_uso X Q d d' k j u = elim (k.1 j) [
    | inl e ↦ e
    | inr (v, q) ↦ absurd (ground (arith, u, v))
  ]

  pub Cambio-trans :
      (X Q : ℕ → Type 0) (d e f : Disco) → Cambio X Q d e → Cambio X Q e f → Cambio X Q d f
  Cambio-trans X Q d e f k l = (
    λ j. l.0 j ∙ k.0 j,
    λ j. elim (l.1 j) [
      | inr v ↦ inr v
      | inl a ↦ elim (k.1 j) [
        | inl b ↦ inl (a ∙ b)
        | inr (v, q) ↦ inr (ap (λ g. g.state == 0) a ∙ v, q)
      ]
    ],
    λ m j hm hj u t v w p. elim (Bool-cases (sin_uso e m)) [
      | inl g ↦ k.2 m j hm hj u t g (en_uso j w) p
      | inr g ↦
          l.2 m j hm hj g (ap (λ n. n.state == 1) (Cambio-en_uso X Q d e k m g) ∙ t) v w (k.0 j ∙ p)
    ],
    l.3,
  )
    where
      en_uso : (j : ℕ) → sin_uso f j ≡ false → sin_uso e j ≡ false
      en_uso j w = elim (Bool-cases (sin_uso e j)) [
        | inl g ↦ absurd (ground (arith, Cambio-sin_uso X Q e f l j g, w))
        | inr g ↦ g
      ]

  pub Cambio-mas :
      (X Y Q P : ℕ → Type 0) (d d' : Disco)
      → ((j : ℕ) → Q j → P j)
      → ((j : ℕ) → X j → Y j)
      → Cambio X Q d d'
      → Cambio Y P d d'
  Cambio-mas X Y Q P d d' h g k = (
    k.0,
    λ j. elim (k.1 j) [ inl e ↦ inl e | inr (v, q) ↦ inr (v, h j q) ],
    λ m j hm hj u t v w p. g m (k.2 m j hm hj u t v w p),
    k.3,
  )

  -- The removal of one node.
  pub Desocupa-Cambio :
      {A : Type 0} (a : A) (n : ℕ) (d d' : Disco)
      → Desocupa n d a d'
      → Cambio (λ m. m ≡ n) (λ m. m ≡ n) d d'
  Desocupa-Cambio a n d d' (u, p, o, s) = (
    λ j. elim (Bool-cases (j == n)) [
      | inl e ↦
          let g = (==_iff j n).0 e in ap (λ i. padre_de d' i) g ∙ p ∙ ap (λ i. padre_de d i) (sym g)
      | inr e ↦ ap (λ g. g.parent_dir_block) (o j e)
    ],
    λ j. elim (Bool-cases (j == n)) [
      | inl e ↦ let g = (==_iff j n).0 e in inr (ap (sin_uso d') g ∙ u, g)
      | inr e ↦ inl (o j e)
    ],
    λ m j hm hj v t w x y. elim (Bool-cases (m == n)) [
      | inl e ↦ (==_iff m n).0 e
      | inr e ↦ absurd (ground (arith, ap (λ g. g.state == 0) (o m e), v, w))
    ],
    s,
  )

  -- How many of the nodes from `i` on are in use.
  unfoldable pub usados : Disco → ℕ → ℕ → ℕ
  usados d i zero = 0
  usados d i (suc q) = (if sin_uso d i then 0 else 1) + usados d (i + 1) q

  pub usados-menos :
      (d d' : Disco) (i q : ℕ)
      → ((j : ℕ) → sin_uso d j ≡ true → sin_uso d' j ≡ true)
      → usados d' i q ≤ usados d i q
  unfolding usados
  usados-menos d d' i zero h = omega arith
  usados-menos d d' i (suc q) h = ground (arith, h i, usados-menos d d' (i + 1) q h)

  pub usados-uno_menos :
      (d d' : Disco) (n i q : ℕ)
      → ((j : ℕ) → sin_uso d j ≡ true → sin_uso d' j ≡ true)
      → i ≤ n
      → n < i + q
      → sin_uso d n ≡ false
      → sin_uso d' n ≡ true
      → usados d' i q + 1 ≤ usados d i q
  unfolding usados
  usados-uno_menos d d' n i zero h a b u v = absurd (omega (arith, a, b))
  usados-uno_menos d d' n i (suc q) h a b u v = elim (Bool-cases (n == i)) [
    | inl e ↦
        let g = (==_iff n i).0 e in
        let ui = ap (sin_uso d) (sym g) ∙ u in
        let vi = ap (sin_uso d') (sym g) ∙ v in
        ground (arith, ui, vi, usados-menos d d' (i + 1) q h)
    | inr e ↦
        let mayor : i + 1 ≤ n = distinto e a in
        ground (arith, h i, usados-uno_menos d d' n (i + 1) q h mayor (omega (arith, b)) u v)
  ]
    where
      distinto : (n == i) ≡ false → i ≤ n → i + 1 ≤ n
      distinto e a = ground (arith, e, a)

  pub usados-tope : (d : Disco) (i q : ℕ) → usados d i q ≤ q
  unfolding usados
  usados-tope d i zero = omega arith
  usados-tope d i (suc q) = ground (arith, usados-tope d (i + 1) q)
