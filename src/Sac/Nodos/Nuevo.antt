-- ===== src/Sac/Nodos/Nuevo.antt =====
-- A table of nodes with a node more, and what `crear_nuevo_nodo` of filesystem/sac_handlers.c makes
-- of a table.

use tp_sistemas_operativos.Base.{
  ℕ, zero, suc, ◌+◌, ◌≤◌, ◌<◌, ◌≡◌, ◌≢◌, refl, sym, ap, subst, ◌∙◌, ◌⊎◌, inl, inr, Bool, true,
  false, List, [], ◌∷◌, ◌++◌, ◌==◌, ==_iff, if◌then◌else◌, arith, Bool-cases, some,
}
use tp_sistemas_operativos.Sac.Disco.{Bitarrays, Disco, Cadena, max_number_of_files}
use tp_sistemas_operativos.Sac.Nodos.{existe_desde}
use tp_sistemas_operativos.Sac.Nodos.Busqueda.{EsHijo, BienFormado, mismo_texto-igual}
use tp_sistemas_operativos.Sac.Nodos.Camino.{Llega, llega, sigue}
use tp_sistemas_operativos.Sac.Nodos.Crear.{nodo_sin_uso, ultimo_nombre}

module _ ⦃c : Bitarrays⦄ where
  -- `d'` has the nodes of `d` and at `k`, which was not in use, a node with a parent and a name.
  abbrev pub ConNuevo : Disco → Disco → ℕ → ℕ → Cadena → Type 0
  ConNuevo d d' k padre nombre =
      (k < max_number_of_files)
      × (d'.bloque_inicio_tabla_de_nodos ≡ d.bloque_inicio_tabla_de_nodos)
      × (((d.tabla_de_nodos k).state == 0) ≡ true)
      × EsHijo d' padre nombre k
      × ((n : ℕ) → (n == k) ≡ false → d'.tabla_de_nodos n ≡ d.tabla_de_nodos n)

  -- The children of `d` are children of `d'`.
  abbrev Conserva : Disco → Disco → Type 0
  Conserva d d' =
      (padre : ℕ) (nombre : Cadena) (n : ℕ) → EsHijo d padre nombre n → EsHijo d' padre nombre n

  EsHijo-igual :
      (d d' : Disco) (padre n : ℕ) (nombre : Cadena)
      → d'.tabla_de_nodos n ≡ d.tabla_de_nodos n
      → EsHijo d padre nombre n
      → EsHijo d' padre nombre n
  EsHijo-igual d d' padre n nombre e (h, u, p, f) =
      (h, ap (λ g. g.state == 0) e ∙ u, ap (λ g. g.parent_dir_block) e ∙ p, ap (λ g. g.fname) e ∙ f)

  pub ConNuevo-Conserva :
      (d d' : Disco) (k padre : ℕ) (nombre : Cadena) → ConNuevo d d' k padre nombre → Conserva d d'
  ConNuevo-Conserva d d' k padre nombre (a, b, libre, hijo, igual) p s n (h, u, q, f) =
      elim (Bool-cases (n == k)) [
        | inl e ↦
            let m = ap (λ i. (d.tabla_de_nodos i).state == 0) ((==_iff n k).0 e) in
            absurd (ground (arith, m, u, libre))
        | inr e ↦ EsHijo-igual d d' p n s (igual n e) (h, u, q, f)
      ]

  -- A child of `d'` is the new node or a child of `d`.
  ConNuevo-cases :
      (d d' : Disco) (k padre : ℕ) (nombre : Cadena)
      → ConNuevo d d' k padre nombre
      → (p n : ℕ) (s : Cadena) → EsHijo d' p s n
      → ((n ≡ k) × (p ≡ padre) × (s ≡ nombre)) ⊎ EsHijo d p s n
  ConNuevo-cases d d' k padre nombre (a, b, libre, hijo, igual) p n s (h, u, q, f) =
      elim (Bool-cases (n == k)) [
        | inl e ↦
            let m = (==_iff n k).0 e in
            inl (
              m,
              sym q ∙ ap (λ i. (d'.tabla_de_nodos i).parent_dir_block) m ∙ hijo.2,
              sym f ∙ ap (λ i. (d'.tabla_de_nodos i).fname) m ∙ hijo.3,
            )
        | inr e ↦ inr (EsHijo-igual d' d p n s (sym (igual n e)) (h, u, q, f))
      ]

  ConNuevo-Unico :
      (d d' : Disco) (k padre : ℕ) (nombre : Cadena)
      → BienFormado d
      → ConNuevo d d' k padre nombre
      → ((n : ℕ) → ¬ EsHijo d padre nombre n)
      → (p n m : ℕ) (s : Cadena) → EsHijo d' p s n
      → EsHijo d' p s m
      → n ≡ m
  ConNuevo-Unico d d' k padre nombre w nuevo fresco p n m s h g =
      segun (ConNuevo-cases d d' k padre nombre nuevo p n s h)
        (ConNuevo-cases d d' k padre nombre nuevo p m s g)
    where
      como : (i : ℕ) → p ≡ padre → s ≡ nombre → ¬ EsHijo d p s i
      como i a b (h, u, q, f) = fresco i (h, u, q ∙ a, f ∙ b)

      segun :
          ((n ≡ k) × (p ≡ padre) × (s ≡ nombre)) ⊎ EsHijo d p s n
          → ((m ≡ k) × (p ≡ padre) × (s ≡ nombre)) ⊎ EsHijo d p s m
          → n ≡ m
      segun (inl a) (inl b) = a.0 ∙ sym b.0
      segun (inl a) (inr b) = absurd (como m (a.1) (a.2) b)
      segun (inr a) (inl b) = absurd (como n (b.1) (b.2) a)
      segun (inr a) (inr b) = w.3 p s n m a b

  pub ConNuevo-BienFormado :
      (d d' : Disco) (k padre : ℕ) (nombre : Cadena)
      → BienFormado d
      → ConNuevo d d' k padre nombre
      → ((n : ℕ) → ¬ EsHijo d padre nombre n)
      → (padre ≡ 0) ⊎ (d.bloque_inicio_tabla_de_nodos ≤ padre)
      → BienFormado d'
  ConNuevo-BienFormado d d' k padre nombre w nuevo fresco lugar = (
    omega (arith, nuevo.1, w.0),
    omega (arith, nuevo.1, w.1),
    λ n h u. elim (ConNuevo-cases d d' k padre nombre nuevo _ n _ (h, u, refl, refl)) [
      | inl a ↦ omega (arith, a.1, lugar, nuevo.1)
      | inr (x, y, z, f) ↦ omega (arith, w.2 n x y, z, nuevo.1)
    ],
    λ p s n m. ConNuevo-Unico d d' k padre nombre w nuevo fresco p n m s,
  )

  pub Llega-Conserva :
      (d d' : Disco) (padre n : ℕ) (nombres : List Cadena)
      → Conserva d d'
      → d'.bloque_inicio_tabla_de_nodos ≡ d.bloque_inicio_tabla_de_nodos
      → Llega d padre nombres n
      → Llega d' padre nombres n
  Llega-Conserva d d' padre n nombres f e (llega h) = llega (f _ _ _ h)
  Llega-Conserva d d' padre n nombres f e (sigue {m = m} {otro = t} {resto = l} h k) =
      sigue (f _ _ _ h)
        (subst (λ i. Llega d' (m + i) (t ∷ l) n) (sym e) (Llega-Conserva d d' _ n (t ∷ l) f e k))

  -- A name more.
  pub Llega-snoc :
      (d : Disco) (padre m k : ℕ) (nombres : List Cadena) (nombre : Cadena)
      → Llega d padre nombres m
      → EsHijo d (m + d.bloque_inicio_tabla_de_nodos) nombre k
      → Llega d padre (nombres ++ nombre ∷ []) k
  Llega-snoc d padre m k nombres nombre (llega h) g = sigue h (llega g)
  Llega-snoc d padre m k nombres nombre (sigue {m = i} {otro = t} {resto = l} h q) g =
      sigue h (Llega-snoc d (i + d.bloque_inicio_tabla_de_nodos) m k (t ∷ l) nombre q g)

  pub Llega-rango :
      (d : Disco) (padre n : ℕ) (nombres : List Cadena)
      → Llega d padre nombres n
      → n < max_number_of_files
  Llega-rango d padre n nombres (llega h) = h.0
  Llega-rango d padre n nombres (sigue h k) = Llega-rango d _ n _ k

  -- The node that `crear_nuevo_nodo` takes is not in use.
  pub nodo_sin_uso-libre :
      (d : Disco) (i q : ℕ)
      → nodo_sin_uso d i q < i + q
      → ((d.tabla_de_nodos (nodo_sin_uso d i q)).state == 0) ≡ true
  unfolding nodo_sin_uso
  nodo_sin_uso-libre d i zero h = absurd (omega (arith, h))
  nodo_sin_uso-libre d i (suc q) h =
      segun (nodo_sin_uso d (i + 1) q) ((d.tabla_de_nodos i).state == 0) refl
        (nodo_sin_uso-libre d (i + 1) q) h
    where
      segun :
          (sigue_en : ℕ) (b : Bool)
          → ((d.tabla_de_nodos i).state == 0) ≡ b
          → (sigue_en < i + 1 + q → ((d.tabla_de_nodos sigue_en).state == 0) ≡ true)
          → (if b then i else sigue_en) < i + suc q
          → ((d.tabla_de_nodos (if b then i else sigue_en)).state == 0) ≡ true
      segun m true e r s = e
      segun m false e r s = r (omega (arith, s))

  -- No node, deleted ones included, has a parent and a name.
  abbrev pub Ninguno : Disco → ℕ → Cadena → Type 0
  Ninguno d padre nombre =
      (n : ℕ)
      → n < max_number_of_files
      → (d.tabla_de_nodos n).parent_dir_block ≡ padre
      → (d.tabla_de_nodos n).fname ≢ nombre

  pub existe_desde-Ninguno :
      (d : Disco) (padre i q : ℕ) (nombre : Cadena)
      → Ninguno d padre nombre
      → i + q ≤ max_number_of_files
      → existe_desde d padre nombre i q ≡ false
  unfolding existe_desde
  existe_desde-Ninguno d padre i zero nombre h l = refl
  existe_desde-Ninguno d padre i (suc q) nombre h l = ground (
    arith,
    existe_desde-Ninguno d padre (i + 1) q nombre h (omega (arith, l)),
    h i (omega (arith, l)),
    mismo_texto-igual (d.tabla_de_nodos i).fname nombre,
  )

pub ultimo_nombre-snoc :
    (l : List Cadena) (nombre : Cadena) → ultimo_nombre (l ++ nombre ∷ []) ≡ some nombre
unfolding ultimo_nombre
ultimo_nombre-snoc [] nombre = refl
ultimo_nombre-snoc (a ∷ []) nombre = refl
ultimo_nombre-snoc (a ∷ b ∷ l) nombre = ultimo_nombre-snoc (b ∷ l) nombre
