-- ===== src/Sac/Borrar/Contenido.antt =====
-- `borrar_contenido` and `borrar_archivo` of filesystem/sac_handlers.c return, and what they leave.
use tp_sistemas_operativos.Base.{
  ℕ, zero, suc, ◌+◌, ◌<◌, ◌≡◌, refl, ap, ◌∙◌, Bool, true, false, ◌==◌, ==_refl, not, if◌then◌else◌,
}
use tp_sistemas_operativos.Base.Int.{ℤ, pos}
use tp_sistemas_operativos.Comandos.{Run, ok, Cmd, gets, modify, pure, ◌>>=◌, ◌>>◌}
use tp_sistemas_operativos.Comandos.Eval.{bind-ok, bind-gets}
use tp_sistemas_operativos.Comandos.Logic.{Devuelve, Devuelve-igual, Devuelve-then}
use tp_sistemas_operativos.Sac.Disco.{
  Bitarrays, Disco, max_number_of_files, punteros_a_bloques_datos,
}
use tp_sistemas_operativos.Sac.Bloques.{con_nodo}
use tp_sistemas_operativos.Sac.Ordenes.{
  a_int, tomar_bitmap, tomar_si, soltar_bitmap, limpiar_bit, cambiar_nodo, nodo_valido,
  nodo_valido-ok,
}
use tp_sistemas_operativos.Sac.Borrar.{
  limpiar_datos, limpiar_punteros, punteros_llenos, datos_del_ultimo, borrar_contenido,
  borrar_contenido_de, desocupar, borrar_nodo, borrar_nodo_con, borrar_ultimo, ultimo_bloque,
  borrar_archivo,
}

module _ ⦃c : Bitarrays⦄ where
  open c use {bitarray_clean_bit}

  -- The table of nodes is the one of `d`.
  abbrev MismaTabla : {A : Type 0} → Disco → A → Disco → Type 0
  MismaTabla d a d' = d'.tabla_de_nodos ≡ d.tabla_de_nodos

  limpiar_datos-MismaTabla :
      (d : Disco) (bloque j q : ℕ) → Devuelve (MismaTabla d) (limpiar_datos bloque j q d)
  unfolding limpiar_datos limpiar_bit ◌>>=◌ ◌>>◌ gets modify pure
  limpiar_datos-MismaTabla d bloque j zero = (tt, d, refl, refl)
  limpiar_datos-MismaTabla d bloque j (suc q) =
      limpiar_datos-MismaTabla
        (record d { bitmap = bitarray_clean_bit d.bitmap (d.bloques bloque j) }) bloque (j + 1) q

  abbrev con_bit_limpio : Disco → ℕ → Disco
  con_bit_limpio d i = record d { bitmap = bitarray_clean_bit d.bitmap i }

  limpiar_bit-then :
      {B : Type 0} (i : ℕ) (k : Cmd Disco B) (d : Disco)
      → (limpiar_bit i >> k) d ≡ k (con_bit_limpio d i)
  unfolding limpiar_bit ◌>>◌ modify
  limpiar_bit-then i k d = refl

  Devuelve-MismaTabla :
      (d t : Disco) (r : Run Disco (Unit {0}))
      → t.tabla_de_nodos ≡ d.tabla_de_nodos
      → Devuelve (MismaTabla t) r
      → Devuelve (MismaTabla d) r
  Devuelve-MismaTabla d t r e (a, u, f, h) = (a, u, f, h ∙ e)

  limpiar_punteros-MismaTabla :
      (d : Disco) (nodo i q : ℕ) → Devuelve (MismaTabla d) (limpiar_punteros nodo i q d)
  unfolding limpiar_punteros ◌>>=◌ gets pure
  limpiar_punteros-MismaTabla d nodo i zero = (tt, d, refl, refl)
  limpiar_punteros-MismaTabla d nodo i (suc q) =
      let bloque = (d.tabla_de_nodos nodo).indirect_blocks_array i in
      let resto = limpiar_punteros nodo (i + 1) q in
      Devuelve-then (MismaTabla d) (MismaTabla d) (limpiar_datos bloque 0 punteros_a_bloques_datos)
        (limpiar_bit bloque >> resto) d
        (limpiar_datos-MismaTabla d bloque 0 punteros_a_bloques_datos)
        (λ a t e. Devuelve-igual (MismaTabla d) _ _ (limpiar_bit-then bloque resto t) (
          Devuelve-MismaTabla d t _ e
            (limpiar_punteros-MismaTabla (con_bit_limpio t bloque) nodo (i + 1) q)))

  abbrev Suelto : {A : Type 0} → Disco → A → Disco → Type 0
  Suelto d a d' = (d'.tabla_de_nodos ≡ d.tabla_de_nodos) × (d'.s_bitmap ≡ false)

  abbrev con_bitmap_tomado : Disco → Disco
  con_bitmap_tomado d = record d { s_bitmap = true }

  -- `borrar_contenido` behind its lock.
  cerrar :
      (bloque : ℕ) (d t : Disco)
      → t.tabla_de_nodos ≡ d.tabla_de_nodos
      → Devuelve (Suelto d) ((limpiar_bit bloque >> soltar_bitmap) t)
  unfolding limpiar_bit ◌>>◌ modify soltar_bitmap
  cerrar bloque d t e = (tt, record (con_bit_limpio t bloque) { s_bitmap = false }, refl, (e, refl))

  borrar_ultimo-Suelto :
      (d t : Disco) (tamanio : ℤ) (ultimo : ℕ)
      → t.tabla_de_nodos ≡ d.tabla_de_nodos
      → Devuelve (Suelto d) (borrar_ultimo tamanio ultimo t)
  unfolding borrar_ultimo
  borrar_ultimo-Suelto d t tamanio ultimo e =
      let n = datos_del_ultimo tamanio in
      Devuelve-then (MismaTabla t) (Suelto d) (limpiar_datos ultimo 0 n)
        (limpiar_bit ultimo >> soltar_bitmap) t (limpiar_datos-MismaTabla t ultimo 0 n)
        (λ k v g. cerrar ultimo d v (g ∙ e))

  pub borrar_contenido-Suelto :
      (d : Disco) (nodo : ℕ) (tamanio : ℤ)
      → d.s_bitmap ≡ false
      → Devuelve (Suelto d) (borrar_contenido nodo tamanio d)
  unfolding borrar_contenido tomar_bitmap
  borrar_contenido-Suelto d nodo tamanio suelto =
      let llenos = punteros_llenos tamanio in
      Devuelve-then (MismaTabla d) (Suelto d) tomar_bitmap _ d
        (tt, con_bitmap_tomado d, tomado, refl)
        (λ a t e.
          Devuelve-then (MismaTabla t) (Suelto d) (limpiar_punteros nodo 0 llenos) _ t
            (limpiar_punteros-MismaTabla t nodo 0 llenos)
            (λ b u f.
              Devuelve-igual (Suelto d) _ _
                (bind-gets (ultimo_bloque nodo tamanio) (borrar_ultimo tamanio) u)
                (borrar_ultimo-Suelto d u tamanio (ultimo_bloque nodo tamanio u) (f ∙ e))))
    where
      tomado : tomar_bitmap d ≡ ok tt (con_bitmap_tomado d)
      tomado = ap (λ b. tomar_si b (con_bitmap_tomado d)) suelto

  -- What `borrar_archivo` leaves: the node is not in use, and the others are as they were.
  abbrev pub Desocupa : {A : Type 0} → ℕ → Disco → A → Disco → Type 0
  Desocupa n d a d' =
      (((d'.tabla_de_nodos n).state == 0) ≡ true)
      × ((d'.tabla_de_nodos n).parent_dir_block ≡ (d.tabla_de_nodos n).parent_dir_block)
      × ((j : ℕ) → (j == n) ≡ false → d'.tabla_de_nodos j ≡ d.tabla_de_nodos j)
      × (d'.s_bitmap ≡ false)

  desocupar-Desocupa :
      (n : ℕ) (d t : Disco)
      → t.tabla_de_nodos ≡ d.tabla_de_nodos
      → t.s_bitmap ≡ false
      → Devuelve (Desocupa n d) ((desocupar n >> pure (pos 0)) t)
  unfolding desocupar cambiar_nodo ◌>>◌ modify pure
  desocupar-Desocupa n d t e s = (
    pos 0,
    con_nodo t n (record (t.tabla_de_nodos n) { state = 0; file_size = 0 }),
    refl,
    (
      rw (==_refl n) refl,
      rw (==_refl n) (ap (λ f. (f n).parent_dir_block) e),
      λ j h. rw h (ap (λ f. f j) e),
      s,
    ),
  )

  contenido-Suelto :
      (d : Disco) (n file_size : ℕ)
      → d.s_bitmap ≡ false
      → (b : Bool)
      → Devuelve (Suelto d) ((if b then borrar_contenido n (a_int file_size) else pure tt) d)
  unfolding pure
  contenido-Suelto d n file_size s true = borrar_contenido-Suelto d n (a_int file_size) s
  contenido-Suelto d n file_size s false = (tt, d, refl, (refl, s))

  nada-Suelto :
      (d : Disco) (n file_size : ℕ)
      → d.s_bitmap ≡ false
      → (b : Bool)
      → Devuelve (Suelto d) ((if b then pure tt else borrar_contenido_de n file_size) d)
  unfolding pure
  nada-Suelto d n file_size s true = (tt, d, refl, (refl, s))
  nada-Suelto d n file_size s false = contenido-Suelto d n file_size s (not (file_size == 0))

  borrar_nodo-Desocupa :
      (d : Disco) (n : ℕ) → d.s_bitmap ≡ false → Devuelve (Desocupa n d) (borrar_nodo n d)
  unfolding borrar_nodo borrar_nodo_con
  borrar_nodo-Desocupa d n s =
      let g = d.tabla_de_nodos n in
      Devuelve-then (Suelto d) (Desocupa n d)
        (if g.state == 2 then pure tt else borrar_contenido_de n g.file_size)
        (desocupar n >> pure (pos 0)) d (nada-Suelto d n g.file_size s (g.state == 2))
        (λ a t h. desocupar-Desocupa n d t (h.0) (h.1))

  -- With `s_bitmap` free, `borrar_archivo` returns for a node of the table.
  pub borrar_archivo-Desocupa :
      (d : Disco) (n : ℕ)
      → d.s_bitmap ≡ false
      → n < max_number_of_files
      → Devuelve (Desocupa n d) (borrar_archivo (pos n) d)
  unfolding borrar_archivo
  borrar_archivo-Desocupa d n s h =
      Devuelve-igual (Desocupa n d) _ _
        (bind-ok (nodo_valido (pos n)) borrar_nodo d d n (nodo_valido-ok n d h))
        (borrar_nodo-Desocupa d n s)
