-- ===== src/Sac/Escritura/Primera.antt =====
-- The first write to a file, of a block at most, by the loop of `escribir_archivo` in
-- filesystem/sac_handlers.c.
use tp_sistemas_operativos.Base.{
  ℕ, zero, suc, ◌+◌, ◌*◌, ◌-◌, ◌≤◌, ◌<◌, ◌≡◌, refl, sym, ap, ◌∙◌, true, false, ◌&&◌, not, List,
  ◌==◌, leb, if◌then◌else◌, arith, length, inl, inr, Bool-cases,
}
use tp_sistemas_operativos.Base.Int.{ℤ}
use tp_sistemas_operativos.Base.Lists.{take, take-length, drop}
use tp_sistemas_operativos.Comandos.{Run, ok, Cmd, modify, pure, ◌>>=◌, ◌>>◌}
use tp_sistemas_operativos.Comandos.Eval.{bind-ok}
use tp_sistemas_operativos.Wire.Bytes.{write_bytes}
use tp_sistemas_operativos.Sac.Disco.{Bitarrays, Disco, bloque_size}
use tp_sistemas_operativos.Sac.Bloques.{con_nodo}
use tp_sistemas_operativos.Sac.Ordenes.{cambiar_nodo}
use tp_sistemas_operativos.Sac.Escritura.{
  Escribe, SalidaDeEscribir, completa, espacio_en_bloque, ubicar_bloque, elegir_bloque, poner_datos,
  tamano_tras, escribir_ronda, escribir_destino, escribir_bucle,
}
use tp_sistemas_operativos.Sac.Escritura.Rondas.{tamano_de, escribir_bucle-ronda}

module _ ⦃c : Bitarrays⦄ where
  -- The bytes at the start of the first block, and the size of the file.
  abbrev pub con_bytes : Disco → ℕ → List ℕ → ℕ → Disco
  con_bytes d nodo bytes size =
      con_nodo
        (record d { datos = write_bytes d.datos (ubicar_bloque d nodo 0 * bloque_size) bytes }) nodo
        (record (d.tabla_de_nodos nodo) { file_size = size })

  -- A round that has nothing left to write is the last.
  escribir_bucle-fin :
      (tope : ℕ) (d : Disco) (nodo : ℕ) (e : Escribe)
      → e.tam ≡ 0
      → escribir_bucle (suc tope) nodo e d ≡ ok completa d
  unfolding escribir_bucle pure
  escribir_bucle-fin tope d nodo e h =
      let ronda : ℕ → Cmd Disco SalidaDeEscribir = elim [
        | zero ↦ pure completa
        | suc t ↦ elegir_bloque nodo e >>= escribir_destino (escribir_bucle tope nodo) nodo e
      ] in
      ap (λ z. ronda z d) h

  abbrev primera : ℕ → List ℕ → ℤ → Escribe
  primera size buffer r = record {
    off = 0;
    tam = size;
    offset_in_block = 0;
    buffer = buffer;
    respuesta = r;
  }

  -- A round that ends the write.
  abbrev Ultima : Disco → ℕ → List ℕ → ℕ → Run Disco Escribe → Type 0
  Ultima d nodo buffer size r =
      (e : Escribe) × (r ≡ ok e (con_bytes d nodo buffer size)) × (e.tam ≡ 0)

  take-todo : (n : ℕ) (l : List ℕ) → length l ≡ n → take n l ≡ l
  take-todo n l h = ap (λ z. take z l) (sym h) ∙ take-length l

  ronda-entera :
      (d : Disco) (nodo size : ℕ) (buffer : List ℕ) (r : ℤ)
      → tamano_de d nodo ≡ 0
      → length buffer ≡ size
      → size ≡ bloque_size
      → leb bloque_size size ≡ true
      → Ultima d nodo buffer size (
          escribir_ronda nodo
            (ubicar_bloque d nodo 0 * bloque_size)
            bloque_size
            (primera size buffer r)
            d)
  unfolding escribir_ronda poner_datos cambiar_nodo modify pure ◌>>◌
  ronda-entera d nodo size buffer r v l m h =
      let e : Escribe = record {
        off = 0 + bloque_size;
        tam = size - bloque_size;
        offset_in_block = 0;
        buffer = drop bloque_size buffer;
        respuesta = r;
      } in
      let t : take bloque_size buffer ≡ buffer = take-todo bloque_size buffer (l ∙ m) in
      let z : (if leb (tamano_de d nodo) 0
            then tamano_de d nodo + bloque_size
            else tamano_de d nodo)
          ≡ size =
        ground (arith, v, m) in
      let lugar = ubicar_bloque d nodo 0 * bloque_size in
      (
        e,
        rw h (λ i. ok e (
            con_nodo (record d { datos = write_bytes d.datos lugar (t i) }) nodo
              (record (d.tabla_de_nodos nodo) { file_size = z i }))),
        omega (arith, m),
      )

  ronda-parte :
      (d : Disco) (nodo size : ℕ) (buffer : List ℕ) (r : ℤ)
      → tamano_de d nodo ≡ 0
      → length buffer ≡ size
      → leb bloque_size size ≡ false
      → leb size bloque_size ≡ true
      → Ultima d nodo buffer size (
          escribir_ronda nodo
            (ubicar_bloque d nodo 0 * bloque_size)
            bloque_size
            (primera size buffer r)
            d)
  unfolding escribir_ronda poner_datos tamano_tras cambiar_nodo modify pure ◌>>◌
  ronda-parte d nodo size buffer r v l h g =
      let e : Escribe = record (primera size buffer r) { tam = 0 } in
      let t : take size buffer ≡ buffer = take-todo size buffer l in
      let lugar = ubicar_bloque d nodo 0 * bloque_size in
      let a : lugar + 0 ≡ lugar = omega arith in
      let z : tamano_tras 0 size (tamano_de d nodo) ≡ size = ground (arith, v) in
      (
        e,
        rw (h, g)
            (λ i. ok e (
              con_nodo (record d { datos = write_bytes d.datos (a i) (t i) }) nodo
                (record (d.tabla_de_nodos nodo) { file_size = z i }))),
        refl,
      )

  ronda-Ultima :
      (d : Disco) (nodo size : ℕ) (buffer : List ℕ) (r : ℤ)
      → tamano_de d nodo ≡ 0
      → length buffer ≡ size
      → size ≤ bloque_size
      → Ultima d nodo buffer size (
          escribir_ronda nodo
            (ubicar_bloque d nodo 0 * bloque_size)
            bloque_size
            (primera size buffer r)
            d)
  ronda-Ultima d nodo size buffer r v l m = elim (Bool-cases (leb bloque_size size)) [
    | inl h ↦ ronda-entera d nodo size buffer r v l (justo size m h) h
    | inr h ↦ ronda-parte d nodo size buffer r v l h (cabe size m)
  ]
    where
      justo : (s : ℕ) → s ≤ bloque_size → leb bloque_size s ≡ true → s ≡ bloque_size
      justo s a b = ground (arith, a, b)

      cabe : (s : ℕ) → s ≤ bloque_size → leb s bloque_size ≡ true
      cabe s a = ground (arith, a)

  vacio-espacio : (s : ℕ) → s ≡ 0 → espacio_en_bloque s ≡ bloque_size
  unfolding espacio_en_bloque
  vacio-espacio s h = ground (arith, h)

  -- In a file of size 0, of which the first block is there, two rounds write up to a block of bytes.
  pub escribir_bucle-primera :
      (tope : ℕ) (d : Disco) (nodo size : ℕ) (buffer : List ℕ) (r : ℤ)
      → tamano_de d nodo ≡ 0
      → length buffer ≡ size
      → 0 < size
      → size ≤ bloque_size
      → escribir_bucle (suc (suc tope)) nodo (primera size buffer r) d
        ≡ ok completa (con_bytes d nodo buffer size)
  escribir_bucle-primera tope d nodo size buffer r v l p m =
      let e = primera size buffer r in
      let lugar = ubicar_bloque d nodo 0 * bloque_size in
      let (e', k, t) = ronda-Ultima d nodo size buffer r v l m in
      escribir_bucle-ronda (suc tope) d nodo (size - 1) e (omega (arith, p)) (dentro v)
      ∙ ap (λ z. (escribir_ronda nodo lugar z e >>= escribir_bucle (suc tope) nodo) d)
          (vacio-espacio (tamano_de d nodo) v)
      ∙ bind-ok (escribir_ronda nodo lugar bloque_size e) (escribir_bucle (suc tope) nodo) d
          (con_bytes d nodo buffer size) e' k
      ∙ escribir_bucle-fin tope (con_bytes d nodo buffer size) nodo e' t
    where
      dentro :
          tamano_de d nodo ≡ 0
          → (leb (tamano_de d nodo + espacio_en_bloque (tamano_de d nodo)) 0
              && not (tamano_de d nodo == 0))
            ≡ false
      dentro v = ground (arith, v, vacio-espacio (tamano_de d nodo) v)
