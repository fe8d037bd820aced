-- ===== src/Sac/Escritura/Rondas.antt =====
-- The rounds of the `while` of `escribir_archivo` in filesystem/sac_handlers.c.
use tp_sistemas_operativos.Base.{
  ℕ, zero, suc, ◌+◌, ◌*◌, ◌-◌, ◌%◌, ◌<◌, ◌≡◌, refl, ap, ◌∙◌, false, ◌&&◌, not, ◌==◌, ==_refl, leb,
  arith,
}
use tp_sistemas_operativos.Base.Int.{ℤ}
use tp_sistemas_operativos.Base.Lists.{drop}
use tp_sistemas_operativos.Comandos.{ok, agotado, Cmd, gets, modify, pure, agotar, ◌>>=◌, ◌>>◌}
use tp_sistemas_operativos.Comandos.Eval.{bind-ok, if-false}
use tp_sistemas_operativos.Wire.Bytes.{write_bytes}
use tp_sistemas_operativos.Sac.Disco.{Bitarrays, Disco, bloque_size}
use tp_sistemas_operativos.Sac.Bloques.{con_nodo}
use tp_sistemas_operativos.Sac.Ordenes.{cambiar_nodo}
use tp_sistemas_operativos.Sac.Escritura.{
  Escribe, SalidaDeEscribir, completa, Destino, en_bloque, espacio_en_bloque, pedir_bloque,
  ubicar_bloque, elegir_bloque, poner_datos, escribir_ronda, escribir_destino, escribir_bucle,
}

pub espacio-lleno : (s : ℕ) → s % bloque_size ≡ 0 → 0 < s → espacio_en_bloque s ≡ 0
unfolding espacio_en_bloque
espacio-lleno s h p = ground (arith, h, p)

module _ ⦃c : Bitarrays⦄ where
  abbrev pub tamano_de : Disco → ℕ → ℕ
  tamano_de d nodo = (d.tabla_de_nodos nodo).file_size

  -- The block that a file has already, with the room behind its end.
  abbrev pub destino_de : Disco → ℕ → Escribe → Destino × ℤ
  destino_de d nodo e = (
    en_bloque (ubicar_bloque d nodo e.off * bloque_size) (espacio_en_bloque (tamano_de d nodo)),
    e.respuesta,
  )

  -- In front of the end of the file and of the room behind it no block is taken.
  pub elegir_bloque-dentro :
      (d : Disco) (nodo : ℕ) (e : Escribe)
      → (leb (tamano_de d nodo + espacio_en_bloque (tamano_de d nodo)) e.off
          && not (tamano_de d nodo == 0))
        ≡ false
      → elegir_bloque nodo e d ≡ ok (destino_de d nodo e) d
  unfolding elegir_bloque ◌>>=◌ gets
  elegir_bloque-dentro d nodo e h =
      if-false _ (pedir_bloque nodo e.respuesta)
        (gets λ x. (
          en_bloque (ubicar_bloque x nodo e.off * bloque_size)
              (espacio_en_bloque (tamano_de d nodo)),
          e.respuesta,
        ))
        d h

  -- A round that has something to write, in a block that the file has.
  pub escribir_bucle-ronda :
      (tope : ℕ) (d : Disco) (nodo t : ℕ) (e : Escribe)
      → e.tam ≡ suc t
      → (leb (tamano_de d nodo + espacio_en_bloque (tamano_de d nodo)) e.off
          && not (tamano_de d nodo == 0))
        ≡ false
      → escribir_bucle (suc tope) nodo e d
        ≡ (escribir_ronda nodo
                (ubicar_bloque d nodo e.off * bloque_size)
                (espacio_en_bloque (tamano_de d nodo))
                e
              >>= escribir_bucle tope nodo)
            d
  unfolding escribir_bucle escribir_destino pure
  escribir_bucle-ronda tope d nodo t e ht h =
      let ronda : ℕ → Cmd Disco SalidaDeEscribir = elim [
        | zero ↦ pure completa
        | suc t ↦ elegir_bloque nodo e >>= escribir_destino (escribir_bucle tope nodo) nodo e
      ] in
      ap (λ z. ronda z d) ht
      ∙ bind-ok (elegir_bloque nodo e) (escribir_destino (escribir_bucle tope nodo) nodo e) d d
          (destino_de d nodo e) (elegir_bloque-dentro d nodo e h)

  -- What a round leaves that fills a block up.
  abbrev relleno : Escribe → ℕ → Escribe
  relleno e space = record e {
    off = e.off + space;
    tam = e.tam - space;
    offset_in_block = 0;
    buffer = drop space e.buffer;
  }

  abbrev sin_cambio : Disco → ℕ → Disco
  sin_cambio d nodo =
      con_nodo d nodo (record (d.tabla_de_nodos nodo) { file_size = tamano_de d nodo + 0 })

  -- With no room in the block nothing is written.
  escribir_ronda-nada :
      (d : Disco) (nodo lugar : ℕ) (e : Escribe)
      → leb bloque_size e.tam ≡ false
      → leb e.tam 0 ≡ false
      → escribir_ronda nodo lugar 0 e d ≡ ok (relleno e 0) (sin_cambio d nodo)
  unfolding escribir_ronda poner_datos write_bytes cambiar_nodo modify pure ◌>>◌
  escribir_ronda-nada d nodo lugar e h g = rw (h, g) refl

  -- A file whose size is a multiple of the block and not 0, a write that starts in front of its end,
  -- and less than a block to write: the loop makes no progress, and no number of rounds is enough.
  pub escribir_bucle-no_termina :
      (tope : ℕ) (d : Disco) (nodo : ℕ) (e : Escribe)
      → tamano_de d nodo % bloque_size ≡ 0
      → e.off < tamano_de d nodo
      → 0 < e.tam
      → e.tam < bloque_size
      → escribir_bucle tope nodo e d ≡ agotado
  unfolding escribir_bucle agotar
  escribir_bucle-no_termina zero d nodo e a b p q = refl
  escribir_bucle-no_termina (suc tope) d nodo e a b p q =
      escribir_bucle-ronda tope d nodo (e.tam - 1) e (omega (arith, p)) dentro
      ∙ ap (λ z. (escribir_ronda nodo lugar z e >>= escribir_bucle tope nodo) d) sin_lugar
      ∙ bind-ok (escribir_ronda nodo lugar 0 e) (escribir_bucle tope nodo) d (sin_cambio d nodo)
          (relleno e 0) (escribir_ronda-nada d nodo lugar e chico (ground (arith, p)))
      ∙ escribir_bucle-no_termina tope (sin_cambio d nodo) nodo (relleno e 0)
          (ap (λ z. z % bloque_size) igual ∙ a) (omega (arith, b, igual)) (omega (arith, p))
          (omega (arith, q))
    where
      lugar : ℕ
      lugar = ubicar_bloque d nodo e.off * bloque_size

      sin_lugar : espacio_en_bloque (tamano_de d nodo) ≡ 0
      sin_lugar = espacio-lleno (tamano_de d nodo) a (omega (arith, b))

      dentro :
          (leb (tamano_de d nodo + espacio_en_bloque (tamano_de d nodo)) e.off
            && not (tamano_de d nodo == 0))
          ≡ false
      dentro = ground (arith, b, sin_lugar)

      chico : leb bloque_size e.tam ≡ false
      chico = ground (arith, q)

      igual : tamano_de (sin_cambio d nodo) nodo ≡ tamano_de d nodo
      igual = rw (tamano_de, ==_refl nodo) (omega arith)
