-- ===== src/Sac/Escritura.antt =====
-- `escribir_archivo` of filesystem/sac_handlers.c, with its dictionary of mutexes.
pub mod Rondas
pub mod Primera
pub mod Mutexes
pub mod RoundTrip
use tp_sistemas_operativos.Base.{
  ℕ, zero, suc, put, ◌+◌, ◌*◌, ◌-◌, ◌%◌, Bool, true, false, ◌&&◌, not, List, ◌==◌, leb,
  if◌then◌else◌,
}
use tp_sistemas_operativos.Base.Int.{ℤ, pos, negsuc}
use tp_sistemas_operativos.Base.Lists.{take, drop}
use tp_sistemas_operativos.Comandos.{
  Run, ok, fault, blocks, agotado, Cmd, gets, modify, pure, agotar, ◌>>=◌, ◌>>◌,
}
use tp_sistemas_operativos.Wire.Bytes.{write_bytes}
use tp_sistemas_operativos.Sac.Disco.{
  Bitarrays, Rutas, Disco, Cadena, bloque_size, punteros_a_bloques_datos, blkindirect,
}
use tp_sistemas_operativos.Sac.Bloques.{
  setear_posicion, get_bloque_vacio, cantidad_bloques_libres, agregar_nodo, menos_enospc,
}
use tp_sistemas_operativos.Sac.Ordenes.{a_int, cambiar_nodo, nodo_valido, llamar}
use tp_sistemas_operativos.Sac.Nodos.{determine_nodo}
use tp_sistemas_operativos.Sac.Nodos.Crear.{leer_reloj}

-- commons/collections/dictionary.h, with paths for keys and the numbers of mutexes for values.
pub record Dictionaries : Type 1 where
  pub Dictionary : Type 0
  pub dictionary_has_key : Dictionary → Cadena → Bool
  pub dictionary_get : Dictionary → Cadena → ℕ
  pub dictionary_put : Dictionary → Cadena → ℕ → Dictionary

-- The variables of `escribir_archivo` that its loop changes. `file_size` is always that of the node.
pub record Escribe : Type 0 where
  pub off : ℕ
  pub tam : ℕ
  pub offset_in_block : ℕ
  pub buffer : List ℕ
  pub respuesta : ℤ

-- How the loop is left: at its end, by `goto finalizar`, or by a `return`.
pub data SalidaDeEscribir : Type 0 where
  completa : SalidaDeEscribir
  finaliza : ℤ → SalidaDeEscribir
  retorna : ℤ → SalidaDeEscribir

-- Where the next bytes go: a place in the data and the room behind it.
pub data Destino : Type 0 where
  en_bloque : ℕ → ℕ → Destino
  sin_bloque : SalidaDeEscribir → Destino

-- `-EFBIG`.
abbrev pub menos_efbig : ℤ
menos_efbig = negsuc 26

-- The room in the last block of a file. A file of size 0 has a block already.
unfoldable pub espacio_en_bloque : ℕ → ℕ
espacio_en_bloque file_size =
    if file_size == 0
    then bloque_size
    else if bloque_size - file_size % bloque_size == bloque_size
    then 0
    else bloque_size - file_size % bloque_size

module _ ⦃c : Bitarrays⦄ where
  -- What `agregar_nodo` answers for a new block.
  unfoldable pub destino_nuevo : ℕ → ℤ → Destino
  destino_nuevo bloque (pos zero) = en_bloque (bloque * bloque_size) bloque_size
  destino_nuevo bloque (pos (suc n)) = sin_bloque (finaliza (pos (suc n)))
  destino_nuevo bloque (negsuc e) = sin_bloque (finaliza (negsuc e))

  -- A new block at the end of the file, and the answer of `agregar_nodo`.
  unfoldable pub pedir_bloque : ℕ → ℤ → Cmd Disco (Destino × ℤ)
  unfolding ◌>>=◌ pure llamar cantidad_bloques_libres get_bloque_vacio agregar_nodo destino_nuevo
  pedir_bloque nodo respuesta = do
    libres ← llamar cantidad_bloques_libres
    if libres == 0 then pure (sin_bloque (retorna menos_enospc), respuesta) else (do
      nuevo ← llamar get_bloque_vacio
      elim nuevo [
        | negsuc e ↦ pure (sin_bloque (finaliza respuesta), respuesta)
        | pos bloque ↦ (do
          r ← llamar λ d. agregar_nodo d nodo bloque
          pure (destino_nuevo bloque r, r))
      ])

  -- The block that the file has at `off` already.
  unfoldable pub ubicar_bloque : Disco → ℕ → ℕ → ℕ
  unfolding setear_posicion
  ubicar_bloque d nodo off =
      let (n_pointer_block, n_data_block) = setear_posicion off in
      d.bloques ((d.tabla_de_nodos nodo).indirect_blocks_array n_pointer_block) n_data_block

  unfoldable pub elegir_bloque : ℕ → Escribe → Cmd Disco (Destino × ℤ)
  unfolding ◌>>=◌ gets espacio_en_bloque pedir_bloque ubicar_bloque
  elegir_bloque nodo e = do
    file_size ← gets λ d. (d.tabla_de_nodos nodo).file_size
    let space = espacio_en_bloque file_size
    if leb (file_size + space) e.off && not (file_size == 0)
        then pedir_bloque nodo e.respuesta
        else gets λ d. (en_bloque (ubicar_bloque d nodo e.off * bloque_size) space, e.respuesta)

  -- `memcpy` into the data, and the new size of the node.
  unfoldable pub poner_datos : ℕ → ℕ → List ℕ → (ℕ → ℕ) → Cmd Disco (Unit {0})
  unfolding ◌>>◌ modify cambiar_nodo write_bytes
  poner_datos nodo lugar bytes tamano = do
    modify λ d. record d { datos = write_bytes d.datos lugar bytes }
    cambiar_nodo nodo (λ g. record g { file_size = tamano g.file_size })

  -- The size of a file after a write of `tam` bytes at `off`.
  unfoldable pub tamano_tras : ℕ → ℕ → ℕ → ℕ
  tamano_tras off tam file_size =
      if leb file_size off
      then file_size + tam
      else if leb file_size (off + tam)
      then off + tam
      else file_size

  -- The copy of one round. A block that is written whole is written from its start.
  unfoldable pub escribir_ronda : ℕ → ℕ → ℕ → Escribe → Cmd Disco Escribe
  unfolding ◌>>◌ pure poner_datos tamano_tras
  escribir_ronda nodo data_block space e =
      if leb bloque_size e.tam
      then (do
        poner_datos nodo data_block (take bloque_size e.buffer)
            (λ s. if leb s e.off then s + bloque_size else s)
        pure (record e {
          off = e.off + bloque_size;
          tam = e.tam - bloque_size;
          offset_in_block = 0;
          buffer = drop bloque_size e.buffer;
        }))
      else if leb e.tam space
      then (do
        poner_datos nodo (data_block + e.offset_in_block) (take e.tam e.buffer)
            (tamano_tras e.off e.tam)
        pure (record e { tam = 0 }))
      else (do
        poner_datos nodo (data_block + e.offset_in_block) (take space e.buffer) (λ s. s + space)
        pure (record e {
          off = e.off + space;
          tam = e.tam - space;
          offset_in_block = 0;
          buffer = drop space e.buffer;
        }))

  -- A round with the block that it writes to, and what goes on after it.
  unfoldable pub escribir_destino :
      (Escribe → Cmd Disco SalidaDeEscribir)
      → ℕ
      → Escribe
      → Destino × ℤ
      → Cmd Disco SalidaDeEscribir
  unfolding ◌>>=◌ pure escribir_ronda
  escribir_destino sigue nodo e (sin_bloque s, r) = pure s
  escribir_destino sigue nodo e (en_bloque data_block space, r) =
      escribir_ronda nodo data_block space (record e { respuesta = r }) >>= sigue

  -- The `while` of `escribir_archivo`. A loop with no rounds left is `agotado`.
  unfoldable pub escribir_bucle : ℕ → ℕ → Escribe → Cmd Disco SalidaDeEscribir
  unfolding ◌>>=◌ pure agotar elegir_bloque escribir_destino
  escribir_bucle zero nodo e = agotar
  escribir_bucle (suc tope) nodo e = elim (e.tam) [
    | zero ↦ pure completa
    | suc t ↦ elegir_bloque nodo e >>= escribir_destino (escribir_bucle tope nodo) nodo e
  ]

module _ ⦃c : Bitarrays⦄ ⦃k : Dictionaries⦄ where
  open k use {Dictionary, dictionary_has_key, dictionary_get, dictionary_put}

  -- The disk with `diccionarioDeMutex`; `mutexes` says which of them are held.
  pub record Servidor : Type 0 where
    pub disco : Disco
    pub diccionario_de_mutex : Dictionary
    pub mutexes : ℕ → Bool
    pub proximo_mutex : ℕ

  abbrev pub con_disco : {A : Type 0} → Servidor → Run Disco A → Run Servidor A
  con_disco s (ok a d) = ok a (record s { disco = d })
  con_disco s fault = fault
  con_disco s blocks = blocks
  con_disco s agotado = agotado

  -- A command over the disk alone.
  unfoldable pub en_disco : {A : Type 0} → Cmd Disco A → Cmd Servidor A
  en_disco f s = con_disco s (f s.disco)

  -- The mutex of a path, made when it has none.
  unfoldable pub mutex_de : Cadena → Cmd Servidor ℕ
  mutex_de path s =
      if dictionary_has_key s.diccionario_de_mutex path
      then ok (dictionary_get s.diccionario_de_mutex path) s
      else ok s.proximo_mutex (record s {
        diccionario_de_mutex = dictionary_put s.diccionario_de_mutex path s.proximo_mutex;
        mutexes = put s.mutexes s.proximo_mutex false;
        proximo_mutex = suc s.proximo_mutex;
      })

  unfoldable pub tomar_mutex : ℕ → Cmd Servidor (Unit {0})
  tomar_mutex m s =
      if s.mutexes m then blocks else ok tt (record s { mutexes = put s.mutexes m true })

  unfoldable pub soltar_mutex : ℕ → Cmd Servidor (Unit {0})
  unfolding modify
  soltar_mutex m = modify λ s. record s { mutexes = put s.mutexes m false }

  -- What is behind the loop. A `return` in it keeps the mutex.
  unfoldable pub salir_de_escribir : ⦃r : Rutas⦄ → ℕ → ℕ → ℕ → SalidaDeEscribir → Cmd Servidor ℤ
  unfolding ◌>>=◌ ◌>>◌ pure a_int en_disco leer_reloj cambiar_nodo soltar_mutex
  salir_de_escribir nodo mutex size completa = do
    ahora ← en_disco leer_reloj
    en_disco (cambiar_nodo nodo (λ g. record g { modify_date = ahora }))
    soltar_mutex mutex
    pure (a_int size)
  salir_de_escribir nodo mutex size (finaliza r) = do soltar_mutex mutex; pure r
  salir_de_escribir nodo mutex size (retorna r) = pure r

  -- `escribir_archivo` with its mutex taken and a node of the table.
  unfoldable pub escribir_en_nodo : ⦃r : Rutas⦄ → ℕ → List ℕ → ℕ → ℕ → ℕ → ℕ → Cmd Servidor ℤ
  unfolding ◌>>=◌ pure gets a_int en_disco escribir_bucle salir_de_escribir
  escribir_en_nodo tope buffer size offset mutex n = do
    file_size ← gets λ s. (s.disco.tabla_de_nodos n).file_size
    let e : Escribe = record {
      off = offset;
      tam = size;
      offset_in_block = offset % bloque_size;
      buffer = buffer;
      respuesta = a_int size;
    }
    if leb (blkindirect * punteros_a_bloques_datos * bloque_size) (file_size + size)
        then pure menos_efbig
        else en_disco (escribir_bucle tope n e) >>= salir_de_escribir n mutex size

  unfoldable pub escribir_archivo : ⦃r : Rutas⦄ → ℕ → List ℕ → Cadena → ℕ → ℕ → Cmd Servidor ℤ
  unfolding ◌>>=◌ ◌>>◌ gets determine_nodo nodo_valido en_disco mutex_de tomar_mutex
      escribir_en_nodo
  escribir_archivo tope buffer path size offset = do
    nodo ← gets λ s. determine_nodo s.disco path
    mutex ← mutex_de path
    tomar_mutex mutex
    n ← en_disco (nodo_valido nodo)
    escribir_en_nodo tope buffer size offset mutex n
