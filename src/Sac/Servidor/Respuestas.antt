-- ===== src/Sac/Servidor/Respuestas.antt =====
-- The functions `sac_server_…` of filesystem/sac_servidor.c over the disk.
use tp_sistemas_operativos.Base.{ℕ, ◌-◌, ◌%◌, ◌^◌, List, [], ◌∷◌, ◌++◌, ◌==◌, if◌then◌else◌, length}
use tp_sistemas_operativos.Base.Int.{ℤ, pos, negsuc}
use tp_sistemas_operativos.Comandos.{Cmd, gets, pure, ◌>>=◌}
use tp_sistemas_operativos.Wire.Bytes.{read_bytes}
use tp_sistemas_operativos.Wire.Message.{Arg, Function, var_uint32, var_char_ptr}
use tp_sistemas_operativos.Sac.Disco.{Bitarrays, Rutas, Disco, Cadena}
use tp_sistemas_operativos.Sac.Nodos.{
  bloque_de_nodo, determine_nodo, completar_lista_con_file_names, lista_a_string, mismo_texto,
}
use tp_sistemas_operativos.Sac.Nodos.Crear.{crear_nuevo_nodo, renombrar_archivo}
use tp_sistemas_operativos.Sac.Espacio.{truncar_archivo}
use tp_sistemas_operativos.Sac.Borrar.{borrar_archivo, borrar_directorio}
use tp_sistemas_operativos.Sac.Lectura.{leer_archivo}
use tp_sistemas_operativos.Sac.Servidor.{
  function_rta_getattr, function_rta_readdir, function_rta_open, function_rta_opendir,
  function_rta_read, function_rta_mknod, function_rta_unlink, function_rta_mkdir,
  function_rta_rmdir, function_rta_getattr_nodoraiz, function_rta_truncate, function_rta_rename,
  arg_uint32, retornar_error, enviar_respuesta_basica, raiz,
}

module _ ⦃c : Bitarrays⦄ ⦃r : Rutas⦄ where
  -- What `validarSiExiste` answers for the number of a node. `-ENOENT` is -2.
  unfoldable pub respuesta_de_nodo : ℤ → ℕ → Function
  unfolding arg_uint32
  respuesta_de_nodo (negsuc e) tipo = record {
    type = 2 ^ 32 - 1;
    args = arg_uint32 (2 ^ 32 - 2) ∷ [];
  }
  respuesta_de_nodo (pos n) tipo = record { type = tipo; args = arg_uint32 0 ∷ [] }

  unfoldable pub validar_si_existe : Disco → Cadena → ℕ → Function
  unfolding mismo_texto arg_uint32 determine_nodo respuesta_de_nodo
  validar_si_existe d path tipo =
      if mismo_texto path raiz
      then record { type = tipo; args = arg_uint32 0 ∷ [] }
      else respuesta_de_nodo (determine_nodo d path) tipo

  unfoldable pub sac_server_open : Disco → Cadena → Function
  unfolding validar_si_existe
  sac_server_open d path = validar_si_existe d path function_rta_open

  unfoldable pub sac_server_opendir : Disco → Cadena → Function
  unfolding validar_si_existe
  sac_server_opendir d path = validar_si_existe d path function_rta_opendir

  unfoldable pub sac_server_rename : Cadena → Cadena → Cmd Disco Function
  unfolding ◌>>=◌ pure gets determine_nodo renombrar_archivo enviar_respuesta_basica
  sac_server_rename path nuevo_path = do
    nodo ← gets λ d. determine_nodo d path
    respuesta ← renombrar_archivo nodo nuevo_path
    pure (enviar_respuesta_basica respuesta function_rta_rename)

  unfoldable pub sac_server_truncate : ℕ → Cadena → ℕ → Cmd Disco Function
  unfolding ◌>>=◌ pure gets determine_nodo truncar_archivo enviar_respuesta_basica
  sac_server_truncate tope path size = do
    nodo ← gets λ d. determine_nodo d path
    respuesta ← truncar_archivo tope nodo size
    pure (enviar_respuesta_basica respuesta function_rta_truncate)

  -- S_IFREG | 0777 and S_IFDIR | 0777.
  unfoldable pub modo_de : ℕ → ℕ
  modo_de state = if state == 1 then 33279 else 16895

  -- What `sac_server_getattr` answers for a node. The time goes as a word of 8 bytes, of which
  -- `val_u32` sets 4.
  unfoldable pub atributos : Disco → ℤ → Function
  unfolding retornar_error arg_uint32 modo_de
  atributos d (negsuc e) = retornar_error
  atributos d (pos n) =
      let g = d.tabla_de_nodos n in
      let fecha : Arg = record { size = 8; value = var_uint32 (g.modify_date % 2 ^ 32) } in
      record {
        type = function_rta_getattr;
        args = arg_uint32 (modo_de g.state) ∷ arg_uint32 1 ∷ arg_uint32 g.file_size ∷ fecha ∷ [];
      }

  unfoldable pub sac_server_getattr : Disco → Cadena → Function
  unfolding mismo_texto arg_uint32 determine_nodo atributos
  sac_server_getattr d path =
      if mismo_texto path raiz
      then record {
        type = function_rta_getattr_nodoraiz;
        args = arg_uint32 16895 ∷ arg_uint32 1 ∷ [];
      }
      else atributos d (determine_nodo d path)

  unfoldable pub respuesta_de_texto : ℕ → List ℕ → Function
  respuesta_de_texto tipo xs = record {
    type = tipo;
    args = record { size = length xs; value = var_char_ptr xs } ∷ [];
  }

  -- The reply carries `sizeRespuesta` bytes of a buffer that was all 0.
  unfoldable pub sac_server_read : Cadena → ℕ → ℕ → Cmd Disco Function
  unfolding ◌>>=◌ pure leer_archivo respuesta_de_texto read_bytes
  sac_server_read path size offset = do
    leido ← leer_archivo (λ i. 0) path size offset
    pure (respuesta_de_texto function_rta_read (read_bytes leido.1 0 leido.0))

  -- The names of a directory, with the NUL behind them.
  unfoldable pub sac_server_readdir : Disco → Cadena → Function
  unfolding mismo_texto determine_nodo bloque_de_nodo completar_lista_con_file_names lista_a_string
      respuesta_de_texto
  sac_server_readdir d path =
      let padre = if mismo_texto path raiz then 0 else bloque_de_nodo d (determine_nodo d path) in
      respuesta_de_texto function_rta_readdir
        (lista_a_string (completar_lista_con_file_names d padre) ++ (0 ∷ []))

  unfoldable pub sac_server_mknod : Cadena → Cmd Disco Function
  unfolding ◌>>=◌ pure crear_nuevo_nodo enviar_respuesta_basica
  sac_server_mknod path = do
    respuesta ← crear_nuevo_nodo path 1
    pure (enviar_respuesta_basica respuesta function_rta_mknod)

  unfoldable pub sac_server_mkdir : Cadena → Cmd Disco Function
  unfolding ◌>>=◌ pure crear_nuevo_nodo enviar_respuesta_basica
  sac_server_mkdir path = do
    respuesta ← crear_nuevo_nodo path 2
    pure (enviar_respuesta_basica respuesta function_rta_mkdir)

  unfoldable pub sac_server_unlink : Cadena → Cmd Disco Function
  unfolding ◌>>=◌ pure gets determine_nodo borrar_archivo enviar_respuesta_basica
  sac_server_unlink path = do
    nodo ← gets λ d. determine_nodo d path
    respuesta ← borrar_archivo nodo
    pure (enviar_respuesta_basica respuesta function_rta_unlink)

  unfoldable pub sac_server_rmdir : ℕ → Cadena → Cmd Disco Function
  unfolding ◌>>=◌ pure gets determine_nodo borrar_directorio enviar_respuesta_basica
  sac_server_rmdir tope path = do
    nodo ← gets λ d. determine_nodo d path
    respuesta ← borrar_directorio tope nodo
    pure (enviar_respuesta_basica respuesta function_rta_rmdir)
