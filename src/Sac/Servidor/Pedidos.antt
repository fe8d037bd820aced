-- ===== src/Sac/Servidor/Pedidos.antt =====
-- `fuse_invoke_function` and `message_handler` of filesystem/sac_servidor.c. A reply that the code
-- leaves unset is a fault.
use tp_sistemas_operativos.Base.{ℕ, Option, none, some, List, [], ◌∷◌, ◌==◌, if◌then◌else◌}
use tp_sistemas_operativos.Comandos.{fault, Cmd, gets, pure, ◌>>=◌}
use tp_sistemas_operativos.Wire.Message.{
  Arg, Function, Message, message_call, message_function_ret, message_new_ult, desconocido,
  tam_data_function,
}
use tp_sistemas_operativos.Sac.Disco.{Bitarrays, Rutas, Disco, Cadena}
use tp_sistemas_operativos.Sac.Ordenes.{a_uint32}
use tp_sistemas_operativos.Sac.Escritura.{Dictionaries, Servidor, en_disco, escribir_archivo}
use tp_sistemas_operativos.Sac.Servidor.{
  function_rta_write, arg_uint32, texto_de, palabra_de, bytes_y_size,
}
use tp_sistemas_operativos.Sac.Servidor.Respuestas.{
  sac_server_open, sac_server_opendir, sac_server_rename, sac_server_truncate, sac_server_getattr,
  sac_server_read, sac_server_readdir, sac_server_mknod, sac_server_mkdir, sac_server_unlink,
  sac_server_rmdir,
}

module _ ⦃c : Bitarrays⦄ ⦃r : Rutas⦄ ⦃k : Dictionaries⦄ where
  unfoldable pub sac_server_write : ℕ → Cadena → List ℕ → ℕ → ℕ → Cmd Servidor Function
  unfolding ◌>>=◌ pure a_uint32 escribir_archivo arg_uint32
  sac_server_write tope path buf size offset = do
    respuesta ← escribir_archivo tope buf path size offset
    let reply : Function = record {
      type = function_rta_write;
      args = arg_uint32 (a_uint32 respuesta) ∷ [];
    }
    pure reply

  -- The reply to a request that only looks.
  unfoldable pub consultar : (Disco → Cadena → Function) → List Arg → Cmd Servidor Function
  unfolding ◌>>=◌ gets texto_de
  consultar f args = do path ← texto_de args 0; gets λ s. f s.disco path

  -- The reply to a request that has a path alone.
  unfoldable pub sobre_path : (Cadena → Cmd Disco Function) → List Arg → Cmd Servidor Function
  unfolding ◌>>=◌ texto_de en_disco
  sobre_path f args = do path ← texto_de args 0; en_disco (f path)

  unfoldable pub pedido_read : List Arg → Cmd Servidor Function
  unfolding ◌>>=◌ texto_de palabra_de en_disco sac_server_read
  pedido_read args = do
    offset ← palabra_de args 0
    path ← texto_de args 1
    size ← palabra_de args 2
    en_disco (sac_server_read path size offset)

  unfoldable pub pedido_write : ℕ → List Arg → Cmd Servidor Function
  unfolding ◌>>=◌ texto_de palabra_de bytes_y_size sac_server_write
  pedido_write tope args = do
    offset ← palabra_de args 0
    path ← texto_de args 1
    buf ← bytes_y_size args 2
    sac_server_write tope path buf.0 buf.1 offset

  unfoldable pub pedido_truncate : ℕ → List Arg → Cmd Servidor Function
  unfolding ◌>>=◌ texto_de palabra_de en_disco sac_server_truncate
  pedido_truncate tope args = do
    size ← palabra_de args 0
    path ← texto_de args 1
    en_disco (sac_server_truncate tope path size)

  unfoldable pub pedido_rename : List Arg → Cmd Servidor Function
  unfolding ◌>>=◌ texto_de en_disco sac_server_rename
  pedido_rename args = do
    path ← texto_de args 0
    nuevo_path ← texto_de args 1
    en_disco (sac_server_rename path nuevo_path)

  -- The `switch` of `fuse_invoke_function`. `tope` bounds the loops that do not end by themselves.
  -- The reply to an unknown request is unset.
  unfoldable pub fuse_invoke_function : ℕ → Function → Cmd Servidor Function
  unfolding consultar sobre_path sac_server_getattr sac_server_readdir sac_server_open
      sac_server_opendir sac_server_mknod sac_server_unlink sac_server_mkdir sac_server_rmdir
      pedido_read pedido_write pedido_truncate pedido_rename
  fuse_invoke_function tope f =
      if f.type == 9
      then consultar sac_server_getattr f.args
      else if f.type == 11
      then consultar sac_server_readdir f.args
      else if f.type == 13
      then consultar sac_server_open f.args
      else if f.type == 17
      then pedido_read f.args
      else if f.type == 15
      then consultar sac_server_opendir f.args
      else if f.type == 19
      then sobre_path sac_server_mknod f.args
      else if f.type == 21
      then pedido_write tope f.args
      else if f.type == 23
      then sobre_path sac_server_unlink f.args
      else if f.type == 25
      then sobre_path sac_server_mkdir f.args
      else if f.type == 27
      then sobre_path (sac_server_rmdir tope) f.args
      else if f.type == 30
      then pedido_truncate tope f.args
      else if f.type == 32
      then pedido_rename f.args
      else λ s. fault

  -- `message_handler`: what it sends back, if anything. The releases of memory are left out.
  unfoldable pub message_handler : ℕ → Message → Cmd Servidor (Option Message)
  unfolding ◌>>=◌ pure fuse_invoke_function tam_data_function
  message_handler tope m = elim (m.cuerpo) [
    | message_call f ↦ (do
      frespuesta ← fuse_invoke_function tope f
      let reply : Message = record {
        caller_id = 1;
        data_size = tam_data_function frespuesta;
        cuerpo = message_call frespuesta;
      }
      pure (some reply))
    | message_function_ret n ↦ pure none
    | message_new_ult ↦ pure none
    | desconocido t ↦ pure none
  ]
